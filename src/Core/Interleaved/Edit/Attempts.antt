-- ===== src/Core/Interleaved/Edit/Attempts.antt =====
-- No update is lost: while other clients act, `replace_fact` and `append_line` (src/wenchang/core.py)
-- replace exactly the object that they have read and edited.
use wenchang.Base.{
  ℕ, zero, suc, true, ◌&&◌, Option, some, List, [], ◌≡◌, refl, sym, ap, and_iff, ◌∙◌, ==_iff, ◌⊎◌,
  inl, inr,
}
use wenchang.Base.Result.{ok}
use wenchang.Text.{Str, str_eq, str_eq_iff}
use wenchang.Utf8.{Bytes, encode}
use wenchang.Dict.{Dict, same_map}
use wenchang.Errors.{VersionToken}
use wenchang.FileFormat.Metadata.{Codec, Datetime, FileMetadata, metadata_from_map, rendered_map}
use wenchang.FileFormat.Metadata.RoundTrip.{metadata_to_map-eq_ok}
use wenchang.Storage.{Backend, StoredObject}
use wenchang.Storage.Shared.{Shared}
use wenchang.Core.{Config, MemoryFile}
use wenchang.Core.Content.{count_occurrences, replace_first, append_to}
use wenchang.Core.Steps.{encoded, decoded, stamp, conflict}
use wenchang.Core.Merge.{merge_metadata}
use wenchang.Core.Outcome.{encoded-eq_ok}
use wenchang.Core.Edit.{
  append_line, replace_fact, replace_attempts, recheck_append, landed_or_conflict,
  max_replace_attempts,
}
use wenchang.Core.Interleaved.{
  Runs-later, After, Runs, Runs-raise, Runs-pure, Runs-if, Runs-ensure, Runs-lift, Runs-demand,
  Runs-bind, Runs-now, Runs-get, Seen, Seen-to, Seen-from, Runs-weaken,
}
use wenchang.Core.Interleaved.Commit.{Runs-on_precondition, Runs-put}
use wenchang.Core.Interleaved.Edit.{Swapped-from, Swapped-to, Edited, edit_lem}

module _ (B : Backend) (C : Shared B) (c : Codec) (k : Config) (path source : Str)
    (aliases : Option (List Str)) (description : Option Str) where
  -- The text had one occurrence of the old text, which the new text has replaced.
  abbrev pub Replaces : Str → Str → Str → Str → Type 0
  Replaces old new text content =
      (count_occurrences text old ≡ 1) × (content ≡ replace_first text old new)

  replace_attempts-Edited :
      (attempts : ℕ) (old new : Str) (expected : VersionToken) (content : Str)
      (version : VersionToken) (s : B.State)
      → Runs B C s
          (replace_attempts B c k attempts path old new expected source aliases description content
            version)
          (Edited B C c k path source aliases description (Replaces old new) s)
  unfolding replace_attempts
  replace_attempts-Edited zero old new expected content version s = Runs-raise B C _
  replace_attempts-Edited (suc attempts) old new expected _ _ s =
      let again = λ (text : Str) (v : VersionToken).
        replace_attempts-Edited attempts old new expected text v s in
      Runs-bind B C _ _ (Runs-get B C path s) λ o t l seen. Runs-demand B C _ _ _ λ object found.
        Runs-lift B C _ _ λ text decodes. Runs-lift B C _ _ λ stored parses.
          Runs-ensure B C _ _ _ λ once. Runs-lift B C _ _ λ body encodes.
            Runs-ensure B C _ _ _ λ fits. Runs-bind B C _ _ (Runs-now B C t) λ now t₁ l₁ _.
              Runs-lift B C _ _ λ stamped merged. Runs-lift B C _ _ λ fields rendered.
                Runs-on_precondition B C _ _
                  (Runs-bind B C _ _ (Runs-put B C k t₁ path body fields (some object.version))
                    λ v t₂ l₂ swap. Runs-pure B C _ λ u l₃.
                      edit_lem B C c k path source aliases description (Replaces old new)
                        (replace_first text old new) s t u object text stored stamped now body
                        fields v l decodes parses merged ((==_iff _ _).0 once, refl) encodes
                        rendered (rw found at seen)
                        (Swapped-from B C t t₁ u l₁ (Swapped-to B C t₁ t₂ u l₃ swap)))
                  (Runs-later B C t₁ _ _ (C.Later-trans s t t₁ l l₁) (again text object.version))

  -- While other clients act, a `replace_fact` that returns has replaced, at one moment, exactly the
  -- object that it has read: that object's text has one occurrence of the old text, which the new
  -- text replaces, and its metadata is merged; no other object changed at that moment.
  pub replace_fact-Edited :
      (old new : Str) (expected : VersionToken) (s : B.State)
      → C.Good s
      → After B C s
          (Edited B C c k path source aliases description (Replaces old new) s)
          (replace_fact B c k path old new expected source aliases description s)
  unfolding replace_fact
  replace_fact-Edited old new expected s good =
      (Runs-ensure B C _ _ _ λ _. Runs-ensure B C _ _ _ λ _.
          Runs-ensure B C _ _ _
            λ _. replace_attempts-Edited max_replace_attempts old new expected [] expected s).at
        s good (C.Later-refl s)

  -- The bytes and the metadata of a file were stored at some moment.
  pub record Found (s : B.State) (f : MemoryFile) (u : B.State) : Type 0 where
    pub stored : StoredObject
    pub seen : Seen B C s path (some stored) u
    pub encodes : encode f.content ≡ some stored.body
    pub metadata : same_map stored.metadata (rendered_map c f.metadata) ≡ true
    pub version : stored.version ≡ f.version

  -- The file stands at some moment as this append would have written it: its bytes are those of the
  -- text that was read with the line behind it, and its metadata is what was read, merged.
  pub record Landed (line : Str) (expected : VersionToken) (s : B.State) (f : MemoryFile)
      (u : B.State) : Type 0 where
    pub old : StoredObject
    pub read : Seen B C s path (some old) u
    pub was_expected : old.version ≡ expected
    pub text : Str
    pub decodes : decoded old.body ≡ ok text
    pub appended : f.content ≡ append_to text line
    pub parsed : FileMetadata
    pub parses : metadata_from_map c old.metadata ≡ ok parsed
    pub now : Datetime
    pub merged : stamp (merge_metadata parsed source aliases description now) ≡ ok f.metadata
    pub found : Found s f u

  -- The text is the old text with the line behind it.
  abbrev pub Appends : Str → Str → Str → Type 0
  Appends line text content = content ≡ append_to text line

  recheck-Found :
      (content : Str) (body : Bytes) (stamped : FileMetadata) (fields : Dict Str) (s : B.State)
      → encoded content ≡ ok body
      → fields ≡ rendered_map c stamped
      → Runs B C s
          (recheck_append B c k path content body stamped fields)
          (λ f u. (f.content ≡ content) × (f.metadata ≡ stamped) × Found s f u)
  unfolding recheck_append landed_or_conflict conflict
  recheck-Found content body stamped fields s encodes rendered =
      Runs-bind B C _ _ (Runs-get B C path s) λ o t l seen. Runs-demand B C _ _ _ λ object found.
        Runs-if B C (str_eq object.body body && same_map object.metadata fields) _ _
          (λ same.
            let (bodies, maps) = (and_iff _ _).0 same in
            Runs-pure B C _ λ u l₁. (
              refl,
              refl,
              record {
                stored = object;
                seen = Seen-to B C s t u l₁ (rw found at seen);
                encodes =
                    encoded-eq_ok content body encodes ∙ ap some (sym ((str_eq_iff _ _).0 bodies));
                metadata = rw rendered at maps;
                version = refl;
              },
            ))
          (λ _. Runs-lift B C _ _ λ text _. Runs-raise B C _)

  Found-from :
      (s t : B.State) (f : MemoryFile) (u : B.State) → C.Later s t → Found t f u → Found s f u
  Found-from s t f u l d = record {
    stored = d.stored;
    seen = Seen-from B C s t u l d.seen;
    encodes = d.encodes;
    metadata = d.metadata;
    version = d.version;
  }

  -- While other clients act, an `append_line` that returns has read an object at the expected
  -- version, whose text with the line behind it is the new text, and whose metadata is merged. It
  -- has replaced exactly that object at one moment, at which no other object changed; or it has
  -- found the bytes of the new text stored, with the merged metadata.
  pub append_line-Edited :
      (line : Str) (expected : VersionToken) (s : B.State)
      → C.Good s
      → After B C s
          (λ f u.
            ((e : Edited B C c k path source aliases description (Appends line) s f u)
              × (e.old.version ≡ expected))
            ⊎ Landed line expected s f u)
          (append_line B c k path line expected source aliases description s)
  unfolding append_line edit_lem
  append_line-Edited line expected s good =
      (Runs-ensure B C _ _ _ λ _. Runs-ensure B C _ _ _ λ _. Runs-ensure B C _ _ _ λ _.
          Runs-bind B C _ _ (Runs-get B C path s) λ o t l seen.
            Runs-demand B C _ _ _ λ object found. Runs-lift B C _ _ λ text decodes.
              Runs-ensure B C _ _ _ λ current. Runs-lift B C _ _ λ stored parses.
                Runs-lift B C _ _ λ body encodes. Runs-ensure B C _ _ _ λ fits.
                  Runs-bind B C _ _ (Runs-now B C t) λ now t₁ l₁ _.
                    Runs-lift B C _ _ λ stamped merged. Runs-lift B C _ _ λ fields rendered.
                      let version : object.version ≡ expected = (str_eq_iff _ _).0 current in
                      Runs-on_precondition B C _ _
                        (Runs-bind B C _ _ (Runs-put B C k t₁ path body fields (some expected))
                          λ v t₂ l₂ swap. Runs-pure B C _ λ u l₃. inl (
                            (
                              edit_lem B C c k path source aliases description (Appends line)
                                  (append_to text line) s t u object text stored stamped now body
                                  fields v l decodes parses merged refl encodes rendered
                                  (rw found at seen)
                                  (Swapped-from B C t t₁ u l₁
                                    (Swapped-to B C t₁ t₂ u l₃ (rw version swap))),
                              version,
                            )))
                        (Runs-weaken B C _
                          (λ f u (content, metadata, stands). inr (record {
                            old = object;
                            read =
                                Seen-to B C s t u
                                  (C.Later-trans t t₁ u l₁ (
                                    C.Later-trans t₁ stands.seen.moment u stands.seen.from
                                      stands.seen.to))
                                  (rw found at seen);
                            was_expected = version;
                            text = text;
                            decodes = decodes;
                            appended = content;
                            parsed = stored;
                            parses = parses;
                            now = now;
                            merged = rw metadata merged;
                            found = Found-from s t₁ f u (C.Later-trans s t t₁ l l₁) stands;
                          }))
                          (recheck-Found (append_to text line) body stamped fields t₁ encodes
                            (metadata_to_map-eq_ok c stamped fields rendered).0))).at
        s good (C.Later-refl s)
