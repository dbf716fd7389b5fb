-- ===== src/Core/Edit/Outcome.antt =====
-- `append_line` and `replace_fact` commit exactly the edited file, or change nothing.
use wenchang.Base.{
  true, Option, some, List, ◌≡◌, ◌≢◌, refl, ap, sym, ◌∙◌, leb, leb→le, length, ==_iff,
}
use wenchang.Base.Result.{ok}
use wenchang.Text.{Str, str_eq_iff}
use wenchang.Utf8.{Bytes}
use wenchang.Dict.{Dict}
use wenchang.Paths.{is_valid_path}
use wenchang.Errors.{VersionToken}
use wenchang.FileFormat.Metadata.{
  Codec, Datetime, FileMetadata, IsMetadata, metadata_to_map, metadata_from_map,
}
use wenchang.FileFormat.Metadata.RoundTrip.{metadata_from_map-IsMetadata, metadata_to_map-eq_ok}
use wenchang.Text.SortedSet.{IsSorted, IsSorted-insert}
use wenchang.Storage.{Backend, StoredObject}
use wenchang.Storage.Contract.{Contract}
use wenchang.Core.{Config, MemoryFile}
use wenchang.Core.Content.{count_occurrences, replace_first, append_to}
use wenchang.Core.Merge.{merge_metadata}
use wenchang.Core.Steps.{decoded, encoded, stamp}
use wenchang.Core.Rules.{Leaves, Leaves-ensure, Leaves-lift, Leaves-demand, Leaves-get, Leaves-now}
use wenchang.Core.Commit.{Stored, Leaves-put_matched}
use wenchang.Core.Outcome.{Wrote, encoded-eq_ok, stamp-eq_ok}
use wenchang.Core.Edit.{append_line, replace_fact, replace_attempts}

module _ (B : Backend) (C : Contract B) (c : Codec) (k : Config) (s₀ : B.State) where
  -- The metadata of an edited file: the stored metadata, merged with the arguments.
  pub record Merged (old : StoredObject) (source : Str) (aliases : Option (List Str))
      (description : Option Str) (m : FileMetadata) : Type 0 where
    pub stored : FileMetadata
    pub parses : metadata_from_map c old.metadata ≡ ok stored
    pub now : Datetime
    pub merged : m ≡ merge_metadata stored source aliases description now
    pub valid : IsMetadata m

  merge-Merged :
      (old : StoredObject) (source : Str) (aliases : Option (List Str)) (description : Option Str)
      (stored m : FileMetadata) (now : Datetime)
      → metadata_from_map c old.metadata ≡ ok stored
      → stamp (merge_metadata stored source aliases description now) ≡ ok m
      → Merged old source aliases description m
  merge-Merged old source aliases description stored m now p h =
      let v = metadata_from_map-IsMetadata c old.metadata stored p in
      let sorted : IsSorted (merge_metadata stored source aliases description now).sources =
        unfold merge_metadata in IsSorted-insert source stored.sources v.sorted in
      let (e, valid) = stamp-eq_ok _ m sorted h in
      record { stored = stored; parses = p; now = now; merged = e; valid = valid }

  module _ (path : Str) (source : Str) (aliases : Option (List Str))
      (description : Option Str) where
    -- The file was at the version given, and its new text is the old text with the line appended.
    pub record Appended (line : Str) (expected : VersionToken) (f : MemoryFile) (s : B.State)
        : Type 0 where
      pub old : StoredObject
      pub found : C.view s₀ path ≡ some old
      pub version : old.version ≡ expected
      pub text : Str
      pub decodes : decoded old.body ≡ ok text
      pub appended : f.content ≡ append_to text line
      pub merged : Merged old source aliases description f.metadata
      pub fresh : f.version ≢ expected
      pub wrote : Wrote B C c k s₀ path f s

    -- The edited file, once its put went through.
    wrote_lem :
        (old : StoredObject) (content : Str) (body : Bytes) (stamped : FileMetadata)
        (fields : Dict Str) (v : VersionToken) (s : B.State)
        → is_valid_path path ≡ true
        → encoded content ≡ ok body
        → leb (length body) k.max_file_bytes ≡ true
        → Merged old source aliases description stamped
        → metadata_to_map c stamped ≡ ok fields
        → Stored B C k s₀ path body fields (some old.version) v s
        → Wrote B C c k s₀ path
            (record { path = path; content = content; metadata = stamped; version = v })
            s
    wrote_lem old content body stamped fields v s valid encodes fits merged rendered stored =
        let (same, renders) = metadata_to_map-eq_ok c stamped fields rendered in
        record {
          body = body;
          valid = valid;
          at_path = refl;
          encodes = encoded-eq_ok content body encodes;
          fits = leb→le _ _ fits;
          metadata = merged.valid;
          renders = renders;
          changed = rw same at stored.changed;
        }

    -- An `append_line` that returns has found the file at the expected version, has appended the
    -- line to its text and has changed no other object; one that raises has changed no object.
    pub append_line-Appended :
        (line : Str) (expected : VersionToken)
        → Leaves B C s₀
            (append_line B c k path line expected source aliases description)
            (Appended line expected)
    unfolding append_line
    append_line-Appended line expected = Leaves-ensure B C s₀ _ _ _ λ valid.
        Leaves-ensure B C s₀ _ _ _ λ _. Leaves-ensure B C s₀ _ _ _ λ _. Leaves-get B C s₀ _ _ (
          Leaves-demand B C s₀ _ _ _ λ old found. Leaves-lift B C s₀ _ _ λ text decodes.
            Leaves-ensure B C s₀ _ _ _ λ current. Leaves-lift B C s₀ _ _ λ metadata parses.
              Leaves-lift B C s₀ _ _ λ body encodes. Leaves-ensure B C s₀ _ _ _ λ fits.
                Leaves-now B C s₀ _ λ now aware. Leaves-lift B C s₀ _ _ λ stamped st.
                  let version : old.version ≡ expected = (str_eq_iff _ _).0 current in
                  let merged =
                    merge-Merged old source aliases description metadata stamped now parses st in
                  Leaves-lift B C s₀ _ _ λ fields rendered.
                    Leaves-put_matched B C k s₀ path body _ _ _ _ _ (rw found current) λ v s stored.
                      record {
                        old = old;
                        found = found;
                        version = version;
                        text = text;
                        decodes = decodes;
                        appended = refl;
                        merged = merged;
                        fresh = λ same. stored.fresh (rw found (ap some (version ∙ sym same)));
                        wrote =
                            wrote_lem old _ body stamped fields v s valid encodes fits merged
                              rendered (rw version stored);
                      })

    -- The file's text had one occurrence of the old text, which the new text has replaced.
    pub record Replaced (old_text new_text : Str) (f : MemoryFile) (s : B.State) : Type 0 where
      pub old : StoredObject
      pub found : C.view s₀ path ≡ some old
      pub text : Str
      pub decodes : decoded old.body ≡ ok text
      pub once : count_occurrences text old_text ≡ 1
      pub replaced : f.content ≡ replace_first text old_text new_text
      pub merged : Merged old source aliases description f.metadata
      pub wrote : Wrote B C c k s₀ path f s

    -- A `replace_fact` that returns has found exactly one occurrence, has replaced it and has changed
    -- no other object; one that raises has changed no object.
    pub replace_fact-Replaced :
        (old_text new_text : Str) (expected : VersionToken)
        → Leaves B C s₀
            (replace_fact B c k path old_text new_text expected source aliases description)
            (Replaced old_text new_text)
    unfolding replace_fact replace_attempts
    replace_fact-Replaced old_text new_text expected = Leaves-ensure B C s₀ _ _ _ λ valid.
        Leaves-ensure B C s₀ _ _ _ λ _. Leaves-ensure B C s₀ _ _ _ λ _. Leaves-get B C s₀ _ _ (
          Leaves-demand B C s₀ _ _ _ λ old found. Leaves-lift B C s₀ _ _ λ text decodes.
            Leaves-lift B C s₀ _ _ λ metadata parses. Leaves-ensure B C s₀ _ _ _ λ once.
              Leaves-lift B C s₀ _ _ λ body encodes. Leaves-ensure B C s₀ _ _ _ λ fits.
                Leaves-now B C s₀ _ λ now aware. Leaves-lift B C s₀ _ _ λ stamped st.
                  let merged =
                    merge-Merged old source aliases description metadata stamped now parses st in
                  Leaves-lift B C s₀ _ _ λ fields rendered.
                    Leaves-put_matched B C k s₀ path body _ _ _ _ _
                      (rw found ((str_eq_iff _ _).1 refl))
                      λ v s stored. record {
                        old = old;
                        found = found;
                        text = text;
                        decodes = decodes;
                        once = (==_iff _ _).0 once;
                        replaced = refl;
                        merged = merged;
                        wrote =
                            wrote_lem old _ body stamped fields v s valid encodes fits merged
                              rendered stored;
                      })
