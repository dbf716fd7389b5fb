-- ===== src/Core/Interleaved/Edit.antt =====
-- An edit (src/wenchang/core.py) while other clients act: what was read is what the write replaces.
pub mod Attempts
use wenchang.Base.{
  ℕ, zero, suc, Bool, true, false, not, ◌&&◌, Option, none, some, List, [], ◌≡◌, ◌≢◌, refl, sym,
  ◌∙◌, arith, leb, length, ◌==◌, ==_iff, if◌then◌else◌, ◌⊎◌, inl, inr,
}
use wenchang.Base.Result.{Result, ok, err}
use wenchang.Base.Exec.{Exec, pure, ◌>>=◌}
use wenchang.Text.{Str, str_eq, str_eq_iff}
use wenchang.Utf8.{Bytes, encode}
use wenchang.Dict.{Dict, same_map}
use wenchang.Errors.{Error, VersionToken}
use wenchang.FileFormat.Metadata.{
  Codec, Datetime, FileMetadata, metadata_to_map, metadata_from_map, is_renderable,
}
use wenchang.FileFormat.Metadata.RoundTrip.{metadata_to_map-eq_ok}
use wenchang.Storage.{Backend, StoredObject, current_version, same_token}
use wenchang.Storage.Shared.{Shared}
use wenchang.Core.{Config, MemoryFile}
use wenchang.Core.Content.{count_occurrences, replace_first, append_to}
use wenchang.Core.Merge.{merge_metadata}
use wenchang.Core.Steps.{decoded, encoded, stamp, on_precondition, conflict}
use wenchang.Core.Outcome.{object_of, encoded-eq_ok}
use wenchang.Core.Edit.{
  append_line, replace_fact, replace_attempts, recheck_append, landed_or_conflict,
  max_replace_attempts,
}
use wenchang.Core.Interleaved.{
  Runs-later, After, Runs, Runs-raise, Runs-pure, Runs-if, Runs-ensure, Runs-lift, Runs-demand,
  Runs-bind, Runs-now, Runs-get, Seen,
}
use wenchang.Core.Interleaved.Commit.{Swapped, Runs-on_precondition, Runs-put}

module _ (B : Backend) (C : Shared B) where
  unfoldable pub Swapped-from :
      (s t u : B.State) {path : Str} {expected : Option VersionToken} {o : Option StoredObject}
      → C.Later s t
      → Swapped B C t path expected o u
      → Swapped B C s path expected o u
  Swapped-from s t u l w = record {
    before = w.before;
    behind = w.behind;
    from = C.Later-trans s t w.before l w.from;
    at_once = w.at_once;
    to = w.to;
    good = w.good;
    matched = w.matched;
    views = w.views;
  }

  unfoldable pub Swapped-to :
      (s t u : B.State) {path : Str} {expected : Option VersionToken} {o : Option StoredObject}
      → C.Later t u
      → Swapped B C s path expected o t
      → Swapped B C s path expected o u
  Swapped-to s t u l w = record {
    before = w.before;
    behind = w.behind;
    from = w.from;
    at_once = w.at_once;
    to = C.Later-trans w.behind t u w.to l;
    good = w.good;
    matched = w.matched;
    views = w.views;
  }

  holder :
      (o : Option StoredObject) (v : VersionToken)
      → same_token (current_version o) (some v) ≡ true
      → (p : StoredObject) × (o ≡ some p) × (p.version ≡ v)
  holder none v h = cc h
  holder (some p) v h = (p, refl, (str_eq_iff _ _).0 h)

  -- The object that was read under the version that the write expected is the one that it replaced.
  pub read_is_expected :
      (s t u : B.State) {path : Str} {old : StoredObject} {o : Option StoredObject}
      (expected : VersionToken)
      → old.version ≡ expected
      → Seen B C s path (some old) t
      → (w : Swapped B C t path (some expected) o u) → C.view w.before path ≡ some old
  read_is_expected s t u {path} {old} expected e r w =
      let (p, held, version) = holder (C.view w.before path) expected w.matched in
      let same : p ≡ old =
        C.frozen r.moment w.before path old p r.good (C.Later-trans r.moment t w.before r.to w.from)
          r.holds held (version ∙ sym e) in
      held ∙ ground arith

  module _ (c : Codec) (k : Config) (path source : Str) (aliases : Option (List Str))
      (description : Option Str) where
    -- Between two states, the file was replaced by `f` at one moment, at which it held the object
    -- that `f` is the edit of.
    pub record Edited (Edit : Str → Str → Type 0) (s : B.State) (f : MemoryFile) (u : B.State)
        : Type 0 where
      pub old : StoredObject
      pub text : Str
      pub decodes : decoded old.body ≡ ok text
      pub edited : Edit text f.content
      pub stored : FileMetadata
      pub parses : metadata_from_map c old.metadata ≡ ok stored
      pub now : Datetime
      pub merged : stamp (merge_metadata stored source aliases description now) ≡ ok f.metadata
      pub renders : is_renderable f.metadata.last_updated.micros ≡ true
      pub body : Bytes
      pub encodes : encode f.content ≡ some body
      pub swap : Swapped B C s path (some old.version) (some (object_of c f body)) u
      pub held : C.view swap.before path ≡ some old

    -- The write of an edit that was computed from what a `get` has seen.
    unfoldable pub edit_lem :
        (Edit : Str → Str → Type 0) (content : Str) (s t u : B.State) (old : StoredObject)
        (text : Str) (stored m : FileMetadata) (now : Datetime) (body : Bytes) (fields : Dict Str)
        (v : VersionToken)
        → C.Later s t
        → decoded old.body ≡ ok text
        → metadata_from_map c old.metadata ≡ ok stored
        → stamp (merge_metadata stored source aliases description now) ≡ ok m
        → Edit text content
        → encoded content ≡ ok body
        → metadata_to_map c m ≡ ok fields
        → Seen B C s path (some old) t
        → Swapped B C t path
            (some old.version)
            (some (record { body = body; metadata = fields; version = v }))
            u
        → Edited Edit s (record { path = path; content = content; metadata = m; version = v }) u
    unfolding Swapped-from
    edit_lem Edit content s t u old text stored m now body fields v l decodes parses merged edited
          encodes rendered r w =
        let (same, renders) = metadata_to_map-eq_ok c m fields rendered in
        let w' = rw same at w in
        record {
          old = old;
          text = text;
          decodes = decodes;
          edited = edited;
          stored = stored;
          parses = parses;
          now = now;
          merged = merged;
          renders = renders;
          body = body;
          encodes = encoded-eq_ok content body encodes;
          swap = Swapped-from s t u l w';
          held = read_is_expected s t u old.version refl r w';
        }
