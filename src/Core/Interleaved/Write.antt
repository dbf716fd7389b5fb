-- ===== src/Core/Interleaved/Write.antt =====
-- `write_file` (src/wenchang/core.py) while other clients act: it replaces exactly the version that
-- was expected, and no source that this version recorded is lost.
use Prim.Native.Nat.{max}
use wenchang.Base.{
  ℕ, zero, suc, ◌-◌, Bool, true, not, Option, none, some, ◌≡◌, refl, arith, ltb, length,
}
use wenchang.Base.Result.{ok}
use wenchang.Text.{Str, str_eq, str_eq_iff}
use wenchang.Text.SortedSet.{SortedSet, insert, union}
use wenchang.Utf8.{Bytes, encode}
use wenchang.Paths.{PathParts, parse_path}
use wenchang.Errors.{VersionToken}
use wenchang.FileFormat.Metadata.{Codec, Datetime, FileMetadata, metadata_from_map, is_renderable}
use wenchang.FileFormat.Metadata.RoundTrip.{metadata_to_map-eq_ok}
use wenchang.Storage.{Backend, StoredObject}
use wenchang.Storage.Shared.{Shared}
use wenchang.Core.{Config, MemoryFile, index_system_area}
use wenchang.Core.Listing.{at_file_cap, at_file_cap_from}
use wenchang.Core.Steps.{stamp, conflict, conflict_checked}
use wenchang.Core.Outcome.{object_of, encoded-eq_ok}
use wenchang.Core.Write.{
  write_file, write_sources, at_limit, create_sources, refuse_create, replace_sources,
  report_current_checked,
}
use wenchang.Core.Interleaved.{
  After, Runs, Calm, Runs-raise, Runs-pure, Runs-if, Runs-ensure, Runs-lift, Runs-demand, Runs-bind,
  Runs-now, Runs-get, Runs-list_page, Seen, Seen-to,
}
use wenchang.Core.Interleaved.Commit.{Swapped, Runs-on_precondition, Runs-put}
use wenchang.Core.Interleaved.Edit.{Swapped-from, Swapped-to, read_is_expected}

module _ (B : Backend) (C : Shared B) (c : Codec) (k : Config) where
  conflict_raises :
      {A : Type 0} {s : B.State} (Q : A → B.State → Type 0) (path : Str) (o : StoredObject)
      → Runs B C s (conflict {S = B.State} {A = A} path o) Q
  unfolding conflict
  conflict_raises Q path o = Runs-lift B C _ _ λ content _. Runs-raise B C _

  conflict_checked_raises :
      {A : Type 0} {s : B.State} (Q : A → B.State → Type 0) (path : Str) (o : StoredObject)
      → Runs B C s (conflict_checked {S = B.State} {A = A} c path o) Q
  unfolding conflict_checked
  conflict_checked_raises Q path o =
      Runs-lift B C _ _ λ content _. Runs-lift B C _ _ λ metadata _. Runs-raise B C _

  report_raises :
      (Q : VersionToken → B.State → Type 0) (rounds : ℕ) (path : Str) (s : B.State)
      → Runs B C s (report_current_checked B c k rounds path) Q
  unfolding report_current_checked
  report_raises Q rounds path s =
      Runs-bind B C _ _ (Runs-get B C path s)
        λ o t l seen. Runs-demand B C _ _ _ λ object _. conflict_checked_raises Q path object

  at_file_cap_from-Calm :
      (rounds : ℕ) (prefix : Str) (limit count : ℕ) (start_after : Option Str) (s : B.State)
      → Calm B C s (at_file_cap_from B c k rounds prefix limit count start_after)
  unfolding at_file_cap_from
  at_file_cap_from-Calm zero prefix limit count start_after s = Runs-raise B C _
  at_file_cap_from-Calm (suc rounds) prefix limit count start_after s =
      Runs-if B C (not (ltb count limit)) _ _ (λ _. Runs-pure B C _ λ t l. tt)
        λ _.
          Runs-bind B C _ _
            (Runs-list_page B C prefix start_after (max (limit - count) k.list_page_size) s)
            λ objs t l _.
              Runs-if B C (ltb (length objs) (max (limit - count) k.list_page_size)) _ _
                (λ _. Runs-pure B C _ λ u m. tt)
                λ _. at_file_cap_from-Calm rounds prefix limit _ _ t

  at_limit-Calm :
      (rounds : ℕ) (limit : Option ℕ) (parts : Option PathParts) (s : B.State)
      → Calm B C s (at_limit B c k rounds limit parts)
  unfolding at_limit at_file_cap
  at_limit-Calm rounds none parts s = Runs-pure B C _ λ t l. tt
  at_limit-Calm rounds (some limit) none s = Runs-raise B C _
  at_limit-Calm rounds (some limit) (some parts) s =
      Runs-if B C (str_eq parts.area index_system_area) _ _ (λ _. Runs-pure B C _ λ t l. tt)
        λ _. Runs-demand B C _ _ _ λ prefix _. at_file_cap_from-Calm rounds prefix limit 0 none s

  module _ (path : Str) (given : SortedSet) (source : Str) where
    -- The sources of the new metadata, before the write.
    abbrev Prepared : B.State → Option VersionToken → SortedSet → B.State → Type 0
    Prepared s none sources u = sources ≡ insert source given
    Prepared s (some expected) sources u =
        (old : StoredObject) × (stored : FileMetadata) × Seen B C s path (some old) u
        × (old.version ≡ expected)
        × (metadata_from_map c old.metadata ≡ ok stored)
        × (sources ≡ insert source (union stored.sources given))

    sources_of_create :
        (rounds : ℕ) (limit : Option ℕ) (full : Bool) (s : B.State)
        → Runs B C s
            (create_sources B c k rounds path (insert source given) limit full)
            (Prepared s none)
    unfolding create_sources refuse_create
    sources_of_create rounds none full s = Runs-pure B C _ λ t l. refl
    sources_of_create rounds (some limit) full s =
        Runs-if B C full _ _
          (λ _.
            Runs-bind B C _ _ (Runs-get B C path s)
              λ o t l seen. Runs-demand B C _ _ _ λ object _. conflict_checked_raises _ path object)
          (λ _. Runs-pure B C _ λ t l. refl)

    write_sources-Prepared :
        (rounds : ℕ) (expected : Option VersionToken) (s : B.State)
        → Runs B C s (write_sources B c k rounds path given source expected) (Prepared s expected)
    unfolding write_sources replace_sources
    write_sources-Prepared rounds none s =
        Runs-bind B C _ _ (at_limit-Calm rounds k.max_files_per_entity (parse_path path) s)
          λ full t l _. sources_of_create rounds k.max_files_per_entity full t
    write_sources-Prepared rounds (some expected) s =
        Runs-bind B C _ _ (Runs-get B C path s) λ o t l seen. Runs-demand B C _ _ _ λ object found.
          Runs-lift B C _ _ λ stored parses.
            Runs-if B C (not (str_eq object.version expected)) _ _
              (λ _. conflict_raises _ path object)
              (λ current. Runs-pure B C _ λ u m. (
                object,
                stored,
                Seen-to B C s t u m (rw found at seen),
                (let same : str_eq object.version expected ≡ true = ground arith in
                    (str_eq_iff _ _).0 same),
                parses,
                refl,
              ))

    -- The sources that the write recorded: with those of the version that it replaced.
    abbrev pub Kept : Option VersionToken → SortedSet → B.State → Type 0
    Kept none sources before = sources ≡ insert source given
    Kept (some expected) sources before =
        (old : StoredObject) × (stored : FileMetadata) × (C.view before path ≡ some old)
        × (old.version ≡ expected)
        × (metadata_from_map c old.metadata ≡ ok stored)
        × (sources ≡ insert source (union stored.sources given))

    Prepared-Kept :
        (expected : Option VersionToken) (sources : SortedSet) (s t u : B.State)
        {o : Option StoredObject}
        → Prepared s expected sources t
        → (w : Swapped B C t path expected o u) → Kept expected sources w.before
    Prepared-Kept none sources s t u {o} p w = p
    Prepared-Kept (some expected) sources s t u {o} (old, stored, seen, version, parses, e) w =
        (old, stored, read_is_expected B C s t u expected version seen w, version, parses, e)

  -- Between two states, the file was replaced at one moment, at which the version expected stood
  -- there, by the content given; its sources hold those of the replaced version.
  pub record Replaced (path : Str) (content : Str) (metadata : FileMetadata)
      (expected : Option VersionToken) (source : Str) (s : B.State) (f : MemoryFile) (u : B.State)
      : Type 0 where
    pub content_given : f.content ≡ content
    pub body : Bytes
    pub encodes : encode content ≡ some body
    pub sources : SortedSet
    pub now : Datetime
    pub renders : is_renderable f.metadata.last_updated.micros ≡ true
    pub stamped : stamp (record metadata { sources = sources; last_updated = now }) ≡ ok f.metadata
    pub swap : Swapped B C s path expected (some (object_of c f body)) u
    pub kept : Kept path metadata.sources source expected sources swap.before

  -- While other clients act, a `write_file` that returns has put the content given, at one moment, in
  -- the place of exactly the version that was expected, or of no file, with the sources united with
  -- those of that version, and no other object changed at that moment.
  pub write_file-Replaced :
      (rounds : ℕ) (path : Str) (content : Str) (metadata : FileMetadata)
      (expected : Option VersionToken) (source : Str) (s : B.State)
      → C.Good s
      → After B C s
          (Replaced path content metadata expected source s)
          (write_file B c k rounds path content metadata expected source s)
  unfolding write_file Swapped-from Swapped-to
  write_file-Replaced rounds path content metadata expected source s good =
      (Runs-ensure B C _ _ _ λ _. Runs-ensure B C _ _ _ λ _. Runs-lift B C _ _ λ body encodes.
          Runs-ensure B C _ _ _ λ fits.
            Runs-bind B C _ _
              (write_sources-Prepared path metadata.sources source rounds expected s)
              λ sources t l prepared. Runs-bind B C _ _ (Runs-now B C t) λ now t₁ l₁ _.
                Runs-lift B C _ _ λ stamped st. Runs-lift B C _ _ λ fields rendered.
                  Runs-bind B C _ _
                    (Runs-on_precondition B C _ _ (Runs-put B C k t₁ path body fields expected)
                      (report_raises _ rounds path t₁))
                    λ v t₂ l₂ swap. Runs-pure B C _ λ u l₃.
                      let (same, renders) = metadata_to_map-eq_ok c stamped fields rendered in
                      let w =
                        Swapped-from B C t t₁ u l₁ (Swapped-to B C t₁ t₂ u l₃ (rw same at swap)) in
                      record {
                        content_given = refl;
                        body = body;
                        encodes = encoded-eq_ok content body encodes;
                        sources = sources;
                        now = now;
                        renders = renders;
                        stamped = st;
                        swap = Swapped-from B C s t u l w;
                        kept =
                            Prepared-Kept path metadata.sources source expected sources s t u
                              prepared w;
                      }).at
        s good (C.Later-refl s)
