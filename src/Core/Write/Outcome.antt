-- ===== src/Core/Write/Outcome.antt =====
-- `write_file` commits exactly the given content, or changes nothing.
use Prim.Native.Nat.{max}
use wenchang.Base.{
  ℕ, zero, suc, ◌-◌, Bool, true, not, Option, none, some, ◌≡◌, ◌≢◌, refl, ap, leb→le, ltb, length,
}
use wenchang.Base.Result.{ok}
use wenchang.Base.Exec.{pure}
use wenchang.Text.{Str, str_eq}
use wenchang.Text.SortedSet.{SortedSet, IsSorted, IsSorted-insert, IsSorted-union, insert, union}
use wenchang.Paths.{PathParts, parse_path}
use wenchang.Errors.{VersionToken}
use wenchang.FileFormat.Metadata.{Codec, FileMetadata, metadata_from_map}
use wenchang.FileFormat.Metadata.RoundTrip.{metadata_from_map-IsMetadata, metadata_to_map-eq_ok}
use wenchang.Storage.{Backend, StoredObject, current_version, same_token}
use wenchang.Storage.Contract.{Contract}
use wenchang.Core.{Config, MemoryFile, index_system_area}
use wenchang.Core.Listing.{at_file_cap, at_file_cap_from}
use wenchang.Core.Steps.{conflict, conflict_checked}
use wenchang.Core.Rules.{
  Same, Leaves, Quiet, Leaves-raise, Leaves-pure, Leaves-if, Leaves-ensure, Leaves-lift,
  Leaves-demand, Leaves-get, Leaves-now, Leaves-list_page, Leaves-bind, Leaves-bind_with,
}
use wenchang.Core.Commit.{Leaves-put}
use wenchang.Core.Outcome.{Wrote, encoded-eq_ok, stamp-eq_ok}
use wenchang.Core.Write.{
  write_file, write_sources, at_limit, create_sources, refuse_create, replace_sources,
  report_current_checked,
}

module _ (B : Backend) (C : Contract B) (c : Codec) (k : Config) (s₀ : B.State) where
  -- Reporting a conflict raises, and writes nothing.
  conflict_raises :
      {A : Type 0} (Q : A → B.State → Type 0) (path : Str) (o : StoredObject)
      → Leaves B C s₀ (conflict {S = B.State} {A = A} path o) Q
  unfolding conflict
  conflict_raises Q path o = Leaves-lift B C s₀ _ _ λ content _. Leaves-raise B C s₀ _

  conflict_checked_raises :
      {A : Type 0} (Q : A → B.State → Type 0) (path : Str) (o : StoredObject)
      → Leaves B C s₀ (conflict_checked {S = B.State} {A = A} c path o) Q
  unfolding conflict_checked
  conflict_checked_raises Q path o =
      Leaves-lift B C s₀ _ _ λ content _. Leaves-lift B C s₀ _ _ λ metadata _. Leaves-raise B C s₀ _

  report_raises :
      (rounds : ℕ) (path : Str)
      → Leaves B C s₀ (report_current_checked B c k rounds path) (λ _ _. ⊥)
  unfolding report_current_checked
  report_raises rounds path =
      Leaves-get B C s₀ _ _ (Leaves-demand B C s₀ _ _ _ λ o _. conflict_checked_raises _ path o)

  at_file_cap_from-Quiet :
      (rounds : ℕ) (prefix : Str) (limit count : ℕ) (start_after : Option Str)
      → Quiet B C s₀ (at_file_cap_from B c k rounds prefix limit count start_after)
  unfolding at_file_cap_from
  at_file_cap_from-Quiet zero prefix limit count start_after = Leaves-raise B C s₀ _
  at_file_cap_from-Quiet (suc rounds) prefix limit count start_after =
      Leaves-if B C s₀ (not (ltb count limit)) _ _ (λ _. Leaves-pure B C s₀ _ λ s same. same)
        λ _. Leaves-list_page B C s₀ _ _ _ _ λ objs.
          Leaves-if B C s₀ (ltb (length objs) (max (limit - count) k.list_page_size)) _ _
            (λ _. Leaves-pure B C s₀ _ λ s same. same)
            λ _. at_file_cap_from-Quiet rounds prefix limit _ _

  at_limit-Quiet :
      (rounds : ℕ) (limit : Option ℕ) (parts : Option PathParts)
      → Quiet B C s₀ (at_limit B c k rounds limit parts)
  unfolding at_limit at_file_cap
  at_limit-Quiet rounds none parts = Leaves-pure B C s₀ _ λ s same. same
  at_limit-Quiet rounds (some limit) none = Leaves-raise B C s₀ _
  at_limit-Quiet rounds (some limit) (some parts) =
      Leaves-if B C s₀ (str_eq parts.area index_system_area) _ _
        (λ _. Leaves-pure B C s₀ _ λ s same. same)
        λ _.
          Leaves-demand B C s₀ _ _ _ λ prefix _. at_file_cap_from-Quiet rounds prefix limit 0 none

  module _ (rounds : ℕ) (path : Str) (given : SortedSet) (source : Str) where
    -- The sources of the new metadata: the caller's and the surface, and on a replacement those that
    -- the file had.
    abbrev pub SourcesFor : Option VersionToken → SortedSet → Type 0
    SourcesFor none sources = sources ≡ insert source given
    SourcesFor (some expected) sources =
        (old : StoredObject) × (stored : FileMetadata) × (C.view s₀ path ≡ some old)
        × (metadata_from_map c old.metadata ≡ ok stored)
        × (sources ≡ insert source (union stored.sources given))

    -- What is known of the sources when the metadata is stamped.
    abbrev Known : Option VersionToken → SortedSet → Type 0
    Known expected sources = (IsSorted given → IsSorted sources) × SourcesFor expected sources

    sources_of_create :
        (limit : Option ℕ) (full : Bool)
        → Leaves B C s₀
            (create_sources B c k rounds path (insert source given) limit full)
            (λ sources s. Known none sources × Same B C s₀ s)
    unfolding create_sources refuse_create
    sources_of_create none full =
        Leaves-pure B C s₀ _ λ s same. ((IsSorted-insert source given, refl), same)
    sources_of_create (some limit) full =
        Leaves-if B C s₀ full _ _
          (λ _.
            Leaves-get B C s₀ _ _
              (Leaves-demand B C s₀ _ _ _ λ o _. conflict_checked_raises _ path o))
          (λ _. Leaves-pure B C s₀ _ λ s same. ((IsSorted-insert source given, refl), same))

    sources_of_replace :
        (expected : VersionToken)
        → Leaves B C s₀
            (replace_sources B c k rounds path given source expected)
            (λ sources s. Known (some expected) sources × Same B C s₀ s)
    unfolding replace_sources
    sources_of_replace expected = Leaves-get B C s₀ _ _ (
        Leaves-demand B C s₀ _ _ _ λ old found. Leaves-lift B C s₀ _ _ λ stored parses.
          Leaves-if B C s₀ (not (str_eq old.version expected)) _ _ (λ _. conflict_raises _ path old)
            (λ _. Leaves-pure B C s₀ _ λ s same. (
              (
                λ _. IsSorted-insert source _ (
                    IsSorted-union stored.sources given
                      (metadata_from_map-IsMetadata c old.metadata stored parses).sorted),
                (old, stored, found, parses, refl),
              ),
              same,
            )))

    write_sources-Known :
        (expected : Option VersionToken)
        → Leaves B C s₀
            (write_sources B c k rounds path given source expected)
            (λ sources s. Known expected sources × Same B C s₀ s)
    unfolding write_sources
    write_sources-Known none =
        Leaves-bind B C s₀ _ _ (at_limit-Quiet rounds k.max_files_per_entity (parse_path path))
          λ full. sources_of_create k.max_files_per_entity full
    write_sources-Known (some expected) = sources_of_replace expected

  module _ (rounds : ℕ) (path : Str) (source : Str) where
    -- The file that a `write_file` returned: the version matched, the content is the one given, and
    -- the metadata is the given metadata with these sources.
    pub record Written (content : Str) (metadata : FileMetadata) (expected : Option VersionToken)
        (f : MemoryFile) (s : B.State) : Type 0 where
      pub matched : same_token (current_version (C.view s₀ path)) expected ≡ true
      pub fresh : current_version (C.view s₀ path) ≢ some f.version
      pub content_given : f.content ≡ content
      pub description : f.metadata.description ≡ metadata.description
      pub aliases : f.metadata.aliases ≡ metadata.aliases
      pub sources : SourcesFor rounds path metadata.sources source expected f.metadata.sources
      pub wrote : Wrote B C c k s₀ path f s

    -- A `write_file` that returns has found no file, or the file at the expected version, has stored
    -- the content given under a new version, with the sources united, and has changed no other
    -- object; one that raises has changed no object.
    pub write_file-Written :
        (content : Str) (metadata : FileMetadata) (expected : Option VersionToken)
        → IsSorted metadata.sources
        → Leaves B C s₀
            (write_file B c k rounds path content metadata expected source)
            (Written content metadata expected)
    unfolding write_file pure
    write_file-Written content metadata expected sorted = Leaves-ensure B C s₀ _ _ _ λ valid.
        Leaves-ensure B C s₀ _ _ _ λ _. Leaves-lift B C s₀ _ _ λ body encodes.
          Leaves-ensure B C s₀ _ _ _ λ fits.
            Leaves-bind_with B C s₀ _ _
              (write_sources-Known rounds path metadata.sources source expected)
              λ sources known. Leaves-now B C s₀ _ λ now aware. Leaves-lift B C s₀ _ _ λ stamped st.
                let (merged, good) = stamp-eq_ok _ stamped (known.0 sorted) st in
                let rules = metadata_to_map-eq_ok c stamped in
                Leaves-lift B C s₀ _ _ λ fields rendered.
                  Leaves-put B C k s₀ path body _ _ _ _ _ (report_raises rounds path) λ v s stored.
                    record {
                      matched = stored.matched;
                      fresh = stored.fresh;
                      content_given = refl;
                      description = ap (λ (m : FileMetadata). m.description) merged;
                      aliases = ap (λ (m : FileMetadata). m.aliases) merged;
                      sources = rw merged known.1;
                      wrote = record {
                        body = body;
                        valid = valid;
                        at_path = refl;
                        encodes = encoded-eq_ok content body encodes;
                        fits = leb→le _ _ fits;
                        metadata = good;
                        renders = (rules fields rendered).1;
                        changed = rw ((rules fields rendered).0) at stored.changed;
                      };
                    }
