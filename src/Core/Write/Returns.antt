-- ===== src/Core/Write/Returns.antt =====
-- When `write_file` returns (src/wenchang/core.py).
use wenchang.Base.{
  ℕ, ◌≤◌, ◌<◌, true, false, Option, none, some, [], ◌≡◌, refl, arith, leb, le→leb, length,
  Bool-cases, inl, inr,
}
use wenchang.Base.Result.{ok}
use wenchang.Base.Exec.{pure, ◌>>=◌}
use wenchang.Text.{Str, str_eq, str_eq_iff}
use wenchang.Text.SortedSet.{SortedSet, insert, union}
use wenchang.Utf8.{Bytes}
use wenchang.Paths.{PathParts, is_valid_path, parse_path, build_prefix}
use wenchang.Errors.{VersionToken}
use wenchang.FileFormat.Metadata.{
  Codec, Datetime, FileMetadata, has_line_end, make_metadata, metadata_from_map,
}
use wenchang.FileFormat.Metadata.RoundTrip.{metadata_to_map-renderable}
use wenchang.Storage.{Backend, StoredObject, current_version, same_token}
use wenchang.Storage.Contract.{Contract}
use wenchang.Core.{Config, index_system_area}
use wenchang.Core.Steps.{encoded, stamp}
use wenchang.Core.Listing.Cap.{files_outside_system, listed_under, at_file_cap_lem}
use wenchang.Core.Outcome.{Same-refl}
use wenchang.Core.Progress.{IsOk, Returns-lift, Returns-now, Returns-put}
use wenchang.Core.Write.{write_file, write_sources, at_limit, create_sources, replace_sources}

stamp_given :
    (m : FileMetadata) (sources : SortedSet) (now : Datetime)
    → has_line_end m.description ≡ false
    → now.aware ≡ true
    → stamp (record m { sources = sources; last_updated = now })
      ≡ ok (record m { sources = sources; last_updated = now })
unfolding stamp make_metadata
stamp_given m sources now h a = rw (h, a)

module _ (B : Backend) (C : Contract B) (c : Codec) (k : Config) (s : B.State) (path source : Str)
    (rounds : ℕ) where
  -- The entity holds fewer files than the limit, where one is set and counts this path.
  abbrev pub HasRoom : Option ℕ → Option PathParts → Type 0
  HasRoom none parts = Unit
  HasRoom (some limit) none = ⊥
  HasRoom (some limit) (some parts) =
      (prefix : Str) × (build_prefix parts.scope (some parts.entity_id) none ≡ some prefix)
      × (length (listed_under B C s prefix) < rounds)
      × (files_outside_system (listed_under B C s prefix) < limit)

  -- A create has room, and a replacement finds the version that it expects, with metadata that can
  -- be read.
  abbrev pub CanWrite : Option VersionToken → Type 0
  CanWrite none = HasRoom k.max_files_per_entity (parse_path path)
  CanWrite (some expected) =
      (old : StoredObject) × (stored : FileMetadata) × (C.view s path ≡ some old)
      × (old.version ≡ expected)
      × (metadata_from_map c old.metadata ≡ ok stored)

  module _ (good : C.Good s) where
    at_limit-HasRoom :
        (limit : Option ℕ) (parts : Option PathParts)
        → HasRoom limit parts
        → at_limit B c k rounds limit parts s ≡ (ok false, s)
    unfolding at_limit ◌>>=◌ pure
    at_limit-HasRoom none parts h = refl
    at_limit-HasRoom (some limit) none h = absurd h
    at_limit-HasRoom (some limit) (some parts) (prefix, built, enough, room) =
        elim (Bool-cases (str_eq parts.area index_system_area)) [
          | inl e ↦ rw e refl
          | inr e ↦
              let open_ : leb limit (files_outside_system (listed_under B C s prefix)) ≡ false =
                ground arith in
              rw (e, built, at_file_cap_lem B C c k s good prefix rounds limit enough, open_) refl
        ]

    created :
        (sources : SortedSet) (limit : Option ℕ)
        → create_sources B c k rounds path sources limit false s ≡ (ok sources, s)
    unfolding create_sources pure
    created sources none = refl
    created sources (some limit) = refl

    write_sources-CanWrite :
        (given : SortedSet) (expected : Option VersionToken)
        → CanWrite expected
        → (sources : SortedSet) × (write_sources B c k rounds path given source expected s
            ≡ (ok sources, s))
    unfolding write_sources replace_sources ◌>>=◌ pure
    write_sources-CanWrite given none room = (
      insert source given,
      rw (at_limit-HasRoom k.max_files_per_entity (parse_path path) room)
          (created (insert source given) k.max_files_per_entity),
    )
    write_sources-CanWrite given (some expected) (old, stored, found, version, parses) = (
      insert source (union stored.sources given),
      rw (C.get-view path s, found, parses, (str_eq_iff old.version expected).1 version) refl,
    )

    -- Over a backend that keeps its contract and answers every call, from a state that it reaches,
    -- a `write_file` returns if the path, the source and the description pass the tests, the
    -- content can be encoded and fits the limit, and either no file is there, none is expected, the
    -- entity has fewer files than the limit, where one is set, and the rounds exceed its objects,
    -- or the file is at the expected version with metadata that can be read.
    pub write_file_returns :
        (content : Str) (body : Bytes) (metadata : FileMetadata) (expected : Option VersionToken)
        → is_valid_path path ≡ true
        → str_eq source [] ≡ false
        → has_line_end metadata.description ≡ false
        → encoded content ≡ ok body
        → length body ≤ k.max_file_bytes
        → same_token (current_version (C.view s path)) expected ≡ true
        → CanWrite expected
        → IsOk (write_file B c k rounds path content metadata expected source s).0
    unfolding write_file ◌>>=◌
    write_file_returns content body metadata expected valid surface one_line encodes fits matched
          can =
        let (sources, ws) = write_sources-CanWrite metadata.sources expected can in
        rw (valid, surface, encodes, le→leb _ _ fits, ws)
          ((Returns-now B C s _ λ now aware renders.
              Returns-lift B C s _ (stamp_given metadata sources now one_line aware) (
                Returns-lift B C s _ (metadata_to_map-renderable c _ renders)
                  (Returns-put B C s k path body _ expected _ _ matched))).at
            s (Same-refl B C c k s good))
