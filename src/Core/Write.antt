-- ===== src/Core/Write.antt =====
-- `write_file` of `MemoryStore` (src/wenchang/core.py). Each step is one call of the backend,
-- between which other clients may act.
pub mod Outcome
pub mod Returns
use wenchang.Base.{
  ℕ, Bool, true, false, not, ◌&&◌, Option, none, some, List, [], ltb, leb, length, if◌then◌else◌,
}
use wenchang.Base.Exec.{Exec, pure, raise, lift, ensure, demand, ◌>>=◌, ◌>>◌}
use wenchang.Text.{Str, str_eq}
use wenchang.Text.SortedSet.{SortedSet, insert, union}
use wenchang.Paths.{PathParts, is_valid_path, parse_path, build_prefix}
use wenchang.Errors.{
  Error, VersionToken, not_found, invalid_path, file_absent, value_error, oversize_write,
  file_quota_exceeded,
}
use wenchang.FileFormat.Metadata.{Codec, FileMetadata, metadata_to_map, metadata_from_map}
use wenchang.Storage.{Backend}
use wenchang.Core.{Config, MemoryFile, index_system_area}
use wenchang.Core.Steps.{decoded, encoded, stamp, conflict, conflict_checked, on_precondition}
use wenchang.Core.Listing.{at_file_cap}
use wenchang.Core.Invalidate.{put_and_invalidate}

module _ (B : Backend) (c : Codec) (k : Config) (rounds : ℕ) where
  -- Whether a create is refused for the entity's file limit; `system/` is exempt.
  unfoldable pub at_limit : Option ℕ → Option PathParts → Exec Error B.State Bool
  at_limit none parts = pure false
  at_limit (some limit) none = raise value_error
  at_limit (some limit) (some parts) =
      if str_eq parts.area index_system_area then pure false else do
        prefix ← demand (build_prefix parts.scope (some parts.entity_id) none) value_error
        at_file_cap B c k rounds prefix limit

  unfoldable pub refuse_create : Str → ℕ → Exec Error B.State SortedSet
  refuse_create path limit = do
    obj ← B.get path
    current ← demand obj (file_quota_exceeded path limit)
    conflict_checked c path current

  -- `none` stands where the source has no limit: a create is then never refused.
  unfoldable pub create_sources : Str → SortedSet → Option ℕ → Bool → Exec Error B.State SortedSet
  unfolding refuse_create
  create_sources path sources none full = pure sources
  create_sources path sources (some limit) full =
      if full then refuse_create path limit else pure sources

  unfoldable pub replace_sources :
      Str → SortedSet → Str → VersionToken → Exec Error B.State SortedSet
  replace_sources path sources source expected = do
    obj ← B.get path
    current ← demand obj (not_found path file_absent)
    stored ← lift (metadata_from_map c current.metadata)
    if not (str_eq current.version expected)
        then conflict path current
        else pure (insert source (union stored.sources sources))

  -- The `sources` of the new metadata, or the error of either branch on `expected_version`.
  unfoldable pub write_sources :
      Str → SortedSet → Str → Option VersionToken → Exec Error B.State SortedSet
  unfolding at_limit create_sources replace_sources
  write_sources path sources source none = do
    full ← at_limit k.max_files_per_entity (parse_path path)
    create_sources path (insert source sources) k.max_files_per_entity full
  write_sources path sources source (some expected) = replace_sources path sources source expected

  -- What stands at the path after a write whose precondition failed.
  unfoldable pub report_current_checked : Str → Exec Error B.State VersionToken
  report_current_checked path = do
    obj ← B.get path
    current ← demand obj (not_found path file_absent)
    conflict_checked c path current

  unfoldable pub write_file :
      Str → Str → FileMetadata → Option VersionToken → Str → Exec Error B.State MemoryFile
  unfolding write_sources report_current_checked
  write_file path content metadata expected_version source = do
    ensure (is_valid_path path) (not_found path invalid_path)
    ensure (not (str_eq source [])) value_error
    body ← lift (encoded content)
    ensure (leb (length body) k.max_file_bytes) (oversize_write path (length body) k.max_file_bytes)
    sources ← write_sources path metadata.sources source expected_version
    now ← B.now
    stamped ← lift (stamp (record metadata { sources = sources; last_updated = now }))
    fields ← lift (metadata_to_map c stamped)
    version ←
        on_precondition (put_and_invalidate B k path body fields expected_version)
          (report_current_checked path)
    pure (record { path = path; content = content; metadata = stamped; version = version })
