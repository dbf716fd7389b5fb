-- ===== src/Core/Edit.antt =====
-- `append_line` and `replace_fact` of `MemoryStore` (src/wenchang/core.py). Each step is one call
-- of the backend, between which other clients may act.
pub mod Outcome
pub mod Returns
use wenchang.Base.{
  ℕ, zero, suc, Bool, true, false, not, ◌&&◌, Option, none, some, List, [], leb, length, ◌==◌,
  if◌then◌else◌,
}
use wenchang.Base.Result.{ok, err}
use wenchang.Base.Exec.{Exec, pure, raise, lift, ensure, demand, ◌>>=◌, ◌>>◌}
use wenchang.Text.{Str, str_eq}
use wenchang.Utf8.{Bytes}
use wenchang.Dict.{Dict, same_map}
use wenchang.Paths.{is_valid_path}
use wenchang.Errors.{
  Error, VersionToken, not_found, invalid_path, file_absent, value_error, oversize_write,
  version_conflict, replace_fact_match, precondition_failed,
}
use wenchang.FileFormat.Facts.{Fact, parse_fact}
use wenchang.FileFormat.Metadata.{
  Codec, FileMetadata, metadata_to_map, metadata_from_map, has_line_end,
}
use wenchang.Storage.{Backend, StoredObject}
use wenchang.Core.{Config, MemoryFile}
use wenchang.Core.Content.{count_occurrences, replace_first, append_to}
use wenchang.Core.Merge.{merge_metadata}
use wenchang.Core.Steps.{decoded, encoded, stamp, conflict, on_precondition}
use wenchang.Core.Invalidate.{put_and_invalidate}

-- `_normalize_description`, where a description is given.
unfoldable pub is_one_line : Option Str → Bool
is_one_line none = true
is_one_line (some description) = not (has_line_end description)

-- `parse_fact(line) is not None`
unfoldable pub is_fact_line : Option Fact → Bool
is_fact_line none = false
is_fact_line (some _) = true

abbrev pub max_replace_attempts : ℕ
max_replace_attempts = 3

module _ (B : Backend) (c : Codec) (k : Config) where
  -- After a failed precondition: the file already holds exactly what was written, or a conflict.
  unfoldable pub landed_or_conflict :
      Str → Str → Bytes → FileMetadata → Dict Str → StoredObject → Exec Error B.State MemoryFile
  landed_or_conflict path content body stamped meta_map current =
      if str_eq current.body body && same_map current.metadata meta_map
      then pure
          (record { path = path; content = content; metadata = stamped; version = current.version })
      else conflict path current

  unfoldable pub recheck_append :
      Str → Str → Bytes → FileMetadata → Dict Str → Exec Error B.State MemoryFile
  unfolding landed_or_conflict
  recheck_append path content body stamped meta_map = do
    obj ← B.get path
    current ← demand obj (not_found path file_absent)
    landed_or_conflict path content body stamped meta_map current

  unfoldable pub append_line :
      Str
      → Str
      → VersionToken
      → Str
      → Option (List Str)
      → Option Str
      → Exec Error B.State MemoryFile
  unfolding is_one_line is_fact_line recheck_append
  append_line path line expected_version source aliases description = do
    ensure (is_valid_path path) (not_found path invalid_path)
    ensure (is_fact_line (parse_fact line) && not (str_eq source [])) value_error
    ensure (is_one_line description) value_error
    obj ← B.get path
    found ← demand obj (not_found path file_absent)
    content ← lift (decoded found.body)
    ensure (str_eq found.version expected_version) (version_conflict path content found.version)
    metadata ← lift (metadata_from_map c found.metadata)
    let new_content = append_to content line
    body ← lift (encoded new_content)
    ensure (leb (length body) k.max_file_bytes) (oversize_write path (length body) k.max_file_bytes)
    now ← B.now
    stamped ← lift (stamp (merge_metadata metadata source aliases description now))
    meta_map ← lift (metadata_to_map c stamped)
    on_precondition
        (do
          version ← put_and_invalidate B k path body meta_map (some expected_version)
          pure (record {
            path = path;
            content = new_content;
            metadata = stamped;
            version = version;
          }))
        (recheck_append path new_content body stamped meta_map)

  -- The error for a match count other than one.
  unfoldable pub miscount : Str → Str → VersionToken → VersionToken → ℕ → Error
  miscount path content version expected count =
      if str_eq version expected
      then replace_fact_match path content version count
      else version_conflict path content version

  -- The rounds left of the loop over the attempts, with the content and version last read.
  unfoldable pub replace_attempts :
      ℕ
      → Str
      → Str
      → Str
      → VersionToken
      → Str
      → Option (List Str)
      → Option Str
      → Str
      → VersionToken
      → Exec Error B.State MemoryFile
  unfolding miscount
  replace_attempts zero path old new expected source aliases description content version =
      raise (version_conflict path content version)
  replace_attempts (suc attempts) path old new expected source aliases description _ _ = do
    obj ← B.get path
    found ← demand obj (not_found path file_absent)
    content ← lift (decoded found.body)
    metadata ← lift (metadata_from_map c found.metadata)
    let count = count_occurrences content old
    ensure (count == 1) (miscount path content found.version expected count)
    let new_content = replace_first content old new
    body ← lift (encoded new_content)
    ensure (leb (length body) k.max_file_bytes) (oversize_write path (length body) k.max_file_bytes)
    now ← B.now
    stamped ← lift (stamp (merge_metadata metadata source aliases description now))
    fields ← lift (metadata_to_map c stamped)
    on_precondition
        (do
          version ← put_and_invalidate B k path body fields (some found.version)
          pure (record {
            path = path;
            content = new_content;
            metadata = stamped;
            version = version;
          }))
        (replace_attempts attempts path old new expected source aliases description content
          found.version)

  unfoldable pub replace_fact :
      Str
      → Str
      → Str
      → VersionToken
      → Str
      → Option (List Str)
      → Option Str
      → Exec Error B.State MemoryFile
  unfolding is_one_line
  replace_fact path old new expected source aliases description = do
    ensure (is_valid_path path) (not_found path invalid_path)
    ensure (not (str_eq old []) && not (str_eq source [])) value_error
    ensure (is_one_line description) value_error
    replace_attempts max_replace_attempts path old new expected source aliases description []
        expected
