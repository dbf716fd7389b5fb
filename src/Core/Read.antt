-- ===== src/Core/Read.antt =====
-- `read_file` and `delete_file` of `MemoryStore` (src/wenchang/core.py). Each step is one call of
-- the backend, between which other clients may act.
pub mod Outcome
use wenchang.Base.{not, if◌then◌else◌}
use wenchang.Base.Exec.{Exec, pure, lift, ensure, demand, ◌>>=◌, ◌>>◌}
use wenchang.Text.{Str, str_eq}
use wenchang.Paths.{is_valid_path}
use wenchang.Errors.{Error, VersionToken, not_found, invalid_path, file_absent}
use wenchang.FileFormat.Metadata.{Codec, metadata_from_map}
use wenchang.Storage.{Backend}
use wenchang.Core.{Config, MemoryFile}
use wenchang.Core.Steps.{decoded, conflict, on_precondition}
use wenchang.Core.Invalidate.{delete_and_invalidate}

module _ (B : Backend) (c : Codec) (k : Config) where
  unfoldable pub read_file : Str → Exec Error B.State MemoryFile
  read_file path = do
    ensure (is_valid_path path) (not_found path invalid_path)
    obj ← B.get path
    found ← demand obj (not_found path file_absent)
    content ← lift (decoded found.body)
    metadata ← lift (metadata_from_map c found.metadata)
    pure (record { path = path; content = content; metadata = metadata; version = found.version })

  -- What stands at the path after a delete whose precondition failed.
  unfoldable pub report_current : Str → Exec Error B.State (Unit {0})
  report_current path = do
    obj ← B.get path
    current ← demand obj (not_found path file_absent)
    conflict path current

  unfoldable pub delete_file : Str → VersionToken → Exec Error B.State (Unit {0})
  unfolding report_current
  delete_file path expected_version = do
    ensure (is_valid_path path) (not_found path invalid_path)
    obj ← B.get path
    found ← demand obj (not_found path file_absent)
    if not (str_eq found.version expected_version)
        then conflict path found
        else on_precondition (delete_and_invalidate B k path expected_version) (report_current path)
