-- ===== src/Core.antt =====
-- The data of `MemoryStore` and its configuration (src/wenchang/core.py). The methods are in the
-- modules below, each over a `Backend`, a `Codec` and a `Config`.
pub mod Content
pub mod Merge
pub mod Invalidate
pub mod Cursor
pub mod Listing
pub mod Rules
pub mod Commit
pub mod Steps
pub mod Read
pub mod Write
pub mod Edit
pub mod Outcome
pub mod RoundTrip
pub mod Progress
pub mod Interleaved
pub mod Operator
pub mod Index
pub mod Cached
pub mod Collect
use wenchang.Base.{ℕ, Option, List, none, some}
use wenchang.Text.{Str, codes}
use wenchang.Errors.{VersionToken}
use wenchang.FileFormat.Metadata.{FileMetadata}

pub record MemoryFile : Type 0 where
  pub path : Str
  pub content : Str
  pub metadata : FileMetadata
  pub version : VersionToken

pub record FileEntry : Type 0 where
  pub path : Str
  pub metadata : FileMetadata
  pub version : VersionToken

-- What `MemoryStore.__init__` keeps. The index cache is its key prefix: its two callables are the
-- backend's `cache_get` and `cache_set`.
pub record Config : Type 0 where
  pub max_file_bytes : ℕ
  pub list_page_size : ℕ
  pub index_max_bytes : ℕ
  pub scope_priority : List Str
  pub max_files_per_entity : Option ℕ
  pub index_cache : Option Str

abbrev pub index_system_area : Str
index_system_area = codes "system"

-- `_TOMBSTONE`
abbrev pub tombstone : Str
tombstone = codes "{\"tombstone\":true}"
