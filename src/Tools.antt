-- ===== src/Tools.antt =====
-- The tools of one session (src/wenchang/tools.py) over a transport client
-- (src/wenchang/transport.py). Agents' arguments may have any type.
pub mod Arguments
pub mod Session
pub mod Guard
pub mod Refusals
pub mod Own
pub mod Safety
pub mod InProcess
pub mod Render
use wenchang.Base.{Option, List}
use wenchang.Base.Exec.{Exec}
use wenchang.Text.{Str}
use wenchang.Dict.{Dict}
use wenchang.Errors.{Error, VersionToken}
use wenchang.FileFormat.Metadata.{FileMetadata}
use wenchang.Core.{MemoryFile}
use wenchang.Core.Listing.{ListPage}
use wenchang.Core.Index.{MemoryIndex}

-- `TransportClient`: the operations that the tools call, in process or remote.
pub record Client : Type 1 where
  pub State : Type 0
  pub read_file : Str → Exec Error State MemoryFile
  -- path, content, metadata, expected version, source
  pub write_file :
      Str → Str → FileMetadata → Option VersionToken → Str → Exec Error State MemoryFile
  -- path, line, expected version, source, aliases, description
  pub append_line :
      Str → Str → VersionToken → Str → Option (List Str) → Option Str → Exec Error State MemoryFile
  -- path, old text, new text, expected version, source, aliases, description
  pub replace_fact :
      Str
      → Str
      → Str
      → VersionToken
      → Str
      → Option (List Str)
      → Option Str
      → Exec Error State MemoryFile
  pub list_prefix : Str → Option Str → Exec Error State ListPage
  pub delete_file : Str → VersionToken → Exec Error State (Unit {0})
  pub get_memory_index : Dict Str → Exec Error State MemoryIndex
