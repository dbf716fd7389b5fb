-- ===== src/Storage.antt =====
-- What the core calls: the storage protocol (src/wenchang/storage/__init__.py), and the clock, the
-- `uuid4` and the index cache that the adopter or Python supplies, over one state.
pub mod Contract
pub mod Memory
pub mod Shared
pub mod Filesystem
use wenchang.Base.{ℕ, Bool, true, false, Option, none, some, List}
use wenchang.Base.Exec.{Exec}
use wenchang.Text.{Str, str_eq}
use wenchang.Utf8.{Bytes}
use wenchang.Dict.{Dict}
use wenchang.Errors.{Error, VersionToken}
use wenchang.FileFormat.Metadata.{Datetime}

pub record StoredObject : Type 0 where
  pub body : Bytes
  pub metadata : Dict Str
  pub version : VersionToken

-- The version of what `get` returned.
abbrev pub current_version : Option StoredObject → Option VersionToken
current_version none = none
current_version (some o) = some o.version

-- `a == b` for two optional tokens
abbrev pub same_token : Option VersionToken → Option VersionToken → Bool
same_token none none = true
same_token none (some w) = false
same_token (some v) none = false
same_token (some v) (some w) = str_eq v w

pub record ListedObject : Type 0 where
  pub key : Str
  pub metadata : Dict Str
  pub version : VersionToken

-- What a cache returned; a value of another type counts as a miss.
pub data CacheValue : Type 0 where
  absent not_str : CacheValue
  text : Str → CacheValue

-- The calls may raise, and other clients may act between two of them: the state is the backend's.
pub record Backend : Type 1 where
  pub State : Type 0
  pub get : Str → Exec Error State (Option StoredObject)
  pub put_if_version : Str → Bytes → Dict Str → Option VersionToken → Exec Error State VersionToken
  pub delete_if_version : Str → VersionToken → Exec Error State (Unit {0})
  pub list_page : Str → Option Str → ℕ → Exec Error State (List ListedObject)
  pub now : Exec Error State Datetime
  pub uuid : State → Str × State
  pub cache_get : Str → Exec Error State CacheValue
  pub cache_set : Str → Str → Exec Error State (Unit {0})
