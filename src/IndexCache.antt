-- ===== src/IndexCache.antt =====
-- `IndexCache`'s settings and `InMemoryIndexCache` (src/wenchang/index_cache.py). The clock's reading
-- is an argument: an instant in microseconds since `datetime.min`. The lock makes each call one step.
pub mod Expiry
use wenchang.Base.{ℕ, ◌+◌, Bool, true, false, Option, none, some, leb, ltb, if◌then◌else◌}
use wenchang.Base.Result.{Result, ok, err}
use wenchang.Text.{Str}
use wenchang.Dict
use wenchang.Dict.{Dict}
use wenchang.Errors.{Error, value_error}

-- `datetime.max`
abbrev pub last_instant : ℕ
last_instant = 315537897599999999

-- The test of `IndexCache.__post_init__` on the time to live.
unfoldable pub check_ttl : Option ℕ → Result Error (Unit {0})
check_ttl none = ok tt
check_ttl (some ttl) = if leb ttl 0 then err value_error else ok tt

pub record CacheEntry : Type 0 where
  pub value : Str
  pub expires_at : Option ℕ

-- `self._entries`
abbrev pub Entries : Type 0
Entries = Dict CacheEntry

unfoldable pub live : Str → ℕ → Entries → CacheEntry → Option ℕ → Option Str × Entries
live key now entries entry none = (some entry.value, entries)
live key now entries entry (some expires_at) =
    if leb expires_at now then (none, Dict.remove key entries) else (some entry.value, entries)

unfoldable pub found : Str → ℕ → Entries → Option CacheEntry → Option Str × Entries
unfolding live
found key now entries none = (none, entries)
found key now entries (some entry) = live key now entries entry entry.expires_at

unfoldable pub lookup : Str → ℕ → Entries → Option Str × Entries
unfolding found
lookup key now entries = found key now entries (Dict.get key entries)

-- An expiry past `datetime.max` never comes.
unfoldable pub expiry : Option ℕ → ℕ → Option ℕ
expiry none now = none
expiry (some ttl) now = if ltb last_instant (now + ttl) then none else some (now + ttl)

unfoldable pub store : Str → Str → Option ℕ → ℕ → Entries → Entries
unfolding expiry
store key value ttl now entries =
    Dict.put key (record { value = value; expires_at = expiry ttl now }) entries
