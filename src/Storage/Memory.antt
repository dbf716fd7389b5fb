-- ===== src/Storage/Memory.antt =====
-- `InMemoryStorage` (src/wenchang/storage/memory.py) as a backend, with a clock that ticks, a
-- counter for `uuid4`, and a dict for the index cache. A lock makes each call one step.
pub mod Decimal
pub mod Pages
pub mod Lawful
pub mod Listed
use wenchang.Base.{
  ℕ, zero, suc, ◌+◌, ◌/◌, ◌%◌, Bool, true, false, not, ◌&&◌, Option, none, some, List, [], ◌∷◌,
  ◌++◌, take, keep, ltb, if◌then◌else◌,
}
use wenchang.Base.Result.{Result, ok, err}
use wenchang.Text.{Str, codes, str_eq, starts_with}
use wenchang.Text.Order.{before}
use wenchang.Text.SortedSet.{insert}
use wenchang.Utf8.{Bytes}
use wenchang.Dict
use wenchang.Dict.{Dict}
use wenchang.Errors.{Error, VersionToken, precondition_failed}
use wenchang.FileFormat.Metadata.{Datetime, utc_min, utc_max}
use wenchang.Storage.Contract.{is_after}
use wenchang.Storage.{
  current_version, same_token, Backend, StoredObject, ListedObject, CacheValue, absent, text,
}

pub record World : Type 0 where
  pub objects : Dict StoredObject
  pub next_token : ℕ
  pub clock : ℕ
  pub uuids : ℕ
  pub cache : Dict Str

-- `str(n)`, with a round for each digit.
unfoldable pub digits : ℕ → ℕ → Str
digits zero n = []
digits (suc rounds) n =
    let high = digits rounds (n / 10) in
    if ltb n 10 then (48 + n) ∷ [] else high ++ (48 + n % 10) ∷ []

unfoldable pub decimal : ℕ → Str
unfolding digits
decimal n = digits (suc n) n

-- `_put_locked`
unfoldable pub put_locked : Str → Bytes → Dict Str → World → Result Error VersionToken × World
put_locked key body metadata w =
    let token = decimal w.next_token in
    (
      ok token,
      record w {
        objects =
            Dict.put key (record { body = body; metadata = metadata; version = token }) w.objects;
        next_token = w.next_token + 1;
      },
    )

-- The unconditional write, which only tools outside the core call.
unfoldable put : Str → Bytes → Dict Str → World → Result Error VersionToken × World
unfolding put_locked
put = put_locked

unfoldable pub put_if_version :
    Str → Bytes → Dict Str → Option VersionToken → World → Result Error VersionToken × World
unfolding put_locked
put_if_version key body metadata expected w =
    if not (same_token (current_version (Dict.get key w.objects)) expected)
    then (err (precondition_failed key), w)
    else put_locked key body metadata w

unfoldable pub delete_if_version : Str → VersionToken → World → Result Error (Unit {0}) × World
delete_if_version key expected w =
    if not (same_token (current_version (Dict.get key w.objects)) (some expected))
    then (err (precondition_failed key), w)
    else (ok tt, record w { objects = Dict.remove key w.objects })

-- `sorted(keys)`: no key stands twice in a dict.
unfoldable pub sort : List Str → List Str
unfolding insert
sort [] = []
sort (x ∷ xs) = insert x (sort xs)

listed : Str → Option StoredObject → List ListedObject
listed key none = []
listed key (some o) = record { key = key; metadata = o.metadata; version = o.version } ∷ []

-- `ListedObject(key, ...)` for each key, which the dict holds.
unfoldable pub list_keys : Dict StoredObject → List Str → List ListedObject
unfolding listed
list_keys d [] = []
list_keys d (key ∷ ks) = listed key (Dict.get key d) ++ list_keys d ks

unfoldable pub list_page : Str → Option Str → ℕ → World → Result Error (List ListedObject) × World
list_page prefix start_after limit w =
    let under = sort (keep (λ key. starts_with key prefix) (Dict.keys w.objects)) in
    (ok (list_keys w.objects (take limit (keep (is_after start_after) under))), w)

pub cached : Option Str → CacheValue
cached none = absent
cached (some s) = text s

-- The clock's reading after a number of ticks; it stands still at the last `datetime`.
abbrev pub reading : ℕ → ℕ
reading ticks = if ltb utc_max (utc_min + ticks) then utc_max else utc_min + ticks

unfoldable pub memory : Backend
unfolding put_if_version delete_if_version list_page cached
memory = record {
  State = World;
  get = λ key w. (ok (Dict.get key w.objects), w);
  put_if_version = put_if_version;
  delete_if_version = delete_if_version;
  list_page = list_page;
  now = λ w.
      (ok (record { micros = reading w.clock; aware = true }), record w { clock = w.clock + 1 });
  uuid = λ w. (decimal w.uuids, record w { uuids = w.uuids + 1 });
  cache_get = λ key w. (ok (cached (Dict.get key w.cache)), w);
  cache_set = λ key value w. (ok tt, record w { cache = Dict.put key value w.cache });
}
