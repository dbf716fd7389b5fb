-- ===== src/Storage/Contract.antt =====
-- What the core may assume of a backend that no other client uses meanwhile and that answers every
-- call: the documented behaviour of the storage protocol (src/wenchang/storage/__init__.py) where no
-- `BackendUnavailableError` is raised, and that the clock, `uuid4` and the cache leave the objects
-- alone.
use wenchang.Base.{
  ℕ, Bool, true, false, Option, none, some, List, ◌≡◌, ◌≢◌, take, keep, map, All, if◌then◌else◌,
}
use wenchang.Base.Result.{ok, err}
use wenchang.Text.{Str, str_eq, starts_with}
use wenchang.Text.Order.{before}
use wenchang.Text.SortedSet.{IsSorted, member}
use wenchang.Utf8.{Bytes}
use wenchang.Dict.{Dict}
use wenchang.Errors.{VersionToken, precondition_failed}
use wenchang.FileFormat.Metadata.{Datetime, is_renderable}
use wenchang.Storage.{Backend, StoredObject, ListedObject, current_version, same_token}

-- `start_after is None or key > start_after`
abbrev pub is_after : Option Str → Str → Bool
is_after none key = true
is_after (some start) key = before start key

abbrev pub update :
    (Str → Option StoredObject) → Str → Option StoredObject → Str → Option StoredObject
update f key o j = if str_eq j key then o else f j

pub record Contract (B : Backend) : Type 1 where
  -- The objects that a state holds.
  pub view : B.State → Str → Option StoredObject
  -- The states that the calls reach: what the backend itself keeps true of them.
  pub Good : B.State → Type 0
  pub get-view : (key : Str) (s : B.State) → B.get key s ≡ (ok (view s key), s)
  pub put_matched :
      (key : Str) (body : Bytes) (metadata : Dict Str) (expected : Option VersionToken)
      (s : B.State)
      → Good s
      → same_token (current_version (view s key)) expected ≡ true
      → (v : VersionToken) × ((B.put_if_version key body metadata expected s).0 ≡ ok v)
        × (current_version (view s key) ≢ some v)
        × ((j : Str)
            → view (B.put_if_version key body metadata expected s).1 j
              ≡ update
                  (view s)
                  key
                  (some (record { body = body; metadata = metadata; version = v }))
                  j)
  pub put_failed :
      (key : Str) (body : Bytes) (metadata : Dict Str) (expected : Option VersionToken)
      (s : B.State)
      → same_token (current_version (view s key)) expected ≡ false
      → B.put_if_version key body metadata expected s ≡ (err (precondition_failed key), s)
  pub put-Good :
      (key : Str) (body : Bytes) (metadata : Dict Str) (expected : Option VersionToken)
      (s : B.State)
      → Good s
      → Good (B.put_if_version key body metadata expected s).1
  pub delete_matched :
      (key : Str) (expected : VersionToken) (s : B.State)
      → Good s
      → same_token (current_version (view s key)) (some expected) ≡ true
      → ((B.delete_if_version key expected s).0 ≡ ok tt)
        × ((j : Str) → view (B.delete_if_version key expected s).1 j ≡ update (view s) key none j)
  pub delete_failed :
      (key : Str) (expected : VersionToken) (s : B.State)
      → same_token (current_version (view s key)) (some expected) ≡ false
      → B.delete_if_version key expected s ≡ (err (precondition_failed key), s)
  pub delete-Good :
      (key : Str) (expected : VersionToken) (s : B.State)
      → Good s
      → Good (B.delete_if_version key expected s).1
  -- The objects in the order of their keys, and the pages that are cut from them.
  pub listing : B.State → List ListedObject
  pub listing-IsSorted : (s : B.State) → Good s → IsSorted (map (λ o. o.key) (listing s))
  -- What is listed is what is stored: each object listed, and each key that holds an object.
  pub listing-view :
      (s : B.State)
      → Good s
      → All
          (λ o.
            (p : StoredObject) × (view s o.key ≡ some p)
            × (p.metadata ≡ o.metadata)
            × (p.version ≡ o.version))
          (listing s)
  pub view-listing :
      (key : Str) (p : StoredObject) (s : B.State)
      → Good s
      → view s key ≡ some p
      → member key (map (λ o. o.key) (listing s)) ≡ true
  pub list_page-listing :
      (prefix : Str) (start_after : Option Str) (limit : ℕ) (s : B.State)
      → Good s
      → B.list_page prefix start_after limit s ≡ (
        ok (
            take limit (
              keep
                (λ o. is_after start_after o.key)
                (keep (λ o. starts_with o.key prefix) (listing s)))),
        s,
      )
  -- The clock gives the time in UTC.
  pub now_aware :
      (s : B.State)
      → (t : Datetime) × ((B.now s).0 ≡ ok t) × (t.aware ≡ true) × (is_renderable t.micros ≡ true)
  pub view-now : (s : B.State) (j : Str) → view (B.now s).1 j ≡ view s j
  pub now-Good : (s : B.State) → Good s → Good (B.now s).1
  pub view-uuid : (s : B.State) (j : Str) → view (B.uuid s).1 j ≡ view s j
  pub uuid-Good : (s : B.State) → Good s → Good (B.uuid s).1
  pub view-cache_set :
      (key value : Str) (s : B.State) (j : Str) → view (B.cache_set key value s).1 j ≡ view s j
  pub cache_set-Good : (key value : Str) (s : B.State) → Good s → Good (B.cache_set key value s).1
