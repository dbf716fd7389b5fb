-- ===== src/Storage/Shared.antt =====
-- What the core may assume of a backend that other clients use meanwhile: each call of the storage
-- protocol (src/wenchang/storage/__init__.py) takes effect at one moment between its start and its
-- end, and a version token never stands for two objects of a key.
pub mod Scheduled
use wenchang.Base.{ℕ, true, Option, none, some, ◌≡◌, ◌≢◌, List}
use wenchang.Base.Result.{Result, ok, err}
use wenchang.Text.{Str}
use wenchang.Utf8.{Bytes}
use wenchang.Dict.{Dict}
use wenchang.Errors.{Error, VersionToken, precondition_failed}
use wenchang.Storage.{Backend, StoredObject, ListedObject, CacheValue, current_version, same_token}
use wenchang.Storage.Contract.{update}

module _ {S : Type 0} (Later : S → S → Type 0) where
  -- A call that moved to a later state, whatever it returned.
  abbrev pub Moves : {A : Type 0} → S → A × S → Type 0
  Moves s (a, u) = Later s u

  -- A call that took effect between two moments, if it returned.
  abbrev pub Acts : {A : Type 0} → (S → S → A → Type 0) → S → Result Error A × S → Type 0
  Acts P s (ok a, u) = (t : S) × (t' : S) × Later s t × Later t t' × Later t' u × P t t' a
  Acts P s (err e, u) = Later s u

pub record Shared (B : Backend) : Type 1 where
  pub view : B.State → Str → Option StoredObject
  pub Good : B.State → Type 0
  -- What clients, this one among them, may make of a state.
  pub Later : B.State → B.State → Type 0
  pub Later-refl : (s : B.State) → Later s s
  pub Later-trans : (s t u : B.State) → Later s t → Later t u → Later s u
  pub Later-Good : (s t : B.State) → Good s → Later s t → Good t
  -- A token that is back at a key stands for the object that it stood for.
  pub frozen :
      (s t : B.State) (key : Str) (o p : StoredObject)
      → Good s
      → Later s t
      → view s key ≡ some o
      → view t key ≡ some p
      → p.version ≡ o.version
      → p ≡ o
  pub get-Acts :
      (key : Str) (s : B.State) → Good s → Acts Later (λ t t' o. o ≡ view t key) s (B.get key s)
  pub put-Acts :
      (key : Str) (body : Bytes) (metadata : Dict Str) (expected : Option VersionToken)
      (s : B.State)
      → Good s
      → Acts Later
          (λ t t' v.
            (same_token (current_version (view t key)) expected ≡ true)
            × ((j : Str)
                → view t' j
                  ≡ update
                      (view t)
                      key
                      (some (record { body = body; metadata = metadata; version = v }))
                      j))
          s
          (B.put_if_version key body metadata expected s)
  pub delete-Acts :
      (key : Str) (expected : VersionToken) (s : B.State)
      → Good s
      → Acts Later
          (λ t t' u.
            (same_token (current_version (view t key)) (some expected) ≡ true)
            × ((j : Str) → view t' j ≡ update (view t) key none j))
          s
          (B.delete_if_version key expected s)
  pub list_page-Moves :
      (prefix : Str) (start_after : Option Str) (limit : ℕ) (s : B.State)
      → Good s
      → Moves Later s (B.list_page prefix start_after limit s)
  pub now-Moves : (s : B.State) → Good s → Moves Later s (B.now s)
  pub uuid-Moves : (s : B.State) → Good s → Moves Later s (B.uuid s)
  pub cache_set-Moves :
      (key value : Str) (s : B.State) → Good s → Moves Later s (B.cache_set key value s)
