-- ===== src/Core/Operator.antt =====
-- The operator's `invalidate_index`, `purge` and `export` of `MemoryStore` (src/wenchang/core.py).
-- Each loop over pages takes a number of rounds; the purge's passes are bounded by the source.
pub mod Export
use wenchang.Base.{
  ℕ, zero, suc, ◌+◌, Bool, true, false, not, ◌&&◌, ◌||◌, Option, none, some, List, [], ◌∷◌, ◌++◌,
  ltb, leb, length, if◌then◌else◌,
}
use wenchang.Base.Result.{Result, ok, err}
use wenchang.Base.Exec.{Exec, pure, raise, demand, ensure, ◌>>=◌, ◌>>◌}
use wenchang.Text.{Str}
use wenchang.Utf8.{Bytes}
use wenchang.Dict.{Dict}
use wenchang.Paths.{is_valid_segment, build_prefix}
use wenchang.Errors.{
  Error, VersionToken, value_error, purge_incomplete, precondition_failed, out_of_fuel,
}
use wenchang.Storage.{Backend, StoredObject, ListedObject}
use wenchang.Core.{Config, tombstone}
use wenchang.Core.Cursor.{last_key}
use wenchang.Core.Invalidate.{token_key, listing_key}

pub record ExportedObject : Type 0 where
  pub key : Str
  pub body : Bytes
  pub metadata : Dict Str
  pub version : VersionToken

module _ (B : Backend) (k : Config) where
  -- With a cache, an error of the cache propagates.
  unfoldable pub invalidate_entity : Option Str → Str → Str → Exec Error B.State (Unit {0})
  invalidate_entity none scope entity_id s = (ok tt, s)
  invalidate_entity (some key_prefix) scope entity_id s =
      let (token, s₁) = B.uuid s in
      (do
        B.cache_set (token_key key_prefix scope entity_id) token
        B.cache_set (listing_key key_prefix scope entity_id) tombstone)
        s₁

  unfoldable pub invalidate_index : Str → Str → Exec Error B.State (Unit {0})
  unfolding invalidate_entity
  invalidate_index scope entity_id = do
    ensure (is_valid_segment scope && is_valid_segment entity_id) value_error
    invalidate_entity k.index_cache scope entity_id

  -- A failed precondition counts nothing; every other error propagates.
  unfoldable pub counted : ℕ → Result Error (Unit {0}) → Result Error ℕ
  counted deleted (ok u) = ok (deleted + 1)
  counted deleted (err (precondition_failed key)) = ok deleted
  counted deleted (err e) = err e

  unfoldable pub delete_counted : ListedObject → ℕ → Exec Error B.State ℕ
  unfolding counted
  delete_counted obj deleted s =
      let (r, s') = B.delete_if_version obj.key obj.version s in (counted deleted r, s')

  -- The objects of one page.
  unfoldable pub purge_page : List ListedObject → ℕ → Exec Error B.State ℕ
  unfolding delete_counted
  purge_page [] deleted = pure deleted
  purge_page (obj ∷ page) deleted = do
    deleted' ← delete_counted obj deleted
    purge_page page deleted'

  is_nonempty : List ListedObject → Bool
  is_nonempty [] = false
  is_nonempty (_ ∷ _) = true

  -- One pass over all the pages: whether it found an object, and the deletes so far.
  unfoldable pub purge_pass : ℕ → Str → Option Str → Bool → ℕ → Exec Error B.State (Bool × ℕ)
  unfolding is_nonempty
  purge_pass zero prefix start_after found deleted = raise out_of_fuel
  purge_pass (suc rounds) prefix start_after found deleted = do
    page ← B.list_page prefix start_after k.list_page_size
    deleted' ← purge_page page deleted
    let found' = found || is_nonempty page
    if ltb (length page) k.list_page_size
        then pure (found', deleted')
        else purge_pass rounds prefix (last_key page) found' deleted'

  -- `_purge_passes`, for the passes that are left.
  unfoldable pub purge_passes : ℕ → ℕ → Str → Error → ℕ → Exec Error B.State ℕ
  unfolding is_nonempty
  purge_passes rounds zero prefix incomplete deleted = do
    page ← B.list_page prefix none 1
    if not (is_nonempty page) then pure deleted else raise incomplete
  purge_passes rounds (suc passes) prefix incomplete deleted = do
    (found, deleted') ← purge_pass rounds prefix none false deleted
    if not found then pure deleted' else purge_passes rounds passes prefix incomplete deleted'

  -- The invalidation on every exit: after an error its own error is only logged.
  unfoldable pub invalidated : Str → Str → Result Error ℕ → Exec Error B.State ℕ
  invalidated scope entity_id (ok deleted) s = (do invalidate_index scope entity_id; pure deleted) s
  invalidated scope entity_id (err e) s = (err e, (invalidate_index scope entity_id s).1)

  unfoldable pub purge_prefix : ℕ → Str → Str → ℕ → Str → Exec Error B.State ℕ
  unfolding purge_passes invalidated
  purge_prefix rounds scope entity_id max_passes prefix s =
      let (r, s') =
        purge_passes rounds max_passes prefix (purge_incomplete scope entity_id max_passes) 0 s in
      invalidated scope entity_id r s'

  unfoldable pub purge : ℕ → Str → Str → ℕ → Exec Error B.State ℕ
  unfolding purge_prefix
  purge rounds scope entity_id max_passes = do
    ensure (is_valid_segment scope && is_valid_segment entity_id) value_error
    ensure (leb 1 max_passes) value_error
    prefix ← demand (build_prefix scope (some entity_id) none) value_error
    purge_prefix rounds scope entity_id max_passes prefix

  unfoldable pub exported : Str → Option StoredObject → List ExportedObject
  exported key none = []
  exported key (some o) =
      record { key = key; body = o.body; metadata = o.metadata; version = o.version } ∷ []

  -- The objects of one page that are still there.
  unfoldable pub export_page :
      List ListedObject → List ExportedObject → Exec Error B.State (List ExportedObject)
  unfolding exported
  export_page [] out = pure out
  export_page (obj ∷ page) out = do
    stored ← B.get obj.key
    export_page page (out ++ exported obj.key stored)

  unfoldable pub export_from :
      ℕ → Str → Option Str → List ExportedObject → Exec Error B.State (List ExportedObject)
  unfolding export_page
  export_from zero prefix start_after out = raise out_of_fuel
  export_from (suc rounds) prefix start_after out = do
    page ← B.list_page prefix start_after k.list_page_size
    out' ← export_page page out
    if ltb (length page) k.list_page_size
        then pure out'
        else export_from rounds prefix (last_key page) out'

  unfoldable pub export : ℕ → Str → Str → Exec Error B.State (List ExportedObject)
  unfolding export_from
  export rounds scope entity_id = do
    ensure (is_valid_segment scope && is_valid_segment entity_id) value_error
    prefix ← demand (build_prefix scope (some entity_id) none) value_error
    export_from rounds prefix none []
