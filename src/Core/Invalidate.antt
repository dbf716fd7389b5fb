-- ===== src/Core/Invalidate.antt =====
-- Index cache invalidation around a mutation: `_token_key`, `_listing_key`, `_cache_get`,
-- `_cache_set`, `_invalidate_path`, `_put_if_version`, `_delete_if_version` (src/wenchang/core.py).
use wenchang.Base.{Bool, true, false, Option, none, some, ◌∷◌, ◌++◌, if◌then◌else◌}
use wenchang.Base.Result.{Result, ok, err}
use wenchang.Base.Exec.{Exec, finally}
use wenchang.Text.{Str, codes}
use wenchang.Utf8.{Bytes}
use wenchang.Dict.{Dict}
use wenchang.Paths.{slash, PathParts, parse_path}
use wenchang.Errors.{Error, VersionToken}
use wenchang.Storage.{Backend, CacheValue, absent, not_str, text}
use wenchang.Core.{Config, tombstone}

unfoldable pub token_key : Str → Str → Str → Str
token_key key_prefix scope entity_id =
    key_prefix ++ (codes "v1:token:" ++ (scope ++ slash ∷ entity_id))

unfoldable pub listing_key : Str → Str → Str → Str
listing_key key_prefix scope entity_id =
    key_prefix ++ (codes "v1:listing:" ++ (scope ++ slash ∷ entity_id))

unfoldable pub cached_text : Result Error CacheValue → Option Str
cached_text (ok (text s)) = some s
cached_text (ok absent) = none
cached_text (ok not_str) = none
cached_text (err _) = none

module _ (B : Backend) where
  -- A cache error or a value that is no text is a miss.
  unfoldable pub cache_get : Str → B.State → Option Str × B.State
  unfolding cached_text
  cache_get key s = let (r, s') = B.cache_get key s in (cached_text r, s')

  -- A cache error is swallowed.
  unfoldable pub cache_set : Str → Str → B.State → B.State
  cache_set key value s = (B.cache_set key value s).1

module _ (B : Backend) (k : Config) where
  unfoldable pub invalidate_parts : Str → Option PathParts → Bool → B.State → B.State
  -- A `ValueError` of `parse_path`: the callers have tested the path.
  invalidate_parts key_prefix none bury s = s
  invalidate_parts key_prefix (some parts) bury s =
      let (token, s₁) = B.uuid s in
      let s₂ = cache_set B (token_key key_prefix parts.scope parts.entity_id) token s₁ in
      if bury
      then cache_set B (listing_key key_prefix parts.scope parts.entity_id) tombstone s₂
      else s₂

  unfoldable pub invalidate_cached : Option Str → Str → Bool → B.State → B.State
  unfolding invalidate_parts
  invalidate_cached none path bury s = s
  invalidate_cached (some key_prefix) path bury s =
      invalidate_parts key_prefix (parse_path path) bury s

  unfoldable pub invalidate_path : Str → Bool → B.State → B.State
  unfolding invalidate_cached
  invalidate_path = invalidate_cached k.index_cache

  -- Invalidation follows the storage call, whether it returned or raised.
  unfoldable pub put_and_invalidate :
      Str → Bytes → Dict Str → Option VersionToken → Exec Error B.State VersionToken
  put_and_invalidate path body metadata expected =
      finally (B.put_if_version path body metadata expected) (invalidate_path path false)

  unfoldable pub delete_and_invalidate : Str → VersionToken → Exec Error B.State (Unit {0})
  delete_and_invalidate path expected =
      finally (B.delete_if_version path expected) (invalidate_path path true)
