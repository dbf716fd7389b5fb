-- ===== src/Core/Collect.antt =====
-- `get_memory_index` and `_cached_entity_entries` (src/wenchang/core.py): the entities' listings, from
-- the index cache or anew, and the index of what they gave.
pub mod Fresh
use wenchang.Base.{
  ℕ, Bool, true, false, not, ◌&&◌, Option, none, some, List, [], ◌∷◌, ◌++◌, if◌then◌else◌,
}
use wenchang.Base.Result.{Result, ok, err}
use wenchang.Base.Exec.{Exec, pure, raise, lift, ensure, demand, ◌>>=◌, ◌>>◌}
use wenchang.Text.{Str, str_eq}
use wenchang.Text.Order.{before}
use wenchang.Text.SortedSet.{member}
use wenchang.Dict.{Dict}
use wenchang.Paths.{is_valid_segment, build_prefix}
use wenchang.Errors.{Error, value_error}
use wenchang.FileFormat.Metadata.{Codec}
use wenchang.Storage.{Backend}
use wenchang.Core.{Config, FileEntry}
use wenchang.Core.Invalidate.{token_key, listing_key, cache_get, cache_set}
use wenchang.Core.Listing.{drain}
use wenchang.Core.Index.{MemoryIndex, merged_index}
use wenchang.Core.Cached.{ListingCodec, encode_listing, decode_listing}

-- A call that raises nothing.
abbrev asked : {S A : Type 0} → (S → A × S) → Exec Error S A
asked call s = let (a, t) = call s in (ok a, t)

abbrev told : {S : Type 0} → (S → S) → Exec Error S (Unit {0})
told call s = (ok tt, call s)

-- `sorted(normalized)`, of pairs of texts
unfoldable pub insert_pair : Str × Str → List (Str × Str) → List (Str × Str)
insert_pair pair [] = pair ∷ []
insert_pair (scope, entity_id) ((s, e) ∷ pairs) =
    let rest = insert_pair (scope, entity_id) pairs in
    if before s scope
    then (s, e) ∷ rest
    else if str_eq s scope && before e entity_id
    then (s, e) ∷ rest
    else (scope, entity_id) ∷ (s, e) ∷ pairs

unfoldable pub sorted_pairs : List (Str × Str) → List (Str × Str)
unfolding insert_pair
sorted_pairs [] = []
sorted_pairs (pair ∷ pairs) = insert_pair pair (sorted_pairs pairs)

module _ {S : Type 0} where
  -- The loop over the pairs, with the scopes that were seen.
  unfoldable pub check_pairs : List Str → List (Str × Str) → Exec Error S (Unit {0})
  check_pairs seen [] = pure tt
  check_pairs seen ((scope, entity_id) ∷ pairs) = do
    ensure (is_valid_segment scope) value_error
    ensure (is_valid_segment entity_id) value_error
    ensure (not (member scope seen)) value_error
    check_pairs (scope ∷ seen) pairs

module _ (B : Backend) (c : Codec) (l : ListingCodec) (k : Config) (rounds : ℕ) where
  -- The listing anew, kept under the token.
  unfoldable pub listed_anew : Str → Str → Str → Exec Error B.State (List FileEntry)
  listed_anew key prefix token = do
    entries ← drain B c k rounds prefix
    told (cache_set B key (encode_listing l token entries))
    pure entries

  -- The listing that was kept, if it can be read and is tagged with the token.
  unfoldable pub from_listing : Str → Str → Str → Option Str → Exec Error B.State (List FileEntry)
  unfolding listed_anew
  from_listing key prefix token none = listed_anew key prefix token
  from_listing key prefix token (some raw) = elim (decode_listing c l raw token prefix) [
    | none ↦ listed_anew key prefix token
    | some hit ↦ pure hit
  ]

  unfoldable pub from_token : Str → Str → Str → Option Str → Exec Error B.State (List FileEntry)
  unfolding from_listing
  from_token tokens key prefix (some token) = do
    raw ← asked (cache_get B key)
    from_listing key prefix token raw
  from_token tokens key prefix none = do
    token ← asked B.uuid
    told (cache_set B tokens token)
    listed_anew key prefix token

  unfoldable pub cached_entity_entries : Str → Str → Str → Exec Error B.State (List FileEntry)
  unfolding from_token
  cached_entity_entries key_prefix scope entity_id = do
    prefix ← demand (build_prefix scope (some entity_id) none) value_error
    token ← asked (cache_get B (token_key key_prefix scope entity_id))
    from_token (token_key key_prefix scope entity_id) (listing_key key_prefix scope entity_id)
        prefix token

  -- The entries of one pair.
  unfoldable pub entity_entries : Option Str → Str → Str → Exec Error B.State (List FileEntry)
  unfolding cached_entity_entries
  entity_entries none scope entity_id = do
    prefix ← demand (build_prefix scope (some entity_id) none) value_error
    drain B c k rounds prefix
  entity_entries (some key_prefix) scope entity_id =
      cached_entity_entries key_prefix scope entity_id

  -- The loop over the pairs.
  unfoldable pub collect : List (Str × Str) → Exec Error B.State (List FileEntry)
  unfolding entity_entries
  collect [] = pure []
  collect ((scope, entity_id) ∷ pairs) = do
    entries ← entity_entries k.index_cache scope entity_id
    others ← collect pairs
    pure (entries ++ others)

  unfoldable pub get_memory_index : Dict Str → Exec Error B.State MemoryIndex
  unfolding sorted_pairs check_pairs collect
  get_memory_index scope_map = do
    let pairs = sorted_pairs scope_map
    check_pairs [] pairs
    collected ← collect pairs
    lift (merged_index c k collected)
