-- ===== src/Core/Listing.antt =====
-- Listings: `list_prefix`, `_drain`, `_at_file_cap` (src/wenchang/core.py).
pub mod Cap
pub mod Keys
pub mod Drain
use Prim.Native.Nat.{max}
use wenchang.Base.{
  ℕ, zero, suc, ◌+◌, ◌-◌, Bool, false, not, Option, none, some, List, [], ◌∷◌, ◌++◌, ltb, leb,
  length, take, if◌then◌else◌,
}
use wenchang.Base.Exec.{Exec, pure, raise, lift, ensure, ◌>>=◌, ◌>>◌}
use wenchang.Text.{Str, str_eq}
use wenchang.Paths.{PathParts, is_valid_prefix, parse_path}
use wenchang.Errors.{Error, not_found, invalid_path, out_of_fuel}
use wenchang.FileFormat.Metadata.{Codec}
use wenchang.Storage.{Backend, ListedObject}
use wenchang.Core.{Config, FileEntry, index_system_area}
use wenchang.Core.Cursor.{start_of, next_of, entries_of, last_key}

pub record ListPage : Type 0 where
  pub entries : List FileEntry
  pub next_cursor : Option Str

-- `is_valid_path(key) and parse_path(key).area != INDEX_SYSTEM_AREA`
unfoldable pub counts_area : Option PathParts → Bool
counts_area none = false
counts_area (some parts) = not (str_eq parts.area index_system_area)

unfoldable pub countable : List ListedObject → ℕ
unfolding counts_area
countable [] = 0
countable (o ∷ os) =
    let rest = countable os in if counts_area (parse_path o.key) then suc rest else rest

module _ (B : Backend) (c : Codec) (k : Config) where
  unfoldable pub list_prefix : Str → Option Str → Exec Error B.State ListPage
  list_prefix prefix cursor = do
    ensure (is_valid_prefix prefix) (not_found prefix invalid_path)
    start_after ← lift (start_of c cursor prefix)
    objs ← B.list_page prefix start_after (k.list_page_size + 1)
    let page = take k.list_page_size objs
    entries ← lift (entries_of c page)
    next_cursor ← lift (next_of c (ltb k.list_page_size (length objs)) (last_key page))
    pure (record { entries = entries; next_cursor = next_cursor })

  unfoldable pub after_page :
      List FileEntry
      → Option Str
      → (Str → Exec Error B.State (List FileEntry))
      → Exec Error B.State (List FileEntry)
  after_page collected none again = pure collected
  after_page collected (some cursor) again = again cursor

  -- The `while True` of `_drain`, for at most the given number of pages.
  unfoldable pub drain_from :
      ℕ → Str → List FileEntry → Option Str → Exec Error B.State (List FileEntry)
  unfolding after_page
  drain_from zero prefix collected cursor = raise out_of_fuel
  drain_from (suc rounds) prefix collected cursor = do
    page ← list_prefix prefix cursor
    let collected' = collected ++ page.entries
    after_page collected' page.next_cursor (λ next. drain_from rounds prefix collected' (some next))

  unfoldable pub drain : ℕ → Str → Exec Error B.State (List FileEntry)
  unfolding drain_from
  drain rounds prefix = drain_from rounds prefix [] none

  -- The `while count < limit` of `_at_file_cap`.
  unfoldable pub at_file_cap_from : ℕ → Str → ℕ → ℕ → Option Str → Exec Error B.State Bool
  at_file_cap_from zero prefix limit count start_after = raise out_of_fuel
  at_file_cap_from (suc rounds) prefix limit count start_after =
      if not (ltb count limit) then pure (leb limit count) else do
        let page_size = max (limit - count) k.list_page_size
        objs ← B.list_page prefix start_after page_size
        let count' = count + countable objs
        if ltb (length objs) page_size
            then pure (leb limit count')
            else at_file_cap_from rounds prefix limit count' (last_key objs)

  unfoldable pub at_file_cap : ℕ → Str → ℕ → Exec Error B.State Bool
  unfolding at_file_cap_from
  at_file_cap rounds prefix limit = at_file_cap_from rounds prefix limit 0 none
