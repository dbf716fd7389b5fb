-- ===== src/Core/Index.antt =====
-- The order, the byte cap and the capped prefixes of `get_memory_index` (src/wenchang/core.py), of
-- the entries that the entities' listings gave.
pub mod Order
pub mod Cap
pub mod Omitted
use wenchang.Base.{
  ℕ, zero, suc, ◌+◌, Bool, true, false, not, ◌&&◌, Option, none, some, List, [], ◌∷◌, ◌++◌, ltb,
  ◌==◌, length, drop, if◌then◌else◌,
}
use wenchang.Text.{Str, str_eq}
use wenchang.Text.Order.{before}
use wenchang.Utf8.{utf8_len}
use wenchang.Dict
use wenchang.Dict.{Dict}
use wenchang.Paths.{PathParts, parse_path, build_prefix}
use wenchang.FileFormat.Metadata.{Codec, metadata_to_map, last_updated_key}
use wenchang.Errors.{Error, metadata_format, overflow}
use wenchang.Base.Result.{Result, ok, err, ◌>>=◌, ◌>>◌}
use wenchang.Core.{Config, FileEntry, index_system_area}

pub record CappedPrefix : Type 0 where
  pub prefix : Str
  pub omitted : ℕ

pub record MemoryIndex : Type 0 where
  pub entries : List FileEntry
  pub capped : List CappedPrefix

map_bytes : Dict Str → ℕ
map_bytes [] = 0
map_bytes ((key, value) ∷ d) = (utf8_len key + utf8_len value) + map_bytes d

-- `except OverflowError`
format_checked : Result Error (Dict Str) → Result Error (Dict Str)
format_checked (err overflow) = err (metadata_format last_updated_key)
format_checked r = r

unfoldable pub index_entry_bytes : Codec → FileEntry → Result Error ℕ
unfolding map_bytes format_checked
index_entry_bytes c entry = do
  rendered ← format_checked (metadata_to_map c entry.metadata)
  ok (utf8_len entry.path + map_bytes rendered + utf8_len entry.version)

-- `priority_index.get(scope, unlisted)`: the position, or the number of scopes.
priority_of : Str → List Str → ℕ
priority_of scope [] = 0
priority_of scope (s ∷ scopes) = if str_eq scope s then 0 else suc (priority_of scope scopes)

-- The tier and the priority of `sort_key`; a listed path is valid, so the first clause is not used.
tier : Config → Option PathParts → ℕ × ℕ
unfolding priority_of
tier k none = (1, 0)
tier k (some parts) =
    if str_eq parts.area index_system_area
    then (0, 0)
    else (1, priority_of parts.scope k.scope_priority)

-- `sort_key(a) < sort_key(b)`: most recent first, then by path.
unfoldable pub goes_before : Config → FileEntry → FileEntry → Bool
unfolding tier
goes_before k a b =
    let (x, p) = tier k (parse_path a.path) in
    let (y, q) = tier k (parse_path b.path) in
    let m = a.metadata.last_updated.micros in
    let n = b.metadata.last_updated.micros in
    if not (x == y)
    then ltb x y
    else if not (p == q)
    then ltb p q
    else if not (m == n)
    then ltb n m
    else before a.path b.path

unfoldable pub insert_entry : Config → FileEntry → List FileEntry → List FileEntry
insert_entry k e [] = e ∷ []
insert_entry k e (x ∷ xs) = if goes_before k x e then x ∷ insert_entry k e xs else e ∷ x ∷ xs

-- `sorted(collected, key=sort_key)`
unfoldable pub ordered : Config → List FileEntry → List FileEntry
unfolding insert_entry
ordered k [] = []
ordered k (e ∷ es) = insert_entry k e (ordered k es)

-- Every entry with its bytes.
unfoldable pub sized : Codec → List FileEntry → Result Error (List (FileEntry × ℕ))
unfolding index_entry_bytes
sized c [] = ok []
sized c (e ∷ es) = do size ← index_entry_bytes c e; rest ← sized c es; ok ((e, size) ∷ rest)

-- The loop that includes entries until the next would exceed the budget.
unfoldable pub included : Config → ℕ → List (FileEntry × ℕ) → List FileEntry
included k total [] = []
included k total ((e, size) ∷ es) =
    let rest = included k (total + size) es in
    if ltb k.index_max_bytes (total + size) then [] else e ∷ rest

area_prefix : Option PathParts → Option Str
area_prefix none = none
area_prefix (some parts) = build_prefix parts.scope (some parts.entity_id) (some parts.area)

increment : Option Str → Dict ℕ → Dict ℕ
increment none counts = counts
increment (some prefix) counts =
    Dict.put prefix (elim (Dict.get prefix counts) [ none ↦ 1 | some n ↦ n + 1 ]) counts

-- The loop that counts the entries left out by area prefix.
unfoldable pub omitted_counts : Dict ℕ → List FileEntry → Dict ℕ
unfolding area_prefix increment
omitted_counts counts [] = counts
omitted_counts counts (e ∷ es) =
    omitted_counts (increment (area_prefix (parse_path e.path)) counts) es

insert_capped : CappedPrefix → List CappedPrefix → List CappedPrefix
insert_capped cap [] = cap ∷ []
insert_capped cap (x ∷ xs) =
    if before x.prefix cap.prefix then x ∷ insert_capped cap xs else cap ∷ x ∷ xs

-- `tuple(CappedPrefix(p, n) for p, n in sorted(counts.items()))`
unfoldable pub capped_of : Dict ℕ → List CappedPrefix
unfolding insert_capped
capped_of [] = []
capped_of ((prefix, n) ∷ counts) =
    insert_capped (record { prefix = prefix; omitted = n }) (capped_of counts)

-- The index of the entries collected. Each is sized first, so that one that cannot be rendered raises
-- whatever the budget is.
unfoldable pub merged_index : Codec → Config → List FileEntry → Result Error MemoryIndex
unfolding ordered sized included omitted_counts capped_of
merged_index c k collected = do
  let all_entries = ordered k collected
  with_sizes ← sized c all_entries
  let shown = included k 0 with_sizes
  ok (record {
    entries = shown;
    capped = capped_of (omitted_counts [] (drop (length shown) all_entries));
  })
