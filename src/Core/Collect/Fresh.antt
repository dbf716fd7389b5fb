-- ===== src/Core/Collect/Fresh.antt =====
-- `get_memory_index` (src/wenchang/core.py) without an index cache: it gives every entry of the
-- entities asked for.
use wenchang.Base.{ℕ, ◌<◌, true, false, none, some, List, [], ◌∷◌, ◌≡◌, All, length}
use wenchang.Base.Result.{Result, ok, err}
use wenchang.Base.Exec.{Exec}
use wenchang.Text.{Str}
use wenchang.Text.SortedSet.{member}
use wenchang.Dict.{Dict}
use wenchang.Paths.{is_valid_segment, build_prefix}
use wenchang.Errors.{Error}
use wenchang.FileFormat.Metadata.{Codec, IsBase64}
use wenchang.Storage.{Backend}
use wenchang.Storage.Contract.{Contract}
use wenchang.Core.{Config, FileEntry}
use wenchang.Core.Cursor.{entries_of}
use wenchang.Core.Cursor.Pages.{both_pages}
use wenchang.Core.Listing.Cap.{listed_under}
use wenchang.Core.Listing.Keys.{CanEncode}
use wenchang.Core.Index.{MemoryIndex, merged_index}
use wenchang.Core.Cached.{ListingCodec}

-- Pairs of valid segments whose scopes differ from each other and from those given.
abbrev pub AreValid : List Str → List (Str × Str) → Type 0
AreValid seen [] = Unit
AreValid seen ((scope, entity_id) ∷ pairs) =
    (is_valid_segment scope ≡ true)
    × (is_valid_segment entity_id ≡ true)
    × (member scope seen ≡ false)
    × AreValid (scope ∷ seen) pairs

-- The index of some entries.
abbrev pub index_of : Codec → Config → Result Error (List FileEntry) → Result Error MemoryIndex
index_of c k (ok es) = merged_index c k es
index_of c k (err e) = err e

module _ (B : Backend) (C : Contract B) (c : Codec) (l : ListingCodec) (k : Config) (s : B.State)
    (good : C.Good s) (law : IsBase64 c) (page : 0 < k.list_page_size) (rounds : ℕ) where
  -- The objects of an entity are fewer than the rounds, and cursors can hold their keys.
  pub record Fits (scope entity_id : Str) (prefix : Str) : Type 0 where
    pub built : build_prefix scope (some entity_id) none ≡ some prefix
    pub few : length (listed_under B C s prefix) < rounds
    pub encode : All CanEncode (listed_under B C s prefix)

  -- Each pair with its prefix.
  abbrev pub AllFit : List (Str × Str) → List Str → Type 0
  AllFit [] [] = Unit
  AllFit ((scope, entity_id) ∷ pairs) (prefix ∷ prefixes) =
      Fits scope entity_id prefix × AllFit pairs prefixes
  AllFit _ _ = ⊥

  -- The entries stored under each of the prefixes, in their order.
  abbrev pub stored_under : List Str → Result Error (List FileEntry)
  stored_under [] = ok []
  stored_under (prefix ∷ prefixes) =
      both_pages (entries_of c (listed_under B C s prefix)) (stored_under prefixes)
