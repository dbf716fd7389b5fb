-- ===== src/Tests/Index.antt =====
-- The theorems on the memory index and the in-memory index cache at concrete inputs.
use wenchang.Base.Result.{ok}
use wenchang.Base.{true, ◌≢◌, refl, All, none, some, List, [], ◌∷◌, ◌≡◌}
use wenchang.Text.{codes, str_dec, split, ends_with, but_last}
use wenchang.Core.{FileEntry}
use wenchang.Core.Index.{merged_index}
use wenchang.Core.Index.Cap.{index_of_rendered, merged_index-renders}
use wenchang.Core.Index.Omitted.{IsListed, Omitted, merged_index-Omitted}
use wenchang.Paths.{parse_path, is_valid_path, is_valid_segment}
use wenchang.IndexCache.{lookup, store}
use wenchang.IndexCache.Expiry.{StillLives, IsOver, lookup-store}
use wenchang.Tests.Codec.{test_codec}
use wenchang.Tests.Store.{notes, profile, limits}

abbrev two_entries : List FileEntry
two_entries =
    record { path = notes; metadata = profile; version = codes "1" }
    ∷ record { path = codes "user/u1/system/rules.md"; metadata = profile; version = codes "2" }
    ∷ []

two_rendered :
    merged_index test_codec limits two_entries
    ≡ ok (index_of_rendered test_codec limits two_entries)
two_rendered = merged_index-renders test_codec limits two_entries refl

-- An entry whose last-updated is an hour before `datetime.min` in UTC.
abbrev unrenderable : FileEntry
unrenderable = record {
  path = notes;
  metadata = record profile { last_updated = record { micros = 82800000000; aware = true } };
  version = codes "3";
}

lookup-store_example :
    (StillLives (some 10) 20 25
      → (lookup (codes "token") 25 (store (codes "token") (codes "a") (some 10) 20 [])).0
        ≡ some (codes "a"))
    × (IsOver (some 10) 20 25
        → (lookup (codes "token") 25 (store (codes "token") (codes "a") (some 10) 20 [])).0 ≡ none)
    × (codes "other" ≢ codes "token"
        → (lookup (codes "other") 25 (store (codes "token") (codes "a") (some 10) 20 [])).0
          ≡ (lookup (codes "other") 25 []).0)
lookup-store_example = lookup-store (codes "other") (codes "token") (codes "a") (some 10) 20 25 []

two_entries-IsListed : All IsListed two_entries
unfolding parse_path is_valid_path split is_valid_segment str_dec ends_with but_last
two_entries-IsListed = ((_, refl), ((_, refl), tt))

merged_index-Omitted_example :
    Omitted limits two_entries (index_of_rendered test_codec limits two_entries)
merged_index-Omitted_example =
    merged_index-Omitted limits test_codec two_entries
      (index_of_rendered test_codec limits two_entries) two_entries-IsListed two_rendered
