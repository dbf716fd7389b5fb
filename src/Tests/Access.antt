-- ===== src/Tests/Access.antt =====
-- The theorems on the write policy for one caller and one path.
use wenchang.Base.{[], ◌∷◌, ◌≡◌, ◌↔◌, refl}
use wenchang.Base.Result.{ok}
use wenchang.Text.{Str, codes, str_dec, split, ends_with, but_last}
use wenchang.Text.SortedSet.{member}
use wenchang.Dict
use wenchang.Paths.{parse_path, is_valid_path, is_valid_segment}
use wenchang.Access.{Identity, ScopePolicy, check_write}
use wenchang.Access.Decision.{MayWrite, check_write_lem}

abbrev notes : Str
notes = codes "user/u1/prefs/notes.md"

abbrev pub caller : Identity
caller = record {
  grants = (codes "user", record { entity_id = codes "u1"; role = codes "owner" }) ∷ [];
}

abbrev pub policy : ScopePolicy
policy = record { write_roles = (codes "user", codes "admin" ∷ codes "owner" ∷ []) ∷ [] }

notes_allowed : check_write notes caller policy ≡ ok tt
unfolding check_write parse_path is_valid_path split is_valid_segment str_dec ends_with but_last
    Dict.get member
notes_allowed = refl

check_write_lem_example : (check_write notes caller policy ≡ ok tt) ↔ MayWrite notes caller policy
check_write_lem_example = check_write_lem notes caller policy
