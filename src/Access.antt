-- ===== src/Access.antt =====
-- Who may write which path: `ScopeGrant` and `Identity` (src/wenchang/identity.py), and `ScopePolicy`
-- with `check_write` (src/wenchang/scope.py). Arguments have their types, so the checks of types and
-- of `str` subclasses have no place here.
pub mod Decision
pub mod Resolver
pub mod Refusal
use wenchang.Base.{
  Bool, true, false, not, ◌&&◌, Option, none, some, List, [], ◌∷◌, ◌≡◌, ◌≢◌, all, if◌then◌else◌,
}
use wenchang.Base.Result.{Result, ok, err, ◌>>=◌, ◌>>◌, guard}
use wenchang.Text.{Str, codes, str_eq}
use wenchang.Text.SortedSet.{SortedSet, member, set_of}
use wenchang.Dict
use wenchang.Dict.{Dict}
use wenchang.Paths.{PathParts, parse_path, is_valid_path, is_valid_segment}
use wenchang.Errors.{
  Error, not_found, invalid_path, restricted_scope, system_read_only, not_granted, role_required,
  value_error,
}

abbrev pub system_area : Str
system_area = codes "system"

pub record ScopeGrant : Type 0 where
  pub entity_id : Str
  pub role : Str

-- `ScopeGrant(...)`, with the tests of its `__post_init__`.
make_grant : Str → Str → Result Error ScopeGrant
make_grant entity_id role = do
  guard (is_valid_segment entity_id) value_error
  guard (not (str_eq role [])) value_error
  ok (record { entity_id = entity_id; role = role })

pub record Identity : Type 0 where
  pub grants : Dict ScopeGrant

-- `Identity(...)`, with the tests of its `__post_init__`: the keys of a dict are distinct.
make_identity : Dict ScopeGrant → Result Error Identity
make_identity grants = do
  guard (all is_valid_segment (Dict.keys grants)) value_error
  ok (record { grants = grants })

pub record ScopePolicy : Type 0 where
  pub write_roles : Dict SortedSet

-- `_validated_roles`
unfoldable pub validated_roles : List Str → Result Error SortedSet
unfolding member
validated_roles [] = err value_error
validated_roles (role ∷ roles) = do
  guard (not (member [] (role ∷ roles))) value_error
  ok (set_of (role ∷ roles))

-- The loop of `ScopePolicy.__post_init__`, with the entries stored so far.
snapshot_of : Dict SortedSet → List (Str × List Str) → Result Error (Dict SortedSet)
unfolding validated_roles
snapshot_of snapshot [] = ok snapshot
snapshot_of snapshot ((scope, roles) ∷ items) = do
  guard (is_valid_segment scope) value_error
  normalized ← validated_roles roles
  guard (not (member scope (Dict.keys snapshot))) value_error
  snapshot_of (Dict.put scope normalized snapshot) items

make_policy : List (Str × List Str) → Result Error ScopePolicy
unfolding snapshot_of
make_policy items = do snapshot ← snapshot_of [] items; ok (record { write_roles = snapshot })

-- `is_system_path`, of the parts where the path is valid.
in_system : Option PathParts → Bool
in_system none = false
in_system (some parts) = str_eq parts.area system_area

is_system_path : Str → Bool
unfolding in_system
is_system_path path = is_valid_path path && in_system (parse_path path)

-- The rest of `check_not_system`, of the parts that were read.
not_system : Str → Option PathParts → Result Error (Unit {0})
not_system path none = err (not_found path invalid_path)
not_system path (some parts) =
    if str_eq parts.area system_area
    then err (restricted_scope path parts.scope system_read_only none)
    else ok tt

unfoldable pub check_not_system : Str → Result Error (Unit {0})
unfolding not_system
check_not_system path = not_system path (parse_path path)

-- The test of the role against the permitted roles.
role_allowed : Str → Str → Str → Option SortedSet → Result Error (Unit {0})
role_allowed path scope role none = ok tt
role_allowed path scope role (some permitted) =
    if member role permitted
    then ok tt
    else err (restricted_scope path scope role_required (some permitted))

grant_allowed : Str → PathParts → ScopePolicy → Option ScopeGrant → Result Error (Unit {0})
unfolding role_allowed
grant_allowed path parts policy none = err (restricted_scope path parts.scope not_granted none)
grant_allowed path parts policy (some grant) =
    if not (str_eq grant.entity_id parts.entity_id)
    then err (restricted_scope path parts.scope not_granted none)
    else role_allowed path parts.scope grant.role (Dict.get parts.scope policy.write_roles)

parts_allowed : Str → Identity → ScopePolicy → Option PathParts → Result Error (Unit {0})
unfolding grant_allowed
parts_allowed path identity policy none = err (not_found path invalid_path)
parts_allowed path identity policy (some parts) =
    grant_allowed path parts policy (Dict.get parts.scope identity.grants)

unfoldable pub check_write_allowed : Str → Identity → ScopePolicy → Result Error (Unit {0})
unfolding parts_allowed
check_write_allowed path identity policy = parts_allowed path identity policy (parse_path path)

unfoldable pub check_write : Str → Identity → ScopePolicy → Result Error (Unit {0})
unfolding check_not_system check_write_allowed
check_write path identity policy = do
  check_not_system path
  check_write_allowed path identity policy
