-- ===== src/Access/Refusal.antt =====
-- What `check_write` raises belongs to the taxonomy (src/wenchang/scope.py).
use wenchang.Base.{Option, none, some, not, refl}
use wenchang.Text.{Str, str_eq}
use wenchang.Text.SortedSet.{SortedSet, member}
use wenchang.Dict
use wenchang.Paths.{PathParts, parse_path}
use wenchang.Errors.{category, recoverable, permanent}
use wenchang.Errors.Shown.{Blames, Blames-ok, Blames-err, Blames-bind, Blames-if}
use wenchang.Access.{
  system_area, Identity, ScopeGrant, ScopePolicy, check_write, check_not_system,
  check_write_allowed, not_system, parts_allowed, grant_allowed, role_allowed,
}

not_system-Blames : (path : Str) (o : Option PathParts) → Blames (not_system path o)
unfolding not_system category
not_system-Blames path none = Blames-err _ (recoverable, refl)
not_system-Blames path (some parts) =
    Blames-if (str_eq parts.area system_area) _ _ (Blames-err _ (permanent, refl)) (Blames-ok tt)

role_allowed-Blames :
    (path scope role : Str) (o : Option SortedSet) → Blames (role_allowed path scope role o)
unfolding role_allowed category
role_allowed-Blames path scope role none = Blames-ok tt
role_allowed-Blames path scope role (some roles) =
    Blames-if (member role roles) _ _ (Blames-ok tt) (Blames-err _ (permanent, refl))

grant_allowed-Blames :
    (path : Str) (parts : PathParts) (policy : ScopePolicy) (o : Option ScopeGrant)
    → Blames (grant_allowed path parts policy o)
unfolding grant_allowed category
grant_allowed-Blames path parts policy none = Blames-err _ (permanent, refl)
grant_allowed-Blames path parts policy (some grant) =
    Blames-if (not (str_eq grant.entity_id parts.entity_id)) _ _ (Blames-err _ (permanent, refl))
      (role_allowed-Blames path parts.scope grant.role _)

parts_allowed-Blames :
    (path : Str) (identity : Identity) (policy : ScopePolicy) (o : Option PathParts)
    → Blames (parts_allowed path identity policy o)
unfolding parts_allowed category
parts_allowed-Blames path identity policy none = Blames-err _ (recoverable, refl)
parts_allowed-Blames path identity policy (some parts) =
    grant_allowed-Blames path parts policy (Dict.get parts.scope identity.grants)

pub check_write-Blames :
    (path : Str) (identity : Identity) (policy : ScopePolicy)
    → Blames (check_write path identity policy)
unfolding check_write check_not_system check_write_allowed
check_write-Blames path identity policy =
    Blames-bind (not_system path (parse_path path)) _ (not_system-Blames path (parse_path path))
      (λ a h. parts_allowed-Blames path identity policy (parse_path path))
