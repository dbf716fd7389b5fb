-- ===== src/Access/Decision.antt =====
-- `check_write` decides what the policy says (src/wenchang/scope.py).
use wenchang.Base.{true, Option, none, some, ◌≡◌, ◌≢◌, ◌↔◌, refl, sym, arith}
use wenchang.Base.Result.{ok, >>=-eq-ok}
use wenchang.Text.{Str, str_eq, str_eq_iff, starts_with}
use wenchang.Text.SortedSet.{SortedSet, member}
use wenchang.Dict
use wenchang.Paths.{PathParts, parse_path, build_prefix}
use wenchang.Paths.Containment.{starts_with-build_prefix}
use wenchang.Access.{
  system_area, ScopeGrant, Identity, ScopePolicy, check_not_system, check_write_allowed,
  check_write, not_system, parts_allowed, grant_allowed, role_allowed,
}

-- A scope without roles is open to every role.
abbrev pub Permits : Option SortedSet → Str → Type 0
Permits none role = Unit
Permits (some roles) role = member role roles ≡ true

-- The parts of a path lie outside `system/`, in the caller's own entity, in a role that may write.
pub record OwnParts (identity : Identity) (policy : ScopePolicy) (parts : PathParts) : Type 0 where
  pub writable : parts.area ≢ system_area
  pub grant : ScopeGrant
  pub granted : Dict.get parts.scope identity.grants ≡ some grant
  pub own : grant.entity_id ≡ parts.entity_id
  pub permits : Permits (Dict.get parts.scope policy.write_roles) grant.role

pub record MayWrite (path : Str) (identity : Identity) (policy : ScopePolicy) : Type 0 where
  pub parts : PathParts
  pub parsed : parse_path path ≡ some parts
  pub own_parts : OwnParts identity policy parts

role_allowed-Permits :
    (path scope role : Str) (o : Option SortedSet)
    → (role_allowed path scope role o ≡ ok tt) ↔ Permits o role
unfolding role_allowed
role_allowed-Permits path scope role none = (λ e. tt, λ p. refl)
role_allowed-Permits path scope role (some roles) = ground arith

module _ (path : Str) (identity : Identity) (policy : ScopePolicy) where
  grant_of :
      (parts : PathParts) (o : Option ScopeGrant)
      → grant_allowed path parts policy o ≡ ok tt
      → (g : ScopeGrant) × (o ≡ some g)
        × (g.entity_id ≡ parts.entity_id)
        × Permits (Dict.get parts.scope policy.write_roles) g.role
  unfolding grant_allowed
  grant_of parts none h = cc h
  grant_of parts (some g) h =
      let own : str_eq g.entity_id parts.entity_id ≡ true = ground arith in
      let allowed : role_allowed path parts.scope g.role (Dict.get parts.scope policy.write_roles)
          ≡ ok tt =
        ground arith in
      (g, refl, (str_eq_iff _ _).0 own, (role_allowed-Permits path parts.scope g.role _).0 allowed)

  allowed-OwnParts :
      (o : Option PathParts)
      → not_system path o ≡ ok tt
      → parts_allowed path identity policy o ≡ ok tt
      → (parts : PathParts) × (o ≡ some parts) × OwnParts identity policy parts
  unfolding not_system parts_allowed
  allowed-OwnParts none h k = cc h
  allowed-OwnParts (some parts) h k =
      let (g, granted, own, permits) = grant_of parts (Dict.get parts.scope identity.grants) k in
      (
        parts,
        refl,
        record {
          writable = λ e.
              let system : str_eq parts.area system_area ≡ true = (str_eq_iff _ _).1 e in
              ground arith;
          grant = g;
          granted = granted;
          own = own;
          permits = permits;
        },
      )

  OwnParts-not_system :
      (parts : PathParts) → OwnParts identity policy parts → not_system path (some parts) ≡ ok tt
  unfolding not_system
  OwnParts-not_system parts o = ground (arith, str_eq_iff parts.area system_area, o.writable)

  OwnParts-allowed :
      (parts : PathParts)
      → OwnParts identity policy parts
      → parts_allowed path identity policy (some parts) ≡ ok tt
  unfolding parts_allowed grant_allowed
  OwnParts-allowed parts o =
      rw
        (
          o.granted,
          (str_eq_iff o.grant.entity_id parts.entity_id).1 o.own,
          (role_allowed-Permits path parts.scope o.grant.role
                (Dict.get parts.scope policy.write_roles)).1
              o.permits,
        )
        refl

  -- `check_write` lets a write through exactly when the path is well formed, lies outside `system/`
  -- and under the entity that the caller is granted in the path's scope, and the scope is open or
  -- the caller's role there is one that it permits.
  pub check_write_lem : (check_write path identity policy ≡ ok tt) ↔ MayWrite path identity policy
  unfolding check_write check_not_system check_write_allowed
  check_write_lem = (
    λ h.
        let (u, system, rest) = >>=-eq-ok (not_system path (parse_path path)) _ h in
        let (parts, parsed, o) = allowed-OwnParts (parse_path path) system rest in
        record { parts = parts; parsed = parsed; own_parts = o },
    λ m.
        rw (m.parsed, OwnParts-not_system m.parts m.own_parts)
          (OwnParts-allowed m.parts m.own_parts),
  )

  -- A write that `check_write` lets through stays in an entity of the caller: its path starts with
  -- the prefix of the entity that the caller is granted in some scope.
  check_write-own :
      check_write path identity policy ≡ ok tt
      → (scope : Str) × (g : ScopeGrant) × (Dict.get scope identity.grants ≡ some g)
        × ((prefix : Str)
            → build_prefix scope (some g.entity_id) none ≡ some prefix
            → starts_with path prefix ≡ true)
  check_write-own h =
      let m = check_write_lem.0 h in
      let o = m.own_parts in
      (
        m.parts.scope,
        o.grant,
        o.granted,
        λ prefix built.
            (starts_with-build_prefix path m.parts m.parts.scope o.grant.entity_id prefix m.parsed
                built).1
              (refl, sym o.own),
      )
