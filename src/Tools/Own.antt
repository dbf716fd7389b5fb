-- ===== src/Tools/Own.antt =====
-- The path that a tool calls the client with lies in the session's own entity
-- (src/wenchang/tools.py, src/wenchang/scope.py).
use wenchang.Base.{ℕ, Bool, Option, none, some, ◌≡◌, refl, sym}
use wenchang.Base.Result.{Result, ok, >>=-eq-ok}
use wenchang.Text.{Str, codes}
use wenchang.Dict
use wenchang.Paths.{build_path}
use wenchang.Errors.{Error}
use wenchang.Errors.Shown.{Blames, Blames-ok, Blames-bind}
use wenchang.Access.{Identity, ScopeGrant, ScopePolicy, check_write}
use wenchang.Access.Refusal.{check_write-Blames}
use wenchang.Access.Decision.{MayWrite, check_write_lem}
use wenchang.Tools.Arguments.{
  Arg, text, exact, entity_of, entity, built, tool_path, check_area_slug, check_name_chars,
  encodable, writable_path,
}
use wenchang.Tools.Refusals.{exact-eq-ok, tool_path-Blames}

-- The path is the one that the three arguments, all texts, name in the entity granted.
pub record Names (identity : Identity) (scope area name : Arg) (path : Str) : Type 0 where
  pub scope_text : Str
  pub area_text : Str
  pub name_text : Str
  pub is_scope : scope ≡ text scope_text
  pub is_area : area ≡ text area_text
  pub is_name : name ≡ text name_text
  pub grant : ScopeGrant
  pub granted : Dict.get scope_text identity.grants ≡ some grant
  pub built_path : build_path scope_text grant.entity_id area_text name_text ≡ some path

rebuilt :
    (s a n : Str) {e e' p q : Str}
    → build_path s e' a n ≡ some p
    → e ≡ e'
    → Path (Result Error Str) (ok p) (ok q)
    → build_path s e a n ≡ some q
rebuilt s a n h k l = cc (h, k, l)

entity_of-eq-ok :
    (o : Option ScopeGrant) {e : Str}
    → entity_of o ≡ ok e
    → (g : ScopeGrant) × (o ≡ some g) × (g.entity_id ≡ e)
unfolding entity_of
entity_of-eq-ok none h = cc h
entity_of-eq-ok (some g) h = (g, refl, cc h)

built-eq-ok : (area : Str) (o : Option Str) {p : Str} → built area o ≡ ok p → o ≡ some p
unfolding built
built-eq-ok area none h = cc h
built-eq-ok area (some p) h = cc h

module _ (is_invisible : ℕ → Bool) (identity : Identity) (scope area name : Arg) where
  pub tool_path-Names :
      (path : Str)
      → tool_path is_invisible identity scope area name ≡ ok path
      → Names identity scope area name path
  unfolding tool_path entity
  tool_path-Names path h =
      let (s, hs, h1) = >>=-eq-ok (exact (codes "scope") scope) _ h in
      let (a, ha, h2) = >>=-eq-ok (exact (codes "area") area) _ h1 in
      let (n, hn, h3) = >>=-eq-ok (exact (codes "name") name) _ h2 in
      let (u, hu, h4) = >>=-eq-ok (encodable (codes "scope") s) _ h3 in
      let (v, hv, h5) = >>=-eq-ok (encodable (codes "area") a) _ h4 in
      let (w, hw, h6) = >>=-eq-ok (encodable (codes "name") n) _ h5 in
      let (e, he, h7) = >>=-eq-ok (entity_of (Dict.get s identity.grants)) _ h6 in
      let (p, hp, h8) = >>=-eq-ok (built a (build_path s e a n)) _ h7 in
      let (x, hx, h9) = >>=-eq-ok (check_area_slug a) _ h8 in
      let (y, hy, h10) = >>=-eq-ok (check_name_chars is_invisible n) _ h9 in
      let (g, granted, own) = entity_of-eq-ok (Dict.get s identity.grants) he in
      record {
        scope_text = s;
        area_text = a;
        name_text = n;
        is_scope = exact-eq-ok _ scope hs;
        is_area = exact-eq-ok _ area ha;
        is_name = exact-eq-ok _ name hn;
        grant = g;
        granted = granted;
        built_path = rebuilt s a n (built-eq-ok a (build_path s e a n) hp) own h10;
      }

-- The call of a mutating tool: at a path that the arguments name in the session's own entity, and
-- that the write policy lets the session write.
pub record Authorized {C : Type 0} (identity : Identity) (policy : ScopePolicy)
    (scope area name : Arg) (IsCall : Str → C → Type 0) (call : C) : Type 0 where
  pub path : Str
  pub named : Names identity scope area name path
  pub may_write : MayWrite path identity policy
  pub is_call : IsCall path call

module _ (is_invisible : ℕ → Bool) (identity : Identity) (policy : ScopePolicy)
    (scope area name : Arg) where
  pub writable_path-Blames : Blames (writable_path is_invisible identity policy scope area name)
  unfolding writable_path
  writable_path-Blames =
      Blames-bind (tool_path is_invisible identity scope area name) _
        (tool_path-Blames is_invisible identity scope area name)
        λ path _.
          Blames-bind (check_write path identity policy) _ (check_write-Blames path identity policy)
            λ _ _. Blames-ok path

  -- A path that passed is named by the arguments, and the policy lets the session write there.
  pub writable_path-MayWrite :
      (path : Str)
      → writable_path is_invisible identity policy scope area name ≡ ok path
      → Names identity scope area name path × MayWrite path identity policy
  unfolding writable_path
  writable_path-MayWrite path h =
      let (p, hp, rest) = >>=-eq-ok (tool_path is_invisible identity scope area name) _ h in
      let (u, allowed, last) = >>=-eq-ok (check_write p identity policy) _ rest in
      let same : p ≡ path = cc last in
      rw (sym same) (
        tool_path-Names is_invisible identity scope area name p hp,
        (check_write_lem p identity policy).0 allowed,
      )
