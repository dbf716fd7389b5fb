-- ===== src/Tools/Refusals.antt =====
-- What the checks of the tools raise belongs to the taxonomy (src/wenchang/tools.py).
use wenchang.Base.{ℕ, Bool, false, Option, none, some, List, [], ◌∷◌, ◌≡◌, refl, sym, arith}
use wenchang.Base.Result.{Result, ok, err, >>=-eq-ok}
use wenchang.Text.{Str, codes}
use wenchang.Dict
use wenchang.Paths.{build_path, build_prefix}
use wenchang.Errors.{Error, category, recoverable, invalid_argument}
use wenchang.Errors.Shown.{IsShown, Blames, Blames-ok, Blames-err, Blames-bind, Blames-guard}
use wenchang.FileFormat.Metadata.{FileMetadata, make_metadata, has_line_end}
use wenchang.Access.{Identity, ScopeGrant}
use wenchang.Tools.Arguments.{
  Arg, text, other, ListArg, members, no_list, exact, encodable, check_area_slug, checked_area,
  blamed, one_line_description, check_single_line, checked_aliases, alias_tuple, optional,
  entity_of, entity, built, prefix_built, check_name_chars, tool_path, tool_prefix, unset_timestamp,
}

pub invalid_argument-IsShown : (argument : Str) → IsShown (invalid_argument argument)
unfolding category
invalid_argument-IsShown argument = (recoverable, refl)

refused : {A : Type 0} (argument : Str) → Blames {A = A} (err (invalid_argument argument))
refused argument = Blames-err _ (invalid_argument-IsShown argument)

pub exact-Blames : (argument : Str) (value : Arg) → Blames (exact argument value)
unfolding exact
exact-Blames argument (text s) = Blames-ok s
exact-Blames argument other = refused argument

pub exact-eq-ok :
    (argument : Str) (value : Arg) {s : Str} → exact argument value ≡ ok s → value ≡ text s
unfolding exact
exact-eq-ok argument (text s) h = cc h
exact-eq-ok argument other h = cc h

pub encodable-Blames : (argument value : Str) → Blames (encodable argument value)
unfolding encodable
encodable-Blames argument value = Blames-guard _ _ (invalid_argument-IsShown argument)

check_area_slug-Blames : (area : Str) → Blames (check_area_slug area)
unfolding check_area_slug
check_area_slug-Blames area = Blames-guard _ _ (invalid_argument-IsShown _)

pub optional-Blames :
    {A B : Type 0} (check : A → Result Error B) (o : Option A)
    → ((a : A) → Blames (check a))
    → Blames (optional check o)
unfolding optional
optional-Blames check none h = Blames-ok none
optional-Blames check (some a) h = Blames-bind (check a) _ (h a) (λ b e. Blames-ok (some b))

-- The metadata that a tool passes on: without sources, its time not set.
abbrev pub plain_metadata : Str → List Str → FileMetadata
plain_metadata description aliases = record {
  description = description;
  aliases = aliases;
  sources = [];
  last_updated = unset_timestamp;
}

blamed-Blames : (value : Str) (r : Result Error FileMetadata) → Blames (blamed value r)
unfolding blamed
blamed-Blames value (ok m) = Blames-ok value
blamed-Blames value (err e) = refused (codes "description")

check_single_line-Blames : (description : Str) → Blames (check_single_line description)
unfolding check_single_line
check_single_line-Blames description = Blames-guard _ _ (invalid_argument-IsShown _)

pub one_line_description-Blames : (value : Arg) → Blames (one_line_description value)
unfolding one_line_description
one_line_description-Blames value =
    Blames-bind (exact _ value) _ (exact-Blames _ value) (λ description _.
      Blames-bind (encodable _ description) _ (encodable-Blames _ description) (λ _ _.
        Blames-bind (check_single_line description) _ (check_single_line-Blames description)
          (λ _ _. blamed-Blames description (make_metadata description [] [] unset_timestamp))))

blamed-eq-ok :
    (value : Str) (r : Result Error FileMetadata) {d : Str}
    → blamed value r ≡ ok d
    → (value ≡ d) × ((m : FileMetadata) × (r ≡ ok m))
unfolding blamed
blamed-eq-ok value (ok m) h = (cc h, (m, refl))
blamed-eq-ok value (err e) h = cc h

aliased :
    (d : Str) (aliases : List Str) {m : FileMetadata}
    → make_metadata d [] [] unset_timestamp ≡ ok m
    → make_metadata d aliases [] unset_timestamp ≡ ok (plain_metadata d aliases)
unfolding make_metadata
aliased d aliases h = let passed : has_line_end d ≡ false = ground arith in rw passed refl

-- A description that was accepted, with any aliases, makes metadata.
pub described :
    (value : Arg) (aliases : List Str) {d : Str}
    → one_line_description value ≡ ok d
    → (value ≡ text d)
      × (make_metadata d aliases [] unset_timestamp ≡ ok (plain_metadata d aliases))
unfolding one_line_description
described value aliases h =
    let (x, hx, h1) = >>=-eq-ok (exact (codes "description") value) _ h in
    let (u, hu, h2) = >>=-eq-ok (encodable (codes "description") x) _ h1 in
    let (v, hv, h3) = >>=-eq-ok (check_single_line x) _ h2 in
    let (same, (m, made)) = blamed-eq-ok x (make_metadata x [] [] unset_timestamp) h3 in
    let metadata = aliased x aliases made in
    (cc (exact-eq-ok _ value hx, same), rw (sym same) metadata)

checked_aliases-Blames : (values : List Arg) → Blames (checked_aliases values)
unfolding checked_aliases
checked_aliases-Blames [] = Blames-ok []
checked_aliases-Blames (value ∷ values) =
    let rest = checked_aliases-Blames values in
    Blames-bind (exact _ value) _ (exact-Blames _ value) (λ alias _.
      Blames-bind (encodable _ alias) _ (encodable-Blames _ alias)
        (λ _ _. Blames-bind (checked_aliases values) _ rest (λ aliases _. Blames-ok _)))

pub alias_tuple-Blames : (values : ListArg) → Blames (alias_tuple values)
unfolding alias_tuple
alias_tuple-Blames no_list = refused (codes "aliases")
alias_tuple-Blames (members values) = checked_aliases-Blames values

entity_of-Blames : (o : Option ScopeGrant) → Blames (entity_of o)
unfolding entity_of
entity_of-Blames none = refused (codes "scope")
entity_of-Blames (some grant) = Blames-ok grant.entity_id

entity-Blames : (identity : Identity) (scope : Str) → Blames (entity identity scope)
unfolding entity
entity-Blames identity scope = entity_of-Blames (Dict.get scope identity.grants)

built-Blames : (area : Str) (o : Option Str) → Blames (built area o)
unfolding built
built-Blames area none = refused _
built-Blames area (some path) = Blames-ok path

prefix_built-Blames : (o : Option Str) → Blames (prefix_built o)
unfolding prefix_built
prefix_built-Blames none = refused _
prefix_built-Blames (some prefix) = Blames-ok prefix

checked_area-Blames :
    (check : Str → Result Error (Unit {0})) (o : Option Str)
    → ((a : Str) → Blames (check a))
    → Blames (checked_area check o)
unfolding checked_area
checked_area-Blames check none h = Blames-ok tt
checked_area-Blames check (some area) h = h area

module _ (is_invisible : ℕ → Bool) where
  check_name_chars-Blames : (name : Str) → Blames (check_name_chars is_invisible name)
  unfolding check_name_chars
  check_name_chars-Blames name = Blames-guard _ _ (invalid_argument-IsShown _)

  pub tool_path-Blames :
      (identity : Identity) (scope area name : Arg)
      → Blames (tool_path is_invisible identity scope area name)
  unfolding tool_path
  tool_path-Blames identity scope_arg area_arg name_arg =
      Blames-bind (exact _ scope_arg) _ (exact-Blames _ scope_arg) λ scope _.
        Blames-bind (exact _ area_arg) _ (exact-Blames _ area_arg) λ area _.
          Blames-bind (exact _ name_arg) _ (exact-Blames _ name_arg) λ name _.
            Blames-bind (encodable _ scope) _ (encodable-Blames _ scope) λ _ _.
              Blames-bind (encodable _ area) _ (encodable-Blames _ area) λ _ _.
                Blames-bind (encodable _ name) _ (encodable-Blames _ name) λ _ _.
                  Blames-bind (entity identity scope) _ (entity-Blames identity scope)
                    λ entity_id _.
                      Blames-bind (built area (build_path scope entity_id area name)) _
                        (built-Blames area _)
                        λ path _.
                          Blames-bind (check_area_slug area) _ (check_area_slug-Blames area) λ _ _.
                            Blames-bind (check_name_chars is_invisible name) _
                              (check_name_chars-Blames name) λ _ _. Blames-ok path

tool_prefix-Blames :
    (identity : Identity) (scope : Arg) (area : Option Arg)
    → Blames (tool_prefix identity scope area)
unfolding tool_prefix
tool_prefix-Blames identity scope_arg area_arg =
    Blames-bind (exact _ scope_arg) _ (exact-Blames _ scope_arg) λ scope _.
      Blames-bind (optional (exact _) area_arg) _ (optional-Blames _ area_arg (exact-Blames _))
        λ area _. Blames-bind (encodable _ scope) _ (encodable-Blames _ scope) λ _ _.
          Blames-bind (checked_area (encodable _) area) _
            (checked_area-Blames _ area (encodable-Blames _))
            λ _ _.
              Blames-bind (entity identity scope) _ (entity-Blames identity scope) λ entity_id _.
                Blames-bind (prefix_built (build_prefix scope (some entity_id) area)) _
                  (prefix_built-Blames _)
                  λ prefix _.
                    Blames-bind (checked_area check_area_slug area) _
                      (checked_area-Blames _ area check_area_slug-Blames) λ _ _. Blames-ok prefix
