-- ===== src/Tools/Arguments.antt =====
-- The checks of a tool's arguments (src/wenchang/tools.py). Each failure names its argument.
use wenchang.Base.{
  ℕ, ◌%◌, Bool, true, false, not, ◌&&◌, ◌||◌, Option, none, some, List, [], ◌∷◌, leb, ◌==◌, all,
  if◌then◌else◌,
}
use wenchang.Base.Result.{Result, ok, err, ◌>>=◌, ◌>>◌, guard}
use wenchang.Text.{Str, codes, has}
use wenchang.Utf8.{Bytes, encode}
use wenchang.Dict
use wenchang.Paths.{is_valid_segment, build_path, build_prefix}
use wenchang.Errors.{Error, invalid_argument}
use wenchang.FileFormat.Metadata.{Datetime, FileMetadata, make_metadata}
use wenchang.Access.{Identity, ScopeGrant, ScopePolicy, check_write}

-- An argument that an agent gives: a text, or a value of another type.
pub data Arg : Type 0 where
  text : Str → Arg
  other : Arg

-- The argument `aliases`: a sequence, or a value of another type, a bare text included.
pub data ListArg : Type 0 where
  members : List Arg → ListArg
  no_list : ListArg

-- `_exact`
unfoldable pub exact : Str → Arg → Result Error Str
exact argument (text s) = ok s
exact argument other = err (invalid_argument argument)

-- `value.encode("utf-8")` went through.
unfoldable pub is_encodable : Option Bytes → Bool
is_encodable none = false
is_encodable (some _) = true

-- `_encodable`
unfoldable pub encodable : Str → Str → Result Error (Unit {0})
unfolding is_encodable
encodable argument value = guard (is_encodable (encode value)) (invalid_argument argument)

is_slug_start : ℕ → Bool
is_slug_start c = (leb 97 c && leb c 122) || (leb 48 c && leb c 57)

is_slug_char : ℕ → Bool
unfolding is_slug_start
is_slug_char c = is_slug_start c || (c == b'_' || c == b'-')

-- `_AREA_SLUG.fullmatch(area)`, for `[a-z0-9][a-z0-9_-]*`
unfoldable pub is_area_slug : Str → Bool
unfolding is_slug_start is_slug_char
is_area_slug [] = false
is_area_slug (c ∷ rest) = is_slug_start c && all is_slug_char rest

-- `_check_area_slug`
unfoldable pub check_area_slug : Str → Result Error (Unit {0})
check_area_slug area = guard (is_area_slug area) (invalid_argument (codes "area"))

-- The line boundaries that a description must not contain, besides `\n` and `\r`.
abbrev pub line_boundaries : List ℕ
line_boundaries = 0x0B ∷ 0x0C ∷ 0x1C ∷ 0x1D ∷ 0x1E ∷ 0x85 ∷ 0x2028 ∷ 0x2029 ∷ []

abbrev pub unset_timestamp : Datetime
unset_timestamp = record { micros = 62135683200000000; aware = true }

-- `FileMetadata(...)` with its `ValueError` blamed on the description.
unfoldable pub blamed : Str → Result Error FileMetadata → Result Error Str
blamed value (ok _) = ok value
blamed value (err _) = err (invalid_argument (codes "description"))

-- `if any(boundary in description for boundary in _LINE_BOUNDARIES)`
unfoldable pub check_single_line : Str → Result Error (Unit {0})
check_single_line description =
    guard (all (λ boundary. not (has boundary description)) line_boundaries)
      (invalid_argument (codes "description"))

-- `_description`
unfoldable pub one_line_description : Arg → Result Error Str
unfolding exact blamed
one_line_description value = do
  description ← exact (codes "description") value
  encodable (codes "description") description
  check_single_line description
  blamed description (make_metadata description [] [] unset_timestamp)

unfoldable pub checked_aliases : List Arg → Result Error (List Str)
checked_aliases [] = ok []
checked_aliases (member ∷ rest) =
    let others = checked_aliases rest in
    (do
      alias ← exact (codes "aliases") member
      encodable (codes "aliases") alias
      aliases ← others
      ok (alias ∷ aliases))

-- `_aliases`
unfoldable pub alias_tuple : ListArg → Result Error (List Str)
unfolding checked_aliases
alias_tuple no_list = err (invalid_argument (codes "aliases"))
alias_tuple (members values) = checked_aliases values

-- An optional argument, checked if it is given.
unfoldable pub optional : {A B : Type 0} → (A → Result Error B) → Option A → Result Error (Option B)
optional check none = ok none
optional check (some value) = do b ← check value; ok (some b)

-- `_entity`, of the grant found: only the session's own entity can be addressed.
unfoldable pub entity_of : Option ScopeGrant → Result Error Str
entity_of none = err (invalid_argument (codes "scope"))
entity_of (some grant) = ok grant.entity_id

unfoldable pub entity : Identity → Str → Result Error Str
unfolding entity_of
entity identity scope = entity_of (Dict.get scope identity.grants)

-- A path that could not be built, blamed on the area or the name.
unfoldable pub built : Str → Option Str → Result Error Str
built area none =
    err (invalid_argument (if not (is_valid_segment area) then codes "area" else codes "name"))
built area (some path) = ok path

unfoldable pub prefix_built : Option Str → Result Error Str
prefix_built none = err (invalid_argument (codes "area"))
prefix_built (some prefix) = ok prefix

-- `unicodedata.category(char) in ("Cf", "Zl", "Zp")`, of Python's Unicode tables, is a parameter.
module _ (is_invisible : ℕ → Bool) where
  -- `_is_forbidden_name_char`: a noncharacter, or an invisible or separating one.
  unfoldable pub is_forbidden_name_char : ℕ → Bool
  is_forbidden_name_char code =
      if (leb 0xFDD0 code && leb code 0xFDEF) || leb 0xFFFE (code % 0x10000)
      then true
      else is_invisible code

  -- `_check_name_chars`
  unfoldable pub check_name_chars : Str → Result Error (Unit {0})
  check_name_chars name =
      guard (all (λ char. not (is_forbidden_name_char char)) name) (invalid_argument (codes "name"))

  -- `_path`
  unfoldable pub tool_path : Identity → Arg → Arg → Arg → Result Error Str
  unfolding built
  tool_path identity scope_arg area_arg name_arg = do
    scope ← exact (codes "scope") scope_arg
    area ← exact (codes "area") area_arg
    name ← exact (codes "name") name_arg
    encodable (codes "scope") scope
    encodable (codes "area") area
    encodable (codes "name") name
    entity_id ← entity identity scope
    path ← built area (build_path scope entity_id area name)
    check_area_slug area
    check_name_chars name
    ok path

  -- The first two steps of a mutating tool: `self._path` and `check_write`.
  unfoldable pub writable_path : Identity → ScopePolicy → Arg → Arg → Arg → Result Error Str
  writable_path identity policy scope area name = do
    path ← tool_path identity scope area name
    check_write path identity policy
    ok path

-- `_check_area_slug` and `_encodable` of an optional area.
unfoldable pub checked_area : (Str → Result Error (Unit {0})) → Option Str → Result Error (Unit {0})
checked_area check none = ok tt
checked_area check (some area) = check area

-- `_prefix`
unfoldable pub tool_prefix : Identity → Arg → Option Arg → Result Error Str
unfolding prefix_built checked_area
tool_prefix identity scope_arg area_arg = do
  scope ← exact (codes "scope") scope_arg
  area ← optional (exact (codes "area")) area_arg
  encodable (codes "scope") scope
  checked_area (encodable (codes "area")) area
  entity_id ← entity identity scope
  prefix ← prefix_built (build_prefix scope (some entity_id) area)
  checked_area check_area_slug area
  ok prefix
