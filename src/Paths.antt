-- ===== src/Paths.antt =====
-- Memory paths `{scope}/{entity_id}/{area}/{name}.md` and listing prefixes
-- (src/wenchang/paths.py). A `ValueError` is `none`.
mod Segments
pub mod RoundTrip
pub mod Containment
use wenchang.Base.{
  ℕ, Bool, true, false, not, ◌&&◌, ◌||◌, Option, none, some, List, [], ◌∷◌, ◌++◌, ltb, leb,
  if◌then◌else◌, length, all,
}
use wenchang.Text.{Str, codes, str_eq, has, ends_with, but_last, split}

abbrev pub slash : ℕ
slash = b'/'

abbrev backslash : ℕ
backslash = b'\\'

abbrev pub md_suffix : Str
md_suffix = codes ".md"

-- `unicodedata.category(char)` is the class of control characters: below 32, DEL, and 128 to 159.
is_control : ℕ → Bool
is_control c = ltb c 32 || (leb 127 c && ltb c 160)

unfoldable pub is_valid_segment : Str → Bool
unfolding is_control has
is_valid_segment segment =
    if str_eq segment [] || (str_eq segment (codes ".") || str_eq segment (codes ".."))
    then false
    else if has slash segment || has backslash segment
    then false
    else all (λ c. not (is_control c)) segment

pub is_valid_name : Str → Bool
is_valid_name name = ends_with name md_suffix && ltb (length md_suffix) (length name)

-- The test on the number of segments is the pattern.
are_valid_segments : List Str → Bool
are_valid_segments (scope ∷ entity_id ∷ area ∷ name ∷ []) =
    if all is_valid_segment (scope ∷ entity_id ∷ area ∷ name ∷ [])
    then is_valid_name name
    else false
are_valid_segments _ = false

unfoldable pub is_valid_path : Str → Bool
unfolding are_valid_segments is_valid_name
is_valid_path path = are_valid_segments (split slash path)

unfoldable pub is_valid_prefix : Str → Bool
is_valid_prefix prefix =
    if not (ends_with prefix (slash ∷ []))
    then false
    else let segments = split slash (but_last 1 prefix) in
      if not (leb 1 (length segments) && leb (length segments) 3)
      then false
      else all is_valid_segment segments

pub record PathParts : Type 0 where
  pub scope : Str
  pub entity_id : Str
  pub area : Str
  pub name : Str

-- Bound by the unpacking of `path.split("/")`.
parts_of : List Str → Option PathParts
parts_of (scope ∷ entity_id ∷ area ∷ last ∷ []) = some (record {
  scope = scope;
  entity_id = entity_id;
  area = area;
  name = but_last (length md_suffix) last;
})
parts_of _ = none

unfoldable pub parse_path : Str → Option PathParts
unfolding parts_of
parse_path path = if not (is_valid_path path) then none else parts_of (split slash path)

unfoldable pub build_path : Str → Str → Str → Str → Option Str
build_path scope entity_id area name =
    if not (is_valid_segment scope)
    then none
    else if not (is_valid_segment entity_id)
    then none
    else if not (is_valid_segment area)
    then none
    else if str_eq name [] || not (is_valid_segment (name ++ md_suffix))
    then none
    else some (scope ++ slash ∷ (entity_id ++ slash ∷ (area ++ slash ∷ (name ++ md_suffix))))

-- `[v for v in (entity_id, area) if v is not None]`
given : Option Str → Option Str → List Str
given none none = []
given none (some a) = a ∷ []
given (some e) none = e ∷ []
given (some e) (some a) = e ∷ a ∷ []

-- `"".join(value + "/" for value in segments)`
closed : List Str → Str
closed [] = []
closed (v ∷ vs) = v ++ slash ∷ closed vs

is_given : Option Str → Bool
is_given none = false
is_given (some _) = true

unfoldable pub build_prefix : Str → Option Str → Option Str → Option Str
unfolding given closed is_given
build_prefix scope entity_id area =
    if is_given area && not (is_given entity_id)
    then none
    else let segments = scope ∷ given entity_id area in
      if all is_valid_segment segments then some (closed segments) else none
