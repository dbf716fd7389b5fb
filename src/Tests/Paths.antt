-- ===== src/Tests/Paths.antt =====
-- The theorems on paths at one path, and tests of the grammar.
use wenchang.Base.{false, none, some, ◌≡◌, refl}
use wenchang.Text.{Str, codes, split, str_dec, ends_with, but_last}
use wenchang.Paths.{
  is_valid_segment, is_valid_path, PathParts, parse_path, build_path, build_prefix,
}
use wenchang.Paths.RoundTrip.{parse_path-build_path, build_path-parse_path}

abbrev notes : Str
notes = codes "user/u1/prefs/notes.md"

abbrev notes_parts : PathParts
notes_parts = record {
  scope = codes "user";
  entity_id = codes "u1";
  area = codes "prefs";
  name = codes "notes";
}

notes_built : build_path (codes "user") (codes "u1") (codes "prefs") (codes "notes") ≡ some notes
unfolding build_path is_valid_segment str_dec
notes_built = refl

notes_parsed : parse_path notes ≡ some notes_parts
unfolding parse_path is_valid_path split is_valid_segment str_dec ends_with but_last
notes_parsed = refl

no_extension : is_valid_path (codes "user/u1/prefs/notes") ≡ false
unfolding is_valid_path split is_valid_segment str_dec ends_with
no_extension = refl

parent_segment : is_valid_path (codes "user/../prefs/notes.md") ≡ false
unfolding is_valid_path split is_valid_segment str_dec ends_with
parent_segment = refl

entity_built : build_prefix (codes "user") (some (codes "u1")) none ≡ some (codes "user/u1/")
unfolding build_prefix is_valid_segment str_dec
entity_built = refl

parse_path-build_path_example : parse_path notes ≡ some notes_parts
parse_path-build_path_example =
    parse_path-build_path (codes "user") (codes "u1") (codes "prefs") (codes "notes") notes
      notes_built

build_path-parse_path_example :
    build_path (codes "user") (codes "u1") (codes "prefs") (codes "notes") ≡ some notes
build_path-parse_path_example = build_path-parse_path notes notes_parts notes_parsed
