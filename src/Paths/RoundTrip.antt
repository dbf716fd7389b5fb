-- ===== src/Paths/RoundTrip.antt =====
-- `build_path` and `parse_path` (src/wenchang/paths.py) undo each other.
use wenchang.Base.{true, false, ◌≡◌, ◌≢◌, List, length, [], ◌∷◌, ◌++◌, arith, some}
use wenchang.Text.{Str, str_eq, split, but_last, but_last_of_append, but_last-append}
use wenchang.Paths.{
  slash, md_suffix, is_valid_segment, is_valid_name, are_valid_segments, is_valid_path, PathParts,
  parts_of, parse_path, build_path,
}
use wenchang.Paths.Segments.{segment-Lacks, split-spell, spell, spell-of_split, name_of_md}

module _ (s e a n : Str) where
  -- What a successful `build_path` has checked, and what it returns.
  pub record IsBuilt (p : Str) : Type 0 where
    pub scope : is_valid_segment s ≡ true
    pub entity_id : is_valid_segment e ≡ true
    pub area : is_valid_segment a ≡ true
    pub name : is_valid_segment (n ++ md_suffix) ≡ true
    pub name_given : str_eq n [] ≡ false
    pub path : spell s e a (n ++ md_suffix) ≡ p

  build_path-IsBuilt : (p : Str) → build_path s e a n ≡ some p → IsBuilt p
  unfolding build_path
  build_path-IsBuilt p h = ground arith

  split_of_built : {p : Str} → IsBuilt p → split slash p ≡ s ∷ e ∷ a ∷ (n ++ md_suffix) ∷ []
  split_of_built b = rw (← b.path) (
      split-spell (segment-Lacks s b.scope) (segment-Lacks e b.entity_id) (segment-Lacks a b.area)
        (segment-Lacks _ b.name))

-- A path that `build_path` returns is well formed.
build_path-is_valid : (s e a n p : Str) → build_path s e a n ≡ some p → is_valid_path p ≡ true
unfolding is_valid_path
build_path-is_valid s e a n p h =
    let b = build_path-IsBuilt s e a n p h in
    rw (split_of_built s e a n b) (
      ground
        (arith, b.scope, b.entity_id, b.area, b.name, name_of_md n (ground (arith, b.name_given))))

-- `parse_path` gives back the parts that `build_path` put together.
pub parse_path-build_path :
    (s e a n p : Str)
    → build_path s e a n ≡ some p
    → parse_path p ≡ some (record { scope = s; entity_id = e; area = a; name = n })
unfolding parse_path
parse_path-build_path s e a n p h =
    let b = build_path-IsBuilt s e a n p h in
    rw (build_path-is_valid s e a n p h, split_of_built s e a n b, but_last_of_append n md_suffix)

-- What `parse_path` has checked of the segments, and the parts that it reads off them.
pub record IsParsed (ps : List Str) (q : PathParts) : Type 0 where
  pub segments : ps ≡ q.scope ∷ q.entity_id ∷ q.area ∷ (q.name ++ md_suffix) ∷ []
  pub scope : is_valid_segment q.scope ≡ true
  pub entity_id : is_valid_segment q.entity_id ≡ true
  pub area : is_valid_segment q.area ≡ true
  pub name : is_valid_segment (q.name ++ md_suffix) ≡ true
  pub name_given : q.name ≢ []

parts_of-IsParsed :
    (ps : List Str) (q : PathParts)
    → are_valid_segments ps ≡ true
    → parts_of ps ≡ some q
    → IsParsed ps q
unfolding are_valid_segments parts_of is_valid_name
parts_of-IsParsed (s ∷ e ∷ a ∷ l ∷ []) q v h =
    let w : but_last (length md_suffix) l ++ md_suffix ≡ l =
      but_last-append l md_suffix (ground arith) in
    record {
      segments = ground arith;
      scope = ground arith;
      entity_id = ground arith;
      area = ground arith;
      name = ground arith;
      name_given = λ empty. ground arith;
    }
parts_of-IsParsed [] q v h = cc
parts_of-IsParsed (s ∷ []) q v h = cc
parts_of-IsParsed (s ∷ e ∷ []) q v h = cc
parts_of-IsParsed (s ∷ e ∷ a ∷ []) q v h = cc
parts_of-IsParsed (s ∷ e ∷ a ∷ l ∷ x ∷ r) q v h = cc

pub parse_path-IsParsed :
    (p : Str) (q : PathParts) → parse_path p ≡ some q → IsParsed (split slash p) q
unfolding parse_path is_valid_path
parse_path-IsParsed p q h = parts_of-IsParsed (split slash p) q (ground arith) (ground arith)

-- `build_path` puts the parts of a well-formed path together again.
pub build_path-parse_path :
    (p : Str) (q : PathParts)
    → parse_path p ≡ some q
    → build_path q.scope q.entity_id q.area q.name ≡ some p
unfolding build_path
build_path-parse_path p q h =
    let b = parse_path-IsParsed p q h in
    ground (arith, b.scope, b.entity_id, b.area, b.name, b.name_given, spell-of_split p b.segments)
