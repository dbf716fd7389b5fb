-- ===== src/Paths/Containment.antt =====
-- Which paths lie under the prefix of an entity: the listing of one entity reaches no other.
use wenchang.Base.{
  ◌≤◌, true, ◌≡◌, ◌↔◌, refl, List, [], ◌∷◌, ◌++◌, arith, all, length, Option, none, some,
  append_assoc, All,
}
use wenchang.Text.{Str, starts_with, ends_with-append, but_last_of_append}
use wenchang.Text.Split.{Lacks, join, split-join}
use wenchang.Paths.{
  slash, md_suffix, is_valid_segment, is_valid_prefix, PathParts, parse_path, build_prefix, closed,
}
use wenchang.Paths.Segments.{segment-Lacks, spell, spell-of_split}
use wenchang.Paths.RoundTrip.{parse_path-IsParsed}

-- Two texts that are cut at their first slash: the heads agree and the tail is a prefix.
starts_with_cut :
    (x y r t : Str)
    → Lacks slash x
    → Lacks slash y
    → (starts_with (x ++ slash ∷ r) (y ++ slash ∷ t) ≡ true) ↔ ((x ≡ y) × (starts_with r t ≡ true))
unfolding starts_with
starts_with_cut [] [] r t hx hy = ground arith
starts_with_cut [] (d ∷ y) r t hx hy = ground arith
starts_with_cut (c ∷ x) [] r t hx hy = ground arith
starts_with_cut (c ∷ x) (d ∷ y) r t hx hy = ground (arith, starts_with_cut x y r t hx.1 hy.1)

-- A well-formed path starts with the prefix of an entity, which `build_prefix` returned, exactly
-- when its first two segments are that scope and that entity.
pub starts_with-build_prefix :
    (p : Str) (q : PathParts) (s e prefix : Str)
    → parse_path p ≡ some q
    → build_prefix s (some e) none ≡ some prefix
    → (starts_with p prefix ≡ true) ↔ ((q.scope ≡ s) × (q.entity_id ≡ e))
unfolding build_prefix
starts_with-build_prefix p q s e prefix h k =
    let b = parse_path-IsParsed p q h in
    let path : spell q.scope q.entity_id q.area (q.name ++ md_suffix) ≡ p =
      spell-of_split p b.segments in
    let spelled : s ++ slash ∷ (e ++ slash ∷ []) ≡ prefix = ground arith in
    let outer =
      starts_with_cut q.scope s (q.entity_id ++ slash ∷ (q.area ++ slash ∷ (q.name ++ md_suffix)))
        (e ++ slash ∷ []) (segment-Lacks q.scope b.scope) (segment-Lacks s (ground arith)) in
    let inner =
      starts_with_cut q.entity_id e (q.area ++ slash ∷ (q.name ++ md_suffix)) []
        (segment-Lacks q.entity_id b.entity_id) (segment-Lacks e (ground arith)) in
    rw (← path, ← spelled) (unfold starts_with in ground (arith, outer, inner))

segments-Lacks : (ps : List Str) → all is_valid_segment ps ≡ true → All (Lacks slash) ps
segments-Lacks [] h = tt
segments-Lacks (p ∷ ps) h = (segment-Lacks p (ground arith), segments-Lacks ps (ground arith))

closed-join : (v : Str) (vs : List Str) → closed (v ∷ vs) ≡ join slash (v ∷ vs) ++ slash ∷ []
unfolding closed join
closed-join v [] = refl
closed-join v (w ∷ vs) = simp (closed-join w vs, append_assoc)

closed-is_valid :
    (v : Str) (vs : List Str)
    → length vs ≤ 2
    → all is_valid_segment (v ∷ vs) ≡ true
    → is_valid_prefix (closed (v ∷ vs)) ≡ true
unfolding is_valid_prefix
closed-is_valid v vs n h =
    rw
      (
        closed-join v vs,
        ends_with-append (join slash (v ∷ vs)) (slash ∷ []),
        but_last_of_append (join slash (v ∷ vs)) (slash ∷ []),
        split-join slash (v ∷ vs) (λ e. cc e) (segments-Lacks (v ∷ vs) h),
      )
      (ground arith)

-- A prefix that `build_prefix` returns, for a scope, an entity or an area, is well formed.
pub build_prefix-is_valid :
    (s : Str) (e a : Option Str) (prefix : Str)
    → build_prefix s e a ≡ some prefix
    → is_valid_prefix prefix ≡ true
unfolding build_prefix
build_prefix-is_valid s none none prefix h = ground (arith, closed-is_valid s [])
build_prefix-is_valid s none (some a) prefix h = ground arith
build_prefix-is_valid s (some e) none prefix h = ground (arith, closed-is_valid s (e ∷ []))
build_prefix-is_valid s (some e) (some a) prefix h = ground (arith, closed-is_valid s (e ∷ a ∷ []))
