-- ===== src/Paths/Segments.antt =====
-- What the tests on segments and names give, and the segments of a path that is spelled out.
use wenchang.Base.{true, ◌≡◌, ◌≢◌, refl, [], ◌∷◌, ◌++◌, arith, length-append}
use wenchang.Text.{Str, split, ends_with-append}
use wenchang.Text.Split.{Lacks, has-Lacks, join, split_of_Lacks, split-append, join-split}
use wenchang.Paths.{slash, md_suffix, is_valid_segment, is_valid_name}

pub segment-Lacks : (s : Str) → is_valid_segment s ≡ true → Lacks slash s
unfolding is_valid_segment
segment-Lacks s h = has-Lacks slash s (ground arith)

segment-ne-nil : (s : Str) → is_valid_segment s ≡ true → s ≢ []
unfolding is_valid_segment
segment-ne-nil s h = ground arith

-- The path of four segments, as `build_path` spells it.
abbrev pub spell : Str → Str → Str → Str → Str
spell s e a l = s ++ slash ∷ (e ++ slash ∷ (a ++ slash ∷ l))

module _ {s e a l : Str} where
  pub split-spell :
      Lacks slash s
      → Lacks slash e
      → Lacks slash a
      → Lacks slash l
      → split slash (spell s e a l) ≡ s ∷ e ∷ a ∷ l ∷ []
  split-spell hs he ha hl = ground (
    arith,
    split-append slash s (e ++ slash ∷ (a ++ slash ∷ l)) hs,
    split-append slash e (a ++ slash ∷ l) he,
    split-append slash a l ha,
    split_of_Lacks slash l hl,
  )

pub spell-of_split :
    (p : Str) {s e a l : Str} → split slash p ≡ s ∷ e ∷ a ∷ l ∷ [] → spell s e a l ≡ p
spell-of_split p {s} {e} {a} {l} h = unfold join in rw h at (join-split slash p)

pub name_of_md : (n : Str) → n ≢ [] → is_valid_name (n ++ md_suffix) ≡ true
unfolding is_valid_name
name_of_md [] h = absurd (h refl)
name_of_md (c ∷ n) h = ground (arith, ends_with-append (c ∷ n) md_suffix, length-append n md_suffix)
