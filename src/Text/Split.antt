-- ===== src/Text/Split.antt =====
-- `c in s`, `str.split(sep)` and `sep.join(parts)`, for a separator of one character.
use wenchang.Base.{
  ℕ, Bool, false, ◌||◌, List, [], ◌∷◌, ◌++◌, ◌≡◌, ◌≢◌, refl, arith, ◌==◌, if◌then◌else◌, All,
}
use wenchang.Text.Equality.{Str}

-- `c in s`, for a text of one character
unfoldable pub has : ℕ → Str → Bool
has c [] = false
has c (d ∷ s) = c == d || has c s

onto_first : ℕ → List Str → List Str
onto_first c [] = (c ∷ []) ∷ []
onto_first c (p ∷ ps) = (c ∷ p) ∷ ps

unfoldable pub split : ℕ → Str → List Str
unfolding onto_first
split sep [] = [] ∷ []
split sep (c ∷ s) = let rest = split sep s in if c == sep then [] ∷ rest else onto_first c rest

unfoldable pub join : ℕ → List Str → Str
join sep [] = []
join sep (p ∷ []) = p
join sep (p ∷ q ∷ ps) = p ++ sep ∷ join sep (q ∷ ps)

abbrev pub Lacks : ℕ → Str → Type 0
Lacks c = All (λ d. d ≢ c)

pub has-Lacks : (c : ℕ) (s : Str) → has c s ≡ false → Lacks c s
unfolding has
has-Lacks c [] h = tt
has-Lacks c (d ∷ s) h = ground (arith, has-Lacks c s)

pub Lacks-has : (c : ℕ) (s : Str) → Lacks c s → has c s ≡ false
unfolding has
Lacks-has c [] h = refl
Lacks-has c (d ∷ s) h = ground (arith, Lacks-has c s h.1)

pub split-ne-nil : (sep : ℕ) (s : Str) → split sep s ≢ []
unfolding split
split-ne-nil sep [] = λ e. cc e
split-ne-nil sep (c ∷ s) = ground (arith, split-ne-nil sep s)

join-onto_first :
    (sep c : ℕ) (ps : List Str) → ps ≢ [] → join sep (onto_first c ps) ≡ c ∷ join sep ps
unfolding onto_first join
join-onto_first sep c [] h = absurd (h refl)
join-onto_first sep c (p ∷ []) h = refl
join-onto_first sep c (p ∷ q ∷ ps) h = refl

join-cons :
    (sep : ℕ) (p : Str) (ps : List Str) → ps ≢ [] → join sep (p ∷ ps) ≡ p ++ sep ∷ join sep ps
unfolding join
join-cons sep p [] h = absurd (h refl)
join-cons sep p (q ∷ ps) h = refl

pub join-split : (sep : ℕ) (s : Str) → join sep (split sep s) ≡ s
unfolding split
join-split sep [] = unfold join in refl
join-split sep (c ∷ s) = ground (
  arith,
  join-split sep s,
  join-cons sep [] (split sep s) (split-ne-nil sep s),
  join-onto_first sep c (split sep s) (split-ne-nil sep s),
)

pub split_of_Lacks : (sep : ℕ) (p : Str) → Lacks sep p → split sep p ≡ p ∷ []
unfolding split
split_of_Lacks sep [] h = refl
split_of_Lacks sep (c ∷ p) h = ground (arith, split_of_Lacks sep p h.1)

pub split-append : (sep : ℕ) (p s : Str) → Lacks sep p → split sep (p ++ sep ∷ s) ≡ p ∷ split sep s
unfolding split
split-append sep [] s h = ground arith
split-append sep (c ∷ p) s h = ground (arith, split-append sep p s h.1)

-- No part of a split holds the separator.
pub split-Lacks : (sep : ℕ) (s : Str) → All (Lacks sep) (split sep s)
unfolding split
split-Lacks sep [] = (tt, tt)
split-Lacks sep (c ∷ s) = ground (arith, split-Lacks sep s)

-- Splitting a join gives the parts back, if there is a part and none holds the separator.
pub split-join :
    (sep : ℕ) (ps : List Str) → ps ≢ [] → All (Lacks sep) ps → split sep (join sep ps) ≡ ps
unfolding join
split-join sep [] h l = absurd (h refl)
split-join sep (p ∷ []) h l = split_of_Lacks sep p l.0
split-join sep (p ∷ q ∷ ps) h l =
    ground
      (arith, split-append sep p (join sep (q ∷ ps)) l.0, split-join sep (q ∷ ps) (λ e. cc e) l.1)
