-- ===== src/Text/Order.antt =====
-- `s < t` on Python texts: code point by code point, a proper prefix first.
use wenchang.Base.{Bool, true, false, [], ◌∷◌, ◌≡◌, refl, arith, ◌==◌, ltb, if◌then◌else◌}
use wenchang.Text.Equality.{Str}

unfoldable pub before : Str → Str → Bool
before [] [] = false
before [] (b ∷ t) = true
before (a ∷ s) [] = false
before (a ∷ s) (b ∷ t) = if a == b then before s t else ltb a b

pub before_irrefl : (s : Str) → before s s ≡ false
unfolding before
before_irrefl [] = refl
before_irrefl (a ∷ s) = ground (arith, before_irrefl s)

pub before_trans : (s t u : Str) → before s t ≡ true → before t u ≡ true → before s u ≡ true
unfolding before
before_trans [] [] u h k = cc
before_trans [] (b ∷ t) [] h k = cc
before_trans [] (b ∷ t) (c ∷ u) h k = refl
before_trans (a ∷ s) [] u h k = cc
before_trans (a ∷ s) (b ∷ t) [] h k = cc
before_trans (a ∷ s) (b ∷ t) (c ∷ u) h k = ground (arith, before_trans s t u)

pub before_asymm : (s t : Str) → before s t ≡ true → before t s ≡ false
unfolding before
before_asymm [] [] h = refl
before_asymm [] (b ∷ t) h = refl
before_asymm (a ∷ s) [] h = cc
before_asymm (a ∷ s) (b ∷ t) h = ground (arith, before_asymm s t)

-- Two texts of which neither comes first are one.
pub before_antisymm : (s t : Str) → before s t ≡ false → before t s ≡ false → s ≡ t
unfolding before
before_antisymm [] [] h k = refl
before_antisymm [] (b ∷ t) h k = cc
before_antisymm (a ∷ s) [] h k = cc
before_antisymm (a ∷ s) (b ∷ t) h k = ground (arith, before_antisymm s t)
