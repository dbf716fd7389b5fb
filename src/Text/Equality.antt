-- ===== src/Text/Equality.antt =====
-- Equality of texts as a decision that runs.
use Prim.Native.Char.{code}
use Prim.Native.String.{String}
use mathlib.Core.Bool.{Bool-discrete}
use wenchang.Base.{
  ℕ, Bool, true, false, ◌&&◌, List, [], ◌∷◌, ◌≡◌, refl, ◌↔◌, arith, ◌==◌, ite, dite,
}

abbrev pub Str : Type 0
Str = List ℕ

-- The code points of a literal.
abbrev pub codes : String → Str
codes String.[] = []
codes (String.◌∷◌ c s) = code c ∷ codes s

same : Str → Str → Bool
same [] [] = true
same (a ∷ s) (b ∷ t) = a == b && same s t
same _ _ = false

same_iff : (s t : Str) → (same s t ≡ true) ↔ (s ≡ t)
unfolding same
same_iff [] [] = (λ h. refl, λ h. refl)
same_iff (a ∷ s) (b ∷ t) = ground (arith, same_iff s t)
same_iff [] (b ∷ t) = ground arith
same_iff (a ∷ s) [] = ground arith

-- Shut in proofs, where a split on it yields the equation or its negation.
unfoldable pub str_dec : Discrete Str
unfolding same same_iff
str_dec s t =
    dite (Bool-discrete (same s t) true) (λ h. yes ((same_iff s t).0 h))
      (λ h. no (λ e. h ((same_iff s t).1 e)))

abbrev pub str_eq : Str → Str → Bool
str_eq s t = ite (str_dec s t) true false

pub str_eq_iff : (s t : Str) → (str_eq s t ≡ true) ↔ (s ≡ t)
str_eq_iff s t = ground arith
