-- ===== src/Storage/Memory/Decimal.antt =====
-- The decimal texts of two numbers differ, so no version token is issued twice.
use wenchang.Base.{
  ℕ, zero, suc, ◌+◌, ◌-◌, ◌*◌, ◌/◌, ◌%◌, ◌<◌, ◌≡◌, refl, ◌∙◌, sym, ap, [], ◌∷◌, ◌++◌, arith, ltb,
  Bool-cases, inl, inr,
}
use wenchang.Text.{Str}
use wenchang.Storage.Memory.{digits, decimal}

-- The number that digits spell, behind those read before.
value_from : ℕ → Str → ℕ
value_from acc [] = acc
value_from acc (c ∷ s) = value_from (acc * 10 + (c - 48)) s

value_from-append :
    (acc : ℕ) (s t : Str) → value_from acc (s ++ t) ≡ value_from (value_from acc s) t
unfolding value_from
value_from-append acc [] t = refl
value_from-append acc (c ∷ s) t = value_from-append (acc * 10 + (c - 48)) s t

value-digits : (rounds n : ℕ) → n < rounds → value_from 0 (digits rounds n) ≡ n
unfolding digits
value-digits zero n h = elim h [ ]
value-digits (suc rounds) n h = elim (Bool-cases (ltb n 10)) [
  | inl small ↦ rw small (unfold value_from in omega arith)
  | inr large ↦
      let ih : value_from 0 (digits rounds (n / 10)) ≡ n / 10 =
        value-digits rounds (n / 10) (ground arith) in
      rw (large, value_from-append 0 (digits rounds (n / 10)) ((48 + n % 10) ∷ []), ih)
        (unfold value_from in omega arith)
]

pub decimal_injective : (m n : ℕ) → decimal m ≡ decimal n → m ≡ n
unfolding decimal
decimal_injective m n e =
    sym (value-digits (suc m) m (omega arith))
    ∙ ap (value_from 0) e
    ∙ value-digits (suc n) n (omega arith)
