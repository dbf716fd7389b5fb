-- ===== src/Text.antt =====
-- Python's `str` as its list of code points, with the methods that the program calls:
-- `==`, `in`, `startswith`, `endswith`, `split`, `join`.
mod Equality
pub mod Order
pub mod SortedSet
pub mod Split
pub use Equality.{Str, codes, str_eq_iff}
unfoldable pub use Equality.{str_eq, str_dec}
unfoldable pub use Split.{has, split, join}
use wenchang.Base.{
  ℕ, zero, suc, ◌-◌, ◌+◌, Bool, true, false, ◌&&◌, ◌||◌, List, [], ◌∷◌, ◌++◌, ◌≡◌, refl, ap, arith,
  ◌==◌, leb, length, take, drop, take-append-drop, length-append, drop-append, take-append, leb→le,
}

-- `s.startswith(prefix)`
unfoldable pub starts_with : Str → Str → Bool
starts_with s [] = true
starts_with [] (d ∷ p) = false
starts_with (c ∷ s) (d ∷ p) = c == d && starts_with s p

-- `s.endswith(suffix)`
unfoldable pub ends_with : Str → Str → Bool
ends_with s suffix =
    leb (length suffix) (length s) && str_eq (drop (length s - length suffix) s) suffix

-- `s[:-n]`, for a positive `n`
unfoldable pub but_last : ℕ → Str → Str
but_last n s = take (length s - n) s

pub starts_with-append : (p s : Str) → starts_with (p ++ s) p ≡ true
unfolding starts_with
starts_with-append [] s = refl
starts_with-append (c ∷ p) s = ground (arith, starts_with-append p s)

-- A text that ends with a suffix is the rest followed by it.
pub but_last-append :
    (s suffix : Str) → ends_with s suffix ≡ true → but_last (length suffix) s ++ suffix ≡ s
unfolding ends_with but_last
but_last-append s suffix h = ground (arith, take-append-drop (length s - length suffix) s)

pub ends_with-append : (s suffix : Str) → ends_with (s ++ suffix) suffix ≡ true
unfolding ends_with
ends_with-append s suffix =
    let e : length (s ++ suffix) - length suffix ≡ length s =
      omega (arith, length-append s suffix) in
    rw (e, drop-append s suffix) (ground (arith, length-append s suffix, str_eq_iff suffix suffix))

pub but_last_of_append : (s suffix : Str) → but_last (length suffix) (s ++ suffix) ≡ s
unfolding but_last
but_last_of_append s suffix =
    let e : length (s ++ suffix) - length suffix ≡ length s =
      omega (arith, length-append s suffix) in
    rw e (take-append s suffix)
