-- ===== src/Core/Listing/Keys.antt =====
-- The keys of the pages of a listing (src/wenchang/core.py): a cursor can be made of each, and a page
-- and the rest are the whole.
use wenchang.Base.{
  ℕ, zero, suc, ◌≤◌, true, some, List, [], ◌∷◌, ◌≡◌, refl, arith, ltb, length, take, drop, keep,
  All, ap, Bool-cases, inl, inr,
}
use wenchang.Text.{Str, starts_with}
use wenchang.Utf8.{Bytes, encode}
use wenchang.Storage.{ListedObject}
use wenchang.Core.Cursor.{last_key}

-- A key that a cursor can hold.
abbrev pub CanEncode : ListedObject → Type 0
CanEncode o = (bs : Bytes) × (encode o.key ≡ some bs)

-- A key under the prefix that a cursor can hold.
abbrev pub Resumes : Str → ListedObject → Type 0
Resumes prefix o = (bs : Bytes) × (encode o.key ≡ some bs) × (starts_with o.key prefix ≡ true)

pub All-drop :
    (prefix : Str) (n : ℕ) (xs : List ListedObject)
    → All (Resumes prefix) xs
    → All (Resumes prefix) (drop n xs)
All-drop prefix zero xs h = h
All-drop prefix (suc n) [] h = tt
All-drop prefix (suc n) (o ∷ xs) h = All-drop prefix n xs h.1

pub All-take :
    (prefix : Str) (n : ℕ) (xs : List ListedObject)
    → All (Resumes prefix) xs
    → All (Resumes prefix) (take n xs)
All-take prefix zero xs h = tt
All-take prefix (suc n) [] h = tt
All-take prefix (suc n) (o ∷ xs) h = (h.0, All-take prefix n xs h.1)

-- One object more is asked for than a page holds.
pub length-take-suc :
    (n : ℕ) (xs : List ListedObject) → ltb n (length (take (suc n) xs)) ≡ ltb n (length xs)
length-take-suc zero [] = refl
length-take-suc zero (o ∷ xs) = ground arith
length-take-suc (suc n) [] = refl
length-take-suc (suc n) (o ∷ xs) = ground (arith, length-take-suc n xs)

pub take-take-suc : (n : ℕ) (xs : List ListedObject) → take n (take (suc n) xs) ≡ take n xs
take-take-suc zero xs = refl
take-take-suc (suc n) [] = refl
take-take-suc (suc n) (o ∷ xs) = ap (λ t. o ∷ t) (take-take-suc n xs)

pub take_whole : (n : ℕ) (xs : List ListedObject) → length xs ≤ n → take n xs ≡ xs
take_whole zero [] h = refl
take_whole zero (o ∷ xs) h = elim h [ ]
take_whole (suc n) [] h = refl
take_whole (suc n) (o ∷ xs) h = ap (λ t. o ∷ t) (take_whole n xs (omega (arith, h)))

pub length-take_le : (n : ℕ) (xs : List ListedObject) → n ≤ length xs → length (take n xs) ≡ n
length-take_le zero xs h = refl
length-take_le (suc n) [] h = elim h [ ]
length-take_le (suc n) (o ∷ xs) h = omega (arith, length-take_le n xs (omega (arith, h)))

-- The last key of a page is one of its keys.
pub last_key-Resumes :
    (prefix : Str) (xs : List ListedObject) (j : Str)
    → All (Resumes prefix) xs
    → last_key xs ≡ some j
    → (bs : Bytes) × (encode j ≡ some bs) × (starts_with j prefix ≡ true)
unfolding last_key
last_key-Resumes prefix [] j h e = cc e
last_key-Resumes prefix (o ∷ []) j h e = let same : o.key ≡ j = cc e in rw (← same) h.0
last_key-Resumes prefix (o ∷ p ∷ xs) j h e = last_key-Resumes prefix (p ∷ xs) j h.1 e

pub Resumes-keep :
    (prefix : Str) (xs : List ListedObject)
    → All CanEncode (keep (λ o. starts_with o.key prefix) xs)
    → All (Resumes prefix) (keep (λ o. starts_with o.key prefix) xs)
Resumes-keep prefix [] h = tt
Resumes-keep prefix (o ∷ xs) h = elim (Bool-cases (starts_with o.key prefix)) [
  | inl e ↦
      let both : CanEncode o × All CanEncode (keep (λ x. starts_with x.key prefix) xs) =
        rw e at h in
      rw e ((both.0.0, both.0.1, e), Resumes-keep prefix xs both.1)
  | inr e ↦ rw e (Resumes-keep prefix xs (rw e at h))
]
