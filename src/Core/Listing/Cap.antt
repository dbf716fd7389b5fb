-- ===== src/Core/Listing/Cap.antt =====
-- `_at_file_cap` (src/wenchang/core.py) tells exactly whether an entity holds as many files as its
-- limit, over all the pages of its listing.
use Prim.Native.Nat.{max}
use wenchang.Base.{
  ℕ, zero, suc, ◌+◌, ◌-◌, ◌≤◌, ◌<◌, Bool, true, Option, none, some, List, [], ◌∷◌, ◌++◌, ◌≡◌, refl,
  arith, leb, ltb, length, take, drop, keep, map, append_assoc, take-append-drop, length-append,
  ◌∙◌, ap, Bool-cases, inl, inr, if◌then◌else◌,
}
use wenchang.Base.Result.{ok}
use wenchang.Base.Exec.{pure, ◌>>=◌}
use wenchang.Text.{Str, codes, str_eq, starts_with}
use wenchang.Paths.{parse_path}
use wenchang.Text.Order.{before, before_irrefl, before_asymm}
use wenchang.Text.SortedSet.{IsSorted, IsAbove}
use wenchang.FileFormat.Metadata.{Codec}
use wenchang.Storage.{Backend, ListedObject}
use wenchang.Storage.Contract.{Contract, is_after}
use wenchang.Core.{Config}
use wenchang.Core.Cursor.{last_key}
use wenchang.Core.Listing.{countable, counts_area, at_file_cap, at_file_cap_from}

abbrev pub keys_of : List ListedObject → List Str
keys_of = map (λ o. o.key)

keep_above :
    (j : Str) (q : List ListedObject)
    → IsAbove j (keys_of q)
    → keep (λ o. is_after (some j) o.key) q ≡ q
keep_above j [] h = refl
keep_above j (o ∷ q) h = ground (arith, keep_above j q h.1)

above-last_key :
    (a j : Str) (xs q : List ListedObject)
    → IsAbove a (keys_of (xs ++ q))
    → last_key xs ≡ some j
    → before a j ≡ true
unfolding last_key
above-last_key a j [] q h e = cc e
above-last_key a j (o ∷ []) q h e = ground arith
above-last_key a j (o ∷ p ∷ xs) q h e = above-last_key a j (p ∷ xs) q h.1 e

-- What stands behind the last key of a part is the rest.
keep_behind :
    (j : Str) (xs q : List ListedObject)
    → IsSorted (keys_of (xs ++ q))
    → last_key xs ≡ some j
    → keep (λ o. is_after (some j) o.key) (xs ++ q) ≡ q
unfolding last_key
keep_behind j [] q h e = cc e
keep_behind j (o ∷ []) q h e =
    let same : o.key ≡ j = ground arith in
    ground (arith, before_irrefl j, keep_above j q (rw (← same) h.0))
keep_behind j (o ∷ p ∷ xs) q h e = ground (
  arith,
  before_asymm o.key j (above-last_key o.key j (p ∷ xs) q h.0 e),
  keep_behind j (p ∷ xs) q h.1 e,
)

last_key-append :
    (pre p : List ListedObject) (j : Str) → last_key p ≡ some j → last_key (pre ++ p) ≡ some j
unfolding last_key
last_key-append [] p j e = e
last_key-append (o ∷ []) [] j e = cc e
last_key-append (o ∷ []) (x ∷ p) j e = e
last_key-append (o ∷ o' ∷ pre) p j e = last_key-append (o' ∷ pre) p j e

pub last_key_of_longer : (p : List ListedObject) → 1 ≤ length p → (j : Str) × (last_key p ≡ some j)
unfolding last_key
last_key_of_longer [] h = elim h [ ]
last_key_of_longer (o ∷ []) h = (o.key, refl)
last_key_of_longer (o ∷ x ∷ p) h = last_key_of_longer (x ∷ p) (omega arith)

countable-append : (p q : List ListedObject) → countable (p ++ q) ≡ countable p + countable q
unfolding countable
countable-append [] q = omega arith
countable-append (o ∷ p) q = ground (arith, countable-append p q)

-- How many of the objects are files outside `system/`.
abbrev pub files_outside_system : List ListedObject → ℕ
files_outside_system [] = 0
files_outside_system (o ∷ os) =
    (elim (parse_path o.key) [
      | none ↦ 0
      | some parts ↦ if str_eq parts.area (codes "system") then 0 else 1
    ])
    + files_outside_system os

countable_lem : (os : List ListedObject) → countable os ≡ files_outside_system os
unfolding countable counts_area
countable_lem [] = refl
countable_lem (o ∷ os) = ground (arith, countable_lem os)

pub keep_all : (xs : List ListedObject) → keep (λ o. is_after none o.key) xs ≡ xs
keep_all [] = refl
keep_all (o ∷ xs) = ap (λ t. o ∷ t) (keep_all xs)

IsAbove-keep :
    (p : ListedObject → Bool) (a : Str) (xs : List ListedObject)
    → IsAbove a (keys_of xs)
    → IsAbove a (keys_of (keep p xs))
IsAbove-keep p a [] h = tt
IsAbove-keep p a (o ∷ xs) h = ground (arith, IsAbove-keep p a xs h.1)

pub IsSorted-keep :
    (p : ListedObject → Bool) (xs : List ListedObject)
    → IsSorted (keys_of xs)
    → IsSorted (keys_of (keep p xs))
IsSorted-keep p [] h = tt
IsSorted-keep p (o ∷ xs) h = ground (arith, IsSorted-keep p xs h.1, IsAbove-keep p o.key xs h.0)

pub take_short : (n : ℕ) (xs : List ListedObject) → length (take n xs) < n → take n xs ≡ xs
take_short zero xs h = elim h [ ]
take_short (suc n) [] h = refl
take_short (suc n) (o ∷ xs) h = ap (λ t. o ∷ t) (take_short n xs (omega arith))

-- The objects under a prefix.
abbrev pub listed_under : (B : Backend) → Contract B → B.State → Str → List ListedObject
listed_under B C s prefix = keep (λ o. starts_with o.key prefix) (C.listing s)

module _ (B : Backend) (C : Contract B) (c : Codec) (k : Config) (s : B.State) (good : C.Good s)
    (prefix : Str) where
  abbrev pub under : List ListedObject
  under = listed_under B C s prefix

  -- The listing from a key on, behind the pages that were read.
  pub record Rest (start_after : Option Str) (L : List ListedObject) : Type 0 where
    pub pre : List ListedObject
    pub cut : under ≡ pre ++ L
    pub rest : keep (λ o. is_after start_after o.key) under ≡ L

  pub next_Rest :
      (start_after : Option Str) (L : List ListedObject) (n : ℕ) (j : Str)
      → IsSorted (keys_of under)
      → last_key (take n L) ≡ some j
      → Rest start_after L
      → Rest (some j) (drop n L)
  next_Rest start_after L n j sorted last r =
      let cut : under ≡ (r.pre ++ take n L) ++ drop n L =
        rw (append_assoc r.pre (take n L) (drop n L), take-append-drop n L) r.cut in
      record {
        pre = r.pre ++ take n L;
        cut = cut;
        rest = rw cut (
            keep_behind j (r.pre ++ take n L) (drop n L) (rw cut at sorted)
              (last_key-append r.pre (take n L) j last));
      }

  at_file_cap_from_lem :
      (rounds limit count : ℕ) (start_after : Option Str) (L : List ListedObject)
      → IsSorted (keys_of under)
      → Rest start_after L
      → length L < rounds
      → at_file_cap_from B c k rounds prefix limit count start_after s
        ≡ (ok (leb limit (count + countable L)), s)
  unfolding at_file_cap_from pure ◌>>=◌
  at_file_cap_from_lem zero limit count start_after L sorted r h = elim h [ ]
  at_file_cap_from_lem (suc rounds) limit count start_after L sorted r h =
      elim (Bool-cases (ltb count limit)) [
        | inr full ↦ rw full (ground arith)
        | inl room ↦
            let n = max (limit - count) k.list_page_size in
            let p = take n L in
            let whole : p ++ drop n L ≡ L = take-append-drop n L in
            elim (Bool-cases (ltb (length p) n)) [
              | inl short ↦
                  rw (room, C.list_page-listing prefix start_after n s good, r.rest, short)
                    (rw (take_short n L (ground arith)) refl)
              | inr long ↦
                  let (j, last) = last_key_of_longer p (ground arith) in
                  let counted : count + countable p + countable (drop n L) ≡ count + countable L =
                    ground (arith, whole, countable-append p (drop n L)) in
                  let shorter : length (drop n L) < rounds =
                    ground (arith, whole, length-append p (drop n L)) in
                  rw (room, C.list_page-listing prefix start_after n s good, r.rest, long, last)
                    (rw
                      (
                        at_file_cap_from_lem rounds limit (count + countable p) (some j) (drop n L)
                            sorted (next_Rest start_after L n j sorted last r) shorter,
                        counted,
                      )
                      refl)
            ]
      ]

  -- Over a backend that keeps its contract and answers every call, from a state that it reaches,
  -- `_at_file_cap` returns whether the files outside `system/` under the prefix are as many as the
  -- limit or more, and writes nothing, if its rounds exceed the objects under the prefix.
  pub at_file_cap_lem :
      (rounds limit : ℕ)
      → length (listed_under B C s prefix) < rounds
      → at_file_cap B c k rounds prefix limit s
        ≡ (ok (leb limit (files_outside_system (listed_under B C s prefix))), s)
  unfolding at_file_cap
  at_file_cap_lem rounds limit h =
      at_file_cap_from_lem rounds limit 0 none under
        (IsSorted-keep (λ o. starts_with o.key prefix) (C.listing s) (C.listing-IsSorted s good))
        (record { pre = []; cut = refl; rest = keep_all under }) h
      ∙ (let sum : 0 + countable under ≡ files_outside_system under =
            omega (arith, countable_lem under) in
          ap (λ n. (ok (leb limit n), s)) sum)
