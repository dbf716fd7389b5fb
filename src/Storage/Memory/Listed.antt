-- ===== src/Storage/Memory/Listed.antt =====
-- What a page of the in-memory storage holds (`list_page` of src/wenchang/storage/memory.py).
use wenchang.Base.{
  ℕ, zero, suc, ◌≤◌, Bool, true, Option, none, some, List, [], ◌∷◌, ◌≡◌, refl, arith, keep, take,
  map, All, length, ◌⊎◌, inr,
}
use wenchang.Base.Result.{ok}
use wenchang.Text.{Str, str_eq_iff, starts_with}
use wenchang.Text.Order.{before}
use wenchang.Text.SortedSet.{member, IsSorted, IsAbove}
use wenchang.Dict
use wenchang.Storage.{StoredObject, ListedObject}
use wenchang.Storage.Contract.{is_after}
use wenchang.Storage.Memory.{World, list_page, sort, list_keys}
use wenchang.Storage.Memory.Pages.{
  IsListed, list_keys-IsListed, member-sort, member-keys, map-list_keys, IsSorted-sort, Held-sort,
}
use wenchang.Storage.Memory.Lawful.{Held-keys, list_page-cut}

-- The key comes after the start key, where one is given.
abbrev pub ComesAfter : Option Str → Str → Type 0
ComesAfter none key = Unit
ComesAfter (some start) key = before start key ≡ true

abbrev keys_of : List ListedObject → List Str
keys_of = map (λ o. o.key)

-- The objects of one page: stored, under the prefix and behind the start key, in the order of their
-- keys; an object that is left out stands behind a full page.
pub record IsPage (w : World) (prefix : Str) (start_after : Option Str) (limit : ℕ)
    (page : List ListedObject) : Type 0 where
  pub sorted : IsSorted (map (λ o. o.key) page)
  pub stored : All (IsListed w.objects) page
  pub matching : All (λ o. (starts_with o.key prefix ≡ true) × ComesAfter start_after o.key) page
  pub few : length page ≤ limit
  pub complete :
      (key : Str) (o : StoredObject)
      → Dict.get key w.objects ≡ some o
      → starts_with key prefix ≡ true
      → ComesAfter start_after key
      → (member key (map (λ o. o.key) page) ≡ true)
        ⊎ ((length page ≡ limit) × All (λ o. before o.key key ≡ true) page)

module _ (P : ListedObject → Type 0) where
  All-keep : (p : ListedObject → Bool) (os : List ListedObject) → All P os → All P (keep p os)
  All-keep p [] h = tt
  All-keep p (o ∷ os) h = ground (arith, All-keep p os h.1)

  All-take : (n : ℕ) (os : List ListedObject) → All P os → All P (take n os)
  All-take zero os h = tt
  All-take (suc n) [] h = tt
  All-take (suc n) (o ∷ os) h = (h.0, All-take n os h.1)

kept : (p : ListedObject → Bool) (os : List ListedObject) → All (λ o. p o ≡ true) (keep p os)
kept p [] = tt
kept p (o ∷ os) = ground (arith, kept p os)

IsAbove-keep :
    (p : ListedObject → Bool) (a : Str) (os : List ListedObject)
    → IsAbove a (keys_of os)
    → IsAbove a (keys_of (keep p os))
IsAbove-keep p a [] h = tt
IsAbove-keep p a (o ∷ os) h = ground (arith, IsAbove-keep p a os h.1)

IsSorted-keep :
    (p : ListedObject → Bool) (os : List ListedObject)
    → IsSorted (keys_of os)
    → IsSorted (keys_of (keep p os))
IsSorted-keep p [] h = tt
IsSorted-keep p (o ∷ os) h = ground (arith, IsSorted-keep p os h.1, IsAbove-keep p o.key os h.0)

IsAbove-take :
    (n : ℕ) (a : Str) (os : List ListedObject)
    → IsAbove a (keys_of os)
    → IsAbove a (keys_of (take n os))
IsAbove-take zero a os h = tt
IsAbove-take (suc n) a [] h = tt
IsAbove-take (suc n) a (o ∷ os) h = (h.0, IsAbove-take n a os h.1)

IsSorted-take :
    (n : ℕ) (os : List ListedObject) → IsSorted (keys_of os) → IsSorted (keys_of (take n os))
IsSorted-take zero os h = tt
IsSorted-take (suc n) [] h = tt
IsSorted-take (suc n) (o ∷ os) h = (IsAbove-take n o.key os h.0, IsSorted-take n os h.1)

length-take_bound : (n : ℕ) (os : List ListedObject) → length (take n os) ≤ n
length-take_bound zero os = omega arith
length-take_bound (suc n) [] = omega arith
length-take_bound (suc n) (o ∷ os) = omega (arith, length-take_bound n os)

member-keep :
    (p : Str → Bool) (key : Str) (os : List ListedObject)
    → p key ≡ true
    → member key (keys_of os) ≡ true
    → member key (keys_of (keep (λ o. p o.key) os)) ≡ true
unfolding member
member-keep p key [] u h = h
member-keep p key (o ∷ os) u h = ground (arith, member-keep p key os u, str_eq_iff key o.key)

member-IsAbove :
    (a key : Str) (keys : List Str) → IsAbove a keys → member key keys ≡ true → before a key ≡ true
unfolding member
member-IsAbove a key [] h m = cc m
member-IsAbove a key (k ∷ keys) h m =
    ground (arith, member-IsAbove a key keys h.1, str_eq_iff key k)

-- What a cut leaves out stands behind it.
member-take :
    (n : ℕ) (key : Str) (os : List ListedObject)
    → IsSorted (keys_of os)
    → member key (keys_of os) ≡ true
    → (member key (keys_of (take n os)) ≡ true)
      ⊎ ((length (take n os) ≡ n) × All (λ o. before o.key key ≡ true) (take n os))
unfolding member
member-take zero key os s h = inr (refl, tt)
member-take (suc n) key [] s h = cc h
member-take (suc n) key (o ∷ os) s h =
    ground (arith, member-take n key os s.1, member-IsAbove o.key key (keys_of os) s.0)

is_after-ComesAfter :
    (start_after : Option Str) (key : Str)
    → is_after start_after key ≡ true
    → ComesAfter start_after key
is_after-ComesAfter none key h = tt
is_after-ComesAfter (some start) key h = h

ComesAfter-is_after :
    (start_after : Option Str) (key : Str)
    → ComesAfter start_after key
    → is_after start_after key ≡ true
ComesAfter-is_after none key h = refl
ComesAfter-is_after (some start) key h = h

module _ (prefix : Str) (start_after : Option Str) where
  matching_lem :
      (os : List ListedObject)
      → All (λ o. is_after start_after o.key ≡ true) os
      → All (λ o. starts_with o.key prefix ≡ true) os
      → All (λ o. (starts_with o.key prefix ≡ true) × ComesAfter start_after o.key) os
  matching_lem [] h u = tt
  matching_lem (o ∷ os) h u =
      ((u.0, is_after-ComesAfter start_after o.key h.0), matching_lem os h.1 u.1)

  -- `list_page` leaves the state and returns the objects stored under the prefix whose keys come
  -- after the start key, in the order of their keys: all of them, or the first, as many as the limit.
  pub list_page-IsPage :
      (limit : ℕ) (w : World)
      → (page : List ListedObject) × (list_page prefix start_after limit w ≡ (ok page, w))
        × IsPage w prefix start_after limit page
  list_page-IsPage limit w =
      let ks = sort (Dict.keys w.objects) in
      let all_of_it = list_keys w.objects ks in
      let under = keep (λ o. starts_with o.key prefix) all_of_it in
      let behind = keep (λ o. is_after start_after o.key) under in
      let keys : keys_of all_of_it ≡ ks =
        map-list_keys w.objects ks
          (Held-sort w.objects (Dict.keys w.objects) (Held-keys w.objects)) in
      let sorted_all : IsSorted (keys_of all_of_it) =
        rw keys (IsSorted-sort (Dict.keys w.objects)) in
      let sorted =
        IsSorted-keep (λ o. is_after start_after o.key) under
          (IsSorted-keep (λ o. starts_with o.key prefix) all_of_it sorted_all) in
      (
        take limit behind,
        list_page-cut prefix start_after limit w,
        record {
          sorted = IsSorted-take limit behind sorted;
          stored = All-take (IsListed w.objects) limit behind (
              All-keep (IsListed w.objects) (λ o. is_after start_after o.key) under
                (All-keep (IsListed w.objects) (λ o. starts_with o.key prefix) all_of_it
                  (list_keys-IsListed w.objects ks)));
          matching =
              All-take (λ o. (starts_with o.key prefix ≡ true) × ComesAfter start_after o.key) limit
                behind
                (matching_lem behind (kept (λ o. is_after start_after o.key) under) (
                  All-keep (λ o. starts_with o.key prefix ≡ true) (λ o. is_after start_after o.key)
                    under (kept (λ o. starts_with o.key prefix) all_of_it)));
          few = length-take_bound limit behind;
          complete = λ key o held u after.
              let listed : member key (keys_of all_of_it) ≡ true =
                rw (keys, member-sort key (Dict.keys w.objects))
                  (member-keys key o w.objects held) in
              member-take limit key behind sorted (
                member-keep (is_after start_after) key under
                  (ComesAfter-is_after start_after key after)
                  (member-keep (λ k. starts_with k prefix) key all_of_it u listed));
        },
      )
