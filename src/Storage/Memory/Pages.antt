-- ===== src/Storage/Memory/Pages.antt =====
-- The pages of the in-memory storage are cut from one sorted listing.
use wenchang.Base.{
  ℕ, zero, suc, Bool, true, ◌||◌, Option, none, some, ◌++◌, List, [], ◌∷◌, ◌≡◌, ◌≢◌, refl, arith,
  keep, take, map, All, if◌then◌else◌,
}
use wenchang.Text.{Str, str_eq, str_eq_iff}
use wenchang.Text.SortedSet.{
  member, IsSorted, IsAbove, IsAbove-trans, insert, insert_below, IsSorted-insert,
}
use wenchang.Dict
use wenchang.Dict.{Dict}
use wenchang.Storage.{StoredObject, ListedObject}
use wenchang.Storage.Memory.{sort, list_keys, listed}

pub IsSorted-sort : (xs : List Str) → IsSorted (sort xs)
unfolding sort
IsSorted-sort [] = tt
IsSorted-sort (x ∷ xs) = IsSorted-insert x (sort xs) (IsSorted-sort xs)

module _ (p : Str → Bool) where
  IsAbove-keep : (a : Str) (xs : List Str) → IsAbove a xs → IsAbove a (keep p xs)
  IsAbove-keep a [] h = tt
  IsAbove-keep a (x ∷ xs) h = ground (arith, IsAbove-keep a xs h.1)

  keep-insert :
      (x : Str) (ys : List Str)
      → IsSorted ys
      → keep p (insert x ys) ≡ (if p x then insert x (keep p ys) else keep p ys)
  unfolding insert
  keep-insert x [] h = refl
  keep-insert x (y ∷ ys) h = ground (
    arith,
    keep-insert x ys h.1,
    insert_below x (keep p ys),
    IsAbove-keep x ys,
    IsAbove-trans x y ys,
    str_eq_iff x y,
  )

  -- A filter before the sort is a filter after it.
  pub sort-keep : (xs : List Str) → sort (keep p xs) ≡ keep p (sort xs)
  unfolding sort
  sort-keep [] = refl
  sort-keep (x ∷ xs) = ground (arith, sort-keep xs, keep-insert x (sort xs) (IsSorted-sort xs))

-- The keys that a dict holds.
abbrev pub Held : Dict StoredObject → List Str → Type 0
Held d = All (λ key. Dict.get key d ≢ none)

module _ (d : Dict StoredObject) where
  pub list_keys-keep :
      (p : Str → Bool) (ks : List Str)
      → Held d ks
      → keep (λ o. p o.key) (list_keys d ks) ≡ list_keys d (keep p ks)
  unfolding list_keys listed
  list_keys-keep p [] h = refl
  list_keys-keep p (x ∷ ks) h = ground (arith, list_keys-keep p ks h.1)

  pub map-list_keys : (ks : List Str) → Held d ks → map (λ o. o.key) (list_keys d ks) ≡ ks
  unfolding list_keys listed
  map-list_keys [] h = refl
  map-list_keys (x ∷ ks) h = ground (arith, map-list_keys ks h.1)

  pub take-list_keys :
      (n : ℕ) (ks : List Str) → Held d ks → take n (list_keys d ks) ≡ list_keys d (take n ks)
  unfolding list_keys listed
  take-list_keys zero ks h = refl
  take-list_keys (suc n) [] h = refl
  take-list_keys (suc n) (x ∷ ks) h = ground (arith, take-list_keys n ks h.1)

  Held-insert : (x : Str) (ks : List Str) → Dict.get x d ≢ none → Held d ks → Held d (insert x ks)
  unfolding insert
  Held-insert x [] hx h = (hx, tt)
  Held-insert x (y ∷ ks) hx h = ground (arith, Held-insert x ks hx h.1)

  pub Held-sort : (ks : List Str) → Held d ks → Held d (sort ks)
  unfolding sort
  Held-sort [] h = tt
  Held-sort (x ∷ ks) h = Held-insert x (sort ks) h.0 (Held-sort ks h.1)

  pub Held-keep : (p : Str → Bool) (ks : List Str) → Held d ks → Held d (keep p ks)
  Held-keep p [] h = tt
  Held-keep p (x ∷ ks) h = ground (arith, Held-keep p ks h.1)

  -- An object that a dict holds, as it is listed.
  abbrev pub IsListed : ListedObject → Type 0
  IsListed o =
      (p : StoredObject) × (Dict.get o.key d ≡ some p)
      × (p.metadata ≡ o.metadata)
      × (p.version ≡ o.version)

  in_front :
      (key : Str) (o : Option StoredObject) (os : List ListedObject)
      → Dict.get key d ≡ o
      → All IsListed os
      → All IsListed (listed key o ++ os)
  unfolding listed
  in_front key none os e h = h
  in_front key (some p) os e h = ((p, e, refl, refl), h)

  pub list_keys-IsListed : (ks : List Str) → All IsListed (list_keys d ks)
  unfolding list_keys
  list_keys-IsListed [] = tt
  list_keys-IsListed (x ∷ ks) =
      in_front x (Dict.get x d) (list_keys d ks) refl (list_keys-IsListed ks)

member-insert : (a b : Str) (xs : List Str) → member a (insert b xs) ≡ str_eq a b || member a xs
unfolding member insert
member-insert a b [] = refl
member-insert a b (x ∷ xs) = ground (arith, member-insert a b xs, str_eq_iff b x)

pub member-sort : (a : Str) (xs : List Str) → member a (sort xs) ≡ member a xs
unfolding sort member
member-sort a [] = refl
member-sort a (x ∷ xs) = rw (member-insert a x (sort xs), member-sort a xs) refl

pub member-keys :
    (a : Str) (p : StoredObject) (d : Dict StoredObject)
    → Dict.get a d ≡ some p
    → member a (Dict.keys d) ≡ true
unfolding Dict.get Dict.keys member
member-keys a p [] h = cc h
member-keys a p ((k, o) ∷ d) h = ground (arith, member-keys a p d, str_eq_iff a k)
