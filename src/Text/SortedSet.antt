-- ===== src/Text/SortedSet.antt =====
-- A `frozenset[str]`, as the list that `sorted` gives of it: in order, each member once.
use wenchang.Base.{Bool, true, false, ◌||◌, List, [], ◌∷◌, ◌≡◌, refl, arith, if◌then◌else◌, All}
use wenchang.Text.Equality.{Str, str_eq, str_eq_iff}
use wenchang.Text.Order.{before, before_trans, before_irrefl, before_antisymm}

abbrev pub SortedSet : Type 0
SortedSet = List Str

-- `a in xs`
unfoldable pub member : Str → List Str → Bool
member a [] = false
member a (x ∷ xs) = str_eq a x || member a xs

-- `xs | {a}`
unfoldable pub insert : Str → SortedSet → SortedSet
insert a [] = a ∷ []
insert a (x ∷ xs) =
    if str_eq a x then x ∷ xs else if before a x then a ∷ x ∷ xs else x ∷ insert a xs

-- `xs | ys`
unfoldable pub union : SortedSet → SortedSet → SortedSet
unfolding insert
union xs [] = xs
union xs (y ∷ ys) = insert y (union xs ys)

-- `frozenset(xs)`
unfoldable pub set_of : List Str → SortedSet
unfolding insert
set_of [] = []
set_of (x ∷ xs) = insert x (set_of xs)

abbrev pub IsAbove : Str → List Str → Type 0
IsAbove a = All (λ x. before a x ≡ true)

abbrev pub IsSorted : List Str → Type 0
IsSorted [] = Unit
IsSorted (x ∷ xs) = IsAbove x xs × IsSorted xs

pub IsAbove-trans : (a b : Str) (xs : List Str) → before a b ≡ true → IsAbove b xs → IsAbove a xs
IsAbove-trans a b [] h k = tt
IsAbove-trans a b (x ∷ xs) h k = (before_trans a b x h k.0, IsAbove-trans a b xs h k.1)

IsAbove-insert :
    (a b : Str) (xs : List Str) → before a b ≡ true → IsAbove a xs → IsAbove a (insert b xs)
unfolding insert
IsAbove-insert a b [] h k = (h, tt)
IsAbove-insert a b (x ∷ xs) h k = ground (arith, IsAbove-insert a b xs h k.1)

pub IsSorted-insert : (a : Str) (xs : SortedSet) → IsSorted xs → IsSorted (insert a xs)
unfolding insert
IsSorted-insert a [] h = (tt, tt)
IsSorted-insert a (x ∷ xs) h = ground (
  arith,
  IsSorted-insert a xs h.1,
  IsAbove-trans a x xs,
  before_antisymm a x,
  str_eq_iff a x,
  IsAbove-insert x a xs,
)

member-insert : (a b : Str) (xs : SortedSet) → member a (insert b xs) ≡ (str_eq a b || member a xs)
unfolding insert member
member-insert a b [] = refl
member-insert a b (x ∷ xs) = ground (arith, member-insert a b xs)

member-union : (a : Str) (xs ys : SortedSet) → member a (union xs ys) ≡ (member a xs || member a ys)
unfolding union member
member-union a xs [] = ground arith
member-union a xs (y ∷ ys) = ground (arith, member-union a xs ys, member-insert a y (union xs ys))

pub IsSorted-union : (xs ys : SortedSet) → IsSorted xs → IsSorted (union xs ys)
unfolding union
IsSorted-union xs [] h = h
IsSorted-union xs (y ∷ ys) h = IsSorted-insert y (union xs ys) (IsSorted-union xs ys h)

pub insert_below : (a : Str) (xs : List Str) → IsAbove a xs → insert a xs ≡ a ∷ xs
unfolding insert
insert_below a [] h = refl
insert_below a (x ∷ xs) h = ground (arith, before_irrefl a)

-- A set read back from its sorted list is the set.
pub set_of-sorted : (xs : SortedSet) → IsSorted xs → set_of xs ≡ xs
unfolding set_of
set_of-sorted [] h = refl
set_of-sorted (x ∷ xs) h = rw (set_of-sorted xs h.1) (insert_below x xs h.0)

pub set_of-IsSorted : (xs : List Str) → IsSorted (set_of xs)
unfolding set_of
set_of-IsSorted [] = tt
set_of-IsSorted (x ∷ xs) = IsSorted-insert x (set_of xs) (set_of-IsSorted xs)
