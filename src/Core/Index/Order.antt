-- ===== src/Core/Index/Order.antt =====
-- The order of the memory index's entries (src/wenchang/core.py).
use mathlib.Core.List.Perm
use mathlib.Core.List.{Perm}
use wenchang.Base.{
  ℕ, suc, ◌<◌, Bool, true, false, Option, none, some, List, [], ◌∷◌, ◌≡◌, refl, arith, Bool-cases,
  inl, inr, ◌⊎◌, all, ◌&&◌, if◌then◌else◌,
}
use wenchang.Text.{Str, str_eq}
use wenchang.Text.Order.{before, before_asymm}
use wenchang.Paths.{PathParts, parse_path}
use wenchang.FileFormat.Metadata.{is_renderable}
use wenchang.Core.{Config, FileEntry, index_system_area}
use wenchang.Core.Index.{tier, priority_of, goes_before, insert_entry, ordered}

-- UTC can hold the entry's last-updated.
abbrev pub renders : FileEntry → Bool
renders e = is_renderable e.metadata.last_updated.micros

-- Where a scope stands in the priority list; past its end if it does not.
abbrev pub position : Str → List Str → ℕ
position scope [] = 0
position scope (s ∷ scopes) = if str_eq scope s then 0 else suc (position scope scopes)

-- `system/` first, then the scopes in their priority.
abbrev pub rank_of : Config → Option PathParts → ℕ
rank_of k none = 1
rank_of k (some parts) =
    if str_eq parts.area index_system_area then 0 else suc (position parts.scope k.scope_priority)

abbrev pub rank : Config → FileEntry → ℕ
rank k e = rank_of k (parse_path e.path)

-- An entry may stand in front of another: by rank, then the most recent first, then by path.
abbrev pub Precedes : Config → FileEntry → FileEntry → Type 0
Precedes k a b =
    (rank k a < rank k b)
    ⊎ ((rank k a ≡ rank k b)
        × ((b.metadata.last_updated.micros < a.metadata.last_updated.micros)
            ⊎ ((a.metadata.last_updated.micros ≡ b.metadata.last_updated.micros)
                × (before b.path a.path ≡ false))))

abbrev pub AreOrdered : Config → List FileEntry → Type 0
AreOrdered k [] = Unit
AreOrdered k (a ∷ []) = Unit
AreOrdered k (a ∷ b ∷ es) = Precedes k a b × AreOrdered k (b ∷ es)

position_lem : (scope : Str) (scopes : List Str) → priority_of scope scopes ≡ position scope scopes
unfolding priority_of
position_lem scope [] = refl
position_lem scope (s ∷ scopes) = rw (position_lem scope scopes) refl

-- The rank is the tier and the priority in one number.
rank_lem :
    (k : Config) (o : Option PathParts)
    → ((tier k o).0 ≡ 0) × ((tier k o).1 ≡ 0) × (rank_of k o ≡ 0)
      ⊎ ((tier k o).0 ≡ 1) × (rank_of k o ≡ suc (tier k o).1)
unfolding tier
rank_lem k none = inr (refl, refl)
rank_lem k (some parts) = elim (Bool-cases (str_eq parts.area index_system_area)) [
  | inl s ↦ inl (rw s (refl, refl, refl))
  | inr s ↦ inr (rw s (refl, rw (position_lem parts.scope k.scope_priority) refl))
]

goes_before-Precedes : (k : Config) (a b : FileEntry) → goes_before k a b ≡ true → Precedes k a b
unfolding goes_before
goes_before-Precedes k a b h = ground (
  arith,
  rank_lem k (parse_path a.path),
  rank_lem k (parse_path b.path),
  before_asymm a.path b.path,
)

goes_behind-Precedes : (k : Config) (a b : FileEntry) → goes_before k a b ≡ false → Precedes k b a
unfolding goes_before
goes_behind-Precedes k a b h =
    ground (arith, rank_lem k (parse_path a.path), rank_lem k (parse_path b.path))

module _ (k : Config) where
  ordered_behind :
      (x e : FileEntry) (xs : List FileEntry)
      → AreOrdered k (x ∷ xs)
      → Precedes k x e
      → AreOrdered k (x ∷ insert_entry k e xs)
  unfolding insert_entry
  ordered_behind x e [] h p = (p, tt)
  ordered_behind x e (y ∷ ys) h p = elim (Bool-cases (goes_before k y e)) [
    | inl b ↦ rw b (h.0, ordered_behind y e ys h.1 (goes_before-Precedes k y e b))
    | inr b ↦ rw b (p, (goes_behind-Precedes k y e b, h.1))
  ]

  AreOrdered-insert :
      (e : FileEntry) (xs : List FileEntry) → AreOrdered k xs → AreOrdered k (insert_entry k e xs)
  unfolding insert_entry
  AreOrdered-insert e [] h = tt
  AreOrdered-insert e (x ∷ xs) h = elim (Bool-cases (goes_before k x e)) [
    | inl b ↦ rw b (ordered_behind x e xs h (goes_before-Precedes k x e b))
    | inr b ↦ rw b (goes_behind-Precedes k x e b, h)
  ]

  pub ordered-AreOrdered : (es : List FileEntry) → AreOrdered k (ordered k es)
  unfolding ordered
  ordered-AreOrdered [] = tt
  ordered-AreOrdered (e ∷ es) = AreOrdered-insert e (ordered k es) (ordered-AreOrdered es)

  Perm-insert : (e : FileEntry) (xs : List FileEntry) → Perm (insert_entry k e xs) (e ∷ xs)
  unfolding insert_entry
  Perm-insert e [] = Perm.refl (e ∷ [])
  Perm-insert e (x ∷ xs) = elim (Bool-cases (goes_before k x e)) [
    | inl b ↦ rw b (Perm.trans (Perm.cons x (Perm-insert e xs)) (Perm.swap e x xs))
    | inr b ↦ rw b (Perm.refl (e ∷ x ∷ xs))
  ]

  pub Perm-ordered : (es : List FileEntry) → Perm (ordered k es) es
  unfolding ordered
  Perm-ordered [] = Perm.refl []
  Perm-ordered (e ∷ es) = Perm.trans (Perm-insert e (ordered k es)) (Perm.cons e (Perm-ordered es))

  all-insert :
      (e : FileEntry) (xs : List FileEntry)
      → all renders (insert_entry k e xs) ≡ renders e && all renders xs
  unfolding insert_entry
  all-insert e [] = refl
  all-insert e (x ∷ xs) = ground (arith, all-insert e xs)

  pub all-ordered : (es : List FileEntry) → all renders (ordered k es) ≡ all renders es
  unfolding ordered
  all-ordered [] = refl
  all-ordered (e ∷ es) = rw (all-insert e (ordered k es), all-ordered es) refl
