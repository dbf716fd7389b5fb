-- ===== src/Dict.antt =====
-- Python's `dict` with text keys, as its entries in insertion order.
pub mod Laws
use wenchang.Base.{
  ℕ, Bool, true, false, ◌&&◌, Option, none, some, List, [], ◌∷◌, map, length, all, ◌==◌,
  if◌then◌else◌,
}
use wenchang.Text.{Str, str_eq}

abbrev pub Dict {ℓ} : Type ℓ → Type ℓ
Dict V = List (Str × V)

module _ {ℓ} {V : Type ℓ} where
  -- `d.get(k)`
  unfoldable pub get : Str → Dict V → Option V
  get k [] = none
  get k ((j, v) ∷ d) = if str_eq k j then some v else get k d

  -- `d[k] = v`
  unfoldable pub put : Str → V → Dict V → Dict V
  put k v [] = (k, v) ∷ []
  put k v ((j, w) ∷ d) = if str_eq k j then (j, v) ∷ d else (j, w) ∷ put k v d

  -- `del d[k]`
  unfoldable pub remove : Str → Dict V → Dict V
  remove k [] = []
  remove k ((j, w) ∷ d) = if str_eq k j then d else (j, w) ∷ remove k d

  -- `list(d)`
  unfoldable pub keys : Dict V → List Str
  keys [] = []
  keys ((j, _) ∷ d) = j ∷ keys d

holds : Str → Option Str → Bool
holds v none = false
holds v (some w) = str_eq v w

-- `m == n` for two dicts of texts: the order of the entries does not count.
unfoldable pub same_map : Dict Str → Dict Str → Bool
unfolding holds get
same_map m n = length m == length n && all (λ (k, v). holds v (get k n)) m
