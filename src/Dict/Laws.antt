-- ===== src/Dict/Laws.antt =====
-- What a dict returns after an update, and that it keeps one entry for a key.
use wenchang.Base.{Bool, true, false, Option, none, some, [], ◌∷◌, ◌≡◌, refl, arith, if◌then◌else◌}
use wenchang.Text.{Str, str_eq}
use wenchang.Text.SortedSet.{member}
use wenchang.Dict.{Dict, get, put, remove, keys}

-- No key has two entries.
abbrev pub NodupKeys {ℓ} : {V : Type ℓ} → Dict V → Type ℓ
NodupKeys [] = Unit
NodupKeys ((j, _) ∷ d) = (get j d ≡ none) × NodupKeys d

abbrev pub is_some {ℓ} : {V : Type ℓ} → Option V → Bool
is_some none = false
is_some (some _) = true

module _ {ℓ} {V : Type ℓ} where
  pub get-put :
      (j k : Str) (v : V) (d : Dict V)
      → get j (put k v d) ≡ (if str_eq j k then some v else get j d)
  unfolding get put
  get-put j k v [] = refl
  get-put j k v ((i, w) ∷ d) = ground (arith, get-put j k v d)

  pub get-remove :
      (j k : Str) (d : Dict V)
      → NodupKeys d
      → get j (remove k d) ≡ (if str_eq j k then none else get j d)
  unfolding get remove
  get-remove j k [] u = ground arith
  get-remove j k ((i, w) ∷ d) u = ground (arith, get-remove j k d u.1)

  pub NodupKeys-put : (k : Str) (v : V) (d : Dict V) → NodupKeys d → NodupKeys (put k v d)
  unfolding get put
  NodupKeys-put k v [] u = (refl, tt)
  NodupKeys-put k v ((i, w) ∷ d) u = ground (arith, NodupKeys-put k v d u.1, get-put i k v d)

  pub NodupKeys-remove : (k : Str) (d : Dict V) → NodupKeys d → NodupKeys (remove k d)
  unfolding get remove
  NodupKeys-remove k [] u = tt
  NodupKeys-remove k ((i, w) ∷ d) u = ground (arith, NodupKeys-remove k d u.1, get-remove i k d u.1)

  -- A key is listed exactly when it has a value.
  member-keys : (k : Str) (d : Dict V) → member k (keys d) ≡ is_some (get k d)
  unfolding get keys member
  member-keys k [] = refl
  member-keys k ((i, w) ∷ d) = ground (arith, member-keys k d)
