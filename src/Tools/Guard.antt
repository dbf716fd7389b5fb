-- ===== src/Tools/Guard.antt =====
-- A tool either refuses, without a call of the client, or makes one call of the client.
use wenchang.Base.{Bool, true, false, ◌≡◌, refl, ◌⊎◌, inl, inr}
use wenchang.Base.Result.{Result, ok, err}
use wenchang.Base.Exec.{Exec, lift, ensure, ◌>>=◌, ◌>>◌}
use wenchang.Errors.{Error}
use wenchang.Errors.Shown.{IsShown, Blames}

-- From every state, the operation refuses with a shown error and leaves the state, or it is one of
-- the calls allowed.
pub record Guarded {S A : Type 0} (Allowed : Exec Error S A → Type 0) (m : Exec Error S A)
    : Type 0 where
  pub at :
      (s : S)
      → ((e : Error) × IsShown e × (m s ≡ (err e, s)))
        ⊎ ((call : Exec Error S A) × Allowed call × (m s ≡ call s))

module _ {S A : Type 0} (Allowed : Exec Error S A → Type 0) where
  pub Guarded-call : (call : Exec Error S A) → Allowed call → Guarded Allowed call
  Guarded-call call a = record { at = λ s. inr (call, a, refl) }

  pub Guarded-ensure :
      (b : Bool) (e : Error) (m : Exec Error S A)
      → IsShown e
      → Guarded Allowed m
      → Guarded Allowed (ensure b e >> m)
  unfolding ◌>>=◌
  Guarded-ensure true e m h g = record { at = λ s. g.at s }
  Guarded-ensure false e m h g = record { at = λ s. inl (e, h, refl) }

  pub Guarded-ensure_if :
      (b : Bool) (e : Error) (m : Exec Error S A)
      → IsShown e
      → (b ≡ true → Guarded Allowed m)
      → Guarded Allowed (ensure b e >> m)
  unfolding ◌>>=◌
  Guarded-ensure_if true e m h g = record { at = λ s. (g refl).at s }
  Guarded-ensure_if false e m h g = record { at = λ s. inl (e, h, refl) }

module _ {S A R : Type 0} (Allowed : Exec Error S A → Type 0) where
  pub Guarded-lift :
      (r : Result Error R) (f : R → Exec Error S A)
      → Blames r
      → ((a : R) → r ≡ ok a → Guarded Allowed (f a))
      → Guarded Allowed (lift r >>= f)
  unfolding ◌>>=◌
  Guarded-lift (ok a) f b h = record { at = λ s. (h a refl).at s }
  Guarded-lift (err e) f b h = record { at = λ s. inl (e, b.shown e refl, refl) }

  pub Guarded-lift_ok :
      (r : Result Error R) (f : R → Exec Error S A) (a : R)
      → r ≡ ok a
      → Guarded Allowed (f a)
      → Guarded Allowed (lift r >>= f)
  unfolding ◌>>=◌
  Guarded-lift_ok r f a h g = record { at = λ s. rw h (g.at s) }
