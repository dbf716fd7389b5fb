-- ===== src/Errors/Shown.antt =====
-- Checks that raise errors of the taxonomy only (src/wenchang/errors.py).
use wenchang.Base.{Bool, true, false, some, ◌≡◌, refl, if◌then◌else◌}
use wenchang.Base.Result.{Result, ok, err, guard, ◌>>=◌}
use wenchang.Errors.{Error, ErrorCategory, category}

-- An error that belongs to the taxonomy, which an agent can be shown.
abbrev pub IsShown : Error → Type 0
IsShown e = (k : ErrorCategory) × (category e ≡ some k)

-- A check fails with shown errors only.
pub record Blames {ℓ} {A : Type ℓ} (r : Result Error A) : Type ℓ where
  pub shown : (e : Error) → r ≡ err e → IsShown e

module _ {ℓ} {A : Type ℓ} where
  pub Blames-ok : (a : A) → Blames (ok a)
  Blames-ok a = record { shown = λ e h. cc h }

  pub Blames-err : (e : Error) → IsShown e → Blames {A = A} (err e)
  Blames-err e s = record { shown = λ e' h. (s.0, cc (h, s.1)) }

  pub Blames-bind {μ} :
      {R : Type μ} (r : Result Error R) (f : R → Result Error A)
      → Blames r
      → ((a : R) → r ≡ ok a → Blames (f a))
      → Blames (r >>= f)
  Blames-bind (ok a) f b h = h a refl
  Blames-bind (err e) f b h = Blames-err e (b.shown e refl)

  pub Blames-if :
      (b : Bool) (r r' : Result Error A) → Blames r → Blames r' → Blames (if b then r else r')
  Blames-if true r r' h k = h
  Blames-if false r r' h k = k

pub Blames-guard : (b : Bool) (e : Error) → IsShown e → Blames (guard b e)
Blames-guard true e s = Blames-ok tt
Blames-guard false e s = Blames-err e s
