-- ===== src/Base/Exec.antt =====
-- Calls that change a state and may raise. What was written before a raise stays written.
use mathlib.Core.Bool.{Bool, true, false}
use mathlib.Core.Option.{Option, none, some}
use wenchang.Base.Result.{Result, ok, err}

abbrev pub Exec {ℓ κ μ} : Type ℓ → Type κ → Type μ → Type (ℓ ⊔ κ ⊔ μ)
Exec E S A = S → Result E A × S

module _ {ℓ κ} {E : Type ℓ} {S : Type κ} where
  unfoldable pub pure {μ} : {A : Type μ} → A → Exec E S A
  pure a s = (ok a, s)

  unfoldable pub raise {μ} : {A : Type μ} → E → Exec E S A
  raise e s = (err e, s)

  unfoldable pub lift {μ} : {A : Type μ} → Result E A → Exec E S A
  lift r s = (r, s)

  -- `if not test: raise e`
  pub ensure : Bool → E → Exec E S (Unit {0})
  ensure true e s = (ok tt, s)
  ensure false e s = (err e, s)

  -- `if o is None: raise e`
  pub demand {μ} : {A : Type μ} → Option A → E → Exec E S A
  demand none e s = (err e, s)
  demand (some a) e s = (ok a, s)

  abbrev pub resume {μ ν} :
      {A : Type μ} {B : Type ν} → (A → Exec E S B) → Result E A × S → Result E B × S
  resume f (ok a, s) = f a s
  resume f (err e, s) = (err e, s)

  infixl 5 ◌>>=◌ ◌>>◌
  -- Opening this opens the steps above too.
  unfoldable pub ◌>>=◌ {μ ν} :
      {A : Type μ} {B : Type ν} → Exec E S A → (A → Exec E S B) → Exec E S B
  unfolding pure raise lift ensure demand
  ◌>>=◌ m f s = resume f (m s)

  abbrev pub ◌>>◌ {μ} : {B : Type μ} → Exec E S (Unit {0}) → Exec E S B → Exec E S B
  m >> k = m >>= λ _. k

  -- `try: m finally: cleanup`, for a cleanup that raises nothing.
  unfoldable pub finally {μ} : {A : Type μ} → Exec E S A → (S → S) → Exec E S A
  finally m cleanup s = let (r, s') = m s in (r, cleanup s')
