-- ===== src/Base/Optional.antt =====
-- Calls that answer `None` where they fail.
use mathlib.Core.Bool.{Bool, true, false}
use mathlib.Core.Option.{Option, none, some}

infixl 5 ◌>>=◌ ◌>>◌
abbrev pub ◌>>=◌ {ℓ μ} : {A : Type ℓ} {B : Type μ} → Option A → (A → Option B) → Option B
none >>= next = none
some value >>= next = next value

abbrev pub ◌>>◌ {ℓ} : {B : Type ℓ} → Option (Unit {0}) → Option B → Option B
first >> second = first >>= (λ done. second)

-- `if not passed: return None`
abbrev pub require : Bool → Option (Unit {0})
require true = some tt
require false = none
