-- ===== src/Prelude/Results.antt =====
-- A call that may throw returns a `Result`.
use mathlib.Core.Option.{Option, none, some}

pub data Result {ℓ κ} (E : Type ℓ) (A : Type κ) : Type (ℓ ⊔ κ) where
  ok : A → Result E A
  err : E → Result E A

module _ {ℓ κ μ} {E : Type ℓ} {A : Type κ} {B : Type μ} where
  infixl 5 ◌>>=◌
  abbrev pub ◌>>=◌ : Result E A → (A → Result E B) → Result E B
  err e >>= next = err e
  ok a >>= next = next a

  infixl 5 ◌>>◌
  abbrev pub ◌>>◌ : Result E A → Result E B → Result E B
  err e >> next = err e
  ok a >> next = next

-- A call that gives no value throws `e`.
abbrev pub or_throw {ℓ κ} : {E : Type ℓ} {A : Type κ} → Option A → E → Result E A
or_throw none e = err e
or_throw (some a) e = ok a
