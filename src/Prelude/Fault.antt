-- ===== src/Prelude/Fault.antt =====
-- Chains of steps that may fault: `none` is a fault, such as an access outside an allocation.
use mathlib.Core.Option.{Option, none, some}

infixl 5 ◌>>=◌
abbrev pub ◌>>=◌ {ℓ κ} : {A : Type ℓ} {B : Type κ} → Option A → (A → Option B) → Option B
none >>= f = none
some a >>= f = f a
