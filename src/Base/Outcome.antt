-- ===== src/Base/Outcome.antt =====
-- The result of code that may return an error, or read or write out of range.

use mathlib.Core.Bool.{Bool, true, false}
use ax88179_aroma_driver.Base.Tests.{if◌then◌else◌}

-- `refused` is the error that the code returns, `fault` an access out of range.
pub data Outcome {ℓ} (A : Type ℓ) : Type ℓ where
  ok : A → Outcome A
  refused : Outcome A
  fault : Outcome A

infixl 5 ◌>>=◌ ◌>>◌
abbrev pub ◌>>=◌ {ℓ κ} : {A : Type ℓ} {B : Type κ} → Outcome A → (A → Outcome B) → Outcome B
ok a >>= f = f a
refused >>= f = refused
fault >>= f = fault

abbrev pub ◌>>◌ {ℓ} : {B : Type ℓ} → Outcome (Unit {0}) → Outcome B → Outcome B
m >> k = m >>= λ _. k

-- No fault, and a result as `P` says.
abbrev pub Sound : {A : Type 0} → (A → Type 0) → Outcome A → Type 0
Sound P (ok a) = P a
Sound P refused = Unit
Sound P fault = ⊥

pub Sound-bind :
    {A B : Type 0} (P : A → Type 0) (Q : B → Type 0) (m : Outcome A) (f : A → Outcome B)
    → Sound P m
    → ((a : A) → P a → Sound Q (f a))
    → Sound Q (m >>= f)
Sound-bind P Q (ok a) f s k = k a s
Sound-bind P Q refused f s k = tt
Sound-bind P Q fault f s k = s

pub Sound-weaken :
    {A : Type 0} (P Q : A → Type 0) (m : Outcome A) → Sound P m → ((a : A) → P a → Q a) → Sound Q m
Sound-weaken P Q (ok a) s k = k a s
Sound-weaken P Q refused s k = tt
Sound-weaken P Q fault s k = s

pub Sound-if :
    {A : Type 0} (P : A → Type 0) (b : Bool) (m n : Outcome A)
    → Sound P m
    → Sound P n
    → Sound P (if b then m else n)
Sound-if P true m n sm sn = sm
Sound-if P false m n sm sn = sn
