-- ===== src/Base/Check.antt =====
-- Chains of guards: a check fails with a code or passes with a value.

use mathlib.Core.Bool.{Bool, true, false}
use mathlib.Core.Logic.{◌⊎◌, inl, inr}
use mathlib.Core.Path.{◌≡◌, refl}

pub data Check (E A : Type 0) : Type 0 where
  fail : E → Check E A
  pass : A → Check E A

module _ {E : Type 0} where
  infixl 5 ◌>>=◌ ◌>>◌
  abbrev pub ◌>>=◌ : {A B : Type 0} → Check E A → (A → Check E B) → Check E B
  fail e >>= f = fail e
  pass a >>= f = f a

  abbrev pub ◌>>◌ : {B : Type 0} → Check E (Unit {0}) → Check E B → Check E B
  m >> k = m >>= λ _. k

  -- `if (bad) return e;`
  abbrev pub refuse : Bool → E → Check E (Unit {0})
  refuse true e = fail e
  refuse false e = pass tt

  pub Check-cases :
      {A : Type 0} (m : Check E A) → ((e : E) × (m ≡ fail e)) ⊎ ((a : A) × (m ≡ pass a))
  Check-cases (fail e) = inl (e, refl)
  Check-cases (pass a) = inr (a, refl)
