-- ===== src/Base/Loops.antt =====
-- Loops over a range of indices.
use hermas.Base.Check.{Check, pass, ◌>>=◌, Check-cases}
use hermas.Base.Tests.{Bool-cases, ◌==◌}
use Prim.Native.Nat.{ℕ, zero, suc, ◌+◌, ◌≤◌, ◌<◌}
use mathlib.Core.Bool.{Bool, true, false, ◌||◌}
use mathlib.Core.Logic.{inl, inr}
use mathlib.Core.Path.{◌≡◌, subst, subst₂}
use native.Mathlib.Omega.{arith}

-- for (i = index; i < index + rounds; ++i) with a body that may return a code.
unfoldable pub for_range : {E S : Type 0} → (ℕ → S → Check E S) → ℕ → ℕ → S → Check E S
for_range body zero index s = pass s
for_range body (suc rounds) index s = body index s >>= for_range body rounds (index + 1)

-- The same with a body that does not return.
unfoldable pub fold_range : {S : Type 0} → (ℕ → S → S) → ℕ → ℕ → S → S
fold_range body zero index s = s
fold_range body (suc rounds) index s = fold_range body rounds (index + 1) (body index s)

-- A test holds for an index of the range.
unfoldable pub any_range : (ℕ → Bool) → ℕ → ℕ → Bool
any_range test zero index = false
any_range test (suc rounds) index = test index || any_range test rounds (index + 1)

module _ {E S : Type 0} (P : ℕ → S → Type 0) (body : ℕ → S → Check E S) (j : ℕ)
    (keep : (i : ℕ) (s s' : S) → i < j → P i s → body i s ≡ pass s' → P (i + 1) s') where
  -- An invariant of a loop that ends: the end of the range is a variable with an equation.
  pub for_range-inv :
      (rounds i : ℕ) (s s' : S)
      → i + rounds ≡ j
      → P i s
      → for_range body rounds i s ≡ pass s'
      → P j s'
  unfolding for_range
  for_range-inv zero i s s' e p h =
      let same : s ≡ s' = cc in let end : i ≡ j = omega arith in subst₂ P end same p
  for_range-inv (suc rounds) i s s' e p h = elim (Check-cases (body i s)) [
    | inl (code, failed) ↦ absurd (let stuck = rw failed at h in cc)
    | inr (t, passed) ↦
        for_range-inv rounds (i + 1) t s' (omega arith) (keep i s t (omega arith) p passed)
          (rw passed at h)
  ]

module _ {S : Type 0} (P : S → Type 0) (body : ℕ → S → S) (j : ℕ)
    (keep : (i : ℕ) (s : S) → i < j → P s → P (body i s)) where
  pub fold_range-inv :
      (rounds i : ℕ) (s : S) → i + rounds ≡ j → P s → P (fold_range body rounds i s)
  unfolding fold_range
  fold_range-inv zero i s e p = p
  fold_range-inv (suc rounds) i s e p =
      fold_range-inv rounds (i + 1) (body i s) (omega arith) (keep i s (omega arith) p)

pub any_range-false :
    (test : ℕ → Bool) (rounds i j : ℕ)
    → any_range test rounds i ≡ false
    → i ≤ j
    → j < i + rounds
    → test j ≡ false
unfolding any_range
any_range-false test zero i j h low high = absurd (omega arith)
any_range-false test (suc rounds) i j h low high = elim (Bool-cases (test i)) [
  | inl found ↦ absurd (let stuck = rw found at h in cc)
  | inr passed ↦ elim (Bool-cases (i == j)) [
    | inl same ↦ let e : i ≡ j = ground arith in subst (λ n. test n ≡ false) e passed
    | inr other ↦
        any_range-false test rounds (i + 1) j (rw passed at h) (ground arith) (omega arith)
  ]
]

pub any_range-true :
    (test : ℕ → Bool) (rounds i : ℕ)
    → any_range test rounds i ≡ true
    → (j : ℕ) × (i ≤ j) × (j < i + rounds) × (test j ≡ true)
unfolding any_range
any_range-true test zero i h = absurd cc
any_range-true test (suc rounds) i h = elim (Bool-cases (test i)) [
  | inl found ↦ (i, omega arith, omega arith, found)
  | inr passed ↦
      let (j, low, high, holds) = any_range-true test rounds (i + 1) (rw passed at h) in
      (j, omega arith, omega arith, holds)
]
