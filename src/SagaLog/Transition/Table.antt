-- ===== src/SagaLog/Transition/Table.antt =====
-- The table of sagas as a map from executions to phases, and what a change of one entry does to it.
use mathlib.Core.Option
use hermas.Base.{
  ℕ, suc, ◌≡◌, ◌⊎◌, inl, inr, refl, Bool, true, false, ◌&&◌, none, some, List, [], ◌∷◌, get_or,
  ◌==◌, if◌then◌else◌, Bool-cases,
}
use hermas.Base.Searches.{past_none, past_some}
use hermas.SagaLog.Transition.{ScanActive, empty_entry, find_active}
use hermas.SagaLog.Transition.Phase.{Phase, closed, phase_of, Flags}

-- The entry of an execution.
abbrev pub is_entry : ScanActive → ℕ → Bool
is_entry e id = e.active && e.value.execution_id == id

-- The phase of an execution's saga, by its first entry.
unfoldable pub phase_at : List ScanActive → ℕ → Phase
phase_at [] id = closed
phase_at (e ∷ entries) id =
    let rest = phase_at entries id in if is_entry e id then phase_of e else rest

-- An entry that is not active is clear.
abbrev pub SoundEntry : ScanActive → Type 0
SoundEntry e = (e ≡ empty_entry) ⊎ ((e.active ≡ true) × Flags e)

-- The active entries belong to executions of their own.
abbrev pub Sound : List ScanActive → Type 0
Sound [] = Unit
Sound (e ∷ entries) =
    SoundEntry e
    × (e.active ≡ true → find_active entries e.value.execution_id ≡ none)
    × Sound entries

module _ (e : ScanActive) (entries : List ScanActive) (id : ℕ) where
  pub find_active-here : is_entry e id ≡ true → find_active (e ∷ entries) id ≡ some 0
  unfolding find_active
  find_active-here k = rw k

  pub find_active-there :
      is_entry e id ≡ false → find_active (e ∷ entries) id ≡ Option.map suc (find_active entries id)
  unfolding find_active
  find_active-there k = rw k

  pub phase_at-here : is_entry e id ≡ true → phase_at (e ∷ entries) id ≡ phase_of e
  unfolding phase_at
  phase_at-here k = rw k

  pub phase_at-there : is_entry e id ≡ false → phase_at (e ∷ entries) id ≡ phase_at entries id
  unfolding phase_at
  phase_at-there k = rw k

pub phase_at-absent :
    (entries : List ScanActive) (id : ℕ)
    → find_active entries id ≡ none
    → phase_at entries id ≡ closed
unfolding phase_at
phase_at-absent [] id h = refl
phase_at-absent (e ∷ entries) id h = elim (Bool-cases (is_entry e id)) [
  | inl k ↦ absurd (let found = find_active-here e entries id k in cc)
  | inr k ↦
      let past : Option.map suc (find_active entries id) ≡ none =
        rw (← find_active-there e entries id k) h in
      rw (phase_at-there e entries id k)
        (phase_at-absent entries id (past_none (find_active entries id) past))
]

pub phase_at-found :
    (entries : List ScanActive) (id i : ℕ)
    → find_active entries id ≡ some i
    → (phase_at entries id ≡ phase_of (get_or entries i empty_entry))
      × (is_entry (get_or entries i empty_entry) id ≡ true)
unfolding find_active
phase_at-found [] id i h = cc
phase_at-found (e ∷ entries) id i h = elim (Bool-cases (is_entry e id)) [
  | inl k ↦
      let found = find_active-here e entries id k in
      let first : i ≡ 0 = cc in rw first (phase_at-here e entries id k, k)
  | inr k ↦
      let past : Option.map suc (find_active entries id) ≡ some i =
        rw (← find_active-there e entries id k) h in
      let (j, next, found) = past_some (find_active entries id) i past in
      rw (next, phase_at-there e entries id k) (phase_at-found entries id j found)
]
