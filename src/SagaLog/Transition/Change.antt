-- ===== src/SagaLog/Transition/Change.antt =====
-- What a change of one entry does to a sound table of sagas.
use mathlib.Core.Option
use hermas.Base.{
  ℕ, zero, suc, ◌≡◌, inl, inr, refl, arith, true, false, none, some, List, [], ◌∷◌, get_or, set,
  Bool-cases,
}
use hermas.Base.Searches.{past_none, past_some}
use hermas.SagaLog.Transition.{ScanActive, empty_entry, find_active, first_inactive}
use hermas.SagaLog.Transition.Phase.{phase_of}
use hermas.SagaLog.Transition.Table.{
  is_entry, phase_at, SoundEntry, Sound, find_active-here, find_active-there, phase_at-here,
  phase_at-there,
}

-- Where a search fails, it fails at the head and behind it.
absent-head :
    (e : ScanActive) (entries : List ScanActive) (id : ℕ)
    → find_active (e ∷ entries) id ≡ none
    → (is_entry e id ≡ false) × (find_active entries id ≡ none)
absent-head e entries id h = elim (Bool-cases (is_entry e id)) [
  | inl k ↦ absurd (let found = find_active-here e entries id k in cc)
  | inr k ↦ (k, past_none (find_active entries id) (rw (← find_active-there e entries id k) h))
]

absent-cons :
    (e : ScanActive) (entries : List ScanActive) (id : ℕ)
    → is_entry e id ≡ false
    → find_active entries id ≡ none
    → find_active (e ∷ entries) id ≡ none
absent-cons e entries id k h = rw (find_active-there e entries id k, h)

absent-get_or :
    (entries : List ScanActive) (id i : ℕ)
    → find_active entries id ≡ none
    → is_entry (get_or entries i empty_entry) id ≡ false
absent-get_or [] id i h = refl
absent-get_or (e ∷ entries) id zero h = (absent-head e entries id h).0
absent-get_or (e ∷ entries) id (suc i) h = absent-get_or entries id i (absent-head e entries id h).1

pub find_active-set :
    (entries : List ScanActive) (id i : ℕ) (e' : ScanActive)
    → find_active entries id ≡ none
    → is_entry e' id ≡ false
    → find_active (set entries i e') id ≡ none
find_active-set [] id i e' h k = h
find_active-set (e ∷ entries) id zero e' h k =
    absent-cons e' entries id k (absent-head e entries id h).1
find_active-set (e ∷ entries) id (suc i) e' h k =
    let (head, tail) = absent-head e entries id h in
    absent-cons e (set entries i e') id head (find_active-set entries id i e' tail k)

-- Two entries of one execution would share it.
other-head :
    (e : ScanActive) (entries : List ScanActive) (id i : ℕ)
    → Sound (e ∷ entries)
    → is_entry (get_or entries i empty_entry) id ≡ true
    → is_entry e id ≡ false
other-head e entries id i sound owner = elim (Bool-cases (is_entry e id)) [
  | inl k ↦
      let active : e.active ≡ true = ground arith in
      let same : e.value.execution_id ≡ id = ground arith in
      let alone : find_active entries id ≡ none = rw (← same) (sound.1 active) in
      absurd (let absent = absent-get_or entries id i alone in cc)
  | inr k ↦ k
]

pub find_active-cleared :
    (entries : List ScanActive) (id i : ℕ)
    → Sound entries
    → is_entry (get_or entries i empty_entry) id ≡ true
    → find_active (set entries i empty_entry) id ≡ none
find_active-cleared [] id i sound owner = absurd cc
find_active-cleared (e ∷ entries) id zero sound owner =
    let active : e.active ≡ true = ground arith in
    let same : e.value.execution_id ≡ id = ground arith in
    absent-cons empty_entry entries id refl (rw (← same) (sound.1 active))
find_active-cleared (e ∷ entries) id (suc i) sound owner =
    absent-cons e (set entries i empty_entry) id (other-head e entries id i sound owner)
      (find_active-cleared entries id i sound.2 owner)

pub phase_at-owner :
    (entries : List ScanActive) (id i : ℕ)
    → Sound entries
    → is_entry (get_or entries i empty_entry) id ≡ true
    → phase_at entries id ≡ phase_of (get_or entries i empty_entry)
phase_at-owner [] id i sound owner = absurd cc
phase_at-owner (e ∷ entries) id zero sound owner = phase_at-here e entries id owner
phase_at-owner (e ∷ entries) id (suc i) sound owner =
    rw (phase_at-there e entries id (other-head e entries id i sound owner))
      (phase_at-owner entries id i sound.2 owner)

pub phase_at-other :
    (entries : List ScanActive) (id i : ℕ) (e' : ScanActive)
    → is_entry (get_or entries i empty_entry) id ≡ false
    → is_entry e' id ≡ false
    → phase_at (set entries i e') id ≡ phase_at entries id
phase_at-other [] id i e' h k = refl
phase_at-other (e ∷ entries) id zero e' h k =
    rw (phase_at-there e' entries id k, phase_at-there e entries id h)
phase_at-other (e ∷ entries) id (suc i) e' h k = elim (Bool-cases (is_entry e id)) [
  | inl head ↦ rw (phase_at-here e (set entries i e') id head, phase_at-here e entries id head)
  | inr head ↦
      rw (phase_at-there e (set entries i e') id head, phase_at-there e entries id head)
        (phase_at-other entries id i e' h k)
]

pub Sound-set :
    (entries : List ScanActive) (i : ℕ) (e' : ScanActive)
    → Sound entries
    → SoundEntry e'
    → (e'.active ≡ true → find_active (set entries i empty_entry) e'.value.execution_id ≡ none)
    → Sound (set entries i e')
Sound-set [] i e' sound entry alone = sound
Sound-set (e ∷ entries) zero e' sound entry alone =
    (entry, λ a. (absent-head empty_entry entries e'.value.execution_id (alone a)).1, sound.2)
Sound-set (e ∷ entries) (suc i) e' sound entry alone = (
  sound.0,
  λ a. find_active-set entries e.value.execution_id i e' (sound.1 a) (elim (Bool-cases e'.active) [
    | inl b ↦
        let apart = (absent-head e (set entries i empty_entry) e'.value.execution_id (alone b)).0 in
        ground arith
    | inr b ↦ rw b
  ]),
  Sound-set entries i e' sound.2 entry
      (λ b. (absent-head e (set entries i empty_entry) e'.value.execution_id (alone b)).1),
)

-- What stands where an entry was replaced.
pub get_or-set_owner :
    (entries : List ScanActive) (id i : ℕ) (e' : ScanActive)
    → is_entry (get_or entries i empty_entry) id ≡ true
    → get_or (set entries i e') i empty_entry ≡ e'
get_or-set_owner [] id i e' owner = absurd cc
get_or-set_owner (e ∷ entries) id zero e' owner = refl
get_or-set_owner (e ∷ entries) id (suc i) e' owner = get_or-set_owner entries id i e' owner

-- A free entry is a clear one.
pub first_inactive-free :
    (entries : List ScanActive) (i : ℕ) (e' : ScanActive)
    → Sound entries
    → first_inactive entries ≡ some i
    → (get_or entries i empty_entry ≡ empty_entry) × (get_or (set entries i e') i empty_entry ≡ e')
unfolding first_inactive
first_inactive-free [] i e' sound h = cc
first_inactive-free (e ∷ entries) i e' sound h = elim (Bool-cases e.active) [
  | inl a ↦
      let past : Option.map suc (first_inactive entries) ≡ some i = rw a at h in
      let (j, next, found) = past_some (first_inactive entries) i past in
      rw next (first_inactive-free entries j e' sound.2 found)
  | inr a ↦
      let found : some 0 ≡ some i = rw a at h in
      let first : i ≡ 0 = cc in
      let clear : e ≡ empty_entry = elim sound.0 [ inl c ↦ c | inr (b, flags) ↦ absurd cc ] in
      rw first (clear, refl)
]
