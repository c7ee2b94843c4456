-- ===== src/SagaLog/Transition/Refine.antt =====
-- `transition` of src/saga_log.c and the phases of the sagas.
use hermas.Base.{
  ℕ, zero, suc, ap, ◌∙◌, ◌≡◌, ◌≢◌, ◌⊎◌, inl, inr, refl, arith, true, false, none, some, List, [],
  ◌∷◌, get_or, set, Option-cases,
}
use hermas.Base.Check.{pass, Check-cases}
use hermas.SagaLog.{SagaLogRecord}
use hermas.SagaLog.Kind
use hermas.SagaLog.Transition.{
  ScanActive, empty_entry, find_active, first_inactive, activate, entry_transition, start,
  transition,
}
use hermas.SagaLog.Transition.Phase.{
  closed, waiting, Step, started, phase_of, Flags, entry_transition-Step, entry_transition-Flags,
  entry_transition-active,
}
use hermas.SagaLog.Transition.Table.{
  is_entry, phase_at, SoundEntry, Sound, phase_at-absent, phase_at-found,
}
use hermas.SagaLog.Transition.Change.{
  find_active-set, find_active-cleared, phase_at-owner, phase_at-other, Sound-set, get_or-set_owner,
  first_inactive-free,
}

pub record Follows (entries : List ScanActive) (r : SagaLogRecord) (entries' : List ScanActive)
    : Type 0 where
  pub step : Step (phase_at entries r.execution_id) r (phase_at entries' r.execution_id)
  pub others : (id : ℕ) → id ≢ r.execution_id → phase_at entries' id ≡ phase_at entries id
  pub sound : Sound entries'

-- The two ways `transition` succeeds.
transition-cases :
    (entries entries' : List ScanActive) (r : SagaLogRecord)
    → transition entries r ≡ pass entries'
    → ((i : ℕ) × (e' : ScanActive) × (find_active entries r.execution_id ≡ some i)
        × (entry_transition (get_or entries i empty_entry) r ≡ pass e')
        × (entries' ≡ set entries i e'))
      ⊎ ((i : ℕ) × (r.kind ≡ Kind.started)
          × (find_active entries r.execution_id ≡ none)
          × (first_inactive entries ≡ some i)
          × (entries' ≡ set entries i (activate (get_or entries i empty_entry) r)))
unfolding transition start
transition-cases entries entries' r h = elim (Option-cases (find_active entries r.execution_id)) [
  | inl absent ↦ elim (Option-cases (first_inactive entries)) [
    | inl full ↦ absurd (ground arith)
    | inr (i, free) ↦ inr (i, ground arith, absent, free, ground arith)
  ]
  | inr (i, found) ↦ elim (Check-cases (entry_transition (get_or entries i empty_entry) r)) [
    | inl (code, failed) ↦ absurd (ground arith)
    | inr (e', passed) ↦ inl (i, e', found, passed, ground arith)
  ]
]

Sound-get_or :
    (entries : List ScanActive) (i : ℕ) → Sound entries → SoundEntry (get_or entries i empty_entry)
Sound-get_or [] i sound = inl refl
Sound-get_or (e ∷ entries) zero sound = sound.0
Sound-get_or (e ∷ entries) (suc i) sound = Sound-get_or entries i sound.2

not_entry :
    (e : ScanActive) (id id' : ℕ)
    → (e.value.execution_id ≡ id) ⊎ (e ≡ empty_entry)
    → id' ≢ id
    → is_entry e id' ≡ false
not_entry e id id' (inl same) other = ground arith
not_entry e id id' (inr clear) other = rw clear

phase_of-empty : phase_of empty_entry ≡ closed
unfolding phase_of
phase_of-empty = refl

phase_of-activate : (r : SagaLogRecord) → phase_of (activate empty_entry r) ≡ waiting r.ordinal
unfolding phase_of activate
phase_of-activate r = refl

activate-SoundEntry : (r : SagaLogRecord) → SoundEntry (activate empty_entry r)
unfolding activate
activate-SoundEntry r = inr (refl, inl (refl, refl, refl))

-- An entry that stands in a sound table for its execution, or clear, gives the phase of it.
phase_at-new :
    (entries : List ScanActive) (id i : ℕ) (e' : ScanActive)
    → get_or (set entries i e') i empty_entry ≡ e'
    → Sound (set entries i e')
    → find_active (set entries i empty_entry) id ≡ none
    → ((e'.active ≡ true) × (e'.value.execution_id ≡ id)) ⊎ (e' ≡ empty_entry)
    → phase_at (set entries i e') id ≡ phase_of e'
phase_at-new entries id i e' at sound alone (inl (active, same)) =
    let own : is_entry e' id ≡ true = ground arith in
    let there : is_entry (get_or (set entries i e') i empty_entry) id ≡ true = rw at own in
    phase_at-owner (set entries i e') id i sound there ∙ ap phase_of at
phase_at-new entries id i e' at sound alone (inr clear) =
    rw (clear, phase_of-empty) (phase_at-absent (set entries i empty_entry) id alone)

module _ (entries : List ScanActive) (r : SagaLogRecord) (sound : Sound entries) (i : ℕ) where
  advanced :
      (e' : ScanActive)
      → find_active entries r.execution_id ≡ some i
      → entry_transition (get_or entries i empty_entry) r ≡ pass e'
      → Follows entries r (set entries i e')
  advanced e' found passed =
      let e = get_or entries i empty_entry in
      let (before, owner) = phase_at-found entries r.execution_id i found in
      let active : e.active ≡ true = ground arith in
      let own : e.value.execution_id ≡ r.execution_id = ground arith in
      let flags : Flags e = elim (Sound-get_or entries i sound) [
        | inl clear ↦ absurd (let off = ap (λ (x : ScanActive). x.active) clear in cc)
        | inr (a, f) ↦ f
      ] in
      let alone = find_active-cleared entries r.execution_id i sound owner in
      let kept : ((e'.active ≡ true) × (e'.value.execution_id ≡ r.execution_id))
          ⊎ (e' ≡ empty_entry) =
        elim (entry_transition-active e e' r active passed) [
          | inl (a, same) ↦ inl (a, same ∙ own)
          | inr clear ↦ inr clear
        ] in
      let fine : SoundEntry e' = elim kept [
        | inl (a, same) ↦ inr (a, entry_transition-Flags e e' r active flags passed)
        | inr clear ↦ inl clear
      ] in
      let mine : e'.active ≡ true
          → find_active (set entries i empty_entry) e'.value.execution_id ≡ none =
        λ a. elim kept [
          | inl (b, same) ↦ rw same alone
          | inr clear ↦ absurd (let off = ap (λ (x : ScanActive). x.active) clear in cc)
        ] in
      let sound' = Sound-set entries i e' sound fine mine in
      let at = get_or-set_owner entries r.execution_id i e' owner in
      record {
        step =
            rw (before, phase_at-new entries r.execution_id i e' at sound' alone kept)
              (entry_transition-Step e e' r active flags passed);
        others = λ id other.
            phase_at-other entries id i e' (not_entry e r.execution_id id (inl own) other) (
              not_entry e' r.execution_id id
                (elim kept [ inl (a, same) ↦ inl same | inr clear ↦ inr clear ]) other);
        sound = sound';
      }

  opened :
      r.kind ≡ Kind.started
      → find_active entries r.execution_id ≡ none
      → first_inactive entries ≡ some i
      → Follows entries r (set entries i (activate (get_or entries i empty_entry) r))
  unfolding activate
  opened k absent free =
      let e' = activate (get_or entries i empty_entry) r in
      let (clear, at) = first_inactive-free entries i e' sound free in
      let fresh : e' ≡ activate empty_entry r = rw clear refl in
      let alone : find_active (set entries i empty_entry) r.execution_id ≡ none =
        find_active-set entries r.execution_id i empty_entry absent refl in
      let sound' : Sound (set entries i e') =
        Sound-set entries i e' sound (rw clear (activate-SoundEntry r)) (λ a. alone) in
      record {
        step =
            rw
              (
                phase_at-absent entries r.execution_id absent,
                phase_at-new entries r.execution_id i e' at sound' alone (inl (refl, refl)),
                fresh,
                phase_of-activate r,
              )
              (started k);
        others = λ id other.
            phase_at-other entries id i e' (rw clear)
              (not_entry e' r.execution_id id (inl refl) other);
        sound = sound';
      }

-- When `transition` of the saga log accepts a record on a sound table, the record is a step in the
-- life of its execution's saga, every other execution keeps its phase, and the table stays sound:
-- active entries of different executions, each with flags that tell its open delivery.
pub transition-Follows :
    (entries entries' : List ScanActive) (r : SagaLogRecord)
    → Sound entries
    → transition entries r ≡ pass entries'
    → Follows entries r entries'
transition-Follows entries entries' r sound h = elim (transition-cases entries entries' r h) [
  | inl (i, e', found, passed, result) ↦ rw result (advanced entries r sound i e' found passed)
  | inr (i, k, absent, free, result) ↦ rw result (opened entries r sound i k absent free)
]
