-- ===== src/SagaLog/Transition/Accept.antt =====
-- Which records `transition` accepts for an active entry.
use hermas.Base.{◌≡◌, ◌≢◌, ◌↔◌, inl, inr, refl, arith, true}
use hermas.Base.Check.{pass, fail, Check-cases}
use hermas.SagaLog.{SagaLogRecord, SagaLogResult}
use hermas.SagaLog.Transition.{ScanActive, entry_transition}
use hermas.SagaLog.Transition.Phase.{
  Phase, Step, started, prepared, sent, succeeded, app_failed, not_sent, held_unknown, sent_unknown,
  compensated, abandoned, phase_of, Flags, entry_transition-Step,
}

module _ (e : ScanActive) (active : e.active ≡ true) (flags : Flags e) where
  refused :
      {q p : Phase} (r : SagaLogRecord) (code : SagaLogResult)
      → Step q r p
      → q ≡ phase_of e
      → e.value.workflow_id ≡ r.workflow_id
      → e.value.image_fingerprint ≡ r.image_fingerprint
      → entry_transition e r ≢ fail code
  unfolding entry_transition phase_of
  refused r code (started k) at w f h = ground arith
  refused r code (prepared k) at w f h = ground arith
  refused r code (sent k) at w f h = ground arith
  refused r code (succeeded k) at w f h = ground arith
  refused r code (app_failed k o) at w f h = ground arith
  refused r code (not_sent k o) at w f h = ground arith
  refused r code (held_unknown k) at w f h = ground arith
  refused r code (sent_unknown k) at w f h = ground arith
  refused r code (compensated k o) at w f h = ground arith
  refused r code (abandoned k) at w f h = ground arith

  -- For an active entry with flags that tell its delivery, and a record of the same workflow and
  -- image, `transition` accepts the record for the entry exactly if it is a step in the life of the
  -- saga from the phase of the entry.
  pub entry_transition_iff :
      (r : SagaLogRecord)
      → e.value.workflow_id ≡ r.workflow_id
      → e.value.image_fingerprint ≡ r.image_fingerprint
      → ((e' : ScanActive) × (entry_transition e r ≡ pass e'))
        ↔ ((p : Phase) × Step (phase_of e) r p)
  entry_transition_iff r w f = (
    λ (e', h). (phase_of e', entry_transition-Step e e' r active flags h),
    λ (p, step). elim (Check-cases (entry_transition e r)) [
      | inl (code, h) ↦ absurd (refused r code step refl w f h)
      | inr (e', h) ↦ (e', h)
    ],
  )
