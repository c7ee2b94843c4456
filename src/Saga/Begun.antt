-- ===== src/Saga/Begun.antt =====
-- What `hermas_saga_begin_live` of src/saga.c has checked when it returns OK.
use hermas.Base.{
  ℕ, zero, suc, ◌+◌, ◌-◌, ◌%◌, ◌^◌, ◌<◌, ◌≤◌, ◌≡◌, ◌≢◌, ◌∙◌, sym, ap, subst, subst⁻¹, refl, arith,
  inl, inr, Bool, true, false, ◌||◌, Option, some, List, get_or, set, length, length-set,
  get_or-set, get_or-set_other, ltb, leb, Bool-cases, ==→eq, ◌==◌, ◌!=◌,
}
use hermas.Base.Check.{Check, fail, pass, ◌>>=◌, ◌>>◌, refuse, Check-cases}
use hermas.Bytes.{byte_at, read_u16, read_u32}
use hermas.Image.{Verifier, is_ok}
use hermas.Compensation.{CompensationRecord}
use hermas.Protocol.{max_payload_size, pointee}
use hermas.Saga.{
  SagaExecution, SagaStep, Lookup, loaded_step, load_region, load_loop, load_steps,
  region_record_size, SagaResult, ok, inconsistent_history, not_saga, succeeded, ready, empty_step,
  step_at, validate_token, max_steps,
}
use hermas.Saga.Live.{
  Stopped, check_token, live_step, live_loop, live_from, outputs, bad_arguments, blank_execution,
  begin_live,
}

-- `*execution` with the forward request of a step.
abbrev requested : SagaExecution → ℕ → ℕ → SagaExecution
requested e id index = record e {
  steps = set e.steps index (record (step_at e index) { forward_request_id = id });
}

module _ (v : Verifier) (scratch ids : List ℕ) where
  -- The step has the forward request of its index in `ids`, older than the next one, and its token.
  abbrev pub IsChecked : SagaExecution → ℕ → Type 0
  IsChecked e i =
      ((step_at e i).forward_request_id ≡ get_or ids i 0)
      × ((step_at e i).forward_request_id ≢ 0)
      × ((step_at e i).forward_request_id < e.next_request_id)
      × (succeeded (validate_token v e (step_at e i) (some scratch) max_payload_size).0 ≡ true)

  check_token-passes :
      (e e' : SagaExecution) (index : ℕ)
      → check_token v scratch e index ≡ pass e'
      → (e' ≡ e)
        × (succeeded (validate_token v e (step_at e index) (some scratch) max_payload_size).0
            ≡ true)
  unfolding check_token
  check_token-passes e e' index h =
      elim (Bool-cases
        (succeeded (validate_token v e (step_at e index) (some scratch) max_payload_size).0)) [
          | inr bad ↦ absurd (let no = rw bad at h in cc)
          | inl good ↦ (let same = rw good at h in cc, good)
        ]

  live_step-passes :
      (e e' : SagaExecution) (id index : ℕ)
      → live_step v scratch e id index ≡ pass e'
      → (id ≢ 0)
        × (id < e.next_request_id)
        × (check_token v scratch (requested e id index) index ≡ pass e')
  unfolding live_step
  live_step-passes e e' id index h = elim (Bool-cases (id == 0 || leb e.next_request_id id)) [
    | inl bad ↦ absurd (let no = rw bad at h in cc)
    | inr good ↦ (ground arith, ground arith, rw good at h)
  ]

  validate_token-steps :
      (e : SagaExecution) (steps : List SagaStep) (s : SagaStep)
      → validate_token v (record e { steps = steps }) s (some scratch) max_payload_size
        ≡ validate_token v e s (some scratch) max_payload_size
  unfolding validate_token
  validate_token-steps e steps s = refl

  -- One round checks its step, and leaves those that were checked.
  live_step-IsChecked :
      (e e' : SagaExecution) (id index : ℕ)
      → id ≡ get_or ids index 0
      → index < length e.steps
      → live_step v scratch e id index ≡ pass e'
      → (e' ≡ requested e id index) × IsChecked e' index
  live_step-IsChecked e e' id index chosen room h =
      let (first, low, token) = live_step-passes e e' id index h in
      let (same, valid) = check_token-passes (requested e id index) e' index token in
      let at =
        get_or-set e.steps index (record (step_at e index) { forward_request_id = id }) empty_step
          room in
      let id_at = ap (λ (s : SagaStep). s.forward_request_id) at in
      (
        same,
        subst⁻¹ (λ (x : SagaExecution). IsChecked x index) same
            (id_at ∙ chosen, λ z. first (sym id_at ∙ z), omega (arith, id_at, low), valid),
      )

  live_step-keeps :
      (e : SagaExecution) (id index i : ℕ)
      → index ≢ i
      → IsChecked e i
      → IsChecked (requested e id index) i
  live_step-keeps e id index i apart (own, some_id, low, valid) =
      let steps = set e.steps index (record (step_at e index) { forward_request_id = id }) in
      let at : step_at (requested e id index) i ≡ step_at e i =
        get_or-set_other e.steps index i (record (step_at e index) { forward_request_id = id })
          empty_step apart in
      let id_at = ap (λ (s : SagaStep). s.forward_request_id) at in
      (
        id_at ∙ own,
        λ z. some_id (sym id_at ∙ z),
        omega (arith, id_at, low),
        subst⁻¹
            (λ (s : SagaStep).
              succeeded
                (validate_token v (requested e id index) s (some scratch) max_payload_size).0
              ≡ true)
            at
            (subst⁻¹
              (λ (r : SagaResult × CompensationRecord × Option (List ℕ)). succeeded r.0 ≡ true)
              (validate_token-steps e steps (step_at e i)) valid),
      )

  -- The steps below an index are checked.
  abbrev AllChecked : SagaExecution → ℕ → Type 0
  AllChecked e n = (i : ℕ) → i < n → IsChecked e i

  earlier :
      (e d : SagaExecution) (id index i : ℕ)
      → d ≡ requested e id index
      → IsChecked d index
      → AllChecked e index
      → i < index + 1
      → IsChecked d i
  earlier e d id index i same now checked below = elim (Bool-cases (index == i)) [
    | inl here ↦ subst (λ (n : ℕ). IsChecked d n) (==→eq index i here) now
    | inr apart ↦
        subst⁻¹ (λ (x : SagaExecution). IsChecked x i) same
          (live_step-keeps e id index i (λ z. ground arith) (checked i (ground arith)))
  ]

  live_loop-AllChecked :
      (rounds index : ℕ) (e e' : SagaExecution)
      → index + rounds ≤ length e.steps
      → AllChecked e index
      → live_loop v scratch rounds e ids index ≡ pass e'
      → AllChecked e' (index + rounds)
        × (e'.remaining ≡ e.remaining)
        × (e'.next_request_id ≡ e.next_request_id)
  unfolding live_loop
  live_loop-AllChecked zero index e e' room checked h =
      let same : e ≡ e' = cc in
      subst
        (λ (x : SagaExecution).
          AllChecked x (index + 0)
          × (x.remaining ≡ e.remaining)
          × (x.next_request_id ≡ e.next_request_id))
        same (λ i below. checked i (omega arith), refl, refl)
  live_loop-AllChecked (suc rounds) index e e' room checked h =
      elim (Check-cases (live_step v scratch e (get_or ids index 0) index)) [
        | inl (stop, failed) ↦ absurd (let no = rw failed at h in cc)
        | inr (d, passed) ↦
            let id = get_or ids index 0 in
            let (same, now) = live_step-IsChecked e d id index refl (omega arith) passed in
            let before : AllChecked d (index + 1) =
              λ i below. earlier e d id index i same now checked below in
            let sized : length d.steps ≡ length e.steps =
              ap (λ (x : SagaExecution). length x.steps) same
              ∙ length-set e.steps index (record (step_at e index) { forward_request_id = id }) in
            let (all, left, next) =
              live_loop-AllChecked rounds (index + 1) d e' (omega (arith, sized)) before
                (rw passed at h) in
            (
              λ i below. all i (omega arith),
              left ∙ ap (λ (x : SagaExecution). x.remaining) same,
              next ∙ ap (λ (x : SagaExecution). x.next_request_id) same,
            )
      ]

ready_IsChecked :
    (v : Verifier) (scratch ids : List ℕ) (e : SagaExecution) (i : ℕ)
    → IsChecked v scratch ids e i
    → IsChecked v scratch ids (record e { state = ready }) i
unfolding validate_token
ready_IsChecked v scratch ids e i h = h

passed_same :
    (e e' : SagaExecution)
    → Path (Check SagaExecution SagaExecution) (pass e) (pass e')
    → (length e'.steps ≡ length e.steps) × (e'.next_request_id ≡ e.next_request_id)
passed_same e e' h = let same : e ≡ e' = cc in rw⁻¹ same (refl, refl)

passed_set :
    (e e' : SagaExecution) (steps : List SagaStep) (n : ℕ)
    → Path
        (Check SagaExecution SagaExecution)
        (pass (record e { steps = steps; step_count = n }))
        (pass e')
    → length steps ≡ length e.steps
    → (length e'.steps ≡ length e.steps) × (e'.next_request_id ≡ e.next_request_id)
passed_set e e' steps n h sized =
    let same : record e { steps = steps; step_count = n } ≡ e' = cc in rw⁻¹ same (sized, refl)

load_region-length :
    (e e' : SagaExecution) (offset : ℕ) (is_last : Bool)
    → load_region e offset is_last ≡ pass e'
    → (length e'.steps ≡ length e.steps) × (e'.next_request_id ≡ e.next_request_id)
unfolding load_region
load_region-length e e' offset is_last h =
    let ordinal = read_u16 e.image (offset + 12) in
    let outcome = offset + region_record_size in
    elim (Bool-cases (byte_at e.image offset == 3)) [
      | inr other ↦ let same = rw other at h in passed_same e e' same
      | inl step ↦ elim (Bool-cases (ordinal == 0 || ltb max_steps ordinal || is_last)) [
        | inl bad ↦ absurd (let no = rw (step, bad) at h in cc)
        | inr fine ↦
            elim (Bool-cases (
              byte_at e.image outcome != 4
              || read_u16 e.image (outcome + 2) != read_u16 e.image (offset + 2))) [
                | inl bad ↦ absurd (let no = rw (step, fine, bad) at h in cc)
                | inr good ↦
                    let set_step = rw (step, fine, good) at h in
                    passed_set e e'
                      (set e.steps (ordinal - 1) (record (loaded_step e.image offset) {
                        forward_request_id = (step_at e (ordinal - 1)).forward_request_id;
                      }))
                      ((e.step_count + 1) % 2 ^ 8) set_step
                      (length-set e.steps (ordinal - 1) (record (loaded_step e.image offset) {
                        forward_request_id = (step_at e (ordinal - 1)).forward_request_id;
                      }))
              ]
      ]
    ]

load_loop-length :
    (rounds : ℕ) (e e' : SagaExecution) (offset : ℕ)
    → load_loop rounds e offset ≡ pass e'
    → (length e'.steps ≡ length e.steps) × (e'.next_request_id ≡ e.next_request_id)
unfolding load_loop
load_loop-length zero e e' offset h = passed_same e e' h
load_loop-length (suc rounds) e e' offset h =
    elim (Check-cases (load_region e offset (rounds == 0))) [
      | inl (x, failed) ↦ absurd (let no = rw failed at h in cc)
      | inr (d, passed) ↦
          let (sized, next) = load_region-length e d offset (rounds == 0) passed in
          let (sized', next') =
            load_loop-length rounds d e' (offset + region_record_size) (rw passed at h) in
          (sized' ∙ sized, next' ∙ next)
    ]

load_steps-length :
    (e e' : SagaExecution)
    → load_steps e ≡ pass e'
    → (length e'.steps ≡ length e.steps) × (e'.next_request_id ≡ e.next_request_id)
unfolding load_steps
load_steps-length e e' h =
    elim (Check-cases (load_loop (read_u16 e.image 68) e (read_u32 e.image 72))) [
      | inl (x, failed) ↦ absurd (let no = rw failed at h in cc)
      | inr (d, passed) ↦ elim (Bool-cases (d.step_count == 0)) [
        | inl bare ↦ absurd (let no = rw (passed, bare) at h in cc)
        | inr some_steps ↦
            let same : d ≡ e' = (let end = rw (passed, some_steps) at h in cc) in
            rw⁻¹ same (load_loop-length (read_u16 e.image 68) e d (read_u32 e.image 72) passed)
      ]
    ]

-- A failure has a code other than OK.
abbrev IsHonest : Check Stopped SagaExecution → Type 0
IsHonest (fail (code, e)) = succeeded code ≡ false
IsHonest (pass e) = Unit

outputs_ok :
    (r : Check Stopped SagaExecution) (e : SagaExecution)
    → outputs r ≡ (ok, some e)
    → IsHonest r
    → r ≡ pass e
outputs_ok (fail (code, x)) e h honest = absurd cc
outputs_ok (pass x) e h honest = let same : x ≡ e = cc in ap pass same

IsHonest-bind :
    (m : Check Stopped SagaExecution) (f : SagaExecution → Check Stopped SagaExecution)
    → IsHonest m
    → ((e : SagaExecution) → IsHonest (f e))
    → IsHonest (m >>= f)
IsHonest-bind (fail (code, e)) f h k = h
IsHonest-bind (pass e) f h k = k e

-- A guard that fails with a code other than OK.
IsHonest-guard :
    (b : Bool) (code : SagaResult) (x : SagaExecution) (m : Check Stopped SagaExecution)
    → succeeded code ≡ false
    → IsHonest m
    → IsHonest (refuse b (code, x) >> m)
IsHonest-guard true code x m h k = h
IsHonest-guard false code x m h k = k

module _ (v : Verifier) (scratch : List ℕ) where
  check_token-IsHonest : (e : SagaExecution) (index : ℕ) → IsHonest (check_token v scratch e index)
  unfolding check_token
  check_token-IsHonest e index =
      elim (Bool-cases
        (succeeded (validate_token v e (step_at e index) (some scratch) max_payload_size).0)) [
          | inl good ↦ rw good tt
          | inr bad ↦ rw bad bad
        ]

  live_step-IsHonest :
      (e : SagaExecution) (id index : ℕ) → IsHonest (live_step v scratch e id index)
  unfolding live_step
  live_step-IsHonest e id index =
      IsHonest-guard (id == 0 || leb e.next_request_id id) inconsistent_history e
        (check_token v scratch (requested e id index) index) refl
        (check_token-IsHonest (requested e id index) index)

  live_loop-IsHonest :
      (rounds index : ℕ) (e : SagaExecution) (ids : List ℕ)
      → IsHonest (live_loop v scratch rounds e ids index)
  unfolding live_loop
  live_loop-IsHonest zero index e ids = tt
  live_loop-IsHonest (suc rounds) index e ids =
      IsHonest-bind (live_step v scratch e (get_or ids index 0) index)
        (λ e'. live_loop v scratch rounds e' ids (index + 1))
        (live_step-IsHonest e (get_or ids index 0) index)
        (λ e'. live_loop-IsHonest rounds (index + 1) e' ids)

  live_from-IsHonest :
      (fresh : SagaExecution) (ids : List ℕ) (completed_steps : ℕ)
      → IsHonest (live_from v scratch fresh ids completed_steps)
  unfolding live_from
  live_from-IsHonest fresh ids completed_steps = elim (Check-cases (load_steps fresh)) [
    | inl (x, failed) ↦ rw (failed, live_from) refl
    | inr (loaded, passed) ↦
        let d : SagaExecution = record loaded {
          remaining = completed_steps;
          completed_steps = completed_steps;
        } in
        rw (passed, live_from)
          (IsHonest-guard (ltb loaded.step_count completed_steps) not_saga loaded
            (live_loop v scratch completed_steps d ids 0 >>= λ e. pass (record e { state = ready }))
            refl
            (IsHonest-bind (live_loop v scratch completed_steps d ids 0)
              (λ e. pass (record e { state = ready })) (live_loop-IsHonest completed_steps 0 d ids)
              (λ e. tt)))
  ]

module _ (v : Verifier) (scratch : List ℕ) where
  live_from-IsChecked :
      (fresh e : SagaExecution) (ids : List ℕ) (completed_steps : ℕ)
      → completed_steps ≤ length fresh.steps
      → live_from v scratch fresh ids completed_steps ≡ pass e
      → (e.state ≡ ready)
        × (e.remaining ≡ completed_steps)
        × (e.next_request_id ≡ fresh.next_request_id)
        × ((i : ℕ) → i < completed_steps → IsChecked v scratch ids e i)
  unfolding live_from
  live_from-IsChecked fresh e ids completed_steps room h = elim (Check-cases (load_steps fresh)) [
    | inl (x, failed) ↦ absurd (let no = rw (failed, live_from) at h in cc)
    | inr (loaded, passed) ↦ elim (Bool-cases (ltb loaded.step_count completed_steps)) [
      | inl few ↦ absurd (let no = rw (passed, few, live_from) at h in cc)
      | inr enough ↦
          let (sized, next) = load_steps-length fresh loaded passed in
          let d : SagaExecution = record loaded {
            remaining = completed_steps;
            completed_steps = completed_steps;
          } in
          elim (Check-cases (live_loop v scratch completed_steps d ids 0)) [
            | inl (x, stopped) ↦
                absurd (let no = rw (passed, enough, stopped, live_from) at h in cc)
            | inr (d', ran) ↦
                let (all, left, next') =
                  live_loop-AllChecked v scratch ids completed_steps 0 d d' (omega (arith, sized))
                    (λ i below. absurd (omega arith)) ran in
                let same : record d' { state = ready } ≡ e =
                  (let end = rw (passed, enough, ran, live_from) at h in cc) in
                subst
                  (λ (x : SagaExecution).
                    (x.state ≡ ready)
                    × (x.remaining ≡ completed_steps)
                    × (x.next_request_id ≡ fresh.next_request_id)
                    × ((i : ℕ) → i < completed_steps → IsChecked v scratch ids x i))
                  same
                  (
                    refl,
                    left,
                    next' ∙ next,
                    λ i below. ready_IsChecked v scratch ids d' i (all i (omega arith)),
                  )
          ]
    ]
  ]

  bad_arguments-steps :
      (execution_id workflow_id original_outcome completed_steps next_request_id : ℕ)
      (ids : Option (List ℕ)) (lookup : Option Lookup)
      → bad_arguments v scratch execution_id workflow_id original_outcome ids completed_steps
          next_request_id lookup
        ≡ false
      → completed_steps ≤ 16
  bad_arguments-steps execution_id workflow_id original_outcome completed_steps next_request_id ids
        lookup h =
      ground arith

  -- When `begin_live` returns OK, the saga is ready, the completed steps remain to be undone, the
  -- next request number is the one it was given, and each of these steps has as its forward request
  -- the number at its index in the list `begin_live` was given, other than 0 and below the next one,
  -- and a token that fits.
  pub begin_live-IsChecked :
      (old e : SagaExecution) (image : List ℕ)
      (image_size execution_id workflow_id original_outcome : ℕ) (ids : Option (List ℕ))
      (completed_steps next_request_id : ℕ) (lookup : Option Lookup)
      → begin_live v scratch
          (some old)
          (some image)
          image_size
          execution_id
          workflow_id
          original_outcome
          ids
          completed_steps
          next_request_id
          lookup
        ≡ (ok, some e)
      → (e.state ≡ ready)
        × (e.remaining ≡ completed_steps)
        × (e.next_request_id ≡ next_request_id)
        × ((i : ℕ) → i < completed_steps → IsChecked v scratch (pointee ids) e i)
  unfolding begin_live
  begin_live-IsChecked old e image image_size execution_id workflow_id original_outcome ids
        completed_steps next_request_id lookup h =
      elim (Bool-cases (
        bad_arguments v scratch execution_id workflow_id original_outcome ids completed_steps
          next_request_id lookup)) [
            | inl bad ↦ absurd (let no = rw (bad, begin_live) at h in cc)
            | inr fine ↦ elim (Bool-cases (is_ok (v.validate image image_size).0)) [
              | inr invalid ↦ absurd (let no = rw (fine, invalid, begin_live) at h in cc)
              | inl valid ↦
                  let fresh : SagaExecution =
                    record (blank_execution image image_size execution_id workflow_id) {
                      original_outcome = original_outcome;
                      next_request_id = next_request_id;
                      token_lookup = lookup;
                    } in
                  let few : completed_steps ≤ 16 =
                    bad_arguments-steps execution_id workflow_id original_outcome completed_steps
                      next_request_id ids lookup fine in
                  let opened = rw (fine, valid, begin_live) at h in
                  live_from-IsChecked fresh e (pointee ids) completed_steps few (
                    outputs_ok (live_from v scratch fresh (pointee ids) completed_steps) e opened
                      (live_from-IsHonest v scratch fresh (pointee ids) completed_steps))
            ]
          ]
