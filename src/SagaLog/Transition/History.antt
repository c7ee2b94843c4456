-- ===== src/SagaLog/Transition/History.antt =====
-- The life of one saga through a log: its records in order, each a step.
use hermas.Base.{
  ℕ, zero, suc, ◌-◌, ◌≡◌, ◌≢◌, ◌⊎◌, inl, inr, refl, arith, true, false, ◌&&◌, List, [], ◌∷◌, ◌++◌,
  All, ◌==◌, if◌then◌else◌,
}
use hermas.SagaLog.{SagaLogRecord, ok, validate}
use hermas.SagaLog.Kind
use hermas.SagaLog.Transition.Phase.{
  Phase, closed, waiting, holding, sending, failed, Step, started, prepared, sent, succeeded,
  app_failed, not_sent, held_unknown, sent_unknown, compensated, abandoned,
}

pub data Trace (id : ℕ) : Phase → List SagaLogRecord → Phase → Type 0 where
  done : {p : Phase} → Trace id p [] p
  mine :
      {p q p' : Phase} {r : SagaLogRecord} {rs : List SagaLogRecord}
      → r.execution_id ≡ id
      → Step p r q
      → Trace id q rs p'
      → Trace id p (r ∷ rs) p'
  other :
      {p p' : Phase} {r : SagaLogRecord} {rs : List SagaLogRecord}
      → r.execution_id ≢ id
      → Trace id p rs p'
      → Trace id p (r ∷ rs) p'

-- The ordinals of the steps of an execution that succeeded, in the order of the log.
abbrev pub succeeded_ordinals : ℕ → List SagaLogRecord → List ℕ
succeeded_ordinals id [] = []
succeeded_ordinals id (r ∷ rs) =
    let rest = succeeded_ordinals id rs in
    if r.execution_id == id && r.kind == Kind.step_succeeded then r.ordinal ∷ rest else rest

-- `n`, `n - 1`, and so on down to 1.
abbrev pub countdown : ℕ → List ℕ
countdown zero = []
countdown (suc n) = suc n ∷ countdown n

-- The record starts no saga of the execution.
abbrev pub Continues : ℕ → SagaLogRecord → Type 0
Continues id r = r.execution_id ≡ id → r.kind ≢ Kind.started

-- The ordinal a saga is at.
abbrev pub at_ordinal : Phase → ℕ
at_ordinal closed = 0
at_ordinal (waiting n) = n
at_ordinal (holding ρ) = ρ.ordinal
at_ordinal (sending ρ) = ρ.ordinal
at_ordinal (failed o) = 0

abbrev Alive : Phase → Type 0
Alive closed = ⊥
Alive (waiting n) = Unit
Alive (holding ρ) = Unit
Alive (sending ρ) = Unit
Alive (failed o) = ⊥

step_ordinal : (r : SagaLogRecord) → validate r ≡ ok → r.kind ≡ Kind.step_succeeded → r.ordinal ≢ 0
unfolding validate
step_ordinal r valid k = ground arith

-- Without a new start, a saga that is alive was alive before.
Step-Alive :
    {p q : Phase} {r : SagaLogRecord} → Step p r q → r.kind ≢ Kind.started → Alive q → Alive p
Step-Alive (started k) fresh alive = absurd (fresh k)
Step-Alive (prepared k) fresh alive = tt
Step-Alive (sent k) fresh alive = tt
Step-Alive (succeeded k) fresh alive = tt
Step-Alive (app_failed k o) fresh alive = tt
Step-Alive (not_sent k o) fresh alive = tt
Step-Alive (held_unknown k) fresh alive = tt
Step-Alive (sent_unknown k) fresh alive = tt
Step-Alive (compensated k o) fresh alive = tt
Step-Alive (abandoned k) fresh alive = absurd alive

Trace-Alive :
    {id : ℕ} {p q : Phase} {rs : List SagaLogRecord}
    → Trace id p rs q
    → All (Continues id) rs
    → Alive q
    → Alive p
Trace-Alive done fresh alive = alive
Trace-Alive (mine own step trace) fresh alive =
    Step-Alive step (fresh.0 own) (Trace-Alive trace fresh.1 alive)
Trace-Alive (other foreign trace) fresh alive = Trace-Alive trace fresh.1 alive

-- A record that is no success of the execution leaves the list of its successes.
pub skipped :
    (id : ℕ) (r : SagaLogRecord) (rs : List SagaLogRecord)
    → (r.execution_id ≢ id) ⊎ (r.kind ≢ Kind.step_succeeded)
    → succeeded_ordinals id (r ∷ rs) ≡ succeeded_ordinals id rs
skipped id r rs (inl foreign) =
    let no : (r.execution_id == id && r.kind == Kind.step_succeeded) ≡ false = ground arith in rw no
skipped id r rs (inr no_success) =
    let no : (r.execution_id == id && r.kind == Kind.step_succeeded) ≡ false = ground arith in rw no

pub counted :
    (id : ℕ) (r : SagaLogRecord) (rs : List SagaLogRecord)
    → r.execution_id ≡ id
    → r.kind ≡ Kind.step_succeeded
    → succeeded_ordinals id (r ∷ rs) ≡ r.ordinal ∷ succeeded_ordinals id rs
counted id r rs own k =
    let yes : (r.execution_id == id && r.kind == Kind.step_succeeded) ≡ true = ground arith in
    rw yes

pub countdown-step : (n : ℕ) → n ≢ 0 → countdown n ≡ n ∷ countdown (n - 1)
countdown-step zero h = absurd (h refl)
countdown-step (suc n) h = let e : suc n - 1 ≡ n = omega arith in rw e

-- The successes from a phase on, and what is left in the end, are the countdown of the phase.
abbrev pub Counts : ℕ → Phase → List SagaLogRecord → ℕ → Type 0
Counts id p rs m = succeeded_ordinals id rs ++ countdown m ≡ countdown (at_ordinal p)

Step-Counts :
    (id m : ℕ) {p q : Phase} (r : SagaLogRecord) (rs : List SagaLogRecord)
    → r.execution_id ≡ id
    → validate r ≡ ok
    → Step p r q
    → Alive p
    → Alive q
    → Counts id q rs m
    → Counts id p (r ∷ rs) m
Step-Counts id m r rs own valid (started k) a b h = absurd a
Step-Counts id m r rs own valid (prepared k) a b h = rw (skipped id r rs (inr (omega arith))) h
Step-Counts id m r rs own valid (sent k) a b h = rw (skipped id r rs (inr (omega arith))) h
Step-Counts id m r rs own valid (succeeded k) a b h =
    rw (counted id r rs own k, countdown-step r.ordinal (step_ordinal r valid k), h)
Step-Counts id m r rs own valid (app_failed k o) a b h = absurd b
Step-Counts id m r rs own valid (not_sent k o) a b h = absurd b
Step-Counts id m r rs own valid (held_unknown k) a b h = absurd b
Step-Counts id m r rs own valid (sent_unknown k) a b h = absurd b
Step-Counts id m r rs own valid (compensated k o) a b h = absurd b
Step-Counts id m r rs own valid (abandoned k) a b h = absurd b

abbrev pub IsValid : SagaLogRecord → Type 0
IsValid r = validate r ≡ ok

pub Trace-Counts :
    (id m : ℕ) {p : Phase} {rs : List SagaLogRecord}
    → Trace id p rs (waiting m)
    → All IsValid rs
    → All (Continues id) rs
    → Counts id p rs m
Trace-Counts id m done valid fresh = refl
Trace-Counts id m {rs = r ∷ rs} (mine own step trace) valid fresh =
    let after = Trace-Alive trace fresh.1 tt in
    Step-Counts id m r rs own valid.0 step (Step-Alive step (fresh.0 own) after) after
      (Trace-Counts id m trace valid.1 fresh.1)
Trace-Counts id m {rs = r ∷ rs} (other foreign trace) valid fresh =
    rw (skipped id r rs (inl foreign)) (Trace-Counts id m trace valid.1 fresh.1)
