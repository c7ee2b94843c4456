-- ===== src/SagaLog/Scan/Compensated.antt =====
-- Logs that report a saga as compensated.
use hermas.Base.{
  ℕ, zero, suc, ◌/◌, ◌≡◌, ◌≢◌, refl, sym, ◌∙◌, arith, List, [], ◌∷◌, ◌++◌, append-nil, some, All,
  drop,
}
use hermas.Base.Check.{pass}
use hermas.SagaLog.{SagaLogRecord, ok, record_size, validate}
use hermas.SagaLog.Kind
use hermas.Protocol.Outcome
use hermas.SagaLog.Transition.Phase.{
  Phase, closed, waiting, failed, Step, started, prepared, sent, succeeded, app_failed, not_sent,
  held_unknown, sent_unknown, compensated, abandoned,
}
use hermas.SagaLog.Transition.Table.{phase_at}
use hermas.SagaLog.Transition.History.{
  Trace, done, mine, other, IsValid, Continues, succeeded_ordinals, countdown, Trace-Counts,
}
use hermas.SagaLog.Scan.{Summary, scan}
use hermas.SagaLog.Scan.Follow.{Records, scan-LogHistory}

-- A saga never fails with success.
Honest : Phase → Type 0
Honest (failed o) = o ≢ Outcome.success
Honest _ = Unit

unknown_outcome :
    (r : SagaLogRecord) → validate r ≡ ok → r.kind ≡ Kind.step_unknown → r.outcome ≢ Outcome.success
unfolding validate
unknown_outcome r valid k = ground arith

Step-Honest : {p q : Phase} {r : SagaLogRecord} → validate r ≡ ok → Step p r q → Honest q
unfolding Honest
Step-Honest valid (started k) = tt
Step-Honest valid (prepared k) = tt
Step-Honest valid (sent k) = tt
Step-Honest valid (succeeded k) = tt
Step-Honest valid (app_failed k o) = omega arith
Step-Honest valid (not_sent k o) = omega arith
Step-Honest {r = r} valid (held_unknown k) = unknown_outcome r valid k
Step-Honest {r = r} valid (sent_unknown k) = unknown_outcome r valid k
Step-Honest valid (compensated k o) = tt
Step-Honest valid (abandoned k) = tt

Trace-Honest :
    {id : ℕ} {p q : Phase} {rs : List SagaLogRecord}
    → Trace id p rs q
    → All IsValid rs
    → Honest p
    → Honest q
Trace-Honest done valid h = h
Trace-Honest (mine own step trace) valid h = Trace-Honest trace valid.1 (Step-Honest valid.0 step)
Trace-Honest (other foreign trace) valid h = Trace-Honest trace valid.1 h

-- The step that one record of an execution takes, and what follows it.
Trace-head :
    (id : ℕ) {p q : Phase} (r : SagaLogRecord) {rs : List SagaLogRecord}
    → r.execution_id ≡ id
    → Trace id p (r ∷ rs) q
    → (s : Phase) × Step p r s × Trace id s rs q
Trace-head id r own (mine e step trace) = (_, step, trace)
Trace-head id r own (other foreign trace) = absurd (foreign own)

Trace-split :
    (id : ℕ) {p q : Phase} (xs ys : List SagaLogRecord)
    → Trace id p (xs ++ ys) q
    → (s : Phase) × Trace id p xs s × Trace id s ys q
Trace-split id [] ys trace = (_, done, trace)
Trace-split id (x ∷ xs) ys (mine own step trace) =
    let (s, first, second) = Trace-split id xs ys trace in (s, mine own step first, second)
Trace-split id (x ∷ xs) ys (other foreign trace) =
    let (s, first, second) = Trace-split id xs ys trace in (s, other foreign first, second)

start-waiting :
    {p q : Phase} {r : SagaLogRecord} → Step p r q → r.kind ≡ Kind.started → q ≡ waiting r.ordinal
start-waiting (started k) e = refl
start-waiting (prepared k) e = absurd (omega arith)
start-waiting (sent k) e = absurd (omega arith)
start-waiting (succeeded k) e = absurd (omega arith)
start-waiting (app_failed k o) e = absurd (omega arith)
start-waiting (not_sent k o) e = absurd (omega arith)
start-waiting (held_unknown k) e = absurd (omega arith)
start-waiting (sent_unknown k) e = absurd (omega arith)
start-waiting (compensated k o) e = absurd (omega arith)
start-waiting (abandoned k) e = absurd (omega arith)

finish-waiting :
    {p q : Phase} {r : SagaLogRecord}
    → Step p r q
    → Honest p
    → r.kind ≡ Kind.finished
    → r.outcome ≡ Outcome.success
    → p ≡ waiting 0
unfolding Honest
finish-waiting (started k) h e o = absurd (omega arith)
finish-waiting (prepared k) h e o = absurd (omega arith)
finish-waiting (sent k) h e o = absurd (omega arith)
finish-waiting (succeeded k) h e o = absurd (omega arith)
finish-waiting (app_failed k o') h e o = absurd (omega arith)
finish-waiting (not_sent k o') h e o = absurd (omega arith)
finish-waiting (held_unknown k) h e o = absurd (omega arith)
finish-waiting (sent_unknown k) h e o = absurd (omega arith)
finish-waiting (compensated k o') h e o = refl
finish-waiting (abandoned k) h e o = absurd (h o)

Records-unique :
    (n : ℕ) (bytes : List ℕ) (xs ys : List SagaLogRecord)
    → Records n bytes xs
    → Records n bytes ys
    → xs ≡ ys
Records-unique zero bytes [] [] h k = refl
Records-unique zero bytes [] (y ∷ ys) h k = absurd k
Records-unique zero bytes (x ∷ xs) ys h k = absurd h
Records-unique (suc n) bytes [] ys h k = absurd h
Records-unique (suc n) bytes (x ∷ xs) [] h k = absurd k
Records-unique (suc n) bytes (x ∷ xs) (y ∷ ys) h k =
    let same : pass x ≡ pass y = sym h.0 ∙ k.0 in
    let head : x ≡ y = cc in
    let tail = Records-unique n (drop record_size bytes) xs ys h.1 k.1 in rw (head, tail)

All-right : (xs ys : List SagaLogRecord) → All IsValid (xs ++ ys) → All IsValid ys
All-right [] ys h = h
All-right (x ∷ xs) ys h = All-right xs ys h.1

All-left : (xs ys : List SagaLogRecord) → All IsValid (xs ++ ys) → All IsValid xs
All-left [] ys h = tt
All-left (x ∷ xs) ys h = (h.0, All-left xs ys h.1)

-- A life that holds a start and then, without another start, a finish with success.
compensated_life :
    (id : ℕ) (q : Phase) (before middle after : List SagaLogRecord) (first last : SagaLogRecord)
    → Trace id closed (before ++ (first ∷ (middle ++ (last ∷ after)))) q
    → All IsValid (before ++ (first ∷ (middle ++ (last ∷ after))))
    → first.execution_id ≡ id
    → first.kind ≡ Kind.started
    → All (Continues id) middle
    → last.execution_id ≡ id
    → last.kind ≡ Kind.finished
    → last.outcome ≡ Outcome.success
    → succeeded_ordinals id middle ≡ countdown first.ordinal
unfolding Honest
compensated_life id q before middle after first last trace valid own begins fresh own' ends
      success =
    let (p, early, rest) = Trace-split id before (first ∷ (middle ++ (last ∷ after))) trace in
    let (s, start, late) = Trace-head id first own rest in
    let (t, between, finish) = Trace-split id middle (last ∷ after) late in
    let (u, close, tail) = Trace-head id last own' finish in
    let valid' = All-right before (first ∷ (middle ++ (last ∷ after))) valid in
    let fine = All-left middle (last ∷ after) valid'.1 in
    let here : s ≡ waiting first.ordinal = start-waiting start begins in
    let honest : Honest s = Step-Honest valid'.0 start in
    let there : t ≡ waiting 0 =
      finish-waiting close (Trace-Honest between fine honest) ends success in
    let whole : Trace id (waiting first.ordinal) middle (waiting 0) =
      rw (← here, ← there) between in
    sym (append-nil (succeeded_ordinals id middle)) ∙ Trace-Counts id 0 whole fine fresh

-- When `hermas_saga_log_scan` accepts a log that holds the start of a saga with some ordinal and
-- later its finish with success, with no other start of the execution between, then between the two
-- the log reports exactly the steps of that ordinal, of the one below and so on down to 1 as
-- succeeded, in this order and each once.
pub scan-compensated :
    (bytes : List ℕ) (n id : ℕ) (old summary : Summary) (before middle after : List SagaLogRecord)
    (first last : SagaLogRecord)
    → scan (some bytes) n (some old) ≡ (ok, some summary)
    → Records (n / record_size) bytes (before ++ (first ∷ (middle ++ (last ∷ after))))
    → first.execution_id ≡ id
    → first.kind ≡ Kind.started
    → All (Continues id) middle
    → last.execution_id ≡ id
    → last.kind ≡ Kind.finished
    → last.outcome ≡ Outcome.success
    → succeeded_ordinals id middle ≡ countdown first.ordinal
scan-compensated bytes n id old summary before middle after first last h held own begins fresh own'
      ends success =
    let log = scan-LogHistory bytes n old summary h in
    let same =
      Records-unique (n / record_size) bytes log.records
        (before ++ (first ∷ (middle ++ (last ∷ after)))) log.held held in
    compensated_life id (phase_at log.entries id) before middle after first last
      (rw (← same) (log.traces id)) (rw (← same) log.valid) own begins fresh own' ends success
