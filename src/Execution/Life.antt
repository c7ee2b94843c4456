-- ===== src/Execution/Life.antt =====
-- An execution of src/runtime.c from its start: sequences of calls of its operations.
use hermas.Base.{
  ℕ, ◌+◌, ◌≤◌, ◌≡◌, ◌≢◌, ◌⊎◌, refl, ◌∙◌, arith, inl, inr, true, false, Option, none, some,
  Bool-cases, List, [], ◌∷◌, if◌then◌else◌,
}
use hermas.Image.{Verifier}
use hermas.Protocol.{Frame}
use hermas.Protocol.Outcome
use hermas.Execution.{
  Execution, ready, prepared, sent, complete, RuntimeResult, succeeded, accept_result, answers,
  has_value, invalid_state, prepare, mark_sent, mark_not_sent, mark_unknown,
  finish_delivery_outcome,
}
use hermas.Execution.Deliveries.{
  Operation, to_accept, to_prepare, to_send, to_fail, to_lose, perform, perform-Performed, call_of,
  Performed, moved, refused, Move, preparing, sending, handled, not_sent, unknown, answered_on,
  answered_end, accepts, view, Delivery, Call, Same,
}

-- `*execution` after a call.
abbrev pub execution_of : Execution → RuntimeResult × Option Execution → Execution
execution_of old (code, none) = old
execution_of old (code, some e) = e

module _ (v : Verifier) where
  abbrev pub after : Operation → Execution → Execution
  after op e = execution_of e (perform v op e)

  abbrev pub after_all : List Operation → Execution → Execution
  after_all [] e = e
  after_all (op ∷ ops) e = after_all ops (after op e)

  -- The request id of the result that a call accepts, before those of the calls that follow.
  abbrev pub answered_by : Operation → RuntimeResult → List ℕ → List ℕ
  answered_by (to_accept frame) code rest = if succeeded code then frame.request_id ∷ rest else rest
  answered_by _ code rest = rest

  -- The request ids of the results that the calls accept, in order.
  abbrev pub accepted_requests : List Operation → Execution → List ℕ
  accepted_requests [] e = []
  accepted_requests (op ∷ ops) e =
      answered_by op (perform v op e).0 (accepted_requests ops (after op e))

-- In ascending order from a bound on, no number twice.
abbrev pub IsAscendingFrom : ℕ → List ℕ → Type 0
IsAscendingFrom low [] = Unit
IsAscendingFrom low (n ∷ ns) = (low ≤ n) × IsAscendingFrom (n + 1) ns

weaken :
    (low low' : ℕ) (ns : List ℕ) → low ≤ low' → IsAscendingFrom low' ns → IsAscendingFrom low ns
weaken low low' [] h a = tt
weaken low low' (n ∷ ns) h (b, a) = (omega arith, a)

cons_ascends :
    (low n next : ℕ) (ids : List ℕ)
    → n ≡ low
    → next ≡ low + 1
    → IsAscendingFrom next ids
    → IsAscendingFrom low (n ∷ ids)
cons_ascends low n next ids e f h =
    (omega (arith, e), weaken (n + 1) next ids (omega (arith, e, f)) h)

-- A phase in which `start` and the operations leave an execution, with the outcome at the end.
abbrev pub IsAlive : Delivery → Type 0
IsAlive d =
    (d.phase ≡ ready)
    ⊎ (d.phase ≡ prepared)
    ⊎ (d.phase ≡ sent)
    ⊎ ((d.phase ≡ complete)
        × ((has_value d.outcome ≡ true)
            ⊎ (d.outcome ≡ Outcome.not_sent)
            ⊎ (d.outcome ≡ Outcome.unknown)))

module _ {c : Call} {p q : Delivery} where
  Move-grows : Move c p q → p.request ≤ q.request
  Move-grows (preparing l f h) = rw h (omega arith)
  Move-grows (sending l f h) = rw h (omega arith)
  Move-grows (handled f h) = rw h (omega arith)
  Move-grows (not_sent l f h) = rw h (omega arith)
  Move-grows (unknown l f h) = rw h (omega arith)
  Move-grows (answered_on r l f m h) = rw h (omega arith)
  Move-grows (answered_end o r l f m (inl s) h) = rw h (omega arith)
  Move-grows (answered_end o r l f m (inr s) h) = rw h (omega arith)

  Move-IsAlive : Move c p q → IsAlive q
  Move-IsAlive (preparing l f h) = rw h (inr (inl refl))
  Move-IsAlive (sending l f h) = rw h (inr (inr (inl refl)))
  Move-IsAlive (handled f h) = rw h (inl refl)
  Move-IsAlive (not_sent l f h) = rw h (inr (inr (inr (refl, inr (inl refl)))))
  Move-IsAlive (unknown l f h) = rw h (inr (inr (inr (refl, inr (inr refl)))))
  Move-IsAlive (answered_on r l f m h) = rw h (inl refl)
  Move-IsAlive (answered_end o r l f m n h) = rw h (inr (inr (inr (refl, inl m))))

  Move-open : Move c p q → p.phase ≢ complete
  Move-open (preparing l f h) end = cc
  Move-open (sending l f h) end = cc
  Move-open (handled (inl f) h) end = cc
  Move-open (handled (inr f) h) end = cc
  Move-open (not_sent l f h) end = cc
  Move-open (unknown l f h) end = cc
  Move-open (answered_on r l f m h) end = cc
  Move-open (answered_end o r l f m n h) end = cc

  Move-accepts :
      (frame : Frame)
      → c ≡ accepts frame
      → Move c p q
      → (q.request ≡ p.request + 1) ⊎ (q.phase ≡ complete)
  Move-accepts frame a (preparing l f h) = cc
  Move-accepts frame a (sending l f h) = cc
  Move-accepts frame a (handled (inl f) h) = cc
  Move-accepts frame a (handled (inr f) h) = cc
  Move-accepts frame a (not_sent l f h) = cc
  Move-accepts frame a (unknown l f h) = cc
  Move-accepts frame a (answered_on r l f m h) = inl (rw h refl)
  Move-accepts frame a (answered_end o r l f m n h) = inr (rw h refl)

-- What a call does to the execution, in terms of `view`.
record Effect (c : Call) (e : Execution) (r : RuntimeResult × Option Execution) : Type 0 where
  same : Same e (execution_of e r)
  grows : e.request_id ≤ (execution_of e r).request_id
  alive : IsAlive (view e) → IsAlive (view (execution_of e r))
  closed : e.state ≡ complete → succeeded r.0 ≡ false
  answers_once :
      (frame : Frame)
      → c ≡ accepts frame
      → succeeded r.0 ≡ true
      → ((execution_of e r).request_id ≡ e.request_id + 1) ⊎ ((execution_of e r).state ≡ complete)

refused_IsAlive :
    (e e' : Execution)
    → e'.state ≡ e.state
    → e'.terminal_outcome ≡ e.terminal_outcome
    → IsAlive (view e)
    → IsAlive (view e')
refused_IsAlive e e' state last old = ground arith

Performed-Effect :
    (c : Call) (e : Execution) (r : RuntimeResult × Option Execution)
    → Performed c e r
    → Effect c e r
Performed-Effect c e (code, none) p = elim p [ ]
Performed-Effect c e (code, some e') (moved same m) = record {
  same = same;
  grows = Move-grows m;
  alive = λ old. Move-IsAlive m;
  closed = λ end. absurd (Move-open m end);
  answers_once = λ frame a good. Move-accepts frame a m;
}
Performed-Effect c e (code, some e') (refused bad same state last more) = record {
  same = same;
  grows = more;
  alive = λ old. refused_IsAlive e e' state last old;
  closed = λ end. bad;
  answers_once = λ frame a good. cc;
}

module _ (v : Verifier) where
  effect : (op : Operation) (e : Execution) → Effect (call_of op) e (perform v op e)
  effect op e = Performed-Effect (call_of op) e (perform v op e) (perform-Performed v op e)

  -- A completed execution refuses every further call of an operation, and is not changed.
  pub perform-complete :
      (op : Operation) (e : Execution)
      → e.state ≡ complete
      → perform v op e ≡ (invalid_state, some e)
  unfolding prepare accept_result mark_sent mark_not_sent mark_unknown finish_delivery_outcome
  perform-complete (to_prepare frame) e h = rw h refl
  perform-complete (to_accept frame) e h = rw h refl
  perform-complete to_send e h = rw h refl
  perform-complete to_fail e h = rw h refl
  perform-complete to_lose e h = rw h refl

  accept_result-answers :
      (e : Execution) (r : Frame)
      → succeeded (perform v (to_accept r) e).0 ≡ true
      → answers e r ≡ true
  unfolding accept_result
  accept_result-answers e r h = ground arith

  answers-request : (e : Execution) (r : Frame) → answers e r ≡ true → r.request_id ≡ e.request_id
  unfolding answers
  answers-request e r h = ground arith

  not_answered :
      (op : Operation) (code : RuntimeResult) (rest : List ℕ)
      → succeeded code ≡ false
      → answered_by v op code rest ≡ rest
  not_answered (to_accept frame) code rest h = rw h refl
  not_answered (to_prepare frame) code rest h = refl
  not_answered to_send code rest h = refl
  not_answered to_fail code rest h = refl
  not_answered to_lose code rest h = refl

  accepts_none :
      (ops : List Operation) (e : Execution) → e.state ≡ complete → accepted_requests v ops e ≡ []
  accepts_none [] e h = refl
  accepts_none (op ∷ ops) e h =
      let shut = perform-complete op e h in
      rw (shut, not_answered op invalid_state (accepted_requests v ops e) refl)
        (accepts_none ops e h)

  -- What is accepted after a call ascends from the request number before it as well.
  ascend-later :
      (op : Operation) (e : Execution) (ids : List ℕ)
      → IsAscendingFrom (after v op e).request_id ids
      → IsAscendingFrom e.request_id ids
  ascend-later op e ids = weaken e.request_id (after v op e).request_id ids (effect op e).grows

  ascend-accepted :
      (r : Frame) (ops : List Operation) (e : Execution)
      → succeeded (perform v (to_accept r) e).0 ≡ true
      → (let later = after v (to_accept r) e in
          IsAscendingFrom later.request_id (accepted_requests v ops later))
      → IsAscendingFrom e.request_id
          (r.request_id ∷ accepted_requests v ops (after v (to_accept r) e))
  ascend-accepted r ops e good ascends =
      let own = answers-request e r (accept_result-answers e r good) in
      elim ((effect (to_accept r) e).answers_once r refl good) [
        | inl next ↦
            cons_ascends e.request_id r.request_id (after v (to_accept r) e).request_id
              (accepted_requests v ops (after v (to_accept r) e)) own next ascends
        | inr end ↦ (omega (arith, own), rw (accepts_none ops (after v (to_accept r) e) end) tt)
      ]

  ascend-good :
      (op : Operation) (ops : List Operation) (e : Execution)
      → succeeded (perform v op e).0 ≡ true
      → IsAscendingFrom (after v op e).request_id (accepted_requests v ops (after v op e))
      → IsAscendingFrom e.request_id (accepted_requests v (op ∷ ops) e)
  ascend-good (to_accept r) ops e good ascends = rw good (ascend-accepted r ops e good ascends)
  ascend-good (to_prepare r) ops e good ascends =
      ascend-later (to_prepare r) e (accepted_requests v ops (after v (to_prepare r) e)) ascends
  ascend-good to_send ops e good ascends =
      ascend-later to_send e (accepted_requests v ops (after v to_send e)) ascends
  ascend-good to_fail ops e good ascends =
      ascend-later to_fail e (accepted_requests v ops (after v to_fail e)) ascends
  ascend-good to_lose ops e good ascends =
      ascend-later to_lose e (accepted_requests v ops (after v to_lose e)) ascends

  -- The results that a sequence of calls accepts have ascending request ids, the first of them at
  -- least the execution's request number at the beginning: no request is answered twice.
  pub accepted_requests-ascend :
      (ops : List Operation) (e : Execution)
      → IsAscendingFrom e.request_id (accepted_requests v ops e)
  accepted_requests-ascend [] e = tt
  accepted_requests-ascend (op ∷ ops) e =
      let ascends = accepted_requests-ascend ops (after v op e) in
      elim (Bool-cases (succeeded (perform v op e).0)) [
        | inr bad ↦
            rw (not_answered op (perform v op e).0 (accepted_requests v ops (after v op e)) bad)
              (ascend-later op e (accepted_requests v ops (after v op e)) ascends)
        | inl good ↦ ascend-good op ops e good ascends
      ]

  -- A sequence of calls leaves the execution's id, and a phase of the delivery machine.
  pub after_all-IsAlive :
      (ops : List Operation) (e : Execution)
      → IsAlive (view e)
      → IsAlive (view (after_all v ops e))
        × ((after_all v ops e).execution_id ≡ e.execution_id)
        × (e.request_id ≤ (after_all v ops e).request_id)
  after_all-IsAlive [] e h = (h, refl, omega arith)
  after_all-IsAlive (op ∷ ops) e h =
      let now = effect op e in
      let (alive, own, more) = after_all-IsAlive ops (after v op e) (now.alive h) in
      (alive, own ∙ now.same.2, omega (arith, more, now.grows))
