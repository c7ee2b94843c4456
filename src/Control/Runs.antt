-- ===== src/Control/Runs.antt =====
-- Runs of src/control.c on a loop of one execution.
use hermas.Base.{ℕ, ◌≡◌, refl, arith, some, List, [], ◌∷◌, replicate, if◌then◌else◌, ◌==◌, inl}
use hermas.Protocol as Protocol
use hermas.Protocol.{Frame, decode, encode, header_size}
use hermas.Protocol.Kind as Kind
use hermas.Protocol.Outcome as Outcome
use hermas.Protocol.Legal.{submitting, reporting}
use hermas.Control.{
  ok, invalid_argument, admission_error, execution_active, release_error, submit, collect, release,
}
use hermas.Control.Loop as Loop
use hermas.Control.Loop.{LoopResult, DaemonLoop}
use hermas.Control.Frames.{Sendable, delivered, collect-submit}

abbrev request : Frame
request = record {
  kind = Kind.execute;
  execution_id = 7;
  request_id = 0;
  app_id = 0;
  action_id = 0;
  source_type = 4;
  destination_type = 0;
  outcome = Outcome.none;
  payload = some (10 ∷ 20 ∷ []);
  payload_length = 2;
}

abbrev reply : Frame
reply = record {
  kind = Kind.execution_result;
  execution_id = 7;
  request_id = 0;
  app_id = 0;
  action_id = 0;
  source_type = 5;
  destination_type = 5;
  outcome = Outcome.success;
  payload = some (30 ∷ []);
  payload_length = 1;
}

-- A state is the execution that was admitted; 8 is still active.
abbrev one : DaemonLoop ℕ
one = record {
  admit = λ s execution_id type input size.
      if s == 0 then (Loop.ok, execution_id) else (Loop.capacity_exhausted, s);
  result = λ s execution_id frame.
      if execution_id == s then (Loop.ok, reply) else (Loop.unknown_execution, frame);
  release = λ s execution_id.
      if execution_id == 8
      then (Loop.execution_active, s)
      else if execution_id == s
      then (Loop.ok, 0)
      else (Loop.unknown_execution, s);
}

abbrev buffer : List ℕ
buffer = replicate 60 9

request-Sendable : Sendable request buffer 60
request-Sendable = record {
  typed = omega arith;
  legal = submitting refl (omega arith) (λ e. omega (arith, e)) refl refl;
  bytes = omega arith;
  free = omega arith;
  small = omega arith;
  room = omega arith;
  fits = omega arith;
}

reply-Sendable : Sendable reply buffer 60
reply-Sendable = record {
  typed = omega arith;
  legal = reporting refl (omega arith) (omega arith) (inl refl);
  bytes = omega arith;
  free = omega arith;
  small = omega arith;
  room = omega arith;
  fits = omega arith;
}

collect-submit_example :
    (submit one (some 0) (encode (some request) (some buffer) 60 (some 0)).1 50 (some 0) reply
      ≡ (ok, some 7, some 7))
    × ((collect one (some 7) 7 (some buffer) 60 (some 0) request).0 ≡ ok)
    × ((collect one (some 7) 7 (some buffer) 60 (some 0) request).2 ≡ some 49)
    × (decode (collect one (some 7) 7 (some buffer) 60 (some 0) request).1 49 (some request)
        ≡ (Protocol.ok, some (delivered reply buffer)))
collect-submit_example =
    collect-submit one request reply request reply request buffer buffer 60 60 0 0 0 7 7 0
      request-Sendable reply-Sendable refl (omega arith) refl refl

collect_unknown_run :
    collect one (some 7) 9 (some buffer) 60 (some 4) reply ≡ (admission_error, some buffer, some 0)
unfolding collect
collect_unknown_run = refl

collect_zero_run :
    collect one (some 7) 0 (some buffer) 60 (some 4) reply ≡ (invalid_argument, some buffer, some 4)
unfolding collect
collect_zero_run = refl

release_run : release one (some 7) 7 ≡ (ok, some 0)
unfolding release
release_run = refl

release_active_run : release one (some 7) 8 ≡ (execution_active, some 7)
unfolding release
release_active_run = refl

release_unknown_run : release one (some 7) 9 ≡ (release_error, some 7)
unfolding release
release_unknown_run = refl
