-- ===== src/Control/Loop.antt =====
-- `hermas_loop_result` of include/hermas/daemon.h, and what src/control.c calls of the loop.
use hermas.Base.{ℕ, Option, List}
use hermas.Protocol.{Frame}

pub data LoopResult : Type 0 where
  ok invalid_argument invalid_image capacity_exhausted duplicate_execution unknown_execution :
      LoopResult
  execution_active poll_error runtime_error protocol_error journal_error compensation_error :
      LoopResult
  result_error unsupported_graph : LoopResult

-- The daemon's loop on a state `S`: `hermas_daemon_loop_admit` on an execution, a type, the input
-- and its length; `hermas_daemon_loop_result` on an execution and the memory of the frame;
-- `hermas_daemon_loop_release` on an execution.
pub record DaemonLoop (S : Type 0) : Type 0 where
  pub admit : S → ℕ → ℕ → Option (List ℕ) → ℕ → LoopResult × S
  pub result : S → ℕ → Frame → LoopResult × Frame
  pub release : S → ℕ → LoopResult × S
