-- ===== src/SagaLog/Kind.antt =====
-- `hermas_saga_log_kind` of include/hermas/saga_log.h.
use hermas.Base.{ℕ}

abbrev pub started : ℕ
started = 1

abbrev pub delivery_prepared : ℕ
delivery_prepared = 2

abbrev pub delivery_sent : ℕ
delivery_sent = 3

abbrev pub step_succeeded : ℕ
step_succeeded = 4

abbrev pub step_failed : ℕ
step_failed = 5

abbrev pub step_unknown : ℕ
step_unknown = 6

abbrev pub finished : ℕ
finished = 7
