-- ===== src/Journal/Kind.antt =====
-- `hermas_journal_kind` of include/hermas/journal.h.
use hermas.Base.{ℕ}

abbrev pub execution_started : ℕ
execution_started = 1

abbrev pub delivery_prepared : ℕ
delivery_prepared = 2

abbrev pub delivery_sent : ℕ
delivery_sent = 3

abbrev pub action_succeeded : ℕ
action_succeeded = 4

abbrev pub action_failed : ℕ
action_failed = 5

abbrev pub action_unknown : ℕ
action_unknown = 6

abbrev pub execution_finished : ℕ
execution_finished = 7
