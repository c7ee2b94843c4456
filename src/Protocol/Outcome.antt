-- ===== src/Protocol/Outcome.antt =====
-- `hermas_outcome` of include/hermas/protocol.h.
use hermas.Base.{ℕ}

abbrev pub none : ℕ
none = 0

abbrev pub success : ℕ
success = 1

abbrev pub app_error : ℕ
app_error = 2

abbrev pub not_sent : ℕ
not_sent = 3

abbrev pub unknown : ℕ
unknown = 4

abbrev pub protocol_error : ℕ
protocol_error = 5
