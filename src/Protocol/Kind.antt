-- ===== src/Protocol/Kind.antt =====
-- `hermas_frame_kind` of include/hermas/protocol.h.
use hermas.Base.{ℕ}

abbrev pub register_app : ℕ
register_app = 1

abbrev pub register_ok : ℕ
register_ok = 2

abbrev pub invoke : ℕ
invoke = 3

abbrev pub result : ℕ
result = 4

abbrev pub protocol_error : ℕ
protocol_error = 5

abbrev pub execute : ℕ
execute = 6

abbrev pub execution_result : ℕ
execution_result = 7
