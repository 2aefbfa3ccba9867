-- ===== src/WinError.antt =====
-- The error numbers of the Windows headers that the code compares with, at their documented values.
use cpp_iocplib.Base.{ℕ, Bool, ◌||◌, ◌==◌}

abbrev pub error_success : ℕ
error_success = 0

abbrev pub error_operation_aborted : ℕ
error_operation_aborted = 995

-- Also `ERROR_IO_PENDING`.
abbrev pub wsa_io_pending : ℕ
wsa_io_pending = 997

abbrev pub error_no_system_resources : ℕ
error_no_system_resources = 1450

abbrev pub wsa_e_would_block : ℕ
wsa_e_would_block = 10035

abbrev pub wsa_e_conn_reset : ℕ
wsa_e_conn_reset = 10054

abbrev pub wsa_e_no_bufs : ℕ
wsa_e_no_bufs = 10055

-- The three errors after which the session tries once more: the labels of the two `switch`es of
-- lib/iocplib/src/socket_session.cpp.
abbrev pub is_retryable : ℕ → Bool
is_retryable e =
    e == error_operation_aborted || e == error_no_system_resources || e == wsa_e_no_bufs
