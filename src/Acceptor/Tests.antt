-- ===== src/Acceptor/Tests.antt =====
-- The instance of the acceptor's theorem: an acceptor that is open, and one connection.
use cpp_iocplib.Base.{length, ◌⊎◌, ℕ, true, [], ◌∷◌, none, some, ◌≡◌, refl, ◌+◌, arith}
use cpp_iocplib.WinSock.{Answer, answer, done, throws, checked, set_nagle_alogrithm}
use cpp_iocplib.Session.Accept
use cpp_iocplib.Session.Accept.{SocketSession}
use cpp_iocplib.Acceptor.{
  new, Acceptor, Accepted, accept_all, on_complete_overlapped_io, try_accept, on_accept,
  keep_session, close,
}
use cpp_iocplib.Port.{worker_count}
use cpp_iocplib.Acceptor.Open.{Opening, open_acceptor, post_all}
use cpp_iocplib.Acceptor.Closing.{Closes, close-open_acceptor}
use cpp_iocplib.Acceptor.Counts.{close-accept_all}

count_close : ℕ → ℕ → Answer (Unit {0}) × ℕ
count_close h w = (answer tt, w + 1)

abbrev listening_one : Acceptor
listening_one = record {
  port = record { handle = some 1; workers = 2; attached_sockets = 1 };
  listen_socket = record { handle = some 5 };
  opened = true;
  accept_sockets = [];
  sockets = [];
}

abbrev connection : Accepted
connection = record {
  error = 0;
  session = record Accept.new { socket = record { handle = some 6 } };
  updated = answer tt;
  setup = record { non_blocking = answer tt; no_delay = answer tt; joined = true; received = none };
  made = answer 7;
}

close-accept_all_example :
    ((accept_all (connection ∷ []) listening_one).port.attached_sockets ≡ 2)
    × (close count_close (3 ∷ 0 ∷ []) (accept_all (connection ∷ []) listening_one) 0 ≡ none)
unfolding accept_all on_complete_overlapped_io try_accept on_accept keep_session checked
    Accept.on_accept set_nagle_alogrithm
close-accept_all_example =
    close-accept_all count_close (connection ∷ []) (3 ∷ 0 ∷ []) listening_one 0 (omega arith)
      (omega arith) (omega arith) refl

-- One accept on a system that answers everything, with two workers.
abbrev opening : Opening
opening = record {
  io_thread = 2;
  processors = 8;
  port_handle = some 1;
  made = answer 5;
  bound = answer tt;
  listening = answer tt;
  joined = true;
  accepts = answer 6 ∷ [];
}

count_close-answers : (h w : ℕ) → (count_close h w).0 ≡ answer tt
unfolding count_close
count_close-answers h w = refl

close-open_acceptor_example :
    let (r, a) = open_acceptor opening new in
    (r ≡ done true → (a.port.workers ≡ 2) × (length a.accept_sockets ≡ 1) × Closes count_close a 0)
    × ((e : ℕ)
        → r ≡ throws e
        → Closes count_close a 0
          ⊎ (((post_all opening.accepts []).1 ≡ some e) × (close count_close [] a 0 ≡ none)))
unfolding worker_count
close-open_acceptor_example =
    close-open_acceptor count_close opening [] 0 count_close-answers refl (omega arith)
