-- ===== src/Server/Tests.antt =====
-- The instance of the server's theorem: a server with one connection, which comes behind an
-- interrupt while `main` sleeps.
use cpp_iocplib.Base.{ℕ, ◌+◌, ◌<◌, true, [], ◌∷◌, some, none, ◌≡◌, refl, inr, arith}
use cpp_iocplib.WinSock.{Answer, answer, done}
use cpp_iocplib.Port
use cpp_iocplib.Port.{attach}
use cpp_iocplib.WinSock
use cpp_iocplib.Session.Accept
use cpp_iocplib.Acceptor
use cpp_iocplib.Acceptor.{Accepted, post_accept, new}
use cpp_iocplib.Acceptor.Counts.{attaches_all}
use cpp_iocplib.Acceptor.Open.{
  Opening, open_acceptor, open_port, start_listening, start_accepts, post_all, finish_open,
}
use cpp_iocplib.Server.{main, accepted, signal, sigint}
use cpp_iocplib.Server.Stops.{main-accepted}

count_close : ℕ → ℕ → Answer (Unit {0}) × ℕ
count_close h w = (answer tt, w + 1)

count_close-answers : (h w : ℕ) → (count_close h w).0 ≡ answer tt
unfolding count_close
count_close-answers h w = refl

abbrev opening : Opening
opening = record {
  io_thread = 0;
  processors = 4;
  port_handle = some 1;
  made = answer 5;
  bound = answer tt;
  listening = answer tt;
  joined = true;
  accepts = answer 6 ∷ [];
}

-- A connection whose session sets itself up.
abbrev connection : Accepted
connection = record {
  error = 0;
  session = Accept.new;
  updated = answer tt;
  setup = record { non_blocking = answer tt; no_delay = answer tt; joined = true; received = none };
  made = answer 7;
}

main-accepted_example :
    (attaches_all (connection ∷ []) ≡ 0
      → main count_close true true opening
          ([] ∷ (signal sigint ∷ accepted connection ∷ []) ∷ [])
          (0 ∷ [])
          0
        ≡ some (done 0))
    × (0 < attaches_all (connection ∷ [])
        → main count_close true true opening
            ([] ∷ (signal sigint ∷ accepted connection ∷ []) ∷ [])
            (0 ∷ 2 ∷ [])
            0
          ≡ none)
unfolding open_acceptor open_port Port.create Acceptor.new Port.new start_listening WinSock.create
    WinSock.new WinSock.bind WinSock.listen WinSock.checked start_accepts post_all post_accept
    finish_open attach
main-accepted_example =
    main-accepted count_close opening ([] ∷ []) [] (connection ∷ []) sigint [] (0 ∷ 2 ∷ [])
      (open_acceptor opening new).1 0 count_close-answers refl refl ((_, refl), tt) (inr refl)
      (omega arith)
