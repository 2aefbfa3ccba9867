-- ===== src/Session/Receiver/Tests.antt =====
-- The instances of the receiver's theorems. A world is the answers of `recv` still to come, and the
-- bytes handed on.
use cpp_iocplib.Session.Receiver.Progress.{GoesOn, on_receive-GoesOn}
use cpp_iocplib.Session.Receiver.Invariant.{Reach-receiver}
use cpp_iocplib.Session.Receiver.System.{System, start, Reach, completes, post_recv, hand_over}
use cpp_iocplib.Session.Receiver.System
use cpp_iocplib.Base.{
  ◌++◌, arith, Option, List, ℕ, ◌≡◌, refl, none, some, true, false, [], ◌∷◌, ◌≤◌, ◌<◌, ◌==◌,
  if◌then◌else◌,
}
use cpp_iocplib.WinError.{error_success, wsa_e_would_block, wsa_e_conn_reset}
use cpp_iocplib.Session.Receiver.{
  SessionReceiver, RecvResult, read, failed, on_receive, receive_result, new, on_accept,
  begin_receive, drain, after_recv, rearm,
}
use cpp_iocplib.Session.Receiver.Drain.{Reads, last, chunk}
use cpp_iocplib.Session.Receiver.Laws.{on_receive_would_block, on_receive_failed, on_receive_closed}

abbrev World : Type 0
World = List RecvResult × List ℕ

recv : ℕ → World → RecvResult × World
recv n ([], out) = (failed wsa_e_would_block, ([], out))
recv n (a ∷ as_, out) = (a, (as_, out))

hand_on : List ℕ → World → World
hand_on bs (as_, out) = (as_, out ++ bs)

arm : World → Option ℕ × World
arm w = (none, w)

abbrev armed : SessionReceiver
armed = record { session = true; zero_byte_recv = true; recv_error = 0 }

reads_two :
    Reads recv hand_on
      (read (1 ∷ []) ∷ read (2 ∷ []) ∷ [], [])
      ((1 ∷ []) ∷ (2 ∷ []) ∷ [])
      (failed wsa_e_would_block)
      ([], 1 ∷ 2 ∷ [])
unfolding recv hand_on
reads_two = chunk 1 [] refl (chunk 2 [] refl (last refl tt))

on_receive_would_block_example :
    on_receive arm recv hand_on 3 error_success armed (read (1 ∷ []) ∷ read (2 ∷ []) ∷ [], [])
    ≡ some (armed, ([], 1 ∷ 2 ∷ []))
unfolding arm receive_result
on_receive_would_block_example =
    on_receive_would_block arm recv hand_on armed 3 none refl reads_two (omega arith) refl refl

reads_failure :
    Reads recv hand_on
      (read (1 ∷ []) ∷ failed 10053 ∷ [], [])
      ((1 ∷ []) ∷ [])
      (failed 10053)
      ([], 1 ∷ [])
unfolding recv hand_on
reads_failure = chunk 1 [] refl (last refl tt)

on_receive_failed_example :
    on_receive arm recv hand_on 2 error_success armed (read (1 ∷ []) ∷ failed 10053 ∷ [], [])
    ≡ some (record { session = true; zero_byte_recv = false; recv_error = 10053 }, ([], 1 ∷ []))
on_receive_failed_example =
    on_receive_failed arm recv hand_on armed 2 10053 refl (omega arith) (omega arith) reads_failure
      (omega arith)

reads_close : Reads recv hand_on (read [] ∷ [], []) [] (read []) ([], [])
unfolding recv hand_on
reads_close = last refl tt

on_receive_closed_example :
    on_receive arm recv hand_on 1 error_success armed (read [] ∷ [], [])
    ≡ some
        (record { session = true; zero_byte_recv = true; recv_error = wsa_e_conn_reset }, ([], []))
unfolding arm receive_result
on_receive_closed_example =
    on_receive_closed arm recv hand_on armed 1 none refl reads_close (omega arith) refl refl

-- Of the calls made, the second reads two bytes; all others would block.
abbrev answers : ℕ → RecvResult
answers n = if n == 1 then read (4 ∷ 5 ∷ []) else failed wsa_e_would_block

abbrev well : ℕ → Option ℕ
well n = none

-- A receive that completes without error: two bytes come, and the next receive is started.
abbrev received : System
received = record {
  receiver = armed;
  kernel = record { calls = 4; pending = 1; got = 4 ∷ 5 ∷ []; handed = 4 ∷ 5 ∷ [] };
}

received-Reach : Reach well answers (start well answers) received
unfolding start new on_accept begin_receive post_recv System.recv hand_over on_receive drain
    after_recv rearm receive_result
received-Reach =
    System.next System.here (completes 0 error_success 3 armed received.kernel refl refl)

Reach-receiver_example :
    (1 ≤ 1) × (0 < 1 → armed.zero_byte_recv ≡ true) × (received.kernel.handed ≡ 4 ∷ 5 ∷ [])
Reach-receiver_example = Reach-receiver well answers received-Reach

-- The kernel behind the start of a session: the first receive is pending, and one call has been made.
abbrev begun : System
begun = record {
  receiver = armed;
  kernel = record { calls = 1; pending = 1; got = []; handed = [] };
}

begun-Reach : Reach well answers (start well answers) begun
unfolding start new on_accept begin_receive post_recv receive_result
begun-Reach = System.here

on_receive-GoesOn_example :
    (out : SessionReceiver × System.Kernel) × (on_receive
        (post_recv well answers)
        (System.recv well answers)
        hand_over
        2
        error_success
        armed
        (record begun.kernel { pending = 0 })
      ≡ some out)
    × GoesOn out.0 out.1
unfolding receive_result
on_receive-GoesOn_example =
    on_receive-GoesOn well answers (λ m. refl) 1 error_success begun-Reach (omega arith) tt
