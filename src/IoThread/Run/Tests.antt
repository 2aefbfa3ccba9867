-- ===== src/IoThread/Run/Tests.antt =====
-- The instances of the theorems on the I/O thread's loop.
use cpp_iocplib.IoThread.Run.Stuck
use mathlib.Core.Path.{subst}
use mathlib.Core.Option.{some-injective}
use cpp_iocplib.Base.{
  ℕ, ◌-◌, ◌≤◌, ◌<◌, true, List, [], ◌∷◌, length, take, drop, Option, none, some, ◌==◌, ◌≡◌, refl,
  arith, Bool, false, ap,
}
use cpp_iocplib.Tables.{find_entry, insert_entry}
use cpp_iocplib.IoThread.{
  SocketIoThread, new, close, request_register_socket, request_unregister_socket,
  on_register_socket, enter, handle_request, on_request, on_notified, all_events,
}
use cpp_iocplib.IoThread.Reach.{Reach, here, next, registers, unregisters, wakes}
use cpp_iocplib.IoThread.Run.{
  Round, Calls, run_round, run, asked, closed, woken, register, ask, Happening,
}
use cpp_iocplib.IoThread.Run.Polled.{Serves}
use cpp_iocplib.IoThread.Run.Rounds.{Reach-run_round}
use cpp_iocplib.IoThread.Run.Ends.{run_round-removal, run-close, Answers, closing}

-- Session n has the handle n.
abbrev handles : ℕ → Option (Option ℕ)
handles n = some (some n)

-- A thread that waits for the event 9 of session 7.
abbrev registered : SocketIoThread
registered = on_notified handles (some 9) (request_register_socket 7 35 (new 1))

registered-Reach : Reach (new 1) registered
unfolding new request_register_socket
registered-Reach = next (next here (registers 7 35)) (wakes handles (some 9) refl)

-- Something has come for session 7, whose wait has this number.
abbrev reading : ℕ → Option ℕ → Round
reading waited created = record {
  waited = waited;
  created = created;
  is_set = λ e. e == 9;
  enumerated = λ e. some (record { fd_read = some 0; fd_write = none; fd_close = none });
  handle_of = handles;
}

Reach-run_round_example :
    let u = on_notified handles none registered in
    (0 < (reading 1 none).waited
      → (cs : Calls) × (run_round (reading 1 none) registered ≡ some (registered, cs))
        × Serves (reading 1 none) registered (drop 1 registered.events) cs)
    × ((reading 1 none).waited ≡ 0
        → length registered.events ≤ length u.events
        → (cs : Calls) × (run_round (reading 1 none) registered ≡ some (u, cs))
          × Serves (reading 1 none) u (take (length registered.events - 1) (drop 1 u.events)) cs)
    × ((reading 1 none).waited ≡ 0
        → length u.events < length registered.events
        → run_round (reading 1 none) registered ≡ none)
unfolding new request_register_socket on_notified on_request handle_request on_register_socket enter
Reach-run_round_example =
    Reach-run_round 1 (reading 1 none) registered-Reach (λ s. (some s, refl)) tt (omega arith)

run_round-removal_example :
    run_round (reading 0 none) (request_unregister_socket 7 registered) ≡ none
unfolding new request_register_socket request_unregister_socket on_notified on_request
    handle_request on_register_socket enter insert_entry find_entry
run_round-removal_example =
    run_round-removal 1 (reading 0 none) (record { socket = 7; network_events = all_events }) []
      (some 7) 9 (next registered-Reach (unregisters 7)) (λ s. (some s, refl)) tt refl refl refl
      refl refl refl

-- A system whose wait returns, where the first event is set, its number.
abbrev returned : Bool → Option Round
returned true = some (reading 0 (some 10))
returned false = none

abbrev wait_first : SocketIoThread → Option Round
wait_first u = returned u.notified

wait_first-returns :
    (u : SocketIoThread) → u.notified ≡ true → (r : Round) × (wait_first u ≡ some r)
wait_first-returns u h = (reading 0 (some 10), ap returned h)

wait_first-Answers :
    (r : Round)
    → some (reading 0 (some 10)) ≡ some r
    → Answers (closing (register 8 35 ∷ []) registered) r
unfolding new request_register_socket on_notified on_request handle_request on_register_socket enter
    close ask
wait_first-Answers r e =
    subst (Answers (closing (register 8 35 ∷ []) registered))
      (some-injective (reading 0 (some 10)) r e)
      (record {
        live = λ s. (some s, refl);
        fresh = refl;
        small = omega arith;
        no_fewer = λ _. omega arith;
      })

run-close_example :
    (r : Round) × (cs : Calls) × (wait_first (closing (register 8 35 ∷ []) registered) ≡ some r)
    × ((later : List Happening)
        → run (closed ∷ asked (register 8 35) ∷ woken r ∷ later) registered ≡ some (true, cs))
unfolding new request_register_socket on_notified on_request handle_request on_register_socket enter
    close ask
run-close_example =
    run-close 1 wait_first (register 8 35 ∷ []) registered-Reach refl wait_first-returns
      wait_first-Answers

-- Two registrations wait.
abbrev asked_twice : SocketIoThread
asked_twice = request_register_socket 9 35 (request_register_socket 8 35 registered)

abbrev one_handled : SocketIoThread
one_handled = on_notified handles (some 10) asked_twice
