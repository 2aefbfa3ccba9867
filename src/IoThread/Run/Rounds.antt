-- ===== src/IoThread/Run/Rounds.antt =====
-- What a round of the I/O thread's loop does, in each of its cases.
use cpp_iocplib.Base.{
  ℕ, suc, ◌-◌, ◌≤◌, ◌<◌, length, take, drop, take_all, length-drop, none, some, ◌≡◌, sym, ap, ◌∙◌,
  arith,
}
use mathlib.Core.Path.{subst}
use cpp_iocplib.IoThread.{SocketIoThread, new, on_notified}
use cpp_iocplib.IoThread.Valid.{IsValid}
use cpp_iocplib.IoThread.Reach.{Reach, Reach-IsValid, next, wakes, IsFresh}
use cpp_iocplib.IoThread.Run.{Round, Calls, poll_events, with_thread, handle_events, run_round}
use cpp_iocplib.IoThread.Run.Polled.{Serves, Live, poll_events-Serves, poll_events-past}

-- The two ways of a round whose wait returns an event's number.
run_round-socket :
    (r : Round) (t : SocketIoThread)
    → r.waited < length t.events
    → 0 < r.waited
    → run_round r t ≡ with_thread t (poll_events r t (length t.events - r.waited) r.waited)
unfolding run_round handle_events
run_round-socket r t h p = ground arith

run_round-notified :
    (r : Round) (t : SocketIoThread)
    → r.waited < length t.events
    → r.waited ≡ 0
    → let u = on_notified r.handle_of r.created t in
      run_round r t ≡ with_thread u (poll_events r u (length t.events - 1) 1)
unfolding run_round handle_events
run_round-notified r t h p = ground arith

serves_from :
    (wake w : ℕ) (r : Round) (t : SocketIoThread)
    → IsValid wake t
    → Live r
    → r.waited < length t.events
    → r.waited ≡ suc w
    → (cs : Calls) × (run_round r t ≡ some (t, cs)) × Serves r t (drop r.waited t.events) cs
serves_from wake w r t v live small p =
    let (cs, run, served) =
      poll_events-Serves r t wake (length t.events - suc w) w v live (omega arith) in
    let rest : take (length t.events - suc w) (drop (suc w) t.events) ≡ drop r.waited t.events =
      take_all (length t.events - suc w) (drop (suc w) t.events)
        (omega (arith, length-drop (suc w) t.events))
      ∙ ap (λ k. drop k t.events) (sym p) in
    (
      cs,
      run_round-socket r t small (omega arith)
          ∙ ap (λ k. with_thread t (poll_events r t (length t.events - k) k)) p
          ∙ ap (with_thread t) run,
      subst (λ es. Serves r t es cs) rest served,
    )

module _ (wake : ℕ) (r : Round) (t : SocketIoThread) (small : 0 < length t.events)
    (p : r.waited ≡ 0) where
  after : SocketIoThread
  after = on_notified r.handle_of r.created t

  serves_after :
      IsValid wake after
      → Live r
      → length t.events ≤ length after.events
      → (cs : Calls) × (run_round r t ≡ some (after, cs))
        × Serves r after (take (length t.events - 1) (drop 1 after.events)) cs
  unfolding after
  serves_after v live more =
      let (cs, run, served) =
        poll_events-Serves r after wake (length t.events - 1) 0 v live (omega arith) in
      (cs, run_round-notified r t (omega arith) p ∙ ap (with_thread after) run, served)

  reads_past :
      0 < length after.events → length after.events < length t.events → run_round r t ≡ none
  unfolding after
  reads_past some_ fewer =
      run_round-notified r t (omega arith) p
      ∙ ap (with_thread after)
          (poll_events-past r after (length t.events - 1) 1 (omega arith) (omega arith))

-- A round of `Run` in a thread that requests and wake-ups have led to, whose wait returns an event's
-- number, with every session's pointer there, and an event of `WSACreateEvent` that is new. If the
-- number is not that of the first event, the sessions of the events from it on that are set are
-- called, in order. If it is, one request is handled first; if that leaves no fewer events, the
-- sessions of as many events as there were before are called; if it leaves fewer, the loop reads
-- behind the end of the events.
pub Reach-run_round :
    (wake : ℕ) {t : SocketIoThread} (r : Round)
    → Reach (new wake) t
    → Live r
    → IsFresh r.created t
    → r.waited < length t.events
    → let u = on_notified r.handle_of r.created t in
      (0 < r.waited
        → (cs : Calls) × (run_round r t ≡ some (t, cs)) × Serves r t (drop r.waited t.events) cs)
      × (r.waited ≡ 0
          → length t.events ≤ length u.events
          → (cs : Calls) × (run_round r t ≡ some (u, cs))
            × Serves r u (take (length t.events - 1) (drop 1 u.events)) cs)
      × (r.waited ≡ 0 → length u.events < length t.events → run_round r t ≡ none)
unfolding after
Reach-run_round wake {t} r reach live fresh small =
    let later = Reach-IsValid wake (next reach (wakes r.handle_of r.created fresh)) in
    (
      λ p. serves_from wake (r.waited - 1) r t (Reach-IsValid wake reach) live small (omega arith),
      λ p more. serves_after wake r t (omega arith) p later live more,
      λ p fewer.
          reads_past wake r t (omega arith) p (omega (arith, ap length later.events_are)) fewer,
    )
