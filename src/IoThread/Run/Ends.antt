-- ===== src/IoThread/Run/Ends.antt =====
-- How the I/O thread's loop ends, and how a round of it goes wrong.
use cpp_iocplib.Base.{
  ℕ, suc, ◌≤◌, ◌<◌, Bool, true, false, inl, inr, List, [], ◌∷◌, ◌++◌, map, length, drop, Option,
  none, some, ◌==◌, if◌then◌else◌, ◌≡◌, refl, ap, ◌∙◌, arith,
}
use native.Mathlib.Nat.{eq-zero-or-pos}
use cpp_iocplib.Tables.{find_entry}
use cpp_iocplib.IoThread.{
  SocketIoThread, Request, new, close, request_register_socket, request_unregister_socket,
  on_register_socket, enter, on_notified, on_request, all_events, same_handle, erase_event, leave,
  on_unregister_socket, handle_request,
}
use cpp_iocplib.IoThread.Valid.{has_event}
use cpp_iocplib.IoThread.Reach.{
  Reach, Reach-sessions, next, closes, registers, unregisters, IsFresh,
}
use cpp_iocplib.IoThread.Laws.{on_unregister_socket-leave}
use cpp_iocplib.IoThread.Run.{
  Round, Calls, run_round, Asked, register, unregister, ask, Happening, asked, closed, woken, run,
  after_round, with_earlier,
}
use cpp_iocplib.IoThread.Run.Polled.{Live}
use cpp_iocplib.IoThread.Run.Rounds.{Reach-run_round}

-- An event that is erased is one event less.
length-erase_event :
    (e : ℕ) (es : List ℕ) → has_event e es ≡ true → suc (length (erase_event e es)) ≡ length es
unfolding erase_event
length-erase_event e [] h = cc
length-erase_event e (x ∷ xs) h = ground (arith, length-erase_event e xs)

-- The request of a socket that is registered takes its event away.
on_notified-leave :
    (handle_of : ℕ → Option (Option ℕ)) (created : Option ℕ) (q : Request) (rs : List Request)
    (handle : Option ℕ) (e : ℕ) (t : SocketIoThread)
    → t.requests ≡ q ∷ rs
    → q.network_events ≡ all_events
    → handle_of q.socket ≡ some handle
    → find_entry same_handle handle t.event_map ≡ some e
    → (on_notified handle_of created t).events ≡ erase_event e t.events
unfolding on_notified on_request handle_request on_unregister_socket leave
on_notified-leave handle_of created q rs handle e t queued all locked found =
    let idle : List Request → SocketIoThread = λ l. record t { notified = false; requests = l } in
    let removal : q.network_events == all_events ≡ true = ground arith in
    ap (λ l. (on_request handle_of created (idle l)).events) queued
    ∙ ap
        (λ (b : Bool).
          (if b
            then on_unregister_socket handle_of q.socket (idle rs)
            else on_register_socket handle_of created q.socket (idle rs)).events)
        removal
    ∙ ap (λ u. u.events)
        (on_unregister_socket-leave handle_of q.socket e handle (idle rs) locked found)

on_notified-running :
    (handle_of : ℕ → Option (Option ℕ)) (created : Option ℕ) (t : SocketIoThread)
    → (on_notified handle_of created t).running ≡ t.running
unfolding on_notified on_request handle_request on_register_socket on_unregister_socket enter leave
on_notified-running handle_of created t = ground arith

-- The calls of the other threads, one after another.
abbrev pub ask_all : List Asked → SocketIoThread → SocketIoThread
ask_all [] t = t
ask_all (q ∷ qs) t = ask_all qs (ask q t)

run-ask_all :
    (qs : List Asked) (hs : List Happening) (t : SocketIoThread)
    → run (map asked qs ++ hs) t ≡ run hs (ask_all qs t)
unfolding run
run-ask_all [] hs t = refl
run-ask_all (q ∷ qs) hs t = run-ask_all qs hs (ask q t)

ask_all-running : (qs : List Asked) (t : SocketIoThread) → (ask_all qs t).running ≡ t.running
unfolding ask request_register_socket request_unregister_socket
ask_all-running [] t = refl
ask_all-running (register s n ∷ qs) t = ask_all-running qs (ask (register s n) t)
ask_all-running (unregister s ∷ qs) t = ask_all-running qs (ask (unregister s) t)

ask_all-Reach : (qs : List Asked) {s t : SocketIoThread} → Reach s t → Reach s (ask_all qs t)
unfolding ask
ask_all-Reach [] reach = reach
ask_all-Reach (register s n ∷ qs) reach = ask_all-Reach qs (next reach (registers s n))
ask_all-Reach (unregister s ∷ qs) reach = ask_all-Reach qs (next reach (unregisters s))

has_event-drop :
    (e wake : ℕ) (es : List ℕ)
    → es ≡ wake ∷ drop 1 es
    → has_event e (drop 1 es) ≡ true
    → (has_event e es ≡ true) × (1 < length es)
has_event-drop e wake [] q h = cc
has_event-drop e wake (x ∷ []) q h = cc
has_event-drop e wake (x ∷ y ∷ es) q h = (ground arith, omega arith)

-- In a thread that requests and wake-ups have led to, a round that handles the request to remove a
-- registered socket, whose event the thread waits for, reads behind the end of the events: the loop
-- counts them before the request is handled. (Every session's pointer is there, and an event of
-- `WSACreateEvent` is new.)
pub run_round-removal :
    (wake : ℕ) {t : SocketIoThread} (r : Round) (q : Request) (rs : List Request)
    (handle : Option ℕ) (e : ℕ)
    → Reach (new wake) t
    → Live r
    → IsFresh r.created t
    → r.waited ≡ 0
    → t.requests ≡ q ∷ rs
    → q.network_events ≡ all_events
    → r.handle_of q.socket ≡ some handle
    → find_entry same_handle handle t.event_map ≡ some e
    → has_event e (drop 1 t.events) ≡ true
    → run_round r t ≡ none
run_round-removal wake {t} r q rs handle e reach live fresh p queued all locked found known =
    let whole = (Reach-sessions wake e reach).0 in
    let (has, two) = has_event-drop e wake t.events whole known in
    let left = on_notified-leave r.handle_of r.created q rs handle e t queued all locked found in
    (Reach-run_round wake r reach live fresh (omega arith)).2 p
      (omega (arith, ap length left, length-erase_event e t.events has))

close-running : (t : SocketIoThread) → (close t).running ≡ false
unfolding close
close-running t = by_test t.running refl
  where
    by_test :
        (b : Bool)
        → t.running ≡ b
        → (if b then record t { running = false; notified = true } else t).running ≡ false
    by_test true q = refl
    by_test false q = q

-- The round is defined, and leaves `running_` as it is.
run_round-running :
    (wake : ℕ) {t : SocketIoThread} (r : Round)
    → Reach (new wake) t
    → Live r
    → IsFresh r.created t
    → r.waited < length t.events
    → (r.waited ≡ 0 → length t.events ≤ length (on_notified r.handle_of r.created t).events)
    → (u : SocketIoThread) × (cs : Calls) × (run_round r t ≡ some (u, cs)) × (u.running ≡ t.running)
run_round-running wake {t} r reach live fresh small more =
    let (of_socket, notified, _) = Reach-run_round wake r reach live fresh small in
    elim (eq-zero-or-pos r.waited) [
      | inl p ↦
          let (cs, round, _) = notified p (more p) in
          (
            on_notified r.handle_of r.created t,
            cs,
            round,
            on_notified-running r.handle_of r.created t,
          )
      | inr p ↦ let (cs, round, _) = of_socket p in (t, cs, round, refl)
    ]

-- The thread behind `Close` and these calls.
abbrev pub closing : List Asked → SocketIoThread → SocketIoThread
closing qs t = ask_all qs (close t)

ask_all-notified :
    (qs : List Asked) (t : SocketIoThread) → t.notified ≡ true → (ask_all qs t).notified ≡ true
unfolding ask request_register_socket request_unregister_socket
ask_all-notified [] t h = h
ask_all-notified (register s n ∷ qs) t h = ask_all-notified qs (ask (register s n) t) refl
ask_all-notified (unregister s ∷ qs) t h = ask_all-notified qs (ask (unregister s) t) refl

-- Once it is closed the thread has an event that is set, whatever the other threads ask for.
closing-notified :
    (qs : List Asked) (t : SocketIoThread) → t.running ≡ true → (closing qs t).notified ≡ true
unfolding close
closing-notified qs t on = ask_all-notified qs _ (
    ap (λ (b : Bool). (if b then record t { running = false; notified = true } else t).notified) on)

-- What a wait of a thread answers: an event's number; every session's pointer is there, an event of
-- `WSACreateEvent` is new, and a request that the round handles leaves no fewer events.
pub record Answers (u : SocketIoThread) (r : Round) : Type 0 where
  pub live : Live r
  pub fresh : IsFresh r.created u
  pub small : r.waited < length u.events
  pub no_fewer :
      r.waited ≡ 0 → length u.events ≤ length (on_notified r.handle_of r.created u).events

-- `Close` ends a running thread that requests and wake-ups have led to, where it comes between two
-- rounds and a wait returns if `events_[0]` is set: whatever the other threads ask for meanwhile, the
-- thread's next wait returns, and the round behind it is the last one. (The wait answers an event's
-- number, every session's pointer is there, an event of `WSACreateEvent` is new, and a request that
-- the round handles leaves no fewer events.)
pub run-close :
    (wake : ℕ) {t : SocketIoThread} (wait : SocketIoThread → Option Round) (qs : List Asked)
    → Reach (new wake) t
    → t.running ≡ true
    → ((u : SocketIoThread) → u.notified ≡ true → (r : Round) × (wait u ≡ some r))
    → ((r : Round) → wait (closing qs t) ≡ some r → Answers (closing qs t) r)
    → (r : Round) × (cs : Calls) × (wait (closing qs t) ≡ some r)
      × ((later : List Happening)
          → run (closed ∷ map asked qs ++ woken r ∷ later) t ≡ some (true, cs))
unfolding run
run-close wake {t} wait qs reach on returns answers =
    let u = closing qs t in
    let (r, waited) = returns u (closing-notified qs t on) in
    let a = answers r waited in
    let (v, cs, round, same) =
      run_round-running wake r (ask_all-Reach qs (next reach closes)) a.live a.fresh a.small
        a.no_fewer in
    let stopped = same ∙ ask_all-running qs (close t) ∙ close-running t in
    (
      r,
      cs,
      waited,
      λ later.
          run-ask_all qs (woken r ∷ later) (close t)
          ∙ ap (after_round (run later)) round
          ∙ ap (λ b. if b then with_earlier cs (run later v) else some (true, cs)) stopped,
    )
