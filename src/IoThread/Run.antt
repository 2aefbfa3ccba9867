-- ===== src/IoThread/Run.antt =====
-- `Run` of lib/winsocklib/socket_io_thread.h: the loop over the events.
pub mod Polled
pub mod Rounds
pub mod Ends
pub mod Stuck
mod Tests
use cpp_iocplib.Base.{
  ℕ, zero, suc, ◌+◌, ◌-◌, Bool, true, false, List, [], ◌∷◌, ◌++◌, length, leb, Option, none, some,
  ◌==◌, if◌then◌else◌,
}
use cpp_iocplib.IoThread.{
  SocketIoThread, Request, Callback, NetworkEvents, new, close, request_register_socket,
  request_unregister_socket, on_notified, on_socket_event,
}

-- A session with the calls made of it.
abbrev pub Calls : Type 0
Calls = List (ℕ × List Callback)

-- `events_[i]`, `none` behind the end.
unfoldable pub event_at : ℕ → List ℕ → Option ℕ
event_at i [] = none
event_at zero (e ∷ es) = some e
event_at (suc i) (e ∷ es) = event_at i es

-- What the system answers in a round: the number that the wait for all events returns (one that is
-- no event's is a failure), the event that `WSACreateEvent` makes, the events that are set when they
-- are looked at, and what has happened to the socket of each; and the sessions' pointers and handles.
pub record Round : Type 0 where
  pub waited : ℕ
  pub created : Option ℕ
  pub is_set : ℕ → Bool
  pub enumerated : ℕ → Option NetworkEvents
  pub handle_of : ℕ → Option (Option ℕ)

abbrev pub with_calls : ℕ × List Callback → Option Calls → Option Calls
with_calls c none = none
with_calls c (some cs) = some (c ∷ cs)

module _ (r : Round) (t : SocketIoThread) where
  -- The body of the loop over the events behind the first, with what the loop then does.
  abbrev pub after_event : Option (ℕ × List Callback) → Option Calls → Option Calls
  after_event none rest = none
  after_event (some c) rest = with_calls c rest

  abbrev pub look_at : Option ℕ → Option Calls → Option Calls
  look_at none rest = none
  look_at (some e) rest =
      if r.is_set e
      then after_event (on_socket_event r.handle_of e (r.enumerated e) t) rest
      else rest

  -- The loop, of which so many steps are left, at an event. `none` where it reads behind the events,
  -- or a session that is not there.
  unfoldable pub poll_events : ℕ → ℕ → Option Calls
  poll_events zero i = some []
  poll_events (suc n) i = look_at (event_at i t.events) (poll_events n (suc i))

abbrev pub with_thread : SocketIoThread → Option Calls → Option (SocketIoThread × Calls)
with_thread t none = none
with_thread t (some cs) = some (t, cs)

-- The round, once the wait has returned the number of an event; the count of events is the one
-- before the request.
unfoldable pub handle_events : Round → SocketIoThread → Option (SocketIoThread × Calls)
handle_events r t =
    let count = length t.events in
    let u = on_notified r.handle_of r.created t in
    if r.waited == 0
    then with_thread u (poll_events r u (count - 1) 1)
    else with_thread t (poll_events r t (count - r.waited) r.waited)

-- A round of `Run`.
unfoldable pub run_round : Round → SocketIoThread → Option (SocketIoThread × Calls)
run_round r t = if leb (length t.events) r.waited then some (t, []) else handle_events r t

-- A call of another thread's.
pub data Asked : Type 0 where
  register : ℕ → ℕ → Asked
  unregister : ℕ → Asked

unfoldable pub ask : Asked → SocketIoThread → SocketIoThread
ask (register s network_events) t = request_register_socket s network_events t
ask (unregister s) t = request_unregister_socket s t

-- What happens to the thread: a call, the call of `Close`, or a wait that returns.
pub data Happening : Type 0 where
  asked : Asked → Happening
  closed : Happening
  woken : Round → Happening

abbrev pub with_earlier : Calls → Option (Bool × Calls) → Option (Bool × Calls)
with_earlier cs none = none
with_earlier cs (some (b, later)) = some (b, cs ++ later)

-- The test of `running_` behind a round.
abbrev pub after_round :
    (SocketIoThread → Option (Bool × Calls))
    → Option (SocketIoThread × Calls)
    → Option (Bool × Calls)
after_round go_on none = none
after_round go_on (some (t, cs)) =
    let rest = go_on t in if t.running then with_earlier cs rest else some (true, cs)

-- The loop, over what happens: whether it has ended, and the calls made.
unfoldable pub run : List Happening → SocketIoThread → Option (Bool × Calls)
run [] t = some (false, [])
run (asked q ∷ hs) t = run hs (ask q t)
run (closed ∷ hs) t = run hs (close t)
run (woken r ∷ hs) t = after_round (run hs) (run_round r t)
