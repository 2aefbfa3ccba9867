-- ===== src/Server.antt =====
-- lib/iocplib/server_base.h, and the `main` of examples/server/main.cpp, which runs it.
pub mod Stops
mod Tests
use cpp_iocplib.Base.{
  ℕ, Bool, true, false, List, [], ◌∷◌, Option, none, some, ◌==◌, ◌||◌, ◌^◌, ◌-◌, if◌then◌else◌,
}
use cpp_iocplib.WinSock.{Result, done, throws, Answer}
use cpp_iocplib.Acceptor.{Acceptor, Accepted, new, on_complete_overlapped_io}
use cpp_iocplib.Acceptor
use cpp_iocplib.Session.Accept.{SocketSession}
use cpp_iocplib.Acceptor.Open.{Opening, open_acceptor}

-- `Open` of `ServerBase` returns what the acceptor's returns; `Close` passes on.
unfoldable pub open_server : Opening → Acceptor → Result Bool × Acceptor
open_server o a = open_acceptor o a

-- The documented numbers of the two signals.
abbrev pub sigint : ℕ
sigint = 2

abbrev pub sigterm : ℕ
sigterm = 15

-- `SignalHandler`, on `g_running`.
unfoldable pub signal_handler : ℕ → Bool → Bool
signal_handler signo running =
    if signo == sigterm then false else if signo == sigint then false else running

-- What happens while `main` sleeps: a signal, or the completion of an accept.
pub data Event : Type 0 where
  signal : ℕ → Event
  accepted : Accepted → Event

-- An exception of the next accept's `PostAccept` leaves the worker's thread, and ends the program.
abbrev pub after_accept :
    (Acceptor → Result (Bool × Acceptor))
    → Result SocketSession × Acceptor
    → Result (Bool × Acceptor)
after_accept go_on (throws e, a) = throws e
after_accept go_on (done _, a) = go_on a

-- `Sleep` of `main`, over what happens while it lasts: `g_running` and the acceptor at its end.
unfoldable pub sleep : List Event → Bool → Acceptor → Result (Bool × Acceptor)
sleep [] running a = done (running, a)
sleep (signal n ∷ events) running a = sleep events (signal_handler n running) a
sleep (accepted e ∷ events) running a =
    after_accept (sleep events running) (on_complete_overlapped_io e a)

abbrev pub after_sleep :
    (Bool → Acceptor → Option (Result Acceptor))
    → Result (Bool × Acceptor)
    → Option (Result Acceptor)
after_sleep go_on (throws e) = some (throws e)
after_sleep go_on (done (running, a)) = go_on running a

-- The loop of `main`, over what happens in each `Sleep`: the acceptor when it ends, or `none` while it
-- goes on. `g_running` is looked at between two of them only.
unfoldable pub wait_for_stop : List (List Event) → Bool → Acceptor → Option (Result Acceptor)
wait_for_stop sleeps false a = some (done a)
wait_for_stop [] true a = none
wait_for_stop (events ∷ sleeps) true a = after_sleep (wait_for_stop sleeps) (sleep events true a)

-- -1 as a word.
abbrev pub failure : ℕ
failure = 2 ^ 32 - 1

module _ {W : Type 0} (closesocket : ℕ → W → Answer (Unit {0}) × W) where
  unfoldable pub close_server : List ℕ → Acceptor → W → Option (Acceptor × W)
  close_server others a w = Acceptor.close closesocket others a w

  -- The end of `main`: what it returns, once the server is closed.
  abbrev pub exit_code : Option (Acceptor × W) → Option (Result ℕ)
  exit_code none = none
  exit_code (some _) = some (done 0)

  abbrev pub close_after : List ℕ → W → Option (Result Acceptor) → Option (Result ℕ)
  close_after others w none = none
  close_after others w (some (throws e)) = some (throws e)
  close_after others w (some (done a)) = exit_code (close_server others a w)

  -- What follows `Open`, whose result is not looked at; an exception of it ends the program.
  unfoldable pub serve : List (List Event) → List ℕ → W → Result Bool × Acceptor → Option (Result ℕ)
  serve sleeps others w (throws e, a) = some (throws e)
  serve sleeps others w (done ok, a) = close_after others w (wait_for_stop sleeps true a)

  -- `main`, by whether the two handlers can be registered, the answers to `Open`, what happens
  -- in each `Sleep` behind it, and the sockets that other threads attach between two reads of the count in `Close`. `none` where
  -- it does not return.
  unfoldable pub main : Bool → Bool → Opening → List (List Event) → List ℕ → W → Option (Result ℕ)
  main term_ok int_ok o sleeps others w =
      if term_ok
      then (if int_ok then serve sleeps others w (open_server o new) else some (done failure))
      else some (done failure)
