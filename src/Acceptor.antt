-- ===== src/Acceptor.antt =====
-- lib/iocplib/acceptor.h: the socket that listens, its accepts, and the sessions accepted.
pub mod Counts
pub mod Open
pub mod Opened
pub mod Closing
mod Tests
use cpp_iocplib.Base.{
  ℕ, Bool, true, false, List, [], ◌∷◌, ◌++◌, Option, none, some, ◌==◌, if◌then◌else◌,
}
use cpp_iocplib.WinSock
use cpp_iocplib.WinSock.{WinSock, Result, done, throws, Answer, checked}
use cpp_iocplib.Port
use cpp_iocplib.Port.{IoCompletionPort, attach, detach, wait_detached}
use cpp_iocplib.Session.Accept
use cpp_iocplib.Session.Accept.{SocketSession, Setup}

-- The members; `accept_sockets` holds the socket that each `AcceptSocket` got in `Open`: those that
-- replace them are what `on_complete_overlapped_io` returns. The port stays behind `Close`, which makes
-- its pointer null, so that only the first `Close` is modelled.
pub record Acceptor : Type 0 where
  pub port : IoCompletionPort
  pub listen_socket : WinSock
  pub opened : Bool
  pub accept_sockets : List SocketSession
  pub sockets : List SocketSession

-- The constructor.
unfoldable pub new : Acceptor
new = record {
  port = Port.new;
  listen_socket = WinSock.new;
  opened = false;
  accept_sockets = [];
  sockets = [];
}

-- `PostAccept`, by what `socket` answers: the session that waits for a connection. What `AcceptEx`
-- returns changes nothing.
unfoldable pub post_accept : Answer ℕ → Result SocketSession
post_accept made =
    let (r, socket) = WinSock.create made WinSock.new in
    elim r [ throws e ↦ throws e | done _ ↦ done (record Accept.new { socket = socket }) ]

-- The session is kept once its own `OnAccept` has returned.
unfoldable pub keep_session :
    Acceptor → Result (Unit {0}) × SocketSession × IoCompletionPort → Result (Unit {0}) × Acceptor
keep_session a (throws e, s, p) = (throws e, record a { port = p })
keep_session a (done _, s, p) = (done tt, record a { port = p; sockets = a.sockets ++ s ∷ [] })

-- `OnAccept`
unfoldable pub on_accept : ℕ → SocketSession → Setup → Acceptor → Result (Unit {0}) × Acceptor
on_accept error s setup a =
    if error == 0 then keep_session a (Accept.on_accept setup s a.port) else (done tt, a)

-- A completion of an accept, and what the system answers on the way: to `SetAccept`, to the session's
-- `OnAccept`, and to the `socket` of the next accept.
pub record Accepted : Type 0 where
  pub error : ℕ
  pub session : SocketSession
  pub updated : Answer (Unit {0})
  pub setup : Setup
  pub made : Answer ℕ

-- The `try` block of `OnCompleteOverlappedIO`; what is thrown in it is dropped.
unfoldable pub try_accept : Accepted → Acceptor → Acceptor
try_accept e a =
    let (_, a') = on_accept 0 e.session e.setup a in
    if e.error == 0 then elim (checked e.updated) [ throws _ ↦ a | done _ ↦ a' ] else a

-- `OnCompleteOverlappedIO`: the session that waits next, or what `PostAccept` throws.
unfoldable pub on_complete_overlapped_io : Accepted → Acceptor → Result SocketSession × Acceptor
on_complete_overlapped_io e a = (post_accept e.made, try_accept e a)

-- Completions one after another.
unfoldable pub accept_all : List Accepted → Acceptor → Acceptor
accept_all [] a = a
accept_all (e ∷ es) a = accept_all es (on_complete_overlapped_io e a).1

-- The end of `Close`, by how the socket's `Close` ends.
abbrev pub after_close : {W : Type 0} → Acceptor → Option WinSock × W → Option (Acceptor × W)
after_close a (none, w) = none
after_close a (some s, w) = some (record a { listen_socket = s; opened = false }, w)

-- What `Close` does behind the wait; the workers end as in Port/Workers.
unfoldable pub close_socket :
    {W : Type 0} → (ℕ → W → Answer (Unit {0}) × W) → Acceptor → W → Option (Acceptor × W)
close_socket closesocket a w = after_close a (WinSock.close closesocket a.listen_socket w)

-- `Close`, where the wait reads the count at most so many times; between two reads the other threads
-- may attach sockets. `none` also where an assertion fails.
module _ {W : Type 0} (closesocket : ℕ → W → Answer (Unit {0}) × W) where
  unfoldable pub wait_and_close : List ℕ → Acceptor → W → Option (Acceptor × W)
  wait_and_close others a w = elim (wait_detached others a.port) [
    | none ↦ none
    | some p ↦ close_socket closesocket (record a { port = p }) w
  ]

  unfoldable pub close : List ℕ → Acceptor → W → Option (Acceptor × W)
  close others a w =
      if a.opened
      then elim (detach a.port) [
        | none ↦ none
        | some p ↦ wait_and_close others (record a { port = p }) w
      ]
      else wait_and_close others a w
