-- ===== src/Acceptor/Open.antt =====
-- `Open` of lib/iocplib/acceptor.h.
use cpp_iocplib.Base.{ℕ, Bool, true, false, List, [], ◌∷◌, ◌++◌, Option, none, some}
use cpp_iocplib.WinSock
use cpp_iocplib.WinSock.{WinSock, Result, done, throws, Answer}
use cpp_iocplib.Port
use cpp_iocplib.Port.{IoCompletionPort, attach}
use cpp_iocplib.Session.Accept.{SocketSession}
use cpp_iocplib.Acceptor.{Acceptor, post_accept}

-- The count of I/O threads asked for, and what the system answers on the way: its processors, the
-- handle of the port, the answers to `socket`, `bind` and `listen`, whether the socket joins the
-- port, and the `socket` of each accept, one for each accept asked for.
pub record Opening : Type 0 where
  pub io_thread : ℕ
  pub processors : ℕ
  pub port_handle : Option ℕ
  pub made : Answer ℕ
  pub bound : Answer (Unit {0})
  pub listening : Answer (Unit {0})
  pub joined : Bool
  pub accepts : List (Answer ℕ)

-- The sockets that wait so far, and the exception of `PostAccept` if one ends the loop.
abbrev pub post_one :
    (List SocketSession → List SocketSession × Option ℕ)
    → List SocketSession
    → Result SocketSession
    → List SocketSession × Option ℕ
post_one go_on posted (throws e) = (posted, some e)
post_one go_on posted (done s) = go_on (posted ++ s ∷ [])

-- The loop over the accepts.
unfoldable pub post_all : List (Answer ℕ) → List SocketSession → List SocketSession × Option ℕ
post_all [] posted = (posted, none)
post_all (a ∷ accepts) posted = post_one (post_all accepts) posted (post_accept a)

-- The end of `Open`, by how the loop ends.
unfoldable pub finish_open : Acceptor → List SocketSession × Option ℕ → Result Bool × Acceptor
finish_open a (posted, some e) = (throws e, record a { accept_sockets = posted })
finish_open a (posted, none) = (done true, record a { accept_sockets = posted; opened = true })

-- The part of `Open` behind `Listen`.
unfoldable pub start_accepts : Opening → Acceptor → Result Bool × Acceptor
start_accepts o a =
    finish_open (record a { port = attach o.joined a.port }) (post_all o.accepts a.accept_sockets)

-- The part behind the port's `Create`, in its steps: the first that throws ends it.
unfoldable pub start_listening : Opening → Result (Unit {0}) → Acceptor → Result Bool × Acceptor
start_listening o (throws e) a = (throws e, a)
start_listening o (done _) a = elim (WinSock.bind o.bound) [
  | throws e ↦ (throws e, a)
  | done _ ↦ elim (WinSock.listen o.listening) [
    | throws e ↦ (throws e, a)
    | done _ ↦ start_accepts o a
  ]
]

unfoldable pub open_port : Opening → Bool × IoCompletionPort → Acceptor → Result Bool × Acceptor
open_port o (false, p) a = (done false, record a { port = p })
open_port o (true, p) a =
    let (r, socket) = WinSock.create o.made a.listen_socket in
    start_listening o r (record a { port = p; listen_socket = socket })

unfoldable pub open_acceptor : Opening → Acceptor → Result Bool × Acceptor
open_acceptor o a = open_port o (Port.create o.io_thread o.processors o.port_handle a.port) a
