-- ===== src/ClientSocket/Connection.antt =====
-- `Connect` and `Close` of lib/winsocklib/client_socket.h, with the socket and the I/O thread.
use cpp_iocplib.Base.{ℕ, Bool, Option, none, some}
use cpp_iocplib.WinSock
use cpp_iocplib.WinSock.{WinSock, Result, done, throws, Answer, checked, create}
use cpp_iocplib.IoThread.{SocketIoThread, request_register_socket, request_unregister_socket}
use cpp_iocplib.ClientSocket.{Sender}

-- `socket_`, `io_thread_` and the members of the sending side.
pub record Connection : Type 0 where
  pub socket : WinSock
  pub io_thread : SocketIoThread
  pub sender : Sender

-- `FD_READ | FD_WRITE | FD_CLOSE`
abbrev pub read_write_close : ℕ
read_write_close = 35

-- The part of `Connect` behind `SetNonBlocking`, by what `connect` answers.
unfoldable pub start : ℕ → Answer (Unit {0}) → Connection → Result Bool × Connection
start s connected c = (
  done (WinSock.connect connected),
  record c { io_thread = request_register_socket s read_write_close c.io_thread },
)

-- The part behind `Create`, by what `ioctlsocket` and `connect` answer.
unfoldable pub set_up :
    ℕ
    → Answer (Unit {0})
    → Answer (Unit {0})
    → Result (Unit {0}) × Connection
    → Result Bool × Connection
set_up s non_blocking connected (throws e, c) = (throws e, c)
set_up s non_blocking connected (done _, c) = elim (checked non_blocking) [
  | throws e ↦ (throws e, c)
  | done _ ↦ start s connected c
]

-- `Connect` of the session `s`, by what `socket`, `ioctlsocket` and `connect` answer.
unfoldable pub connect :
    ℕ → Answer ℕ → Answer (Unit {0}) → Answer (Unit {0}) → Connection → Result Bool × Connection
connect s made non_blocking connected c =
    let (r, socket) = create made c.socket in
    set_up s non_blocking connected (r, record c { socket = socket })

-- What `Close` of the socket makes of the rest.
abbrev pub with_socket : {W : Type 0} → Connection → Option WinSock × W → Option Connection × W
with_socket c (none, w) = (none, w)
with_socket c (some socket, w) = (some (record c { socket = socket }), w)

-- `Close` of the session `s`; `none` where the assertion of the socket's `Close` fails.
module _ {W : Type 0} (closesocket : ℕ → W → Answer (Unit {0}) × W) where
  unfoldable pub close : ℕ → Connection → W → Option Connection × W
  close s c w =
      let c' = record c {
        io_thread = request_unregister_socket s c.io_thread;
        sender = record c.sender { sending_size = 0 };
      } in
      with_socket c' (WinSock.close closesocket c.socket w)
