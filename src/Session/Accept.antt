-- ===== src/Session/Accept.antt =====
-- `SocketSession` of lib/iocplib/src/socket_session.cpp: what it does when its connection is accepted,
-- and which of its parts a completion goes to.
use cpp_iocplib.Base.{ℕ, Bool, false, List, Option, none, some}
use cpp_iocplib.WinSock
use cpp_iocplib.WinSock.{WinSock, Result, done, throws, Answer, checked, set_nagle_alogrithm}
use cpp_iocplib.Port.{IoCompletionPort, Data, attach}
use cpp_iocplib.Session.Sender.{SessionSender, WsaBuf}
use cpp_iocplib.Session.Receiver.{SessionReceiver, RecvResult, begin_receive}
use cpp_iocplib.Session.Sender
use cpp_iocplib.Session.Receiver

-- The socket, `receiver_` and `sender_`.
pub record SocketSession : Type 0 where
  pub socket : WinSock
  pub receiver : SessionReceiver
  pub sender : SessionSender

-- The constructor.
unfoldable pub new : SocketSession
new = record { socket = WinSock.new; receiver = Receiver.new; sender = Sender.new }

-- What the system answers to `ioctlsocket`, `setsockopt`, `CreateIoCompletionPort` and `WSARecv`.
pub record Setup : Type 0 where
  pub non_blocking : Answer (Unit {0})
  pub no_delay : Answer (Unit {0})
  pub joined : Bool
  pub received : Option ℕ

-- The part of `OnAccept` that throws nothing. What `BeginReceive` returns is dropped.
unfoldable pub begin : Setup → SocketSession → SocketSession
begin a s =
    let (_, r, _) =
      begin_receive (λ (u : Unit {0}). (a.received, u)) (Receiver.on_accept s.receiver) tt in
    record s { receiver = r; sender = Sender.on_accept s.sender }

-- `OnAccept`, with the port that it attaches the socket to.
unfoldable pub on_accept :
    Setup → SocketSession → IoCompletionPort → Result (Unit {0}) × SocketSession × IoCompletionPort
on_accept a s p = elim (checked a.non_blocking) [
  | throws e ↦ (throws e, s, p)
  | done _ ↦ elim (set_nagle_alogrithm (λ n (u : Unit {0}). (a.no_delay, u)) false tt).0 [
    | throws e ↦ (throws e, s, p)
    | done _ ↦ (done tt, begin a s, attach a.joined p)
  ]
]

-- `OnCompleteOverlappedIO`, for at most so many reads of the receiver's socket.
module _ {W : Type 0} (wsa_send : List WsaBuf → W → Option ℕ × W) (wsa_recv : W → Option ℕ × W)
    (recv : ℕ → W → RecvResult × W) (on_receive_packet : List ℕ → W → W) where
  unfoldable pub on_complete_overlapped_io :
      ℕ → Data → ℕ → ℕ → SocketSession → W → Option (SocketSession × W)
  on_complete_overlapped_io fuel Data.recv error n s w =
      elim (Receiver.on_receive wsa_recv recv on_receive_packet fuel error s.receiver w) [
        | none ↦ none
        | some (r, w') ↦ some (record s { receiver = r }, w')
      ]
  on_complete_overlapped_io fuel Data.send error n s w =
      let (s', w') = Sender.on_send wsa_send error n s.sender w in
      some (record s { sender = s' }, w')
  on_complete_overlapped_io fuel (Data.obj x) error n s w = some (s, w)
