-- ===== src/WinSock.antt =====
-- lib/winsocklib/win_sock.h: the calls of a socket that the sessions make, by the answer of the
-- system call below.
pub mod Laws
use cpp_iocplib.Base.{
  ◌%◌, ℕ, zero, suc, Bool, true, false, List, [], ◌∷◌, Option, none, some, ◌==◌, if◌then◌else◌,
}
use cpp_iocplib.WinError.{wsa_e_would_block}

-- `handle_`; `none` is `INVALID_SOCKET`.
pub record WinSock : Type 0 where
  pub handle : Option ℕ

-- What a call returns, or the code of the `WinSockException` that it throws.
pub data Result (A : Type 0) : Type 0 where
  done : A → Result A
  throws : ℕ → Result A

-- The answer of a system call: its value, or `SOCKET_ERROR` with the code of `WSAGetLastError`.
pub data Answer (A : Type 0) : Type 0 where
  answer : A → Answer A
  socket_error : ℕ → Answer A

-- The constructor.
unfoldable pub new : WinSock
new = record { handle = none }

-- `Create`, by what `socket` answers.
unfoldable pub create : Answer ℕ → WinSock → Result (Unit {0}) × WinSock
create (answer h) s = (done tt, record s { handle = some h })
create (socket_error e) s = (throws e, record s { handle = none })

-- `Bind`, `Listen`, `SetAccept`, `SetNonBlocking`, `SetRecvBufferSize` and `SetSendBufferSize` have one
-- shape: nothing, or an exception with the code.
unfoldable pub checked : Answer (Unit {0}) → Result (Unit {0})
checked (answer _) = done tt
checked (socket_error e) = throws e

-- `Connect`
unfoldable pub connect : Answer (Unit {0}) → Bool
connect (answer _) = true
connect (socket_error e) = e == wsa_e_would_block

-- `Close`, with `closesocket` on a world. `none` where the assertion fails.
unfoldable pub after_close : {W : Type 0} → WinSock → Answer (Unit {0}) × W → Option WinSock × W
after_close s (answer _, w) = (some (record s { handle = none }), w)
after_close s (socket_error e, w) = (none, w)

module _ {W : Type 0} (closesocket : ℕ → W → Answer (Unit {0}) × W) where
  unfoldable pub close_handle : WinSock → Option ℕ → W → Option WinSock × W
  close_handle s none w = (some s, w)
  close_handle s (some h) w = after_close s (closesocket h w)

  unfoldable pub close : WinSock → W → Option WinSock × W
  close s w = close_handle s s.handle w

-- `Send`: the count of bytes taken.
unfoldable pub send : Answer ℕ → Result ℕ
send (answer n) = done n
send (socket_error e) = if e == wsa_e_would_block then done 0 else throws e

-- `Recv`: the bytes read, none of them if the peer has closed; `none` stands for the result -1.
unfoldable pub recv : Answer (List ℕ) → Result (Option (List ℕ))
recv (answer bs) = done (some bs)
recv (socket_error e) = if e == wsa_e_would_block then done none else throws e

-- `SetNagleAlogrithm`, with the call of `setsockopt` for `TCP_NODELAY` and a value.
module _ {W : Type 0} (set_no_delay : ℕ → W → Answer (Unit {0}) × W) where
  unfoldable pub set_nagle_alogrithm : Bool → W → Result (Unit {0}) × W
  set_nagle_alogrithm activate w =
      let (a, w') = set_no_delay (if activate then 1 else 0) w in (checked a, w')

-- `Bind` and `Listen`, by what the system answers.
unfoldable pub bind : Answer (Unit {0}) → Result (Unit {0})
bind a = checked a

unfoldable pub listen : Answer (Unit {0}) → Result (Unit {0})
listen a = checked a

-- `SetAccept`
unfoldable pub set_accept : Answer (Unit {0}) → Result (Unit {0})
set_accept a = checked a

-- The other setters, each with its call: `ioctlsocket` for `FIONBIO`, and `setsockopt` for
-- `SO_RCVBUF` and `SO_SNDBUF`.
module _ {W : Type 0} (set : ℕ → W → Answer (Unit {0}) × W) where
  unfoldable pub set_non_blocking : Bool → W → Result (Unit {0}) × W
  set_non_blocking nonblocking w =
      let (a, w') = set (if nonblocking then 1 else 0) w in (checked a, w')

  unfoldable pub set_recv_buffer_size : ℕ → W → Result (Unit {0}) × W
  set_recv_buffer_size size w = let (a, w') = set size w in (checked a, w')

  unfoldable pub set_send_buffer_size : ℕ → W → Result (Unit {0}) × W
  set_send_buffer_size size w = let (a, w') = set size w in (checked a, w')

-- The constructor of `WinSockInitializer`: what `WSAStartup` returns, the version that it fills in,
-- and the code of `WSAGetLastError`.
unfoldable pub initialize : ℕ → ℕ → ℕ → Result (Unit {0})
initialize ret version error =
    if ret == 0 then (if version % 256 == 2 then done tt else throws error) else throws error
