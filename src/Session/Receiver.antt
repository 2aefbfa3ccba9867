-- ===== src/Session/Receiver.antt =====
-- `SessionReceiver` of lib/iocplib/src/socket_session.cpp. The world `W` is that of the socket and of
-- the session's virtual `OnReceivePacket`; what the calls do to it is a parameter.
pub mod Drain
pub mod Laws
pub mod System
pub mod Invariant
pub mod Progress
mod Tests
use cpp_iocplib.Base.{
  ℕ, zero, suc, Bool, true, false, List, [], ◌∷◌, Option, none, some, ◌==◌, if◌then◌else◌, not, ◌≡◌,
}
use cpp_iocplib.WinError.{
  error_success, wsa_io_pending, wsa_e_would_block, wsa_e_conn_reset, is_retryable,
}

-- The fields; `session` tells whether `session_` can be locked.
pub record SessionReceiver : Type 0 where
  pub session : Bool
  pub zero_byte_recv : Bool
  pub recv_error : ℕ

-- The constructor.
unfoldable pub new : SessionReceiver
new = record { session = false; zero_byte_recv = false; recv_error = 0 }

-- `OnAccept`, of a session that lives.
unfoldable pub on_accept : SessionReceiver → SessionReceiver
on_accept r = record r { session = true }

-- What `recv` returns: the bytes read, none of them if the peer has closed; or `SOCKET_ERROR`, with
-- the code of `WSAGetLastError`.
pub data RecvResult : Type 0 where
  read : List ℕ → RecvResult
  failed : ℕ → RecvResult

-- `kSocketBufferSize`
abbrev pub socket_buffer_size : ℕ
socket_buffer_size = 1460

-- What `WSARecv` returned, as the result of `BeginReceive`.
unfoldable pub receive_result : Option ℕ → ℕ
receive_result none = error_success
receive_result (some err) = if err == wsa_io_pending then error_success else err

module _ {W : Type 0} (recv : ℕ → W → RecvResult × W) (on_receive_packet : List ℕ → W → W) where
  -- A round of the loop of `OnReceive` by what `TryRecv` returned; the first argument goes on.
  unfoldable pub after_recv :
      (W → Option (ℕ × SessionReceiver × W))
      → SessionReceiver
      → RecvResult × W
      → Option (ℕ × SessionReceiver × W)
  after_recv go_on r (failed err, w) =
      some (if err == wsa_e_would_block then error_success else err, r, w)
  after_recv go_on r (read [], w) =
      some (error_success, record r { recv_error = wsa_e_conn_reset }, w)
  after_recv go_on r (read (b ∷ bs), w) = go_on (on_receive_packet (b ∷ bs) w)

  -- The loop, for at most so many calls of `TryRecv`; it returns `dwError`.
  unfoldable pub drain : ℕ → SessionReceiver → W → Option (ℕ × SessionReceiver × W)
  drain zero r w = none
  drain (suc fuel) r w = after_recv (drain fuel r) r (recv socket_buffer_size w)

module _ {W : Type 0} (wsa_recv : W → Option ℕ × W) where
  unfoldable pub begin_receive : SessionReceiver → W → ℕ × SessionReceiver × W
  begin_receive r w =
      let (result, w') = wsa_recv w in
      (receive_result result, record r { zero_byte_recv = true }, w')

  unfoldable pub on_error : ℕ → SessionReceiver → W → ℕ × SessionReceiver × W
  on_error error r w =
      if error == error_success
      then (error, r, w)
      else if is_retryable error
      then begin_receive r w
      else (error, record r { recv_error = error }, w)

  -- The two tests of `dwError` behind the loop of `OnReceive`.
  unfoldable pub rearm : ℕ × SessionReceiver × W → SessionReceiver × W
  rearm (error, r, w) =
      let (error', r', w') = if error == error_success then begin_receive r w else (error, r, w) in
      let (_, r'', w'') =
        if error' == error_success then (error', r', w') else on_error error' r' w' in
      (r'', w'')

  module _ (recv : ℕ → W → RecvResult × W) (on_receive_packet : List ℕ → W → W) where
    -- `OnReceive`; its `dwBytesTransferred` is not read.
    unfoldable pub on_receive : ℕ → ℕ → SessionReceiver → W → Option (SessionReceiver × W)
    on_receive fuel error r w =
        if error == error_success
        then (if r.zero_byte_recv
            then elim (drain recv on_receive_packet fuel (record r { zero_byte_recv = false }) w) [
              | none ↦ none
              | some out ↦ some (rearm out)
            ]
            else some (r, w))
        else (let (_, r', w') = on_error error r w in some (r', w'))
