-- ===== src/Session/Sender.antt =====
-- `SessionSender` of lib/iocplib/src/socket_session.cpp. What the system calls do is a parameter:
-- `wsa_send` and `post_completion` act on a world `W`, and return the error if they fail.
pub mod Bytes
pub mod System
pub mod Begin
pub mod Invariant
pub mod Stall
pub mod Split
mod Tests
use cpp_iocplib.Base.{
  ℕ, ◌-◌, ◌≡◌, Bool, true, false, List, [], ◌∷◌, ◌++◌, map, Option, none, some, drop, add32, sub32,
  leb, ◌==◌, if◌then◌else◌,
}
use cpp_iocplib.Wire.{SocketBuffer, allocate, get_buffer_size}
use cpp_iocplib.WinError.{error_success, wsa_io_pending, is_retryable}

-- The fields; `session` tells whether `session_` can be locked. The lists run from the front.
pub record SessionSender : Type 0 where
  pub session : Bool
  pub post_send_signal : Bool
  pub send_queue : List SocketBuffer
  pub sending_packets : List SocketBuffer
  pub sending_offset : ℕ
  pub send_error : ℕ

-- The constructor.
unfoldable pub new : SessionSender
new = record {
  session = false;
  post_send_signal = false;
  send_queue = [];
  sending_packets = [];
  sending_offset = 0;
  send_error = 0;
}

-- `OnAccept`, of a session that lives.
unfoldable pub on_accept : SessionSender → SessionSender
on_accept s = record s { session = true }

-- A `WSABUF`: what can be read at its pointer, and its length.
pub record WsaBuf : Type 0 where
  pub buf : List ℕ
  pub len : ℕ

abbrev pub whole_buf : SocketBuffer → WsaBuf
whole_buf b = record { buf = b.bytes; len = get_buffer_size b }

-- The vector that `BeginSend` makes of `sending_packets_`. The first begins at `sending_offset_`.
unfoldable pub wsabufs : List SocketBuffer → ℕ → List WsaBuf
wsabufs [] offset = []
wsabufs (b ∷ bs) offset =
    record { buf = drop offset b.bytes; len = sub32 (get_buffer_size b) offset } ∷ map whole_buf bs

-- The move of `send_queue_` behind `sending_packets_`.
unfoldable pub move_queue : SessionSender → SessionSender
move_queue s = record s { sending_packets = s.sending_packets ++ s.send_queue; send_queue = [] }

-- What `WSASend` returned, as the result of `BeginSend`.
unfoldable pub send_result : Option ℕ → ℕ
send_result none = error_success
send_result (some err) = if err == wsa_io_pending then error_success else err

abbrev pub is_empty : List SocketBuffer → Bool
is_empty [] = true
is_empty (_ ∷ _) = false

-- The loop of `OnSend`: how far into the front packet the bytes transferred reach, and the packets
-- that are left.
unfoldable pub settle : ℕ → List SocketBuffer → ℕ × List SocketBuffer
settle n [] = (0, [])
settle n (b ∷ bs) =
    let rest = settle (n - get_buffer_size b) bs in
    if n == 0 then (0, b ∷ bs) else if leb (get_buffer_size b) n then rest else (n, b ∷ bs)

-- The part of `OnSend` for an operation that has succeeded.
unfoldable pub acknowledge : ℕ → SessionSender → SessionSender
acknowledge transferred s =
    let (offset, left) = settle (add32 transferred s.sending_offset) s.sending_packets in
    record s { sending_packets = left; sending_offset = offset }

-- The end of `OnSend`.
unfoldable pub note_error : ℕ → SessionSender → SessionSender
note_error e s =
    if e == error_success then s else record s { send_error = e; post_send_signal = false }

module _ {W : Type 0} (wsa_send : List WsaBuf → W → Option ℕ × W) where
  unfoldable pub begin_send : SessionSender → W → ℕ × SessionSender × W
  begin_send s w =
      if is_empty s.send_queue
      then (error_success, record s { post_send_signal = false }, w)
      else (let s' = move_queue s in
          let (result, w') = wsa_send (wsabufs s'.sending_packets s'.sending_offset) w in
          (send_result result, s', w'))

  -- The `switch` behind the first `BeginSend` of `OnSend`.
  unfoldable pub retry_send : ℕ × SessionSender × W → ℕ × SessionSender × W
  retry_send (e, s, w) = if is_retryable e then begin_send s w else (e, s, w)

  unfoldable pub on_send : ℕ → ℕ → SessionSender → W → SessionSender × W
  on_send error transferred s w =
      let s' = if error == error_success then acknowledge transferred s else s in
      let (e, s'', w') = retry_send (begin_send s' w) in (note_error e s'', w')

module _ {W : Type 0} (post_completion : W → Option ℕ × W) where
  -- The third part is the code of the exception thrown, if one is.
  unfoldable pub post_signal : SessionSender → W → SessionSender × W × Option ℕ
  post_signal s w =
      if s.post_send_signal
      then (s, w, none)
      else (let (failure, w') = post_completion w in
          elim failure [
            | none ↦ (record s { post_send_signal = true }, w', none)
            | some code ↦ (s, w', some code)
          ])

  unfoldable pub send_async : List ℕ → ℕ → SessionSender → W → SessionSender × W × Option ℕ
  send_async source size s w =
      if s.session
      then post_signal (record s { send_queue = s.send_queue ++ allocate source size ∷ [] }) w
      else (s, w, none)
