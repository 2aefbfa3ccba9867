-- ===== src/ClientSocket.antt =====
-- lib/winsocklib/client_socket.h: the client's side of a connection.
pub mod Read
pub mod Stream
pub mod Send
pub mod Connection
pub mod Closing
mod Tests
use cpp_iocplib.Base.{
  ℕ, zero, suc, ◌+◌, Bool, true, false, List, [], ◌∷◌, ◌++◌, Option, none, some, ltb, ◌==◌, drop,
  length, add32, if◌then◌else◌,
}
use cpp_iocplib.Wire.{SocketBuffer, allocate, get_buffer_size}
use cpp_iocplib.Packet.{PacketReceiver, clear, on_receive, is_complete, payload}
use cpp_iocplib.WinSock.{Result, done, throws}
use cpp_iocplib.Session.Receiver.{socket_buffer_size}

-- The receiver, and what the session's `OnPacket` changes.
pub record Reader (S : Type 0) : Type 0 where
  pub packet_receiver : PacketReceiver
  pub state : S

module _ {S : Type 0} (on_packet : List ℕ → S → S) where
  -- The part of the inner loop of `OnSocketRead` behind the call of `OnReceive`.
  unfoldable pub deliver : PacketReceiver → S → Reader S
  deliver r s =
      if is_complete r
      then record { packet_receiver = clear r; state = on_packet (payload r) s }
      else record { packet_receiver = r; state = s }

  -- The inner loop, for at most so many rounds. Each round is given the same `buffer` and the same
  -- `received`.
  unfoldable pub read_rounds : ℕ → Reader S → List ℕ → ℕ → Option (Reader S)
  read_rounds zero c buffer received = none
  read_rounds (suc fuel) c buffer received =
      let (remain, r) = on_receive c.packet_receiver buffer received in
      let c' = deliver r c.state in
      let again = read_rounds fuel c' buffer received in if ltb 0 remain then again else some c'

  -- `OnSocketRead` over the chunks that `Recv` returns before it returns a count that is not above
  -- 0, with so many rounds for each.
  unfoldable pub read_chunks : ℕ → Reader S → List (List ℕ) → Option (Reader S)
  read_chunks fuel c [] = some c
  read_chunks fuel c (x ∷ xs) = elim (read_rounds fuel c x (length x)) [
    | none ↦ none
    | some c' ↦ read_chunks fuel c' xs
  ]

-- How a call of `OnSocketRead` ends: it returns, or an exception of `Recv` passes through it.
pub record Reading (S W : Type 0) : Type 0 where
  pub reader : Reader S
  pub world : W
  pub thrown : Option ℕ

abbrev pub continue_with :
    {S W : Type 0}
    → (Reader S → W → Option (Reading S W))
    → Option (Reader S)
    → W
    → Option (Reading S W)
continue_with go_on none w = none
continue_with go_on (some c) w = go_on c w

module _ {S W : Type 0} (on_packet : List ℕ → S → S) where
  -- A round of the loop of `OnSocketRead` by what `Recv` returned, with so many rounds for the inner
  -- loop; the first argument goes on.
  unfoldable pub after_read :
      (Reader S → W → Option (Reading S W))
      → ℕ
      → Reader S
      → Result (Option (List ℕ)) × W
      → Option (Reading S W)
  after_read go_on rounds c (throws e, w) = some (record { reader = c; world = w; thrown = some e })
  after_read go_on rounds c (done none, w) = some (record { reader = c; world = w; thrown = none })
  after_read go_on rounds c (done (some []), w) =
      some (record { reader = c; world = w; thrown = none })
  after_read go_on rounds c (done (some (b ∷ bs)), w) =
      continue_with go_on (read_rounds on_packet rounds c (b ∷ bs) (length (b ∷ bs))) w

  module _ (recv : ℕ → W → Result (Option (List ℕ)) × W) where
    -- The loop, for at most so many calls of `Recv`. (`recv_offset_` stays 0.)
    unfoldable pub read_loop : ℕ → ℕ → Reader S → W → Option (Reading S W)
    read_loop zero rounds c w = none
    read_loop (suc calls) rounds c w =
        after_read (read_loop calls rounds) rounds c (recv socket_buffer_size w)

    unfoldable pub on_socket_read : ℕ → ℕ → ℕ → Reader S → W → Option (Reading S W)
    on_socket_read calls rounds error c w =
        if ltb 0 error
        then some (record { reader = c; world = w; thrown = none })
        else read_loop calls rounds c w

-- `send_buffers_` and `sending_size_`.
pub record Sender : Type 0 where
  pub send_buffers : List SocketBuffer
  pub sending_size : ℕ

-- How a call of `TrySendPacket` ends: it returns, or an exception of `Send` passes through it.
pub record Sending (W : Type 0) : Type 0 where
  pub sender : Sender
  pub world : W
  pub thrown : Option ℕ

module _ {W : Type 0} where
  -- A round of the loop of `TrySendPacket` by what `Send` returned; the first argument goes on.
  unfoldable pub after_send :
      (Sender → W → Option (Sending W))
      → Sender
      → SocketBuffer
      → List SocketBuffer
      → Result ℕ × W
      → Option (Sending W)
  after_send go_on c front others (throws e, w) =
      some (record { sender = c; world = w; thrown = some e })
  after_send go_on c front others (done n, w) =
      let more = go_on (record c { sending_size = add32 c.sending_size n }) w in
      let popped = go_on (record { send_buffers = others; sending_size = 0 }) w in
      if n == 0
      then some (record { sender = c; world = w; thrown = none })
      else if ltb (add32 c.sending_size n) (get_buffer_size front)
      then more
      else popped

module _ {W : Type 0} (send : List ℕ → W → Result ℕ × W) where
  -- The loop, for at most so many calls of `Send`. (The size passed to it is an `int`, which holds what
  -- is left of a buffer below 2 ^ 31 bytes.)
  unfoldable pub send_rounds : ℕ → Sender → W → Option (Sending W)
  send_rounds zero c w = none
  send_rounds (suc fuel) c w = elim c.send_buffers [
    | [] ↦ some (record { sender = c; world = w; thrown = none })
    | front ∷ others ↦
        after_send (send_rounds fuel) c front others (send (drop c.sending_size front.bytes) w)
  ]

  -- `SendPacket`: the packet goes behind the others, then the loop runs.
  unfoldable pub send_packet : ℕ → List ℕ → ℕ → Sender → W → Option (Sending W)
  send_packet fuel source size c w =
      send_rounds fuel (record c { send_buffers = c.send_buffers ++ allocate source size ∷ [] }) w

  -- `OnSocketWrite`, for at most so many calls of `Send`.
  unfoldable pub on_socket_write : ℕ → ℕ → Sender → W → Option (Sending W)
  on_socket_write fuel error c w =
      if ltb 0 error
      then some (record { sender = c; world = w; thrown = none })
      else send_rounds fuel c w
