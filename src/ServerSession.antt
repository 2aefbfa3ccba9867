-- ===== src/ServerSession.antt =====
-- examples/server/client_session.cpp: the server's `ClientSession`, which takes the packets out of
-- the chunks that a socket delivers and hands each one on.
pub mod Rounds
pub mod Stream
pub mod Replay
pub mod Handlers
pub mod Answers
pub mod Received
pub mod Crash
mod Tests
use cpp_iocplib.Base.{ℕ, zero, suc, Bool, true, false, List, Option, none, some, ltb, if◌then◌else◌}
use cpp_iocplib.Packet.{PacketReceiver, clear, on_receive, is_complete, payload}

-- The receiver, and the rest of the session, which only `OnPacket` changes.
pub record ClientSession (S : Type 0) : Type 0 where
  pub packet_receiver : PacketReceiver
  pub state : S

-- What one round of the loop does with what the receiver holds: the flag tells whether the round
-- leaves the loop by `break`.
module _ {S : Type 0} (verify : List ℕ → Bool) (on_packet : List ℕ → S → S) where
  pub deliver : PacketReceiver → S → Bool × ClientSession S
  deliver r s =
      if is_complete r
      then (if verify (payload r)
          then (false, record { packet_receiver = clear r; state = on_packet (payload r) s })
          else (true, record { packet_receiver = r; state = s }))
      else (false, record { packet_receiver = r; state = s })

  -- The `do … while` loop of `OnReceivePacket`, for at most so many rounds. Each round is given the
  -- same `buffer`.
  pub receive_rounds : ℕ → ClientSession S → List ℕ → ℕ → Option (ClientSession S)
  receive_rounds zero c buffer remain_length = none
  receive_rounds (suc fuel) c buffer remain_length =
      let (remain, r) = on_receive c.packet_receiver buffer remain_length in
      let (stop, c') = deliver r c.state in
      let again = receive_rounds fuel c' buffer remain in
      if stop then some c' else if ltb 0 remain then again else some c'

  -- `OnReceivePacket`, with rounds enough.
  pub on_receive_packet : ClientSession S → List ℕ → ℕ → Option (ClientSession S)
  on_receive_packet c buffer received = receive_rounds (suc (suc received)) c buffer received
