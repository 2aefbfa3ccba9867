-- ===== src/Network.antt =====
-- The two programs of examples/client and examples/server, over the byte streams of two connected
-- sockets: the client's reader and sender, the server's session with its `SessionSender`, and all the
-- ways in which the system can cut what is written and read.
pub mod Valid
pub mod Seen
pub mod Steps
pub mod Course
pub mod Whole
mod Tests
pub mod Turns
pub mod Sent
pub mod Streams
use cpp_iocplib.Base.{
  ℕ, suc, ◌+◌, ◌^◌, ◌≤◌, ◌<◌, List, [], ◌∷◌, ◌++◌, take, length, min, Option, none, some, ◌≡◌,
}
use cpp_iocplib.WinSock.{Result, done}
use cpp_iocplib.Packet
use cpp_iocplib.FlatBuffers.{FlatBuffers}
use cpp_iocplib.ClientSocket.{Sending, Reader, send_packet, on_socket_write, read_rounds}
use cpp_iocplib.ClientSession
use cpp_iocplib.ClientSession.{send_login_request}
use cpp_iocplib.Session.Sender.Bytes.{bytes_of}
use cpp_iocplib.Session.Sender.System.{System, Operation, bytes_in, after_send, after_completion}
use cpp_iocplib.Session.Sender.System
use cpp_iocplib.ServerSession.{ClientSession, on_receive_packet}
use cpp_iocplib.ServerSession.Handlers.{verify_payload, handle_payload}

-- How many calls of `send` the client has made, and the bytes that they took.
pub record Outgoing : Type 0 where
  pub calls : ℕ
  pub wire : List ℕ

-- The n-th call takes so many bytes of what it is given, or all if they are fewer; none of them if it
-- would block.
unfoldable pub send : (ℕ → ℕ) → List ℕ → Outgoing → Result ℕ × Outgoing
send takes bs w =
    let n = min (takes w.calls) (length bs) in
    (done n, record { calls = suc w.calls; wire = w.wire ++ take n bs })

-- The bytes of the operations that the server's sender has started.
abbrev pub started : List Operation → List ℕ
started [] = []
started (op ∷ ops) = bytes_in op ++ started ops

-- The client's reader, over its sender; the server's session, over its sender; the bytes that the
-- server has received, and those that the client has.
pub record Network : Type 0 where
  pub client : Reader (Option (Sending Outgoing))
  pub server : ClientSession (Option System)
  pub taken : List ℕ
  pub seen : List ℕ

-- A null pointer that has been dereferenced ends the client.
abbrev pub joined : Option (Option (Sending Outgoing)) → Option (Sending Outgoing)
joined none = none
joined (some x) = x

module _ (takes : ℕ → ℕ) where
  -- `SendPacket`, with calls of `send` enough.
  unfoldable pub send_request : List ℕ → Option (Sending Outgoing) → Option (Sending Outgoing)
  send_request p none = none
  send_request p (some x) =
      send_packet (send takes) (suc (length (bytes_of x.sender.send_buffers) + (length p + 4))) p
        (length p) x.sender x.world

module _ (fb : FlatBuffers) (takes : ℕ → ℕ) where
  -- The client's `OnPacket`.
  unfoldable pub on_result : List ℕ → Option (Sending Outgoing) → Option (Sending Outgoing)
  on_result p x = joined (ClientSession.on_packet fb (send_request takes) p x)

-- `SendAsync` of the server's session.
abbrev pub send_answer : (ℕ → Option ℕ) → (ℕ → Option ℕ) → List ℕ → System → System
send_answer sends posts p σ = after_send sends posts σ p

-- Of the calls that `OnReceivePacket` has made, which are those that post a signal, none has failed: so
-- `SendAsync` has thrown no exception, which would leave the worker's thread and end the program.
abbrev pub NoThrow : (ℕ → Option ℕ) → Option System → Option System → Type 0
NoThrow posts none after = Unit {0}
NoThrow posts (some σ) none = Unit {0}
NoThrow posts (some σ) (some υ) = (n : ℕ) → σ.kernel.calls ≤ n → n < υ.kernel.calls → posts n ≡ none

module _ (fb : FlatBuffers) (takes : ℕ → ℕ) (sends posts : ℕ → Option ℕ) where
  -- The client's `main` has asked for the login, on a connected socket.
  unfoldable pub start : List ℕ → List ℕ → Network
  start id password = record {
    client = record {
      packet_receiver = Packet.new;
      state = send_login_request fb (send_request takes) id password (
          some (record {
            sender = record { send_buffers = []; sending_size = 0 };
            world = record { calls = 0; wire = [] };
            thrown = none;
          }));
    };
    server = record { packet_receiver = Packet.new; state = some System.start };
    taken = [];
    seen = [];
  }

  -- A chunk of what the client has written reaches the server's `OnReceivePacket`, which throws no
  -- exception; a chunk of what the server has written, or is writing, reaches the client, and its inner
  -- loop runs for at most so many rounds; the client's socket becomes writable; an operation of the
  -- server's sender completes, with an error or with a count of its bytes, so that no less is
  -- acknowledged than the client has got.
  pub data Step (rounds : ℕ) (ν : Network) : Network → Type 0 where
    serves :
        (x : Sending Outgoing) (b : ℕ) (bs rest : List ℕ) (s : ClientSession (Option System))
        → ν.client.state ≡ some x
        → x.world.wire ≡ ν.taken ++ ((b ∷ bs) ++ rest)
        → on_receive_packet
            (verify_payload fb)
            (handle_payload fb (send_answer sends posts))
            ν.server
            (b ∷ bs)
            (length (b ∷ bs))
          ≡ some s
        → NoThrow posts ν.server.state s.state
        → Step rounds ν (record ν { server = s; taken = ν.taken ++ (b ∷ bs) })
    sees :
        (σ : System) (b : ℕ) (bs rest : List ℕ) (c : Reader (Option (Sending Outgoing)))
        → ν.server.state ≡ some σ
        → σ.acknowledged ++ started σ.kernel.pending ≡ ν.seen ++ ((b ∷ bs) ++ rest)
        → read_rounds (on_result fb takes) rounds ν.client (b ∷ bs) (length (b ∷ bs)) ≡ some c
        → Step rounds ν (record ν { client = c; seen = ν.seen ++ (b ∷ bs) })
    writes :
        (x y : Sending Outgoing)
        → ν.client.state ≡ some x
        → on_socket_write
            (send takes)
            (suc (length (bytes_of x.sender.send_buffers)))
            0
            x.sender
            x.world
          ≡ some y
        → Step rounds ν (record ν { client = record ν.client { state = some y } })
    completes :
        (σ : System) (op : Operation) (others : List Operation) (error n : ℕ) (rest : List ℕ)
        → ν.server.state ≡ some σ
        → σ.kernel.pending ≡ op ∷ others
        → n ≤ length (bytes_in op)
        → n + σ.sender.sending_offset < 2 ^ 32
        → (after_completion sends posts σ op others error n).acknowledged ≡ ν.seen ++ rest
        → Step rounds ν (record ν {
          server = record ν.server {
            state = some (after_completion sends posts σ op others error n);
          };
        })

  pub data Reach (rounds : ℕ) (ν : Network) : Network → Type 0 where
    here : Reach rounds ν ν
    next : {μ υ : Network} → Reach rounds ν μ → Step rounds μ υ → Reach rounds ν υ
