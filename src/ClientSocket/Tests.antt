-- ===== src/ClientSocket/Tests.antt =====
-- The instances of the client's theorems.
use cpp_iocplib.Base.{
  encode32, Option, false, ◌+◌, true, take, min, ◌++◌, arith, length, List, ℕ, ◌≡◌, refl, [], ◌∷◌,
  none, some,
}
use cpp_iocplib.WinSock.{Result, done}
use cpp_iocplib.Packet.{new}
use cpp_iocplib.Packet.Valid.{new-IsValid, gathered}
use cpp_iocplib.IoThread.{request_unregister_socket, SocketIoThread}
use cpp_iocplib.WinSock
use cpp_iocplib.WinSock.{WinSock, Answer, answer}
use cpp_iocplib.ClientSocket.Connection.{Connection}
use cpp_iocplib.ServerSession.Stream.{Arrival, chunks_of}
use cpp_iocplib.ClientSocket.Stream.{Gathers, brings, nothing, on_socket_read_stream}
use cpp_iocplib.ClientSocket.{on_socket_read, Reader, Sender, send_rounds}
use cpp_iocplib.ClientSocket.Send.{Takes, Ends, send_rounds-Ends}

abbrev State : Type 0
State = List (List ℕ)

abbrev keep : List ℕ → State → State
keep p s = p ∷ s

abbrev fresh : Reader State
fresh = record { packet_receiver = new; state = [] }

new-gathered : gathered new ≡ []
unfolding new
new-gathered = refl

-- A socket that takes two bytes at a time; the world is what it has taken.
take_two : List ℕ → List ℕ → Result ℕ × List ℕ
take_two bs w = (done (min 2 (length bs)), w ++ take (min 2 (length bs)) bs)

take_two-Takes : (bs w : List ℕ) → Takes (λ w. w) bs w (take_two bs w)
unfolding take_two
take_two-Takes bs w = (omega arith, refl)

abbrev loaded : Sender
loaded = record {
  send_buffers = record { bytes = 1 ∷ 2 ∷ 3 ∷ [] } ∷ record { bytes = 4 ∷ [] } ∷ [];
  sending_size = 1;
}

send_rounds-Ends_example : Ends (λ w. w) loaded (1 ∷ []) (send_rounds take_two 4 loaded (1 ∷ []))
send_rounds-Ends_example =
    send_rounds-Ends (λ w. w) take_two take_two-Takes 4 loaded (1 ∷ []) (omega arith) (omega arith)

-- A thread that waits for the socket 5 of the session 7, and the connection of that session.
abbrev waiting : SocketIoThread
waiting = record {
  running = true;
  requests = [];
  notified = false;
  events = 1 ∷ 9 ∷ [];
  socket_map = (9, 7) ∷ [];
  event_map = (some 5, 9) ∷ [];
}

abbrev connection : Connection
connection = record {
  socket = record { handle = some 5 };
  io_thread = waiting;
  sender = record { send_buffers = []; sending_size = 0 };
}

abbrev closed : Connection
closed = record connection {
  socket = record { handle = none };
  io_thread = request_unregister_socket 7 waiting;
}

count_close : ℕ → ℕ → Answer (Unit {0}) × ℕ
count_close h w = (answer tt, w + 1)

-- A socket that holds chunks, and then nothing more for now.
next_chunk : ℕ → List (List ℕ) → Result (Option (List ℕ)) × List (List ℕ)
next_chunk n [] = (done none, [])
next_chunk n (x ∷ xs) = (done (some x), xs)

-- Two packets, the first cut inside its header.
abbrev arrivals : List Arrival
arrivals =
    record { packet = 7 ∷ []; first = 1 ∷ 0 ∷ []; others = (0 ∷ 0 ∷ 7 ∷ []) ∷ [] }
    ∷ record { packet = 5 ∷ []; first = 1 ∷ 0 ∷ 0 ∷ 0 ∷ 5 ∷ []; others = [] }
    ∷ []

on_socket_read_stream_example :
    (c' : Reader State) × (on_socket_read keep next_chunk 4 1 0 fresh (chunks_of arrivals)
      ≡ some (record { reader = c'; world = []; thrown = none }))
    × Gathers [] ((5 ∷ []) ∷ (7 ∷ []) ∷ []) c'
unfolding encode32 next_chunk
on_socket_read_stream_example =
    on_socket_read_stream keep next_chunk 0 arrivals [] fresh (chunks_of arrivals) [] 4
      ((omega arith, refl, (omega arith, tt), refl), ((omega arith, refl, tt, refl), tt))
      (record { valid = new-IsValid; held = new-gathered; state_is = refl })
      (brings 1 _ refl (brings 0 _ refl (brings 1 _ refl (nothing refl)))) (omega arith)
