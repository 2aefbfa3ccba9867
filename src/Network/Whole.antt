-- ===== src/Network/Whole.antt =====
-- A run of the two programs in which the system takes all that it is given at once.
pub mod Exchange
pub mod Completes
use cpp_iocplib.Base.{
  ℕ, zero, suc, ◌+◌, ◌^◌, ◌<◌, ◌≤◌, Bool, true, false, List, [], ◌∷◌, ◌++◌, take, drop, length, min,
  Option, none, some, ◌≡◌, refl, sym, ap, ◌∙◌, arith, append-nil, take_all, ltb, leb, ◌==◌,
  if◌then◌else◌, add32, inl, inr,
}
use cpp_iocplib.WinSock.{done}
use cpp_iocplib.Wire.{SocketBuffer, allocate, get_buffer_size}
use cpp_iocplib.Wire.Laws.{allocate-bytes}
use cpp_iocplib.Packet.Frame.{frame, IsSendable, length-frame}
use cpp_iocplib.ClientSocket.{Sender, Sending, send_rounds, send_packet}
use cpp_iocplib.ClientSocket
use cpp_iocplib.Session.Sender.{
  SessionSender, WsaBuf, acknowledge, settle, on_send, send_async, post_signal, begin_send,
  retry_send, note_error, move_queue, wsabufs, send_result,
}
use cpp_iocplib.Session.Sender.Bytes.{named, named-wsabufs}
use cpp_iocplib.Session.Sender.System.{
  System, Operation, signal, write, after_send, after_completion, wsa_send, post_completion,
}
use cpp_iocplib.Network.{Outgoing, send, send_request, NoThrow}

-- Every call of `send` takes all, and every call of `WSASend` succeeds.
abbrev pub take_whole : ℕ → ℕ
take_whole n = 2 ^ 32

abbrev pub succeeds : ℕ → Option ℕ
succeeds n = none

pub succeeds-NoThrow : (before after : Option System) → NoThrow succeeds before after
succeeds-NoThrow none after = tt
succeeds-NoThrow (some σ) none = tt
succeeds-NoThrow (some σ) (some υ) = λ n l h. refl

-- A client that has written these bytes and has nothing to write.
abbrev pub all_written : List ℕ → ℕ → Sending Outgoing
all_written bs k = record {
  sender = record { send_buffers = []; sending_size = 0 };
  world = record { calls = k; wire = bs };
  thrown = none;
}

rounds_empty :
    (fuel : ℕ) (bs : List ℕ) (k : ℕ)
    → 0 < fuel
    → send_rounds
        (send take_whole)
        fuel
        (record { send_buffers = []; sending_size = 0 })
        (record { calls = k; wire = bs })
      ≡ some (all_written bs k)
unfolding send_rounds
rounds_empty zero bs k h = absurd (omega arith)
rounds_empty (suc fuel) bs k h = refl

-- It writes a packet in one call.
pub send_whole :
    (p bs : List ℕ) (k : ℕ)
    → IsSendable p
    → send_request take_whole p (some (all_written bs k))
      ≡ some (all_written (bs ++ frame p) (suc k))
unfolding send_request send_packet send_rounds ClientSocket.after_send send get_buffer_size
send_whole p bs k h =
    rw (not_none, whole)
      (rounds_empty (0 + (length p + 4)) (bs ++ take n b.bytes) (suc k) (omega arith)
        ∙ ap (λ ys. some (all_written (bs ++ ys) (suc k)))
            (take_all n b.bytes (omega (arith, size)) ∙ allocate-bytes p h))
  where
    b : SocketBuffer
    b = allocate p (length p)

    n : ℕ
    n = min (2 ^ 32) (length b.bytes)

    size : length b.bytes ≡ length p + 4
    size = ap length (allocate-bytes p h) ∙ length-frame p

    not_none : n == 0 ≡ false
    not_none = ground (arith, size)

    whole : ltb (add32 0 n) (length b.bytes) ≡ false
    whole = ground (arith, size)

-- A server's sender that has nothing to send, and has had these bytes acknowledged.
abbrev pub all_sent : List ℕ → List ℕ → ℕ → ℕ → System
all_sent accepted acknowledged k e = record {
  sender = record {
    session = true;
    post_send_signal = false;
    send_queue = [];
    sending_packets = [];
    sending_offset = 0;
    send_error = e;
  };
  kernel = record { calls = k; pending = [] };
  accepted = accepted;
  acknowledged = acknowledged;
}

-- The same with a packet queued, and its signal posted.
abbrev pub queued : List ℕ → List ℕ → List ℕ → ℕ → ℕ → System
queued d accepted acknowledged k e = record {
  sender = record {
    session = true;
    post_send_signal = true;
    send_queue = allocate d (length d) ∷ [];
    sending_packets = [];
    sending_offset = 0;
    send_error = e;
  };
  kernel = record { calls = suc k; pending = signal ∷ [] };
  accepted = accepted ++ frame d;
  acknowledged = acknowledged;
}

pub send-queued :
    (d bs as_ : List ℕ) (k e : ℕ)
    → after_send succeeds succeeds (all_sent bs as_ k e) d ≡ queued d bs as_ k e
unfolding after_send send_async post_signal post_completion
send-queued d bs as_ k e = refl

-- The bytes of the operation that writes a packet.
abbrev pub packet_op : List ℕ → List ℕ
packet_op d = named (wsabufs (allocate d (length d) ∷ []) 0)

-- The packet under way.
abbrev pub writing : List ℕ → List ℕ → List ℕ → ℕ → ℕ → System
writing d accepted acknowledged k e = record {
  sender = record {
    session = true;
    post_send_signal = true;
    send_queue = [];
    sending_packets = allocate d (length d) ∷ [];
    sending_offset = 0;
    send_error = e;
  };
  kernel = record { calls = suc (suc k); pending = write (packet_op d) ∷ [] };
  accepted = accepted ++ frame d;
  acknowledged = acknowledged ++ [];
}

pub signal-writing :
    (d bs as_ : List ℕ) (k e : ℕ)
    → after_completion succeeds succeeds (queued d bs as_ k e) signal [] 0 0 ≡ writing d bs as_ k e
unfolding after_completion on_send acknowledge settle begin_send retry_send note_error move_queue
    wsa_send send_result
signal-writing d bs as_ k e = refl

pub packet_op_lem : (d : List ℕ) → IsSendable d → packet_op d ≡ frame d
packet_op_lem d h =
    named-wsabufs (allocate d (length d) ∷ []) 0 (omega (arith, size), omega (arith, size), tt)
      (omega (arith, size))
    ∙ append-nil (allocate d (length d)).bytes
    ∙ allocate-bytes d h
  where
    size : length (allocate d (length d)).bytes ≡ length d + 4
    size = ap length (allocate-bytes d h) ∙ length-frame d

-- A completion of all its bytes takes it off.
acknowledge_whole :
    (d bs as_ : List ℕ) (k e : ℕ)
    → IsSendable d
    → acknowledge (length (packet_op d)) (writing d bs as_ k e).sender
      ≡ record (writing d bs as_ k e).sender { sending_packets = []; sending_offset = 0 }
unfolding acknowledge settle get_buffer_size
acknowledge_whole d bs as_ k e h = rw (not_none, whole)
  where
    n : ℕ
    n = add32 (length (packet_op d)) 0

    size : length (allocate d (length d)).bytes ≡ length d + 4
    size = ap length (allocate-bytes d h) ∙ length-frame d

    same : length (packet_op d) ≡ length d + 4
    same = ap length (packet_op_lem d h) ∙ length-frame d

    not_none : n == 0 ≡ false
    not_none = ground (arith, same)

    whole : leb (length (allocate d (length d)).bytes) n ≡ true
    whole = ground (arith, size, same)

pub write-all_sent :
    (d bs as_ : List ℕ) (k e : ℕ)
    → IsSendable d
    → after_completion succeeds
        (λ _. none)
        (writing d bs as_ k e)
        (write (packet_op d))
        []
        0
        (length (packet_op d))
      ≡ all_sent
          (bs ++ frame d)
          ((as_ ++ []) ++ take (length (packet_op d)) (packet_op d))
          (suc (suc k))
          e
unfolding after_completion on_send begin_send retry_send note_error
write-all_sent d bs as_ k e h =
    ap
      (λ s.
        let σ = writing d bs as_ k e in
        let (error, s', k') =
          retry_send (wsa_send succeeds succeeds)
            (begin_send (wsa_send succeeds succeeds) s (record σ.kernel { pending = [] })) in
        record {
          sender = note_error error s';
          kernel = k';
          accepted = σ.accepted;
          acknowledged = σ.acknowledged ++ take (length (packet_op d)) (packet_op d);
        })
      (acknowledge_whole d bs as_ k e h)
