-- ===== src/Session/Sender/Tests.antt =====
-- The instances of the sender's theorems.
use cpp_iocplib.Base.{
  ◌++◌, ◌+◌, ◌≤◌, ◌<◌, List, length, arith, Option, ℕ, ◌≡◌, refl, none, some, true, false, [], ◌∷◌,
}
use cpp_iocplib.WinError.{error_success, wsa_e_no_bufs}
use cpp_iocplib.Session.Sender.{SessionSender, WsaBuf, on_send, move_queue, acknowledge}
use cpp_iocplib.Session.Sender.Bytes.{IsValid, unsent}
use cpp_iocplib.Session.Sender.System.{System, start, after_send, Reach, here, next, sends_packet}
use cpp_iocplib.Session.Sender.Invariant.{Reach-sender}
use cpp_iocplib.Session.Sender.Split.{acknowledge-acknowledge}
use cpp_iocplib.Session.Sender.Stall.{partial_write_stalls, retry_sends_nothing}

all_succeed : ℕ → Option ℕ
all_succeed n = none

abbrev two_sent : System
two_sent =
    after_send all_succeed all_succeed (after_send all_succeed all_succeed start (7 ∷ [])) (8 ∷ [])

two_sent-Reach : Reach all_succeed all_succeed start two_sent
two_sent-Reach =
    next (next here (sends_packet (7 ∷ []) (omega arith))) (sends_packet (8 ∷ []) (omega arith))

Reach-sender_example :
    (length two_sent.kernel.pending ≤ 1)
    × (two_sent.sender.post_send_signal ≡ false → two_sent.kernel.pending ≡ [])
    × (two_sent.acknowledged ++ unsent two_sent.sender ≡ two_sent.accepted)
Reach-sender_example = Reach-sender all_succeed all_succeed two_sent-Reach

abbrev writing : SessionSender
writing = record {
  session = true;
  post_send_signal = true;
  send_queue = [];
  sending_packets = record { bytes = 1 ∷ 0 ∷ 0 ∷ 0 ∷ 7 ∷ [] } ∷ [];
  sending_offset = 0;
  send_error = 0;
}

-- A system that counts the writes, and refuses them for want of buffers.
refuse : List WsaBuf → ℕ → Option ℕ × ℕ
refuse bufs w = (some wsa_e_no_bufs, w + 1)

writing-IsValid : IsValid writing
writing-IsValid = record {
  queue_sized = tt;
  sending_sized = (omega arith, omega arith, tt);
  offset_fits = omega arith;
}

partial_write_stalls_example :
    let (s', w') = on_send refuse error_success 2 writing 0 in
    (w' ≡ 0)
    × (s'.post_send_signal ≡ false)
    × (unsent s' ≡ 0 ∷ 0 ∷ 7 ∷ [])
    × (0 < length (unsent s'))
partial_write_stalls_example =
    partial_write_stalls refuse 2 writing 0 writing-IsValid (omega arith) (omega arith) refl

abbrev queued : SessionSender
queued = record writing { send_queue = record { bytes = 1 ∷ 0 ∷ 0 ∷ 0 ∷ 8 ∷ [] } ∷ [] }

retry_sends_nothing_example :
    on_send refuse error_success 0 queued 0
    ≡ (record (move_queue (acknowledge 0 queued)) { post_send_signal = false }, 1)
unfolding refuse
retry_sends_nothing_example = retry_sends_nothing refuse 0 wsa_e_no_bufs queued 0 1 refl refl refl

acknowledge-acknowledge_example : acknowledge 3 (acknowledge 2 writing) ≡ acknowledge 5 writing
acknowledge-acknowledge_example = acknowledge-acknowledge 2 3 writing (omega arith)
