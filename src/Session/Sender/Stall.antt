-- ===== src/Session/Sender/Stall.antt =====
-- `OnSend` of lib/iocplib/src/socket_session.cpp for a write in part, and for its retry.
use cpp_iocplib.Base.{
  ◌-◌, drop-append_ge, length-drop, sym, append-nil, length-take, ◌++◌, ◌∙◌, take, ap, ◌≤◌, arith,
  drop, ◌^◌, ◌+◌, length, ◌<◌, Option, List, ℕ, ◌≡◌, refl, [], some, true, false,
}
use cpp_iocplib.WinError.{error_success, is_retryable}
use cpp_iocplib.Session.Sender.{
  SessionSender, WsaBuf, is_empty, wsabufs, move_queue, send_result, acknowledge, note_error,
  begin_send, retry_send, on_send,
}
use cpp_iocplib.Session.Sender.Bytes.{in_flight, unsent, IsValid, bytes_of}
use cpp_iocplib.Session.Sender.Begin.{acknowledge_lem}

retryable_result : (e : ℕ) → is_retryable e ≡ true → send_result (some e) ≡ e
unfolding send_result
retryable_result e r = ground arith

queue-acknowledge : (n : ℕ) (s : SessionSender) → (acknowledge n s).send_queue ≡ s.send_queue
unfolding acknowledge
queue-acknowledge n s = refl

queue-move_queue : (s : SessionSender) → is_empty (move_queue s).send_queue ≡ true
unfolding move_queue
queue-move_queue s = refl

drop_taken : (n : ℕ) (xs ys zs : List ℕ) → n ≤ length xs → take n xs ++ ys ≡ zs → ys ≡ drop n zs
drop_taken n xs ys zs h e =
    let size : length (take n xs) ≡ n = omega (arith, length-take n xs) in
    let none_left : n - length (take n xs) ≡ 0 = omega (arith, size) in
    sym (
      ap (drop n) (sym e)
      ∙ drop-append_ge n (take n xs) ys (omega (arith, size))
      ∙ ap (λ k. drop k ys) none_left)

module _ {W : Type 0} (wsa_send : List WsaBuf → W → Option ℕ × W) where
  begin_send_idle :
      (s : SessionSender) (w : W)
      → is_empty s.send_queue ≡ true
      → begin_send wsa_send s w ≡ (error_success, record s { post_send_signal = false }, w)
  unfolding begin_send
  begin_send_idle s w e = simp e

  begin_send_fails :
      (e : ℕ) (s : SessionSender) (w w' : W)
      → is_retryable e ≡ true
      → is_empty s.send_queue ≡ false
      → wsa_send (wsabufs (move_queue s).sending_packets (move_queue s).sending_offset) w
        ≡ (some e, w')
      → begin_send wsa_send s w ≡ (e, move_queue s, w')
  unfolding begin_send
  begin_send_fails e s w w' r busy fails = simp (busy, fails, retryable_result e r)

  -- A write that completes in part while the queue is empty: the rest is not handed to `WSASend`,
  -- which is not called, and the sender counts as idle.
  pub partial_write_stalls :
      (n : ℕ) (s : SessionSender) (w : W)
      → IsValid s
      → n < length (in_flight s)
      → n + s.sending_offset < 2 ^ 32
      → s.send_queue ≡ []
      → let (s', w') = on_send wsa_send error_success n s w in
        (w' ≡ w)
        × (s'.post_send_signal ≡ false)
        × (unsent s' ≡ drop n (in_flight s))
        × (0 < length (unsent s'))
  unfolding on_send retry_send note_error
  partial_write_stalls n s w v h fit idle =
      rw stops (refl, refl, rest, omega (arith, ap length rest, length-drop n (in_flight s)))
    where
      stops :
          begin_send wsa_send (acknowledge n s) w
          ≡ (error_success, record (acknowledge n s) { post_send_signal = false }, w)
      stops = begin_send_idle (acknowledge n s) w (ap is_empty (queue-acknowledge n s ∙ idle))

      rest : unsent (acknowledge n s) ≡ drop n (in_flight s)
      rest = drop_taken n (in_flight s) _ (in_flight s) (omega arith) (
          (acknowledge_lem n s v (omega arith) fit).1
          ∙ ap (λ q. in_flight s ++ bytes_of q) idle
          ∙ append-nil (in_flight s))

  -- The retry after one of the three errors finds the queue emptied by the first attempt: it calls
  -- `WSASend` no second time, reports no error, and the sender counts as idle.
  pub retry_sends_nothing :
      (n e : ℕ) (s : SessionSender) (w w' : W)
      → is_retryable e ≡ true
      → is_empty s.send_queue ≡ false
      → let s' = move_queue (acknowledge n s) in
        wsa_send (wsabufs s'.sending_packets s'.sending_offset) w ≡ (some e, w')
        → on_send wsa_send error_success n s w ≡ (record s' { post_send_signal = false }, w')
  unfolding on_send retry_send note_error
  retry_sends_nothing n e s w w' r busy fails = simp (first, r, second)
    where
      first : begin_send wsa_send (acknowledge n s) w ≡ (e, move_queue (acknowledge n s), w')
      first =
          begin_send_fails e (acknowledge n s) w w' r (ap is_empty (queue-acknowledge n s) ∙ busy)
            fails

      second :
          begin_send wsa_send (move_queue (acknowledge n s)) w'
          ≡ (error_success, record (move_queue (acknowledge n s)) { post_send_signal = false }, w')
      second =
          begin_send_idle (move_queue (acknowledge n s)) w' (queue-move_queue (acknowledge n s))
