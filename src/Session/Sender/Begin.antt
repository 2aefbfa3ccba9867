-- ===== src/Session/Sender/Begin.antt =====
-- What `BeginSend` and the end of `OnSend` leave behind in the system.
use cpp_iocplib.Base.{
  ==_iff, ◌==◌, take-append-drop, drop-drop, append_assoc, sym, append-nil, length-drop, Bool-cases,
  add32, take, ◌^◌, ◌<◌, drop-append_le, length-append, ◌+◌, ◌∙◌, arith, ◌++◌, ◌⊎◌, ◌≢◌, drop,
  length, Option, ◌≤◌, ap, List, Bool, ℕ, ◌≡◌, refl, [], ◌∷◌, true, false, inl, inr,
}
use cpp_iocplib.Wire.{SocketBuffer}
use cpp_iocplib.Session.Sender.{
  is_retryable, note_error, retry_send, SessionSender, is_empty, settle, move_queue, send_result,
  acknowledge, begin_send,
}
use cpp_iocplib.Session.Sender.Bytes.{
  bytes_of, in_flight, unsent, OffsetFits, AllSized, IsValid, bytes_of-append, AllSized-append,
  settle_lem, named-wsabufs,
}
use cpp_iocplib.Session.Sender.System.{Operation, signal, write, Kernel, wsa_send}

-- No operation is pending and no signal is posted; or a signal is posted and exactly one operation
-- is pending, which if it is a write is that of the bytes in flight.
abbrev pub Outstanding : Bool → List Operation → List ℕ → Type 0
Outstanding false [] bs = Unit {0}
Outstanding true (signal ∷ []) bs = Unit {0}
Outstanding true (write w ∷ []) bs = w ≡ bs
Outstanding _ _ bs = ⊥

pub OffsetFits-append :
    (xs ys : List SocketBuffer) (offset : ℕ)
    → OffsetFits xs offset
    → AllSized ys
    → OffsetFits (xs ++ ys) offset
OffsetFits-append [] [] offset f a = f
OffsetFits-append [] (y ∷ ys) offset f a = omega arith
OffsetFits-append (x ∷ xs) ys offset f a = f

pub OffsetFits-le :
    (xs : List SocketBuffer) (offset : ℕ) → OffsetFits xs offset → offset ≤ length (bytes_of xs)
OffsetFits-le [] offset f = omega arith
OffsetFits-le (x ∷ xs) offset f = omega (arith, length-append x.bytes (bytes_of xs))

-- Moving the queue keeps the invariant and the bytes to send.
move_queue-in_flight : (s : SessionSender) → IsValid s → in_flight (move_queue s) ≡ unsent s
unfolding move_queue
move_queue-in_flight s v =
    ap (drop s.sending_offset) (bytes_of-append s.sending_packets s.send_queue)
    ∙ drop-append_le s.sending_offset (bytes_of s.sending_packets) (bytes_of s.send_queue)
        (OffsetFits-le s.sending_packets s.sending_offset v.offset_fits)

move_queue-IsValid : (s : SessionSender) → IsValid s → IsValid (move_queue s)
unfolding move_queue
move_queue-IsValid s v = record {
  queue_sized = tt;
  sending_sized = AllSized-append s.sending_packets s.send_queue v.sending_sized v.queue_sized;
  offset_fits =
      OffsetFits-append s.sending_packets s.send_queue s.sending_offset v.offset_fits v.queue_sized;
}

-- An acknowledgement of `n` bytes takes those off the front, and keeps the invariant.
pub acknowledge_lem :
    (n : ℕ) (s : SessionSender)
    → IsValid s
    → n ≤ length (in_flight s)
    → n + s.sending_offset < 2 ^ 32
    → IsValid (acknowledge n s) × (take n (in_flight s) ++ unsent (acknowledge n s) ≡ unsent s)
unfolding acknowledge
acknowledge_lem n s v h w = rw wide (
  record { queue_sized = v.queue_sized; sending_sized = settled.2; offset_fits = settled.1 },
  rw settled.0 joined,
)
  where
    open s use {sending_packets, sending_offset, send_queue}

    wide : add32 n sending_offset ≡ n + sending_offset
    wide = omega arith

    settled :
        let (offset, left) = settle (n + sending_offset) sending_packets in
        (drop offset (bytes_of left) ≡ drop (n + sending_offset) (bytes_of sending_packets))
        × OffsetFits left offset
        × AllSized left
    settled = settle_lem (n + sending_offset) sending_packets v.sending_sized (
        omega (
          arith,
          length-drop sending_offset (bytes_of sending_packets),
          OffsetFits-le sending_packets sending_offset v.offset_fits,
        ))

    joined :
        take n (in_flight s)
          ++ (drop (n + sending_offset) (bytes_of sending_packets) ++ bytes_of send_queue)
        ≡ unsent s
    joined =
        sym (append_assoc (take n (in_flight s)) _ (bytes_of send_queue))
        ∙ ap
            (λ k.
              (take n (in_flight s) ++ drop k (bytes_of sending_packets)) ++ bytes_of send_queue)
            (omega arith)
        ∙ ap (λ bs. (take n (in_flight s) ++ bs) ++ bytes_of send_queue)
            (sym (drop-drop n sending_offset (bytes_of sending_packets)))
        ∙ ap (λ bs. bs ++ bytes_of send_queue) (take-append-drop n (in_flight s))

is_empty→nil : (bs : List SocketBuffer) → is_empty bs ≡ true → bs ≡ []
is_empty→nil [] e = refl
is_empty→nil (b ∷ bs) e = cc

module _ (sends posts : ℕ → Option ℕ) where
  -- What `BeginSend` comes to when no operation is pending.
  record BeginSent (s : SessionSender) (out : ℕ × SessionSender × Kernel) : Type 0 where
    valid : IsValid out.1
    alive : out.1.session ≡ s.session
    bytes : unsent out.1 ≡ unsent s
    drained : out.1.send_queue ≡ []
    done : out.0 ≡ 0 → Outstanding out.1.post_send_signal out.2.pending (in_flight out.1)
    failed : out.0 ≢ 0 → out.2.pending ≡ []

  begin_send-BeginSent :
      (s : SessionSender) (k : Kernel)
      → IsValid s
      → (s.post_send_signal ≡ true) ⊎ (s.send_queue ≡ [])
      → k.pending ≡ []
      → BeginSent s (begin_send (wsa_send sends posts) s k)
  unfolding begin_send wsa_send move_queue
  begin_send-BeginSent s k v p e = elim (Bool-cases (is_empty s.send_queue)) [
    | inl idle ↦ rw idle (record {
      valid = record {
        queue_sized = v.queue_sized;
        sending_sized = v.sending_sized;
        offset_fits = v.offset_fits;
      };
      alive = refl;
      bytes = refl;
      drained = is_empty→nil s.send_queue idle;
      done = λ _. rw e tt;
      failed = λ ne. absurd (ne refl);
    })
    | inr busy ↦ rw busy (record {
      valid = move_queue-IsValid s v;
      alive = refl;
      bytes = append-nil (in_flight (move_queue s)) ∙ move_queue-in_flight s v;
      drained = refl;
      done = λ sent.
          rw ((==_iff _ 0).1 sent, e, posted p busy)
            (named-wsabufs (move_queue s).sending_packets s.sending_offset
              (move_queue-IsValid s v).sending_sized (move_queue-IsValid s v).offset_fits);
      failed = λ ne. rw (unequal ne, e);
    })
  ]
    where
      posted :
          (s.post_send_signal ≡ true) ⊎ (s.send_queue ≡ [])
          → is_empty s.send_queue ≡ false
          → s.post_send_signal ≡ true
      posted (inl yes_) busy = yes_
      posted (inr nil) busy = cc (ap is_empty nil)

      unequal : send_result (sends k.calls) ≢ 0 → (send_result (sends k.calls) == 0) ≡ false
      unequal ne = ground arith

  retry_send-BeginSent :
      (s : SessionSender) (out : ℕ × SessionSender × Kernel)
      → BeginSent s out
      → BeginSent s (retry_send (wsa_send sends posts) out)
  unfolding retry_send
  retry_send-BeginSent s (e, s', k) b = elim (Bool-cases (is_retryable e)) [
    | inl again ↦
        let b' = begin_send-BeginSent s' k b.valid (inr b.drained) (b.failed (nonzero e again)) in
        rw again (record {
          valid = b'.valid;
          alive = b'.alive ∙ b.alive;
          bytes = b'.bytes ∙ b.bytes;
          drained = b'.drained;
          done = b'.done;
          failed = b'.failed;
        })
    | inr enough ↦ rw enough b
  ]
    where
      nonzero : (e : ℕ) → is_retryable e ≡ true → e ≢ 0
      nonzero e r z = ground arith

  -- What `OnSend` leaves, of a sender whose bytes have been acknowledged already.
  pub record Sent (s : SessionSender) (out : SessionSender × Kernel) : Type 0 where
    pub valid : IsValid out.0
    pub alive : out.0.session ≡ s.session
    pub bytes : unsent out.0 ≡ unsent s
    pub outstanding : Outstanding out.0.post_send_signal out.1.pending (in_flight out.0)

  note_error-Sent :
      (s : SessionSender) (out : ℕ × SessionSender × Kernel)
      → BeginSent s out
      → Sent s (note_error out.0 out.1, out.2)
  unfolding note_error
  note_error-Sent s (e, s', k) b = elim (Bool-cases (e == 0)) [
    | inl fine ↦ rw fine (record {
      valid = b.valid;
      alive = b.alive;
      bytes = b.bytes;
      outstanding = b.done ((==_iff e 0).0 fine);
    })
    | inr bad ↦ rw bad (record {
      valid = record {
        queue_sized = b.valid.queue_sized;
        sending_sized = b.valid.sending_sized;
        offset_fits = b.valid.offset_fits;
      };
      alive = b.alive;
      bytes = b.bytes;
      outstanding = rw (b.failed (λ z. cc ((==_iff e 0).1 z, bad))) tt;
    })
  ]

  pub send_again-Sent :
      (s : SessionSender) (k : Kernel)
      → IsValid s
      → s.post_send_signal ≡ true
      → k.pending ≡ []
      → let (e, s', k') =
          retry_send (wsa_send sends posts) (begin_send (wsa_send sends posts) s k) in
        Sent s (note_error e s', k')
  send_again-Sent s k v p e =
      note_error-Sent s _ (retry_send-BeginSent s _ (begin_send-BeginSent s k v (inl p) e))
