-- ===== src/Network/Sent.antt =====
-- What the client's sender makes of a packet more, and of a writable socket.
use cpp_iocplib.Base.{
  ◌^◌, ℕ, suc, ◌+◌, ◌<◌, List, [], ◌∷◌, ◌++◌, drop, length, some, ◌≡◌, refl, sym, ap, ◌∙◌,
  append-nil, append_assoc, length-append, length-drop, drop-append_le, arith,
}
use cpp_iocplib.Wire.{allocate}
use cpp_iocplib.Wire.Laws.{allocate-bytes}
use cpp_iocplib.Packet.Frame.{frame, IsSendable, length-frame}
use cpp_iocplib.Session.Sender.Bytes.{bytes_of, bytes_of-append, AllSized-append}
use cpp_iocplib.Session.Sender.Begin.{OffsetFits-append, OffsetFits-le}
use cpp_iocplib.ClientSocket.{Sender, Sending, send_rounds, send_packet, on_socket_write}
use cpp_iocplib.ClientSocket.Send.{pending, IsValid, Takes, send_rounds-Ends}
use cpp_iocplib.Network.{Outgoing, send, send_request}

-- The sender is well formed, and what it has written and has still to write are these bytes.
pub record Writes (bs : List ℕ) (x : Sending Outgoing) : Type 0 where
  pub valid : IsValid x.sender
  pub bytes : x.world.wire ++ pending x.sender ≡ bs

send-Takes :
    (takes : ℕ → ℕ) (bs : List ℕ) (w : Outgoing) → Takes Outgoing.wire bs w (send takes bs w)
unfolding send
send-Takes takes bs w = (omega arith, refl)

module _ (takes : ℕ → ℕ) where
  -- The loop, with more calls than bytes.
  rounds-Writes :
      (fuel : ℕ) (c : Sender) (w : Outgoing) (bs : List ℕ)
      → IsValid c
      → length (bytes_of c.send_buffers) < fuel
      → w.wire ++ pending c ≡ bs
      → (y : Sending Outgoing) × (send_rounds (send takes) fuel c w ≡ some y) × Writes bs y
  rounds-Writes fuel c w bs v h e =
      let d =
        send_rounds-Ends Outgoing.wire (send takes) (send-Takes takes) fuel c w v
          (omega (arith, length-drop c.sending_size (bytes_of c.send_buffers))) in
      (d.out, d.returns, record { valid = d.valid; bytes = d.kept ∙ e })

  -- A packet put behind the others.
  abbrev queue : Sender → List ℕ → Sender
  queue c p = record c { send_buffers = c.send_buffers ++ allocate p (length p) ∷ [] }

  queue_lem :
      (c : Sender) (p : List ℕ)
      → IsSendable p
      → IsValid c
      → IsValid (queue c p) × (pending (queue c p) ≡ pending c ++ frame p)
  queue_lem c p h v = (
    (
      AllSized-append c.send_buffers (allocate p (length p) ∷ []) v.0 one,
      OffsetFits-append c.send_buffers _ c.sending_size v.1 one,
    ),
    ap (drop c.sending_size) (
          bytes_of-append c.send_buffers (allocate p (length p) ∷ [])
          ∙ ap (λ bs. bytes_of c.send_buffers ++ bs) (append-nil _ ∙ allocate-bytes p h))
        ∙ drop-append_le c.sending_size (bytes_of c.send_buffers) (frame p)
            (OffsetFits-le c.send_buffers c.sending_size v.1),
  )
    where
      size : length (allocate p (length p)).bytes ≡ length p + 4
      size = ap length (allocate-bytes p h) ∙ length-frame p

      one :
          (0 < length (allocate p (length p)).bytes)
          × (length (allocate p (length p)).bytes < 2 ^ 32)
          × Unit {0}
      one = (omega (arith, size), omega (arith, size), tt)

  -- A writable socket changes nothing about the bytes in all.
  pub on_socket_write-Writes :
      (x : Sending Outgoing) (bs : List ℕ)
      → Writes bs x
      → (y : Sending Outgoing) × (on_socket_write
            (send takes)
            (suc (length (bytes_of x.sender.send_buffers)))
            0
            x.sender
            x.world
          ≡ some y)
        × Writes bs y
  unfolding on_socket_write
  on_socket_write-Writes x bs s =
      rounds-Writes (suc (length (bytes_of x.sender.send_buffers))) x.sender x.world bs s.valid
        (omega arith) s.bytes

  -- A packet sent comes behind all bytes before it.
  pub send_request-Writes :
      (p : List ℕ) (x : Sending Outgoing) (bs : List ℕ)
      → IsSendable p
      → Writes bs x
      → (y : Sending Outgoing) × (send_request takes p (some x) ≡ some y) × Writes (bs ++ frame p) y
  unfolding send_request send_packet
  send_request-Writes p x bs h s =
      let (v, more) = queue_lem x.sender p h s.valid in
      rounds-Writes (suc (length (bytes_of x.sender.send_buffers) + (length p + 4)))
        (queue x.sender p) x.world (bs ++ frame p) v
        (omega (
          arith,
          ap length (bytes_of-append x.sender.send_buffers (allocate p (length p) ∷ [])),
          ap length (allocate-bytes p h),
          length-frame p,
          length-append (allocate p (length p)).bytes [],
          length-append (bytes_of x.sender.send_buffers) (bytes_of (allocate p (length p) ∷ [])),
        ))
        (ap (λ ys. x.world.wire ++ ys) more
          ∙ sym (append_assoc x.world.wire (pending x.sender) (frame p))
          ∙ ap (λ ys. ys ++ frame p) s.bytes)
