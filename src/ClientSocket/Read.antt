-- ===== src/ClientSocket/Read.antt =====
-- The rounds of `OnSocketRead`.
use cpp_iocplib.Base.{
  append-nil, ◌∙◌, ap, length, ◌++◌, List, ℕ, zero, suc, ◌≡◌, refl, [], some, true,
}
use cpp_iocplib.Packet.{PacketReceiver, clear, on_receive, is_complete, payload}
use cpp_iocplib.Packet.Valid.{gathered, IsValid, clear-IsValid, gathered-clear}
use cpp_iocplib.Packet.Frame.{frame, IsSendable, Took, on_receive-frame, payload-frame}
use cpp_iocplib.ClientSocket.{Reader, deliver, read_rounds}

module _ {S : Type 0} (on_packet : List ℕ → S → S) where
  pub read_once :
      (c : Reader S) (chunk : List ℕ) (n fuel : ℕ)
      → (on_receive c.packet_receiver chunk n).0 ≡ 0
      → read_rounds on_packet (suc fuel) c chunk n
        ≡ some (deliver on_packet (on_receive c.packet_receiver chunk n).1 c.state)
  unfolding read_rounds
  read_once c chunk n fuel z = rw z

  deliver_packet :
      (p : List ℕ) (r : PacketReceiver) (s : S)
      → (is_complete r ≡ true) × (payload r ≡ p)
      → deliver on_packet r s ≡ record { packet_receiver = clear r; state = on_packet p s }
  unfolding deliver
  deliver_packet p r s e = rw (e.0, e.1)

  -- A chunk that ends with its packet has it handed on, in one round, and the reader is ready for
  -- the next packet.
  pub read_last :
      (p bs chunk : List ℕ) (c : Reader S) (fuel : ℕ)
      → IsSendable p
      → IsValid c.packet_receiver
      → gathered c.packet_receiver ≡ bs
      → bs ++ chunk ≡ frame p
      → (c' : Reader S) × (read_rounds on_packet (suc fuel) c chunk (length chunk) ≡ some c')
        × IsValid c'.packet_receiver
        × (gathered c'.packet_receiver ≡ [])
        × (c'.state ≡ on_packet p c.state)
  read_last p bs chunk c fuel h v k e = (
    _,
    read_once c chunk (length chunk) fuel took.left
        ∙ ap some
            (deliver_packet p r' c.state (payload-frame p r' h took.valid (took.held ∙ whole))),
    clear-IsValid r',
    gathered-clear r',
    refl,
  )
    where
      r' : PacketReceiver
      r' = (on_receive c.packet_receiver chunk (length chunk)).1

      whole : gathered c.packet_receiver ++ chunk ≡ frame p
      whole = ap (λ ys. ys ++ chunk) k ∙ e

      took :
          Took c.packet_receiver
            (gathered c.packet_receiver ++ chunk)
            (on_receive c.packet_receiver chunk (length chunk))
      took =
          on_receive-frame p c.packet_receiver chunk [] h v
            (ap (λ ys. gathered c.packet_receiver ++ ys) (append-nil chunk) ∙ whole)

  -- The state after a packet has been handed on so many times.
  abbrev pub handed_times : ℕ → List ℕ → S → S
  handed_times zero p s = s
  handed_times (suc n) p s = handed_times n p (on_packet p s)
