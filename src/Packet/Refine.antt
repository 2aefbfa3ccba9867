-- ===== src/Packet/Refine.antt =====
-- What `OnReceive` does to the bytes gathered so far.
use cpp_iocplib.Base.{
  take-append-drop, ℕ, ◌+◌, ◌-◌, ◌≤◌, ◌≡◌, sym, ap, ◌∙◌, ◌⊎◌, inl, inr, List, [], ◌++◌, take, drop,
  length, length-take, drop_all, append_assoc, arith,
}
use cpp_iocplib.Packet.{PacketReceiver, on_receive}
use cpp_iocplib.Packet.Valid.{
  gathered, first_packet, IsValid, FitsWord, Received, first_packet_prefix,
}
use cpp_iocplib.Packet.Parts.{receive_body-Received, receive_header-Received}

pub on_receive-Received :
    (r : PacketReceiver) (buffer : List ℕ) (received : ℕ)
    → IsValid r
    → received ≤ length buffer
    → FitsWord (gathered r ++ take received buffer)
    → Received r (take received buffer) (on_receive r buffer received)
unfolding on_receive
on_receive-Received r buffer received v k f =
    ground (
      arith,
      receive_body-Received r buffer received v,
      receive_header-Received r buffer received v,
    )

-- `OnReceive` against the stream: afterwards the receiver holds the first packet of what it held
-- before and the chunk, or all of it where that is shorter; what it left is the rest of the chunk.
-- It keeps the invariant. The length that the stream declares and 4 are together below 2 ^ 32.
pub on_receive-first_packet :
    (r : PacketReceiver) (buffer : List ℕ) (received : ℕ)
    → IsValid r
    → received ≤ length buffer
    → FitsWord (gathered r ++ take received buffer)
    → let (left, r') = on_receive r buffer received in
      let stream = gathered r ++ take received buffer in
      IsValid r'
      × (gathered r' ≡ first_packet stream)
      × (gathered r' ++ drop (received - left) (take received buffer) ≡ stream)
on_receive-first_packet r buffer received v k f = (
  d.valid,
  sym (ap first_packet (sym joined) ∙ first_packet_prefix r' rest d.valid (done d.rest)),
  joined,
)
  where
    chunk : List ℕ
    chunk = take received buffer

    left : ℕ
    left = (on_receive r buffer received).0

    r' : PacketReceiver
    r' = (on_receive r buffer received).1

    d : Received r chunk (on_receive r buffer received)
    d = on_receive-Received r buffer received v k f

    size : length chunk ≡ received
    size = omega (arith, length-take received buffer)

    rest : List ℕ
    rest = drop (received - left) chunk

    joined : gathered r' ++ rest ≡ gathered r ++ chunk
    joined =
        ap (λ bs. bs ++ rest) d.taken
        ∙ append_assoc (gathered r) (take (length chunk - left) chunk) rest
        ∙ ap (λ k. gathered r ++ (take (k - left) chunk ++ rest)) size
        ∙ ap (λ bs. gathered r ++ bs) (take-append-drop (received - left) chunk)

    done :
        (left ≡ 0) ⊎ (r'.offset ≡ r'.packet_length + 4)
        → (rest ≡ []) ⊎ (r'.offset ≡ r'.packet_length + 4)
    done (inl e) = inl (drop_all (received - left) chunk (omega (arith, size, e)))
    done (inr e) = inr e
