-- ===== src/Packet/Complete.antt =====
-- `OnReceive` of a receiver whose packet is complete.
use cpp_iocplib.Base.{
  inr, ◌-◌, sym, decode32-append, ◌++◌, arith, decode32, ap, take, ◌∙◌, length, take-drop, true,
  drop, ◌+◌, List, ℕ, ◌≡◌,
}
use cpp_iocplib.Packet.{PacketReceiver, on_receive, is_complete, payload}
use cpp_iocplib.Packet.Valid.{
  gathered, first_packet, first_packet_prefix, IsValid, is_complete_iff, gathered-length,
}
use cpp_iocplib.Packet.Refine.{on_receive-first_packet}

-- The payload of a complete packet is what was gathered behind the header.
payload-gathered :
    (r : PacketReceiver) → r.offset ≡ r.packet_length + 4 → payload r ≡ drop 4 (gathered r)
unfolding payload
payload-gathered r e =
    take-drop r.packet_length 4 r.bytes ∙ ap (λ k. drop 4 (take k r.bytes)) (omega arith)

pub on_receive_complete :
    (r : PacketReceiver) (chunk : List ℕ)
    → IsValid r
    → is_complete r ≡ true
    → let r' = (on_receive r chunk (length chunk)).1 in
      IsValid r' × (is_complete r' ≡ true) × (payload r' ≡ payload r)
on_receive_complete r chunk v c = (
  step.0,
  (is_complete_iff r' step.0).1 still,
  payload-gathered r' still ∙ ap (drop 4) same ∙ sym (payload-gathered r full),
)
  where
    r' : PacketReceiver
    r' = (on_receive r chunk (length chunk)).1

    full : r.offset ≡ r.packet_length + 4
    full = (is_complete_iff r v).0 c

    rest : List ℕ
    rest = take (length chunk) chunk

    declared : decode32 (gathered r ++ rest) ≡ r.packet_length
    declared =
        decode32-append (gathered r) rest (omega (arith, full, gathered-length r v))
        ∙ sym (v.declared (omega (arith, full)))

    step :
        IsValid r'
        × (gathered r' ≡ first_packet (gathered r ++ rest))
        × (gathered r' ++ drop (length chunk - (on_receive r chunk (length chunk)).0) rest
            ≡ gathered r ++ rest)
    step = on_receive-first_packet r chunk (length chunk) v (omega arith) (rw declared v.fits)

    same : gathered r' ≡ gathered r
    same = step.1 ∙ first_packet_prefix r rest v (inr full)

    moved : r'.offset ≡ r.offset
    moved = sym (gathered-length r' step.0) ∙ ap length same ∙ gathered-length r v

    still : r'.offset ≡ r'.packet_length + 4
    still =
        let e : r'.packet_length ≡ r.packet_length =
          step.0.declared (omega (arith, moved, full))
          ∙ ap decode32 same
          ∙ sym (v.declared (omega (arith, full))) in
        omega (arith, moved, full, e)
