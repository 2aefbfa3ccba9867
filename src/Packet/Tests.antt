-- ===== src/Packet/Tests.antt =====
-- Tests of the receiver, and the instances of its theorems.
use cpp_iocplib.Base.{arith, ◌-◌, drop, ◌++◌, decode32, List, ℕ, ◌≡◌, refl, [], ◌∷◌, true}
use cpp_iocplib.Packet.{
  new, append, read_length, receive_body, receive_header, on_receive, is_complete, payload,
}
use cpp_iocplib.Packet.Valid.{new-IsValid, IsValid, gathered, first_packet}
use cpp_iocplib.Packet.Refine.{on_receive-first_packet}

-- A packet of two bytes, and the first byte of the next.
abbrev chunk : List ℕ
chunk = 2 ∷ 0 ∷ 0 ∷ 0 ∷ 7 ∷ 9 ∷ 1 ∷ []

takes_packet :
    let (left, r) = on_receive new chunk 7 in
    (left ≡ 1) × (is_complete r ≡ true) × (payload r ≡ 7 ∷ 9 ∷ [])
unfolding on_receive new receive_header receive_body append read_length is_complete payload decode32
takes_packet = (refl, refl, refl)

on_receive-first_packet_example :
    let (left, r) = on_receive new chunk 7 in
    IsValid r
    × (gathered r ≡ first_packet (gathered new ++ chunk))
    × (gathered r ++ drop (7 - left) chunk ≡ gathered new ++ chunk)
unfolding new decode32
on_receive-first_packet_example =
    on_receive-first_packet new chunk 7 new-IsValid (omega arith) (omega arith)
