-- ===== src/Packet/Left.antt =====
-- How much of a chunk a call of `OnReceive` leaves.
use cpp_iocplib.Base.{◌⊎◌, false, ◌≤◌, ◌^◌, arith, ◌<◌, List, ℕ, ◌≡◌}
use cpp_iocplib.Packet.{
  PacketReceiver, append, read_length, receive_body, receive_header, on_receive, is_complete,
}

-- A call of `OnReceive` leaves fewer bytes than it was given, if it was given any and its packet was
-- not complete already.
receive_body-left :
    (r : PacketReceiver) (buffer : List ℕ) (received : ℕ)
    → r.offset < 2 ^ 32
    → ((receive_body r buffer received).0 ≤ received)
      × (is_complete r ≡ false → 0 < received → (receive_body r buffer received).0 < received)
unfolding receive_body is_complete
receive_body-left r buffer received w = (omega arith, λ c p. ground arith)

receive_header-left :
    (r : PacketReceiver) (buffer : List ℕ) (received : ℕ)
    → r.offset < 4
    → 0 < received
    → (receive_header r buffer received).0 < received
unfolding receive_header receive_body
receive_header-left r buffer received w p = ground arith

pub on_receive-left-le :
    (r : PacketReceiver) (buffer : List ℕ) (received : ℕ)
    → (on_receive r buffer received).0 ≤ received
unfolding on_receive receive_header receive_body
on_receive-left-le r buffer received = ground arith

-- The receivers from which a call takes something.
abbrev pub IsHungry : PacketReceiver → Type 0
IsHungry r = (r.offset < 2 ^ 32) × ((r.offset < 4) ⊎ (is_complete r ≡ false))

pub on_receive-left-lt :
    (r : PacketReceiver) (buffer : List ℕ) (received : ℕ)
    → IsHungry r
    → 0 < received
    → (on_receive r buffer received).0 < received
unfolding on_receive
on_receive-left-lt r buffer received h p =
    ground (arith, receive_body-left r buffer received, receive_header-left r buffer received)

offset-append-lt : (r : PacketReceiver) (bs : List ℕ) → (append r bs).offset < 2 ^ 32
unfolding append
offset-append-lt r bs = omega arith

offset-read_length : (r : PacketReceiver) → (read_length r).offset ≡ r.offset
unfolding read_length
offset-read_length r = ground arith

pub offset-on_receive-lt :
    (r : PacketReceiver) (buffer : List ℕ) (received : ℕ)
    → (on_receive r buffer received).1.offset < 2 ^ 32
unfolding on_receive receive_header receive_body
offset-on_receive-lt r buffer received = grind (arith, offset-append-lt, offset-read_length)
