-- ===== src/Packet.antt =====
-- lib/iocplib/packet.h: `PacketReceiver` puts packets together from the chunks that a socket
-- delivers. A packet is four bytes of length and then so many bytes.
pub mod Valid
pub mod Left
pub mod Frame
pub mod Complete
mod Parts
pub mod Refine
mod Tests
use cpp_iocplib.Base.{
  ℕ, ◌+◌, ◌-◌, Bool, List, take, drop, length, replicate, ◌++◌, overwrite, add32, sub32, decode32,
  ltb, leb, ◌==◌, if◌then◌else◌, min,
}

abbrev pub default_buffer_size : ℕ
default_buffer_size = 512

abbrev pub packet_length_size : ℕ
packet_length_size = 4

-- The fields `length_`, `offset_` and `buffer_`. (`reserve` changes the capacity alone, which
-- nothing reads.)
pub record PacketReceiver : Type 0 where
  pub packet_length : ℕ
  pub offset : ℕ
  pub bytes : List ℕ

-- The constructor.
unfoldable pub new : PacketReceiver
new = record { packet_length = 0; offset = 0; bytes = replicate default_buffer_size 0 }

unfoldable pub clear : PacketReceiver → PacketReceiver
clear r = record r { packet_length = 0; offset = 0 }

-- `buffer_.resize` to a size that is not smaller.
grow : List ℕ → ℕ → List ℕ
grow bytes n = if ltb (length bytes) (length bytes + n) then bytes ++ replicate n 0 else bytes

-- `Append` of the bytes given, which are those that the caller's pointer and count name.
unfoldable pub append : PacketReceiver → List ℕ → PacketReceiver
unfolding grow
append r new_bytes = record r {
  offset = add32 r.offset (length new_bytes);
  bytes = overwrite (grow r.bytes (length new_bytes)) r.offset new_bytes;
}

-- The length is read once its four bytes are there.
unfoldable pub read_length : PacketReceiver → PacketReceiver
read_length r =
    if leb packet_length_size r.offset then record r { packet_length = decode32 r.bytes } else r

-- The last part of `OnReceive`: bytes of the packet itself. What is returned is the count of bytes
-- that were not taken.
unfoldable pub receive_body : PacketReceiver → List ℕ → ℕ → ℕ × PacketReceiver
receive_body r buffer received =
    let n = min received (sub32 (add32 r.packet_length packet_length_size) r.offset) in
    (received - n, append r (take n buffer))

-- The part under `offset_ < kPacketLengthSize`, with what follows it.
unfoldable pub receive_header : PacketReceiver → List ℕ → ℕ → ℕ × PacketReceiver
receive_header r buffer received =
    let n = min received (packet_length_size - r.offset) in
    let r' = read_length (append r (take n buffer)) in
    if (received - n) == 0 then (0, r') else receive_body r' (drop n buffer) (received - n)

-- `OnReceive` of `received` bytes at `buffer`; the list is what can be read there.
unfoldable pub on_receive : PacketReceiver → List ℕ → ℕ → ℕ × PacketReceiver
on_receive r buffer received =
    if ltb r.offset packet_length_size
    then receive_header r buffer received
    else receive_body r buffer received

unfoldable pub is_complete : PacketReceiver → Bool
is_complete r = add32 r.packet_length packet_length_size == r.offset

-- The `length()` bytes at `buffer()`.
unfoldable pub payload : PacketReceiver → List ℕ
payload r = take r.packet_length (drop packet_length_size r.bytes)
