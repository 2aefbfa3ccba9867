-- ===== src/Packet/Valid.antt =====
-- The invariant of `PacketReceiver`, the bytes that it has gathered, and what `Append` does to them.
use cpp_iocplib.Base.{
  ℕ, ◌+◌, ◌-◌, ◌^◌, ◌≤◌, ◌<◌, ◌≡◌, refl, sym, ◌∙◌, ◌⊎◌, inl, inr, true, false, List, [], ◌∷◌, ◌++◌,
  take, length, replicate, length-append, length-take, length-replicate, length-overwrite,
  take-append_le, take-overwrite, take_all, add32, decode32, decode32-append, arith, ltb,
  if◌then◌else◌, Bool-cases, ◌↔◌, le→ltb, ltb→le, append-nil,
}
use cpp_iocplib.Packet.{PacketReceiver, new, clear, append, grow, is_complete}

-- The bytes of the packet that have arrived.
abbrev pub gathered : PacketReceiver → List ℕ
gathered r = take r.offset r.bytes

-- The first packet of a stream of bytes, or the whole stream where it is shorter.
unfoldable pub first_packet : List ℕ → List ℕ
first_packet s = if ltb (length s) 4 then s else take (decode32 s + 4) s

-- The receiver's invariant. What has arrived lies in the buffer; the length is 0 before its four
-- bytes are there, and theirs afterwards; no more has arrived than the packet holds.
pub record IsValid (r : PacketReceiver) : Type 0 where
  pub inside : r.offset ≤ length r.bytes
  pub starts : r.offset < 4 → r.packet_length ≡ 0
  pub declared : 4 ≤ r.offset → r.packet_length ≡ decode32 (gathered r)
  pub within : r.offset ≤ r.packet_length + 4
  pub fits : r.packet_length + 4 < 2 ^ 32

pub new-IsValid : IsValid new
unfolding new
new-IsValid = omega arith

pub clear-IsValid : (r : PacketReceiver) → IsValid (clear r)
unfolding clear
clear-IsValid r = omega arith

length-grow : (bs : List ℕ) (n : ℕ) → length (grow bs n) ≡ length bs + n
unfolding grow
length-grow bs n = ground (arith, length-append bs (replicate n 0), length-replicate {A = ℕ} n 0)

take-grow : (i : ℕ) (bs : List ℕ) (n : ℕ) → i ≤ length bs → take i (grow bs n) ≡ take i bs
unfolding grow
take-grow i bs n h = ground (arith, take-append_le i bs (replicate n 0) h)

pub packet_length-append :
    (r : PacketReceiver) (bs : List ℕ) → (append r bs).packet_length ≡ r.packet_length
unfolding append
packet_length-append r bs = refl

-- `Append` writes inside the buffer and puts the bytes behind those gathered before.
pub append_lem :
    (r : PacketReceiver) (bs : List ℕ)
    → r.offset ≤ length r.bytes
    → r.offset + length bs < 2 ^ 32
    → ((append r bs).offset ≡ r.offset + length bs)
      × ((append r bs).offset ≤ length (append r bs).bytes)
      × (gathered (append r bs) ≡ gathered r ++ bs)
unfolding append grow
append_lem r bs h small = (
  omega arith,
  omega (
    arith,
    length-overwrite (grow r.bytes (length bs)) r.offset bs,
    length-grow r.bytes (length bs),
  ),
  joined,
)
  where
    joined : gathered (append r bs) ≡ gathered r ++ bs
    joined =
        let e : add32 r.offset (length bs) ≡ r.offset + length bs = omega arith in
        rw (
          e,
          take-overwrite (grow r.bytes (length bs)) r.offset bs
              (omega (arith, length-grow r.bytes (length bs))),
          take-grow r.offset r.bytes (length bs) h,
        )

-- What one call of `OnReceive` comes to. It keeps the invariant; it takes a first part of the chunk
-- and puts it behind what was gathered; and it leaves something only of a chunk that goes on behind
-- the packet, which is then complete.
pub record Received (r : PacketReceiver) (chunk : List ℕ) (out : ℕ × PacketReceiver) : Type 0 where
  pub valid : IsValid out.1
  pub left : out.0 ≤ length chunk
  pub taken : gathered out.1 ≡ gathered r ++ take (length chunk - out.0) chunk
  pub rest : (out.0 ≡ 0) ⊎ (out.1.offset ≡ out.1.packet_length + 4)

-- The length that the packet declares, once it is there, and the header fit a `uint32_t`.
abbrev pub FitsWord : List ℕ → Type 0
FitsWord s = decode32 s + 4 < 2 ^ 32

pub FitsWord-prefix : (xs ys : List ℕ) → FitsWord (xs ++ ys) → FitsWord xs
unfolding decode32
FitsWord-prefix [] ys f = omega arith
FitsWord-prefix (a ∷ []) ys f = omega arith
FitsWord-prefix (a ∷ b ∷ []) ys f = omega arith
FitsWord-prefix (a ∷ b ∷ c ∷ []) ys f = omega arith
FitsWord-prefix (a ∷ b ∷ c ∷ d ∷ xs) ys f = f

pub gathered-length : (r : PacketReceiver) → IsValid r → length (gathered r) ≡ r.offset
gathered-length r v = omega (arith, length-take r.offset r.bytes)

gathered-first_packet : (r : PacketReceiver) → IsValid r → first_packet (gathered r) ≡ gathered r
unfolding first_packet
gathered-first_packet r v = elim (Bool-cases (ltb (length (gathered r)) 4)) [
  | inl short ↦ rw short
  | inr long ↦
      let size : length (gathered r) ≡ r.offset = gathered-length r v in
      let full : 4 ≤ r.offset = omega (arith, ltb→le _ _ long) in
      rw long (take_all (decode32 (gathered r) + 4) (gathered r) (omega (arith, v.declared full)))
]

-- Of a valid receiver the bytes gathered are a first packet, and the whole of it when complete.
pub first_packet_prefix :
    (r : PacketReceiver) (rest : List ℕ)
    → IsValid r
    → (rest ≡ []) ⊎ (r.offset ≡ r.packet_length + 4)
    → first_packet (gathered r ++ rest) ≡ gathered r
unfolding first_packet
first_packet_prefix r rest v (inl e) = rw (e, append-nil) (gathered-first_packet r v)
first_packet_prefix r rest v (inr e) =
    let size : length (gathered r) ≡ r.offset = gathered-length r v in
    let long : ltb (length (gathered r ++ rest)) 4 ≡ false =
      le→ltb _ _ (omega (arith, length-append (gathered r) rest)) in
    let declared : decode32 (gathered r ++ rest) ≡ r.packet_length =
      decode32-append (gathered r) rest (omega arith) ∙ sym (v.declared (omega arith)) in
    rw (long, declared, take-append_le (r.packet_length + 4) (gathered r) rest (omega arith))
      (take_all (r.packet_length + 4) (gathered r) (omega arith))

-- `IsComplete` tells whether the whole packet is there.
pub is_complete_iff :
    (r : PacketReceiver) → IsValid r → (is_complete r ≡ true) ↔ (r.offset ≡ r.packet_length + 4)
unfolding is_complete
is_complete_iff r v = (λ h. ground arith, λ e. ground arith)

pub gathered-clear : (r : PacketReceiver) → gathered (clear r) ≡ []
unfolding clear
gathered-clear r = refl
