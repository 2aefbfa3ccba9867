-- ===== src/Session/Sender/Bytes.antt =====
-- The bytes that a sender still has to send, and what its operations do to them.
use cpp_iocplib.Base.{
  drop_all, sym, refl, [], length-append, leb→le, drop-append_ge, ◌-◌, leb, inr, ==_iff,
  length-drop, inl, ◌==◌, sub32, drop-append_le, Bool-cases, take_all, arith, map, ap, ◌^◌, length,
  append_assoc, ◌<◌, take, ◌++◌, ◌≤◌, drop, ◌∷◌, List, ℕ, ◌≡◌,
}
use cpp_iocplib.Wire.{SocketBuffer, get_buffer_size}
use cpp_iocplib.Session.Sender.{SessionSender, WsaBuf, whole_buf, wsabufs, settle}

abbrev pub bytes_of : List SocketBuffer → List ℕ
bytes_of [] = []
bytes_of (b ∷ bs) = b.bytes ++ bytes_of bs

-- What has been handed over, or is to be, and is not acknowledged yet.
abbrev pub in_flight : SessionSender → List ℕ
in_flight s = drop s.sending_offset (bytes_of s.sending_packets)

abbrev pub unsent : SessionSender → List ℕ
unsent s = in_flight s ++ bytes_of s.send_queue

-- The bytes that a vector of buffers names.
abbrev pub named : List WsaBuf → List ℕ
named [] = []
named (b ∷ bs) = take b.len b.buf ++ named bs

-- The offset lies inside the front packet.
abbrev pub OffsetFits : List SocketBuffer → ℕ → Type 0
OffsetFits [] offset = offset ≡ 0
OffsetFits (b ∷ bs) offset = offset < length b.bytes

abbrev pub AllSized : List SocketBuffer → Type 0
AllSized [] = Unit {0}
AllSized (b ∷ bs) = (0 < length b.bytes) × (length b.bytes < 2 ^ 32) × AllSized bs

pub record IsValid (s : SessionSender) : Type 0 where
  pub queue_sized : AllSized s.send_queue
  pub sending_sized : AllSized s.sending_packets
  pub offset_fits : OffsetFits s.sending_packets s.sending_offset

pub bytes_of-append : (xs ys : List SocketBuffer) → bytes_of (xs ++ ys) ≡ bytes_of xs ++ bytes_of ys
bytes_of-append [] ys = refl
bytes_of-append (b ∷ xs) ys = rw (bytes_of-append xs ys, append_assoc)

pub AllSized-append : (xs ys : List SocketBuffer) → AllSized xs → AllSized ys → AllSized (xs ++ ys)
AllSized-append [] ys hx hy = hy
AllSized-append (b ∷ xs) ys hx hy = (hx.0, hx.1, AllSized-append xs ys hx.2 hy)

-- The loop of `OnSend` takes off exactly the bytes transferred, and leaves an offset inside the
-- front packet.
pub settle_lem :
    (n : ℕ) (bs : List SocketBuffer)
    → AllSized bs
    → n ≤ length (bytes_of bs)
    → let (offset, left) = settle n bs in
      (drop offset (bytes_of left) ≡ drop n (bytes_of bs)) × OffsetFits left offset × AllSized left
unfolding settle get_buffer_size
settle_lem n [] a h = (sym (drop_all n [] (omega arith)), refl, tt)
settle_lem n (b ∷ bs) a h = elim (Bool-cases (n == 0)) [
  | inl none_ ↦
      let z : n ≡ 0 = (==_iff n 0).0 none_ in
      rw none_ (ap (λ k. drop k (b.bytes ++ bytes_of bs)) (sym z), a.0, a)
  | inr some_ ↦ elim (Bool-cases (leb (length b.bytes) n)) [
    | inl whole ↦
        let past : drop n (b.bytes ++ bytes_of bs) ≡ drop (n - length b.bytes) (bytes_of bs) =
          drop-append_ge n b.bytes (bytes_of bs) (leb→le _ _ whole) in
        rw (some_, whole, past)
          (settle_lem (n - length b.bytes) bs a.2
            (omega (arith, length-append b.bytes (bytes_of bs), leb→le _ _ whole)))
    | inr part ↦ rw (some_, part) (refl, ground arith, a)
  ]
]

named-map : (bs : List SocketBuffer) → named (map whole_buf bs) ≡ bytes_of bs
unfolding get_buffer_size
named-map [] = refl
named-map (b ∷ bs) = rw (take_all (length b.bytes) b.bytes (omega arith), named-map bs)

-- The buffers that `BeginSend` makes name the bytes from the offset on, in order.
pub named-wsabufs :
    (bs : List SocketBuffer) (offset : ℕ)
    → AllSized bs
    → OffsetFits bs offset
    → named (wsabufs bs offset) ≡ drop offset (bytes_of bs)
unfolding wsabufs get_buffer_size
named-wsabufs [] offset a f = sym (drop_all offset [] (omega arith))
named-wsabufs (b ∷ bs) offset a f = rw (
  drop-append_le offset b.bytes (bytes_of bs) (omega arith),
  take_all (sub32 (length b.bytes) offset) (drop offset b.bytes)
      (omega (arith, length-drop offset b.bytes)),
  named-map bs,
)
