-- ===== src/Packet/Frame.antt =====
-- A receiver that is given a framed payload piece by piece.
use cpp_iocplib.Base.{
  take-take_le, length-take, le→ltb, take_split, [], refl, take-drop, ltb→le, length-drop,
  decode32-append, ◌-◌, sym, length-append, append_assoc, inr, suc, decode32, take_all, inl, false,
  ◌∙◌, take, ltb, ◌^◌, ◌∷◌, ap, ◌≤◌, Bool-cases, ◌<◌, ◌+◌, ◌++◌, drop, decode32-encode32, true,
  arith, length, encode32, List, ℕ, ◌≡◌,
}
use cpp_iocplib.Packet.{PacketReceiver, on_receive, is_complete, payload}
use cpp_iocplib.Packet.Valid.{
  gathered, first_packet, IsValid, FitsWord, FitsWord-prefix, is_complete_iff, gathered-length,
}
use cpp_iocplib.Packet.Left.{on_receive-left-le}
use cpp_iocplib.Packet.Refine.{on_receive-first_packet}

-- The bytes that `SocketBuffer` makes of a payload.
abbrev pub frame : List ℕ → List ℕ
frame p = encode32 (length p) ++ p

-- A payload whose frame has a length below 2 ^ 32.
abbrev pub IsSendable : List ℕ → Type 0
IsSendable p = length p + 4 < 2 ^ 32

pub length-frame : (p : List ℕ) → length (frame p) ≡ length p + 4
unfolding encode32
length-frame p = omega arith

drop-frame : (p : List ℕ) → drop 4 (frame p) ≡ p
unfolding encode32
drop-frame p = refl

FitsWord-frame : (p : List ℕ) → IsSendable p → FitsWord (frame p)
FitsWord-frame p h = omega (arith, decode32-encode32 (length p) p)

-- A start of a frame is its own first packet.
first_packet-frame : (p s rest : List ℕ) → IsSendable p → s ++ rest ≡ frame p → first_packet s ≡ s
unfolding first_packet
first_packet-frame p s rest h e = elim (Bool-cases (ltb (length s) 4)) [
  | inl short ↦ rw short
  | inr long ↦
      let d : decode32 s ≡ length p =
        sym (decode32-append s rest (ltb→le _ _ long))
        ∙ ap decode32 e
        ∙ decode32-encode32 (length p) p (omega arith) in
      rw (long, d)
        (take_all (length p + 4) s
          (omega (arith, ap length e, length-append s rest, length-frame p)))
]

-- A receiver that has gathered a part of a frame takes the whole of a chunk of the rest.
pub record Took (r : PacketReceiver) (s : List ℕ) (out : ℕ × PacketReceiver) : Type 0 where
  pub valid : IsValid out.1
  pub left : out.0 ≡ 0
  pub held : gathered out.1 ≡ s

pub on_receive-frame :
    (p : List ℕ) (r : PacketReceiver) (chunk rest : List ℕ)
    → IsSendable p
    → IsValid r
    → gathered r ++ (chunk ++ rest) ≡ frame p
    → Took r (gathered r ++ chunk) (on_receive r chunk (length chunk))
on_receive-frame p r chunk rest h v e = record {
  valid = step.0;
  left = omega (
    arith,
    ap length (take_all (length chunk) chunk le_self),
    ap length step.2,
    ap length held,
    length-append (gathered out.1) (drop (length chunk - out.0) (take (length chunk) chunk)),
    length-drop (length chunk - out.0) (take (length chunk) chunk),
    on_receive-left-le r chunk (length chunk),
    ap length whole,
  );
  held = held;
}
  where
    out : ℕ × PacketReceiver
    out = on_receive r chunk (length chunk)

    le_self : length chunk ≤ length chunk
    le_self = omega arith

    whole : gathered r ++ take (length chunk) chunk ≡ gathered r ++ chunk
    whole = ap (λ bs. gathered r ++ bs) (take_all (length chunk) chunk le_self)

    split : (gathered r ++ take (length chunk) chunk) ++ rest ≡ frame p
    split = ap (λ bs. bs ++ rest) whole ∙ append_assoc (gathered r) chunk rest ∙ e

    fits : FitsWord (gathered r ++ take (length chunk) chunk)
    fits =
        FitsWord-prefix (gathered r ++ take (length chunk) chunk) rest
          (rw split (FitsWord-frame p h))

    step :
        IsValid out.1
        × (gathered out.1 ≡ first_packet (gathered r ++ take (length chunk) chunk))
        × (gathered out.1 ++ drop (length chunk - out.0) (take (length chunk) chunk)
            ≡ gathered r ++ take (length chunk) chunk)
    step = on_receive-first_packet r chunk (length chunk) v le_self fits

    held : gathered out.1 ≡ gathered r ++ chunk
    held = step.1 ∙ first_packet-frame p _ rest h split ∙ whole

-- Complete is the receiver that holds the whole frame, and it hands out the payload.
pub payload-frame :
    (p : List ℕ) (r : PacketReceiver)
    → IsSendable p
    → IsValid r
    → gathered r ≡ frame p
    → (is_complete r ≡ true) × (payload r ≡ p)
unfolding payload
payload-frame p r h v e =
    ((is_complete_iff r v).1 (omega (arith, size, declared)), rw declared (drop_header ∙ cut))
  where
    size : r.offset ≡ length p + 4
    size = omega (arith, gathered-length r v, ap length e, length-frame p)

    declared : r.packet_length ≡ length p
    declared =
        v.declared (omega (arith, size))
        ∙ ap decode32 e
        ∙ decode32-encode32 (length p) p (omega arith)

    drop_header : take (length p) (drop 4 r.bytes) ≡ drop 4 (gathered r)
    drop_header =
        take-drop (length p) 4 r.bytes ∙ ap (λ k. drop 4 (take k r.bytes)) (omega (arith, size))

    cut : drop 4 (gathered r) ≡ p
    cut = ap (drop 4) e ∙ drop-frame p

pub not_complete-frame :
    (p : List ℕ) (r : PacketReceiver) (x : ℕ) (rest : List ℕ)
    → IsSendable p
    → IsValid r
    → gathered r ++ x ∷ rest ≡ frame p
    → is_complete r ≡ false
not_complete-frame p r x rest h v e = elim (Bool-cases (is_complete r)) [
  | inl yes_ ↦ absurd (omega (arith, short, (is_complete_iff r v).0 yes_, declared yes_))
  | inr no_ ↦ no_
]
  where
    short : r.offset + suc (length rest) ≡ length p + 4
    short = omega (
      arith,
      gathered-length r v,
      ap length e,
      length-append (gathered r) (x ∷ rest),
      length-frame p,
    )

    declared : is_complete r ≡ true → r.packet_length ≡ length p
    declared c =
        let full : 4 ≤ r.offset = omega (arith, (is_complete_iff r v).0 c) in
        v.declared full
        ∙ sym (decode32-append (gathered r) (x ∷ rest) (omega (arith, gathered-length r v)))
        ∙ ap decode32 e
        ∙ decode32-encode32 (length p) p (omega arith)

-- A receiver that has gathered nothing, given a chunk that begins with a whole frame, takes that
-- frame and leaves what follows it.
pub on_receive-past :
    (p : List ℕ) (r : PacketReceiver) (buffer : List ℕ) (n : ℕ)
    → IsSendable p
    → IsValid r
    → gathered r ≡ []
    → n ≤ length buffer
    → length p + 4 ≤ n
    → take (length p + 4) buffer ≡ frame p
    → IsValid (on_receive r buffer n).1
      × (gathered (on_receive r buffer n).1 ≡ frame p)
      × ((on_receive r buffer n).0 + (length p + 4) ≡ n)
unfolding first_packet
on_receive-past p r buffer n h v g k fit start =
    (step.0, held, omega (arith, ap length step.2, ap length whole, ap length held, sizes))
  where
    out : ℕ × PacketReceiver
    out = on_receive r buffer n

    whole : gathered r ++ take n buffer ≡ take n buffer
    whole = ap (λ bs. bs ++ take n buffer) g

    parts : take n buffer ≡ frame p ++ take (n - (length p + 4)) (drop (length p + 4) buffer)
    parts =
        take_split (length p + 4) n buffer fit
        ∙ ap (λ bs. bs ++ take (n - (length p + 4)) (drop (length p + 4) buffer)) start

    declared : decode32 (take n buffer) ≡ length p
    declared =
        ap decode32 parts
        ∙ decode32-append (frame p) _ (omega (arith, length-frame p))
        ∙ decode32-encode32 (length p) p (omega arith)

    step :
        IsValid out.1
        × (gathered out.1 ≡ first_packet (gathered r ++ take n buffer))
        × (gathered out.1 ++ drop (n - out.0) (take n buffer) ≡ gathered r ++ take n buffer)
    step = on_receive-first_packet r buffer n v k (rw (whole, declared) h)

    long : ltb (length (take n buffer)) 4 ≡ false
    long = le→ltb _ _ (omega (arith, length-take n buffer))

    held : gathered out.1 ≡ frame p
    held =
        step.1
        ∙ ap first_packet whole
        ∙ rw (long, declared, take-take_le (length p + 4) n buffer fit) start

    sizes :
        (length (gathered out.1 ++ drop (n - out.0) (take n buffer))
          ≡ length (gathered out.1) + (length (take n buffer) - (n - out.0)))
        × (length (take n buffer) ≡ n)
        × (length (frame p) ≡ length p + 4)
        × (out.0 ≤ n)
    sizes = (
      omega (
        arith,
        length-append (gathered out.1) (drop (n - out.0) (take n buffer)),
        length-drop (n - out.0) (take n buffer),
      ),
      omega (arith, length-take n buffer),
      length-frame p,
      on_receive-left-le r buffer n,
    )
