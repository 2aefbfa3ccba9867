-- ===== src/Packet/Parts.antt =====
-- The two parts of `OnReceive`, the header's and the body's.
use cpp_iocplib.Base.{
  ℕ, ◌+◌, ◌-◌, ◌≤◌, ◌<◌, ◌≡◌, refl, sym, ap, ◌∙◌, ◌⊎◌, inl, inr, List, ◌++◌, take, drop, length,
  length-append, length-take, length-drop, take-append_ge, take-take_le, decode32-take,
  append_assoc, take_split, add32, sub32, decode32, decode32-append, arith, leb, ◌==◌, min,
  Bool-cases, ==_iff, ◌≢◌,
}
use cpp_iocplib.Packet.{PacketReceiver, append, read_length, receive_body, receive_header}
use cpp_iocplib.Packet.Valid.{
  gathered, IsValid, FitsWord, FitsWord-prefix, Received, append_lem, packet_length-append,
}

-- The part of a chunk that a call takes, by its count and as a rest.
taken_part :
    (n received : ℕ) (buffer : List ℕ)
    → n ≤ received
    → received ≤ length buffer
    → take (length (take received buffer) - (received - n)) (take received buffer) ≡ take n buffer
taken_part n received buffer h k =
    let e : length (take received buffer) - (received - n) ≡ n =
      omega (arith, length-take received buffer) in
    rw e (take-take_le n received buffer h)

append-Received :
    (r : PacketReceiver) (buffer : List ℕ) (n received : ℕ)
    → IsValid r
    → 4 ≤ r.offset
    → n ≤ received
    → received ≤ length buffer
    → r.offset + n ≤ r.packet_length + 4
    → (received - n ≡ 0) ⊎ (r.offset + n ≡ r.packet_length + 4)
    → Received r (take received buffer) (received - n, append r (take n buffer))
append-Received r buffer n received v h le k fit stop = record {
  valid = record {
    inside = put.1;
    starts = λ small. absurd (omega (arith, put.0, size));
    declared = λ _.
        packet_length-append r (take n buffer)
        ∙ v.declared h
        ∙ sym (decode32-append (gathered r) (take n buffer) long)
        ∙ ap decode32 (sym put.2);
    within = omega (arith, put.0, size, packet_length-append r (take n buffer));
    fits = omega (arith, packet_length-append r (take n buffer));
  };
  left = omega (arith, length-take received buffer);
  taken = put.2 ∙ ap (λ bs. gathered r ++ bs) (sym (taken_part n received buffer le k));
  rest = omega (arith, put.0, size, packet_length-append r (take n buffer));
}
  where
    size : length (take n buffer) ≡ n
    size = omega (arith, length-take n buffer)

    long : 4 ≤ length (gathered r)
    long = omega (arith, length-take r.offset r.bytes)

    put :
        ((append r (take n buffer)).offset ≡ r.offset + length (take n buffer))
        × ((append r (take n buffer)).offset ≤ length (append r (take n buffer)).bytes)
        × (gathered (append r (take n buffer)) ≡ gathered r ++ take n buffer)
    put = append_lem r (take n buffer) v.inside (omega (arith, size))

pub receive_body-Received :
    (r : PacketReceiver) (buffer : List ℕ) (received : ℕ)
    → IsValid r
    → 4 ≤ r.offset
    → received ≤ length buffer
    → Received r (take received buffer) (receive_body r buffer received)
unfolding receive_body
receive_body-Received r buffer received v h k =
    append-Received r buffer (min received (sub32 (add32 r.packet_length 4) r.offset)) received v h
      (omega arith) k (omega arith) (omega arith)

read_length-IsValid :
    (r : PacketReceiver)
    → r.offset ≤ 4
    → r.packet_length ≡ 0
    → r.offset ≤ length r.bytes
    → FitsWord (gathered r)
    → IsValid (read_length r)
unfolding read_length
read_length-IsValid r h z i f = elim (Bool-cases (leb 4 r.offset)) [
  | inl full ↦
      let e : r.offset ≡ 4 = ground arith in
      let d : decode32 (gathered r) ≡ decode32 r.bytes =
        decode32-take r.offset r.bytes (omega arith) i in
      rw full (record {
        inside = i;
        starts = λ small. absurd (omega arith);
        declared = λ _. sym d;
        within = omega arith;
        fits = rw (← d) f;
      })
  | inr short ↦ rw short (record {
    inside = i;
    starts = λ _. z;
    declared = λ long. absurd (ground arith);
    within = omega arith;
    fits = omega arith;
  })
]

-- A call that goes on where the first bytes of the chunk have been put.
extend-Received :
    (r r' : PacketReceiver) (xs ys : List ℕ) (out : ℕ × PacketReceiver)
    → gathered r' ≡ gathered r ++ xs
    → Received r' ys out
    → Received r (xs ++ ys) out
extend-Received r r' xs ys out e d = record {
  valid = d.valid;
  left = omega (arith, length-append xs ys);
  taken =
      d.taken
      ∙ ap (λ bs. bs ++ take (length ys - out.0) ys) e
      ∙ append_assoc (gathered r) xs (take (length ys - out.0) ys)
      ∙ ap (λ bs. gathered r ++ bs) (sym cut);
  rest = d.rest;
}
  where
    cut : take (length (xs ++ ys) - out.0) (xs ++ ys) ≡ xs ++ take (length ys - out.0) ys
    cut =
        take-append_ge (length (xs ++ ys) - out.0) xs ys (omega (arith, length-append xs ys))
        ∙ ap (λ k. xs ++ take k ys) (omega (arith, length-append xs ys))

-- The header's part alone.
record HeaderRead (r : PacketReceiver) (bs : List ℕ) (r' : PacketReceiver) : Type 0 where
  valid : IsValid r'
  moved : r'.offset ≡ r.offset + length bs
  put : gathered r' ≡ gathered r ++ bs

read_length-fields :
    (r : PacketReceiver)
    → ((read_length r).offset ≡ r.offset) × (gathered (read_length r) ≡ gathered r)
unfolding read_length
read_length-fields r = elim (Bool-cases (leb 4 r.offset)) [
  | inl full ↦ rw full (refl, refl)
  | inr short ↦ rw short (refl, refl)
]

read_length-HeaderRead :
    (r : PacketReceiver) (bs : List ℕ)
    → IsValid r
    → r.offset < 4
    → r.offset + length bs ≤ 4
    → FitsWord (gathered r ++ bs)
    → HeaderRead r bs (read_length (append r bs))
read_length-HeaderRead r bs v h k f = record {
  valid =
      read_length-IsValid (append r bs) (omega (arith, put.0))
        (packet_length-append r bs ∙ v.starts h) put.1 (rw put.2 f);
  moved = (read_length-fields (append r bs)).0 ∙ put.0;
  put = (read_length-fields (append r bs)).1 ∙ put.2;
}
  where
    put :
        ((append r bs).offset ≡ r.offset + length bs)
        × ((append r bs).offset ≤ length (append r bs).bytes)
        × (gathered (append r bs) ≡ gathered r ++ bs)
    put = append_lem r bs v.inside (omega arith)

pub receive_header-Received :
    (r : PacketReceiver) (buffer : List ℕ) (received : ℕ)
    → IsValid r
    → r.offset < 4
    → received ≤ length buffer
    → FitsWord (gathered r ++ take received buffer)
    → Received r (take received buffer) (receive_header r buffer received)
unfolding receive_header
receive_header-Received r buffer received v h k f = elim (Bool-cases ((received - n) == 0)) [
  | inl done ↦ rw done (stop ((==_iff (received - n) 0).0 done))
  | inr more ↦ rw more (go_on (λ e. cc ((==_iff (received - n) 0).1 e, more)))
]
  where
    n : ℕ
    n = min received (4 - r.offset)

    r' : PacketReceiver
    r' = read_length (append r (take n buffer))

    size : length (take n buffer) ≡ n
    size = omega (arith, length-take n buffer)

    halves : take received buffer ≡ take n buffer ++ take (received - n) (drop n buffer)
    halves = take_split n received buffer (omega arith)

    fits : FitsWord (gathered r ++ take n buffer)
    fits =
        FitsWord-prefix (gathered r ++ take n buffer) (take (received - n) (drop n buffer))
          (rw (append_assoc, ← halves) f)

    head : HeaderRead r (take n buffer) r'
    head = read_length-HeaderRead r (take n buffer) v h (omega (arith, size)) fits

    whole :
        take (length (take received buffer) - (received - n)) (take received buffer) ≡ take n buffer
    whole = taken_part n received buffer (omega arith) k

    stop : received - n ≡ 0 → Received r (take received buffer) (0, r')
    stop e = record {
      valid = head.valid;
      left = omega arith;
      taken = head.put ∙ ap (λ bs. gathered r ++ bs) (sym (rw e at whole));
      rest = inl refl;
    }

    go_on :
        received - n ≢ 0
        → Received r (take received buffer) (receive_body r' (drop n buffer) (received - n))
    go_on ne = rw halves (
        extend-Received r r' (take n buffer) (take (received - n) (drop n buffer)) _ head.put (
          receive_body-Received r' (drop n buffer) (received - n) head.valid
            (omega (arith, head.moved, size)) (omega (arith, length-drop n buffer))))
