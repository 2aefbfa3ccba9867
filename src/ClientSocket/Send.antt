-- ===== src/ClientSocket/Send.antt =====
-- The loop of `TrySendPacket`.
use cpp_iocplib.Base.{
  ltb→le, sym, append_assoc, drop-append_ge, take-append-drop, ◌-◌, drop-append_le, length-append,
  take-append_le, length-drop, drop-drop, ◌+◌, arith, ltb→lt, add32, ltb, append-nil, ==_iff, ◌==◌,
  Bool-cases, ap, ◌<◌, ◌∙◌, take, ◌++◌, length, Option, ◌≤◌, drop, List, ℕ, zero, suc, ◌≡◌, refl,
  [], ◌∷◌, none, some, false, inl, inr,
}
use cpp_iocplib.Wire.{SocketBuffer, get_buffer_size}
use cpp_iocplib.WinSock.{Result, done, throws}
use cpp_iocplib.Session.Sender.Bytes.{bytes_of, AllSized, OffsetFits}
use cpp_iocplib.ClientSocket.{Sender, Sending, after_send, send_rounds}

-- The bytes that the client still has to send.
abbrev pub pending : Sender → List ℕ
pending c = drop c.sending_size (bytes_of c.send_buffers)

-- What has been sent of the front packet is less than its bytes.
abbrev pub IsValid : Sender → Type 0
IsValid c = AllSized c.send_buffers × OffsetFits c.send_buffers c.sending_size

-- The part taken, and the part left, of the bytes from `k` on.
taken_then_left :
    (k n : ℕ) (front others : List ℕ)
    → k ≤ length front
    → n ≤ length (drop k front)
    → take n (drop k front) ++ drop (k + n) (front ++ others) ≡ drop k (front ++ others)
taken_then_left k n front others h t =
    rw
      (
        ← drop-drop n k (front ++ others),
        ← take-append_le n (drop k front) others t,
        ← drop-append_le k front others h,
      )
      (take-append-drop n (drop k (front ++ others)))

positive : {n : ℕ} → (n == 0) ≡ false → 0 < n
positive e = ground arith

OffsetFits-start : (bs : List SocketBuffer) → AllSized bs → OffsetFits bs 0
OffsetFits-start [] a = refl
OffsetFits-start (b ∷ bs) a = a.0

module _ {W : Type 0} (wire : W → List ℕ) where
  -- What `send` does with the bytes given: it takes a first part of them, or fails and takes none.
  abbrev pub Takes : List ℕ → W → Result ℕ × W → Type 0
  Takes bs w (done n, w') = (n ≤ length bs) × (wire w' ≡ wire w ++ take n bs)
  Takes bs w (throws e, w') = wire w' ≡ wire w

  -- A way in which the loop can end: the bytes on the wire and those to send are the same, in order.
  pub record Ends (c : Sender) (w : W) (result : Option (Sending W)) : Type 0 where
    pub out : Sending W
    pub returns : result ≡ some out
    pub valid : IsValid out.sender
    pub kept : wire out.world ++ pending out.sender ≡ wire w ++ pending c

  Ends-after :
      {c c' : Sender} {w w' : W} {result result' : Option (Sending W)}
      → result ≡ result'
      → wire w' ++ pending c' ≡ wire w ++ pending c
      → Ends c' w' result'
      → Ends c w result
  Ends-after e k d = record {
    out = d.out;
    returns = e ∙ d.returns;
    valid = d.valid;
    kept = d.kept ∙ k;
  }

  -- A round of the loop, if what goes on ends.
  round-Ends :
      (go_on : Sender → W → Option (Sending W)) (fuel : ℕ)
      → ((c' : Sender) (w' : W)
          → IsValid c'
          → length (pending c') < fuel
          → Ends c' w' (go_on c' w'))
      → (front : SocketBuffer) (others : List SocketBuffer) (k : ℕ) (w : W) (out : Result ℕ × W)
      → let c : Sender = record { send_buffers = front ∷ others; sending_size = k } in
        IsValid c
        → length (pending c) < suc fuel
        → Takes (drop k front.bytes) w out
        → Ends c w (after_send go_on c front others out)
  unfolding after_send get_buffer_size
  round-Ends go_on fuel ih front others k w (throws e, w') v h t = record {
    out = record {
      sender = record { send_buffers = front ∷ others; sending_size = k };
      world = w';
      thrown = some e;
    };
    returns = refl;
    valid = v;
    kept = ap (λ bs. bs ++ drop k (front.bytes ++ bytes_of others)) t;
  }
  round-Ends go_on fuel ih front others k w (done n, w') v h t = elim (Bool-cases (n == 0)) [
    | inl none_ ↦
        let z : n ≡ 0 = (==_iff n 0).0 none_ in
        rw none_ (record {
          out = record {
            sender = record { send_buffers = front ∷ others; sending_size = k };
            world = w';
            thrown = none;
          };
          returns = refl;
          valid = v;
          kept =
              ap (λ bs. bs ++ drop k (front.bytes ++ bytes_of others))
                (t.1 ∙ ap (λ m. wire w ++ take m (drop k front.bytes)) z ∙ append-nil (wire w));
        })
    | inr some_ ↦ elim (Bool-cases (ltb (add32 k n) (length front.bytes))) [
      | inl more ↦
          rw (some_, more)
            (Ends-after refl (kept_more t) (
              ih (record { send_buffers = front ∷ others; sending_size = add32 k n }) w'
                (v.0, ltb→lt _ _ more) (shorter (positive some_))))
      | inr popped ↦
          rw (some_, popped)
            (Ends-after refl
              (ap (λ bs. wire w' ++ bs) (sym (all_gone (ltb→le _ _ popped))) ∙ kept_more t)
              (ih (record { send_buffers = others; sending_size = 0 }) w'
                (v.0.2, OffsetFits-start others v.0.2)
                (rw (all_gone (ltb→le _ _ popped)) at (shorter (positive some_)))))
    ]
  ]
    where
      bytes : List ℕ
      bytes = front.bytes ++ bytes_of others

      wide : add32 k n ≡ k + n
      wide = omega (arith, t.0, length-drop k front.bytes)

      shorter : 0 < n → length (drop (add32 k n) bytes) < fuel
      shorter pos = omega (
        arith,
        wide,
        t.0,
        length-drop (add32 k n) bytes,
        length-drop k bytes,
        length-drop k front.bytes,
        length-append front.bytes (bytes_of others),
      )

      exact : add32 k n - length front.bytes ≡ 0
      exact = omega (arith, wide, t.0, length-drop k front.bytes)

      all_gone : length front.bytes ≤ add32 k n → drop (add32 k n) bytes ≡ bytes_of others
      all_gone p =
          drop-append_ge (add32 k n) front.bytes (bytes_of others) p
          ∙ ap (λ m. drop m (bytes_of others)) exact

      kept_more :
          (n ≤ length (drop k front.bytes)) × (wire w' ≡ wire w ++ take n (drop k front.bytes))
          → wire w' ++ drop (add32 k n) (front.bytes ++ bytes_of others)
            ≡ wire w ++ drop k (front.bytes ++ bytes_of others)
      kept_more t =
          ap (λ bs. bs ++ drop (add32 k n) (front.bytes ++ bytes_of others)) t.1
          ∙ append_assoc (wire w) (take n (drop k front.bytes)) _
          ∙ ap
              (λ m.
                wire w ++ (take n (drop k front.bytes) ++ drop m (front.bytes ++ bytes_of others)))
              wide
          ∙ ap (λ bs. wire w ++ bs)
              (taken_then_left k n front.bytes (bytes_of others) (omega arith) t.0)

  module _ (send : List ℕ → W → Result ℕ × W) where
    -- With more calls allowed than there are bytes to send the loop ends, if `send` takes a first
    -- part of what it is given or fails: then the bytes on the wire and those still to send are
    -- what they were before, none lost, doubled or out of order, and the sender's invariant holds.
    pub send_rounds-Ends :
        ((bs : List ℕ) (w : W) → Takes bs w (send bs w))
        → (fuel : ℕ) (c : Sender) (w : W) → IsValid c
        → length (pending c) < fuel
        → Ends c w (send_rounds send fuel c w)
    unfolding send_rounds
    send_rounds-Ends law zero c w v h = absurd (omega arith)
    send_rounds-Ends law (suc fuel) c w v h =
        by_buffers (send_rounds-Ends law fuel) c.send_buffers c.sending_size v h
      where
        by_buffers :
            ((c' : Sender) (w' : W)
              → IsValid c'
              → length (pending c') < fuel
              → Ends c' w' (send_rounds send fuel c' w'))
            → (bs : List SocketBuffer) (k : ℕ)
            → let d : Sender = record { send_buffers = bs; sending_size = k } in
              IsValid d → length (pending d) < suc fuel → Ends d w (send_rounds send (suc fuel) d w)
        by_buffers ih [] k v h = record {
          out = record {
            sender = record { send_buffers = []; sending_size = k };
            world = w;
            thrown = none;
          };
          returns = refl;
          valid = v;
          kept = refl;
        }
        by_buffers ih (front ∷ others) k v h =
            round-Ends (send_rounds send fuel) fuel ih front others k w _ v h
              (law (drop k front.bytes) w)
