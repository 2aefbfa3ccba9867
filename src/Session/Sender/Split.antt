-- ===== src/Session/Sender/Split.antt =====
-- Completions of `OnSend` that acknowledge the same bytes in different parts.
use cpp_iocplib.Base.{
  sym, ◌∙◌, ap, add32, ◌^◌, ◌<◌, ◌≤◌, ℕ, ◌+◌, ◌-◌, List, [], ◌∷◌, ◌≡◌, refl, arith,
}
use cpp_iocplib.Wire.{SocketBuffer, get_buffer_size}
use cpp_iocplib.Session.Sender.{acknowledge, SessionSender, settle}

settle-settle :
    (n m : ℕ) (bs : List SocketBuffer)
    → settle (m + (settle n bs).0) (settle n bs).1 ≡ settle (m + n) bs
unfolding settle
settle-settle n m [] = refl
settle-settle n m (b ∷ bs) = ground (arith, settle-settle (n - get_buffer_size b) m bs)

settle-le : (n : ℕ) (bs : List SocketBuffer) → (settle n bs).0 ≤ n
unfolding settle
settle-le n [] = omega arith
settle-le n (b ∷ bs) = ground (arith, settle-le (n - get_buffer_size b) bs)

abbrev with_settled : SessionSender → ℕ × List SocketBuffer → SessionSender
with_settled s (offset, left) = record s { sending_packets = left; sending_offset = offset }

acknowledge-settled :
    (n : ℕ) (s : SessionSender)
    → n + s.sending_offset < 2 ^ 32
    → acknowledge n s ≡ with_settled s (settle (n + s.sending_offset) s.sending_packets)
unfolding acknowledge
acknowledge-settled n s h =
    let exact : add32 n s.sending_offset ≡ n + s.sending_offset = omega arith in
    ap (λ k. with_settled s (settle k s.sending_packets)) exact

-- A completion of so many bytes does to the packets under way what two completions of its parts do,
-- one after the other: the offset and the packets left depend on the count in all alone. (The count
-- and the offset are together below 2 ^ 32.)
pub acknowledge-acknowledge :
    (n m : ℕ) (s : SessionSender)
    → m + (n + s.sending_offset) < 2 ^ 32
    → acknowledge m (acknowledge n s) ≡ acknowledge (m + n) s
acknowledge-acknowledge n m s h =
    let out = settle (n + s.sending_offset) s.sending_packets in
    let small = settle-le (n + s.sending_offset) s.sending_packets in
    let moved : m + (n + s.sending_offset) ≡ m + n + s.sending_offset = omega arith in
    ap (acknowledge m) (acknowledge-settled n s (omega arith))
    ∙ acknowledge-settled m (with_settled s out) (omega arith)
    ∙ ap (with_settled s) (settle-settle (n + s.sending_offset) m s.sending_packets)
    ∙ ap (λ k. with_settled s (settle k s.sending_packets)) moved
    ∙ sym (acknowledge-settled (m + n) s (omega arith))
