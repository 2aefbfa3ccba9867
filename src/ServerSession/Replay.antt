-- ===== src/ServerSession/Replay.antt =====
-- What `OnReceivePacket` makes of a chunk that holds more than one packet, and of a packet that
-- fails the check of its content.
use cpp_iocplib.Base.{
  take_all, suc, take-append_le, ◌∙◌, length-append, arith, ap, take, some, ◌++◌, ◌≤◌, length, [],
  ◌+◌, true, false, Bool, List, ℕ, ◌≡◌,
}
use cpp_iocplib.Packet.{PacketReceiver, clear, on_receive, is_complete, payload}
use cpp_iocplib.Packet.Valid.{gathered, IsValid, clear-IsValid, gathered-clear}
use cpp_iocplib.Packet.Complete.{on_receive_complete}
use cpp_iocplib.Packet.Frame.{frame, IsSendable, on_receive-past, payload-frame, length-frame}
use cpp_iocplib.ServerSession.{ClientSession, receive_rounds, on_receive_packet}
use cpp_iocplib.ServerSession.Rounds.{
  Holds, after_round, round_end, round_again, round_stop, deliver_packet, deliver_refused,
}

module _ {S : Type 0} (verify : List ℕ → Bool) (on_packet : List ℕ → S → S) where
  -- One round over a chunk that begins with a whole frame.
  record Round (p : List ℕ) (s : S) (c : ClientSession S) (buffer : List ℕ) (n : ℕ) : Type 0 where
    goes_on : (after_round verify on_packet c buffer n).0 ≡ false
    left : (on_receive c.packet_receiver buffer n).0 + (length p + 4) ≡ n
    holds : Holds [] (on_packet p s) (after_round verify on_packet c buffer n).1

  whole-Round :
      (p : List ℕ) (s : S) (c : ClientSession S) (buffer : List ℕ) (n : ℕ)
      → IsSendable p
      → verify p ≡ true
      → Holds [] s c
      → n ≤ length buffer
      → length p + 4 ≤ n
      → take (length p + 4) buffer ≡ frame p
      → Round p s c buffer n
  whole-Round p s c buffer n h g k fit long start = record {
    goes_on = ap (λ d. d.0) handed;
    left = past.2;
    holds = rw handed (record {
      valid = clear-IsValid r';
      held = gathered-clear r';
      state_is = ap (on_packet p) k.state_is;
    });
  }
    where
      r' : PacketReceiver
      r' = (on_receive c.packet_receiver buffer n).1

      past :
          IsValid r'
          × (gathered r' ≡ frame p)
          × ((on_receive c.packet_receiver buffer n).0 + (length p + 4) ≡ n)
      past = on_receive-past p c.packet_receiver buffer n h k.valid k.held fit long start

      full : (is_complete r' ≡ true) × (payload r' ≡ p)
      full = payload-frame p r' h past.0 past.1

      handed :
          after_round verify on_packet c buffer n
          ≡ (false, record { packet_receiver = clear r'; state = on_packet p c.state })
      handed = deliver_packet verify on_packet r' c.state p full.0 full.1 g

  -- A chunk that is the frames of two packets of one length has the first handed on twice, and the
  -- second never.
  pub second_packet_lost :
      (p q : List ℕ) (s : S) (c : ClientSession S)
      → IsSendable p
      → verify p ≡ true
      → length q ≡ length p
      → Holds [] s c
      → let chunk = frame p ++ frame q in
        (c' : ClientSession S) × (on_receive_packet verify on_packet c chunk (length chunk)
          ≡ some c')
        × Holds [] (on_packet p (on_packet p s)) c'
  unfolding on_receive_packet
  second_packet_lost p q s c h g e k = (
    two.1,
    round_again verify on_packet (suc n) c chunk n first.goes_on (omega (arith, sizes, first.left))
        ∙ ap (λ m. receive_rounds verify on_packet (suc n) one.1 chunk m) half
        ∙ round_end verify on_packet n one.1 chunk (length p + 4) second.goes_on
            (omega (arith, second.left)),
    second.holds,
  )
    where
      chunk : List ℕ
      chunk = frame p ++ frame q

      n : ℕ
      n = length chunk

      sizes : n ≡ (length p + 4) + (length p + 4)
      sizes = omega (arith, length-append (frame p) (frame q), length-frame p, length-frame q)

      start : take (length p + 4) chunk ≡ frame p
      start =
          take-append_le (length p + 4) (frame p) (frame q) (omega (arith, length-frame p))
          ∙ take_all (length p + 4) (frame p) (omega (arith, length-frame p))

      one : Bool × ClientSession S
      one = after_round verify on_packet c chunk n

      first : Round p s c chunk n
      first = whole-Round p s c chunk n h g k (omega arith) (omega (arith, sizes)) start

      half : (on_receive c.packet_receiver chunk n).0 ≡ length p + 4
      half = omega (arith, sizes, first.left)

      second : Round p (on_packet p s) one.1 chunk (length p + 4)
      second =
          whole-Round p (on_packet p s) one.1 chunk (length p + 4) h g first.holds
            (omega (arith, sizes)) (omega arith) start

      two : Bool × ClientSession S
      two = after_round verify on_packet one.1 chunk (length p + 4)

  -- Once a packet has failed the check, every chunk that follows is dropped: the session stays as
  -- it is, and hands nothing on.
  pub refused_packet_wedges :
      (c : ClientSession S) (chunk : List ℕ)
      → IsValid c.packet_receiver
      → is_complete c.packet_receiver ≡ true
      → verify (payload c.packet_receiver) ≡ false
      → (c' : ClientSession S) × (on_receive_packet verify on_packet c chunk (length chunk)
          ≡ some c')
        × (c'.state ≡ c.state)
        × IsValid c'.packet_receiver
        × (is_complete c'.packet_receiver ≡ true)
        × (payload c'.packet_receiver ≡ payload c.packet_receiver)
  unfolding on_receive_packet
  refused_packet_wedges c chunk v e g = (
    out.1,
    round_stop verify on_packet (suc (length chunk)) c chunk (length chunk) (ap (λ d. d.0) refused),
    ap (λ d. d.1.state) refused,
    rw refused kept.0,
    rw refused kept.1,
    rw refused kept.2,
  )
    where
      out : Bool × ClientSession S
      out = after_round verify on_packet c chunk (length chunk)

      r' : PacketReceiver
      r' = (on_receive c.packet_receiver chunk (length chunk)).1

      kept : IsValid r' × (is_complete r' ≡ true) × (payload r' ≡ payload c.packet_receiver)
      kept = on_receive_complete c.packet_receiver chunk v e

      refused : out ≡ (true, record { packet_receiver = r'; state = c.state })
      refused = deliver_refused verify on_packet r' c.state kept.1 (ap verify kept.2 ∙ g)
