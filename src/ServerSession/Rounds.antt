-- ===== src/ServerSession/Rounds.antt =====
-- The rounds of `OnReceivePacket`.
use cpp_iocplib.Base.{
  ap, ltb→le, ◌∙◌, ltb→lt, ltb, inr, inl, Bool-cases, arith, ◌^◌, lt→ltb, some, ◌<◌, false, true,
  Bool, List, ℕ, ◌≡◌, zero, suc,
}
use cpp_iocplib.Packet.{payload, is_complete, PacketReceiver, clear, on_receive}
use cpp_iocplib.Packet.Valid.{gathered, IsValid}
use cpp_iocplib.Packet.Left.{IsHungry, on_receive-left-le, on_receive-left-lt, offset-on_receive-lt}
use cpp_iocplib.ServerSession.{ClientSession, deliver, receive_rounds, on_receive_packet}

-- A session that has gathered the bytes given, in the state given.
pub record Holds {S : Type 0} (bs : List ℕ) (s : S) (c : ClientSession S) : Type 0 where
  pub valid : IsValid c.packet_receiver
  pub held : gathered c.packet_receiver ≡ bs
  pub state_is : c.state ≡ s

module _ {S : Type 0} (verify : List ℕ → Bool) (on_packet : List ℕ → S → S) where
  -- The state after one round, and whether the round left the loop.
  abbrev pub after_round : ClientSession S → List ℕ → ℕ → Bool × ClientSession S
  after_round c buffer n =
      deliver verify on_packet (on_receive c.packet_receiver buffer n).1 c.state

  pub round_stop :
      (fuel : ℕ) (c : ClientSession S) (buffer : List ℕ) (n : ℕ)
      → (after_round c buffer n).0 ≡ true
      → receive_rounds verify on_packet (suc fuel) c buffer n ≡ some (after_round c buffer n).1
  unfolding receive_rounds
  round_stop fuel c buffer n e = rw e

  pub round_end :
      (fuel : ℕ) (c : ClientSession S) (buffer : List ℕ) (n : ℕ)
      → (after_round c buffer n).0 ≡ false
      → (on_receive c.packet_receiver buffer n).0 ≡ 0
      → receive_rounds verify on_packet (suc fuel) c buffer n ≡ some (after_round c buffer n).1
  unfolding receive_rounds
  round_end fuel c buffer n e z = rw (e, z)

  pub round_again :
      (fuel : ℕ) (c : ClientSession S) (buffer : List ℕ) (n : ℕ)
      → (after_round c buffer n).0 ≡ false
      → 0 < (on_receive c.packet_receiver buffer n).0
      → receive_rounds verify on_packet (suc fuel) c buffer n
        ≡ receive_rounds verify on_packet fuel
            (after_round c buffer n).1
            buffer
            (on_receive c.packet_receiver buffer n).0
  unfolding receive_rounds
  round_again fuel c buffer n e z = rw (e, lt→ltb _ _ z)

  -- One more round returns if what follows it does.
  round_total :
      (fuel : ℕ) (c : ClientSession S) (buffer : List ℕ) (n : ℕ)
      → ((after_round c buffer n).0 ≡ false
          → 0 < (on_receive c.packet_receiver buffer n).0
          → (c' : ClientSession S) × (receive_rounds verify on_packet fuel
                (after_round c buffer n).1
                buffer
                (on_receive c.packet_receiver buffer n).0
              ≡ some c'))
      → (c' : ClientSession S) × (receive_rounds verify on_packet (suc fuel) c buffer n ≡ some c')
  round_total fuel c buffer n next = elim (Bool-cases out.0) [
    | inl stop ↦ (out.1, round_stop fuel c buffer n stop)
    | inr go ↦ elim (Bool-cases (ltb 0 left)) [
      | inl more ↦
          let (c', e) = next go (ltb→lt 0 left more) in
          (c', round_again fuel c buffer n go (ltb→lt 0 left more) ∙ e)
      | inr none_left ↦
          (out.1, round_end fuel c buffer n go (omega (arith, ltb→le 0 left none_left)))
    ]
  ]
    where
      out : Bool × ClientSession S
      out = after_round c buffer n

      left : ℕ
      left = (on_receive c.packet_receiver buffer n).0

  -- A round that does not leave the loop leaves a hungry receiver.
  deliver-IsHungry :
      (r : PacketReceiver) (s : S)
      → r.offset < 2 ^ 32
      → (deliver verify on_packet r s).0 ≡ false
      → IsHungry (deliver verify on_packet r s).1.packet_receiver
  unfolding deliver clear
  deliver-IsHungry r s w e = ground arith

  receive_rounds_hungry :
      (fuel : ℕ) (c : ClientSession S) (buffer : List ℕ) (remain : ℕ)
      → remain < fuel
      → IsHungry c.packet_receiver
      → (c' : ClientSession S) × (receive_rounds verify on_packet fuel c buffer remain ≡ some c')
  receive_rounds_hungry zero c buffer remain h g = absurd (omega arith)
  receive_rounds_hungry (suc fuel) c buffer remain h g = round_total fuel c buffer remain λ go more.
      receive_rounds_hungry fuel (after_round c buffer remain).1 buffer
        (on_receive c.packet_receiver buffer remain).0 (omega (arith, shorter more))
        (deliver-IsHungry _ c.state (offset-on_receive-lt c.packet_receiver buffer remain) go)
    where
      shorter :
          0 < (on_receive c.packet_receiver buffer remain).0
          → (on_receive c.packet_receiver buffer remain).0 < remain
      shorter more =
          on_receive-left-lt c.packet_receiver buffer remain g
            (omega (arith, on_receive-left-le c.packet_receiver buffer remain))

  -- `OnReceivePacket` returns, for every state of the session, chunk and count.
  pub on_receive_packet_total :
      (c : ClientSession S) (buffer : List ℕ) (received : ℕ)
      → (c' : ClientSession S) × (on_receive_packet verify on_packet c buffer received ≡ some c')
  unfolding on_receive_packet
  on_receive_packet_total c buffer received =
      round_total (suc received) c buffer received λ go more.
        receive_rounds_hungry (suc received) (after_round c buffer received).1 buffer
          (on_receive c.packet_receiver buffer received).0
          (omega (arith, on_receive-left-le c.packet_receiver buffer received))
          (deliver-IsHungry _ c.state (offset-on_receive-lt c.packet_receiver buffer received) go)

  -- One round is enough where nothing is left.
  pub on_receive_packet_once :
      (c c' : ClientSession S) (buffer : List ℕ) (received : ℕ)
      → (on_receive c.packet_receiver buffer received).0 ≡ 0
      → after_round c buffer received ≡ (false, c')
      → on_receive_packet verify on_packet c buffer received ≡ some c'
  unfolding on_receive_packet
  on_receive_packet_once c c' buffer received z e =
      round_end (suc received) c buffer received (ap (λ d. d.0) e) z ∙ ap (λ d. some d.1) e

  pub deliver_nothing :
      (r : PacketReceiver) (s : S)
      → is_complete r ≡ false
      → deliver verify on_packet r s ≡ (false, record { packet_receiver = r; state = s })
  unfolding deliver
  deliver_nothing r s e = rw e

  pub deliver_packet :
      (r : PacketReceiver) (s : S) (p : List ℕ)
      → is_complete r ≡ true
      → payload r ≡ p
      → verify p ≡ true
      → deliver verify on_packet r s
        ≡ (false, record { packet_receiver = clear r; state = on_packet p s })
  unfolding deliver
  deliver_packet r s p e d g = rw (e, d, g)

  pub deliver_refused :
      (r : PacketReceiver) (s : S)
      → is_complete r ≡ true
      → verify (payload r) ≡ false
      → deliver verify on_packet r s ≡ (true, record { packet_receiver = r; state = s })
  unfolding deliver
  deliver_refused r s e g = rw (e, g)
