-- ===== src/ServerSession/Stream.antt =====
-- `OnReceivePacket` over packets that arrive in pieces, where no chunk holds bytes of two of them.
use cpp_iocplib.Base.{
  [], inr, inl, Option-cases, refl, arith, sym, append-nil, append_assoc, ◌∙◌, concat, ap, none,
  some, length, true, ◌++◌, Option, ◌<◌, Bool, ◌∷◌, List, ℕ, ◌≡◌,
}
use mathlib.Core.Option.{some-injective}
use cpp_iocplib.Packet.{PacketReceiver, clear, on_receive, is_complete, payload}
use cpp_iocplib.Packet.Valid.{gathered-clear, gathered, clear-IsValid}
use cpp_iocplib.Packet.Frame.{
  frame, IsSendable, Took, on_receive-frame, payload-frame, not_complete-frame,
}
use cpp_iocplib.ServerSession.{ClientSession, on_receive_packet}
use cpp_iocplib.ServerSession.Rounds.{
  Holds, deliver_packet, deliver_nothing, on_receive_packet_once,
}

-- No chunk is empty: `recv` has returned a count above 0.
abbrev pub AllNonEmpty : List (List ℕ) → Type 0
AllNonEmpty [] = Unit {0}
AllNonEmpty (c ∷ cs) = (0 < length c) × AllNonEmpty cs

-- A packet with the chunks in which it arrives: the first, and the others.
pub record Arrival : Type 0 where
  pub packet : List ℕ
  pub first : List ℕ
  pub others : List (List ℕ)

abbrev pub chunks_of : List Arrival → List (List ℕ)
chunks_of [] = []
chunks_of (a ∷ as_) = (a.first ∷ a.others) ++ chunks_of as_

module _ {S : Type 0} (verify : List ℕ → Bool) (on_packet : List ℕ → S → S) where
  -- The calls of `OnReceivePacket` that the chunks cause, one after another.
  unfoldable pub receive_chunks : ClientSession S → List (List ℕ) → Option (ClientSession S)
  receive_chunks c [] = some c
  receive_chunks c (x ∷ xs) = elim (on_receive_packet verify on_packet c x (length x)) [
    | none ↦ none
    | some c' ↦ receive_chunks c' xs
  ]

  -- A chunk that ends before its packet does is gathered.
  pub receive_part :
      (p : List ℕ) (bs : List ℕ) (s : S) (c : ClientSession S) (chunk : List ℕ) (x : ℕ)
      (rest : List ℕ)
      → IsSendable p
      → Holds bs s c
      → bs ++ (chunk ++ x ∷ rest) ≡ frame p
      → (c' : ClientSession S) × (on_receive_packet verify on_packet c chunk (length chunk)
          ≡ some c')
        × Holds (bs ++ chunk) s c'
  receive_part p bs s c chunk x rest h k e = (
    record { packet_receiver = r'; state = c.state },
    on_receive_packet_once verify on_packet c _ chunk (length chunk) took.left (
        deliver_nothing verify on_packet r' c.state
          (not_complete-frame p r' x rest h took.valid unfinished)),
    record { valid = took.valid; held = took.held ∙ moved; state_is = k.state_is },
  )
    where
      r' : PacketReceiver
      r' = (on_receive c.packet_receiver chunk (length chunk)).1

      moved : gathered c.packet_receiver ++ chunk ≡ bs ++ chunk
      moved = ap (λ ys. ys ++ chunk) k.held

      took :
          Took c.packet_receiver
            (gathered c.packet_receiver ++ chunk)
            (on_receive c.packet_receiver chunk (length chunk))
      took =
          on_receive-frame p c.packet_receiver chunk (x ∷ rest) h k.valid
            (ap (λ ys. ys ++ (chunk ++ x ∷ rest)) k.held ∙ e)

      unfinished : gathered r' ++ x ∷ rest ≡ frame p
      unfinished =
          ap (λ ys. ys ++ x ∷ rest) (took.held ∙ moved) ∙ append_assoc bs chunk (x ∷ rest) ∙ e

  -- A chunk that ends with its packet has it handed on.
  pub receive_last :
      (p : List ℕ) (bs : List ℕ) (s : S) (c : ClientSession S) (chunk : List ℕ)
      → IsSendable p
      → verify p ≡ true
      → Holds bs s c
      → bs ++ chunk ≡ frame p
      → (c' : ClientSession S) × (on_receive_packet verify on_packet c chunk (length chunk)
          ≡ some c')
        × Holds [] (on_packet p s) c'
  receive_last p bs s c chunk h g k e = (
    record { packet_receiver = clear r'; state = on_packet p c.state },
    on_receive_packet_once verify on_packet c _ chunk (length chunk) took.left
        (deliver_packet verify on_packet r' c.state p full.0 full.1 g),
    record {
      valid = clear-IsValid r';
      held = gathered-clear r';
      state_is = ap (on_packet p) k.state_is;
    },
  )
    where
      r' : PacketReceiver
      r' = (on_receive c.packet_receiver chunk (length chunk)).1

      whole : gathered c.packet_receiver ++ chunk ≡ frame p
      whole = ap (λ ys. ys ++ chunk) k.held ∙ e

      took :
          Took c.packet_receiver
            (gathered c.packet_receiver ++ chunk)
            (on_receive c.packet_receiver chunk (length chunk))
      took =
          on_receive-frame p c.packet_receiver chunk [] h k.valid
            (ap (λ ys. gathered c.packet_receiver ++ ys) (append-nil chunk) ∙ whole)

      full : (is_complete r' ≡ true) × (payload r' ≡ p)
      full = payload-frame p r' h took.valid (took.held ∙ whole)

  receive_chunks_step :
      (c c' : ClientSession S) (x : List ℕ) (xs : List (List ℕ))
      → on_receive_packet verify on_packet c x (length x) ≡ some c'
      → receive_chunks c (x ∷ xs) ≡ receive_chunks c' xs
  unfolding receive_chunks
  receive_chunks_step c c' x xs e = rw (e, receive_chunks)

  -- The chunks of one packet, in any number and of any sizes, end to end its frame.
  receive_chunks_packet :
      (p : List ℕ) (bs : List ℕ) (s : S) (c : ClientSession S) (y : List ℕ) (ys : List (List ℕ))
      → IsSendable p
      → verify p ≡ true
      → AllNonEmpty ys
      → Holds bs s c
      → bs ++ concat (y ∷ ys) ≡ frame p
      → (c' : ClientSession S) × (receive_chunks c (y ∷ ys) ≡ some c') × Holds [] (on_packet p s) c'
  unfolding receive_chunks
  receive_chunks_packet p bs s c y [] h g n k e =
      let (c', run, d) =
        receive_last p bs s c y h g k (ap (λ ys. bs ++ ys) (sym (append-nil y)) ∙ e) in
      (c', receive_chunks_step c c' y [] run, d)
  receive_chunks_packet p bs s c y ([] ∷ ys) h g n k e = absurd (omega arith)
  receive_chunks_packet p bs s c y ((x ∷ z) ∷ ys) h g n k e =
      let (c', run, d) = receive_part p bs s c y x (z ++ concat ys) h k e in
      let (c'', run', d') =
        receive_chunks_packet p (bs ++ y) s c' (x ∷ z) ys h g n.1 d
          (append_assoc bs y (x ∷ (z ++ concat ys)) ∙ e) in
      (c'', receive_chunks_step c c' y ((x ∷ z) ∷ ys) run ∙ run', d')

  pub receive_chunks-append :
      (c c' : ClientSession S) (xs ys : List (List ℕ))
      → receive_chunks c xs ≡ some c'
      → receive_chunks c (xs ++ ys) ≡ receive_chunks c' ys
  unfolding receive_chunks
  receive_chunks-append c c' [] ys e = ap (λ k. receive_chunks k ys) (some-injective c c' e)
  receive_chunks-append c c' (x ∷ xs) ys e =
      elim (Option-cases (on_receive_packet verify on_packet c x (length x))) [
        | inl stuck ↦ cc (sym (rw (stuck, receive_chunks) at e))
        | inr (d, run) ↦
            receive_chunks_step c d x (xs ++ ys) run
            ∙ receive_chunks-append d c' xs ys (sym (receive_chunks_step c d x xs run) ∙ e)
      ]

  -- Every packet passes the check of its content, and its chunks end to end are its frame.
  abbrev pub AllWhole : List Arrival → Type 0
  AllWhole [] = Unit {0}
  AllWhole (a ∷ as_) =
      (IsSendable a.packet
        × (verify a.packet ≡ true)
        × AllNonEmpty a.others
        × (concat (a.first ∷ a.others) ≡ frame a.packet))
      × AllWhole as_

  -- What handing on each packet, in order, makes of a state.
  abbrev pub handed_on : List Arrival → S → S
  handed_on [] s = s
  handed_on (a ∷ as_) s = handed_on as_ (on_packet a.packet s)

  -- Where every packet passes the check and arrives in chunks of its own, `OnReceivePacket` hands on
  -- each packet whole, once and in the order of arrival, however the packets are cut, and nothing else;
  -- at the end the session has gathered nothing.
  pub receive_chunks_stream :
      (as_ : List Arrival) (s : S) (c : ClientSession S)
      → AllWhole as_
      → Holds [] s c
      → (c' : ClientSession S) × (receive_chunks c (chunks_of as_) ≡ some c')
        × Holds [] (handed_on as_ s) c'
  unfolding receive_chunks
  receive_chunks_stream [] s c w k = (c, refl, k)
  receive_chunks_stream (a ∷ as_) s c w k =
      let (c', run, d) =
        receive_chunks_packet a.packet [] s c a.first a.others w.0.0 w.0.1 w.0.2 k w.0.3 in
      let (c'', run', d') = receive_chunks_stream as_ _ c' w.1 d in
      (c'', receive_chunks-append c c' (a.first ∷ a.others) (chunks_of as_) run ∙ run', d')
