-- ===== src/Network/Whole/Exchange.antt =====
-- One request and its result, and the run to the end.
use cpp_iocplib.Message.Server.Built as Reply
use cpp_iocplib.Message.Client.Built as Request
use cpp_iocplib.Base.{
  ℕ, suc, List, [], ◌∷◌, ◌++◌, map, take, length, some, ◌≡◌, refl, sym, ap, ◌∙◌, arith, append-nil,
  append_assoc, take_all, encode32,
}
use cpp_iocplib.FlatBuffers.{FlatBuffers}
use cpp_iocplib.FlatBuffers.Laws.{IsLawful}
use cpp_iocplib.Packet.Frame.{frame, IsSendable, length-frame}
use cpp_iocplib.ClientSocket.Read.{read_last}
use cpp_iocplib.ClientSocket.Stream.{Gathers}
use cpp_iocplib.ClientSession.Exchange.{next_requests, sent}
use cpp_iocplib.Session.Sender.System.{System, signal, write}
use cpp_iocplib.ServerSession.Rounds.{Holds}
use cpp_iocplib.ServerSession.Stream.{receive_last}
use cpp_iocplib.ServerSession.Handlers.{verify_payload, handle_payload}
use cpp_iocplib.ServerSession.Answers.{answer, verify_payload-message}
use cpp_iocplib.Network.{
  Network, send_request, on_result, send_answer, start, serves, sees, completes, Reach, next,
}
use cpp_iocplib.Network.Streams.{frames}
use cpp_iocplib.Network.Turns.{AllSendable}
use cpp_iocplib.Network.Valid.{handled}
use cpp_iocplib.Network.Seen.{joined_next}
use cpp_iocplib.Network.Whole.{
  take_whole, succeeds, all_written, send_whole, all_sent, queued, send-queued, packet_op, writing,
  signal-writing, packet_op_lem, write-all_sent, succeeds-NoThrow,
}

module _ (fb : FlatBuffers) (L : IsLawful fb) where
  abbrev pub framed : List Request.Content → List ℕ
  framed ms = frames (map (Request.bytes_of fb) ms)

  sent_whole :
      (ms : List Request.Content) (bs : List ℕ) (k : ℕ)
      → AllSendable (map (Request.bytes_of fb) ms)
      → (k' : ℕ) × (sent fb L (send_request take_whole) ms (some (all_written bs k))
          ≡ some (all_written (bs ++ framed ms) k'))
  sent_whole [] bs k a = (k, ap (λ ys. some (all_written ys k)) (sym (append-nil bs)))
  sent_whole (m ∷ ms) bs k a =
      let p = Request.bytes_of fb m in
      let (k', run) = sent_whole ms (bs ++ frame p) (suc k) a.1 in
      (
        k',
        ap (sent fb L (send_request take_whole) ms) (send_whole p bs k a.0)
            ∙ run
            ∙ ap (λ ys. some (all_written ys k')) (append_assoc bs (frame p) (framed ms)),
      )

  -- The client has written these bytes and the server these, and the server has received the first
  -- of these, and the client all.
  pub record Rests (written taken answered : List ℕ) (ν : Network) : Type 0 where
    pub k : ℕ
    pub client : Gathers [] (some (all_written written k)) ν.client
    pub k' : ℕ
    pub e : ℕ
    pub acknowledged : List ℕ
    pub server : Holds [] (some (all_sent answered acknowledged k' e)) ν.server
    pub all_acknowledged : acknowledged ≡ answered
    pub taken_is : ν.taken ≡ taken
    pub seen_is : ν.seen ≡ answered

  -- The same, with the answer under way.
  pub record Answers (written taken answered d : List ℕ) (ν : Network) : Type 0 where
    pub k : ℕ
    pub client : Gathers [] (some (all_written written k)) ν.client
    pub k' : ℕ
    pub e : ℕ
    pub acknowledged : List ℕ
    pub server : Holds [] (some (writing d answered acknowledged k' e)) ν.server
    pub all_acknowledged : acknowledged ≡ answered
    pub taken_is : ν.taken ≡ taken
    pub seen_is : ν.seen ≡ answered

  module _ (id password : List ℕ) where
    abbrev pub Run : Network → Type 0
    Run ν =
        Reach fb take_whole succeeds succeeds 1 (start fb take_whole succeeds succeeds id password)
          ν

    -- The server receives a request whole, and begins to write its answer.
    pub request_arrives :
        (m : Request.Content) (written answered : List ℕ) (ν : Network)
        → let p = Request.bytes_of fb m in
          let d = Reply.bytes_of fb (answer m) in
          IsSendable p
          → Run ν
          → Rests (written ++ frame p) written answered ν
          → (μ : Network) × Run μ × Answers (written ++ frame p) (written ++ frame p) answered d μ
    unfolding encode32
    request_arrives m written answered ν hp run0 s =
        let p = Request.bytes_of fb m in
        let d = Reply.bytes_of fb (answer m) in
        let (c, run, held) =
          receive_last (verify_payload fb) (handle_payload fb (send_answer succeeds succeeds)) p []
            _ ν.server (frame p) hp (verify_payload-message fb L (λ x (y : Unit {0}). y) m) s.server
            refl in
        let σ = queued d answered s.acknowledged s.k' s.e in
        let queued_is =
          held.state_is
          ∙ handled fb L take_whole succeeds succeeds id password m _
          ∙ ap some (send-queued d answered s.acknowledged s.k' s.e) in
        let begins = completes σ signal [] 0 0 [] queued_is refl (omega arith) (omega arith) (
          ap (λ (υ : System). υ.acknowledged) (signal-writing d answered s.acknowledged s.k' s.e)
          ∙ ap (λ ys. ys ++ []) (s.all_acknowledged ∙ sym s.seen_is)) in
        let arrives =
          serves (all_written (written ++ frame p) s.k) _ _ [] c s.client.state_is
            (ap (λ ys. ys ++ frame p) (sym s.taken_is)
              ∙ ap (λ ys. ν.taken ++ ys) (sym (append-nil (frame p))))
            run (succeeds-NoThrow _ _) in
        (
          _,
          next (next run0 arrives) begins,
          record {
            k = s.k;
            client = s.client;
            k' = s.k';
            e = s.e;
            acknowledged = s.acknowledged;
            server = record {
              valid = held.valid;
              held = held.held;
              state_is = ap some (signal-writing d answered s.acknowledged s.k' s.e);
            };
            all_acknowledged = s.all_acknowledged;
            taken_is = ap (λ ys. ys ++ frame p) s.taken_is;
            seen_is = s.seen_is;
          },
        )

    -- The client receives the answer whole, and the write completes.
    pub answer_arrives :
        (m : Reply.Content) (written taken answered : List ℕ) (ν : Network)
        → let d = Reply.bytes_of fb m in
          IsSendable d
          → AllSendable (map (Request.bytes_of fb) (next_requests m))
          → Run ν
          → Answers written taken answered d ν
          → (μ : Network) × Run μ
            × Rests (written ++ framed (next_requests m)) taken (answered ++ frame d) μ
    unfolding encode32
    answer_arrives m written taken answered ν hd hq run0 s =
        let d = Reply.bytes_of fb m in
        let σ = writing d answered s.acknowledged s.k' s.e in
        let op = packet_op_lem d hd in
        let (c, run, valid, held, state_is) =
          read_last (on_result fb take_whole) d [] (frame d) ν.client 0 hd s.client.valid
            s.client.held refl in
        let (k, sent_) = sent_whole (next_requests m) written s.k hq in
        let acked : s.acknowledged ++ [] ≡ ν.seen =
          append-nil s.acknowledged ∙ s.all_acknowledged ∙ sym s.seen_is in
        let whole : take (length (packet_op d)) (packet_op d) ≡ frame d =
          take_all (length (packet_op d)) (packet_op d) (omega arith) ∙ op in
        let ends =
          completes σ (write (packet_op d)) [] 0 (length (packet_op d)) [] s.server.state_is refl
            (omega arith) (omega (arith, ap length op, length-frame d))
            (ap (λ (υ : System). υ.acknowledged)
                (write-all_sent d answered s.acknowledged s.k' s.e hd)
              ∙ ap (λ ys. ys ++ take (length (packet_op d)) (packet_op d)) acked
              ∙ ap (λ ys. ν.seen ++ ys) whole
              ∙ sym (append-nil (ν.seen ++ frame d))) in
        let arrives =
          sees σ _ _ [] c s.server.state_is
            (ap (λ ys. ys ++ (packet_op d ++ [])) acked ∙ ap (λ ys. ν.seen ++ (ys ++ [])) op) run in
        (
          _,
          next (next run0 arrives) ends,
          record {
            k = k;
            client = record {
              valid = valid;
              held = held;
              state_is =
                  state_is
                  ∙ ap (on_result fb take_whole d) s.client.state_is
                  ∙ joined_next fb L take_whole succeeds succeeds id password m _
                  ∙ sent_;
            };
            k' = suc (suc s.k');
            e = s.e;
            acknowledged = _;
            server = record {
              valid = s.server.valid;
              held = s.server.held;
              state_is = ap some (write-all_sent d answered s.acknowledged s.k' s.e hd);
            };
            all_acknowledged =
                ap (λ ys. ys ++ take (length (packet_op d)) (packet_op d))
                  (append-nil s.acknowledged ∙ s.all_acknowledged)
                ∙ ap (λ ys. answered ++ ys) whole;
            taken_is = s.taken_is;
            seen_is = ap (λ ys. ys ++ frame d) s.seen_is;
          },
        )
