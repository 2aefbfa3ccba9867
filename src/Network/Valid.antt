-- ===== src/Network/Valid.antt =====
-- The bytes on both streams follow the conversation of the packets.
use cpp_iocplib.Conversation.Course.{all_requests, all_results}
use cpp_iocplib.Base.{
  append-nil, ℕ, suc, List, [], ◌∷◌, ◌++◌, length, Option, some, ◌≡◌, sym, ap, ◌∙◌,
}
use mathlib.Core.Path.{subst}
use cpp_iocplib.FlatBuffers.{FlatBuffers}
use cpp_iocplib.FlatBuffers.Laws.{IsLawful}
use cpp_iocplib.Packet.Frame.{frame}
use cpp_iocplib.Message.Client.Built as Request
use cpp_iocplib.Message.Server.Built as Reply
use cpp_iocplib.ClientSocket.{Sending}
use cpp_iocplib.ClientSocket.Stream.{Gathers}
use cpp_iocplib.Session.Sender.System.{System, after_send, sends_packet}
use cpp_iocplib.Session.Sender.Invariant as Sender
use cpp_iocplib.ServerSession.{ClientSession, on_receive_packet}
use cpp_iocplib.ServerSession.Rounds.{Holds}
use cpp_iocplib.ServerSession.Stream.{receive_part, receive_last}
use cpp_iocplib.ServerSession.Handlers.{verify_payload, handle_payload}
use cpp_iocplib.ServerSession.Answers.{answer, on_packet-answer, verify_payload-message}
use cpp_iocplib.Conversation.{Conversation, send, start, Step, serves, Reach, next}
use cpp_iocplib.Network.{Network, Outgoing, send_answer}
use cpp_iocplib.Network.Streams.{
  Gets-stuck, frames, frames-snoc, Gets, Gets-part, Gets-last, Gets-more, Gets-frame,
}
use cpp_iocplib.Network.Sent.{Writes}
use cpp_iocplib.Network.Turns.{AllSendable, Asks, Turn, asks, replies, over, Reach-Turn}

module _ (fb : FlatBuffers) (L : IsLawful fb) (takes : ℕ → ℕ) (sends posts : ℕ → Option ℕ)
    (id password : List ℕ) where
  -- The conversation that the streams show, what each side has gathered of the next packet, and the
  -- invariants of both senders.
  pub record Inv (ν : Network) : Type 0 where
    pub talk : Conversation
    pub reach : Reach fb (start fb id password) talk
    pub x : Sending Outgoing
    pub half_result : List ℕ
    pub client : Gathers half_result (some x) ν.client
    pub writes : Writes (frames talk.requests) x
    pub σ : System
    pub half_request : List ℕ
    pub server : Holds half_request (some σ) ν.server
    pub sender : Sender.Inv sends posts σ
    pub accepted : σ.accepted ≡ frames talk.results
    pub up : Gets talk.requests talk.served ν.taken half_request
    pub down : Gets talk.results talk.seen ν.seen half_result

  pub handled :
      (m : Request.Content) (σ : System)
      → handle_payload fb (send_answer sends posts) (Request.bytes_of fb m) (some σ)
        ≡ some (send_answer sends posts (Reply.bytes_of fb (answer m)) σ)
  unfolding handle_payload
  handled m σ = on_packet-answer fb L (send_answer sends posts) m σ

  -- The step of the conversation that the end of a request is.
  served :
      {τ : Conversation} (a : Asks fb τ)
      → Step fb τ (record τ {
        results = τ.results ++ Reply.bytes_of fb (answer a.request) ∷ [];
        served = suc τ.served;
      })
  unfolding handle_payload
  served {τ} a =
      serves (Request.bytes_of fb a.request) [] _ a.asked
        (verify_payload-message fb L send a.request)
        (on_packet-answer fb L send a.request τ.results)

  -- What the server makes of a chunk.
  abbrev pub Serves : Network → ℕ → List ℕ → Type 0
  Serves ν b bs =
      (s : ClientSession (Option System)) × (on_receive_packet (verify_payload fb)
          (handle_payload fb (send_answer sends posts)) ν.server (b ∷ bs) (length (b ∷ bs))
        ≡ some s)
      × Inv (record ν { server = s; taken = ν.taken ++ (b ∷ bs) })

  serve_last :
      (ν : Network) (i : Inv ν) (a : Asks fb i.talk) (b : ℕ) (bs : List ℕ)
      → i.up.left ≡ b ∷ bs
      → Serves ν b bs
  unfolding after_send
  serve_last ν i a b bs e =
      let p = Request.bytes_of fb a.request in
      let d = Reply.bytes_of fb (answer a.request) in
      let (s, run, held) =
        receive_last (verify_payload fb) (handle_payload fb (send_answer sends posts)) p
          i.half_request (some i.σ) ν.server (b ∷ bs) a.request_sendable
          (verify_payload-message fb L send a.request) i.server
          (Gets-frame i.up p (b ∷ bs) a.asked e) in
      (
        s,
        run,
        record {
          talk = record i.talk { results = i.talk.results ++ d ∷ []; served = suc i.talk.served };
          reach = next i.reach (served a);
          x = i.x;
          half_result = i.half_result;
          client = i.client;
          writes = i.writes;
          σ = send_answer sends posts d i.σ;
          half_request = [];
          server = subst (λ o. Holds [] o s) (handled a.request i.σ) held;
          sender = Sender.Step-Inv sends posts (sends_packet d a.answer_sendable) i.sender;
          accepted = ap (λ ys. ys ++ frame d) i.accepted ∙ sym (frames-snoc i.talk.results d);
          up = Gets-last i.up (b ∷ bs) e a.alone;
          down = Gets-more d i.down a.quiet a.answered;
        },
      )

  serve_part :
      (ν : Network) (i : Inv ν) (a : Asks fb i.talk) (b : ℕ) (bs : List ℕ) (y : ℕ) (ys : List ℕ)
      → i.up.left ≡ (b ∷ bs) ++ (y ∷ ys)
      → Serves ν b bs
  serve_part ν i a b bs y ys e =
      let p = Request.bytes_of fb a.request in
      let (s, run, held) =
        receive_part (verify_payload fb) (handle_payload fb (send_answer sends posts)) p
          i.half_request (some i.σ) ν.server (b ∷ bs) y ys a.request_sendable i.server
          (Gets-frame i.up p ((b ∷ bs) ++ (y ∷ ys)) a.asked e) in
      (
        s,
        run,
        record {
          talk = i.talk;
          reach = i.reach;
          x = i.x;
          half_result = i.half_result;
          client = i.client;
          writes = i.writes;
          σ = i.σ;
          half_request = i.half_request ++ (b ∷ bs);
          server = held;
          sender = i.sender;
          accepted = i.accepted;
          up = Gets-part i.up (b ∷ bs) y ys e;
          down = i.down;
        },
      )

  module _ (q : AllSendable (all_requests fb L id password))
      (r : AllSendable (all_results fb L id password)) where
    -- A chunk of what is left of the requests: there is one under way, and the chunk is handled.
    pub serve :
        (ν : Network) (i : Inv ν) (b : ℕ) (bs more : List ℕ)
        → i.up.left ≡ (b ∷ bs) ++ more
        → Serves ν b bs
    serve ν i b bs more e = by_turn (Reach-Turn fb L id password q r i.reach)
      where
        by_more : Asks fb i.talk → (zs : List ℕ) → i.up.left ≡ (b ∷ bs) ++ zs → Serves ν b bs
        by_more a [] e = serve_last ν i a b bs (e ∙ append-nil (b ∷ bs))
        by_more a (z ∷ zs) e = serve_part ν i a b bs z zs e

        by_turn : Turn fb L id password i.talk → Serves ν b bs
        by_turn (asks a) = by_more a more e
        by_turn (replies a) = absurd (Gets-stuck i.up b (bs ++ more) a.quiet e)
        by_turn (over a) = absurd (Gets-stuck i.up b (bs ++ more) a.served_all e)
