-- ===== src/Network/Seen.antt =====
-- What the client makes of a chunk of the server's stream.
use cpp_iocplib.ClientSocket.Read.{read_last}
use cpp_iocplib.ClientSession.Exchange.{next_requests, sent, on_packet-next_requests}
use cpp_iocplib.Conversation.Course.{all_requests, all_results}
use cpp_iocplib.Base.{
  refl, append-nil, drop, ℕ, suc, List, [], ◌∷◌, ◌++◌, length, Option, some, ◌≡◌, sym, ap, ◌∙◌,
}
use mathlib.Core.Path.{subst}
use cpp_iocplib.FlatBuffers.{FlatBuffers}
use cpp_iocplib.FlatBuffers.Laws.{IsLawful}
use cpp_iocplib.Message.Client.Built as Request
use cpp_iocplib.Message.Server.Built as Reply
use cpp_iocplib.ClientSocket.{read_rounds, Reader, Sending}
use cpp_iocplib.ClientSocket.Stream.{read_part}
use cpp_iocplib.Conversation.{Conversation, send, Step, next, sees}
use cpp_iocplib.Network.{on_result, Network, Outgoing, send_request, joined}
use cpp_iocplib.Network.Streams.{
  Gets-stuck, frames, frames-snoc, Gets, Gets-part, Gets-last, Gets-more, Gets-frame,
}
use cpp_iocplib.Network.Sent.{send_request-Writes, Writes}
use cpp_iocplib.Network.Turns.{AllSendable, Replies, Follows, Turn, asks, replies, over, Reach-Turn}
use cpp_iocplib.Network.Valid.{Inv}

module _ (fb : FlatBuffers) (L : IsLawful fb) (takes : ℕ → ℕ) (sends posts : ℕ → Option ℕ)
    (id password : List ℕ) where
  pub joined_next :
      (m : Reply.Content) (x : Sending Outgoing)
      → on_result fb takes (Reply.bytes_of fb m) (some x)
        ≡ sent fb L (send_request takes) (next_requests m) (some x)
  unfolding on_result
  joined_next m x = ap joined (on_packet-next_requests fb L (send_request takes) m (some x))

  -- What follows a result at the client: its sender, and the requests sent so far.
  pub record Answered (τ : Conversation) (got half : List ℕ) (x : Sending Outgoing)
      (ms : List Request.Content) : Type 0 where
    pub y : Sending Outgoing
    pub runs : sent fb L (send_request takes) ms (some x) ≡ some y
    pub writes : Writes (frames (sent fb L send ms τ.requests)) y
    pub up : Gets (sent fb L send ms τ.requests) τ.served got half

  follows-Answered :
      (τ : Conversation) (got half : List ℕ) (x : Sending Outgoing) (ms : List Request.Content)
      → Follows fb τ ms
      → drop τ.served τ.requests ≡ []
      → Writes (frames τ.requests) x
      → Gets τ.requests τ.served got half
      → Answered τ got half x ms
  follows-Answered τ got half x [] f e w g = record { y = x; runs = refl; writes = w; up = g }
  follows-Answered τ got half x (m ∷ []) f e w g =
      let p = Request.bytes_of fb m in
      let (y, run, w') = send_request-Writes takes p x (frames τ.requests) f.0 w in
      record {
        y = y;
        runs = run;
        writes = subst (λ bs. Writes bs y) (sym (frames-snoc τ.requests p)) w';
        up = Gets-more p g e f.1;
      }
  follows-Answered τ got half x (m ∷ n ∷ ms) f e w g = absurd f

  -- The step of the conversation that the end of a result is.
  seen :
      {τ : Conversation} (a : Replies fb τ)
      → Step fb τ (record τ {
        requests = sent fb L send (next_requests a.result) τ.requests;
        seen = suc τ.seen;
      })
  seen {τ} a =
      sees (Reply.bytes_of fb a.result) [] _ a.replied
        (on_packet-next_requests fb L send a.result τ.requests)

  -- What the client makes of a chunk, in one round of its inner loop.
  abbrev pub Sees : ℕ → Network → ℕ → List ℕ → Type 0
  Sees rounds ν b bs =
      (c : Reader (Option (Sending Outgoing))) × (read_rounds (on_result fb takes) (suc rounds)
          ν.client (b ∷ bs) (length (b ∷ bs))
        ≡ some c)
      × Inv fb L takes sends posts id password (record ν { client = c; seen = ν.seen ++ (b ∷ bs) })

  see_last :
      (rounds : ℕ) (ν : Network) (i : Inv fb L takes sends posts id password ν)
      (a : Replies fb i.talk) (b : ℕ) (bs : List ℕ)
      → i.down.left ≡ b ∷ bs
      → Sees rounds ν b bs
  see_last rounds ν i a b bs e =
      let p = Reply.bytes_of fb a.result in
      let (c, run, valid, held, state_is) =
        read_last (on_result fb takes) p i.half_result (b ∷ bs) ν.client rounds a.result_sendable
          i.client.valid i.client.held (Gets-frame i.down p (b ∷ bs) a.replied e) in
      let next_ =
        follows-Answered i.talk ν.taken i.half_request i.x (next_requests a.result) a.follows
          a.quiet i.writes i.up in
      (
        c,
        run,
        record {
          talk = record i.talk {
            requests = sent fb L send (next_requests a.result) i.talk.requests;
            seen = suc i.talk.seen;
          };
          reach = next i.reach (seen a);
          x = next_.y;
          half_result = [];
          client = record {
            valid = valid;
            held = held;
            state_is =
                state_is
                ∙ ap (on_result fb takes p) i.client.state_is
                ∙ joined_next a.result i.x
                ∙ next_.runs;
          };
          writes = next_.writes;
          σ = i.σ;
          half_request = i.half_request;
          server = i.server;
          sender = i.sender;
          accepted = i.accepted;
          up = next_.up;
          down = Gets-last i.down (b ∷ bs) e a.alone;
        },
      )

  see_part :
      (rounds : ℕ) (ν : Network) (i : Inv fb L takes sends posts id password ν)
      (a : Replies fb i.talk) (b : ℕ) (bs : List ℕ) (y : ℕ) (ys : List ℕ)
      → i.down.left ≡ (b ∷ bs) ++ (y ∷ ys)
      → Sees rounds ν b bs
  see_part rounds ν i a b bs y ys e =
      let p = Reply.bytes_of fb a.result in
      let (c, run, client) =
        read_part (on_result fb takes) p i.half_result (b ∷ bs) y ys (some i.x) ν.client rounds
          a.result_sendable i.client (Gets-frame i.down p ((b ∷ bs) ++ (y ∷ ys)) a.replied e) in
      (
        c,
        run,
        record {
          talk = i.talk;
          reach = i.reach;
          x = i.x;
          half_result = i.half_result ++ (b ∷ bs);
          client = client;
          writes = i.writes;
          σ = i.σ;
          half_request = i.half_request;
          server = i.server;
          sender = i.sender;
          accepted = i.accepted;
          up = i.up;
          down = Gets-part i.down (b ∷ bs) y ys e;
        },
      )

  module _ (q : AllSendable (all_requests fb L id password))
      (r : AllSendable (all_results fb L id password)) where
    -- A chunk of what is left of the results: there is one under way, and the chunk is handled.
    pub see :
        (rounds : ℕ) (ν : Network) (i : Inv fb L takes sends posts id password ν) (b : ℕ)
        (bs more : List ℕ)
        → i.down.left ≡ (b ∷ bs) ++ more
        → Sees rounds ν b bs
    see rounds ν i b bs more e = by_turn (Reach-Turn fb L id password q r i.reach)
      where
        by_more :
            Replies fb i.talk → (zs : List ℕ) → i.down.left ≡ (b ∷ bs) ++ zs → Sees rounds ν b bs
        by_more a [] e = see_last rounds ν i a b bs (e ∙ append-nil (b ∷ bs))
        by_more a (z ∷ zs) e = see_part rounds ν i a b bs z zs e

        by_turn : Turn fb L id password i.talk → Sees rounds ν b bs
        by_turn (asks a) = absurd (Gets-stuck i.down b (bs ++ more) a.quiet e)
        by_turn (replies a) = by_more a more e
        by_turn (over a) = absurd (Gets-stuck i.down b (bs ++ more) a.seen_all e)
