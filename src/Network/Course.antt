-- ===== src/Network/Course.antt =====
-- The conversation of the two programs, over their byte streams.
use cpp_iocplib.Base.{ℕ, suc, List, [], ◌++◌, Option, some, ◌≡◌, sym, ap, ◌∙◌, append-nil}
use mathlib.Core.Option.{some-injective}
use cpp_iocplib.FlatBuffers.{FlatBuffers}
use cpp_iocplib.FlatBuffers.Laws.{IsLawful}
use cpp_iocplib.ClientSocket.{Sending}
use cpp_iocplib.ClientSocket.Send.{pending}
use cpp_iocplib.Session.Sender.System.{System}
use cpp_iocplib.Conversation.{Conversation}
use cpp_iocplib.Conversation
use cpp_iocplib.Conversation.Course.{all_requests, all_results}
use cpp_iocplib.Network.{Network, Outgoing, start, Reach}
use cpp_iocplib.Network.Streams.{frames, Gets-over, frame_ne}
use cpp_iocplib.Network.Turns.{AllSendable, Turn, asks, replies, over, Reach-Turn}
use cpp_iocplib.Network.Steps.{Valid, Reach-Inv}

module _ (fb : FlatBuffers) (L : IsLawful fb) (takes : ℕ → ℕ) (sends posts : ℕ → Option ℕ)
    (rounds : ℕ) (id password : List ℕ) (q : AllSendable (all_requests fb L id password))
    (r : AllSendable (all_results fb L id password)) where
  -- Once nothing is under way after a run in which no posting of a signal by the server's sender has
  -- failed (the server has received all that the client has written, the client has nothing left to
  -- write, and it has received all that the server's sender has taken) the conversation is over: the
  -- server has received the frames of the login, the connect and the logout request, the client those
  -- of their results, and neither has received anything else.
  pub network-over :
      {ν : Network} (x : Sending Outgoing) (σ : System)
      → Reach fb takes sends posts (suc rounds) (start fb takes sends posts id password) ν
      → ν.client.state ≡ some x
      → ν.server.state ≡ some σ
      → x.world.wire ≡ ν.taken
      → pending x.sender ≡ []
      → σ.accepted ≡ ν.seen
      → (ν.taken ≡ frames (all_requests fb L id password))
        × (ν.seen ≡ frames (all_results fb L id password))
  network-over {ν} x σ reach e d wire idle heard = by_turn (Reach-Turn fb L id password q r i.reach)
    where
      i : Valid fb L takes sends posts rounds id password q r ν
      i = Reach-Inv fb L takes sends posts rounds id password q r reach

      taken : ν.taken ≡ frames i.talk.requests
      taken =
          let same : x ≡ i.x = some-injective x i.x (sym e ∙ i.client.state_is) in
          sym wire
          ∙ sym (append-nil x.world.wire)
          ∙ ap (λ bs. x.world.wire ++ bs) (sym idle)
          ∙ ap (λ (y : Sending Outgoing). y.world.wire ++ pending y.sender) same
          ∙ i.writes.bytes

      seen : ν.seen ≡ frames i.talk.results
      seen =
          let same : σ ≡ i.σ = some-injective σ i.σ (sym d ∙ i.server.state_is) in
          sym heard ∙ ap (λ (υ : System). υ.accepted) same ∙ i.accepted

      by_turn :
          Turn fb L id password i.talk
          → (ν.taken ≡ frames (all_requests fb L id password))
            × (ν.seen ≡ frames (all_results fb L id password))
      by_turn (asks a) = absurd (frame_ne _ [] (sym (ap frames a.asked) ∙ Gets-over i.up taken))
      by_turn (replies a) =
          absurd (frame_ne _ [] (sym (ap frames a.replied) ∙ Gets-over i.down seen))
      by_turn (over a) = (taken ∙ ap frames a.requests_are, seen ∙ ap frames a.results_are)
