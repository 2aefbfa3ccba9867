-- ===== src/Network/Turns.antt =====
-- Whose turn it is in the conversation of the two sessions.
use cpp_iocplib.Base.{ℕ, suc, List, [], ◌∷◌, ◌++◌, drop, ◌≡◌, refl, sym}
use mathlib.Core.Path.{subst}
use cpp_iocplib.FlatBuffers.{FlatBuffers}
use cpp_iocplib.FlatBuffers.Laws.{IsLawful}
use cpp_iocplib.Packet.Frame.{IsSendable}
use cpp_iocplib.Message.Client.Built as Request
use cpp_iocplib.Message.Server.Built as Reply
use cpp_iocplib.ServerSession.Answers.{answer}
use cpp_iocplib.ClientSession.Exchange.{next_requests}
use cpp_iocplib.Conversation.{Conversation, start, Reach}
use cpp_iocplib.Conversation.Course.{
  Stage, login_asked, login_answered, connect_asked, connect_answered, logout_asked,
  logout_answered, ended, all_requests, all_results, stage_of, Reach-stage,
}

abbrev pub AllSendable : List (List ℕ) → Type 0
AllSendable [] = Unit {0}
AllSendable (p ∷ ps) = IsSendable p × AllSendable ps

module _ (fb : FlatBuffers) where
  -- A request is under way, and nothing else: its answer will be the one result under way.
  pub record Asks (τ : Conversation) : Type 0 where
    pub request : Request.Content
    pub asked : drop τ.served τ.requests ≡ Request.bytes_of fb request ∷ []
    pub quiet : drop τ.seen τ.results ≡ []
    pub alone : drop (suc τ.served) τ.requests ≡ []
    pub answered :
        drop τ.seen (τ.results ++ Reply.bytes_of fb (answer request) ∷ [])
        ≡ Reply.bytes_of fb (answer request) ∷ []
    pub request_sendable : IsSendable (Request.bytes_of fb request)
    pub answer_sendable : IsSendable (Reply.bytes_of fb (answer request))

  -- What the client sends next is nothing, or one request that will be the one under way.
  abbrev pub Follows : Conversation → List Request.Content → Type 0
  Follows τ [] = Unit {0}
  Follows τ (q ∷ []) =
      IsSendable (Request.bytes_of fb q)
      × (drop τ.served (τ.requests ++ Request.bytes_of fb q ∷ []) ≡ Request.bytes_of fb q ∷ [])
  Follows τ (q ∷ r ∷ qs) = ⊥

  -- A result is under way, and nothing else.
  pub record Replies (τ : Conversation) : Type 0 where
    pub result : Reply.Content
    pub replied : drop τ.seen τ.results ≡ Reply.bytes_of fb result ∷ []
    pub quiet : drop τ.served τ.requests ≡ []
    pub alone : drop (suc τ.seen) τ.results ≡ []
    pub result_sendable : IsSendable (Reply.bytes_of fb result)
    pub follows : Follows τ (next_requests result)

  module _ (L : IsLawful fb) (id password : List ℕ) where
    -- All is said.
    pub record Over (τ : Conversation) : Type 0 where
      pub served_all : drop τ.served τ.requests ≡ []
      pub seen_all : drop τ.seen τ.results ≡ []
      pub requests_are : τ.requests ≡ all_requests fb L id password
      pub results_are : τ.results ≡ all_results fb L id password

    pub data Turn (τ : Conversation) : Type 0 where
      asks : Asks τ → Turn τ
      replies : Replies τ → Turn τ
      over : Over τ → Turn τ

    module _ (q : AllSendable (all_requests fb L id password))
        (r : AllSendable (all_results fb L id password)) where
      stage-Turn : (g : Stage) → Turn (stage_of fb L id password g)
      stage-Turn login_asked = asks (record {
        request = Request.Content.login_request _ _;
        asked = refl;
        quiet = refl;
        alone = refl;
        answered = refl;
        request_sendable = q.0;
        answer_sendable = r.0;
      })
      stage-Turn login_answered = replies (record {
        result = Reply.Content.login_result 0;
        replied = refl;
        quiet = refl;
        alone = refl;
        result_sendable = r.0;
        follows = (q.1.0, refl);
      })
      stage-Turn connect_asked = asks (record {
        request = Request.Content.connect_server_request 1;
        asked = refl;
        quiet = refl;
        alone = refl;
        answered = refl;
        request_sendable = q.1.0;
        answer_sendable = r.1.0;
      })
      stage-Turn connect_answered = replies (record {
        result = Reply.Content.connect_server_result 0;
        replied = refl;
        quiet = refl;
        alone = refl;
        result_sendable = r.1.0;
        follows = (q.1.1.0, refl);
      })
      stage-Turn logout_asked = asks (record {
        request = Request.Content.logout_request;
        asked = refl;
        quiet = refl;
        alone = refl;
        answered = refl;
        request_sendable = q.1.1.0;
        answer_sendable = r.1.1.0;
      })
      stage-Turn logout_answered = replies (record {
        result = Reply.Content.logout_result;
        replied = refl;
        quiet = refl;
        alone = refl;
        result_sendable = r.1.1.0;
        follows = tt;
      })
      stage-Turn ended =
          over
            (record { served_all = refl; seen_all = refl; requests_are = refl; results_are = refl })

      -- At every point of the conversation it is one side's turn, or all is said.
      pub Reach-Turn : {τ : Conversation} → Reach fb (start fb id password) τ → Turn τ
      Reach-Turn reach =
          let (g, e) = Reach-stage fb L id password reach in subst Turn (sym e) (stage-Turn g)
