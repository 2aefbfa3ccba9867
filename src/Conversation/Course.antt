-- ===== src/Conversation/Course.antt =====
-- The course of the conversation: login, connect, logout.
use cpp_iocplib.Base.{
  take, ℕ, List, [], ◌∷◌, ◌++◌, some, ◌≡◌, refl, sym, ap, ◌∙◌, drop, ◌⊎◌, inl, inr,
}
use mathlib.Core.Path.{subst}
use mathlib.Core.Option.{some-injective}
use cpp_iocplib.FlatBuffers.{FlatBuffers}
use cpp_iocplib.FlatBuffers.Laws.{IsLawful}
use cpp_iocplib.Message.Client.Built as Request
use cpp_iocplib.Message.Server.Built as Reply
use cpp_iocplib.ServerSession.Handlers.{handle_payload}
use cpp_iocplib.ServerSession.Answers.{answer, on_packet-answer, verify_payload-message}
use cpp_iocplib.ClientSession
use cpp_iocplib.ClientSession.{until_nul, send_login_request}
use cpp_iocplib.ClientSession.Exchange.{sent, next_requests, on_packet-next_requests}
use cpp_iocplib.Conversation.{Conversation, send, start, Step, serves, sees, Reach, here, next}

-- How far the conversation has come.
pub data Stage : Type 0 where
  login_asked login_answered connect_asked connect_answered logout_asked logout_answered ended :
      Stage

module _ (fb : FlatBuffers) (L : IsLawful fb) (id password : List ℕ) where
  abbrev pub login : Request.Content
  login = Request.Content.login_request (until_nul id) (until_nul password)

  abbrev pub all_requests : List (List ℕ)
  all_requests =
      Request.bytes_of fb login
      ∷ Request.bytes_of fb (Request.Content.connect_server_request 1)
      ∷ Request.bytes_of fb Request.Content.logout_request
      ∷ []

  abbrev pub all_results : List (List ℕ)
  all_results =
      Reply.bytes_of fb (Reply.Content.login_result 0)
      ∷ Reply.bytes_of fb (Reply.Content.connect_server_result 0)
      ∷ Reply.bytes_of fb Reply.Content.logout_result
      ∷ []

  abbrev pub stage_of : Stage → Conversation
  stage_of login_asked = record {
    requests = take 1 all_requests;
    results = take 0 all_results;
    served = 0;
    seen = 0;
  }
  stage_of login_answered = record {
    requests = take 1 all_requests;
    results = take 1 all_results;
    served = 1;
    seen = 0;
  }
  stage_of connect_asked = record {
    requests = take 2 all_requests;
    results = take 1 all_results;
    served = 1;
    seen = 1;
  }
  stage_of connect_answered = record {
    requests = take 2 all_requests;
    results = take 2 all_results;
    served = 2;
    seen = 1;
  }
  stage_of logout_asked = record {
    requests = take 3 all_requests;
    results = take 2 all_results;
    served = 2;
    seen = 2;
  }
  stage_of logout_answered = record {
    requests = take 3 all_requests;
    results = take 3 all_results;
    served = 3;
    seen = 2;
  }
  stage_of ended = record { requests = all_requests; results = all_results; served = 3; seen = 3 }

  served_one :
      (m : Request.Content) (p : List ℕ) (rs out : List (List ℕ))
      → p ≡ Request.bytes_of fb m
      → handle_payload fb send p (some rs) ≡ some out
      → out ≡ rs ++ Reply.bytes_of fb (answer m) ∷ []
  unfolding handle_payload
  served_one m p rs out e h =
      some-injective _ _
        (sym h ∙ ap (λ q. handle_payload fb send q (some rs)) e ∙ on_packet-answer fb L send m rs)

  seen_one :
      (m : Reply.Content) (p : List ℕ) (qs out : List (List ℕ))
      → p ≡ Reply.bytes_of fb m
      → ClientSession.on_packet fb send p qs ≡ some out
      → out ≡ sent fb L send (next_requests m) qs
  seen_one m p qs out e h = some-injective _ _ (
      sym h
      ∙ ap (λ q. ClientSession.on_packet fb send q qs) e
      ∙ on_packet-next_requests fb L send m qs)

  stage-Step :
      (g : Stage) {υ : Conversation} → Step fb (stage_of g) υ → (g' : Stage) × (υ ≡ stage_of g')
  stage-Step login_asked (serves p more out q v h) = (
    login_answered,
    ap (λ rs. record (stage_of login_asked) { results = rs; served = 1 })
        (served_one login p _ out (cc q) h),
  )
  stage-Step login_asked (sees p more out q h) = cc q
  stage-Step login_answered (serves p more out q v h) = cc q
  stage-Step login_answered (sees p more out q h) = (
    connect_asked,
    ap (λ qs. record (stage_of login_answered) { requests = qs; seen = 1 })
        (seen_one (Reply.Content.login_result 0) p _ out (cc q) h),
  )
  stage-Step connect_asked (serves p more out q v h) = (
    connect_answered,
    ap (λ rs. record (stage_of connect_asked) { results = rs; served = 2 })
        (served_one (Request.Content.connect_server_request 1) p _ out (cc q) h),
  )
  stage-Step connect_asked (sees p more out q h) = cc q
  stage-Step connect_answered (serves p more out q v h) = cc q
  stage-Step connect_answered (sees p more out q h) = (
    logout_asked,
    ap (λ qs. record (stage_of connect_answered) { requests = qs; seen = 2 })
        (seen_one (Reply.Content.connect_server_result 0) p _ out (cc q) h),
  )
  stage-Step logout_asked (serves p more out q v h) = (
    logout_answered,
    ap (λ rs. record (stage_of logout_asked) { results = rs; served = 3 })
        (served_one Request.Content.logout_request p _ out (cc q) h),
  )
  stage-Step logout_asked (sees p more out q h) = cc q
  stage-Step logout_answered (serves p more out q v h) = cc q
  stage-Step logout_answered (sees p more out q h) = (
    ended,
    ap (λ qs. record (stage_of logout_answered) { requests = qs; seen = 3 })
        (seen_one Reply.Content.logout_result p _ out (cc q) h),
  )
  stage-Step ended (serves p more out q v h) = cc q
  stage-Step ended (sees p more out q h) = cc q

  -- The next stage is reached.
  stage_next : (g : Stage) → (g ≡ ended) ⊎ ((υ : Conversation) × Step fb (stage_of g) υ)
  unfolding handle_payload
  stage_next login_asked = inr (
    _,
    serves (Request.bytes_of fb login) _ _ refl (verify_payload-message fb L send login)
        (on_packet-answer fb L send login (take 0 all_results)),
  )
  stage_next login_answered = inr (
    _,
    sees (Reply.bytes_of fb (Reply.Content.login_result 0)) _ _ refl
        (on_packet-next_requests fb L send (Reply.Content.login_result 0) (take 1 all_requests)),
  )
  stage_next connect_asked = inr (
    _,
    serves (Request.bytes_of fb (Request.Content.connect_server_request 1)) _ _ refl
        (verify_payload-message fb L send (Request.Content.connect_server_request 1))
        (on_packet-answer fb L send (Request.Content.connect_server_request 1)
          (take 1 all_results)),
  )
  stage_next connect_answered = inr (
    _,
    sees (Reply.bytes_of fb (Reply.Content.connect_server_result 0)) _ _ refl (
        on_packet-next_requests fb L send (Reply.Content.connect_server_result 0)
          (take 2 all_requests)),
  )
  stage_next logout_asked = inr (
    _,
    serves (Request.bytes_of fb Request.Content.logout_request) _ _ refl
        (verify_payload-message fb L send Request.Content.logout_request)
        (on_packet-answer fb L send Request.Content.logout_request (take 2 all_results)),
  )
  stage_next logout_answered = inr (
    _,
    sees (Reply.bytes_of fb Reply.Content.logout_result) _ _ refl
        (on_packet-next_requests fb L send Reply.Content.logout_result (take 3 all_requests)),
  )
  stage_next ended = inl refl

  pub Reach-stage :
      {τ : Conversation} → Reach fb (start fb id password) τ → (g : Stage) × (τ ≡ stage_of g)
  unfolding send_login_request
  Reach-stage here = (login_asked, refl)
  Reach-stage (next {τ} {υ} r s) =
      let (g, e) = Reach-stage r in stage-Step g (subst (λ σ. Step fb σ υ) e s)

  -- The client logs in, and then whatever arrives is taken in its order: the server gets the login,
  -- the connect and the logout request and answers each with its result, no handler dereferences a
  -- null pointer, and as long as an answer or a request is under way the next step can be taken. When
  -- nothing is, the client has sent the three requests and the server the three results, once each.
  pub Reach-conversation :
      {τ : Conversation}
      → Reach fb (start fb id password) τ
      → ((drop τ.served τ.requests ≡ [])
          × (drop τ.seen τ.results ≡ [])
          × (τ.requests ≡ all_requests)
          × (τ.results ≡ all_results))
        ⊎ ((υ : Conversation) × Step fb τ υ)
  Reach-conversation r =
      let (g, e) = Reach-stage r in
      elim (stage_next g) [
        | inl done ↦
            let last = e ∙ ap stage_of done in
            inl (
              ap (λ σ. drop σ.served σ.requests) last,
              ap (λ σ. drop σ.seen σ.results) last,
              ap (λ (σ : Conversation). σ.requests) last,
              ap (λ (σ : Conversation). σ.results) last,
            )
        | inr (υ, s) ↦ inr (υ, subst (λ σ. Step fb σ υ) (sym e) s)
      ]
