-- ===== src/Conversation.antt =====
-- The client's session and the server's, of examples/client and examples/server, over two channels
-- that keep the order of the packets.
pub mod Course
mod Tests
use cpp_iocplib.Base.{ℕ, suc, List, [], ◌∷◌, ◌++◌, some, true, ◌≡◌, drop}
use cpp_iocplib.FlatBuffers.{FlatBuffers}
use cpp_iocplib.ServerSession.Handlers.{verify_payload, handle_payload}
use cpp_iocplib.ClientSession
use cpp_iocplib.ClientSession.{send_login_request}

-- All payloads that the client has sent, and that the server has, in order; how many of the first the
-- server has taken, and of the second the client.
pub record Conversation : Type 0 where
  pub requests : List (List ℕ)
  pub results : List (List ℕ)
  pub served : ℕ
  pub seen : ℕ

abbrev pub send : List ℕ → List (List ℕ) → List (List ℕ)
send p sent = sent ++ p ∷ []

module _ (fb : FlatBuffers) where
  -- The `main` of the client has asked for the login; nothing has arrived.
  abbrev pub start : List ℕ → List ℕ → Conversation
  start id password = record {
    requests = send_login_request fb send id password [];
    results = [];
    served = 0;
    seen = 0;
  }

  -- The next packet arrives whole at the server, or at the client.
  pub data Step (σ : Conversation) : Conversation → Type 0 where
    serves :
        (p : List ℕ) (more sent : List (List ℕ))
        → drop σ.served σ.requests ≡ p ∷ more
        → verify_payload fb p ≡ true
        → handle_payload fb send p (some σ.results) ≡ some sent
        → Step σ (record σ { results = sent; served = suc σ.served })
    sees :
        (p : List ℕ) (more sent : List (List ℕ))
        → drop σ.seen σ.results ≡ p ∷ more
        → ClientSession.on_packet fb send p σ.requests ≡ some sent
        → Step σ (record σ { requests = sent; seen = suc σ.seen })

  pub data Reach (σ : Conversation) : Conversation → Type 0 where
    here : Reach σ σ
    next : {τ υ : Conversation} → Reach σ τ → Step τ υ → Reach σ υ
