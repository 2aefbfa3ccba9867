-- ===== src/Session/Sender/System.antt =====
-- A sender among its callers and the system: threads that call `SendAsync`, and workers that take
-- completions of the one `overlapped_context_` and call `OnSend`. Each call holds the lock for its
-- whole length, so a run is a sequence of calls.
use cpp_iocplib.Base.{
  take, ◌==◌, if◌then◌else◌, ◌^◌, ◌<◌, ◌+◌, ◌++◌, ◌≤◌, length, Option, List, ℕ, suc, ◌≡◌, [], ◌∷◌,
  none, some,
}
use cpp_iocplib.WinError.{error_success}
use cpp_iocplib.Session.Sender.{
  new, on_accept, SessionSender, WsaBuf, send_result, send_async, on_send,
}
use cpp_iocplib.Session.Sender.Bytes.{named}
use cpp_iocplib.Packet.Frame.{frame, IsSendable}

-- An operation that has been started with `overlapped_context_` and has not completed.
pub data Operation : Type 0 where
  signal : Operation
  write : List ℕ → Operation

abbrev pub bytes_in : Operation → List ℕ
bytes_in signal = []
bytes_in (write bs) = bs

-- How many calls have been made, and the operations started.
pub record Kernel : Type 0 where
  pub calls : ℕ
  pub pending : List Operation

-- The bytes accepted from the callers, and those acknowledged, since the beginning.
pub record System : Type 0 where
  pub sender : SessionSender
  pub kernel : Kernel
  pub accepted : List ℕ
  pub acknowledged : List ℕ

-- A session that has just been accepted.
unfoldable pub start : System
unfolding new on_accept
start = record {
  sender = on_accept new;
  kernel = record { calls = 0; pending = [] };
  accepted = [];
  acknowledged = [];
}

-- What the n-th call returns is arbitrary: `none`, or an error.
module _ (sends posts : ℕ → Option ℕ) where
  -- A write is pending if `WSASend` has succeeded or says so.
  unfoldable pub wsa_send : List WsaBuf → Kernel → Option ℕ × Kernel
  wsa_send bufs k = (
    sends k.calls,
    record k {
      calls = suc k.calls;
      pending =
          if send_result (sends k.calls) == error_success
          then k.pending ++ write (named bufs) ∷ []
          else k.pending;
    },
  )

  unfoldable pub post_completion : Kernel → Option ℕ × Kernel
  post_completion k = (
    posts k.calls,
    record k {
      calls = suc k.calls;
      pending = elim (posts k.calls) [ none ↦ k.pending ++ signal ∷ [] | some _ ↦ k.pending ];
    },
  )

  unfoldable pub after_send : System → List ℕ → System
  after_send σ d =
      let (s, k, thrown) = send_async post_completion d (length d) σ.sender σ.kernel in
      record σ { sender = s; kernel = k; accepted = σ.accepted ++ frame d }

  unfoldable pub after_completion : System → Operation → List Operation → ℕ → ℕ → System
  after_completion σ op others error n =
      let (s, k) = on_send wsa_send error n σ.sender (record σ.kernel { pending = others }) in
      record σ {
        sender = s;
        kernel = k;
        acknowledged =
            σ.acknowledged ++ (if error == error_success then take n (bytes_in op) else []);
      }

  -- A caller sends, or the first operation completes: with an error, or with any count of its
  -- bytes. (The count and the offset are together below 2 ^ 32.)
  pub data Step (σ : System) : System → Type 0 where
    sends_packet : (d : List ℕ) → IsSendable d → Step σ (after_send σ d)
    completes :
        (op : Operation) (others : List Operation) (error n : ℕ)
        → σ.kernel.pending ≡ op ∷ others
        → n ≤ length (bytes_in op)
        → n + σ.sender.sending_offset < 2 ^ 32
        → Step σ (after_completion σ op others error n)

  pub data Reach (σ : System) : System → Type 0 where
    here : Reach σ σ
    next : {τ υ : System} → Reach σ τ → Step τ υ → Reach σ υ
