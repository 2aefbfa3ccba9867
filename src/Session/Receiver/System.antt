-- ===== src/Session/Receiver/System.antt =====
-- A receiver among the workers that take completions of its one `overlapped_context_` and call
-- `OnReceive`. Each call holds the lock for its whole length, so a run is a sequence of calls.
use cpp_iocplib.Base.{ℕ, suc, List, [], ◌++◌, Option, some, ◌==◌, if◌then◌else◌, ◌≡◌}
use cpp_iocplib.WinError.{error_success}
use cpp_iocplib.Session.Receiver.{
  SessionReceiver, RecvResult, read, failed, receive_result, new, on_accept, begin_receive,
  on_receive,
}

-- How many calls have been made, how many receives are started and not completed, the bytes that
-- `recv` has returned, and those given to `OnReceivePacket`.
pub record Kernel : Type 0 where
  pub calls : ℕ
  pub pending : ℕ
  pub got : List ℕ
  pub handed : List ℕ

pub record System : Type 0 where
  pub receiver : SessionReceiver
  pub kernel : Kernel

abbrev pub bytes_read : RecvResult → List ℕ
bytes_read (read bs) = bs
bytes_read (failed error) = []

unfoldable pub hand_over : List ℕ → Kernel → Kernel
hand_over bs k = record k { handed = k.handed ++ bs }

-- What the n-th call returns is arbitrary.
module _ (receives : ℕ → Option ℕ) (reads : ℕ → RecvResult) where
  -- A receive is pending if `WSARecv` has succeeded or says so.
  unfoldable pub post_recv : Kernel → Option ℕ × Kernel
  post_recv k = (
    receives k.calls,
    record k {
      calls = suc k.calls;
      pending =
          if receive_result (receives k.calls) == error_success then suc k.pending else k.pending;
    },
  )

  unfoldable pub recv : ℕ → Kernel → RecvResult × Kernel
  recv n k =
      (reads k.calls, record k { calls = suc k.calls; got = k.got ++ bytes_read (reads k.calls) })

  -- A session that has just been accepted, behind the first `BeginReceive`.
  unfoldable pub start : System
  unfolding new on_accept
  start =
      let (_, r, k) =
        begin_receive post_recv (on_accept new)
          (record { calls = 0; pending = 0; got = []; handed = [] }) in
      record { receiver = r; kernel = k }

  -- A pending receive completes, with any error, and the loop of `OnReceive` ends within so many calls.
  pub data Step (σ : System) : System → Type 0 where
    completes :
        (others error fuel : ℕ) (r : SessionReceiver) (k : Kernel)
        → σ.kernel.pending ≡ suc others
        → on_receive post_recv recv hand_over fuel error σ.receiver
            (record σ.kernel { pending = others })
          ≡ some (r, k)
        → Step σ (record { receiver = r; kernel = k })

  pub data Reach (σ : System) : System → Type 0 where
    here : Reach σ σ
    next : {τ υ : System} → Reach σ τ → Step τ υ → Reach σ υ
