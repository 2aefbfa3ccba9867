-- ===== src/Session/Receiver/Progress.antt =====
-- What follows a completion in the receiver's system, when every `WSARecv` can be started.
use cpp_iocplib.Base.{
  ℕ, zero, suc, ◌+◌, ◌<◌, Bool, true, false, [], ◌∷◌, ◌++◌, Option, none, some, ◌==◌, if◌then◌else◌,
  ◌≡◌, ◌≢◌, ◌⊎◌, inl, inr, refl, ap, arith,
}
use mathlib.Core.Path.{subst}
use cpp_iocplib.WinError.{error_success, is_retryable}
use cpp_iocplib.Session.Receiver.{
  SessionReceiver, RecvResult, read, failed, receive_result, begin_receive, on_error, rearm, drain,
  after_recv, on_receive,
}
use cpp_iocplib.Session.Receiver.Drain.{IsLast}
use cpp_iocplib.Session.Receiver.System.{
  Kernel, System, bytes_read, hand_over, post_recv, recv, start, Reach,
}
use cpp_iocplib.Session.Receiver.Invariant.{drain-Idle, Reach-receiver}

-- The next receive is pending, or an error is noted.
abbrev pub GoesOn : SessionReceiver → Kernel → Type 0
GoesOn r k = (k.pending ≡ 1) ⊎ (r.recv_error ≢ error_success)

module _ (receives : ℕ → Option ℕ) (reads : ℕ → RecvResult) where
  -- The loop ends with an answer that ends it.
  drain-ends :
      (n : ℕ) (r : SessionReceiver) (k : Kernel)
      → IsLast (reads (k.calls + n))
      → (out : ℕ × SessionReceiver × Kernel) × (drain (recv receives reads) hand_over (suc n) r k
          ≡ some out)
  unfolding drain after_recv recv hand_over
  drain-ends zero r k l = by_answer (reads k.calls) (subst (λ m. IsLast (reads m)) (omega arith) l)
    where
      by_answer :
          (a : RecvResult)
          → IsLast a
          → (out : ℕ × SessionReceiver × Kernel) × (after_recv
                (recv receives reads)
                hand_over
                (drain (recv receives reads) hand_over zero r)
                r
                (a, record k { calls = suc k.calls; got = k.got ++ bytes_read a })
              ≡ some out)
      by_answer (failed err) l' = (_, refl)
      by_answer (read []) l' = (_, refl)
      by_answer (read (b ∷ bs)) l' = absurd l'
  drain-ends (suc n) r k l =
      by_answer (λ k' e. drain-ends n r k' (subst (λ m. IsLast (reads m)) (omega (arith, e)) l))
        (reads k.calls)
    where
      by_answer :
          ((k' : Kernel)
            → k'.calls ≡ suc k.calls
            → (out : ℕ × SessionReceiver × Kernel) × (drain
                  (recv receives reads)
                  hand_over
                  (suc n)
                  r
                  k'
                ≡ some out))
          → (a : RecvResult)
          → (out : ℕ × SessionReceiver × Kernel) × (after_recv
                (recv receives reads)
                hand_over
                (drain (recv receives reads) hand_over (suc n) r)
                r
                (a, record k { calls = suc k.calls; got = k.got ++ bytes_read a })
              ≡ some out)
      by_answer ih (failed err) = (_, refl)
      by_answer ih (read []) = (_, refl)
      by_answer ih (read (b ∷ bs)) = ih _ refl

  module _ (accepts : (m : ℕ) → receive_result (receives m) ≡ error_success) where
    begin_receive-started :
        (r : SessionReceiver) (k : Kernel)
        → begin_receive (post_recv receives reads) r k ≡ (
          error_success,
          record r { zero_byte_recv = true },
          record k { calls = suc k.calls; pending = suc k.pending },
        )
    unfolding begin_receive post_recv
    begin_receive-started r k = simp (accepts k.calls) refl

    on_error-GoesOn :
        (e : ℕ) (r : SessionReceiver) (k : Kernel)
        → e ≢ error_success
        → k.pending ≡ 0
        → let (_, r', k') = on_error (post_recv receives reads) e r k in GoesOn r' k'
    unfolding on_error
    on_error-GoesOn e r k ne p = by_tests (e == error_success) refl (is_retryable e)
      where
        by_tests :
            (b : Bool)
            → e == error_success ≡ b
            → (c : Bool)
            → let (_, r', k') =
                if b
                then (e, r, k)
                else if c
                then begin_receive (post_recv receives reads) r k
                else (e, record r { recv_error = e }, k) in
              GoesOn r' k'
        by_tests true q c = absurd (ne (ground arith))
        by_tests false q true = rw (begin_receive-started r k) (inl (ap suc p))
        by_tests false q false = inr ne

    rearm-GoesOn :
        (e : ℕ) (r : SessionReceiver) (k : Kernel)
        → k.pending ≡ 0
        → let (r', k') = rearm (post_recv receives reads) (e, r, k) in GoesOn r' k'
    unfolding rearm
    rearm-GoesOn e r k p = by_first (e == error_success) refl
      where
        by_first :
            (b : Bool)
            → e == error_success ≡ b
            → let x : ℕ × SessionReceiver × Kernel =
                if b then begin_receive (post_recv receives reads) r k else (e, r, k) in
              let (_, r', k') =
                if x.0 == error_success
                then x
                else on_error (post_recv receives reads) x.0 x.1 x.2 in
              GoesOn r' k'
        by_first true q = rw (begin_receive-started r k) (inl (ap suc p))
        by_first false q = rw q (on_error-GoesOn e r k (ground arith) p)

    -- A receive that is pending, in whatever state the session has come to since its start, completes
    -- with any error. Where every `WSARecv` can be started, and the last of the next n + 1 calls of
    -- `recv` would end the loop, `OnReceive` returns, and leaves the next receive pending or an error
    -- noted: no completion leaves the session silent.
    pub on_receive-GoesOn :
        {σ : System} (n error : ℕ)
        → Reach receives reads (start receives reads) σ
        → 0 < σ.kernel.pending
        → IsLast (reads (σ.kernel.calls + n))
        → (out : SessionReceiver × Kernel) × (on_receive
              (post_recv receives reads)
              (recv receives reads)
              hand_over
              (suc n)
              error
              σ.receiver
              (record σ.kernel { pending = 0 })
            ≡ some out)
          × GoesOn out.0 out.1
    unfolding on_receive
    on_receive-GoesOn {σ} n error reach p l =
        let (_, flagged, handed) = Reach-receiver receives reads reach in
        let (out, ends) = drain-ends n idle free l in
        let i =
          drain-Idle receives reads (suc n) idle free out ends
            (record { none_pending = refl; all_handed = handed }) in
        by_error (error == error_success) refl (flagged p) out ends i.none_pending
      where
        idle : SessionReceiver
        idle = record σ.receiver { zero_byte_recv = false }

        free : Kernel
        free = record σ.kernel { pending = 0 }

        by_error :
            (b : Bool)
            → error == error_success ≡ b
            → σ.receiver.zero_byte_recv ≡ true
            → (out : ℕ × SessionReceiver × Kernel)
            → drain (recv receives reads) hand_over (suc n) idle free ≡ some out
            → out.2.pending ≡ 0
            → (x : SessionReceiver × Kernel) × ((if b
                  then (if σ.receiver.zero_byte_recv
                      then elim (drain (recv receives reads) hand_over (suc n) idle free)
                          as (λ _. Option (SessionReceiver × Kernel)) [
                            | none ↦ none
                            | some y ↦ some (rearm (post_recv receives reads) y)
                          ]
                      else some (σ.receiver, free))
                  else (let (_, r', k') =
                        on_error (post_recv receives reads) error σ.receiver free in
                      some (r', k')))
                ≡ some x)
              × GoesOn x.0 x.1
        by_error true q z (e, r, k) d i =
            (rearm (post_recv receives reads) (e, r, k), simp (z, d) refl, rearm-GoesOn e r k i)
        by_error false q z out d i = (
          (let (_, r', k') = on_error (post_recv receives reads) error σ.receiver free in (r', k')),
          refl,
          on_error-GoesOn error σ.receiver free (ground arith) refl,
        )
