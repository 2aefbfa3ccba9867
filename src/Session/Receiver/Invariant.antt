-- ===== src/Session/Receiver/Invariant.antt =====
-- The invariant of `SessionReceiver` in its system.
use cpp_iocplib.Base.{
  ℕ, zero, suc, ◌≤◌, ◌<◌, Bool, true, false, [], ◌∷◌, ◌++◌, Option, none, some, ◌==◌, if◌then◌else◌,
  ◌≡◌, ◌≢◌, refl, sym, ap, ◌∙◌, append-nil, arith,
}
use mathlib.Core.Path.{subst}
use mathlib.Core.Option.{some-injective}
use cpp_iocplib.WinError.{error_success, is_retryable}
use cpp_iocplib.Session.Receiver.{
  SessionReceiver, RecvResult, read, failed, receive_result, new, on_accept, begin_receive,
  on_error, rearm, drain, after_recv, on_receive,
}
use cpp_iocplib.Session.Receiver.System.{
  Kernel, System, bytes_read, hand_over, post_recv, recv, start, Step, completes, Reach, here, next,
}

-- No receive is pending, and all that was read is handed on.
pub record Idle (k : Kernel) : Type 0 where
  pub none_pending : k.pending ≡ 0
  pub all_handed : k.handed ≡ k.got

pub record Inv (r : SessionReceiver) (k : Kernel) : Type 0 where
  pub one : k.pending ≤ 1
  pub flagged : 0 < k.pending → r.zero_byte_recv ≡ true
  pub all_handed : k.handed ≡ k.got

Idle-Inv : (r : SessionReceiver) (k : Kernel) → Idle k → Inv r k
Idle-Inv r k i = record {
  one = omega (arith, i.none_pending);
  flagged = λ p. absurd (omega (arith, i.none_pending));
  all_handed = i.all_handed;
}

module _ (receives : ℕ → Option ℕ) (reads : ℕ → RecvResult) where
  -- A receive that is started is the only one; one that fails leaves none.
  begin_receive-Inv :
      (r : SessionReceiver) (k : Kernel)
      → Idle k
      → let (e, r', k') = begin_receive (post_recv receives reads) r k in
        Inv r' k' × (e ≢ error_success → Idle k')
  unfolding begin_receive post_recv
  begin_receive-Inv r k i = by_test (receive_result (receives k.calls) == error_success) refl
    where
      by_test :
          (b : Bool)
          → receive_result (receives k.calls) == error_success ≡ b
          → let k' : Kernel = record k {
            calls = suc k.calls;
            pending = if b then suc k.pending else k.pending;
          } in
            Inv (record r { zero_byte_recv = true }) k'
            × (receive_result (receives k.calls) ≢ error_success → Idle k')
      by_test true q = (
        record {
          one = omega (arith, i.none_pending);
          flagged = λ p. refl;
          all_handed = i.all_handed;
        },
        λ n. absurd (n (ground arith)),
      )
      by_test false q = (
        record {
          one = omega (arith, i.none_pending);
          flagged = λ p. refl;
          all_handed = i.all_handed;
        },
        λ n. record { none_pending = i.none_pending; all_handed = i.all_handed },
      )

  on_error-Inv :
      (e : ℕ) (r : SessionReceiver) (k : Kernel)
      → Idle k
      → let (_, r', k') = on_error (post_recv receives reads) e r k in Inv r' k'
  unfolding on_error
  on_error-Inv e r k i = by_tests (e == error_success) (is_retryable e)
    where
      by_tests :
          (b c : Bool)
          → let (_, r', k') =
              if b
              then (e, r, k)
              else if c
              then begin_receive (post_recv receives reads) r k
              else (e, record r { recv_error = e }, k) in
            Inv r' k'
      by_tests true c = Idle-Inv r k i
      by_tests false true = (begin_receive-Inv r k i).0
      by_tests false false = Idle-Inv (record r { recv_error = e }) k i

  rearm-Inv :
      (e : ℕ) (r : SessionReceiver) (k : Kernel)
      → Idle k
      → let (r', k') = rearm (post_recv receives reads) (e, r, k) in Inv r' k'
  unfolding rearm
  rearm-Inv e r k i = by_first (e == error_success)
    where
      by_second :
          (x : ℕ × SessionReceiver × Kernel) (b : Bool)
          → x.0 == error_success ≡ b
          → Inv x.1 x.2 × (x.0 ≢ error_success → Idle x.2)
          → let (_, r', k') = if b then x else on_error (post_recv receives reads) x.0 x.1 x.2 in
            Inv r' k'
      by_second x true q s = s.0
      by_second x false q s = on_error-Inv x.0 x.1 x.2 (s.1 (ground arith))

      by_first :
          (b : Bool)
          → let x : ℕ × SessionReceiver × Kernel =
              if b then begin_receive (post_recv receives reads) r k else (e, r, k) in
            let (_, r', k') =
              if x.0 == error_success then x else on_error (post_recv receives reads) x.0 x.1 x.2 in
            Inv r' k'
      by_first true =
          by_second (begin_receive (post_recv receives reads) r k) _ refl (begin_receive-Inv r k i)
      by_first false = by_second (e, r, k) _ refl (Idle-Inv r k i, λ n. i)

  -- The loop hands on all that it reads, and starts no receive.
  pub drain-Idle :
      (fuel : ℕ) (r : SessionReceiver) (k : Kernel) (out : ℕ × SessionReceiver × Kernel)
      → drain (recv receives reads) hand_over fuel r k ≡ some out
      → Idle k
      → Idle out.2
  unfolding drain after_recv recv hand_over
  drain-Idle zero r k out e i = cc e
  drain-Idle (suc fuel) r k out e i = by_answer (λ k'. drain-Idle fuel r k' out) (reads k.calls) e
    where
      nothing_more : Idle (record k { calls = suc k.calls; got = k.got ++ [] })
      nothing_more = record {
        none_pending = i.none_pending;
        all_handed = i.all_handed ∙ sym (append-nil k.got);
      }

      by_answer :
          ((k' : Kernel)
            → drain (recv receives reads) hand_over fuel r k' ≡ some out
            → Idle k'
            → Idle out.2)
          → (a : RecvResult)
          → after_recv
              (recv receives reads)
              hand_over
              (drain (recv receives reads) hand_over fuel r)
              r
              (a, record k { calls = suc k.calls; got = k.got ++ bytes_read a })
            ≡ some out
          → Idle out.2
      by_answer ih (failed err) q = subst (λ x. Idle x.2) (some-injective _ out q) nothing_more
      by_answer ih (read []) q = subst (λ x. Idle x.2) (some-injective _ out q) nothing_more
      by_answer ih (read (b ∷ bs)) q = ih _ q (record {
        none_pending = i.none_pending;
        all_handed = ap (λ ys. ys ++ (b ∷ bs)) i.all_handed;
      })

  -- What an `OnReceive` leaves, of a kernel where no receive is pending.
  on_receive-Inv :
      (fuel error : ℕ) (r r' : SessionReceiver) (k k' : Kernel)
      → on_receive (post_recv receives reads) (recv receives reads) hand_over fuel error r k
        ≡ some (r', k')
      → Idle k
      → Inv r' k'
  unfolding on_receive
  on_receive-Inv fuel error r r' k k' e i = by_tests (error == error_success) r.zero_byte_recv e
    where
      idle : SessionReceiver
      idle = record r { zero_byte_recv = false }

      by_drained :
          (o : Option (ℕ × SessionReceiver × Kernel))
          → drain (recv receives reads) hand_over fuel idle k ≡ o
          → elim o as (λ _. Option (SessionReceiver × Kernel)) [
            | none ↦ none
            | some out ↦ some (rearm (post_recv receives reads) out)
          ]
            ≡ some (r', k')
          → Inv r' k'
      by_drained none d q = cc q
      by_drained (some (e', s, m)) d q =
          subst (λ x. Inv x.0 x.1) (some-injective _ (r', k') q)
            (rearm-Inv e' s m (drain-Idle fuel idle k (e', s, m) d i))

      by_tests :
          (b c : Bool)
          → (if b
              then (if c
                  then elim (drain (recv receives reads) hand_over fuel idle k)
                      as (λ _. Option (SessionReceiver × Kernel)) [
                        | none ↦ none
                        | some out ↦ some (rearm (post_recv receives reads) out)
                      ]
                  else some (r, k))
              else (let (_, s, m) = on_error (post_recv receives reads) error r k in some (s, m)))
            ≡ some (r', k')
          → Inv r' k'
      by_tests true true q = by_drained (drain (recv receives reads) hand_over fuel idle k) refl q
      by_tests true false q =
          subst (λ x. Inv x.0 x.1) (some-injective _ (r', k') q) (Idle-Inv r k i)
      by_tests false c q =
          subst (λ x. Inv x.0 x.1) (some-injective _ (r', k') q) (on_error-Inv error r k i)

  Step-Inv :
      {σ τ : System} → Step receives reads σ τ → Inv σ.receiver σ.kernel → Inv τ.receiver τ.kernel
  Step-Inv {σ} (completes others error fuel r k p run) i =
      on_receive-Inv fuel error σ.receiver r (record σ.kernel { pending = others }) k run
        (record { none_pending = omega (arith, i.one); all_handed = i.all_handed })

  Reach-Inv : {τ : System} → Reach receives reads (start receives reads) τ → Inv τ.receiver τ.kernel
  unfolding start new on_accept
  Reach-Inv here = (begin_receive-Inv _ _ (record { none_pending = refl; all_handed = refl })).0
  Reach-Inv (next reach s) = Step-Inv s (Reach-Inv reach)

  -- However receives complete after the start of a session, with any errors, and whatever the calls of
  -- the system return: at most one receive is pending at a time, and while one is the flag is set, so
  -- that its completion reads the socket; and all bytes that `recv` has returned have been given to
  -- `OnReceivePacket`, in their order, none lost or doubled.
  pub Reach-receiver :
      {τ : System}
      → Reach receives reads (start receives reads) τ
      → (τ.kernel.pending ≤ 1)
        × (0 < τ.kernel.pending → τ.receiver.zero_byte_recv ≡ true)
        × (τ.kernel.handed ≡ τ.kernel.got)
  Reach-receiver reach = let i = Reach-Inv reach in (i.one, i.flagged, i.all_handed)
