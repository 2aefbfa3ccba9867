-- ===== src/Session/Receiver/Laws.antt =====
-- `OnReceive` by what ends its loop.
use cpp_iocplib.Base.{
  Bool-cases, ap, if◌then◌else◌, ◌∙◌, ◌<◌, eq_false, length, List, arith, Option, ◌≢◌, ℕ, ◌≡◌, refl,
  [], some, true, false, inl, inr,
}
use cpp_iocplib.WinError.{error_success, wsa_e_would_block, wsa_e_conn_reset, is_retryable}
use cpp_iocplib.Session.Receiver.{
  SessionReceiver, RecvResult, read, failed, receive_result, begin_receive, on_error, rearm,
  on_receive,
}
use cpp_iocplib.Session.Receiver.Drain.{Reads, drain_lem, error_of, noted}

retryable_ne : (error : ℕ) → is_retryable error ≡ true → error ≢ 0
retryable_ne error t z = ground arith

module _ {W : Type 0} (wsa_recv : W → Option ℕ × W) (recv : ℕ → W → RecvResult × W)
    (on_receive_packet : List ℕ → W → W) where
  -- `OnReceive` of a completed receive, up to what follows its loop.
  on_receive_drained :
      {w w' : W} {answer : RecvResult} {chunks : List (List ℕ)} (r : SessionReceiver) (fuel : ℕ)
      → r.zero_byte_recv ≡ true
      → Reads recv on_receive_packet w chunks answer w'
      → length chunks < fuel
      → on_receive wsa_recv recv on_receive_packet fuel error_success r w
        ≡ some (
            rearm wsa_recv
              (error_of answer, noted answer (record r { zero_byte_recv = false }), w'))
  unfolding on_receive
  on_receive_drained r fuel z reads h = simp (z, drain_lem recv on_receive_packet _ reads fuel h)

  rearm_success :
      (r : SessionReceiver) (w w' : W) (result : Option ℕ)
      → wsa_recv w ≡ (result, w')
      → receive_result result ≡ 0
      → rearm wsa_recv (error_success, r, w) ≡ (record r { zero_byte_recv = true }, w')
  unfolding rearm begin_receive
  rearm_success r w w' result e z = simp (e, z)

  rearm_fails :
      (error : ℕ) (r : SessionReceiver) (w : W)
      → error ≢ 0
      → is_retryable error ≡ false
      → rearm wsa_recv (error, r, w) ≡ (record r { recv_error = error }, w)
  unfolding rearm on_error
  rearm_fails error r w ne f = simp (eq_false error 0 ne, f)

  rearm_retries :
      (error : ℕ) (r : SessionReceiver) (w w' : W) (result : Option ℕ)
      → is_retryable error ≡ true
      → wsa_recv w ≡ (result, w')
      → rearm wsa_recv (error, r, w) ≡ (record r { zero_byte_recv = true }, w')
  unfolding rearm on_error begin_receive
  rearm_retries error r w w' result t e = simp (eq_false error 0 (retryable_ne error t), t, e)

  -- A completed receive whose socket is read until it would block: every chunk is handed on, once
  -- and in order, and the next receive is started.
  pub on_receive_would_block :
      {w w' w'' : W} {chunks : List (List ℕ)} (r : SessionReceiver) (fuel : ℕ) (result : Option ℕ)
      → r.zero_byte_recv ≡ true
      → Reads recv on_receive_packet w chunks (failed wsa_e_would_block) w'
      → length chunks < fuel
      → wsa_recv w' ≡ (result, w'')
      → receive_result result ≡ 0
      → on_receive wsa_recv recv on_receive_packet fuel error_success r w
        ≡ some (record r { zero_byte_recv = true }, w'')
  on_receive_would_block {w'' = w''} r fuel result z reads h e ok_ =
      on_receive_drained r fuel z reads h
      ∙ ap some (rearm_success (record r { zero_byte_recv = false }) _ w'' result e ok_)

  -- A completed receive whose socket fails: the chunks before the failure are handed on. After one
  -- of the three errors `WSARecv` is called once more, whatever it returns; after any other the error
  -- is noted and no receive is started.
  pub on_receive_failed :
      {w w' : W} {chunks : List (List ℕ)} (r : SessionReceiver) (fuel error : ℕ)
      → r.zero_byte_recv ≡ true
      → error ≢ 0
      → error ≢ wsa_e_would_block
      → Reads recv on_receive_packet w chunks (failed error) w'
      → length chunks < fuel
      → on_receive wsa_recv recv on_receive_packet fuel error_success r w ≡ (
          if is_retryable error
          then some (record r { zero_byte_recv = true }, (wsa_recv w').1)
          else some (record r { zero_byte_recv = false; recv_error = error }, w'))
  on_receive_failed {w = w} {w' = w'} r fuel error z ne nb reads h =
      elim (Bool-cases (is_retryable error)) [
        | inl t ↦
            rw t (
              drained
              ∙ ap some (rearm_retries error idle w' (wsa_recv w').1 (wsa_recv w').0 t refl))
        | inr f ↦ rw f (drained ∙ ap some (rearm_fails error idle w' ne f))
      ]
    where
      idle : SessionReceiver
      idle = record r { zero_byte_recv = false }

      drained :
          on_receive wsa_recv recv on_receive_packet fuel error_success r w
          ≡ some (rearm wsa_recv (error, idle, w'))
      drained =
          on_receive_drained r fuel z reads h
          ∙ ap (λ b. some (rearm wsa_recv (if b then error_success else error, idle, w')))
              (eq_false error wsa_e_would_block nb)

  -- A peer that has closed: the error is noted, and the next receive is started all the same.
  pub on_receive_closed :
      {w w' w'' : W} {chunks : List (List ℕ)} (r : SessionReceiver) (fuel : ℕ) (result : Option ℕ)
      → r.zero_byte_recv ≡ true
      → Reads recv on_receive_packet w chunks (read []) w'
      → length chunks < fuel
      → wsa_recv w' ≡ (result, w'')
      → receive_result result ≡ 0
      → on_receive wsa_recv recv on_receive_packet fuel error_success r w
        ≡ some (record r { zero_byte_recv = true; recv_error = wsa_e_conn_reset }, w'')
  on_receive_closed {w'' = w''} r fuel result z reads h e ok_ =
      on_receive_drained r fuel z reads h
      ∙ ap some (
          rearm_success (record r { zero_byte_recv = false; recv_error = wsa_e_conn_reset }) _ w''
            result e ok_)
