-- ===== src/Session/Receiver/Drain.antt =====
-- What the loop of `OnReceive` reads and hands on.
use cpp_iocplib.Base.{
  ◌∙◌, ap, arith, ◌<◌, ◌==◌, length, if◌then◌else◌, List, ℕ, zero, suc, ◌≡◌, [], ◌∷◌, some,
}
use cpp_iocplib.WinError.{error_success, wsa_e_would_block, wsa_e_conn_reset}
use cpp_iocplib.Session.Receiver.{
  SessionReceiver, RecvResult, read, failed, socket_buffer_size, drain, after_recv,
}

-- The answers that end the loop.
abbrev pub IsLast : RecvResult → Type 0
IsLast (failed err) = Unit {0}
IsLast (read []) = Unit {0}
IsLast (read (b ∷ bs)) = ⊥

-- The error that the last answer leaves, and what it changes in the receiver.
abbrev pub error_of : RecvResult → ℕ
error_of (failed err) = if err == wsa_e_would_block then error_success else err
error_of (read bytes) = error_success

abbrev pub noted : RecvResult → SessionReceiver → SessionReceiver
noted (failed err) r = r
noted (read bytes) r = record r { recv_error = wsa_e_conn_reset }

module _ {W : Type 0} (recv : ℕ → W → RecvResult × W) (on_receive_packet : List ℕ → W → W) where
  -- From one world to another: calls of `recv` that read the chunks, each chunk handed on before
  -- the next call, and a last call with the answer that ends the loop.
  pub data Reads : W → List (List ℕ) → RecvResult → W → Type 0 where
    last :
        {w w' : W} {answer : RecvResult}
        → recv socket_buffer_size w ≡ (answer, w')
        → IsLast answer
        → Reads w [] answer w'
    chunk :
        {w w' w'' : W} {answer : RecvResult} {chunks : List (List ℕ)} (b : ℕ) (bs : List ℕ)
        → recv socket_buffer_size w ≡ (read (b ∷ bs), w')
        → Reads (on_receive_packet (b ∷ bs) w') chunks answer w''
        → Reads w ((b ∷ bs) ∷ chunks) answer w''

  -- The loop makes exactly these calls, if it may make as many.
  pub drain_lem :
      {w w' : W} {answer : RecvResult} {chunks : List (List ℕ)} (r : SessionReceiver)
      → Reads w chunks answer w'
      → (fuel : ℕ) → length chunks < fuel
      → drain recv on_receive_packet fuel r w ≡ some (error_of answer, noted answer r, w')
  unfolding drain after_recv
  drain_lem r reads zero h = absurd (omega arith)
  drain_lem r (last {answer = failed err} e l) (suc fuel) h =
      ap (after_recv recv on_receive_packet (drain recv on_receive_packet fuel r) r) e
  drain_lem r (last {answer = read []} e l) (suc fuel) h =
      ap (after_recv recv on_receive_packet (drain recv on_receive_packet fuel r) r) e
  drain_lem r (last {answer = read (b ∷ bs)} e l) (suc fuel) h = absurd l
  drain_lem {w = w} {w' = w'} {answer = answer} r (chunk {w' = w''} {chunks = chunks} b bs e reads)
        (suc fuel) h =
      ap (after_recv recv on_receive_packet (drain recv on_receive_packet fuel r) r) e
      ∙ drain_lem {w = on_receive_packet (b ∷ bs) w''} {w' = w'} {answer = answer} {chunks = chunks}
          r reads fuel (omega arith)
