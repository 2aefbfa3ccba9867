-- ===== src/ServerSession/Received.antt =====
-- The server's `ClientSession` behind its `SessionReceiver`: the chunks that the receiver reads at each
-- completion go to `OnReceivePacket`.
use cpp_iocplib.Base.{
  [], ◌∷◌, ◌++◌, ◌≡◌, ◌∙◌, sym, ap, refl, none, some, true, suc, length, concat, arith, Bool, List,
  Option, ℕ, ◌+◌,
}
use mathlib.Core.Option.{some-injective}
use mathlib.Core.Path.{subst}
use cpp_iocplib.WinError.{error_success, wsa_e_would_block}
use cpp_iocplib.FlatBuffers.{FlatBuffers}
use cpp_iocplib.FlatBuffers.Laws.{IsLawful}
use cpp_iocplib.Session.Receiver.{
  SessionReceiver, RecvResult, read, failed, on_receive, receive_result,
}
use cpp_iocplib.Session.Receiver.Drain.{Reads, last, chunk}
use cpp_iocplib.Session.Receiver.Laws.{on_receive_would_block}
use cpp_iocplib.Message.Client.Built
use cpp_iocplib.ServerSession.{ClientSession, on_receive_packet}
use cpp_iocplib.ServerSession.Rounds.{Holds, on_receive_packet_total}
use cpp_iocplib.ServerSession.Stream.{
  AllNonEmpty, Arrival, chunks_of, receive_chunks, receive_chunks-append,
}
use cpp_iocplib.ServerSession.Handlers.{verify_payload, handle_payload}
use cpp_iocplib.ServerSession.Answers.{Carries, answered, receive_chunks-answers}

-- What `recv` still returns before it would block, the server's session, and how many times `WSARecv`
-- has been called.
pub record World (S : Type 0) : Type 0 where
  pub chunks : List (List ℕ)
  pub session : Option (ClientSession S)
  pub started : ℕ

-- A receive that waits for its completion.
abbrev pub armed : ℕ → SessionReceiver
armed error = record { session = true; zero_byte_recv = true; recv_error = error }

module _ {S : Type 0} where
  abbrev next_chunk : World S → List (List ℕ) → RecvResult × World S
  next_chunk w [] = (failed wsa_e_would_block, w)
  next_chunk w (x ∷ xs) = (read x, record w { chunks = xs })

  abbrev pub next_recv : ℕ → World S → RecvResult × World S
  next_recv n w = next_chunk w w.chunks

  -- What the n-th call of `WSARecv` returns is arbitrary.
  abbrev pub start_recv : (ℕ → Option ℕ) → World S → Option ℕ × World S
  start_recv receives w = (receives w.started, record w { started = suc w.started })

AllNonEmpty-split :
    (xs ys : List (List ℕ)) → AllNonEmpty (xs ++ ys) → AllNonEmpty xs × AllNonEmpty ys
AllNonEmpty-split [] ys h = (tt, h)
AllNonEmpty-split (x ∷ xs) ys h = let (hx, hy) = AllNonEmpty-split xs ys h.1 in ((h.0, hx), hy)

module _ {S : Type 0} (receives : ℕ → Option ℕ) (verify : List ℕ → Bool)
    (on_packet : List ℕ → S → S) where
  abbrev give : List ℕ → Option (ClientSession S) → Option (ClientSession S)
  give bs none = none
  give bs (some c) = on_receive_packet verify on_packet c bs (length bs)

  abbrev pub to_session : List ℕ → World S → World S
  to_session bs w = record w { session = give bs w.session }

  -- Completions without error, one after another; before each, chunks have come to the socket.
  pub completions :
      List (List (List ℕ)) → SessionReceiver → World S → Option (SessionReceiver × World S)
  completions [] r w = some (r, w)
  completions (xs ∷ xss) r w =
      elim (on_receive (start_recv receives) next_recv to_session (suc (length (w.chunks ++ xs)))
        error_success r (record w { chunks = w.chunks ++ xs })) [
          | none ↦ none
          | some (r', w') ↦ completions xss r' w'
        ]

  receive_chunks_total :
      (c : ClientSession S) (xs : List (List ℕ))
      → (d : ClientSession S) × (receive_chunks verify on_packet c xs ≡ some d)
  unfolding receive_chunks
  receive_chunks_total c [] = (c, refl)
  receive_chunks_total c (x ∷ xs) =
      let (c', e) = on_receive_packet_total verify on_packet c x (length x) in
      let (d, run) = receive_chunks_total c' xs in (d, rw (e, receive_chunks) run)

  Reads-receive_chunks :
      (xs : List (List ℕ)) (c d : ClientSession S) (k : ℕ)
      → AllNonEmpty xs
      → receive_chunks verify on_packet c xs ≡ some d
      → Reads next_recv to_session
          (record { chunks = xs; session = some c; started = k })
          xs
          (failed wsa_e_would_block)
          (record { chunks = []; session = some d; started = k })
  unfolding receive_chunks
  Reads-receive_chunks [] c d k h e =
      last
        (ap (λ x. (failed wsa_e_would_block, record { chunks = []; session = some x; started = k }))
          (some-injective c d e))
        tt
  Reads-receive_chunks ([] ∷ xs) c d k h e = absurd (omega (arith, h.0))
  Reads-receive_chunks ((b ∷ bs) ∷ xs) c d k h e =
      let (c', run) = on_receive_packet_total verify on_packet c (b ∷ bs) (length (b ∷ bs)) in
      chunk b bs refl (
        subst
          (λ o.
            Reads next_recv to_session (record { chunks = xs; session = o; started = k }) xs
              (failed wsa_e_would_block) (record { chunks = []; session = some d; started = k }))
          (sym run) (Reads-receive_chunks xs c' d k h.1 (rw (run, receive_chunks) at e)))

  -- Every completion calls `WSARecv` once.
  completions-receive_chunks :
      (xss : List (List (List ℕ))) (c d : ClientSession S) (error k : ℕ)
      → ((n : ℕ) → receive_result (receives n) ≡ error_success)
      → AllNonEmpty (concat xss)
      → receive_chunks verify on_packet c (concat xss) ≡ some d
      → completions xss (armed error) (record { chunks = []; session = some c; started = k })
        ≡ some (armed error, record { chunks = []; session = some d; started = length xss + k })
  unfolding completions receive_chunks
  completions-receive_chunks [] c d error k ok_ h e =
      let same : k ≡ 0 + k = omega arith in
      ap (λ x. some (armed error, record { chunks = []; session = some x; started = k }))
        (some-injective c d e)
      ∙ ap (λ n. some (armed error, record { chunks = []; session = some d; started = n })) same
  completions-receive_chunks (xs ∷ xss) c d error k ok_ h e =
      let (hx, hs) = AllNonEmpty-split xs (concat xss) h in
      let (c', run) = receive_chunks_total c xs in
      let more : length xss + suc k ≡ suc (length xss) + k = omega arith in
      let once =
        on_receive_would_block (start_recv receives) next_recv to_session (armed error)
          (suc (length xs)) (receives k) refl (Reads-receive_chunks xs c c' k hx run) (omega arith)
          refl (ok_ k) in
      rw (once, completions)
        (completions-receive_chunks xss c' d error (suc k) ok_ hs
            (sym (receive_chunks-append verify on_packet c c' xs (concat xss) run) ∙ e)
          ∙ ap (λ n. some (armed error, record { chunks = []; session = some d; started = n }))
              more)

module _ (fb : FlatBuffers) (L : IsLawful fb) {S : Type 0} (receives : ℕ → Option ℕ)
    (send_async : List ℕ → S → S) where
  -- The frames of a client's messages come to the server's socket in chunks, none empty and none with
  -- bytes of two of them. Any number of chunks, or none, come before each completion of the session's
  -- receive, every completion is without error, the socket is read until it would block, and every
  -- `WSARecv` can be started. Then every `OnReceive` returns and calls `WSARecv` once, so that as many
  -- receives are started as have completed, and notes no error; the session has sent the answer to
  -- each message, once and in order, and nothing else; no null pointer has been dereferenced, and
  -- nothing stays gathered.
  pub completions-answers :
      (ms : List Built.Content) (as_ : List Arrival) (xss : List (List (List ℕ))) (s : S)
      (c : ClientSession (Option S)) (error k : ℕ)
      → ((n : ℕ) → receive_result (receives n) ≡ error_success)
      → Carries fb L send_async ms as_
      → AllNonEmpty (chunks_of as_)
      → concat xss ≡ chunks_of as_
      → Holds [] (some s) c
      → (c' : ClientSession (Option S)) × (completions receives
            (verify_payload fb)
            (handle_payload fb send_async)
            xss
            (armed error)
            (record { chunks = []; session = some c; started = k })
          ≡ some (armed error, record { chunks = []; session = some c'; started = length xss + k }))
        × Holds [] (some (answered fb L send_async ms s)) c'
  completions-answers ms as_ xss s c error k ok_ h n e held_ =
      let (c', run, held) = receive_chunks-answers fb L send_async ms as_ s c h held_ in
      (
        c',
        completions-receive_chunks receives (verify_payload fb) (handle_payload fb send_async) xss c
            c' error k ok_ (subst AllNonEmpty (sym e) n)
            (ap (receive_chunks (verify_payload fb) (handle_payload fb send_async) c) e ∙ run),
        held,
      )
