-- ===== src/Session/Sender/Invariant.antt =====
-- The invariant of `SessionSender` in its system.
use cpp_iocplib.Base.{
  none, if◌then◌else◌, Option-cases, ◌==◌, append_assoc, sym, append-nil, Bool-cases, take, ◌^◌,
  ◌<◌, ◌+◌, ◌∙◌, arith, ◌++◌, ◌⊎◌, length, Option, ◌≤◌, ap, List, Bool, ℕ, ◌≡◌, refl, [], ◌∷◌, true,
  false, inl, inr,
}
use mathlib.Core.Path.{ap₂}
use cpp_iocplib.Session.Sender.{
  on_accept, new, allocate, post_signal, on_send, send_async, SessionSender, acknowledge,
}
use cpp_iocplib.Session.Sender.Bytes.{
  bytes_of, in_flight, unsent, IsValid, bytes_of-append, AllSized-append,
}
use cpp_iocplib.Session.Sender.System.{
  here, next, start, Reach, completes, post_completion, sends_packet, bytes_in, Step,
  after_completion, after_send, System, Operation, signal, write, Kernel,
}
use cpp_iocplib.Wire.Laws.{allocate-bytes}
use cpp_iocplib.Packet.Frame.{frame, IsSendable, length-frame}
use cpp_iocplib.Session.Sender.Begin.{Outstanding, acknowledge_lem, Sent, send_again-Sent}

-- The one operation that is pending is all that is, and its bytes are those in flight.
Outstanding-head :
    (posted : Bool) (op : Operation) (others : List Operation) (bs : List ℕ)
    → Outstanding posted (op ∷ others) bs
    → (posted ≡ true) × (others ≡ []) × ((op ≡ signal) ⊎ (bytes_in op ≡ bs))
Outstanding-head true signal [] bs o = (refl, refl, inl refl)
Outstanding-head true (write w) [] bs o = (refl, refl, inr o)
Outstanding-head true signal (x ∷ others) bs o = absurd o
Outstanding-head true (write w) (x ∷ others) bs o = absurd o
Outstanding-head false op others bs o = absurd o

-- So a count of its bytes is one of the bytes in flight.
count_in_flight :
    (op : Operation) (bs : List ℕ) (n : ℕ)
    → (op ≡ signal) ⊎ (bytes_in op ≡ bs)
    → n ≤ length (bytes_in op)
    → (n ≤ length bs) × (take n (bytes_in op) ≡ take n bs)
count_in_flight op bs n (inl e) h =
    let z : n ≡ 0 = omega (arith, ap (λ o. length (bytes_in o)) e) in rw z (omega arith, refl)
count_in_flight op bs n (inr e) h = (omega (arith, ap length e), ap (take n) e)

Outstanding-idle :
    (pending : List Operation) (bs : List ℕ) → Outstanding false pending bs → pending ≡ []
Outstanding-idle [] bs o = refl
Outstanding-idle (x ∷ pending) bs o = absurd o

at_most_one :
    (posted : Bool) (pending : List Operation) (bs : List ℕ)
    → Outstanding posted pending bs
    → length pending ≤ 1
at_most_one posted [] bs o = omega arith
at_most_one posted (op ∷ others) bs o =
    omega (arith, ap length (Outstanding-head posted op others bs o).1)

-- A packet put into the queue comes behind all bytes to send.
enqueue : SessionSender → List ℕ → SessionSender
enqueue s d = record s { send_queue = s.send_queue ++ allocate d (length d) ∷ [] }

enqueue-IsValid :
    (s : SessionSender) (d : List ℕ) → IsSendable d → IsValid s → IsValid (enqueue s d)
unfolding enqueue
enqueue-IsValid s d h v = record {
  queue_sized =
      AllSized-append s.send_queue (allocate d (length d) ∷ []) v.queue_sized
        (omega (arith, size), omega (arith, size), tt);
  sending_sized = v.sending_sized;
  offset_fits = v.offset_fits;
}
  where
    size : length (allocate d (length d)).bytes ≡ length d + 4
    size = omega (arith, ap length (allocate-bytes d h), length-frame d)

enqueue-unsent :
    (s : SessionSender) (d : List ℕ) → IsSendable d → unsent (enqueue s d) ≡ unsent s ++ frame d
unfolding enqueue
enqueue-unsent s d h =
    ap (λ bs. in_flight s ++ bs)
      (bytes_of-append s.send_queue (allocate d (length d) ∷ [])
        ∙ ap (λ bs. bytes_of s.send_queue ++ bs) (append-nil _ ∙ allocate-bytes d h))
    ∙ sym (append_assoc (in_flight s) (bytes_of s.send_queue) (frame d))

acknowledge-signal :
    (n : ℕ) (s : SessionSender) → (acknowledge n s).post_send_signal ≡ s.post_send_signal
unfolding acknowledge
acknowledge-signal n s = refl

acknowledge-session : (n : ℕ) (s : SessionSender) → (acknowledge n s).session ≡ s.session
unfolding acknowledge
acknowledge-session n s = refl

send_async-alive :
    {W : Type 0} (post : W → Option ℕ × W) (s : SessionSender) (w : W) (d : List ℕ)
    → s.session ≡ true
    → send_async post d (length d) s w ≡ post_signal post (enqueue s d) w
unfolding send_async enqueue
send_async-alive post s w d e =
    ap (λ b. if b then post_signal post (enqueue s d) w else (s, w, none)) e

module _ (sends posts : ℕ → Option ℕ) where
  -- The invariant of the system.
  pub record Inv (σ : System) : Type 0 where
    pub valid : IsValid σ.sender
    pub alive : σ.sender.session ≡ true
    pub outstanding : Outstanding σ.sender.post_send_signal σ.kernel.pending (in_flight σ.sender)
    pub total : σ.acknowledged ++ unsent σ.sender ≡ σ.accepted

  -- A signal is posted where none is, and nothing else changes.
  post_signal-Sent :
      (s : SessionSender) (k : Kernel)
      → IsValid s
      → Outstanding s.post_send_signal k.pending (in_flight s)
      → let (s', k', thrown) = post_signal (post_completion sends posts) s k in
        Sent sends posts s (s', k')
  unfolding post_signal post_completion
  post_signal-Sent s k v o = elim (Bool-cases s.post_send_signal) [
    | inl posted ↦ simp posted (record { valid = v; alive = refl; bytes = refl; outstanding = o })
    | inr idle ↦
        let none_pending : k.pending ≡ [] = Outstanding-idle k.pending _ (rw idle at o) in
        elim (Option-cases (posts k.calls)) [
          | inl fine ↦
              simp (idle, fine)
                (record {
                  valid = record {
                    queue_sized = v.queue_sized;
                    sending_sized = v.sending_sized;
                    offset_fits = v.offset_fits;
                  };
                  alive = refl;
                  bytes = refl;
                  outstanding = rw none_pending tt;
                })
          | inr (code, bad) ↦
              simp (idle, bad) (record { valid = v; alive = refl; bytes = refl; outstanding = o })
        ]
  ]

  after_send-Inv :
      (σ : System) (d : List ℕ) → IsSendable d → Inv σ → Inv (after_send sends posts σ d)
  unfolding after_send enqueue
  after_send-Inv σ d h i = rw runs (record {
    valid = sent.valid;
    alive = sent.alive ∙ i.alive;
    outstanding = sent.outstanding;
    total =
        ap (λ bs. σ.acknowledged ++ bs) (sent.bytes ∙ enqueue-unsent σ.sender d h)
        ∙ sym (append_assoc σ.acknowledged (unsent σ.sender) (frame d))
        ∙ ap (λ bs. bs ++ frame d) i.total;
  })
    where
      runs :
          send_async (post_completion sends posts) d (length d) σ.sender σ.kernel
          ≡ post_signal (post_completion sends posts) (enqueue σ.sender d) σ.kernel
      runs = send_async-alive (post_completion sends posts) σ.sender σ.kernel d i.alive

      sent :
          let (s', k', thrown) =
            post_signal (post_completion sends posts) (enqueue σ.sender d) σ.kernel in
          Sent sends posts (enqueue σ.sender d) (s', k')
      sent =
          post_signal-Sent (enqueue σ.sender d) σ.kernel (enqueue-IsValid σ.sender d h i.valid)
            i.outstanding

  after_completion-Inv :
      (σ : System) (op : Operation) (others : List Operation) (error n : ℕ)
      → σ.kernel.pending ≡ op ∷ others
      → n ≤ length (bytes_in op)
      → n + σ.sender.sending_offset < 2 ^ 32
      → Inv σ
      → Inv (after_completion sends posts σ op others error n)
  unfolding after_completion on_send
  after_completion-Inv σ op others error n e h w i =
      let (posted, alone, one) = Outstanding-head _ op others _ (rw e at i.outstanding) in
      let (fits, same) = count_in_flight op (in_flight σ.sender) n one h in
      elim (Bool-cases (error == 0)) [
        | inl fine ↦
            let (valid', settled) = acknowledge_lem n σ.sender i.valid fits w in
            let sent =
              send_again-Sent sends posts (acknowledge n σ.sender)
                (record σ.kernel { pending = others }) valid'
                (acknowledge-signal n σ.sender ∙ posted) alone in
            simp fine (record {
              valid = sent.valid;
              alive = sent.alive ∙ acknowledge-session n σ.sender ∙ i.alive;
              outstanding = sent.outstanding;
              total =
                  append_assoc σ.acknowledged (take n (bytes_in op)) _
                  ∙ ap (λ bs. σ.acknowledged ++ bs) (ap₂ ◌++◌ same sent.bytes ∙ settled)
                  ∙ i.total;
            })
        | inr bad ↦
            let sent =
              send_again-Sent sends posts σ.sender (record σ.kernel { pending = others }) i.valid
                posted alone in
            simp bad (record {
              valid = sent.valid;
              alive = sent.alive ∙ i.alive;
              outstanding = sent.outstanding;
              total =
                  append_assoc σ.acknowledged [] _
                  ∙ ap (λ bs. σ.acknowledged ++ bs) sent.bytes
                  ∙ i.total;
            })
      ]

  pub Step-Inv : {σ τ : System} → Step sends posts σ τ → Inv σ → Inv τ
  Step-Inv {σ} (sends_packet d h) i = after_send-Inv σ d h i
  Step-Inv {σ} (completes op others error n e h w) i =
      after_completion-Inv σ op others error n e h w i

  Reach-Inv : {σ τ : System} → Inv σ → Reach sends posts σ τ → Inv τ
  Reach-Inv i here = i
  Reach-Inv i (next r st) = Step-Inv st (Reach-Inv i r)

  pub start-Inv : Inv start
  unfolding start new on_accept
  start-Inv = record {
    valid = record { queue_sized = tt; sending_sized = tt; offset_fits = refl };
    alive = refl;
    outstanding = tt;
    total = refl;
  }

  -- However callers and completions take turns after the start of a session, and whatever the calls
  -- of the system return: at most one operation is started with `overlapped_context_` at a time,
  -- none while no signal is noted, and the bytes accepted are those acknowledged and then those
  -- still to send, none lost, doubled or out of order.
  pub Reach-sender :
      {τ : System}
      → Reach sends posts start τ
      → (length τ.kernel.pending ≤ 1)
        × (τ.sender.post_send_signal ≡ false → τ.kernel.pending ≡ [])
        × (τ.acknowledged ++ unsent τ.sender ≡ τ.accepted)
  Reach-sender {τ} r =
      let i = Reach-Inv start-Inv r in
      (
        at_most_one _ _ _ i.outstanding,
        λ idle. Outstanding-idle _ (in_flight τ.sender) (rw idle at i.outstanding),
        i.total,
      )
