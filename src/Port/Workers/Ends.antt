-- ===== src/Port/Workers/Ends.antt =====
-- How the workers of a closed port end.
use native.Mathlib.Nat.{eq-zero-or-pos}
use cpp_iocplib.Base.{
  inr, inl, ◌⊎◌, zero, append-nil, refl, arith, ap, ◌∙◌, sym, suc, replicate, ◌++◌, ◌+◌, ◌<◌, List,
  ℕ, ◌≡◌, [], ◌∷◌, length, length-append, ◌≢◌, ◌*◌,
}
use mathlib.Core.Path.{subst}
use mathlib.Core.List.Perm
use mathlib.Core.List.{Perm}
use cpp_iocplib.Port.{
  stop_completion, Completion, Call, IoCompletionPort, run_round, call_list, stops,
}
use cpp_iocplib.Port.Workers.{
  Pool, take_one, make_one, Step, takes, makes, Reach, AllReal, calls_for, Inv, Reach-Inv, closing,
  length-call_list,
}

cons_nil : {A : Type 0} {x : A} {xs : List A} → x ∷ xs ≡ [] → ⊥
cons_nil h = cc

replicate_nil : (n : ℕ) (e : Completion) → replicate n e ≡ [] → n ≡ 0
replicate_nil zero e h = refl
replicate_nil (suc n) e h = cc

-- A worker waits as long as a completion is queued and no call is held.
queued-waiting :
    {all : List Completion} {p : Pool} (e : Completion) (es : List Completion)
    → Inv all p
    → p.queue ≡ e ∷ es
    → p.held ≡ []
    → 0 < p.waiting
queued-waiting {all} {p} e es i q h = elim (eq-zero-or-pos p.waiting) [
  | inr w ↦ w
  | inl z ↦
      let idle : p.waiting + length p.held ≡ 0 = omega (arith, z, ap length h) in
      elim i.manned [
        | inr m ↦ omega (arith, idle)
        | inl r ↦ absurd (
            cons_nil (
              sym q
              ∙ i.queued
              ∙ ap (λ k. i.rest ++ replicate k stop_completion) idle
              ∙ append-nil i.rest
              ∙ r))
      ]
]

goes_on :
    {all : List Completion} {p : Pool}
    → Inv all p
    → (queue : List Completion) (held : List Call) → p.queue ≡ queue
    → p.held ≡ held
    → (queue ≢ []) ⊎ (held ≢ [])
    → (q : Pool) × Step p q
goes_on i queue (c ∷ after) e h some_ = (_, makes [] c after h)
goes_on i [] [] e h some_ = absurd (elim some_ [ inl n ↦ n refl | inr n ↦ n refl ])
goes_on i (x ∷ xs) [] e h some_ = (_, takes x xs e (queued-waiting x xs i e h))

-- What there is still to do, a completion counted twice.
abbrev pub left_to_do : Pool → ℕ
left_to_do p = 2 * length p.queue + length p.held

Step-left_to_do : {p q : Pool} → Step p q → left_to_do q < left_to_do p
unfolding take_one make_one
Step-left_to_do {p} (takes e es q h) = elim (length-call_list (run_round e).1) [
  | inl z ↦ omega (arith, z, ap length q, length-append p.held (call_list (run_round e).1))
  | inr z ↦ omega (arith, z, ap length q, length-append p.held (call_list (run_round e).1))
]
Step-left_to_do {p} (makes before c after q) =
    omega (arith, ap length q, length-append before (c ∷ after), length-append before after)

all_done :
    {all : List Completion} {p : Pool}
    → Inv all p
    → p.queue ≡ []
    → p.held ≡ []
    → (p.waiting ≡ 0) × Perm p.made (calls_for all)
all_done {all} {p} i q h = by_rest i.rest i.queued i.called
  where
    by_rest :
        (rest : List Completion)
        → p.queue ≡ rest ++ replicate (p.waiting + length p.held) stop_completion
        → Perm (p.made ++ (p.held ++ calls_for rest)) (calls_for all)
        → (p.waiting ≡ 0) × Perm p.made (calls_for all)
    by_rest [] e c = (
      omega (arith, replicate_nil (p.waiting + length p.held) stop_completion (sym e ∙ q)),
      subst (λ l. Perm l (calls_for all)) (ap (λ l. p.made ++ (l ++ [])) h ∙ append-nil p.made) c,
    )
    by_rest (x ∷ rest) e c = absurd (cons_nil (sym e ∙ q))

-- A port is closed that has workers, all of them in `Run` with no call, over a queue of completions
-- none of which is null; nothing is queued behind those that `Close` posts. However the workers take
-- turns, each taking a completion and making its call later: as long as a completion is queued or a
-- call is held some worker can go on; each step leaves less to do; and when nothing is left, every
-- worker has ended, and the calls that the completions asked for have been made, each once, with their
-- own data, error and count, in some order.
pub closing_ends :
    (es : List Completion) (port : IoCompletionPort) {p : Pool}
    → AllReal es
    → 0 < port.workers
    → Reach (closing es port) p
    → ((p.queue ≢ []) ⊎ (p.held ≢ []) → (q : Pool) × Step p q)
      × ((q : Pool) → Step p q → left_to_do q < left_to_do p)
      × (p.queue ≡ [] → p.held ≡ [] → (p.waiting ≡ 0) × Perm p.made (calls_for es))
unfolding closing stops
closing_ends es port {p} a m r =
    (goes_on i p.queue p.held refl refl, λ q s. Step-left_to_do s, λ e h. all_done i e h)
  where
    start : Inv es (closing es port)
    start = record {
      rest = es;
      real = a;
      queued = ap (λ k. es ++ replicate k stop_completion) (omega arith);
      called = Perm.rfl;
      manned = inr (omega arith);
    }

    i : Inv es p
    i = Reach-Inv start r
