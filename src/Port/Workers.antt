-- ===== src/Port/Workers.antt =====
-- The workers of lib/iocplib/io_completion_port.h that share the queue of a port that is closed. A
-- worker takes a completion and makes its call afterwards, with no lock: the calls of several workers
-- can be made in another order than that of the queue.
pub mod Ends
use native.Mathlib.Nat.{eq-zero-or-pos}
use cpp_iocplib.Base.{
  inr, inl, ◌⊎◌, zero, append-nil, refl, arith, append_assoc, ap, ◌∙◌, sym, suc, false, replicate,
  ◌++◌, ◌-◌, ◌+◌, if◌then◌else◌, Option, ◌<◌, List, ℕ, ◌≡◌, [], ◌∷◌, none, some, length,
  length-append, ◌≢◌, ◌*◌,
}
use mathlib.Core.Path.{subst, subst₂}
use mathlib.Core.List.Perm
use mathlib.Core.List.{Perm, perm_middle}
use cpp_iocplib.Port.{
  dispatch, stop_completion, Completion, Context, Call, IoCompletionPort, run_round, call_list,
  stops,
}

-- Workers that share a queue: how many wait for a completion, the calls that the others have taken
-- and not made yet, and those made.
pub record Pool : Type 0 where
  pub queue : List Completion
  pub waiting : ℕ
  pub held : List Call
  pub made : List Call

-- A worker that waits takes the next completion: it leaves `Run`, goes on to its call, or waits again.
unfoldable pub take_one : Pool → Completion → List Completion → Pool
take_one p e es =
    let (stop, call) = run_round e in
    record p {
      queue = es;
      waiting = if stop then p.waiting - 1 else p.waiting - length (call_list call);
      held = p.held ++ call_list call;
    }

-- A worker makes the call that it has taken, and waits again.
unfoldable pub make_one : Pool → List Call → Call → List Call → Pool
make_one p before c after = record p {
  waiting = suc p.waiting;
  held = before ++ after;
  made = p.made ++ c ∷ [];
}

pub data Step (p : Pool) : Pool → Type 0 where
  takes :
      (e : Completion) (es : List Completion)
      → p.queue ≡ e ∷ es
      → 0 < p.waiting
      → Step p (take_one p e es)
  makes :
      (before : List Call) (c : Call) (after : List Call)
      → p.held ≡ before ++ c ∷ after
      → Step p (make_one p before c after)

pub data Reach (p : Pool) : Pool → Type 0 where
  here : Reach p p
  next : {q r : Pool} → Reach p q → Step q r → Reach p r

abbrev pub IsReal : Option Context → Type 0
IsReal none = ⊥
IsReal (some c) = Unit {0}

-- The completions of sockets and of posts, none of them null.
abbrev pub AllReal : List Completion → Type 0
AllReal [] = Unit {0}
AllReal (e ∷ es) = IsReal e.context × AllReal es

-- The call that a completion asks for: of its callback, if that lives, with its own data, error and
-- count of bytes.
abbrev call_to : Option ℕ → Context → Completion → List Call
call_to none c e = []
call_to (some t) c e =
    record { target = t; data_ = c.data_; error = e.error; transferred = e.transferred } ∷ []

abbrev call_in : Option Context → Completion → List Call
call_in none e = []
call_in (some c) e = call_to c.callback c e

abbrev pub calls_for : List Completion → List Call
calls_for [] = []
calls_for (e ∷ es) = call_in e.context e ++ calls_for es

-- What is left of the real completions stands before one null completion for each worker in `Run`.
record Inv (all : List Completion) (p : Pool) : Type 0 where
  rest : List Completion
  real : AllReal rest
  queued : p.queue ≡ rest ++ replicate (p.waiting + length p.held) stop_completion
  called : Perm (p.made ++ (p.held ++ calls_for rest)) (calls_for all)
  manned : (rest ≡ []) ⊎ (0 < p.waiting + length p.held)

-- What a round does of a completion that is real.
run_round-real :
    (e : Completion)
    → IsReal e.context
    → ((run_round e).0 ≡ false) × (call_list (run_round e).1 ≡ call_in e.context e)
unfolding run_round dispatch
run_round-real e h = by_context e.context h
  where
    by_callback :
        (c : Context) (t : Option ℕ)
        → call_list (elim t as (λ _. Option Call) [
          | none ↦ none
          | some t' ↦ some (record {
            target = t';
            data_ = c.data_;
            error = e.error;
            transferred = e.transferred;
          })
        ])
          ≡ call_to t c e
    by_callback c none = refl
    by_callback c (some t) = refl

    by_context :
        (o : Option Context)
        → IsReal o
        → ((dispatch o e.error e.transferred).0 ≡ false)
          × (call_list (dispatch o e.error e.transferred).1 ≡ call_in o e)
    by_context none h' = absurd h'
    by_context (some c) h' = (refl, by_callback c c.callback)

length-call_list : (c : Option Call) → (length (call_list c) ≡ 0) ⊎ (length (call_list c) ≡ 1)
length-call_list none = inl refl
length-call_list (some c) = inr refl

take_stop :
    (all : List Completion) (p : Pool) (n : ℕ)
    → p.waiting + length p.held ≡ suc n
    → 0 < p.waiting
    → Perm (p.made ++ (p.held ++ [])) (calls_for all)
    → Inv all (take_one p stop_completion (replicate n stop_completion))
unfolding take_one run_round dispatch
take_stop all p n e w c = record {
  rest = [];
  real = tt;
  queued = ap (λ k. replicate k stop_completion) (omega (arith, length-append p.held []));
  called = subst (λ h. Perm (p.made ++ h) (calls_for all)) (sym (append-nil (p.held ++ []))) c;
  manned = inl refl;
}

take_real :
    (all : List Completion) (p : Pool) (e : Completion) (rest : List Completion)
    → IsReal e.context
    → AllReal rest
    → 0 < p.waiting
    → Perm (p.made ++ (p.held ++ (call_in e.context e ++ calls_for rest))) (calls_for all)
    → Inv all (take_one p e (rest ++ replicate (p.waiting + length p.held) stop_completion))
unfolding take_one
take_real all p e rest h a w c =
    let (on, calls) = run_round-real e h in
    let call = call_list (run_round e).1 in
    let same : (p.waiting - length call) + length (p.held ++ call) ≡ p.waiting + length p.held =
      elim (length-call_list (run_round e).1) [
        | inl z ↦ omega (arith, z, length-append p.held call)
        | inr z ↦ omega (arith, z, length-append p.held call)
      ] in
    rw on (record {
      rest = rest;
      real = a;
      queued = ap (λ k. rest ++ replicate k stop_completion) (sym same);
      called =
          subst (λ l. Perm (p.made ++ l) (calls_for all))
            (ap (λ l. p.held ++ (l ++ calls_for rest)) (sym calls)
              ∙ sym (append_assoc p.held call (calls_for rest)))
            c;
      manned = inr (omega (arith, same));
    })

-- A step by what stands first.
take-Inv :
    (all rest : List Completion) (n : ℕ) (p : Pool) (e : Completion) (es : List Completion)
    → p.waiting + length p.held ≡ n
    → 0 < p.waiting
    → AllReal rest
    → Perm (p.made ++ (p.held ++ calls_for rest)) (calls_for all)
    → rest ++ replicate n stop_completion ≡ e ∷ es
    → Inv all (take_one p e es)
take-Inv all [] zero p e es r h a c q = absurd (omega arith)
take-Inv all [] (suc n) p e es r h a c q =
    let first : stop_completion ≡ e = cc in
    let others : replicate n stop_completion ≡ es = cc in
    subst₂ (λ e es. Inv all (take_one p e es)) first others (take_stop all p n r h c)
take-Inv all (x ∷ rest) n p e es r h a c q =
    let first : x ≡ e = cc in
    let others : rest ++ replicate (p.waiting + length p.held) stop_completion ≡ es =
      ap (λ k. rest ++ replicate k stop_completion) r ∙ cc in
    subst₂ (λ e es. Inv all (take_one p e es)) first others (take_real all p x rest a.0 a.1 h c)

-- A call that is made is moved, and its worker waits again.
make-Inv :
    (all : List Completion) (p : Pool) (before : List Call) (c : Call) (after : List Call)
    → p.held ≡ before ++ c ∷ after
    → Inv all p
    → Inv all (make_one p before c after)
unfolding make_one
make-Inv all p before c after q i =
    let same : suc p.waiting + length (before ++ after) ≡ p.waiting + length p.held =
      omega (arith, ap length q, length-append before (c ∷ after), length-append before after) in
    let moved : Perm ((p.made ++ c ∷ []) ++ ((before ++ after) ++ calls_for i.rest))
        (p.made ++ (p.held ++ calls_for i.rest)) =
      subst₂ Perm (sym (append_assoc p.made (c ∷ []) _))
        (ap (λ l. p.made ++ (l ++ calls_for i.rest)) (sym q))
        (Perm.append_left p.made
          (Perm.append_right (calls_for i.rest) (Perm.symm (perm_middle before after)))) in
    record {
      rest = i.rest;
      real = i.real;
      queued = i.queued ∙ ap (λ k. i.rest ++ replicate k stop_completion) (sym same);
      called = Perm.trans moved i.called;
      manned = elim i.manned [ inl z ↦ inl z | inr z ↦ inr (omega (arith, same)) ];
    }

Step-Inv : {all : List Completion} {p q : Pool} → Step p q → Inv all p → Inv all q
Step-Inv {all} {p} (takes e es q h) i =
    take-Inv all i.rest (p.waiting + length p.held) p e es refl h i.real i.called (sym i.queued ∙ q)
Step-Inv {all} {p} (makes before c after q) i = make-Inv all p before c after q i

Reach-Inv : {all : List Completion} {p q : Pool} → Inv all p → Reach p q → Inv all q
Reach-Inv i here = i
Reach-Inv i (next r st) = Step-Inv st (Reach-Inv i r)

-- The pool that `Close` leaves to its workers: the completions queued before, and behind them those
-- that `Close` posts.
unfoldable pub closing : List Completion → IoCompletionPort → Pool
closing es p = record { queue = es ++ stops p; waiting = p.workers; held = []; made = [] }
