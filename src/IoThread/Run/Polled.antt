-- ===== src/IoThread/Run/Polled.antt =====
-- Which sessions a round of the I/O thread's loop calls.
use cpp_iocplib.Base.{
  inr, inl, ℕ, zero, suc, ◌+◌, ◌≤◌, ◌<◌, Bool, true, false, List, [], ◌∷◌, length, take, drop,
  Option, none, some, ◌==◌, if◌then◌else◌, ◌≡◌, refl, sym, ap, ◌∙◌, arith,
}
use mathlib.Core.Path.{subst}
use native.Mathlib.Nat.{eq-or-lt_of_le}
use cpp_iocplib.Tables.{find_entry}
use cpp_iocplib.IoThread.{SocketIoThread, Callback, NetworkEvents, on_socket_event, callbacks}
use cpp_iocplib.IoThread.Valid.{has_event, keys, find-keys, IsValid}
use cpp_iocplib.IoThread.Run.{Round, Calls, event_at, poll_events, look_at, after_event}

-- The calls that an event leads to.
abbrev pub calls_made : Option NetworkEvents → List Callback
calls_made none = []
calls_made (some n) = callbacks n

-- For each event that is set, in order, its session in the map with the calls made of it.
pub data Serves (r : Round) (t : SocketIoThread) : List ℕ → Calls → Type 0 where
  none_left : Serves r t [] []
  passes :
      {e : ℕ} {es : List ℕ} {cs : Calls}
      → r.is_set e ≡ false
      → Serves r t es cs
      → Serves r t (e ∷ es) cs
  serves :
      {e s : ℕ} {es : List ℕ} {cs : Calls}
      → r.is_set e ≡ true
      → find_entry (λ a b. a == b) e t.socket_map ≡ some s
      → Serves r t es cs
      → Serves r t (e ∷ es) ((s, calls_made (r.enumerated e)) ∷ cs)

-- Every session's pointer can be locked.
abbrev pub Live : Round → Type 0
Live r = (s : ℕ) → (h : Option ℕ) × (r.handle_of s ≡ some h)

event_at-drop :
    (i : ℕ) (xs : List ℕ)
    → i < length xs
    → (e : ℕ) × (event_at i xs ≡ some e) × (drop i xs ≡ e ∷ drop (suc i) xs)
unfolding event_at
event_at-drop i [] h = ground arith
event_at-drop zero (x ∷ xs) h = (x, refl, refl)
event_at-drop (suc i) (x ∷ xs) h = event_at-drop i xs (omega arith)

event_at-none : (i : ℕ) (xs : List ℕ) → length xs ≤ i → event_at i xs ≡ none
unfolding event_at
event_at-none i [] h = refl
event_at-none zero (x ∷ xs) h = ground arith
event_at-none (suc i) (x ∷ xs) h = event_at-none i xs (omega arith)

has_event-event_at : (i e : ℕ) (xs : List ℕ) → event_at i xs ≡ some e → has_event e xs ≡ true
unfolding event_at
has_event-event_at i e [] h = cc
has_event-event_at zero e (x ∷ xs) h = ground arith
has_event-event_at (suc i) e (x ∷ xs) h = ground (arith, has_event-event_at i e xs)

module _ (r : Round) (t : SocketIoThread) where
  -- An event that is waited for has its session called.
  on_socket_event-found :
      (e s : ℕ) (h : Option ℕ)
      → find_entry (λ a b. a == b) e t.socket_map ≡ some s
      → r.handle_of s ≡ some h
      → on_socket_event r.handle_of e (r.enumerated e) t ≡ some (s, calls_made (r.enumerated e))
  unfolding on_socket_event
  on_socket_event-found e s h found locked =
      ap
        (λ (o : Option ℕ). elim o as (λ _. Option (ℕ × List Callback)) [
          | none ↦ none
          | some s' ↦ elim (r.handle_of s') [
            | none ↦ none
            | some _ ↦ some (s', elim (r.enumerated e) [ none ↦ [] | some n ↦ callbacks n ])
          ]
        ])
        found
      ∙ ap
          (λ (o : Option (Option ℕ)). elim o as (λ _. Option (ℕ × List Callback)) [
            | none ↦ none
            | some _ ↦ some (s, elim (r.enumerated e) [ none ↦ [] | some n ↦ callbacks n ])
          ])
          locked
      ∙ ap (λ l. some (s, l)) (same_calls (r.enumerated e))
    where
      same_calls :
          (o : Option NetworkEvents) → elim o [ none ↦ [] | some n ↦ callbacks n ] ≡ calls_made o
      same_calls none = refl
      same_calls (some n) = refl

  look_at-Serves :
      (e : ℕ) (es : List ℕ) (cs : Calls)
      → has_event e (keys t.socket_map) ≡ true
      → Live r
      → Serves r t es cs
      → (cs' : Calls) × (look_at r t (some e) (some cs) ≡ some cs') × Serves r t (e ∷ es) cs'
  look_at-Serves e es cs known live served = by_set (r.is_set e) refl
    where
      by_set :
          (b : Bool)
          → r.is_set e ≡ b
          → (cs' : Calls) × ((if b
                then after_event r t (on_socket_event r.handle_of e (r.enumerated e) t) (some cs)
                else some cs)
              ≡ some cs')
            × Serves r t (e ∷ es) cs'
      by_set false q = (cs, refl, passes q served)
      by_set true q =
          let (s, found) = find-keys e t.socket_map known in
          let (h, locked) = live s in
          (
            (s, calls_made (r.enumerated e)) ∷ cs,
            ap (λ c. after_event r t c (some cs)) (on_socket_event-found e s h found locked),
            serves q found served,
          )

  -- The loop reads no session that is not there.
  pub poll_events-Serves :
      (wake n j : ℕ)
      → IsValid wake t
      → Live r
      → suc j + n ≤ length t.events
      → (cs : Calls) × (poll_events r t n (suc j) ≡ some cs)
        × Serves r t (take n (drop (suc j) t.events)) cs
  unfolding poll_events event_at
  poll_events-Serves wake zero j v live small = ([], refl, none_left)
  poll_events-Serves wake (suc n) j v live small =
      let (e, at, rest) = event_at-drop (suc j) t.events (omega arith) in
      let (cs, run, served) = poll_events-Serves wake n (suc j) v live (omega arith) in
      let known =
        has_event-event_at j e (keys t.socket_map)
          (sym (ap (event_at (suc j)) v.events_are) ∙ at) in
      let (cs', looked, served') = look_at-Serves e _ cs known live served in
      (
        cs',
        ap (λ o. look_at r t o (poll_events r t n (suc (suc j)))) at
            ∙ ap (look_at r t (some e)) run
            ∙ looked,
        subst (λ es. Serves r t es cs') (sym (ap (take (suc n)) rest)) served',
      )

  look_at-none : (o : Option ℕ) → look_at r t o none ≡ none
  look_at-none none = refl
  look_at-none (some e) = by_set (r.is_set e) (on_socket_event r.handle_of e (r.enumerated e) t)
    where
      by_set :
          (b : Bool) (c : Option (ℕ × List Callback))
          → (if b then after_event r t c none else none) ≡ none
      by_set false c = refl
      by_set true none = refl
      by_set true (some c) = refl

  -- A loop that goes on behind the events is not defined.
  pub poll_events-past :
      (n i : ℕ) → length t.events < i + n → i ≤ length t.events → poll_events r t n i ≡ none
  unfolding poll_events
  poll_events-past zero i past before = ground arith
  poll_events-past (suc n) i past before = elim (eq-or-lt_of_le before) [
    | inl eq ↦
        ap (λ o. look_at r t o (poll_events r t n (suc i))) (event_at-none i t.events (omega arith))
    | inr lt ↦
        ap (look_at r t (event_at i t.events)) (poll_events-past n (suc i) (omega arith) lt)
        ∙ look_at-none (event_at i t.events)
  ]
