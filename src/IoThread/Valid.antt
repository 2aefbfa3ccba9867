-- ===== src/IoThread/Valid.antt =====
-- The invariant of the I/O thread's events and of the map of their sessions.
use cpp_iocplib.Base.{
  ℕ, Bool, true, false, List, [], ◌∷◌, ◌++◌, Option, none, some, ◌==◌, if◌then◌else◌, ◌≡◌, ◌≢◌,
  refl, sym, ap, ◌∙◌, arith,
}
use mathlib.Core.Option.{some-injective}
use cpp_iocplib.Tables.{find_entry, insert_entry, erase_entry}
use cpp_iocplib.IoThread.{SocketIoThread, same_handle, erase_event, enter, leave}

abbrev pub has_event : ℕ → List ℕ → Bool
has_event e [] = false
has_event e (x ∷ xs) = let rest = has_event e xs in if e == x then true else rest

abbrev pub keys : {K V : Type 0} → List (K × V) → List K
keys [] = []
keys ((k, v) ∷ m) = k ∷ keys m

-- No entry has this value.
abbrev pub Apart : {K : Type 0} → ℕ → List (K × ℕ) → Type 0
Apart w [] = Unit {0}
Apart w ((k, v) ∷ m) = (v ≢ w) × Apart w m

pub record IsValid (wake : ℕ) (t : SocketIoThread) : Type 0 where
  pub events_are : t.events ≡ wake ∷ keys t.socket_map
  pub apart : Apart wake t.event_map

pub find-keys :
    (e : ℕ) (m : List (ℕ × ℕ))
    → has_event e (keys m) ≡ true
    → (s : ℕ) × (find_entry (λ a b. a == b) e m ≡ some s)
unfolding find_entry
find-keys e [] h = cc
find-keys e ((k, v) ∷ m) h = by_test (e == k) (find-keys e m) h
  where
    by_test :
        (b : Bool)
        → (has_event e (keys m) ≡ true → (s : ℕ) × (find_entry (λ a b. a == b) e m ≡ some s))
        → (if b then true else has_event e (keys m)) ≡ true
        → (s : ℕ) × ((if b then some v else find_entry (λ a b. a == b) e m) ≡ some s)
    by_test true rest h = (v, refl)
    by_test false rest h = rest h

-- An event that is not waited for has no session.
pub find-keys-none :
    (e : ℕ) (m : List (ℕ × ℕ))
    → has_event e (keys m) ≡ false
    → find_entry (λ a b. a == b) e m ≡ none
unfolding find_entry
find-keys-none e [] h = refl
find-keys-none e ((k, v) ∷ m) h = by_test (e == k) (find-keys-none e m) h
  where
    by_test :
        (b : Bool)
        → (has_event e (keys m) ≡ false → find_entry (λ a b. a == b) e m ≡ none)
        → (if b then true else has_event e (keys m)) ≡ false
        → (if b then some v else find_entry (λ a b. a == b) e m) ≡ none
    by_test true rest h = cc
    by_test false rest h = rest h

keys-append : (m : List (ℕ × ℕ)) (e s : ℕ) → keys (m ++ (e, s) ∷ []) ≡ keys m ++ e ∷ []
keys-append [] e s = refl
keys-append ((k, v) ∷ m) e s = ap (λ l. k ∷ l) (keys-append m e s)

keys-erase :
    (e : ℕ) (m : List (ℕ × ℕ)) → keys (erase_entry (λ a b. a == b) e m) ≡ erase_event e (keys m)
unfolding erase_entry erase_event
keys-erase e [] = refl
keys-erase e ((k, v) ∷ m) = by_test (e == k) (keys-erase e m)
  where
    by_test :
        (b : Bool)
        → keys (erase_entry (λ a b. a == b) e m) ≡ erase_event e (keys m)
        → keys (if b then m else (k, v) ∷ erase_entry (λ a b. a == b) e m)
          ≡ (if b then keys m else k ∷ erase_event e (keys m))
    by_test true rest = refl
    by_test false rest = ap (λ l. k ∷ l) rest

append-Apart :
    {K : Type 0} (w : ℕ) (k : K) (v : ℕ) (m : List (K × ℕ))
    → v ≢ w
    → Apart w m
    → Apart w (m ++ (k, v) ∷ [])
append-Apart w k v [] h a = (h, tt)
append-Apart w k v ((k', v') ∷ m) h (n, a) = (n, append-Apart w k v m h a)

module _ {K : Type 0} (same : K → K → Bool) where
  insert-Apart :
      (w : ℕ) (k : K) (v : ℕ) (m : List (K × ℕ))
      → v ≢ w
      → Apart w m
      → Apart w (insert_entry same k v m)
  unfolding insert_entry
  insert-Apart w k v m h a =
      elim (find_entry same k m)
        as (λ o. Apart w (elim o [ none ↦ m ++ (k, v) ∷ [] | some _ ↦ m ])) [
          | none ↦ append-Apart w k v m h a
          | some _ ↦ a
        ]

  erase-Apart : (w : ℕ) (k : K) (m : List (K × ℕ)) → Apart w m → Apart w (erase_entry same k m)
  unfolding erase_entry
  erase-Apart w k [] a = tt
  erase-Apart w k ((k', v') ∷ m) (n, a) = by_test (same k k') (erase-Apart w k m a)
    where
      by_test :
          (b : Bool)
          → Apart w (erase_entry same k m)
          → Apart w (if b then m else (k', v') ∷ erase_entry same k m)
      by_test true rest = a
      by_test false rest = (n, rest)

  find-Apart :
      (w : ℕ) (k : K) (v : ℕ) (m : List (K × ℕ)) → Apart w m → find_entry same k m ≡ some v → v ≢ w
  unfolding find_entry
  find-Apart w k v [] a e = cc
  find-Apart w k v ((k', v') ∷ m) (n, a) e = by_test (same k k') (find-Apart w k v m a) e
    where
      by_test :
          (b : Bool)
          → (find_entry same k m ≡ some v → v ≢ w)
          → (if b then some v' else find_entry same k m) ≡ some v
          → v ≢ w
      by_test true rest e = λ q. n (some-injective v' v e ∙ q)
      by_test false rest e = rest e

insert_absent :
    (e s : ℕ) (m : List (ℕ × ℕ))
    → find_entry (λ a b. a == b) e m ≡ none
    → insert_entry (λ a b. a == b) e s m ≡ m ++ (e, s) ∷ []
unfolding insert_entry
insert_absent e s m h = ap (λ (o : Option ℕ). elim o [ none ↦ m ++ (e, s) ∷ [] | some _ ↦ m ]) h

erase_past : (e x : ℕ) (xs : List ℕ) → e ≢ x → erase_event e (x ∷ xs) ≡ x ∷ erase_event e xs
unfolding erase_event
erase_past e x xs h = ground arith

-- The parts of the two handlers under the lock keep it.
pub enter-IsValid :
    (wake : ℕ) (handle : Option ℕ) (s e : ℕ) (t : SocketIoThread)
    → has_event e t.events ≡ false
    → IsValid wake t
    → IsValid wake (enter handle s e t)
unfolding enter
enter-IsValid wake handle s e t fresh v = record {
  events_are =
      ap (λ l. l ++ e ∷ []) v.events_are
      ∙ ap (λ l. wake ∷ l) (sym (keys-append t.socket_map e s))
      ∙ ap (λ m. wake ∷ keys m) (sym (insert_absent e s t.socket_map (find-keys-none e _ absent)));
  apart =
      insert-Apart same_handle wake handle e t.event_map (not_wake (e == wake) refl whole) v.apart;
}
  where
    whole : has_event e (wake ∷ keys t.socket_map) ≡ false
    whole = sym (ap (has_event e) v.events_are) ∙ fresh

    not_wake :
        (b : Bool)
        → e == wake ≡ b
        → (if b then true else has_event e (keys t.socket_map)) ≡ false
        → e ≢ wake
    not_wake true q h = cc
    not_wake false q h = ground arith

    past :
        (b : Bool)
        → (if b then true else has_event e (keys t.socket_map)) ≡ false
        → has_event e (keys t.socket_map) ≡ false
    past true h = cc
    past false h = h

    absent : has_event e (keys t.socket_map) ≡ false
    absent = past (e == wake) whole

pub leave-IsValid :
    (wake : ℕ) (handle : Option ℕ) (e : ℕ) (t : SocketIoThread)
    → find_entry same_handle handle t.event_map ≡ some e
    → IsValid wake t
    → IsValid wake (leave handle e t)
unfolding leave
leave-IsValid wake handle e t found v = record {
  events_are =
      ap (erase_event e) v.events_are
      ∙ erase_past e wake (keys t.socket_map)
          (find-Apart same_handle wake handle e t.event_map v.apart found)
      ∙ ap (λ l. wake ∷ l) (sym (keys-erase e t.socket_map));
  apart = erase-Apart same_handle wake handle t.event_map v.apart;
}
