-- ===== src/IoThread/Reach.antt =====
-- The I/O thread among the threads that send it requests: its events and their sessions.
use cpp_iocplib.Base.{
  ℕ, Bool, true, false, List, [], ◌∷◌, Option, none, some, ◌==◌, if◌then◌else◌, ◌≡◌, refl, sym, ap,
  ◌∙◌, drop,
}
use mathlib.Core.Path.{subst}
use cpp_iocplib.Tables.{find_entry}
use cpp_iocplib.IoThread.{
  Callback, callbacks, NetworkEvents, on_socket_event, leave, SocketIoThread, Request, new, close,
  request_register_socket, request_unregister_socket, same_handle, on_register_socket,
  on_unregister_socket, handle_request, on_request, on_notified, all_events,
}
use cpp_iocplib.IoThread.Valid.{
  Apart, IsValid, has_event, keys, find-keys, enter-IsValid, leave-IsValid,
}

-- `WSACreateEvent` fails or makes an event that the thread does not hold.
abbrev pub IsFresh : Option ℕ → SocketIoThread → Type 0
IsFresh none t = Unit {0}
IsFresh (some e) t = has_event e t.events ≡ false

-- A thread asks for a socket, or for its removal, or for the end; or the I/O thread wakes up, at a
-- time when the sessions' pointers and handles are any.
pub data Step (t : SocketIoThread) : SocketIoThread → Type 0 where
  registers : (s network_events : ℕ) → Step t (request_register_socket s network_events t)
  unregisters : (s : ℕ) → Step t (request_unregister_socket s t)
  closes : Step t (close t)
  wakes :
      (handle_of : ℕ → Option (Option ℕ)) (created : Option ℕ)
      → IsFresh created t
      → Step t (on_notified handle_of created t)

pub data Reach (t : SocketIoThread) : SocketIoThread → Type 0 where
  here : Reach t t
  next : {u v : SocketIoThread} → Reach t u → Step u v → Reach t v

-- What keeps the events and the maps keeps the invariant.
same-IsValid :
    (wake : ℕ) (t u : SocketIoThread)
    → t.events ≡ u.events
    → t.socket_map ≡ u.socket_map
    → t.event_map ≡ u.event_map
    → IsValid wake t
    → IsValid wake u
same-IsValid wake t u e m n v = record {
  events_are = sym e ∙ v.events_are ∙ ap (λ l. wake ∷ keys l) m;
  apart = subst (Apart wake) n v.apart;
}

module _ (wake : ℕ) (handle_of : ℕ → Option (Option ℕ)) where
  on_register_socket-IsValid :
      (created : Option ℕ) (s : ℕ) (t : SocketIoThread)
      → IsFresh created t
      → IsValid wake t
      → IsValid wake (on_register_socket handle_of created s t)
  unfolding on_register_socket
  on_register_socket-IsValid created s t f v = by_handle (handle_of s) created f
    where
      by_handle :
          (h : Option (Option ℕ)) (c : Option ℕ)
          → IsFresh c t
          → IsValid wake (on_register_socket (λ _. h) c s t)
      by_handle none c f = v
      by_handle (some handle) none f = v
      by_handle (some handle) (some e) f = enter-IsValid wake handle s e t f v

  on_unregister_socket-IsValid :
      (s : ℕ) (t : SocketIoThread)
      → IsValid wake t
      → IsValid wake (on_unregister_socket handle_of s t)
  unfolding on_unregister_socket
  on_unregister_socket-IsValid s t v = by_handle (handle_of s)
    where
      by_event :
          (handle : Option ℕ) (found : Option ℕ)
          → find_entry same_handle handle t.event_map ≡ found
          → IsValid wake (elim found [ none ↦ t | some e ↦ leave handle e t ])
      by_event handle none q = v
      by_event handle (some e) q = leave-IsValid wake handle e t q v

      by_handle : (h : Option (Option ℕ)) → IsValid wake (on_unregister_socket (λ _. h) s t)
      by_handle none = v
      by_handle (some handle) = by_event handle (find_entry same_handle handle t.event_map) refl

  handle_request-IsValid :
      (created : Option ℕ) (r : Request) (t : SocketIoThread)
      → IsFresh created t
      → IsValid wake t
      → IsValid wake (handle_request handle_of created r t)
  unfolding handle_request
  handle_request-IsValid created r t f v = by_test (r.network_events == all_events)
    where
      by_test :
          (b : Bool)
          → IsValid wake (
              if b
              then on_unregister_socket handle_of r.socket t
              else on_register_socket handle_of created r.socket t)
      by_test true = on_unregister_socket-IsValid r.socket t v
      by_test false = on_register_socket-IsValid created r.socket t f v

  on_notified-IsValid :
      (created : Option ℕ) (t : SocketIoThread)
      → IsFresh created t
      → IsValid wake t
      → IsValid wake (on_notified handle_of created t)
  unfolding on_notified on_request
  on_notified-IsValid created t f v = by_requests t.requests
    where
      idle : SocketIoThread
      idle = record t { notified = false }

      kept : (rs : List Request) → IsFresh created (record idle { requests = rs })
      kept rs =
          elim created as (λ c. IsFresh c t → IsFresh c (record idle { requests = rs })) [
            | none ↦ λ _. tt
            | some e ↦ λ g. g
          ]
            f

      by_requests :
          (q : List Request)
          → IsValid wake (on_request handle_of created (record idle { requests = q }))
      by_requests [] = same-IsValid wake t _ refl refl refl v
      by_requests (r ∷ rs) =
          handle_request-IsValid created r (record idle { requests = rs }) (kept rs)
            (same-IsValid wake t _ refl refl refl v)

Step-IsValid : (wake : ℕ) {t u : SocketIoThread} → Step t u → IsValid wake t → IsValid wake u
unfolding request_register_socket request_unregister_socket close
Step-IsValid wake {t} (registers s n) v = same-IsValid wake t _ refl refl refl v
Step-IsValid wake {t} (unregisters s) v = same-IsValid wake t _ refl refl refl v
Step-IsValid wake {t} closes v =
    elim t.running
      as (λ b. IsValid wake (if b then record t { running = false; notified = true } else t)) [
        | true ↦ same-IsValid wake t _ refl refl refl v
        | false ↦ v
      ]
Step-IsValid wake {t} (wakes h c f) v = on_notified-IsValid wake h c t f v

pub Reach-IsValid : (wake : ℕ) {t : SocketIoThread} → Reach (new wake) t → IsValid wake t
unfolding new
Reach-IsValid wake here = record { events_are = refl; apart = tt }
Reach-IsValid wake (next r s) = Step-IsValid wake s (Reach-IsValid wake r)

-- However requests and wake-ups take turns from the constructor on: the first event stays the one
-- that the requests set, and every other event that the thread waits for has a session in the map,
-- so that `OnSocketEvent` finds it.
pub Reach-sessions :
    (wake e : ℕ) {t : SocketIoThread}
    → Reach (new wake) t
    → (t.events ≡ wake ∷ drop 1 t.events)
      × (has_event e (drop 1 t.events) ≡ true
          → (s : ℕ) × (find_entry (λ a b. a == b) e t.socket_map ≡ some s))
Reach-sessions wake e {t} r =
    let v = Reach-IsValid wake r in
    let rest : drop 1 t.events ≡ keys t.socket_map = ap (drop 1) v.events_are in
    (
      v.events_are ∙ ap (λ l. wake ∷ l) (sym rest),
      λ h. find-keys e t.socket_map (sym (ap (has_event e) rest) ∙ h),
    )

found_event :
    (handle_of : ℕ → Option (Option ℕ)) (e s : ℕ) (h : Option ℕ) (n : NetworkEvents)
    (t : SocketIoThread)
    → find_entry (λ a b. a == b) e t.socket_map ≡ some s
    → handle_of s ≡ some h
    → on_socket_event handle_of e (some n) t ≡ some (s, callbacks n)
unfolding on_socket_event
found_event handle_of e s h n t f l =
    ap
      (λ (o : Option ℕ). elim o as (λ _. Option (ℕ × List Callback)) [
        | none ↦ none
        | some s' ↦ elim (handle_of s') [ none ↦ none | some _ ↦ some (s', callbacks n) ]
      ])
      f
    ∙ ap
        (λ (o : Option (Option ℕ)). elim o as (λ _. Option (ℕ × List Callback)) [
          | none ↦ none
          | some _ ↦ some (s, callbacks n)
        ])
        l

-- However requests and wake-ups take turns from the constructor on, an event that the thread waits
-- for goes to its session in the map: `OnSocketEvent` makes
-- the calls of the events that have happened, in the order read, write, close, and dereferences
-- nothing that is not there, as long as every session's pointer can be locked.
pub Reach-on_socket_event :
    (wake e : ℕ) {t : SocketIoThread} (handle_of : ℕ → Option (Option ℕ)) (n : NetworkEvents)
    → Reach (new wake) t
    → has_event e (drop 1 t.events) ≡ true
    → ((s : ℕ) → (h : Option ℕ) × (handle_of s ≡ some h))
    → (s : ℕ) × (find_entry (λ a b. a == b) e t.socket_map ≡ some s)
      × (on_socket_event handle_of e (some n) t ≡ some (s, callbacks n))
Reach-on_socket_event wake e {t} handle_of n r w live =
    let (s, found) = (Reach-sessions wake e r).1 w in
    let (h, locked) = live s in (s, found, found_event handle_of e s h n t found locked)
