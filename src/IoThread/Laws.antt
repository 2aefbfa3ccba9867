-- ===== src/IoThread/Laws.antt =====
-- What a registration and its removal do to the I/O thread, and how many requests a wake-up handles.
use cpp_iocplib.Base.{
  ℕ, Bool, true, false, List, [], ◌∷◌, ◌++◌, Option, none, some, ◌==◌, if◌then◌else◌, ◌≡◌, refl, ap,
  ◌∙◌, arith,
}
use cpp_iocplib.Tables.{find_entry, insert_entry, erase_entry}
use cpp_iocplib.IoThread.{
  SocketIoThread, Request, same_handle, enter, leave, erase_event, on_register_socket,
  on_unregister_socket, handle_request, on_request, on_notified,
}
use cpp_iocplib.IoThread.Valid.{has_event}

module _ {K V : Type 0} (same : K → K → Bool) where
  erase-append :
      (k : K) (v : V) (m : List (K × V))
      → same k k ≡ true
      → find_entry same k m ≡ none
      → erase_entry same k (m ++ (k, v) ∷ []) ≡ m
  unfolding find_entry erase_entry
  erase-append k v [] r h = ap (λ (b : Bool). if b then [] else (k, v) ∷ []) r
  erase-append k v ((k', v') ∷ m) r h = by_test (same k k') (erase-append k v m r) h
    where
      by_test :
          (b : Bool)
          → (find_entry same k m ≡ none → erase_entry same k (m ++ (k, v) ∷ []) ≡ m)
          → (if b then some v' else find_entry same k m) ≡ none
          → (if b then m ++ (k, v) ∷ [] else (k', v') ∷ erase_entry same k (m ++ (k, v) ∷ []))
            ≡ (k', v') ∷ m
      by_test true rest h = cc
      by_test false rest h = ap (λ l. (k', v') ∷ l) (rest h)

  find-append :
      (k : K) (v : V) (m : List (K × V))
      → same k k ≡ true
      → find_entry same k m ≡ none
      → find_entry same k (m ++ (k, v) ∷ []) ≡ some v
  unfolding find_entry
  find-append k v [] r h = ap (λ (b : Bool). if b then some v else none) r
  find-append k v ((k', v') ∷ m) r h = by_test (same k k') (find-append k v m r) h
    where
      by_test :
          (b : Bool)
          → (find_entry same k m ≡ none → find_entry same k (m ++ (k, v) ∷ []) ≡ some v)
          → (if b then some v' else find_entry same k m) ≡ none
          → (if b then some v' else find_entry same k (m ++ (k, v) ∷ [])) ≡ some v
      by_test true rest h = cc
      by_test false rest h = rest h

  insert_absent :
      (k : K) (v : V) (m : List (K × V))
      → find_entry same k m ≡ none
      → insert_entry same k v m ≡ m ++ (k, v) ∷ []
  unfolding insert_entry
  insert_absent k v m h = ap (λ (o : Option V). elim o [ none ↦ m ++ (k, v) ∷ [] | some _ ↦ m ]) h

  erase-insert :
      (k : K) (v : V) (m : List (K × V))
      → same k k ≡ true
      → find_entry same k m ≡ none
      → erase_entry same k (insert_entry same k v m) ≡ m
  erase-insert k v m r h = ap (erase_entry same k) (insert_absent k v m h) ∙ erase-append k v m r h

  find-insert :
      (k : K) (v : V) (m : List (K × V))
      → same k k ≡ true
      → find_entry same k m ≡ none
      → find_entry same k (insert_entry same k v m) ≡ some v
  find-insert k v m r h = ap (find_entry same k) (insert_absent k v m h) ∙ find-append k v m r h

same_handle_refl : (h : Option ℕ) → same_handle h h ≡ true
same_handle_refl none = refl
same_handle_refl (some a) = ground arith

erase_event-last :
    (e : ℕ) (es : List ℕ) → has_event e es ≡ false → erase_event e (es ++ e ∷ []) ≡ es
unfolding erase_event
erase_event-last e [] h = ground arith
erase_event-last e (x ∷ xs) h = ground (arith, erase_event-last e xs)

leave-enter :
    (handle : Option ℕ) (s e : ℕ) (t : SocketIoThread)
    → find_entry same_handle handle t.event_map ≡ none
    → has_event e t.events ≡ false
    → find_entry (λ a b. a == b) e t.socket_map ≡ none
    → leave handle e (enter handle s e t) ≡ t
unfolding enter leave
leave-enter handle s e t absent fresh new_ =
    let u = leave handle e (enter handle s e t) in
    ap (λ es. record u { events = es }) (erase_event-last e t.events fresh)
    ∙ ap (λ m. record u { events = t.events; socket_map = m })
        (erase-insert (λ a b. a == b) e s t.socket_map (ground arith) new_)
    ∙ ap (λ m. record t { event_map = m })
        (erase-insert same_handle handle e t.event_map (same_handle_refl handle) absent)

on_register_socket-enter :
    (handle_of : ℕ → Option (Option ℕ)) (s e : ℕ) (handle : Option ℕ) (t : SocketIoThread)
    → handle_of s ≡ some handle
    → on_register_socket handle_of (some e) s t ≡ enter handle s e t
unfolding on_register_socket
on_register_socket-enter handle_of s e handle t h =
    ap (λ o. on_register_socket (λ _. o) (some e) s t) h

pub on_unregister_socket-leave :
    (handle_of : ℕ → Option (Option ℕ)) (s e : ℕ) (handle : Option ℕ) (t : SocketIoThread)
    → handle_of s ≡ some handle
    → find_entry same_handle handle t.event_map ≡ some e
    → on_unregister_socket handle_of s t ≡ leave handle e t
unfolding on_unregister_socket
on_unregister_socket-leave handle_of s e handle t h f =
    ap (λ o. on_unregister_socket (λ _. o) s t) h
    ∙ ap (λ (o : Option ℕ). elim o [ none ↦ t | some e' ↦ leave handle e' t ]) f

-- An unregistration that does not find the handle changes nothing.
pub on_unregister_socket-none :
    (handle_of : ℕ → Option (Option ℕ)) (s : ℕ) (handle : Option ℕ) (t : SocketIoThread)
    → handle_of s ≡ some handle
    → find_entry same_handle handle t.event_map ≡ none
    → on_unregister_socket handle_of s t ≡ t
unfolding on_unregister_socket
on_unregister_socket-none handle_of s handle t h f =
    ap (λ o. on_unregister_socket (λ _. o) s t) h
    ∙ ap (λ (o : Option ℕ). elim o [ none ↦ t | some e' ↦ leave handle e' t ]) f

-- A socket that is registered, and whose pointer and handle stay as they are until it is removed,
-- leaves nothing behind: the thread is as it was, if the handle was not registered before and the
-- event is new.
pub unregister-register :
    (handle_of : ℕ → Option (Option ℕ)) (s e : ℕ) (handle : Option ℕ) (t : SocketIoThread)
    → handle_of s ≡ some handle
    → find_entry same_handle handle t.event_map ≡ none
    → has_event e t.events ≡ false
    → find_entry (λ a b. a == b) e t.socket_map ≡ none
    → on_unregister_socket handle_of s (on_register_socket handle_of (some e) s t) ≡ t
unfolding enter
unregister-register handle_of s e handle t h absent fresh new_ =
    ap (on_unregister_socket handle_of s) (on_register_socket-enter handle_of s e handle t h)
    ∙ on_unregister_socket-leave handle_of s e handle (enter handle s e t) h
        (find-insert same_handle handle e t.event_map (same_handle_refl handle) absent)
    ∙ leave-enter handle s e t absent fresh new_

-- What handling a request leaves of the others, and of the notice.
handle_request-keeps :
    (handle_of : ℕ → Option (Option ℕ)) (created : Option ℕ) (r : Request) (t : SocketIoThread)
    → let u = handle_request handle_of created r t in
      (u.requests ≡ t.requests) × (u.notified ≡ t.notified)
unfolding handle_request on_register_socket on_unregister_socket enter leave
handle_request-keeps handle_of created r t = ground arith

-- A wake-up takes one request, however many wait, and takes the notice away.
pub on_notified-requests :
    (handle_of : ℕ → Option (Option ℕ)) (created : Option ℕ) (r : Request) (rs : List Request)
    (t : SocketIoThread)
    → t.requests ≡ r ∷ rs
    → ((on_notified handle_of created t).requests ≡ rs)
      × ((on_notified handle_of created t).notified ≡ false)
unfolding on_notified on_request
on_notified-requests handle_of created r rs t h =
    let (q, n) =
      handle_request-keeps handle_of created r (record t { notified = false; requests = rs }) in
    (
      ap
            (λ l.
              (on_request handle_of created (record t { notified = false; requests = l })).requests)
            h
          ∙ q,
      ap
            (λ l.
              (on_request handle_of created (record t { notified = false; requests = l })).notified)
            h
          ∙ n,
    )
