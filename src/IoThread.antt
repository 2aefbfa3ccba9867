-- ===== src/IoThread.antt =====
-- lib/winsocklib/socket_io_thread.h: the thread that waits for the events of the client's sockets.
-- A session is a number; `handle_of` tells, of a session, whether its pointer can be locked and what
-- `GetSocketHandle` then returns (`none` is `INVALID_SOCKET`).
mod Tests
pub mod Valid
pub mod Reach
pub mod Laws
pub mod Run
use cpp_iocplib.Base.{
  ℕ, ◌-◌, ◌^◌, Bool, true, false, List, [], ◌∷◌, ◌++◌, Option, none, some, ◌==◌, if◌then◌else◌,
}
use cpp_iocplib.Tables.{find_entry, insert_entry, erase_entry}

-- `~0L`, the events of a request that removes its socket. (A `long` has 32 bits.)
abbrev pub all_events : ℕ
all_events = 2 ^ 32 - 1

-- `SocketIoThreadRequest`
pub record Request : Type 0 where
  pub socket : ℕ
  pub network_events : ℕ

-- The fields; `notified` is the state of the event `events_[0]`.
pub record SocketIoThread : Type 0 where
  pub running : Bool
  pub requests : List Request
  pub notified : Bool
  pub events : List ℕ
  pub socket_map : List (ℕ × ℕ)
  pub event_map : List (Option ℕ × ℕ)

-- The constructor, by the event that `WSACreateEvent` returns.
unfoldable pub new : ℕ → SocketIoThread
new wake = record {
  running = true;
  requests = [];
  notified = false;
  events = wake ∷ [];
  socket_map = [];
  event_map = [];
}

-- `Close`, behind which the thread ends.
unfoldable pub close : SocketIoThread → SocketIoThread
close t = if t.running then record t { running = false; notified = true } else t

unfoldable pub request_register_socket : ℕ → ℕ → SocketIoThread → SocketIoThread
request_register_socket s network_events t = record t {
  requests = t.requests ++ record { socket = s; network_events = network_events } ∷ [];
  notified = true;
}

unfoldable pub request_unregister_socket : ℕ → SocketIoThread → SocketIoThread
request_unregister_socket s t = record t {
  requests = t.requests ++ record { socket = s; network_events = all_events } ∷ [];
  notified = true;
}

abbrev pub same_handle : Option ℕ → Option ℕ → Bool
same_handle none none = true
same_handle none (some _) = false
same_handle (some _) none = false
same_handle (some a) (some b) = a == b

-- The loop that erases the first event equal to the one given.
unfoldable pub erase_event : ℕ → List ℕ → List ℕ
erase_event e [] = []
erase_event e (x ∷ xs) = let rest = erase_event e xs in if e == x then xs else x ∷ rest

-- The part of `OnRegisterSocket` under the lock.
unfoldable pub enter : Option ℕ → ℕ → ℕ → SocketIoThread → SocketIoThread
enter handle s e t = record t {
  events = t.events ++ e ∷ [];
  socket_map = insert_entry (λ a b. a == b) e s t.socket_map;
  event_map = insert_entry same_handle handle e t.event_map;
}

-- The part of `OnUnregisterSocket` under the lock, of an event that is found.
unfoldable pub leave : Option ℕ → ℕ → SocketIoThread → SocketIoThread
leave handle e t = record t {
  events = erase_event e t.events;
  socket_map = erase_entry (λ a b. a == b) e t.socket_map;
  event_map = erase_entry same_handle handle t.event_map;
}

module _ (handle_of : ℕ → Option (Option ℕ)) where
  -- `OnRegisterSocket`, by what `WSACreateEvent` returns (`none` is `WSA_INVALID_EVENT`). What
  -- `WSAEventSelect` returns changes nothing.
  unfoldable pub on_register_socket : Option ℕ → ℕ → SocketIoThread → SocketIoThread
  on_register_socket created s t = elim (handle_of s) [
    | none ↦ t
    | some handle ↦ elim created [ none ↦ t | some e ↦ enter handle s e t ]
  ]

  unfoldable pub on_unregister_socket : ℕ → SocketIoThread → SocketIoThread
  on_unregister_socket s t = elim (handle_of s) [
    | none ↦ t
    | some handle ↦ elim (find_entry same_handle handle t.event_map) [
      | none ↦ t
      | some e ↦ leave handle e t
    ]
  ]

  -- What `OnRequest` does with the request that it has taken.
  unfoldable pub handle_request : Option ℕ → Request → SocketIoThread → SocketIoThread
  handle_request created r t =
      if r.network_events == all_events
      then on_unregister_socket r.socket t
      else on_register_socket created r.socket t

  unfoldable pub on_request : Option ℕ → SocketIoThread → SocketIoThread
  on_request created t = elim t.requests [
    | [] ↦ t
    | r ∷ rs ↦ handle_request created r (record t { requests = rs })
  ]

  -- The part of a round of `Run` for a wait that returns 0.
  unfoldable pub on_notified : Option ℕ → SocketIoThread → SocketIoThread
  on_notified created t = on_request created (record t { notified = false })

-- `WSANETWORKEVENTS`, of the three events asked for: the error of each that has happened.
pub record NetworkEvents : Type 0 where
  pub fd_read : Option ℕ
  pub fd_write : Option ℕ
  pub fd_close : Option ℕ

-- The calls of a session, each with its error.
pub data Callback : Type 0 where
  on_socket_read : ℕ → Callback
  on_socket_write : ℕ → Callback
  on_socket_close : ℕ → Callback

abbrev pub callback_if : (ℕ → Callback) → Option ℕ → List Callback
callback_if f none = []
callback_if f (some error) = f error ∷ []

unfoldable pub callbacks : NetworkEvents → List Callback
callbacks n =
    callback_if on_socket_read n.fd_read
    ++ callback_if on_socket_write n.fd_write
    ++ callback_if on_socket_close n.fd_close

-- `OnSocketEvent`, by what `WSAEnumNetworkEvents` fills in (`none` if it fails): the session, and the
-- calls made of it. `none` where the end of the map, or a pointer that cannot be locked, is
-- dereferenced.
module _ (handle_of : ℕ → Option (Option ℕ)) where
  unfoldable pub on_socket_event :
      ℕ → Option NetworkEvents → SocketIoThread → Option (ℕ × List Callback)
  on_socket_event e enumerated t = elim (find_entry (λ a b. a == b) e t.socket_map) [
    | none ↦ none
    | some s ↦ elim (handle_of s) [
      | none ↦ none
      | some _ ↦ some (s, elim enumerated [ none ↦ [] | some n ↦ callbacks n ])
    ]
  ]
