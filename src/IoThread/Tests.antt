-- ===== src/IoThread/Tests.antt =====
-- The instances of the I/O thread's theorems.
use cpp_iocplib.Base.{ℕ, true, ◌∷◌, Option, some, ◌==◌, ◌≡◌, refl, drop}
use cpp_iocplib.Tables.{find_entry, insert_entry}
use cpp_iocplib.IoThread.{
  SocketIoThread, new, request_register_socket, request_unregister_socket, on_register_socket,
  on_unregister_socket, enter, handle_request, on_request, on_notified,
}
use cpp_iocplib.IoThread.Valid.{has_event}
use cpp_iocplib.IoThread.Reach.{here, next, registers, wakes, Reach-sessions}
use cpp_iocplib.IoThread.Laws.{unregister-register}

-- Session n has the handle n.
abbrev handles : ℕ → Option (Option ℕ)
handles n = some (some n)

abbrev registered : SocketIoThread
registered = on_notified handles (some 9) (request_register_socket 7 35 (new 1))

Reach-sessions_example :
    (registered.events ≡ 1 ∷ drop 1 registered.events)
    × (has_event 9 (drop 1 registered.events) ≡ true
        → (s : ℕ) × (find_entry (λ a b. a == b) 9 registered.socket_map ≡ some s))
unfolding new request_register_socket
Reach-sessions_example =
    Reach-sessions 1 9 (next (next here (registers 7 35)) (wakes handles (some 9) refl))

unregister-register_example :
    on_unregister_socket handles 8 (on_register_socket handles (some 10) 8 registered) ≡ registered
unfolding new request_register_socket on_notified on_request handle_request on_register_socket enter
    insert_entry find_entry
unregister-register_example =
    unregister-register handles 8 10 (some 8) registered refl refl refl refl

-- Two requests that came before the thread woke up.
abbrev waiting : SocketIoThread
waiting = request_unregister_socket 7 (request_register_socket 7 35 (new 1))
