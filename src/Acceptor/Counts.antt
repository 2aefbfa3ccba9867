-- ===== src/Acceptor/Counts.antt =====
-- The count of attached sockets, as connections are accepted, and what it means for `Close`.
use cpp_iocplib.Base.{
  ℕ, Bool, true, false, List, [], ◌∷◌, Option, none, some, ◌==◌, ◌&&◌, if◌then◌else◌, ◌≡◌, refl, ap,
  ◌∙◌, arith, add32, ◌+◌, ◌-◌, ◌<◌, ◌^◌,
}
use cpp_iocplib.WinSock.{
  Result, done, throws, Answer, answer, socket_error, checked, set_nagle_alogrithm,
}
use cpp_iocplib.Port.{IoCompletionPort, attach, detach, wait_detached}
use cpp_iocplib.Port.Close.{sum, wait_detached_attached}
use cpp_iocplib.Session.Accept
use cpp_iocplib.Session.Accept.{SocketSession, Setup}
use cpp_iocplib.Acceptor.{
  Acceptor, Accepted, keep_session, on_accept, try_accept, on_complete_overlapped_io, accept_all,
  close, wait_and_close, close_socket,
}

abbrev pub answers : Answer (Unit {0}) → Bool
answers (answer _) = true
answers (socket_error _) = false

-- How many sockets a completion attaches: one, if no call on the way fails.
abbrev pub attaches : Accepted → ℕ
attaches e =
    if e.error == 0
      && answers e.updated
      && answers e.setup.non_blocking
      && answers e.setup.no_delay
      && e.setup.joined
    then 1
    else 0

abbrev pub attaches_all : List Accepted → ℕ
attaches_all [] = 0
attaches_all (e ∷ es) = attaches e + attaches_all es

-- The session's own part, by the answers.
session_attached :
    (nb nd : Answer (Unit {0})) (j : Bool) (received : Option ℕ) (s : SocketSession)
    (p : IoCompletionPort)
    → (Accept.on_accept
        (record { non_blocking = nb; no_delay = nd; joined = j; received = received })
        s
        p).2.attached_sockets
      ≡ (if answers nb && answers nd && j then add32 p.attached_sockets 1 else p.attached_sockets)
unfolding Accept.on_accept checked set_nagle_alogrithm attach
session_attached (socket_error x) nd j u s p = refl
session_attached (answer x) (socket_error y) j u s p = refl
session_attached (answer x) (answer y) true u s p = refl
session_attached (answer x) (answer y) false u s p = refl

-- A session that throws is not attached.
try_attached :
    (error : ℕ) (updated : Answer (Unit {0})) (b : Bool) (setup : Setup) (s : SocketSession)
    (a : Acceptor) (made : Answer ℕ)
    → (Accept.on_accept setup s a.port).2.attached_sockets
      ≡ (if b then add32 a.port.attached_sockets 1 else a.port.attached_sockets)
    → (try_accept
        (record { error = error; session = s; updated = updated; setup = setup; made = made })
        a).port.attached_sockets
      ≡ (if error == 0 && answers updated && b
          then add32 a.port.attached_sockets 1
          else a.port.attached_sockets)
unfolding try_accept on_accept keep_session checked
try_attached error (socket_error x) b setup s a made h = ground arith
try_attached error (answer x) b setup s a made h = by_result (Accept.on_accept setup s a.port) h
  where
    by_result :
        (out : Result (Unit {0}) × SocketSession × IoCompletionPort)
        → out.2.attached_sockets
          ≡ (if b then add32 a.port.attached_sockets 1 else a.port.attached_sockets)
        → (if error == 0 then (keep_session a out).1 else a).port.attached_sockets ≡ (
            if error == 0 && true && b
            then add32 a.port.attached_sockets 1
            else a.port.attached_sockets)
    by_result (throws e, t, p) h = ground arith
    by_result (done u, t, p) h = ground arith

try_accept-attached :
    (e : Accepted) (a : Acceptor)
    → a.port.attached_sockets + attaches e < 2 ^ 32
    → (try_accept e a).port.attached_sockets ≡ a.port.attached_sockets + attaches e
try_accept-attached e a h =
    let b = answers e.setup.non_blocking && answers e.setup.no_delay && e.setup.joined in
    let same = try_attached e.error e.updated b e.setup e.session a e.made (
      session_attached e.setup.non_blocking e.setup.no_delay e.setup.joined e.setup.received
        e.session a.port) in
    same ∙ ground arith

pub accept_all-attached :
    (es : List Accepted) (a : Acceptor)
    → a.port.attached_sockets + attaches_all es < 2 ^ 32
    → (accept_all es a).port.attached_sockets ≡ a.port.attached_sockets + attaches_all es
unfolding accept_all on_complete_overlapped_io
accept_all-attached [] a h = omega arith
accept_all-attached (e ∷ es) a h =
    let one = try_accept-attached e a (omega arith) in
    let rest = accept_all-attached es (try_accept e a) (omega arith) in omega arith

try_accept-opened : (e : Accepted) (a : Acceptor) → (try_accept e a).opened ≡ a.opened
unfolding try_accept on_accept keep_session
try_accept-opened e a = by_test (e.error == 0) (checked e.updated)
  where
    kept :
        (out : Result (Unit {0}) × SocketSession × IoCompletionPort)
        → (keep_session a out).1.opened ≡ a.opened
    kept (throws x, s, p) = refl
    kept (done x, s, p) = refl

    by_test :
        (b : Bool) (r : Result (Unit {0}))
        → (if b
            then elim r as (λ _. Acceptor) [
              | throws _ ↦ a
              | done _ ↦ (keep_session a (Accept.on_accept e.setup e.session a.port)).1
            ]
            else a).opened
          ≡ a.opened
    by_test false r = refl
    by_test true (throws x) = refl
    by_test true (done x) = kept (Accept.on_accept e.setup e.session a.port)

pub accept_all-opened : (es : List Accepted) (a : Acceptor) → (accept_all es a).opened ≡ a.opened
unfolding accept_all on_complete_overlapped_io
accept_all-opened [] a = refl
accept_all-opened (e ∷ es) a = accept_all-opened es (try_accept e a) ∙ try_accept-opened e a

pub wait_and_close-none :
    {W : Type 0} (closesocket : ℕ → W → Answer (Unit {0}) × W) (others : List ℕ) (a : Acceptor)
    (w : W)
    → wait_detached others a.port ≡ none
    → wait_and_close closesocket others a w ≡ none
unfolding wait_and_close
wait_and_close-none closesocket others a w h =
    ap
      (λ (o : Option IoCompletionPort). elim o [
        | none ↦ none
        | some p ↦ close_socket closesocket (record a { port = p }) w
      ])
      h

-- The count of attached sockets goes up with each connection whose session sets itself up, and with
-- no other completion; so once one such connection was accepted, `Close` of the open acceptor,
-- which takes away the listening socket alone, never returns, whatever sockets are attached
-- meanwhile (below 2 ^ 32 in all).
pub close-accept_all :
    {W : Type 0} (closesocket : ℕ → W → Answer (Unit {0}) × W) (es : List Accepted)
    (others : List ℕ) (a : Acceptor) (w : W)
    → 0 < a.port.attached_sockets
    → 0 < attaches_all es
    → a.port.attached_sockets + attaches_all es + sum others < 2 ^ 32
    → (accept_all es a).opened ≡ true
    → ((accept_all es a).port.attached_sockets ≡ a.port.attached_sockets + attaches_all es)
      × (close closesocket others (accept_all es a) w ≡ none)
unfolding close detach
close-accept_all closesocket es others a w n m h o =
    let count = accept_all-attached es a (omega arith) in
    (count, opened_close (accept_all es a) o (omega arith) (omega arith))
  where
    opened_close :
        (b : Acceptor)
        → b.opened ≡ true
        → 1 < b.port.attached_sockets
        → b.port.attached_sockets + sum others < 2 ^ 32
        → close closesocket others b w ≡ none
    opened_close b o k l =
        let p = record b.port { attached_sockets = b.port.attached_sockets - 1 } in
        let waits =
          wait_and_close-none closesocket others (record b { port = p; opened = true }) w
            (wait_detached_attached others p (omega arith) (omega arith)) in
        let attached : b.port.attached_sockets == 0 ≡ false = ground arith in
        simp (o, attached) waits
