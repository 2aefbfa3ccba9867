-- ===== src/Acceptor/Opened.antt =====
-- What `Open` leaves behind on each way out.
use cpp_iocplib.Base.{
  length-append, ℕ, suc, ◌+◌, Bool, true, false, List, [], ◌∷◌, ◌++◌, length, Option, none, some,
  ◌≡◌, refl, sym, ap, ◌∙◌, ◌⊎◌, inl, inr, if◌then◌else◌, arith,
}
use cpp_iocplib.WinSock
use cpp_iocplib.WinSock.{WinSock, Result, done, throws, Answer, answer, socket_error, checked}
use cpp_iocplib.Port
use cpp_iocplib.Port.{IoCompletionPort, attach, detach, wait_detached, worker_count}
use cpp_iocplib.Session.Accept.{SocketSession}
use cpp_iocplib.Acceptor.{Acceptor, new, post_accept}
use cpp_iocplib.Acceptor.Open.{
  Opening, post_one, post_all, finish_open, start_accepts, start_listening, open_port,
  open_acceptor,
}

-- The state after `Open`: open, with the listening socket attached if it joins the port, the workers
-- asked for, and one socket waiting for each accept; or not open, with nothing attached unless an
-- accept has thrown.
abbrev pub Opened : Opening → Result Bool × Acceptor → Type 0
Opened o (done true, a) =
    (a.opened ≡ true)
    × (a.port.attached_sockets ≡ (if o.joined then 1 else 0))
    × (a.port.workers ≡ worker_count o.io_thread o.processors)
    × (length a.accept_sockets ≡ length o.accepts)
Opened o (done false, a) = (a.opened ≡ false) × (a.port.attached_sockets ≡ 0)
Opened o (throws e, a) =
    (a.opened ≡ false)
    × ((a.port.attached_sockets ≡ 0)
        ⊎ ((a.port.attached_sockets ≡ 1) × ((post_all o.accepts []).1 ≡ some e)))

post_all-length :
    (accepts : List (Answer ℕ)) (posted : List SocketSession)
    → (post_all accepts posted).1 ≡ none
    → length (post_all accepts posted).0 ≡ length posted + length accepts
unfolding post_all
post_all-length [] posted h = omega arith
post_all-length (a ∷ accepts) posted h =
    by_answer (post_accept a) (λ s. post_all-length accepts (posted ++ s ∷ [])) h
  where
    by_answer :
        (r : Result SocketSession)
        → ((s : SocketSession)
            → (post_all accepts (posted ++ s ∷ [])).1 ≡ none
            → length (post_all accepts (posted ++ s ∷ [])).0
              ≡ length (posted ++ s ∷ []) + length accepts)
        → (post_one (post_all accepts) posted r).1 ≡ none
        → length (post_one (post_all accepts) posted r).0 ≡ length posted + suc (length accepts)
    by_answer (throws e) more h = cc
    by_answer (done s) more h =
        let one = length-append posted (s ∷ []) in let rest = more s h in omega arith

finish_open-Opened :
    (o : Opening) (a : Acceptor) (out : List SocketSession × Option ℕ)
    → post_all o.accepts [] ≡ out
    → a.opened ≡ false
    → a.port.attached_sockets ≡ (if o.joined then 1 else 0)
    → a.port.workers ≡ worker_count o.io_thread o.processors
    → Opened o (finish_open a out)
unfolding finish_open
finish_open-Opened o a (posted, none) e f n w =
    let count = post_all-length o.accepts [] (ap (λ out. out.1) e) in
    let same = ap (λ out. length out.0) e in
    let all : length posted ≡ length o.accepts = omega arith in (refl, n, w, all)
finish_open-Opened o a (posted, some x) e f n w = (f, by_joined o.joined n)
  where
    by_joined :
        (j : Bool)
        → a.port.attached_sockets ≡ (if j then 1 else 0)
        → (a.port.attached_sockets ≡ 0)
          ⊎ ((a.port.attached_sockets ≡ 1) × ((post_all o.accepts []).1 ≡ some x))
    by_joined true m = inr (m, ap (λ out. out.1) e)
    by_joined false m = inl m

attach-first :
    (j : Bool) (p : IoCompletionPort)
    → p.attached_sockets ≡ 0
    → ((attach j p).attached_sockets ≡ (if j then 1 else 0)) × ((attach j p).workers ≡ p.workers)
unfolding attach
attach-first true p n = (omega arith, refl)
attach-first false p n = (n, refl)

start_accepts-Opened :
    (o : Opening) (a : Acceptor)
    → a.opened ≡ false
    → a.accept_sockets ≡ []
    → a.port.attached_sockets ≡ 0
    → a.port.workers ≡ worker_count o.io_thread o.processors
    → Opened o (start_accepts o a)
unfolding start_accepts
start_accepts-Opened o a f s n w =
    let (count, kept) = attach-first o.joined a.port n in
    finish_open-Opened o (record a { port = attach o.joined a.port })
      (post_all o.accepts a.accept_sockets) (ap (post_all o.accepts) (sym s)) f count (kept ∙ w)

-- The steps before the loop, for an acceptor whose port was just made.
start_listening-Opened :
    (o : Opening) (r : Result (Unit {0})) (a : Acceptor)
    → a.opened ≡ false
    → a.accept_sockets ≡ []
    → a.port.attached_sockets ≡ 0
    → a.port.workers ≡ worker_count o.io_thread o.processors
    → Opened o (start_listening o r a)
unfolding start_listening
start_listening-Opened o (throws e) a f s n w = (f, inl n)
start_listening-Opened o (done u) a f s n w = by_bind (WinSock.bind o.bound)
  where
    by_listen :
        (l : Result (Unit {0}))
        → Opened o (elim l [ throws e ↦ (throws e, a) | done _ ↦ start_accepts o a ])
    by_listen (throws e) = (f, inl n)
    by_listen (done x) = start_accepts-Opened o a f s n w

    by_bind :
        (b : Result (Unit {0}))
        → Opened o (elim b [
          | throws e ↦ (throws e, a)
          | done _ ↦ elim (WinSock.listen o.listening) [
            | throws e ↦ (throws e, a)
            | done _ ↦ start_accepts o a
          ]
        ])
    by_bind (throws e) = (f, inl n)
    by_bind (done x) = by_listen (WinSock.listen o.listening)

-- `Open` of a new acceptor.
pub open_acceptor-Opened : (o : Opening) → Opened o (open_acceptor o new)
unfolding open_acceptor open_port new Port.new Port.create
open_acceptor-Opened o = by_handle o.port_handle
  where
    by_handle :
        (h : Option ℕ)
        → Opened o (open_port o (Port.create o.io_thread o.processors h Port.new) new)
    by_handle none = (refl, refl)
    by_handle (some h) = start_listening-Opened o _ _ refl refl refl (omega arith)
