-- ===== src/Server/Stops.antt =====
-- How the server's `main` ends, by what has happened when the signal comes.
use cpp_iocplib.Base.{
  refl, ℕ, ◌+◌, ◌<◌, ◌^◌, true, List, [], ◌∷◌, ◌++◌, map, none, some, ◌≡◌, ap, ◌∙◌, arith, ◌⊎◌, inl,
  inr, if◌then◌else◌, sym, append-nil, Bool, false, ◌==◌,
}
use mathlib.Core.Path.{subst}
use cpp_iocplib.WinSock.{done, Answer, answer}
use cpp_iocplib.Port.Close.{sum}
use cpp_iocplib.Session.Accept.{SocketSession}
use cpp_iocplib.Acceptor.{
  Acceptor, Accepted, new, post_accept, accept_all, on_complete_overlapped_io, try_accept,
}
use cpp_iocplib.Acceptor
use cpp_iocplib.Acceptor.Counts.{
  attaches_all, close-accept_all, accept_all-attached, accept_all-opened,
}
use cpp_iocplib.Acceptor.Open.{Opening, open_acceptor}
use cpp_iocplib.Acceptor.Opened.{Opened, open_acceptor-Opened}
use cpp_iocplib.Acceptor.Closing.{Closes-opened}
use cpp_iocplib.Server.{
  signal, accepted, sigint, sigterm, signal_handler, after_accept, wait_for_stop, open_server,
  close_server, exit_code, close_after, serve, main, sleep, after_sleep, Event,
}

-- The socket for the next accept is made each time.
abbrev pub AllPosted : List Accepted → Type 0
AllPosted [] = Unit {0}
AllPosted (e ∷ es) = ((s : SocketSession) × (post_accept e.made ≡ done s)) × AllPosted es

-- What happens while connections alone are accepted.
sleep-accepted :
    (es : List Accepted) (events : List Event) (running : Bool) (a : Acceptor)
    → AllPosted es
    → sleep (map accepted es ++ events) running a ≡ sleep events running (accept_all es a)
unfolding sleep accept_all on_complete_overlapped_io
sleep-accepted [] events running a p = refl
sleep-accepted (e ∷ es) events running a p =
    ap (λ r. after_accept (sleep (map accepted es ++ events) running) (r, try_accept e a)) p.0.1
    ∙ sleep-accepted es events running (try_accept e a) p.1

accept_all-append :
    (xs ys : List Accepted) (a : Acceptor)
    → accept_all (xs ++ ys) a ≡ accept_all ys (accept_all xs a)
unfolding accept_all on_complete_overlapped_io
accept_all-append [] ys a = refl
accept_all-append (x ∷ xs) ys a = accept_all-append xs ys (try_accept x a)

AllPosted-split : (xs ys : List Accepted) → AllPosted (xs ++ ys) → AllPosted xs × AllPosted ys
AllPosted-split [] ys p = (tt, p)
AllPosted-split (x ∷ xs) ys p = let (px, py) = AllPosted-split xs ys p.1 in ((p.0, px), py)

-- A `Sleep` in which the signal comes: what is accepted behind it counts too.
sleep-signal :
    (xs ys : List Accepted) (n : ℕ) (a : Acceptor)
    → AllPosted (xs ++ ys)
    → (n ≡ sigterm) ⊎ (n ≡ sigint)
    → sleep (map accepted xs ++ signal n ∷ map accepted ys) true a
      ≡ done (false, accept_all (xs ++ ys) a)
unfolding sleep signal_handler
sleep-signal xs ys n a p s =
    let (px, py) = AllPosted-split xs ys p in
    sleep-accepted xs (signal n ∷ map accepted ys) true a px
    ∙ ap (λ b. sleep (map accepted ys) b (accept_all xs a)) (stopped s)
    ∙ ap (λ es. sleep es false (accept_all xs a)) (sym (append-nil (map accepted ys)))
    ∙ sleep-accepted ys [] false (accept_all xs a) py
    ∙ ap (λ b. done (false, b)) (sym (accept_all-append xs ys a))
  where
    stopped :
        (n ≡ sigterm) ⊎ (n ≡ sigint)
        → (if n == sigterm then false else if n == sigint then false else true) ≡ false
    stopped (inl t) = ground arith
    stopped (inr i) = ground arith

-- What happens in each `Sleep`: accepts alone in the first ones, and accepts around the signal in the
-- next; `later` comes behind it.
abbrev pub until_signal :
    List (List Accepted) → List Accepted → ℕ → List Accepted → List (List Event) → List (List Event)
until_signal [] xs n ys later = (map accepted xs ++ signal n ∷ map accepted ys) ∷ later
until_signal (es ∷ ess) xs n ys later = map accepted es ∷ until_signal ess xs n ys later

-- All that is accepted until `main` looks at `g_running` behind the signal.
abbrev pub all_accepted : List (List Accepted) → List Accepted → List Accepted → List Accepted
all_accepted [] xs ys = xs ++ ys
all_accepted (es ∷ ess) xs ys = es ++ all_accepted ess xs ys

wait_for_stop-accepted :
    (ess : List (List Accepted)) (xs ys : List Accepted) (n : ℕ) (later : List (List Event))
    (a : Acceptor)
    → AllPosted (all_accepted ess xs ys)
    → (n ≡ sigterm) ⊎ (n ≡ sigint)
    → wait_for_stop (until_signal ess xs n ys later) true a
      ≡ some (done (accept_all (all_accepted ess xs ys) a))
unfolding wait_for_stop sleep
wait_for_stop-accepted [] xs ys n later a p s =
    ap (after_sleep (wait_for_stop later)) (sleep-signal xs ys n a p s)
wait_for_stop-accepted (es ∷ ess) xs ys n later a p s =
    let (pe, pr) = AllPosted-split es (all_accepted ess xs ys) p in
    let rest = until_signal ess xs n ys later in
    ap (λ l. after_sleep (wait_for_stop rest) (sleep l true a)) (sym (append-nil (map accepted es)))
    ∙ ap (after_sleep (wait_for_stop rest)) (sleep-accepted es [] true a pe)
    ∙ wait_for_stop-accepted ess xs ys n later (accept_all es a) pr s
    ∙ ap (λ b. some (done b)) (sym (accept_all-append es (all_accepted ess xs ys) a))

-- `main` up to `Close`.
main-close :
    {W : Type 0} (closesocket : ℕ → W → Answer (Unit {0}) × W) (o : Opening)
    (ess : List (List Accepted)) (xs ys : List Accepted) (n : ℕ) (later : List (List Event))
    (others : List ℕ) (a : Acceptor) (w : W)
    → open_acceptor o new ≡ (done true, a)
    → AllPosted (all_accepted ess xs ys)
    → (n ≡ sigterm) ⊎ (n ≡ sigint)
    → main closesocket true true o (until_signal ess xs n ys later) others w
      ≡ exit_code closesocket
          (Acceptor.close closesocket others (accept_all (all_accepted ess xs ys) a) w)
unfolding main serve open_server close_server
main-close closesocket o ess xs ys n later others a w e p s =
    ap (serve closesocket (until_signal ess xs n ys later) others w) e
    ∙ ap (close_after closesocket others w) (wait_for_stop-accepted ess xs ys n later a p s)

-- The server, where both handlers are registered, `Open` succeeds and its listening socket joins the
-- port, sockets can be closed, and every accept is followed by the `PostAccept` of the next. The signal
-- to stop comes in some `Sleep`, and accepts go on in it until `main` wakes up. If none of the
-- connections accepted until then has set itself up, `main` returns 0. If one has, `main` never
-- returns, whatever sockets are attached meanwhile (below 2 ^ 32 in all).
pub main-accepted :
    {W : Type 0} (closesocket : ℕ → W → Answer (Unit {0}) × W) (o : Opening)
    (ess : List (List Accepted)) (xs ys : List Accepted) (n : ℕ) (later : List (List Event))
    (others : List ℕ) (a : Acceptor) (w : W)
    → ((h : ℕ) (v : W) → (closesocket h v).0 ≡ answer tt)
    → open_acceptor o new ≡ (done true, a)
    → o.joined ≡ true
    → AllPosted (all_accepted ess xs ys)
    → (n ≡ sigterm) ⊎ (n ≡ sigint)
    → 1 + attaches_all (all_accepted ess xs ys) + sum others < 2 ^ 32
    → let es = all_accepted ess xs ys in
      let sleeps = until_signal ess xs n ys later in
      (attaches_all es ≡ 0 → main closesocket true true o sleeps (0 ∷ []) w ≡ some (done 0))
      × (0 < attaches_all es → main closesocket true true o sleeps others w ≡ none)
main-accepted closesocket o ess xs ys n later others a w good e joined p s small =
    let es = all_accepted ess xs ys in
    let (opened, count, _, _) = subst (Opened o) e (open_acceptor-Opened o) in
    let one : a.port.attached_sockets ≡ 1 = count ∙ ap (λ j. if j then 1 else 0) joined in
    let still : (accept_all es a).opened ≡ true = accept_all-opened es a ∙ opened in
    (
      λ none_.
          (let (a', w', run, _, _) =
              Closes-opened closesocket good w (accept_all es a) still
                (accept_all-attached es a (omega arith) ∙ (omega arith)) in
            main-close closesocket o ess xs ys n later (0 ∷ []) a w e p s
            ∙ ap (exit_code closesocket) run),
      λ some_.
          main-close closesocket o ess xs ys n later others a w e p s
          ∙ ap (exit_code closesocket)
              (close-accept_all closesocket es others a w (omega arith) some_ (omega arith)
                still).1,
    )
