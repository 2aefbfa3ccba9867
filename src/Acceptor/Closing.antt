-- ===== src/Acceptor/Closing.antt =====
-- `Close` after `Open`.
use cpp_iocplib.Base.{
  ℕ, ◌+◌, ◌<◌, ◌^◌, Bool, true, false, List, [], ◌∷◌, length, Option, none, some, ◌≡◌, refl, ap,
  ◌∙◌, ◌⊎◌, inl, inr, if◌then◌else◌, arith, ◌==◌, add32,
}
use cpp_iocplib.WinSock
use cpp_iocplib.WinSock.{WinSock, Result, done, throws, Answer, answer, socket_error, checked}
use cpp_iocplib.Port.{IoCompletionPort, detach, wait_detached, worker_count}
use cpp_iocplib.Port.Close.{sum, wait_detached_attached}
use cpp_iocplib.Acceptor.{Acceptor, after_close, new, close, wait_and_close, close_socket}
use cpp_iocplib.Acceptor.Counts.{wait_and_close-none}
use cpp_iocplib.Acceptor.Open.{Opening, post_all, open_acceptor}
use cpp_iocplib.Acceptor.Opened.{Opened, open_acceptor-Opened}

-- An acceptor whose count comes down to 0 is closed by `Close`.
abbrev pub Closes : {W : Type 0} → (ℕ → W → Answer (Unit {0}) × W) → Acceptor → W → Type 0
Closes {W} closesocket a w =
    (a' : Acceptor) × (w' : W) × (close closesocket (0 ∷ []) a w ≡ some (a', w'))
    × (a'.opened ≡ false)
    × (a'.listen_socket.handle ≡ none)

socket_closes :
    {W : Type 0} (closesocket : ℕ → W → Answer (Unit {0}) × W) (a : Acceptor) (w : W)
    → ((h : ℕ) (v : W) → (closesocket h v).0 ≡ answer tt)
    → (a' : Acceptor) × (w' : W) × (close_socket closesocket a w ≡ some (a', w'))
      × (a'.opened ≡ false)
      × (a'.listen_socket.handle ≡ none)
unfolding close_socket WinSock.close WinSock.close_handle WinSock.after_close
socket_closes {W} closesocket a w good = by_handle a.listen_socket.handle refl
  where
    by_answer :
        (out : Answer (Unit {0}) × W)
        → out.0 ≡ answer tt
        → WinSock.after_close a.listen_socket out
          ≡ (some (record a.listen_socket { handle = none }), out.1)
    by_answer (answer x, v) e = refl
    by_answer (socket_error x, v) e = cc

    by_handle :
        (h : Option ℕ)
        → a.listen_socket.handle ≡ h
        → (a' : Acceptor) × (w' : W) × (after_close a
              (WinSock.close_handle closesocket a.listen_socket h w)
            ≡ some (a', w'))
          × (a'.opened ≡ false)
          × (a'.listen_socket.handle ≡ none)
    by_handle none e = (record a { opened = false }, w, refl, refl, e)
    by_handle (some h) e = (
      record a { listen_socket = record a.listen_socket { handle = none }; opened = false },
      (closesocket h w).1,
      ap (after_close a) (by_answer (closesocket h w) (good h w)),
      refl,
      refl,
    )

-- With nothing attached the wait ends at once.
wait_free : (p : IoCompletionPort) → p.attached_sockets ≡ 0 → wait_detached (0 ∷ []) p ≡ some p
unfolding wait_detached
wait_free p n =
    ap
      (λ k.
        if k == 0
        then some p
        else wait_detached [] (record p { attached_sockets = add32 p.attached_sockets 0 }))
      n

wait_and_close-free :
    {W : Type 0} (closesocket : ℕ → W → Answer (Unit {0}) × W) (a : Acceptor) (w : W)
    → a.port.attached_sockets ≡ 0
    → wait_and_close closesocket (0 ∷ []) a w ≡ close_socket closesocket a w
unfolding wait_and_close
wait_and_close-free {W} closesocket a w n =
    ap
      (λ (o : Option IoCompletionPort). elim o as (λ _. Option (Acceptor × W)) [
        | none ↦ none
        | some p ↦ close_socket closesocket (record a { port = p }) w
      ])
      (wait_free a.port n)

close-closed :
    {W : Type 0} (closesocket : ℕ → W → Answer (Unit {0}) × W) (others : List ℕ) (a : Acceptor)
    (w : W)
    → a.opened ≡ false
    → close closesocket others a w ≡ wait_and_close closesocket others a w
unfolding close
close-closed closesocket others a w f = simp f refl

close-open :
    {W : Type 0} (closesocket : ℕ → W → Answer (Unit {0}) × W) (others : List ℕ) (a : Acceptor)
    (w : W)
    → a.opened ≡ true
    → a.port.attached_sockets ≡ 1
    → close closesocket others a w
      ≡ wait_and_close closesocket others
          (record a { port = record a.port { attached_sockets = 0 } })
          w
unfolding close detach
close-open closesocket others a w o n = simp (o, n) refl

-- Nothing is attached to an acceptor that is not open, or only its socket to one that is.
module _ {W : Type 0} (closesocket : ℕ → W → Answer (Unit {0}) × W)
    (good : (h : ℕ) (v : W) → (closesocket h v).0 ≡ answer tt) (w : W) where
  pub Closes-free :
      (a : Acceptor) → a.opened ≡ false → a.port.attached_sockets ≡ 0 → Closes closesocket a w
  Closes-free a f n =
      let (a', w', run, f', h) = socket_closes closesocket a w good in
      let ends = close-closed closesocket (0 ∷ []) a w f ∙ wait_and_close-free closesocket a w n in
      (a', w', ends ∙ run, f', h)

  pub Closes-opened :
      (a : Acceptor) → a.opened ≡ true → a.port.attached_sockets ≡ 1 → Closes closesocket a w
  Closes-opened a t n =
      let b = record a { port = record a.port { attached_sockets = 0 } } in
      let (a', w', run, f', h) = socket_closes closesocket b w good in
      let ends =
        close-open closesocket (0 ∷ []) a w t n ∙ wait_and_close-free closesocket b w refl in
      (a', w', ends ∙ run, f', h)

-- `Open` of a new acceptor on a system where its sockets join the port and can be closed. If it
-- succeeds, it has the workers and the waiting sockets asked for, and `Close` returns. If it throws,
-- then either `Close` returns as well, or the `socket` of an accept has failed and `Close` never
-- returns, whatever sockets are attached meanwhile (below 2 ^ 32 in all), since the listening socket
-- is attached and the acceptor does not count as open.
pub close-open_acceptor :
    {W : Type 0} (closesocket : ℕ → W → Answer (Unit {0}) × W) (o : Opening) (others : List ℕ)
    (w : W)
    → ((h : ℕ) (v : W) → (closesocket h v).0 ≡ answer tt)
    → o.joined ≡ true
    → 1 + sum others < 2 ^ 32
    → let (r, a) = open_acceptor o new in
      (r ≡ done true
        → (a.port.workers ≡ worker_count o.io_thread o.processors)
          × (length a.accept_sockets ≡ length o.accepts)
          × Closes closesocket a w)
      × ((e : ℕ)
          → r ≡ throws e
          → Closes closesocket a w
            ⊎ (((post_all o.accepts []).1 ≡ some e) × (close closesocket others a w ≡ none)))
close-open_acceptor {W} closesocket o others w good joined small =
    by_result (open_acceptor o new) (open_acceptor-Opened o)
  where
    by_result :
        (out : Result Bool × Acceptor)
        → Opened o out
        → (out.0 ≡ done true
            → (out.1.port.workers ≡ worker_count o.io_thread o.processors)
              × (length out.1.accept_sockets ≡ length o.accepts)
              × Closes closesocket out.1 w)
          × ((e : ℕ)
              → out.0 ≡ throws e
              → Closes closesocket out.1 w
                ⊎ (((post_all o.accepts []).1 ≡ some e)
                    × (close closesocket others out.1 w ≡ none)))
    by_result (done true, a) (t, n, k, l) = (
      λ _. (k, l, Closes-opened closesocket good w a t (n ∙ ap (λ j. if j then 1 else 0) joined)),
      λ e q. cc q,
    )
    by_result (done false, a) (f, n) = (λ q. cc q, λ e q. cc q)
    by_result (throws x, a) (f, inl n) =
        (λ q. cc q, λ e q. inl (Closes-free closesocket good w a f n))
    by_result (throws x, a) (f, inr (n, threw)) = (
      λ q. cc q,
      λ e q. inr (
        cc,
        close-closed closesocket others a w f
            ∙ wait_and_close-none closesocket others a w
                (wait_detached_attached others a.port (omega arith) (omega arith)),
      ),
    )
