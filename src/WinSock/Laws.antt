-- ===== src/WinSock/Laws.antt =====
-- Laws of a socket's calls.
use cpp_iocplib.Base.{
  ◌∙◌, sym, ap, Option, arith, not, ◌==◌, Bool, ℕ, ◌≡◌, refl, none, some, true, false,
}
use mathlib.Core.Option.{some-injective}
use cpp_iocplib.WinSock.{
  close_handle, WinSock, done, Answer, answer, socket_error, after_close, close,
  set_nagle_alogrithm, checked,
}

after_close-none :
    {W : Type 0} (s t : WinSock) (w' : W) (out : Answer (Unit {0}) × W)
    → after_close s out ≡ (some t, w')
    → t.handle ≡ none
unfolding after_close
after_close-none s t w' (answer a, v) q = ground arith
after_close-none s t w' (socket_error e, v) q = cc (ap (λ d. d.0) q)

-- A socket that `Close` has been called for holds no handle, and closing it again makes no call of
-- the system and changes nothing.
pub close_twice :
    {W : Type 0} (closesocket : ℕ → W → Answer (Unit {0}) × W) (s t : WinSock) (w w' : W)
    → close closesocket s w ≡ (some t, w')
    → (t.handle ≡ none) × (close closesocket t w' ≡ (some t, w'))
unfolding close close_handle
close_twice {W} closesocket s t w w' e =
    let shut : t.handle ≡ none = by_handle s.handle refl e in
    (shut, ap (λ h. close_handle closesocket t h w') shut)
  where
    by_handle :
        (h : Option ℕ)
        → s.handle ≡ h
        → close_handle closesocket s h w ≡ (some t, w')
        → t.handle ≡ none
    by_handle none z q =
        ap (λ (u : WinSock). u.handle) (sym (some-injective s t (ap (λ d. d.0) q))) ∙ z
    by_handle (some h) z q = after_close-none s t w' (closesocket h w) q

checked-done : (a : Answer (Unit {0})) → checked a ≡ done tt → a ≡ answer tt
unfolding checked
checked-done (answer a) e = refl
checked-done (socket_error c) e = cc

-- `TCP_NODELAY` turns the algorithm off where it is not 0. So `SetNagleAlogrithm` does the opposite
-- of what it is asked: asked to turn it on it turns it off, and the other way round.
nagle_inverted :
    {W : Type 0} (set_no_delay : ℕ → W → Answer (Unit {0}) × W) (nagle : W → Bool)
    → ((value : ℕ) (w : W)
        → (set_no_delay value w).0 ≡ answer tt
        → nagle (set_no_delay value w).1 ≡ (value == 0))
    → (activate : Bool) (w : W) → (set_nagle_alogrithm set_no_delay activate w).0 ≡ done tt
    → nagle (set_nagle_alogrithm set_no_delay activate w).1 ≡ not activate
unfolding set_nagle_alogrithm
nagle_inverted set_no_delay nagle law true w e = law 1 w (checked-done _ e)
nagle_inverted set_no_delay nagle law false w e = law 0 w (checked-done _ e)
