-- ===== src/Port/Close.antt =====
-- The wait of `Close`.
use cpp_iocplib.Base.{add32, arith, ◌^◌, ◌+◌, ◌<◌, List, ℕ, ◌≡◌, refl, [], ◌∷◌, none}
use cpp_iocplib.Port.{IoCompletionPort, wait_detached}

abbrev pub sum : List ℕ → ℕ
sum [] = 0
sum (n ∷ ns) = n + sum ns

-- While a socket is attached, the wait goes on for ever: only `Detach` would end it, and whatever
-- sockets the other threads attach meanwhile (below 2 ^ 32 in all), it never returns.
pub wait_detached_attached :
    (others : List ℕ) (p : IoCompletionPort)
    → 0 < p.attached_sockets
    → p.attached_sockets + sum others < 2 ^ 32
    → wait_detached others p ≡ none
unfolding wait_detached
wait_detached_attached [] p h k = refl
wait_detached_attached (n ∷ others) p h k = ground (
  arith,
  wait_detached_attached others (record p { attached_sockets = add32 p.attached_sockets n }),
)
