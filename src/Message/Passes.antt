-- ===== src/Message/Passes.antt =====
-- Checks that pass, as long as tables are not nested too deep.
use cpp_iocplib.Base.{ℕ, Bool, true, false, List, ◌≡◌, sym}
use mathlib.Core.Path.{subst}
use cpp_iocplib.FlatBuffers.{FlatBuffers}
use cpp_iocplib.FlatBuffers.Laws.{IsLawful}
use cpp_iocplib.Message.{Check, both, only_if, test}

module _ (fb : FlatBuffers) (L : IsLawful fb) (bs : List ℕ) where
  -- The check passes with so much room, and leaves so much.
  abbrev pub Passes : ℕ → ℕ → Check fb → Type 0
  Passes before after p =
      (v : fb.Verifier) → L.Room bs before v → ((p v).0 ≡ true) × L.Room bs after (p v).1

  only_if-Passes :
      (before after : ℕ) (q : Check fb) (out : Bool × fb.Verifier)
      → Passes before after q
      → out.0 ≡ true
      → L.Room bs before out.1
      → ((only_if fb q out).0 ≡ true) × L.Room bs after (only_if fb q out).1
  only_if-Passes before after q (true, v) h e r = h v r
  only_if-Passes before after q (false, v) h e r = cc

  pub both-Passes :
      (before between after : ℕ) (p q : Check fb)
      → Passes before between p
      → Passes between after q
      → Passes before after (both fb p q)
  both-Passes before between after p q h k v r =
      let (e, room) = h v r in only_if-Passes between after q (p v) k e room

  pub test-Passes :
      (before : ℕ) (p : fb.Verifier → Bool)
      → ((v : fb.Verifier) → L.Room bs before v → p v ≡ true)
      → Passes before before (test fb p)
  test-Passes before p h v r = (h v r, r)

  pub Passes-cong :
      (before after : ℕ) (p q : Check fb)
      → ((v : fb.Verifier) → p v ≡ q v)
      → Passes before after q
      → Passes before after p
  Passes-cong before after p q e h v r =
      subst (λ out. (out.0 ≡ true) × L.Room bs after out.1) (sym (e v)) (h v r)
