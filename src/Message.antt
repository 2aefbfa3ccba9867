-- ===== src/Message.antt =====
-- What the two generated message headers of examples/message share: checks that follow one another,
-- and a table while it is built.
pub mod Passes
mod Tests
pub mod Client
pub mod Server
use cpp_iocplib.Base.{ℕ, Bool, true, false, ◌≡◌, refl, ◌∙◌, sym, ap, if◌then◌else◌}
use cpp_iocplib.FlatBuffers.{FlatBuffers}

module _ (fb : FlatBuffers) where
  -- A check by a verifier, whose state it changes.
  abbrev pub Check : Type 0
  Check = fb.Verifier → Bool × fb.Verifier

  abbrev pub only_if : Check → Bool × fb.Verifier → Bool × fb.Verifier
  only_if q (true, v) = q v
  only_if q (false, v) = (false, v)

  -- `p && q`
  abbrev pub both : Check → Check → Check
  both p q v = only_if q (p v)

  -- A check that leaves the verifier as it is.
  abbrev pub test : (fb.Verifier → Bool) → Check
  test p v = (p v, v)

  abbrev pub passes : Check
  passes v = (true, v)

  -- The members `fbb_` and `start_` of a builder of a table.
  pub record TableBuilder : Type 0 where
    pub fbb : fb.Builder
    pub start : ℕ

  abbrev pub opened : ℕ × fb.Builder → TableBuilder
  opened (s, b) = record { fbb = b; start = s }
