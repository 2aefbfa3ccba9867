-- ===== src/Base/Words.antt =====
-- `uint32_t` arithmetic, and a `uint32_t` in memory: four bytes, the lowest first (the programs
-- run on little-endian Windows).
use Prim.Native.Nat.{ℕ, ◌+◌, ◌-◌, ◌*◌, ◌/◌, ◌%◌, ◌^◌, ◌<◌, ◌≤◌}
use mathlib.Core.Path.{◌≡◌, refl, sym, ap, ◌∙◌}
use mathlib.Core.List.{List, [], ◌∷◌, ◌++◌}
use native.Mathlib.Omega.{arith}
use cpp_iocplib.Base.Lists.{length, take, drop, length-take, take-append-drop}

abbrev pub u32_mod : ℕ
u32_mod = 2 ^ 32

abbrev pub add32 : ℕ → ℕ → ℕ
add32 a b = (a + b) % 2 ^ 32

abbrev pub sub32 : ℕ → ℕ → ℕ
sub32 a b = (a + 2 ^ 32 - b) % 2 ^ 32

unfoldable pub encode32 : ℕ → List ℕ
encode32 n = n % 256 ∷ n / 256 % 256 ∷ n / 65536 % 256 ∷ n / 16777216 % 256 ∷ []

-- The number that the first four bytes hold. With fewer than four there is none, and the value 0
-- is never read.
unfoldable pub decode32 : List ℕ → ℕ
decode32 (a ∷ b ∷ c ∷ d ∷ _) = a + 256 * b + 65536 * c + 16777216 * d
decode32 _ = 0

pub length-encode32 : (n : ℕ) → length (encode32 n) ≡ 4
unfolding encode32
length-encode32 n = refl

pub decode32-encode32 : (n : ℕ) (rest : List ℕ) → n < 2 ^ 32 → decode32 (encode32 n ++ rest) ≡ n
unfolding encode32 decode32
decode32-encode32 n rest h = omega arith

-- Only the first four bytes count.
pub decode32-append : (bs rest : List ℕ) → 4 ≤ length bs → decode32 (bs ++ rest) ≡ decode32 bs
unfolding decode32
decode32-append (a ∷ b ∷ c ∷ d ∷ bs) rest h = refl
decode32-append [] rest h = absurd (omega arith)
decode32-append (a ∷ []) rest h = absurd (omega arith)
decode32-append (a ∷ b ∷ []) rest h = absurd (omega arith)
decode32-append (a ∷ b ∷ c ∷ []) rest h = absurd (omega arith)

pub decode32-take :
    (n : ℕ) (bs : List ℕ) → 4 ≤ n → n ≤ length bs → decode32 (take n bs) ≡ decode32 bs
decode32-take n bs h k =
    sym (decode32-append (take n bs) (drop n bs) (omega (arith, length-take n bs)))
    ∙ ap decode32 (take-append-drop n bs)
