-- ===== src/Wire/Tests.antt =====
-- Tests of the framed buffer.
use cpp_iocplib.Base.{
  ◌≤◌, drop, ◌++◌, take, ◌-◌, ◌<◌, ◌+◌, ◌^◌, arith, some, none, ◌≡◌, refl, [], ◌∷◌, encode32,
}
use cpp_iocplib.Wire.{SocketBuffer, allocate, get_buffer_size, slice}
use cpp_iocplib.Wire.Laws.{slice_lem, get_buffer_size_wraps}

two_bytes : (allocate (7 ∷ 9 ∷ []) 2).bytes ≡ 2 ∷ 0 ∷ 0 ∷ 0 ∷ 7 ∷ 9 ∷ []
unfolding allocate encode32
two_bytes = refl

abbrev sample : SocketBuffer
sample = record { bytes = 1 ∷ 2 ∷ 3 ∷ 4 ∷ [] }

slice_lem_example :
    (1 + 2 < get_buffer_size sample
      → (s : SocketBuffer) × (slice sample 1 2 ≡ some s)
        × (get_buffer_size s ≡ 2)
        × (take 1 sample.bytes ++ s.bytes ++ drop 3 sample.bytes ≡ sample.bytes))
    × (get_buffer_size sample ≤ 1 + 2 → slice sample 1 2 ≡ none)
slice_lem_example = slice_lem sample 1 2

get_buffer_size_wraps_example :
    get_buffer_size (allocate (7 ∷ []) (2 ^ 32 - 3)) + 2 ^ 32 ≡ 2 ^ 32 - 3 + 4
get_buffer_size_wraps_example =
    get_buffer_size_wraps (7 ∷ []) (2 ^ 32 - 3) (omega arith) (omega arith)
