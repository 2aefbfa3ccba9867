-- ===== src/Wire/Laws.antt =====
-- What a buffer of lib/iocplib/socket_buffer.h holds, and its slices.
use cpp_iocplib.Base.{
  ℕ, zero, suc, ◌+◌, ◌^◌, ◌≤◌, ◌<◌, ◌≡◌, refl, ap, none, some, List, [], ◌∷◌, ◌++◌, take, drop,
  length, replicate, overlay, overwrite, length-overwrite, length-replicate, length-take,
  length-drop, drop-drop, take-append-drop, append_assoc, take_all, add32, encode32, arith,
}
use cpp_iocplib.Wire.{SocketBuffer, allocate, get_buffer_size, slice, header_len}

overlay_full : (n : ℕ) (bs : List ℕ) → length bs ≡ n → overlay (replicate n 0) bs ≡ bs
overlay_full zero [] h = refl
overlay_full zero (b ∷ bs) h = absurd (omega arith)
overlay_full (suc n) [] h = absurd (omega arith)
overlay_full (suc n) (b ∷ bs) h = ap (◌∷◌ b) (overlay_full n bs (omega arith))

overlay-nil : (xs : List ℕ) → overlay xs [] ≡ xs
overlay-nil [] = refl
overlay-nil (x ∷ xs) = refl

fill_frame :
    (n : ℕ) (bs : List ℕ) (size : ℕ)
    → length bs ≡ n
    → overwrite (overwrite (replicate (suc (suc (suc (suc n)))) 0) 4 bs) 0 (encode32 size)
      ≡ encode32 size ++ bs
unfolding encode32
fill_frame n bs size h = rw (overlay-nil, overlay_full n bs h)

-- The bytes of a buffer are the four bytes of its size, then the payload.
pub allocate-bytes :
    (payload : List ℕ)
    → length payload + 4 < 2 ^ 32
    → (allocate payload (length payload)).bytes ≡ encode32 (length payload) ++ payload
unfolding allocate
allocate-bytes payload h =
    let wide : add32 (length payload) header_len ≡ suc (suc (suc (suc (length payload)))) =
      omega arith in
    rw (wide, take_all (length payload) payload (omega arith))
      (fill_frame (length payload) payload (length payload) refl)

-- The size that is sent with a buffer is that of its payload and header.
pub get_buffer_size-allocate :
    (payload : List ℕ)
    → length payload + 4 < 2 ^ 32
    → get_buffer_size (allocate payload (length payload)) ≡ length payload + 4
unfolding get_buffer_size encode32
get_buffer_size-allocate payload h = rw (allocate-bytes payload h) (omega arith)

-- At the largest sizes the sum with the header wraps, and the buffer made is shorter than the
-- header: the constructor's copies run past its end.
pub get_buffer_size_wraps :
    (source : List ℕ) (size : ℕ)
    → 2 ^ 32 ≤ size + 4
    → size < 2 ^ 32
    → get_buffer_size (allocate source size) + 2 ^ 32 ≡ size + 4
unfolding get_buffer_size allocate
get_buffer_size_wraps source size lo hi = omega (
  arith,
  length-overwrite (replicate (add32 size 4) 0) 4 (take size source),
  length-overwrite (overwrite (replicate (add32 size 4) 0) 4 (take size source)) 0 (encode32 size),
  length-replicate {A = ℕ} (add32 size 4) 0,
)

cut_lem :
    (start size : ℕ) (bs : List ℕ)
    → take start bs ++ take size (drop start bs) ++ drop (start + size) bs ≡ bs
cut_lem start size bs =
    rw (← drop-drop size start bs, append_assoc, take-append-drop size (drop start bs))
      (take-append-drop start bs)

-- A slice that ends inside the buffer is the bytes asked for; one that ends with the buffer, or
-- behind it, is refused.
pub slice_lem :
    (b : SocketBuffer) (start size : ℕ)
    → (start + size < get_buffer_size b
        → (s : SocketBuffer) × (slice b start size ≡ some s)
          × (get_buffer_size s ≡ size)
          × (take start b.bytes ++ s.bytes ++ drop (start + size) b.bytes ≡ b.bytes))
      × (get_buffer_size b ≤ start + size → slice b start size ≡ none)
unfolding slice get_buffer_size
slice_lem b start size = (
  λ h. (
    record { bytes = take size (drop start b.bytes) },
    ground arith,
    omega (arith, length-take size (drop start b.bytes), length-drop start b.bytes),
    cut_lem start size b.bytes,
  ),
  λ h. ground arith,
)
