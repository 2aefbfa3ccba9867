-- ===== src/Base/Lists.antt =====
-- Lists measured and indexed by native numbers, under the library's names.
use Prim.Native.Nat.{ℕ, zero, suc, ◌+◌, ◌-◌, ◌≤◌, min}
use mathlib.Core.Path.{◌≡◌, refl, sym, ap, ◌∙◌}
use mathlib.Core.List.{List, [], ◌∷◌, ◌++◌, append_assoc}
use native.Mathlib.Omega.{arith}

module _ {ℓ} {A : Type ℓ} where
  abbrev pub length : List A → ℕ
  length [] = 0
  length (x ∷ xs) = suc (length xs)

  abbrev pub take : ℕ → List A → List A
  take zero xs = []
  take (suc n) [] = []
  take (suc n) (x ∷ xs) = x ∷ take n xs

  abbrev pub drop : ℕ → List A → List A
  drop zero xs = xs
  drop (suc n) [] = []
  drop (suc n) (x ∷ xs) = drop n xs

  abbrev pub replicate : ℕ → A → List A
  replicate zero a = []
  replicate (suc n) a = a ∷ replicate n a

  -- The lists of a list, one after another.
  abbrev pub concat : List (List A) → List A
  concat [] = []
  concat (xs ∷ xss) = xs ++ concat xss

  -- `std::copy` of the second list over the first from index 0; it stays inside the first.
  abbrev pub overlay : List A → List A → List A
  overlay [] bs = []
  overlay (x ∷ xs) [] = x ∷ xs
  overlay (x ∷ xs) (b ∷ bs) = b ∷ overlay xs bs

  -- The same from an index on.
  abbrev pub overwrite : List A → ℕ → List A → List A
  overwrite xs zero bs = overlay xs bs
  overwrite [] (suc i) bs = []
  overwrite (x ∷ xs) (suc i) bs = x ∷ overwrite xs i bs

module _ {ℓ} {A : Type ℓ} where
  pub length-append : (xs ys : List A) → length (xs ++ ys) ≡ length xs + length ys
  length-append [] ys = omega arith
  length-append (x ∷ xs) ys = omega (arith, length-append xs ys)

  pub length-take : (n : ℕ) (xs : List A) → length (take n xs) ≡ min n (length xs)
  length-take zero xs = omega arith
  length-take (suc n) [] = omega arith
  length-take (suc n) (x ∷ xs) = omega (arith, length-take n xs)

  pub length-drop : (n : ℕ) (xs : List A) → length (drop n xs) ≡ length xs - n
  length-drop zero xs = omega arith
  length-drop (suc n) [] = omega arith
  length-drop (suc n) (x ∷ xs) = omega (arith, length-drop n xs)

  pub length-replicate : (n : ℕ) (a : A) → length (replicate n a) ≡ n
  length-replicate zero a = refl
  length-replicate (suc n) a = ap suc (length-replicate n a)

  pub take-append-drop : (n : ℕ) (xs : List A) → take n xs ++ drop n xs ≡ xs
  take-append-drop zero xs = refl
  take-append-drop (suc n) [] = refl
  take-append-drop (suc n) (x ∷ xs) = ap (◌∷◌ x) (take-append-drop n xs)

  pub take_all : (n : ℕ) (xs : List A) → length xs ≤ n → take n xs ≡ xs
  take_all zero [] h = refl
  take_all zero (x ∷ xs) h = absurd (omega arith)
  take_all (suc n) [] h = refl
  take_all (suc n) (x ∷ xs) h = ap (◌∷◌ x) (take_all n xs (omega arith))

  pub drop_all : (n : ℕ) (xs : List A) → length xs ≤ n → drop n xs ≡ []
  drop_all zero [] h = refl
  drop_all zero (x ∷ xs) h = absurd (omega arith)
  drop_all (suc n) [] h = refl
  drop_all (suc n) (x ∷ xs) h = drop_all n xs (omega arith)

  -- A cut inside the first list leaves the second alone.
  pub take-append_le : (n : ℕ) (xs ys : List A) → n ≤ length xs → take n (xs ++ ys) ≡ take n xs
  take-append_le zero xs ys h = refl
  take-append_le (suc n) [] ys h = absurd (omega arith)
  take-append_le (suc n) (x ∷ xs) ys h = ap (◌∷◌ x) (take-append_le n xs ys (omega arith))

  pub drop-append_le :
      (n : ℕ) (xs ys : List A) → n ≤ length xs → drop n (xs ++ ys) ≡ drop n xs ++ ys
  drop-append_le zero xs ys h = refl
  drop-append_le (suc n) [] ys h = absurd (omega arith)
  drop-append_le (suc n) (x ∷ xs) ys h = drop-append_le n xs ys (omega arith)

  -- A cut behind the first list cuts the second.
  pub take-append_ge :
      (n : ℕ) (xs ys : List A) → length xs ≤ n → take n (xs ++ ys) ≡ xs ++ take (n - length xs) ys
  take-append_ge n [] ys h = ap (λ k. take k ys) (omega arith)
  take-append_ge zero (x ∷ xs) ys h = absurd (omega arith)
  take-append_ge (suc n) (x ∷ xs) ys h =
      ap (◌∷◌ x) (take-append_ge n xs ys (omega arith) ∙ ap (λ k. xs ++ take k ys) (omega arith))

  pub drop-append_ge :
      (n : ℕ) (xs ys : List A) → length xs ≤ n → drop n (xs ++ ys) ≡ drop (n - length xs) ys
  drop-append_ge n [] ys h = ap (λ k. drop k ys) (omega arith)
  drop-append_ge zero (x ∷ xs) ys h = absurd (omega arith)
  drop-append_ge (suc n) (x ∷ xs) ys h =
      drop-append_ge n xs ys (omega arith) ∙ ap (λ k. drop k ys) (omega arith)

  pub drop-drop : (m n : ℕ) (xs : List A) → drop m (drop n xs) ≡ drop (n + m) xs
  drop-drop m zero xs = ap (λ k. drop k xs) (omega arith)
  drop-drop m (suc n) [] = drop_all m [] (omega arith) ∙ sym (drop_all (suc n + m) [] (omega arith))
  drop-drop m (suc n) (x ∷ xs) =
      let e : suc n + m ≡ suc (n + m) = omega arith in rw e (drop-drop m n xs)

  -- A cut can be made in two.
  pub take_split :
      (n m : ℕ) (xs : List A) → n ≤ m → take m xs ≡ take n xs ++ take (m - n) (drop n xs)
  take_split zero m xs h = ap (λ k. take k xs) (omega arith)
  take_split (suc n) zero xs h = absurd (omega arith)
  take_split (suc n) (suc m) [] h = sym (take_all (suc m - suc n) [] (omega arith))
  take_split (suc n) (suc m) (x ∷ xs) h =
      ap (◌∷◌ x)
        (take_split n m xs (omega arith) ∙ ap (λ k. take n xs ++ take k (drop n xs)) (omega arith))

  pub take-take_le : (n m : ℕ) (xs : List A) → n ≤ m → take n (take m xs) ≡ take n xs
  take-take_le zero m xs h = refl
  take-take_le (suc n) zero xs h = absurd (omega arith)
  take-take_le (suc n) (suc m) [] h = refl
  take-take_le (suc n) (suc m) (x ∷ xs) h = ap (◌∷◌ x) (take-take_le n m xs (omega arith))

  pub take-drop : (m n : ℕ) (xs : List A) → take m (drop n xs) ≡ drop n (take (n + m) xs)
  take-drop m zero xs = ap (λ k. take k xs) (omega arith)
  take-drop m (suc n) [] =
      take_all m [] (omega arith) ∙ sym (ap (drop (suc n)) (take_all (suc n + m) [] (omega arith)))
  take-drop m (suc n) (x ∷ xs) = take-drop m n xs ∙ ap (λ k. drop (suc n) (take k (x ∷ xs))) suc_add
    where
      suc_add : suc (n + m) ≡ suc n + m
      suc_add = omega arith

  pub concat-append : (xss yss : List (List A)) → concat (xss ++ yss) ≡ concat xss ++ concat yss
  concat-append [] yss = refl
  concat-append (xs ∷ xss) yss = rw (concat-append xss yss, append_assoc)

  -- Copying keeps the length.
  pub length-overlay : (xs bs : List A) → length (overlay xs bs) ≡ length xs
  length-overlay [] bs = refl
  length-overlay (x ∷ xs) [] = refl
  length-overlay (x ∷ xs) (b ∷ bs) = ap suc (length-overlay xs bs)

  pub length-overwrite :
      (xs : List A) (i : ℕ) (bs : List A) → length (overwrite xs i bs) ≡ length xs
  length-overwrite xs zero bs = length-overlay xs bs
  length-overwrite [] (suc i) bs = refl
  length-overwrite (x ∷ xs) (suc i) bs = ap suc (length-overwrite xs i bs)

  take-overlay : (xs bs : List A) → length bs ≤ length xs → take (length bs) (overlay xs bs) ≡ bs
  take-overlay [] [] h = refl
  take-overlay [] (b ∷ bs) h = absurd (omega arith)
  take-overlay (x ∷ xs) [] h = refl
  take-overlay (x ∷ xs) (b ∷ bs) h = ap (◌∷◌ b) (take-overlay xs bs (omega arith))

  -- What stands before the end of the copied bytes: the old start, then the copied bytes.
  pub take-overwrite :
      (xs : List A) (i : ℕ) (bs : List A)
      → i + length bs ≤ length xs
      → take (i + length bs) (overwrite xs i bs) ≡ take i xs ++ bs
  take-overwrite xs zero bs h =
      ap (λ k. take k (overlay xs bs)) (omega arith) ∙ take-overlay xs bs (omega arith)
  take-overwrite [] (suc i) bs h = absurd (omega arith)
  take-overwrite (x ∷ xs) (suc i) bs h =
      ap (λ k. take k (x ∷ overwrite xs i bs)) e ∙ ap (◌∷◌ x) (take-overwrite xs i bs (omega arith))
    where
      e : suc i + length bs ≡ suc (i + length bs)
      e = omega arith
