-- ===== src/FlatBuffers/Sample/Format.antt =====
-- The format of the sample library, and that what it writes it reads back.
use cpp_iocplib.Base.{
  ℕ, zero, suc, ◌≤◌, List, [], ◌∷◌, ◌++◌, ◌≡◌, refl, sym, ap, ◌∙◌, length, take, drop, arith,
  append-nil, append_assoc, length-append,
}
use cpp_iocplib.FlatBuffers.Laws.{Object, Fields, text, table, no_fields, element, link}

unfoldable mutual
  pub encode_object : Object → List ℕ
  encode_object (text s) = 0 ∷ length s ∷ s
  encode_object (table fs) = 1 ∷ encode_fields fs

  pub encode_fields : Fields → List ℕ
  encode_fields no_fields = 0 ∷ []
  encode_fields (element p n fs) = 1 ∷ p ∷ n ∷ encode_fields fs
  encode_fields (link p o fs) = 2 ∷ p ∷ (encode_object o ++ encode_fields fs)

mutual
  pub decode_object : ℕ → List ℕ → Object × List ℕ
  decode_object zero xs = (text [], xs)
  decode_object (suc f) (zero ∷ n ∷ xs) = (text (take n xs), drop n xs)
  decode_object (suc f) (suc _ ∷ xs) = let (fs, rest) = decode_fields f xs in (table fs, rest)
  decode_object (suc f) xs = (text [], xs)

  pub decode_fields : ℕ → List ℕ → Fields × List ℕ
  decode_fields zero xs = (no_fields, xs)
  decode_fields (suc f) (zero ∷ xs) = (no_fields, xs)
  decode_fields (suc f) (suc zero ∷ p ∷ n ∷ xs) =
      let (fs, rest) = decode_fields f xs in (element p n fs, rest)
  decode_fields (suc f) (suc (suc _) ∷ p ∷ xs) =
      let (o, more) = decode_object f xs in
      let (fs, rest) = decode_fields f more in (link p o fs, rest)
  decode_fields (suc f) xs = (no_fields, xs)

pub decode_root : List ℕ → Fields
decode_root bs = (decode_fields (length bs) bs).0

take-length : (s rest : List ℕ) → take (length s) (s ++ rest) ≡ s
take-length [] rest = refl
take-length (x ∷ s) rest = ap (λ l. x ∷ l) (take-length s rest)

drop-length : (s rest : List ℕ) → drop (length s) (s ++ rest) ≡ rest
drop-length [] rest = refl
drop-length (x ∷ s) rest = drop-length s rest

abbrev ReadsObject : Object → Type 0
ReadsObject o =
    (rest : List ℕ) (f : ℕ)
    → length (encode_object o) ≤ f
    → decode_object f (encode_object o ++ rest) ≡ (o, rest)

abbrev ReadsFields : Fields → Type 0
ReadsFields fs =
    (rest : List ℕ) (f : ℕ)
    → length (encode_fields fs) ≤ f
    → decode_fields f (encode_fields fs ++ rest) ≡ (fs, rest)

with_more {ℓ} : {n : ℕ} (P : ℕ → Type ℓ) → ((f : ℕ) → n ≤ f → P (suc f)) → (f : ℕ) → suc n ≤ f → P f
with_more P k zero h = absurd (omega arith)
with_more P k (suc f) h = k f (omega arith)

decode-encode : (fs : Fields) → ReadsFields fs
unfolding encode_object encode_fields decode_object decode_fields
decode-encode fs = elim fs as ReadsObject ReadsFields [
  | text s ↦ λ rest. with_more _ λ f h. ap (λ p. p) (simp (take-length s rest, drop-length s rest))
  | table (gs → ih) ↦ λ rest. with_more _ λ f h. simp (ih rest f h)
  | no_fields ↦ λ rest. with_more _ λ f h. refl
  | element p n (gs → ih) ↦ λ rest. with_more _ λ f h. simp (ih rest f (omega arith))
  | link p (o → ih) (gs → ihs) ↦ λ rest. with_more _ λ f h. simp (
    append_assoc,
    ih (encode_fields gs ++ rest) f (omega (arith, length-append {A = ℕ})),
    ihs rest f (omega (arith, length-append {A = ℕ})),
  )
]

pub decode_root-encode : (fs : Fields) → decode_root (encode_fields fs) ≡ fs
unfolding decode_root
decode_root-encode fs =
    ap (λ bs. (decode_fields (length (encode_fields fs)) bs).0)
      (sym (append-nil (encode_fields fs)))
    ∙ ap (λ p. p.0) (decode-encode fs [] (length (encode_fields fs)) (omega arith))
