-- ===== src/Network/Streams.antt =====
-- How far a receiver has come in the frames of a list of packets.
use cpp_iocplib.Base.{
  ℕ, suc, List, [], ◌∷◌, ◌++◌, drop, length, ◌≡◌, ◌≢◌, refl, sym, ap, ◌∙◌, ◌⊎◌, inl, inr,
  append-nil, append_assoc, length-append, arith,
}
use cpp_iocplib.Packet.Frame.{frame, length-frame}

abbrev pub frames : List (List ℕ) → List ℕ
frames [] = []
frames (p ∷ ps) = frame p ++ frames ps

pub frames-append : (ps qs : List (List ℕ)) → frames (ps ++ qs) ≡ frames ps ++ frames qs
frames-append [] qs = refl
frames-append (p ∷ ps) qs =
    ap (λ bs. frame p ++ bs) (frames-append ps qs)
    ∙ sym (append_assoc (frame p) (frames ps) (frames qs))

-- The frames of one packet more.
pub frames-snoc : (ps : List (List ℕ)) (p : List ℕ) → frames (ps ++ p ∷ []) ≡ frames ps ++ frame p
frames-snoc ps p = frames-append ps (p ∷ []) ∙ ap (λ bs. frames ps ++ bs) (append-nil (frame p))

pub append_cancel : (xs : List ℕ) {ys zs : List ℕ} → xs ++ ys ≡ xs ++ zs → ys ≡ zs
append_cancel [] e = e
append_cancel (x ∷ xs) e = append_cancel xs (ap (drop 1) e)

-- Nothing is two things in a row only if both are nothing.
pub append-none : (xs ys : List ℕ) → xs ++ ys ≡ [] → (xs ≡ []) × (ys ≡ [])
append-none [] ys e = (refl, e)
append-none (x ∷ xs) ys e = cc e

pub frame_ne : (p bs : List ℕ) → frame p ++ bs ≢ []
frame_ne p bs e = omega (arith, ap length e, length-append (frame p) bs, length-frame p)

-- A receiver that has got these bytes of all frames, has finished the first n packets and has gathered
-- the start of the next, which is not the whole of it.
pub record Gets (all : List (List ℕ)) (n : ℕ) (got gathered : List ℕ) : Type 0 where
  pub left : List ℕ
  pub total : got ++ left ≡ frames all
  pub rest : gathered ++ left ≡ frames (drop n all)
  pub unfinished : (gathered ≡ []) ⊎ (left ≢ [])

-- What comes next of a stream is the first of what is left.
pub Gets-next :
    {all : List (List ℕ)} {n : ℕ} {got gathered : List ℕ} (g : Gets all n got gathered)
    (chunk more : List ℕ)
    → frames all ≡ got ++ (chunk ++ more)
    → g.left ≡ chunk ++ more
Gets-next {got = got} g chunk more e = append_cancel got (g.total ∙ e)

-- A receiver of whose packets none is left has gathered nothing.
pub Gets-idle :
    {all : List (List ℕ)} {n : ℕ} {got gathered : List ℕ}
    → Gets all n got gathered
    → drop n all ≡ []
    → (gathered ≡ []) × (got ≡ frames all)
Gets-idle {got = got} {gathered} g e =
    let (empty, over) = append-none gathered g.left (g.rest ∙ ap frames e) in
    (empty, sym (append-nil got) ∙ ap (λ bs. got ++ bs) (sym over) ∙ g.total)

-- One that has got all that there is waits for nothing.
pub Gets-over :
    {all : List (List ℕ)} {n : ℕ} {got gathered : List ℕ}
    → Gets all n got gathered
    → got ≡ frames all
    → frames (drop n all) ≡ []
Gets-over {all} {n} {got} {gathered} g e = by_part g.unfinished
  where
    over : g.left ≡ []
    over = append_cancel got (g.total ∙ sym e ∙ sym (append-nil got))

    by_part : (gathered ≡ []) ⊎ (g.left ≢ []) → frames (drop n all) ≡ []
    by_part (inl empty) = sym g.rest ∙ ap (λ bs. bs ++ g.left) empty ∙ over
    by_part (inr more) = absurd (more over)

-- A chunk that leaves something of the packet is gathered.
pub Gets-part :
    {all : List (List ℕ)} {n : ℕ} {got gathered : List ℕ} (g : Gets all n got gathered)
    (chunk : List ℕ) (y : ℕ) (ys : List ℕ)
    → g.left ≡ chunk ++ (y ∷ ys)
    → Gets all n (got ++ chunk) (gathered ++ chunk)
Gets-part {got = got} {gathered} g chunk y ys e = record {
  left = y ∷ ys;
  total = append_assoc got chunk (y ∷ ys) ∙ ap (λ bs. got ++ bs) (sym e) ∙ g.total;
  rest = append_assoc gathered chunk (y ∷ ys) ∙ ap (λ bs. gathered ++ bs) (sym e) ∙ g.rest;
  unfinished = inr (λ z. cc z);
}

-- A chunk that is all that is left of the last packet finishes it.
pub Gets-last :
    {all : List (List ℕ)} {n : ℕ} {got gathered : List ℕ} (g : Gets all n got gathered)
    (chunk : List ℕ)
    → g.left ≡ chunk
    → drop (suc n) all ≡ []
    → Gets all (suc n) (got ++ chunk) []
Gets-last {got = got} g chunk e last = record {
  left = [];
  total = append-nil (got ++ chunk) ∙ ap (λ bs. got ++ bs) (sym e) ∙ g.total;
  rest = ap frames (sym last);
  unfinished = inl refl;
}

-- A new packet, where none was left.
pub Gets-more :
    {all : List (List ℕ)} {n : ℕ} {got gathered : List ℕ} (p : List ℕ)
    → Gets all n got gathered
    → drop n all ≡ []
    → drop n (all ++ p ∷ []) ≡ p ∷ []
    → Gets (all ++ p ∷ []) n got gathered
Gets-more {all} {got = got} {gathered} p g none_ one =
    let (empty, whole) = Gets-idle g none_ in
    record {
      left = frame p;
      total = ap (λ bs. bs ++ frame p) whole ∙ sym (frames-snoc all p);
      rest = ap (λ bs. bs ++ frame p) empty ∙ sym (append-nil (frame p)) ∙ ap frames (sym one);
      unfinished = inl empty;
    }

-- Such a receiver gets nothing more.
pub Gets-stuck :
    {all : List (List ℕ)} {n : ℕ} {got gathered : List ℕ} (g : Gets all n got gathered) (b : ℕ)
    (bs : List ℕ)
    → drop n all ≡ []
    → g.left ≢ b ∷ bs
Gets-stuck {gathered = gathered} g b bs e more =
    let (_, over) = append-none gathered g.left (g.rest ∙ ap frames e) in cc (sym over ∙ more)

-- What is gathered and what is left is the frame of the one packet under way.
pub Gets-frame :
    {all : List (List ℕ)} {n : ℕ} {got gathered : List ℕ} (g : Gets all n got gathered)
    (p bs : List ℕ)
    → drop n all ≡ p ∷ []
    → g.left ≡ bs
    → gathered ++ bs ≡ frame p
Gets-frame {gathered = gathered} g p bs e l =
    ap (λ ys. gathered ++ ys) (sym l) ∙ g.rest ∙ ap frames e ∙ append-nil (frame p)
