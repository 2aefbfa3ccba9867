-- ===== src/FlatBuffers/Sample.antt =====
-- A library of the interface of FlatBuffers with a small format of its own, for the instances of
-- theorems: it keeps what it is given and writes it out in the order given.
pub mod Format
use cpp_iocplib.Base.{
  ℕ, zero, suc, ◌≤◌, Bool, true, false, List, [], ◌∷◌, ◌++◌, Option, none, some, ◌≡◌, refl, sym, ap,
  ◌∙◌, ◌==◌, if◌then◌else◌, length, arith, append-nil,
}
use mathlib.Core.Path.{subst}
use cpp_iocplib.FlatBuffers.{FlatBuffers}
use cpp_iocplib.FlatBuffers.Laws.{
  IsLawful, Object, Fields, text, table, no_fields, element, link, field_of, link_of,
}
use cpp_iocplib.FlatBuffers.Sample.Format.{encode_fields, decode_root, decode_root-encode}

pub record SampleBuilder : Type 0 where
  pub made : List Object
  pub adding : Fields
  pub out : List ℕ

pub record SampleVerifier : Type 0 where
  pub bytes : List ℕ
  pub depth : ℕ

abbrev at_index : ℕ → List Object → Option Object
at_index i [] = none
at_index zero (x ∷ xs) = some x
at_index (suc i) (x ∷ xs) = at_index i xs

-- Offset 0 is null.
abbrev at_offset : ℕ → List Object → Option Object
at_offset zero xs = none
at_offset (suc i) xs = at_index i xs

abbrev text_of : Option Object → Option (List ℕ)
text_of (some (text s)) = some s
text_of _ = none

abbrev table_of : Option Object → Option Fields
table_of (some (table fs)) = some fs
table_of _ = none

abbrev written : Option Fields → List ℕ
written none = []
written (some fs) = encode_fields fs

abbrev added : ℕ → Option Object → Fields → Fields
added place none fs = fs
added place (some x) fs = link place x fs

abbrev enters : SampleVerifier → ℕ → Bool × SampleVerifier
enters v zero = (false, v)
enters v (suc d) = (true, record v { depth = d })

abbrev follows : {A B : Type 0} → (A → B → Bool × B) → Option A → B → Bool × B
follows f none v = (true, v)
follows f (some t) v = f t v

abbrev pub sample : FlatBuffers
sample = record {
  Table = Fields;
  Text = List ℕ;
  Verifier = SampleVerifier;
  Builder = SampleBuilder;
  get_root = decode_root;
  get_field = λ width place missing t. field_of place missing t;
  get_table = λ place t. table_of (link_of place t);
  get_text = λ place t. text_of (link_of place t);
  c_str = λ s. s;
  verifier = λ bs n. record { bytes = bs; depth = 2 };
  verify_table_start = λ t v. enters v v.depth;
  verify_field = λ width place align t v. true;
  verify_offset = λ place t v. true;
  verify_string = λ s v. true;
  end_table = λ v. (true, record v { depth = suc v.depth });
  verify_table = follows;
  verify_buffer = λ f v. f (decode_root v.bytes) v;
  new_builder = record { made = []; adding = no_fields; out = [] };
  start_table = λ b. (0, record b { adding = no_fields });
  add_element = λ width place n missing b. record b {
    adding = if n == missing then b.adding else element place n b.adding;
  };
  add_offset = λ place o b. record b { adding = added place (at_offset o b.made) b.adding };
  finish_table = λ s b. (suc (length b.made), record b { made = b.made ++ table b.adding ∷ [] });
  create_string = λ s b. (suc (length b.made), record b { made = b.made ++ text s ∷ [] });
  finish = λ o b. record b { out = written (table_of (at_offset o b.made)) };
  buffer = λ b. b.out;
}

at_index-append :
    (i : ℕ) (xs ys : List Object) (x : Object)
    → at_index i xs ≡ some x
    → at_index i (xs ++ ys) ≡ some x
at_index-append i [] ys x e = cc
at_index-append zero (y ∷ xs) ys x e = e
at_index-append (suc i) (y ∷ xs) ys x e = at_index-append i xs ys x e

at_offset-append :
    (o : ℕ) (xs ys : List Object) (x : Object)
    → at_offset o xs ≡ some x
    → at_offset o (xs ++ ys) ≡ some x
at_offset-append zero xs ys x e = e
at_offset-append (suc i) xs ys x e = at_index-append i xs ys x e

at_index-last : (xs : List Object) (x : Object) → at_index (length xs) (xs ++ x ∷ []) ≡ some x
at_index-last [] x = refl
at_index-last (y ∷ xs) x = at_index-last xs x

enters-Room :
    (v : SampleVerifier) (d k : ℕ)
    → suc k ≤ d
    → ((enters v d).0 ≡ true) × ((enters v d).1.bytes ≡ v.bytes) × (k ≤ (enters v d).1.depth)
enters-Room v zero k h = absurd (omega arith)
enters-Room v (suc d) k h = (refl, refl, omega arith)

pub sample-IsLawful : IsLawful sample
sample-IsLawful = record {
  Made = λ b o x. at_offset o b.made ≡ some x;
  Open = λ b s fs. b.adding ≡ fs;
  Reads = λ bs t fs. t ≡ fs;
  Room = λ bs k v. (v.bytes ≡ bs) × (k ≤ v.depth);
  start_table-Open = λ b. refl;
  start_table-Made = λ b o x h. h;
  add_element-Open = λ b s w p n d fs h. ap (λ gs. if n == d then gs else element p n gs) h;
  add_offset-Open = λ b s p o x fs h m. ap (λ y. added p y b.adding) m ∙ ap (link p x) h;
  add_offset-Made = λ b p o o' x h. h;
  finish_table-Made =
      λ b s fs h. at_index-last b.made (table b.adding) ∙ ap (λ gs. some (table gs)) h;
  create_string-text = λ b s. at_index-last b.made (text s);
  create_string-Made = λ b s o x h. at_offset-append o b.made (text s ∷ []) x h;
  finish-Reads = λ b o fs h. ap (λ y. decode_root (written (table_of y))) h ∙ decode_root-encode fs;
  get_field-Reads = λ bs t fs w p d h. ap (field_of p d) h;
  get_table-Reads =
      λ bs t fs gs p h l. (gs, ap (λ us. table_of (link_of p us)) h ∙ ap table_of l, refl);
  get_text-Reads = λ bs t fs s p h l. (s, ap (λ us. text_of (link_of p us)) h ∙ ap text_of l, refl);
  get_table-none = λ bs t fs p h l. ap (λ us. table_of (link_of p us)) h ∙ ap table_of l;
  get_text-none = λ bs t fs p h l. ap (λ us. text_of (link_of p us)) h ∙ ap text_of l;
  verifier-Room = λ b o fs h. (refl, omega arith);
  verify_table_start-Room = λ bs t fs d v h r.
      (let (e, same, room) = enters-Room v v.depth d r.1 in (e, (same ∙ r.0, room)));
  end_table-Room = λ bs d v r. (refl, (r.0, omega (arith, r.1)));
  verify_field-Reads = λ bs t fs w p a d v h r. refl;
  verify_offset-Reads = λ bs t fs p d v h r. refl;
  verify_string-Reads = λ bs t fs s p d v h l r. refl;
  verify_string-none = λ v. refl;
  verify_table-none = λ f v. refl;
  verify_table-some = λ f t v. refl;
  verify_buffer-root = λ bs fs f d v h r. ap (λ cs. f (decode_root cs) v) r.0;
}

-- A table that is written out is read, and verified, whatever it holds.
pub sample-Reads :
    (fs : Fields) → sample-IsLawful.Reads (encode_fields fs) (sample.get_root (encode_fields fs)) fs
unfolding sample-IsLawful
sample-Reads fs = decode_root-encode fs

pub sample-Room : (bs : List ℕ) → sample-IsLawful.Room bs 2 (sample.verifier bs (length bs))
unfolding sample-IsLawful
sample-Room bs = (refl, omega arith)
