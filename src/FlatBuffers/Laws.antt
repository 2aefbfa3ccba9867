-- ===== src/FlatBuffers/Laws.antt =====
-- What the library of examples/flatbuffers is documented to do with buffers that it has built.
use cpp_iocplib.Base.{
  ℕ, suc, Bool, true, List, Option, none, some, ◌≡◌, ◌==◌, if◌then◌else◌, length,
}
use cpp_iocplib.FlatBuffers.{FlatBuffers}

-- What is written: strings, and tables of fields by their places in the table.
mutual
  pub data Object : Type 0 where
    text : List ℕ → Object
    table : Fields → Object

  pub data Fields : Type 0 where
    no_fields : Fields
    element : ℕ → ℕ → Fields → Fields
    link : ℕ → Object → Fields → Fields

abbrev pub field_of : ℕ → ℕ → Fields → ℕ
field_of place missing no_fields = missing
field_of place missing (element p n fs) =
    let rest = field_of place missing fs in if p == place then n else rest
field_of place missing (link p o fs) = field_of place missing fs

abbrev pub link_of : ℕ → Fields → Option Object
link_of place no_fields = none
link_of place (element p n fs) = link_of place fs
link_of place (link p o fs) = let rest = link_of place fs in if p == place then some o else rest

-- The library's view of its own objects. `Made`: at this offset of the builder stands the object;
-- `Open`: since this start these fields have been added to the table; `Reads`: in this buffer the
-- pointer is to a table of these fields; `Room`: the verifier is of this buffer, and lets tables be
-- nested so much deeper.
pub record IsLawful (fb : FlatBuffers) : Type 1 where
  pub Made : fb.Builder → ℕ → Object → Type 0
  pub Open : fb.Builder → ℕ → Fields → Type 0
  pub Reads : List ℕ → fb.Table → Fields → Type 0
  pub Room : List ℕ → ℕ → fb.Verifier → Type 0
  -- Building. An element equal to its default is left out.
  pub start_table-Open : (b : fb.Builder) → Open (fb.start_table b).1 (fb.start_table b).0 no_fields
  pub start_table-Made :
      (b : fb.Builder) (o : ℕ) (x : Object) → Made b o x → Made (fb.start_table b).1 o x
  pub add_element-Open :
      (b : fb.Builder) (s width place n missing : ℕ) (fs : Fields)
      → Open b s fs
      → Open
          (fb.add_element width place n missing b)
          s
          (if n == missing then fs else element place n fs)
  pub add_offset-Open :
      (b : fb.Builder) (s place o : ℕ) (x : Object) (fs : Fields)
      → Open b s fs
      → Made b o x
      → Open (fb.add_offset place o b) s (link place x fs)
  pub add_offset-Made :
      (b : fb.Builder) (place o o' : ℕ) (x : Object)
      → Made b o x
      → Made (fb.add_offset place o' b) o x
  pub finish_table-Made :
      (b : fb.Builder) (s : ℕ) (fs : Fields)
      → Open b s fs
      → Made (fb.finish_table s b).1 (fb.finish_table s b).0 (table fs)
  pub create_string-text :
      (b : fb.Builder) (s : List ℕ)
      → Made (fb.create_string s b).1 (fb.create_string s b).0 (text s)
  pub create_string-Made :
      (b : fb.Builder) (s : List ℕ) (o : ℕ) (x : Object)
      → Made b o x
      → Made (fb.create_string s b).1 o x
  -- Reading what was built.
  pub finish-Reads :
      (b : fb.Builder) (o : ℕ) (fs : Fields)
      → Made b o (table fs)
      → Reads (fb.buffer (fb.finish o b)) (fb.get_root (fb.buffer (fb.finish o b))) fs
  pub get_field-Reads :
      (bs : List ℕ) (t : fb.Table) (fs : Fields) (width place missing : ℕ)
      → Reads bs t fs
      → fb.get_field width place missing t ≡ field_of place missing fs
  pub get_table-Reads :
      (bs : List ℕ) (t : fb.Table) (fs gs : Fields) (place : ℕ)
      → Reads bs t fs
      → link_of place fs ≡ some (table gs)
      → (u : fb.Table) × (fb.get_table place t ≡ some u) × Reads bs u gs
  pub get_text-Reads :
      (bs : List ℕ) (t : fb.Table) (fs : Fields) (s : List ℕ) (place : ℕ)
      → Reads bs t fs
      → link_of place fs ≡ some (text s)
      → (x : fb.Text) × (fb.get_text place t ≡ some x) × (fb.c_str x ≡ s)
  pub get_table-none :
      (bs : List ℕ) (t : fb.Table) (fs : Fields) (place : ℕ)
      → Reads bs t fs
      → link_of place fs ≡ none
      → fb.get_table place t ≡ none
  pub get_text-none :
      (bs : List ℕ) (t : fb.Table) (fs : Fields) (place : ℕ)
      → Reads bs t fs
      → link_of place fs ≡ none
      → fb.get_text place t ≡ none
  -- Verifying it.
  pub verifier-Room :
      (b : fb.Builder) (o : ℕ) (fs : Fields)
      → Made b o (table fs)
      → let bs = fb.buffer (fb.finish o b) in Room bs 2 (fb.verifier bs (length bs))
  pub verify_table_start-Room :
      (bs : List ℕ) (t : fb.Table) (fs : Fields) (depth : ℕ) (v : fb.Verifier)
      → Reads bs t fs
      → Room bs (suc depth) v
      → ((fb.verify_table_start t v).0 ≡ true) × Room bs depth (fb.verify_table_start t v).1
  pub end_table-Room :
      (bs : List ℕ) (depth : ℕ) (v : fb.Verifier)
      → Room bs depth v
      → ((fb.end_table v).0 ≡ true) × Room bs depth (fb.end_table v).1
  pub verify_field-Reads :
      (bs : List ℕ) (t : fb.Table) (fs : Fields) (width place align depth : ℕ) (v : fb.Verifier)
      → Reads bs t fs
      → Room bs depth v
      → fb.verify_field width place align t v ≡ true
  pub verify_offset-Reads :
      (bs : List ℕ) (t : fb.Table) (fs : Fields) (place depth : ℕ) (v : fb.Verifier)
      → Reads bs t fs
      → Room bs depth v
      → fb.verify_offset place t v ≡ true
  pub verify_string-Reads :
      (bs : List ℕ) (t : fb.Table) (fs : Fields) (s : List ℕ) (place depth : ℕ) (v : fb.Verifier)
      → Reads bs t fs
      → link_of place fs ≡ some (text s)
      → Room bs depth v
      → fb.verify_string (fb.get_text place t) v ≡ true
  pub verify_string-none : (v : fb.Verifier) → fb.verify_string none v ≡ true
  pub verify_table-none :
      (f : fb.Table → fb.Verifier → Bool × fb.Verifier) (v : fb.Verifier)
      → fb.verify_table f none v ≡ (true, v)
  pub verify_table-some :
      (f : fb.Table → fb.Verifier → Bool × fb.Verifier) (t : fb.Table) (v : fb.Verifier)
      → fb.verify_table f (some t) v ≡ f t v
  pub verify_buffer-root :
      (bs : List ℕ) (fs : Fields) (f : fb.Table → fb.Verifier → Bool × fb.Verifier) (depth : ℕ)
      (v : fb.Verifier)
      → Reads bs (fb.get_root bs) fs
      → Room bs depth v
      → fb.verify_buffer f v ≡ f (fb.get_root bs) v
