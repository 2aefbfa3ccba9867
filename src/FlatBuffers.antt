-- ===== src/FlatBuffers.antt =====
-- The library in examples/flatbuffers, which the message code calls: its operations, and what they
-- are documented to do. A pointer that may be null is an option; a number is its unsigned word.
pub mod Laws
pub mod Sample
use cpp_iocplib.Base.{ℕ, Bool, List, Option}

-- A pointer to a table or a string in a buffer; a verifier of a buffer; a `FlatBufferBuilder`. The
-- first number that `get_field`, `verify_field` and `add_element` take is the width in bytes of the
-- type that the call names.
pub record FlatBuffers : Type 1 where
  pub Table : Type 0
  pub Text : Type 0
  pub Verifier : Type 0
  pub Builder : Type 0
  pub get_root : List ℕ → Table
  pub get_field : ℕ → ℕ → ℕ → Table → ℕ
  pub get_table : ℕ → Table → Option Table
  pub get_text : ℕ → Table → Option Text
  pub c_str : Text → List ℕ
  pub verifier : List ℕ → ℕ → Verifier
  pub verify_table_start : Table → Verifier → Bool × Verifier
  pub verify_field : ℕ → ℕ → ℕ → Table → Verifier → Bool
  pub verify_offset : ℕ → Table → Verifier → Bool
  pub verify_string : Option Text → Verifier → Bool
  pub end_table : Verifier → Bool × Verifier
  pub verify_table :
      (Table → Verifier → Bool × Verifier) → Option Table → Verifier → Bool × Verifier
  pub verify_buffer : (Table → Verifier → Bool × Verifier) → Verifier → Bool × Verifier
  pub new_builder : Builder
  pub start_table : Builder → ℕ × Builder
  pub add_element : ℕ → ℕ → ℕ → ℕ → Builder → Builder
  pub add_offset : ℕ → ℕ → Builder → Builder
  pub finish_table : ℕ → Builder → ℕ × Builder
  pub create_string : List ℕ → Builder → ℕ × Builder
  pub finish : ℕ → Builder → Builder
  pub buffer : Builder → List ℕ
