-- ===== src/Csv/Core.antt =====
-- The crate csv_core, which src/csv.rs calls and which is not part of the repository: a parameter.
use tabulark.Base.{ℕ, ◌≤◌, ◌<◌, ◌≡◌, ◌≢◌, Bool, [], length}
use tabulark.Text.{Bytes}

-- `ReadFieldResult`
pub data ReadFieldResult : Type 0 where
  input_empty output_full : ReadFieldResult
  field : Bool → ReadFieldResult
  end : ReadFieldResult

pub record Read (R : Type 0) : Type 0 where
  pub result : ReadFieldResult
  pub consumed : ℕ
  -- The bytes that the call wrote to its buffer.
  pub written : Bytes
  pub reader : R

-- A reader, made for a delimiter, reads one field at a time; and the capacities which the
-- allocator chooses for the strings of a column.
pub record CsvCore : Type 1 where
  pub Reader : Type 0
  pub build : ℕ → Reader
  pub read_field : Reader → Bytes → Read Reader
  pub string_capacity : Bytes → ℕ

-- What its documentation says of `consumed`: it counts bytes of the input, a call on some input
-- consumes some of it, and all of it where the input ran out inside a field.
pub record IsDocumented (core : CsvCore) : Type 0 where
  pub consumed_le :
      (r : core.Reader) (input : Bytes) → (core.read_field r input).consumed ≤ length input
  pub progress :
      (r : core.Reader) (input : Bytes) → input ≢ [] → 0 < (core.read_field r input).consumed
  pub exhausted :
      (r : core.Reader) (input : Bytes)
      → (core.read_field r input).result ≡ input_empty
      → (core.read_field r input).consumed ≡ length input
