-- ===== src/Model/Schema.antt =====
-- src/model.rs: column and table metadata. The delimited adapter gives every column the type
-- `Utf8`, nullable and with no extensions: these three constant fields of a column are left out.
use tabulark.Base.{ℕ, ◌+◌, Bool, true, false, not, List, [], ◌∷◌, ◌==◌}
use tabulark.Text.{Bytes}
use tabulark.Error.{Result, ok, new, invalid_argument, fail_if, ◌>>◌}
use tabulark.Model.Range.{validate_safe_integer, TableExtent}

pub record ColumnSchema : Type 0 where
  pub id : Bytes
  pub name : Bytes
  pub index : ℕ

abbrev pub is_empty : Bytes → Bool
is_empty [] = true
is_empty (b ∷ bs) = false

-- `ColumnSchema::new`
unfoldable pub new_column : Bytes → Bytes → ℕ → Result ColumnSchema
unfolding validate_safe_integer
new_column id name index = do
  validate_safe_integer "column index" index
  fail_if (is_empty id) (new invalid_argument "column id must not be empty")
  ok (record { id = id; name = name; index = index })

pub record Schema : Type 0 where
  pub version : ℕ
  pub columns : List ColumnSchema

-- The check of each index against its position.
unfoldable pub check_indexes : ℕ → List ColumnSchema → Result (Unit {0})
check_indexes expected [] = ok tt
check_indexes expected (c ∷ cs) = do
  fail_if (not (c.index == expected))
      (new invalid_argument "schema column indexes must be contiguous and ordered")
  check_indexes (expected + 1) cs

-- `Schema::new`
unfoldable pub new_schema : ℕ → List ColumnSchema → Result Schema
unfolding validate_safe_integer check_indexes
new_schema version columns = do
  validate_safe_integer "schema version" version
  check_indexes 0 columns
  ok (record { version = version; columns = columns })

pub data RandomAccess : Type 0 where
  indexed_prefix full : RandomAccess

pub record Capabilities : Type 0 where
  pub random_access : RandomAccess
  pub typed_values : Bool
  pub search : Bool
  pub sort : Bool
  pub filter : Bool
  pub multi_table : Bool

-- `Capabilities::delimited`
unfoldable pub delimited : RandomAccess → Capabilities
delimited access = record {
  random_access = access;
  typed_values = false;
  search = false;
  sort = false;
  filter = false;
  multi_table = false;
}

-- `Capabilities::typed` and `Capabilities::spreadsheet`
unfoldable pub typed : RandomAccess → Capabilities
unfolding delimited
typed access = record (delimited access) { typed_values = true }

unfoldable pub spreadsheet : RandomAccess → Capabilities
unfolding delimited
spreadsheet access = record (delimited access) { multi_table = true }

pub record TableMetadata : Type 0 where
  pub table_id : Bytes
  pub name : Bytes
  pub revision : ℕ
  pub extent : TableExtent
  pub schema : Schema
  pub capabilities : Capabilities
