-- ===== src/Csv/Builder.antt =====
-- src/csv.rs: `StringColumnBuilder`, which encodes one column of a batch.
pub mod Bitmap
pub mod Values
use Prim.Native.Nat.{bit_or}
use tabulark.Base.{
  ℕ, zero, suc, ◌+◌, ◌/◌, ◌%◌, ◌^◌, ◌≡◌, Bool, true, false, List, [], ◌∷◌, ◌++◌, Option, none, some,
  leb, ltb, ◌==◌, if◌then◌else◌, length, get_elem?, set, usize_max, u32_max, checked_add, try_from,
}
use tabulark.Text.{Bytes}
use tabulark.Error.{TabularkError, Result, new, resource_limit}
use tabulark.State.{M, done, fail, pure, get, put, modify, some_or, throw_if, ◌>>=◌, ◌>>◌, monad}
use tabulark.Model.Strings.{StringColumnBatch, new_strings}

pub record StringColumnBuilder : Type 0 where
  pub column_id : Bytes
  pub data_bytes : Bytes
  pub offsets : List ℕ
  pub validity : Bytes
  pub values : ℕ

-- `StringColumnBuilder::new`
abbrev pub new_builder : Bytes → StringColumnBuilder
new_builder id = record {
  column_id = id;
  data_bytes = [];
  offsets = 0 ∷ [];
  validity = [];
  values = 0;
}

abbrev pub value_length : Option Bytes → ℕ
value_length none = 0
value_length (some v) = length v

-- The byte of the bitmap that holds bit `values` is there afterwards.
abbrev pub grown : ℕ → Bytes → Bytes
grown values validity = if leb (length validity) (values / 8) then validity ++ 0 ∷ [] else validity

-- `validity[values / 8] |= 1 << (values % 8)`
abbrev or_bit : Option ℕ → ℕ → Bytes → Bytes
or_bit none values validity = validity
or_bit (some byte) values validity = set validity (values / 8) (bit_or byte (2 ^ (values % 8)))

abbrev pub set_bit : ℕ → Bytes → Bytes
set_bit values validity = or_bit (get_elem? validity (values / 8)) values validity

-- The two branches that write a value, or the lack of one.
unfoldable pub write : Option Bytes → StringColumnBuilder → StringColumnBuilder
write none b = record b { validity = grown b.values b.validity }
write (some v) b = record b {
  data_bytes = b.data_bytes ++ v;
  validity = set_bit b.values (grown b.values b.validity);
}

abbrev overflow : TabularkError
overflow = new resource_limit "batch byte length overflow"

abbrev checked_plus : Option ℕ → ℕ → Option ℕ
checked_plus none n = none
checked_plus (some m) n = checked_add usize_max m n

abbrev pub bitmap_cost : ℕ → ℕ
bitmap_cost values = if values % 8 == 0 then 1 else 0

-- `push`, on the builder and the count of bytes in the batch.
unfoldable pub push : Option Bytes → ℕ → M (StringColumnBuilder × ℕ) (Unit {0})
unfolding write monad
push value max_batch_bytes = do
  start ← get
  let b = start.0
  encoded ←
      some_or (checked_plus (checked_add usize_max (value_length value) 4) (bitmap_cost b.values))
        overflow
  total ← some_or (checked_add usize_max start.1 encoded) overflow
  throw_if (ltb max_batch_bytes total)
      (new resource_limit "range response exceeds the configured byte limit")
  let w = write value b
  put (w, start.1)
  offset ←
      some_or (try_from u32_max (length w.data_bytes))
        (new resource_limit "one encoded string column exceeds the u32 offset limit")
  put (record w { offsets = w.offsets ++ offset ∷ []; values = w.values + 1 }, total)

unfoldable pub finish : StringColumnBuilder → Result StringColumnBatch
finish b = new_strings b.column_id b.data_bytes b.offsets b.validity
