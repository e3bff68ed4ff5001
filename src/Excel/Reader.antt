-- ===== src/Excel/Reader.antt =====
-- crates/tabulark-excel-wasm/src/range.rs: `SparseReader`, which reads a source as far as it was
-- indexed, and the range that holds the end of the source.
pub mod Exact
pub mod Seek
use tabulark.Base.{
  ℕ, ◌+◌, ◌*◌, ◌-◌, min, Bool, true, false, ◌||◌, [], Option, none, some, ltb, ◌==◌, if◌then◌else◌,
  length, String, try_from, checked_add, checked_sub, u64_max, usize_max, ℤ, pos, negsuc,
}
use tabulark.Text.{Bytes}
use tabulark.Error.{Result, ok, err, new, parse_failed, fail_if, ◌>>=◌ as bind}
use tabulark.Model.Strings.{slice}
use tabulark.Excel.Segments.{last_at_most}
use tabulark.Excel.Host.{HostRange, new_host_range}
use tabulark.Excel.Ranges.{IndexedRanges}

-- `io::Error`: a kind with its message, and the range that `WouldBlock` carries.
pub data IoError : Type 0 where
  invalid_input other : String → IoError
  would_block : HostRange → IoError

pub data IoResult (A : Type 0) : Type 0 where
  io_ok : A → IoResult A
  io_err : IoError → IoResult A

-- `?` on a result of `io`.
infixl 5 ◌>>=◌
abbrev pub ◌>>=◌ : {A B : Type 0} → IoResult A → (A → IoResult B) → IoResult B
io_err failure >>= next = io_err failure
io_ok value >>= next = next value

abbrev pub io_or : {A : Type 0} → Option A → IoError → IoResult A
io_or none failure = io_err failure
io_or (some value) failure = io_ok value

abbrev pub unwrap_or : Option ℕ → ℕ → ℕ
unwrap_or none default = default
unwrap_or (some value) default = value

-- `map_err(|error| io::Error::new(InvalidInput, error.to_string()))`
abbrev pub io_input : {A : Type 0} → Result A → IoResult A
io_input (err failure) = io_err (invalid_input failure.message)
io_input (ok value) = io_ok value

pub record SparseReader : Type 0 where
  pub indexed : IndexedRanges
  pub position : ℕ
  pub chunk_bytes : ℕ

abbrev pub range_chunk_bytes : ℕ
range_chunk_bytes = 1024 * 1024

abbrev pub range_tail_bytes : ℕ
range_tail_bytes = 128 * 1024

-- `IndexedRanges::reader`
unfoldable pub reader : IndexedRanges → SparseReader
reader r = record { indexed = r; position = 0; chunk_bytes = range_chunk_bytes }

-- The bytes at the position are not there: the window that the host is to read.
unfoldable pub blocked : SparseReader → IoResult (Bytes × SparseReader)
unfolding new_host_range
blocked s = do
  range ← io_input (
      new_host_range s.position (min s.chunk_bytes (s.indexed.source_length - s.position))
        s.indexed.source_length)
  io_err (would_block range)

-- The bytes of a segment from `relative` on that go into the target, and the reader behind them.
unfoldable pub copied : SparseReader → ℕ → Bytes → ℕ → IoResult (Bytes × SparseReader)
copied s wanted bytes relative =
    let remaining =
      unwrap_or (try_from usize_max (s.indexed.source_length - s.position)) usize_max in
    let count = min (min wanted (length bytes - relative)) remaining in
    (io_or (checked_add u64_max s.position (unwrap_or (try_from u64_max count) u64_max))
        (other "sparse reader position overflows")
      >>= λ next. io_ok (slice relative (relative + count) bytes, record s { position = next }))

unfoldable pub read_at : Option (ℕ × Bytes) → SparseReader → ℕ → IoResult (Bytes × SparseReader)
unfolding blocked copied
read_at none s wanted = blocked s
read_at (some (start, bytes)) s wanted = do
  relative ←
      io_or (try_from usize_max (s.position - start)) (invalid_input "range index exceeds usize")
  if ltb relative (length bytes) then copied s wanted bytes relative else blocked s

-- `Read::read` into a target of `wanted` bytes: the bytes that it puts there, and the reader
-- afterwards. A read that fails leaves the reader where it was.
unfoldable pub read : SparseReader → ℕ → IoResult (Bytes × SparseReader)
unfolding read_at last_at_most
read s wanted =
    if (wanted == 0) || (s.position == s.indexed.source_length)
    then io_ok ([], s)
    else if ltb s.indexed.source_length s.position
    then io_err (invalid_input "sparse Excel reader is past EOF")
    else read_at (last_at_most s.position s.indexed.ranges) s wanted

pub data SeekFrom : Type 0 where
  from_start : ℕ → SeekFrom
  from_end from_current : ℤ → SeekFrom

unfoldable pub checked_signed_offset : ℕ → ℤ → IoResult ℕ
checked_signed_offset base (pos delta) =
    io_or (checked_add u64_max base delta) (invalid_input "Excel seek offset overflows")
checked_signed_offset base (negsuc delta) =
    io_or (checked_sub base (delta + 1)) (invalid_input "Excel seek offset overflows")

unfoldable pub seek_offset : SparseReader → SeekFrom → IoResult ℕ
unfolding checked_signed_offset
seek_offset s (from_start value) = io_ok value
seek_offset s (from_end delta) = checked_signed_offset s.indexed.source_length delta
seek_offset s (from_current delta) = checked_signed_offset s.position delta

-- `Seek::seek`
unfoldable pub seek : SparseReader → SeekFrom → IoResult (ℕ × SparseReader)
unfolding seek_offset
seek s target = do
  next ← seek_offset s target
  if ltb s.indexed.source_length next
      then io_err (invalid_input "sparse Excel seek lies outside the source")
      else io_ok (next, record s { position = next })

unfoldable pub tail_range : ℕ → Result HostRange
unfolding new_host_range
tail_range source_length =
    let count = min source_length range_tail_bytes in
    bind
      (fail_if (ltb count 22)
        (new parse_failed "XLSX source is too short to contain an end-of-central-directory record"))
      (λ _. new_host_range (source_length - count) count source_length)
