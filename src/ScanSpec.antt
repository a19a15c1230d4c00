-- ===== src/ScanSpec.antt =====
-- src/cc/Hypertable/Lib/ScanSpec.h and ScanSpec.cc: what a scan asks for.
-- A signed number is its bits.
pub mod RoundTrip
mod Tests
use hypertable.Base.{ℕ, ◌+◌, ◌==◌, not, Bool, true, false, List, [], length, Option, none}
use hypertable.Serialization.{Result, ok, ◌>>=◌, Decoder}
use hypertable.Serialization.Fixed.{decode_i8, encode_bool, decode_bool, encode_i64, decode_i64}
use hypertable.Serialization.Vint.{encode_vi32, decode_vi32, encoded_length_vi32}
use hypertable.Serialization.Codec.{
  ◌▸◌, Cstring, encode_cstr, encoded_length_cstr, decode_cstr, encode_each, decode_each, size_each,
}

pub record RowInterval : Type 0 where
  pub start : Cstring
  pub start_inclusive : Bool
  pub end : Cstring
  pub end_inclusive : Bool

unfoldable pub encoded_length_row : RowInterval → ℕ
encoded_length_row i = 2 + encoded_length_cstr i.start + encoded_length_cstr i.end

unfoldable pub encode_row : RowInterval → Result (List ℕ)
encode_row i =
    encode_cstr i.start
    ▸ ok (encode_bool i.start_inclusive)
    ▸ encode_cstr i.end
    ▸ ok (encode_bool i.end_inclusive)

unfoldable pub decode_row : Decoder RowInterval
decode_row c = do
  (start, c1) ← decode_cstr c
  (start_inclusive, c2) ← decode_bool c1
  (end, c3) ← decode_cstr c2
  (end_inclusive, c4) ← decode_bool c3
  ok (
    record {
      start = start;
      start_inclusive = start_inclusive;
      end = end;
      end_inclusive = end_inclusive;
    },
    c4,
  )

pub record CellInterval : Type 0 where
  pub start_row : Cstring
  pub start_column : Cstring
  pub start_inclusive : Bool
  pub end_row : Cstring
  pub end_column : Cstring
  pub end_inclusive : Bool

unfoldable pub encoded_length_cell : CellInterval → ℕ
encoded_length_cell i =
    2
    + encoded_length_cstr i.start_row
    + encoded_length_cstr i.start_column
    + encoded_length_cstr i.end_row
    + encoded_length_cstr i.end_column

unfoldable pub encode_cell : CellInterval → Result (List ℕ)
encode_cell i =
    encode_cstr i.start_row
    ▸ encode_cstr i.start_column
    ▸ ok (encode_bool i.start_inclusive)
    ▸ encode_cstr i.end_row
    ▸ encode_cstr i.end_column
    ▸ ok (encode_bool i.end_inclusive)

unfoldable pub decode_cell : Decoder CellInterval
decode_cell c = do
  (start_row, c1) ← decode_cstr c
  (start_column, c2) ← decode_cstr c1
  (start_inclusive, c3) ← decode_bool c2
  (end_row, c4) ← decode_cstr c3
  (end_column, c5) ← decode_cstr c4
  (end_inclusive, c6) ← decode_bool c5
  ok (
    record {
      start_row = start_row;
      start_column = start_column;
      start_inclusive = start_inclusive;
      end_row = end_row;
      end_column = end_column;
      end_inclusive = end_inclusive;
    },
    c6,
  )

pub record ScanSpec : Type 0 where
  pub row_limit : ℕ
  pub max_versions : ℕ
  pub columns : List Cstring
  pub row_intervals : List RowInterval
  pub cell_intervals : List CellInterval
  pub start_time : ℕ
  pub end_time : ℕ
  pub return_deletes : Bool

-- `clear`.
abbrev pub cleared : ScanSpec
cleared = record {
  row_limit = 0;
  max_versions = 0;
  columns = [];
  row_intervals = [];
  cell_intervals = [];
  start_time = 0;
  end_time = 0;
  return_deletes = false;
}

-- `base_copy`: what the other one becomes.
unfoldable pub base_copy : ScanSpec → ScanSpec
base_copy s = record s { row_intervals = []; cell_intervals = [] }

unfoldable pub encoded_length_spec : ScanSpec → ℕ
encoded_length_spec s =
    encoded_length_vi32 s.row_limit
    + encoded_length_vi32 s.max_versions
    + encoded_length_vi32 (length s.columns)
    + encoded_length_vi32 (length s.row_intervals)
    + encoded_length_vi32 (length s.cell_intervals)
    + size_each encoded_length_cstr s.columns
    + size_each encoded_length_row s.row_intervals
    + size_each encoded_length_cell s.cell_intervals
    + 8
    + 8
    + 1

unfoldable pub encode_spec : ScanSpec → Result (List ℕ)
encode_spec s =
    encode_vi32 s.row_limit
    ▸ encode_vi32 s.max_versions
    ▸ encode_vi32 (length s.columns)
    ▸ encode_each encode_cstr s.columns
    ▸ encode_vi32 (length s.row_intervals)
    ▸ encode_each encode_row s.row_intervals
    ▸ encode_vi32 (length s.cell_intervals)
    ▸ encode_each encode_cell s.cell_intervals
    ▸ ok (encode_i64 s.start_time)
    ▸ ok (encode_i64 s.end_time)
    ▸ ok (encode_bool s.return_deletes)

-- `return_deletes = decode_i8(…)`, which turns the byte into a `bool`.
unfoldable pub decode_flag : Decoder Bool
decode_flag c = do (b, c1) ← decode_i8 c; ok (not (b == 0), c1)

-- `decode`, into a specification without columns and intervals.
unfoldable pub decode_spec : Decoder ScanSpec
decode_spec c = do
  (row_limit, c1) ← decode_vi32 c
  (max_versions, c2) ← decode_vi32 c1
  (nc, c3) ← decode_vi32 c2
  (columns, c4) ← decode_each decode_cstr nc c3
  (nri, c5) ← decode_vi32 c4
  (row_intervals, c6) ← decode_each decode_row nri c5
  (nci, c7) ← decode_vi32 c6
  (cell_intervals, c8) ← decode_each decode_cell nci c7
  (start_time, c9) ← decode_i64 c8
  (end_time, c10) ← decode_i64 c9
  (return_deletes, c11) ← decode_flag c10
  ok (
    record {
      row_limit = row_limit;
      max_versions = max_versions;
      columns = columns;
      row_intervals = row_intervals;
      cell_intervals = cell_intervals;
      start_time = start_time;
      end_time = end_time;
      return_deletes = return_deletes;
    },
    c11,
  )
