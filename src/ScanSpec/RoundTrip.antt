-- ===== src/ScanSpec/RoundTrip.antt =====
-- A scan specification is read back.
use hypertable.Base.{◌^◌, ◌<◌, Bool, true, false, refl, map, All, length, arith}
use hypertable.Serialization.{ok}
use hypertable.Serialization.Fixed.{encode_bool, encode_i8}
use hypertable.Serialization.Fixed.RoundTrip.{decode_i8-encode_i8}
use hypertable.Serialization.Codec.{
  IsText, RoundTrips, RoundTrips-▸, RoundTrips-map, RoundTrips-size, RoundTrips-bool,
  RoundTrips-i64, RoundTrips-vi32, RoundTrips-cstr, RoundTrips-each, encode_cstr,
  encoded_length_cstr, decode_cstr,
}
use hypertable.Types.RoundTrip.{read_back}
use hypertable.ScanSpec.{
  RowInterval, encoded_length_row, encode_row, decode_row, CellInterval, encoded_length_cell,
  encode_cell, decode_cell, ScanSpec, encoded_length_spec, encode_spec, decode_spec, decode_flag,
}

abbrev pub row_back : RowInterval → RowInterval
row_back i = record i { start = read_back i.start; end = read_back i.end }

abbrev pub IsRow : RowInterval → Type 0
IsRow i = IsText i.start × IsText i.end

RoundTrips-row :
    (i : RowInterval)
    → IsRow i
    → RoundTrips (encode_row i) (encoded_length_row i) decode_row (row_back i)
unfolding encode_row encoded_length_row decode_row
RoundTrips-row i h =
    RoundTrips-size
      (RoundTrips-▸ _ (RoundTrips-cstr i.start h.0) (
        RoundTrips-▸ _ (RoundTrips-bool i.start_inclusive) (
          RoundTrips-▸ _ (RoundTrips-cstr i.end h.1)
            (RoundTrips-map _ (RoundTrips-bool i.end_inclusive)))))
      (omega arith)

abbrev pub cell_back : CellInterval → CellInterval
cell_back i = record i {
  start_row = read_back i.start_row;
  start_column = read_back i.start_column;
  end_row = read_back i.end_row;
  end_column = read_back i.end_column;
}

pub record IsCell (i : CellInterval) : Type 0 where
  pub start_row : IsText i.start_row
  pub start_column : IsText i.start_column
  pub end_row : IsText i.end_row
  pub end_column : IsText i.end_column

RoundTrips-cell :
    (i : CellInterval)
    → IsCell i
    → RoundTrips (encode_cell i) (encoded_length_cell i) decode_cell (cell_back i)
unfolding encode_cell encoded_length_cell decode_cell
RoundTrips-cell i h =
    RoundTrips-size
      (RoundTrips-▸ _ (RoundTrips-cstr i.start_row h.start_row) (
        RoundTrips-▸ _ (RoundTrips-cstr i.start_column h.start_column) (
          RoundTrips-▸ _ (RoundTrips-bool i.start_inclusive) (
            RoundTrips-▸ _ (RoundTrips-cstr i.end_row h.end_row) (
              RoundTrips-▸ _ (RoundTrips-cstr i.end_column h.end_column)
                (RoundTrips-map _ (RoundTrips-bool i.end_inclusive)))))))
      (omega arith)

-- A flag that is written as a `bool` and read as a byte.
RoundTrips-flag : (b : Bool) → RoundTrips (ok (encode_bool b)) 1 decode_flag b
unfolding encode_bool encode_i8 decode_flag
RoundTrips-flag true = record {
  bytes = encode_bool true;
  written = refl;
  size = refl;
  back = λ tail r. rw (decode_i8-encode_i8 1 tail r (omega arith)) refl;
}
RoundTrips-flag false = record {
  bytes = encode_bool false;
  written = refl;
  size = refl;
  back = λ tail r. rw (decode_i8-encode_i8 0 tail r (omega arith)) refl;
}

-- What fits in a serialized specification.
pub record IsStorable (s : ScanSpec) : Type 0 where
  pub row_limit : s.row_limit < 2 ^ 32
  pub max_versions : s.max_versions < 2 ^ 32
  pub columns : (length s.columns < 2 ^ 32) × All IsText s.columns
  pub row_intervals : (length s.row_intervals < 2 ^ 32) × All IsRow s.row_intervals
  pub cell_intervals : (length s.cell_intervals < 2 ^ 32) × All IsCell s.cell_intervals
  pub start_time : s.start_time < 2 ^ 64
  pub end_time : s.end_time < 2 ^ 64

-- A scan specification comes back from encode, which writes encoded_length bytes; null strings
-- come back as empty ones. The strings have no NUL and the numbers fit in their fields.
pub RoundTrips-spec :
    (s : ScanSpec)
    → IsStorable s
    → RoundTrips (encode_spec s) (encoded_length_spec s) decode_spec (record s {
      columns = map read_back s.columns;
      row_intervals = map row_back s.row_intervals;
      cell_intervals = map cell_back s.cell_intervals;
    })
unfolding encode_spec encoded_length_spec decode_spec
RoundTrips-spec s h =
    RoundTrips-size
      (RoundTrips-▸ _ (RoundTrips-vi32 s.row_limit h.row_limit) (
        RoundTrips-▸ _ (RoundTrips-vi32 s.max_versions h.max_versions) (
          RoundTrips-▸ _ (RoundTrips-vi32 (length s.columns) h.columns.0) (
            RoundTrips-▸ _
              (RoundTrips-each encode_cstr encoded_length_cstr decode_cstr read_back IsText
                s.columns RoundTrips-cstr h.columns.1)
              (RoundTrips-▸ _ (RoundTrips-vi32 (length s.row_intervals) h.row_intervals.0) (
                RoundTrips-▸ _
                  (RoundTrips-each encode_row encoded_length_row decode_row row_back IsRow
                    s.row_intervals RoundTrips-row h.row_intervals.1)
                  (RoundTrips-▸ _ (RoundTrips-vi32 (length s.cell_intervals) h.cell_intervals.0) (
                    RoundTrips-▸ _
                      (RoundTrips-each encode_cell encoded_length_cell decode_cell cell_back IsCell
                        s.cell_intervals RoundTrips-cell h.cell_intervals.1)
                      (RoundTrips-▸ _ (RoundTrips-i64 s.start_time h.start_time) (
                        RoundTrips-▸ _ (RoundTrips-i64 s.end_time h.end_time)
                          (RoundTrips-map _ (RoundTrips-flag s.return_deletes))))))))))))
      (omega arith)
