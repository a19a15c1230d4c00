-- ===== src/Types/RoundTrip.antt =====
-- The identifiers of tables and ranges, and the state of a range, are read back.
use hypertable.Base.{◌^◌, ◌<◌, some, arith}
use hypertable.Serialization.Codec.{
  Cstring, chars, IsText, RoundTrips, RoundTrips-▸, RoundTrips-map, RoundTrips-size, RoundTrips-i8,
  RoundTrips-i32, RoundTrips-i64, RoundTrips-cstr,
}
use hypertable.Types.{
  Timestamp, encode_timestamp, decode_timestamp, TableIdentifier, encoded_length_table,
  encode_table, decode_table, RangeSpec, encoded_length_range, encode_range, decode_range,
  RangeState, encoded_length_state, encode_state, decode_state,
}

pub RoundTrips-timestamp :
    (t : Timestamp)
    → t.logical < 2 ^ 64
    → t.real < 2 ^ 64
    → RoundTrips (encode_timestamp t) 16 decode_timestamp t
unfolding encode_timestamp decode_timestamp
RoundTrips-timestamp t h k =
    RoundTrips-▸ _ (RoundTrips-i64 t.logical h) (RoundTrips-map _ (RoundTrips-i64 t.real k))

-- What is read for a string: a null pointer comes back as an empty string.
abbrev pub read_back : Cstring → Cstring
read_back s = some (chars s)

-- A table identifier whose name has no NUL comes back from `encode`, which writes `encoded_length`
-- bytes; a null name comes back as an empty one.
pub RoundTrips-table :
    (t : TableIdentifier)
    → IsText t.name
    → t.id < 2 ^ 32
    → t.generation < 2 ^ 32
    → RoundTrips
        (encode_table t)
        (encoded_length_table t)
        decode_table
        (record t { name = read_back t.name })
unfolding encode_table encoded_length_table decode_table
RoundTrips-table t h k l =
    RoundTrips-size
      (RoundTrips-▸ _ (RoundTrips-cstr t.name h)
        (RoundTrips-▸ _ (RoundTrips-i32 t.id k) (RoundTrips-map _ (RoundTrips-i32 t.generation l))))
      (omega arith)

-- The same of a range.
pub RoundTrips-range :
    (s : RangeSpec)
    → IsText s.start_row
    → IsText s.end_row
    → RoundTrips
        (encode_range s)
        (encoded_length_range s)
        decode_range
        (record { start_row = read_back s.start_row; end_row = read_back s.end_row })
unfolding encode_range encoded_length_range decode_range
RoundTrips-range s h k =
    RoundTrips-▸ _ (RoundTrips-cstr s.start_row h) (RoundTrips-map _ (RoundTrips-cstr s.end_row k))

-- What fits in the serialized state of a range.
pub record IsStorable (s : RangeState) : Type 0 where
  pub state : s.state < 2 ^ 8
  pub logical : s.timestamp.logical < 2 ^ 64
  pub real : s.timestamp.real < 2 ^ 64
  pub soft_limit : s.soft_limit < 2 ^ 64
  pub transfer_log : IsText s.transfer_log
  pub split_point : IsText s.split_point
  pub old_start_row : IsText s.old_start_row

-- The state of a range comes back from encode, which writes encoded_length bytes; a null string
-- comes back as an empty one. The strings have no NUL and the numbers fit in their fields.
pub RoundTrips-state :
    (s : RangeState)
    → IsStorable s
    → RoundTrips (encode_state s) (encoded_length_state s) decode_state (record s {
      transfer_log = read_back s.transfer_log;
      split_point = read_back s.split_point;
      old_start_row = read_back s.old_start_row;
    })
unfolding encode_state encoded_length_state decode_state
RoundTrips-state s h =
    RoundTrips-size
      (RoundTrips-▸ _ (RoundTrips-i8 s.state h.state) (
        RoundTrips-▸ _ (RoundTrips-timestamp s.timestamp h.logical h.real) (
          RoundTrips-▸ _ (RoundTrips-i64 s.soft_limit h.soft_limit) (
            RoundTrips-▸ _ (RoundTrips-cstr s.transfer_log h.transfer_log) (
              RoundTrips-▸ _ (RoundTrips-cstr s.split_point h.split_point)
                (RoundTrips-map _ (RoundTrips-cstr s.old_start_row h.old_start_row)))))))
      (omega arith)
