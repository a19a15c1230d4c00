-- ===== src/Types.antt =====
-- src/cc/Hypertable/Lib/Types.h, Types.cc, Timestamp.h, RangeState.h and RangeState.cc: what names a
-- table and a range, and the persistent state of a range.
-- `HT_TRY` passes an exception on with its code, and is left out. A signed number is its bits.
pub mod RoundTrip
mod Tests
use hypertable.Base.{ℕ, ◌+◌, ◌%◌, ◌^◌, List, [], Option, none, some}
use hypertable.Serialization.{Result, ok, ◌>>=◌, Decoder}
use hypertable.Serialization.Fixed.{
  encode_i8, decode_i8, encode_i32, decode_i32, encode_i64, decode_i64,
}
use hypertable.Serialization.Codec.{◌▸◌, Cstring, encode_cstr, encoded_length_cstr, decode_cstr}

pub record Timestamp : Type 0 where
  pub logical : ℕ
  pub real : ℕ

unfoldable pub encode_timestamp : Timestamp → Result (List ℕ)
encode_timestamp t = ok (encode_i64 t.logical) ▸ ok (encode_i64 t.real)

unfoldable pub decode_timestamp : Decoder Timestamp
decode_timestamp c = do
  (logical, c1) ← decode_i64 c
  (real, c2) ← decode_i64 c1
  ok (record { logical = logical; real = real }, c2)

pub record TableIdentifier : Type 0 where
  pub name : Cstring
  pub id : ℕ
  pub generation : ℕ

unfoldable pub encoded_length_table : TableIdentifier → ℕ
encoded_length_table t = 8 + encoded_length_cstr t.name

unfoldable pub encode_table : TableIdentifier → Result (List ℕ)
encode_table t = encode_cstr t.name ▸ ok (encode_i32 t.id) ▸ ok (encode_i32 t.generation)

unfoldable pub decode_table : Decoder TableIdentifier
decode_table c = do
  (name, c1) ← decode_cstr c
  (id, c2) ← decode_i32 c1
  (generation, c3) ← decode_i32 c2
  ok (record { name = name; id = id; generation = generation }, c3)

pub record RangeSpec : Type 0 where
  pub start_row : Cstring
  pub end_row : Cstring

unfoldable pub encoded_length_range : RangeSpec → ℕ
encoded_length_range s = encoded_length_cstr s.start_row + encoded_length_cstr s.end_row

unfoldable pub encode_range : RangeSpec → Result (List ℕ)
encode_range s = encode_cstr s.start_row ▸ encode_cstr s.end_row

unfoldable pub decode_range : Decoder RangeSpec
decode_range c = do
  (start_row, c1) ← decode_cstr c
  (end_row, c2) ← decode_cstr c1
  ok (record { start_row = start_row; end_row = end_row }, c2)

-- `state` is an `int`, one of `STEADY`, `SPLIT_LOG_INSTALLED` and `SPLIT_SHRUNK`.
pub record RangeState : Type 0 where
  pub state : ℕ
  pub timestamp : Timestamp
  pub soft_limit : ℕ
  pub transfer_log : Cstring
  pub split_point : Cstring
  pub old_start_row : Cstring

abbrev pub steady : ℕ
steady = 0

-- `clear` keeps the soft limit.
unfoldable pub clear_state : RangeState → RangeState
clear_state s = record s {
  state = steady;
  timestamp = record { logical = 0; real = 0 };
  transfer_log = none;
  split_point = none;
  old_start_row = none;
}

unfoldable pub encoded_length_state : RangeState → ℕ
encoded_length_state s =
    9
    + 16
    + encoded_length_cstr s.transfer_log
    + encoded_length_cstr s.split_point
    + encoded_length_cstr s.old_start_row

unfoldable pub encode_state : RangeState → Result (List ℕ)
encode_state s =
    ok (encode_i8 s.state)
    ▸ encode_timestamp s.timestamp
    ▸ ok (encode_i64 s.soft_limit)
    ▸ encode_cstr s.transfer_log
    ▸ encode_cstr s.split_point
    ▸ encode_cstr s.old_start_row

unfoldable pub decode_state : Decoder RangeState
decode_state c = do
  (state, c1) ← decode_i8 c
  (timestamp, c2) ← decode_timestamp c1
  (soft_limit, c3) ← decode_i64 c2
  (transfer_log, c4) ← decode_cstr c3
  (split_point, c5) ← decode_cstr c4
  (old_start_row, c6) ← decode_cstr c5
  ok (
    record {
      state = state;
      timestamp = timestamp;
      soft_limit = soft_limit;
      transfer_log = transfer_log;
      split_point = split_point;
      old_start_row = old_start_row;
    },
    c6,
  )
