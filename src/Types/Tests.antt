-- ===== src/Types/Tests.antt =====
-- A table and the state of a range, written and read.
use hypertable.Base.{◌^◌, ◌≡◌, refl, [], ◌∷◌, none, some, arith}
use hypertable.Serialization.{ok}
use hypertable.Serialization.Fixed.{encode_i32}
use hypertable.Serialization.Codec.{IsText, RoundTrips, encode_cstr, ◌▸◌}
use hypertable.Serialization.Strings.{encode_vstr}
use hypertable.Serialization.Vint.{encode_vi64, encode_vint}
use hypertable.Types.{TableIdentifier, encoded_length_table, encode_table, decode_table, RangeState}
use hypertable.Types.RoundTrip.{IsStorable, RoundTrips-table}

abbrev users : TableIdentifier
users = record { name = some (b'u' ∷ []); id = 7; generation = 1 }

written : encode_table users ≡ ok (1 ∷ b'u' ∷ 0 ∷ 7 ∷ 0 ∷ 0 ∷ 0 ∷ 1 ∷ 0 ∷ 0 ∷ 0 ∷ [])
unfolding encode_table encode_cstr encode_vstr encode_vi64 encode_vint ◌▸◌ encode_i32
written = refl

RoundTrips-table_example :
    RoundTrips (encode_table users) (encoded_length_table users) decode_table users
RoundTrips-table_example =
    RoundTrips-table users (unfold IsText in ((omega arith, tt), omega arith)) (omega arith)
      (omega arith)

abbrev splitting : RangeState
splitting = record {
  state = 1;
  timestamp = record { logical = 5; real = 2 ^ 63 };
  soft_limit = 200000000;
  transfer_log = some (b'l' ∷ []);
  split_point = some (b'm' ∷ []);
  old_start_row = none;
}

splitting-IsStorable : IsStorable splitting
unfolding IsText
splitting-IsStorable = record {
  state = omega arith;
  logical = omega arith;
  real = omega arith;
  soft_limit = omega arith;
  transfer_log = ((omega arith, tt), omega arith);
  split_point = ((omega arith, tt), omega arith);
  old_start_row = (tt, omega arith);
}
