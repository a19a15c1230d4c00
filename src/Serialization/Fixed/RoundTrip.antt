-- ===== src/Serialization/Fixed/RoundTrip.antt =====
-- Integers of a fixed width are read back.
use hypertable.Base.{ℕ, ◌+◌, ◌^◌, ◌<◌, ◌≡◌, Bool, List, ◌++◌, arith}
use hypertable.Serialization.{ok}
use hypertable.Serialization.Fixed.{
  encode_i8, decode_i8, encode_bool, decode_bool, encode_i16, decode_i16, encode_i32, decode_i32,
  encode_i64, decode_i64,
}

pub decode_i8-encode_i8 :
    (v : ℕ) (tail : List ℕ) (r : ℕ)
    → v < 2 ^ 8
    → decode_i8 (record { bytes = encode_i8 v ++ tail; remain = 1 + r })
      ≡ ok (v, record { bytes = tail; remain = r })
unfolding decode_i8 encode_i8
decode_i8-encode_i8 v tail r h = ground arith

pub decode_bool-encode_bool :
    (b : Bool) (tail : List ℕ) (r : ℕ)
    → decode_bool (record { bytes = encode_bool b ++ tail; remain = 1 + r })
      ≡ ok (b, record { bytes = tail; remain = r })
unfolding decode_bool encode_bool
decode_bool-encode_bool b tail r = ground arith

pub decode_i16-encode_i16 :
    (v : ℕ) (tail : List ℕ) (r : ℕ)
    → v < 2 ^ 16
    → decode_i16 (record { bytes = encode_i16 v ++ tail; remain = 2 + r })
      ≡ ok (v, record { bytes = tail; remain = r })
unfolding decode_i16 encode_i16
decode_i16-encode_i16 v tail r h = ground arith

-- A 64-bit integer is read back, whatever follows it, and the count falls by eight.
pub decode_i64-encode_i64 :
    (v : ℕ) (tail : List ℕ) (r : ℕ)
    → v < 2 ^ 64
    → decode_i64 (record { bytes = encode_i64 v ++ tail; remain = 8 + r })
      ≡ ok (v, record { bytes = tail; remain = r })
unfolding decode_i64 encode_i64
decode_i64-encode_i64 v tail r h = ground arith

-- A 32-bit integer is read back, whatever follows it, and the count falls by four.
pub decode_i32-encode_i32 :
    (v : ℕ) (tail : List ℕ) (r : ℕ)
    → v < 2 ^ 32
    → decode_i32 (record { bytes = encode_i32 v ++ tail; remain = 4 + r })
      ≡ ok (v, record { bytes = tail; remain = r })
unfolding decode_i32 encode_i32
decode_i32-encode_i32 v tail r h = ground arith
