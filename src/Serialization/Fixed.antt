-- ===== src/Serialization/Fixed.antt =====
-- src/cc/Common/Serialization.h: integers of a fixed width, low byte first.
pub mod RoundTrip
use hypertable.Base.{
  ℕ, ◌+◌, ◌*◌, ◌/◌, ◌%◌, ◌^◌, ◌<◌, ◌≡◌, Bool, not, List, [], ◌∷◌, ◌++◌, arith, ◌==◌, if◌then◌else◌,
}
use hypertable.Serialization.{ok, Cursor, Decoder, ◌>>=◌, need, next_byte}

-- What `*bufp` receives.
unfoldable pub encode_i8 : ℕ → List ℕ
encode_i8 v = (v % 256) ∷ []

unfoldable pub decode_i8 : Decoder ℕ
unfolding need next_byte
decode_i8 c = do c1 ← need 1 c; next_byte c1

unfoldable pub encode_bool : Bool → List ℕ
encode_bool b = (if b then 1 else 0) ∷ []

unfoldable pub decode_bool : Decoder Bool
unfolding decode_i8
decode_bool c = do (b, c1) ← decode_i8 c; ok (not (b == 0), c1)

unfoldable pub encode_i16 : ℕ → List ℕ
encode_i16 v = (v % 256) ∷ (v / 2 ^ 8 % 256) ∷ []

unfoldable pub decode_i16 : Decoder ℕ
unfolding need next_byte
decode_i16 c = do
  c1 ← need 2 c
  (b0, c2) ← next_byte c1
  (b1, c3) ← next_byte c2
  ok (b0 + b1 * 2 ^ 8, c3)

unfoldable pub encode_i32 : ℕ → List ℕ
encode_i32 v = (v % 256) ∷ (v / 2 ^ 8 % 256) ∷ (v / 2 ^ 16 % 256) ∷ (v / 2 ^ 24 % 256) ∷ []

unfoldable pub decode_i32 : Decoder ℕ
unfolding need next_byte
decode_i32 c = do
  c1 ← need 4 c
  (b0, c2) ← next_byte c1
  (b1, c3) ← next_byte c2
  (b2, c4) ← next_byte c3
  (b3, c5) ← next_byte c4
  ok (b0 + b1 * 2 ^ 8 + b2 * 2 ^ 16 + b3 * 2 ^ 24, c5)

unfoldable pub encode_i64 : ℕ → List ℕ
encode_i64 v =
    (v % 256)
    ∷ (v / 2 ^ 8 % 256)
    ∷ (v / 2 ^ 16 % 256)
    ∷ (v / 2 ^ 24 % 256)
    ∷ (v / 2 ^ 32 % 256)
    ∷ (v / 2 ^ 40 % 256)
    ∷ (v / 2 ^ 48 % 256)
    ∷ (v / 2 ^ 56 % 256)
    ∷ []

unfoldable pub decode_i64 : Decoder ℕ
unfolding need next_byte
decode_i64 c = do
  c1 ← need 8 c
  (b0, c2) ← next_byte c1
  (b1, c3) ← next_byte c2
  (b2, c4) ← next_byte c3
  (b3, c5) ← next_byte c4
  (b4, c6) ← next_byte c5
  (b5, c7) ← next_byte c6
  (b6, c8) ← next_byte c7
  (b7, c9) ← next_byte c8
  ok (
    b0
        + b1 * 2 ^ 8
        + b2 * 2 ^ 16
        + b3 * 2 ^ 24
        + b4 * 2 ^ 32
        + b5 * 2 ^ 40
        + b6 * 2 ^ 48
        + b7 * 2 ^ 56,
    c9,
  )
