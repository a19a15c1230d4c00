-- ===== src/Key/Timestamp.antt =====
-- The timestamp of a key: written high byte first and complemented, so that a later one comes first.
use hypertable.Base.{
  ℕ, zero, suc, ◌+◌, ◌*◌, ◌/◌, ◌%◌, ◌^◌, ◌≤◌, ◌<◌, ◌≡◌, List, [], ◌∷◌, ◌++◌, arith, sym,
}
use native.Mathlib.Nat.{div-add-mod, mod-lt}
use Prim.Native.Nat.{compare}
use hypertable.Serialization.{ok}
use hypertable.ByteString.Order.{lex, then_by}
use hypertable.Key.{complement64, encode_ts64, decode_ts64, key_timestamp}

-- `write_key` and `encode_ts64` write the same bytes.
pub key_timestamp-encode_ts64 : (ts : ℕ) → key_timestamp ts ≡ encode_ts64 ts
unfolding key_timestamp encode_ts64
key_timestamp-encode_ts64 ts = ground arith

pub decode_ts64-encode_ts64 :
    (ts : ℕ) (rest : List ℕ) → ts < 2 ^ 64 → decode_ts64 (encode_ts64 ts ++ rest) ≡ ok (ts, rest)
unfolding decode_ts64 encode_ts64
decode_ts64-encode_ts64 ts rest h = ground arith

-- A number as its `n` bytes, high byte first.
big_endian : ℕ → ℕ → List ℕ
big_endian zero v = []
big_endian (suc n) v = (v / 256 ^ n) ∷ big_endian n (v % 256 ^ n)

pow_pos : (n : ℕ) → 0 < 256 ^ n
pow_pos zero = omega arith
pow_pos (suc n) = omega (arith, pow_pos n)

digit-lt : (m a b : ℕ) → a < b → m * a + m ≤ m * b
digit-lt m a b h = grind arith

-- The high digit decides, and then what is below it.
compare-digit :
    (m v u : ℕ) → 0 < m → compare v u ≡ then_by (compare (v / m) (u / m)) (compare (v % m) (u % m))
compare-digit m v u h = ground (
  arith,
  digit-lt m (v / m) (u / m),
  digit-lt m (u / m) (v / m),
  div-add-mod v m,
  div-add-mod u m,
  mod-lt v h,
  mod-lt u h,
)

lex-big_endian :
    (n v u : ℕ) → v < 256 ^ n → u < 256 ^ n → lex (big_endian n v) (big_endian n u) ≡ compare v u
unfolding lex big_endian
lex-big_endian zero v u hv hu = ground arith
lex-big_endian (suc n) v u hv hu =
    rw (lex-big_endian n (v % 256 ^ n) (u % 256 ^ n) (mod-lt v (pow_pos n)) (mod-lt u (pow_pos n)))
      (sym (compare-digit (256 ^ n) v u (pow_pos n)))

encode_ts64-big_endian : (ts : ℕ) → encode_ts64 ts ≡ big_endian 8 (complement64 ts)
unfolding encode_ts64 big_endian
encode_ts64-big_endian ts = ground arith

pub lex-encode_ts64 :
    (ts us : ℕ) → ts < 2 ^ 64 → us < 2 ^ 64 → lex (encode_ts64 ts) (encode_ts64 us) ≡ compare us ts
lex-encode_ts64 ts us h k =
    rw
      (
        encode_ts64-big_endian ts,
        encode_ts64-big_endian us,
        lex-big_endian 8 (complement64 ts) (complement64 us) (omega arith) (omega arith),
      )
      (ground arith)
