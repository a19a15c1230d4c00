-- ===== src/Serialization/Strings.antt =====
-- src/cc/Common/Serialization.h: byte arrays and strings behind their lengths.
-- A decoder that hands out a pointer into the buffer gives the memory from there on. `size_t` has
-- 64 bits. A C string and a `String` are the list of their characters, without a NUL behind it.
pub mod RoundTrip
pub mod Overrun
use hypertable.Base.{
  ℕ, ◌+◌, ◌-◌, ◌%◌, ◌^◌, ◌≤◌, Bool, List, [], ◌∷◌, ◌++◌, ltb, leb, ◌==◌, if◌then◌else◌, length,
  take, drop, Option, none, some,
}
use hypertable.Serialization.{
  Result, ok, err, fault, bad_vstr, Cursor, Decoder, ◌>>=◌, need, next_byte,
}
use hypertable.Serialization.Fixed.{encode_i16, decode_i16, encode_i32, decode_i32}
use hypertable.Serialization.Vint.{encode_vi64, decode_vi64, encoded_length_vi64}

-- `a -= b` on a `size_t`.
abbrev pub sub64 : ℕ → ℕ → ℕ
sub64 a b = (a + 2 ^ 64 - b % 2 ^ 64) % 2 ^ 64

-- The `n` bytes that a pointer into the memory leads to.
unfoldable pub read_at : List ℕ → ℕ → Result (List ℕ)
read_at mem n = if leb n (length mem) then ok (take n mem) else fault

unfoldable pub encoded_length_bytes32 : ℕ → ℕ
encoded_length_bytes32 len = len + 4

unfoldable pub encode_bytes32 : List ℕ → List ℕ
encode_bytes32 bytes = encode_i32 (length bytes) ++ bytes

-- The pointer and the length. The count is checked and lessened by `HT_DECODE_NEED`, and then
-- lessened once more.
unfoldable pub decode_bytes32 : Decoder (List ℕ × ℕ)
decode_bytes32 c = do
  (len, c1) ← decode_i32 c
  c2 ← need len c1
  ok ((c2.bytes, len), record { bytes = drop len c2.bytes; remain = sub64 c2.remain len })

-- `encode_str16` of a buffer, whose length is put in 16 bits. (Its macro moves on by `len`, which is
-- that number.)
unfoldable pub encode_str16 : List ℕ → List ℕ
encode_str16 s = let len = length s % 2 ^ 16 in encode_i16 len ++ (take len s ++ (0 ∷ []))

unfoldable pub encoded_length_str16 : List ℕ → ℕ
encoded_length_str16 s = 2 + length s + 1

-- The pointer and the length: nothing is checked but the two bytes of the length.
unfoldable pub decode_str16 : Decoder (List ℕ × ℕ)
decode_str16 c = do
  (len, c1) ← decode_i16 c
  ok (
    (c1.bytes, len),
    record { bytes = drop (len + 1) c1.bytes; remain = sub64 c1.remain (len + 1) },
  )

-- The template that builds a `String` of the characters.
unfoldable pub decode_str16_string : Decoder (List ℕ)
decode_str16_string c = do ((ptr, len), c1) ← decode_str16 c; s ← read_at ptr len; ok (s, c1)

unfoldable pub encoded_length_vstr : ℕ → ℕ
encoded_length_vstr len = encoded_length_vi64 len + len + 1

unfoldable pub encode_vstr : List ℕ → Result (List ℕ)
encode_vstr s = do len ← encode_vi64 (length s); ok (len ++ (s ++ (0 ∷ [])))

-- The check behind the characters, and the result.
unfoldable pub nul_behind : ℕ → Decoder (List ℕ × ℕ)
nul_behind len c = do
  (last, c1) ← next_byte (record c { bytes = drop len c.bytes })
  if last == 0 then ok ((c.bytes, len), c1) else err bad_vstr

-- The pointer and the length, if a NUL follows the characters: `_ip_ += _tmp_` and `(_ip_)[-1]` are
-- the byte at `_tmp_ - 1`. At the largest length `_tmp_++` wraps to 0, and `(_ip_)[-1]` is the last
-- byte of the length itself, which is odd there.
unfoldable pub decode_vstr : Decoder (List ℕ × ℕ)
decode_vstr c = do
  (len, c1) ← decode_vi64 c
  c2 ← need ((len + 1) % 2 ^ 64) c1
  if (len + 1) % 2 ^ 64 == 0 then err bad_vstr else nul_behind len c2
