-- ===== src/Serialization/Vint.antt =====
-- src/cc/Common/serialization-c.h: variable-length integers, seven bits to a byte, lowest first.
-- The macros repeat one block a fixed number of times; `rounds` counts the blocks that are left.
pub mod RoundTrip
pub mod Safety
use hypertable.Base.{
  ℕ, zero, suc, ◌+◌, ◌*◌, ◌/◌, ◌%◌, ◌^◌, List, [], ◌∷◌, ◌==◌, leb, if◌then◌else◌, bit_and, bit_or,
}
use hypertable.Serialization.{
  Result, ok, err, Decoder, ◌>>=◌, need, next_byte, bad_vint, unpossible,
}

-- `HT_ENCODE_VINT0` and then `rounds` times `HT_ENCODE_VINT_`: the bytes that `*bufp` receives.
unfoldable pub encode_vint : ℕ → ℕ → Result (List ℕ)
encode_vint zero v = if leb v 0x7f then ok (bit_and (v % 256) 0x7f ∷ []) else err unpossible
encode_vint (suc rounds) v =
    let more = (do rest ← encode_vint rounds (v / 2 ^ 7); ok (bit_or (v % 256) 0x80 ∷ rest)) in
    if leb v 0x7f then ok (bit_and (v % 256) 0x7f ∷ []) else more

unfoldable pub encode_vi32 : ℕ → Result (List ℕ)
encode_vi32 v = encode_vint 5 v

unfoldable pub encode_vi64 : ℕ → Result (List ℕ)
encode_vi64 v = encode_vint 10 v

-- `rounds` times `HT_DECODE_VINT_`, for a value of `w` bits, and the exception behind them.
-- `prev` is `(_ip_)[-1]`. The bits of `v` lie below `shift + 7`, so `|=` adds, within the width.
-- (In the last block the shift is past the width; its value is dropped by the exception behind it.)
unfoldable pub decode_vint_rest : ℕ → ℕ → ℕ → ℕ → ℕ → Decoder ℕ
decode_vint_rest w zero shift prev v c = err bad_vint
decode_vint_rest w (suc rounds) shift prev v c =
    let more = (do
      c1 ← need 1 c
      (b, c2) ← next_byte c1
      decode_vint_rest w rounds (shift + 7) b ((v + bit_and b 0x7f * 2 ^ (shift + 7)) % 2 ^ w)
          c2) in
    if bit_and prev 0x80 == 0 then ok (v, c) else more

-- `HT_DECODE_VINT0` and the rest.
unfoldable pub decode_vint : ℕ → ℕ → Decoder ℕ
unfolding need next_byte decode_vint_rest
decode_vint w rounds c = do
  c1 ← need 1 c
  (b, c2) ← next_byte c1
  decode_vint_rest w rounds 0 b (bit_and b 0x7f) c2

unfoldable pub decode_vi32 : Decoder ℕ
decode_vi32 c = decode_vint 32 5 c

unfoldable pub decode_vi64 : Decoder ℕ
decode_vi64 c = decode_vint 64 10 c

unfoldable pub encoded_length_vi32 : ℕ → ℕ
encoded_length_vi32 v =
    if leb v 0x7f
    then 1
    else if leb v 0x3fff
    then 2
    else if leb v 0x1fffff
    then 3
    else if leb v 0xfffffff
    then 4
    else 5

unfoldable pub encoded_length_vi64 : ℕ → ℕ
encoded_length_vi64 v =
    if leb v 0x7f
    then 1
    else if leb v 0x3fff
    then 2
    else if leb v 0x1fffff
    then 3
    else if leb v 0xfffffff
    then 4
    else if leb v 0x7ffffffff
    then 5
    else if leb v 0x3ffffffffff
    then 6
    else if leb v 0x1ffffffffffff
    then 7
    else if leb v 0xffffffffffffff
    then 8
    else if leb v 0x7fffffffffffffff
    then 9
    else 10
