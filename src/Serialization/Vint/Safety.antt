-- ===== src/Serialization/Vint/Safety.antt =====
-- What the decoders of variable-length integers do on any input.
use hypertable.Base.{ℕ, zero, suc, ◌+◌, ◌*◌, ◌%◌, ◌^◌, ◌<◌, ◌==◌, bit_and, bit_and-le, arith}
use native.Mathlib.Nat.{mod-lt}
use hypertable.Serialization.{ok, Cursor, IsValid, Reads}
use hypertable.Serialization.Reading.{Reads-if, Reads-byte}
use hypertable.Serialization.Vint.{decode_vint_rest, decode_vint, decode_vi32, decode_vi64}

rest-Reads :
    (rounds w shift prev v : ℕ) (c : Cursor)
    → IsValid c
    → v < 2 ^ w
    → Reads (λ u. u < 2 ^ w) c (decode_vint_rest w rounds shift prev v c)
unfolding decode_vint_rest
rest-Reads zero w shift prev v c h hv = tt
rest-Reads (suc rounds) w shift prev v c h hv =
    Reads-if (λ u. u < 2 ^ w) c (bit_and prev 0x80 == 0) (ok (v, c)) _ (λ _. omega arith)
      (λ _.
        Reads-byte (λ u. u < 2 ^ w) c
          (λ x.
            decode_vint_rest w rounds (shift + 7) x.0
              ((v + bit_and x.0 0x7f * 2 ^ (shift + 7)) % 2 ^ w) x.1)
          h (λ b c' h'. rest-Reads rounds w (shift + 7) b _ c' h' (mod-lt _ (omega arith))))

decode_vint-Reads :
    (w rounds : ℕ) (c : Cursor)
    → IsValid c
    → 127 < 2 ^ w
    → Reads (λ u. u < 2 ^ w) c (decode_vint w rounds c)
unfolding decode_vint
decode_vint-Reads w rounds c h hw =
    Reads-byte (λ u. u < 2 ^ w) c (λ x. decode_vint_rest w rounds 0 x.0 (bit_and x.0 0x7f) x.1) h
      (λ b c' h'. rest-Reads rounds w 0 b (bit_and b 0x7f) c' h' (omega (arith, bit_and-le b 0x7f)))

-- Where the count promises no more than the memory holds, `decode_vi32` never reads outside the
-- memory, and if it returns, then a 32-bit value, and the count has fallen by the bytes read.
pub decode_vi32-Reads : (c : Cursor) → IsValid c → Reads (λ u. u < 2 ^ 32) c (decode_vi32 c)
unfolding decode_vi32
decode_vi32-Reads c h = decode_vint-Reads 32 5 c h (omega arith)

-- The same of `decode_vi64` and 64 bits.
pub decode_vi64-Reads : (c : Cursor) → IsValid c → Reads (λ u. u < 2 ^ 64) c (decode_vi64 c)
unfolding decode_vi64
decode_vi64-Reads c h = decode_vint-Reads 64 10 c h (omega arith)
