-- ===== src/Serialization/Runs.antt =====
-- Concrete runs of the coders, and their theorems at concrete inputs.
use hypertable.Base.{ℕ, ◌+◌, ◌^◌, ◌≡◌, refl, List, [], ◌∷◌, ◌++◌, arith, length}
use hypertable.Serialization.{ok, err, bad_vint, input_overrun, Cursor, need, next_byte}
use hypertable.Serialization.Fixed.{encode_i64, decode_i64}
use hypertable.Serialization.Fixed.RoundTrip.{decode_i64-encode_i64}
use hypertable.Serialization.Vint.{
  encode_vint, encode_vi32, decode_vint_rest, decode_vint, decode_vi32, decode_vi64, encode_vi64,
  encoded_length_vi64,
}
use hypertable.Serialization.Vint.RoundTrip.{decode_vi64-encode_vi64}

abbrev at : List ℕ → ℕ → Cursor
at bs n = record { bytes = bs; remain = n }

encode_300 : encode_vi32 300 ≡ ok (0xac ∷ 0x02 ∷ [])
unfolding encode_vi32 encode_vint
encode_300 = refl

decode_300 : decode_vi32 (at (0xac ∷ 0x02 ∷ 7 ∷ []) 3) ≡ ok (300, at (7 ∷ []) 1)
unfolding decode_vi32 decode_vint decode_vint_rest need next_byte
decode_300 = refl

-- Six bytes that all go on.
decode_too_long :
    decode_vi32 (at (0x80 ∷ 0x80 ∷ 0x80 ∷ 0x80 ∷ 0x80 ∷ 0x80 ∷ 0 ∷ []) 7) ≡ err bad_vint
unfolding decode_vi32 decode_vint decode_vint_rest need next_byte
decode_too_long = refl

decode_cut : decode_vi32 (at (0x80 ∷ []) 1) ≡ err input_overrun
unfolding decode_vi32 decode_vint decode_vint_rest need next_byte
decode_cut = refl

decode_i64-encode_i64_example :
    decode_i64 (at (encode_i64 0x0102030405060708 ++ (9 ∷ [])) (8 + 1))
    ≡ ok (0x0102030405060708, at (9 ∷ []) 1)
decode_i64-encode_i64_example = decode_i64-encode_i64 0x0102030405060708 (9 ∷ []) 1 (omega arith)

decode_vi64-encode_vi64_example :
    (bs : List ℕ) × (encode_vi64 (2 ^ 63) ≡ ok bs)
    × (length bs ≡ encoded_length_vi64 (2 ^ 63))
    × (decode_vi64 (at (bs ++ (7 ∷ [])) (length bs + 1)) ≡ ok (2 ^ 63, at (7 ∷ []) 1))
decode_vi64-encode_vi64_example = decode_vi64-encode_vi64 (2 ^ 63) 1 (7 ∷ []) (omega arith)
