-- ===== src/ByteString/Runs.antt =====
-- The theorems of byte strings at concrete inputs.
use hypertable.Base.{ℕ, ◌≡◌, refl, List, [], ◌∷◌}
use hypertable.Serialization.{ok}
use hypertable.Serialization.Vint.{encode_vi32, encode_vint}
use hypertable.ByteString.{append_as_byte_string}

abbrev ab : List ℕ
ab = b'a' ∷ b'b' ∷ []

abbrev abc : List ℕ
abc = b'a' ∷ b'b' ∷ b'c' ∷ []

ab_written : append_as_byte_string [] ab ≡ ok (2 ∷ ab)
unfolding append_as_byte_string encode_vi32 encode_vint
ab_written = refl

abc_written : append_as_byte_string [] abc ≡ ok (3 ∷ abc)
unfolding append_as_byte_string encode_vi32 encode_vint
abc_written = refl
