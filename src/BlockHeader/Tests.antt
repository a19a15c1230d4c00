-- ===== src/BlockHeader/Tests.antt =====
-- The theorems at one header.
use hypertable.Base.{ℕ, ◌%◌, ◌^◌, ◌<◌, ◌≤◌, ◌≡◌, ◌≢◌, refl, List, [], ◌∷◌, arith}
use hypertable.Serialization.{need, next_byte, ok}
use hypertable.Serialization.Fixed.{
  encode_i8, encode_i16, encode_i32, decode_i8, decode_i16, decode_i32,
}
use hypertable.Serialization.Codec.{RoundTrips}
use hypertable.Checksum.{fletcher32, blocks, block, words, sixteens, do1, reduce, odd_byte}
use hypertable.BlockHeader.{
  Header, header_length, compression_type_limit, encode_fields, encode, encode_commit_log,
  copy_bytes, close_header, write_header_checksum, decode_magic, decode_tested, decode_fields,
  skip_checksum, verify_checksum, decode, decode_commit_log,
}
use hypertable.BlockHeader.RoundTrip.{IsStorable, RoundTrips-header, RoundTrips-commit_log}
use hypertable.BlockHeader.Checked.{decode-accepts}

abbrev sample : Header
sample = record {
  magic = b'I' ∷ b'd' ∷ b'x' ∷ b'F' ∷ b'i' ∷ b'x' ∷ b'-' ∷ b'-' ∷ b'-' ∷ b'-' ∷ [];
  data_length = 1000;
  data_zlength = 400;
  data_checksum = 77;
  compression_type = 3;
}

sample-IsStorable : IsStorable sample
sample-IsStorable = record {
  magic = refl;
  compression_type = omega arith;
  data_checksum = omega arith;
  data_length = omega arith;
  data_zlength = omega arith;
}

RoundTrips-header_example :
    RoundTrips (ok (encode header_length sample)) 26 (decode header_length) sample
RoundTrips-header_example = RoundTrips-header sample sample-IsStorable

RoundTrips-commit_log_example :
    RoundTrips (ok (encode_commit_log sample 123)) 34 decode_commit_log (sample, 123)
RoundTrips-commit_log_example = RoundTrips-commit_log sample sample-IsStorable 123 (omega arith)

abbrev damaged : List ℕ
damaged =
    b'x' ∷ b'd' ∷ b'x' ∷ b'F' ∷ b'i' ∷ b'x' ∷ b'-' ∷ b'-' ∷ b'-' ∷ b'-' ∷ 26 ∷ 3 ∷ 77 ∷ 0 ∷ 0 ∷ 0
    ∷ 1 ∷ 0 ∷ 0 ∷ 0 ∷ 1 ∷ 0 ∷ 0 ∷ 0 ∷ []

damaged_checksum : fletcher32 damaged % 2 ^ 16 ≢ 9
unfolding fletcher32 blocks block words sixteens do1 reduce odd_byte
damaged_checksum = omega arith

decode-sample :
    decode header_length (record { bytes = encode header_length sample; remain = 26 })
    ≡ ok (sample, record { bytes = []; remain = 0 })
unfolding decode verify_checksum copy_bytes decode_fields decode_magic decode_tested skip_checksum
    encode close_header write_header_checksum encode_fields encode_i8 encode_i16 encode_i32
    decode_i8 decode_i16 decode_i32 need next_byte fletcher32 blocks block words sixteens do1 reduce
    odd_byte
decode-sample = refl

decode-accepts_example :
    (header_length ≤ 26)
    × (verify_checksum header_length (encode header_length sample) ≡ ok tt)
    × (sample.compression_type < compression_type_limit)
decode-accepts_example =
    decode-accepts header_length (record { bytes = encode header_length sample; remain = 26 })
      (record { bytes = []; remain = 0 }) sample decode-sample
