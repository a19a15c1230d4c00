-- ===== src/BlockHeader.antt =====
-- src/cc/Hypertable/Lib/BlockCompressionHeader.h and .cc, and BlockCompressionHeaderCommitLog.h and .cc:
-- the header of a compressed block, with the checksum of its own bytes.
-- `len` is what the virtual `length` returns: 26, or 34 for a block of a commit log.
pub mod RoundTrip
pub mod Checked
mod Tests
use hypertable.Base.{
  ℕ, zero, suc, ◌+◌, ◌-◌, ◌%◌, ◌^◌, List, [], ◌∷◌, ◌++◌, ltb, leb, ◌==◌, if◌then◌else◌, length,
  take, drop, Bool, not,
}
use hypertable.Serialization.{
  Error, Result, ok, err, fault, ◌>>=◌, Cursor, Decoder, compressor_truncated,
  compressor_bad_header,
}
use hypertable.Serialization.Fixed.{
  encode_i8, decode_i8, encode_i16, decode_i16, encode_i32, decode_i32, encode_i64, decode_i64,
}
use hypertable.Checksum.{fletcher32}

pub record Header : Type 0 where
  pub magic : List ℕ
  pub data_length : ℕ
  pub data_zlength : ℕ
  pub data_checksum : ℕ
  pub compression_type : ℕ

abbrev pub header_length : ℕ
header_length = 26

abbrev pub commit_log_length : ℕ
commit_log_length = header_length + 8

-- `BlockCompressionCodec::COMPRESSION_TYPE_LIMIT`.
abbrev pub compression_type_limit : ℕ
compression_type_limit = 5

-- `write_header_checksum`: behind the bytes from `base` on, the low 16 bits of their checksum.
unfoldable pub write_header_checksum : List ℕ → List ℕ
write_header_checksum base = base ++ encode_i16 (fletcher32 base % 2 ^ 16)

-- `if ((size_t)(*bufp - base) + 2 == length()) write_header_checksum(base, bufp)`.
unfoldable pub close_header : ℕ → List ℕ → List ℕ
close_header len base = if length base + 2 == len then write_header_checksum base else base

-- The fields; `magic` is an array of 10.
unfoldable pub encode_fields : ℕ → Header → List ℕ
encode_fields len h =
    h.magic
    ++ (encode_i8 len
        ++ (encode_i8 h.compression_type
            ++ (encode_i32 h.data_checksum
                ++ (encode_i32 h.data_length ++ encode_i32 h.data_zlength))))

unfoldable pub encode : ℕ → Header → List ℕ
encode len h = close_header len (encode_fields len h)

-- `BlockCompressionHeaderCommitLog::encode`.
unfoldable pub encode_commit_log : Header → ℕ → List ℕ
encode_commit_log h timestamp =
    close_header commit_log_length (encode commit_log_length h ++ encode_i64 timestamp)

-- So many bytes, without a look at the count.
unfoldable pub copy_bytes : ℕ → List ℕ → Result (List ℕ × List ℕ)
copy_bytes zero bs = ok ([], bs)
copy_bytes (suc n) [] = fault
copy_bytes (suc n) (b ∷ bs) = do (s, rest) ← copy_bytes n bs; ok (b ∷ s, rest)

-- `memcpy(m_magic, *bufp, 10)` and the two additions.
unfoldable pub decode_magic : Decoder (List ℕ)
decode_magic c = do
  (magic, rest) ← copy_bytes 10 c.bytes
  ok (magic, record { bytes = rest; remain = c.remain - 10 })

-- The header's checksum is that of the bytes before it.
unfoldable pub verify_checksum : ℕ → List ℕ → Result (Unit {0})
verify_checksum len mem = do
  (base, behind) ← copy_bytes (len - 2) mem
  (stored, _) ← decode_i16 (record { bytes = behind; remain = 2 })
  if fletcher32 base % 2 ^ 16 == stored then ok tt else err compressor_bad_header

-- A byte, which has to pass a test.
unfoldable pub decode_tested : (ℕ → Bool) → Decoder ℕ
decode_tested test c = do
  (v, c1) ← decode_i8 c
  if test v then ok (v, c1) else err compressor_bad_header

unfoldable pub decode_fields : ℕ → Decoder Header
decode_fields len c = do
  (magic, c1) ← decode_magic c
  (_, c2) ← decode_tested (λ v. v == len) c1
  (compression_type, c3) ← decode_tested (λ v. ltb v compression_type_limit) c2
  (data_checksum, c4) ← decode_i32 c3
  (data_length, c5) ← decode_i32 c4
  (data_zlength, c6) ← decode_i32 c5
  ok (
    record {
      magic = magic;
      data_length = data_length;
      data_zlength = data_zlength;
      data_checksum = data_checksum;
      compression_type = compression_type;
    },
    c6,
  )

-- `if ((size_t)(*bufp - base) == length() - 2)`: two bytes further.
unfoldable pub skip_checksum : ℕ → Cursor → Cursor → Cursor
skip_checksum len base c =
    if length base.bytes - length c.bytes == len - 2
    then record { bytes = drop 2 c.bytes; remain = c.remain - 2 }
    else c

unfoldable pub decode : ℕ → Decoder Header
decode len c = if ltb c.remain len then err compressor_truncated else (do
  _ ← verify_checksum len c.bytes
  (h, c1) ← decode_fields len c
  ok (h, skip_checksum len c c1))

-- `BlockCompressionHeaderCommitLog::decode`.
unfoldable pub decode_commit_log : Decoder (Header × ℕ)
decode_commit_log c = do
  (h, c1) ← decode commit_log_length c
  (timestamp, c2) ← decode_i64 c1
  ok ((h, timestamp), skip_checksum commit_log_length c c2)
