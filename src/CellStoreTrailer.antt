-- ===== src/CellStoreTrailer.antt =====
-- src/cc/Hypertable/RangeServer/CellStoreTrailerV0.h and CellStoreTrailerV0.cc: the end of a cell store's
-- file. The compression ratio is a union of a `float` and its 32 bits, and is the bits here.
pub mod RoundTrip
use hypertable.Base.{ℕ, ◌%◌, ◌^◌, List}
use hypertable.Serialization.{Result, ok, ◌>>=◌, Decoder}
use hypertable.Serialization.Fixed.{
  encode_i16, decode_i16, encode_i32, decode_i32, encode_i64, decode_i64,
}
use hypertable.Serialization.Codec.{◌▸◌}
use hypertable.Types.{Timestamp}

pub record Trailer : Type 0 where
  pub fix_index_offset : ℕ
  pub var_index_offset : ℕ
  pub filter_offset : ℕ
  pub index_entries : ℕ
  pub total_entries : ℕ
  pub blocksize : ℕ
  pub timestamp : Timestamp
  pub compression_ratio : ℕ
  pub compression_type : ℕ
  pub version : ℕ

abbrev pub trailer_size : ℕ
trailer_size = 48

unfoldable pub serialize : Trailer → Result (List ℕ)
serialize t =
    ok (encode_i32 t.fix_index_offset)
    ▸ ok (encode_i32 t.var_index_offset)
    ▸ ok (encode_i32 t.filter_offset)
    ▸ ok (encode_i32 t.index_entries)
    ▸ ok (encode_i32 t.total_entries)
    ▸ ok (encode_i32 t.blocksize)
    ▸ ok (encode_i64 t.timestamp.logical)
    ▸ ok (encode_i64 t.timestamp.real)
    ▸ ok (encode_i32 t.compression_ratio)
    ▸ ok (encode_i16 t.compression_type)
    ▸ ok (encode_i16 t.version)

-- The fields, with what is left of the count.
unfoldable pub read_fields : Decoder Trailer
read_fields c = do
  (fix_index_offset, c1) ← decode_i32 c
  (var_index_offset, c2) ← decode_i32 c1
  (filter_offset, c3) ← decode_i32 c2
  (index_entries, c4) ← decode_i32 c3
  (total_entries, c5) ← decode_i32 c4
  (blocksize, c6) ← decode_i32 c5
  (logical, c7) ← decode_i64 c6
  (real, c8) ← decode_i64 c7
  (compression_ratio, c9) ← decode_i32 c8
  (compression_type, c10) ← decode_i16 c9
  (version, c11) ← decode_i16 c10
  ok (
    record {
      fix_index_offset = fix_index_offset;
      var_index_offset = var_index_offset;
      filter_offset = filter_offset;
      index_entries = index_entries;
      total_entries = total_entries;
      blocksize = blocksize;
      timestamp = record { logical = logical; real = real };
      compression_ratio = compression_ratio;
      compression_type = compression_type;
      version = version;
    },
    c11,
  )

-- The count starts at the size of a trailer.
unfoldable pub deserialize : List ℕ → Result Trailer
deserialize buf = do (t, _) ← read_fields (record { bytes = buf; remain = trailer_size }); ok t
