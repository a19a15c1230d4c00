-- ===== src/CellStoreTrailer/RoundTrip.antt =====
-- A trailer is read back.
use hypertable.Base.{ℕ, ◌+◌, ◌^◌, ◌<◌, ◌≡◌, refl, List, ◌++◌, length, arith}
use hypertable.Serialization.{ok}
use hypertable.Serialization.Codec.{
  RoundTrips, RoundTrips-▸, RoundTrips-map, RoundTrips-i16, RoundTrips-i32, RoundTrips-i64,
}
use hypertable.CellStoreTrailer.{Trailer, trailer_size, serialize, read_fields, deserialize}

-- The values that fit in the fields.
pub record IsStorable (t : Trailer) : Type 0 where
  pub fix_index_offset : t.fix_index_offset < 2 ^ 32
  pub var_index_offset : t.var_index_offset < 2 ^ 32
  pub filter_offset : t.filter_offset < 2 ^ 32
  pub index_entries : t.index_entries < 2 ^ 32
  pub total_entries : t.total_entries < 2 ^ 32
  pub blocksize : t.blocksize < 2 ^ 32
  pub logical : t.timestamp.logical < 2 ^ 64
  pub real : t.timestamp.real < 2 ^ 64
  pub compression_ratio : t.compression_ratio < 2 ^ 32
  pub compression_type : t.compression_type < 2 ^ 16
  pub version : t.version < 2 ^ 16

RoundTrips-trailer :
    (t : Trailer) → IsStorable t → RoundTrips (serialize t) trailer_size read_fields t
unfolding serialize read_fields
RoundTrips-trailer t s = RoundTrips-▸ _ (RoundTrips-i32 t.fix_index_offset s.fix_index_offset) (
    RoundTrips-▸ _ (RoundTrips-i32 t.var_index_offset s.var_index_offset) (
      RoundTrips-▸ _ (RoundTrips-i32 t.filter_offset s.filter_offset) (
        RoundTrips-▸ _ (RoundTrips-i32 t.index_entries s.index_entries) (
          RoundTrips-▸ _ (RoundTrips-i32 t.total_entries s.total_entries) (
            RoundTrips-▸ _ (RoundTrips-i32 t.blocksize s.blocksize) (
              RoundTrips-▸ _ (RoundTrips-i64 t.timestamp.logical s.logical) (
                RoundTrips-▸ _ (RoundTrips-i64 t.timestamp.real s.real) (
                  RoundTrips-▸ _ (RoundTrips-i32 t.compression_ratio s.compression_ratio) (
                    RoundTrips-▸ _ (RoundTrips-i16 t.compression_type s.compression_type)
                      (RoundTrips-map _ (RoundTrips-i16 t.version s.version)))))))))))

-- `serialize` writes 48 bytes, from which `deserialize` reads the trailer back, whatever is behind them. The
-- values fit in their fields.
pub deserialize-serialize :
    (t : Trailer) (tail : List ℕ)
    → IsStorable t
    → (bytes : List ℕ) × (serialize t ≡ ok bytes)
      × (length bytes ≡ trailer_size)
      × (deserialize (bytes ++ tail) ≡ ok t)
unfolding deserialize
deserialize-serialize t tail s =
    let r = RoundTrips-trailer t s in
    let count : trailer_size ≡ length r.bytes + 0 = omega (arith, r.size) in
    (r.bytes, r.written, r.size, rw (count, r.back tail 0) refl)
