-- ===== src/BlockHeader/RoundTrip.antt =====
-- A header is read back.
use hypertable.Base.{
  ℕ, zero, suc, ◌+◌, ◌-◌, ◌%◌, ◌^◌, ◌<◌, ◌≡◌, refl, sym, ap, List, [], ◌∷◌, ◌++◌, append_assoc, ltb,
  ◌==◌, true, false, length, length-append, Bool, arith,
}
use mathlib.Core.Path.{subst}
use hypertable.Serialization.{ok, Cursor, Decoder}
use hypertable.Serialization.Reading.{ok-injective}
use hypertable.Serialization.Fixed.{encode_i8, encode_i16, encode_i64}
use hypertable.Serialization.Fixed.RoundTrip.{decode_i16-encode_i16}
use hypertable.Serialization.Codec.{
  ◌▸◌, RoundTrips, RoundTrips-▸, RoundTrips-map, RoundTrips-i8, RoundTrips-i32, RoundTrips-i64,
}
use hypertable.Checksum.{fletcher32}
use hypertable.BlockHeader.{
  Header, header_length, commit_log_length, compression_type_limit, write_header_checksum,
  close_header, encode_fields, encode, encode_commit_log, copy_bytes, decode_magic, verify_checksum,
  decode_tested, decode_fields, skip_checksum, decode, decode_commit_log,
}

==_refl : (n : ℕ) → (n == n) ≡ true
==_refl n = ground arith

pub copy_bytes-append :
    (s tail : List ℕ) (n : ℕ) → length s ≡ n → copy_bytes n (s ++ tail) ≡ ok (s, tail)
unfolding copy_bytes
copy_bytes-append [] tail zero h = refl
copy_bytes-append [] tail (suc n) h = absurd (omega arith)
copy_bytes-append (b ∷ s) tail zero h = absurd (omega arith)
copy_bytes-append (b ∷ s) tail (suc n) h = rw (copy_bytes-append s tail n (omega arith)) refl

RoundTrips-magic :
    (magic : List ℕ) → length magic ≡ 10 → RoundTrips (ok magic) 10 decode_magic magic
unfolding decode_magic
RoundTrips-magic magic h = record {
  bytes = magic;
  written = refl;
  size = h;
  back = λ tail r.
      let e : length magic + r - 10 ≡ r = omega arith in
      rw (copy_bytes-append magic tail 10 h, e) refl;
}

RoundTrips-tested :
    (test : ℕ → Bool) (v : ℕ)
    → test v ≡ true
    → v < 2 ^ 8
    → RoundTrips (ok (encode_i8 v)) 1 (decode_tested test) v
unfolding decode_tested
RoundTrips-tested test v t h =
    let r = RoundTrips-i8 v h in
    record {
      bytes = r.bytes;
      written = r.written;
      size = r.size;
      back = λ tail n. rw (r.back tail n, t) refl;
    }

-- The values that fit in the fields.
pub record IsStorable (h : Header) : Type 0 where
  pub magic : length h.magic ≡ 10
  pub compression_type : h.compression_type < compression_type_limit
  pub data_checksum : h.data_checksum < 2 ^ 32
  pub data_length : h.data_length < 2 ^ 32
  pub data_zlength : h.data_zlength < 2 ^ 32

RoundTrips-fields :
    (len : ℕ) (h : Header)
    → len < 2 ^ 8
    → IsStorable h
    → RoundTrips (ok (encode_fields len h)) 24 (decode_fields len) h
unfolding encode_fields decode_fields ◌▸◌
RoundTrips-fields len h l s = RoundTrips-▸ _ (RoundTrips-magic h.magic s.magic) (
    RoundTrips-▸ _ (RoundTrips-tested (λ v. v == len) len (ground arith) l) (
      RoundTrips-▸ _
        (RoundTrips-tested (λ v. ltb v compression_type_limit) h.compression_type
          (ground (arith, s.compression_type)) (omega (arith, s.compression_type)))
        (RoundTrips-▸ _ (RoundTrips-i32 h.data_checksum s.data_checksum) (
          RoundTrips-▸ _ (RoundTrips-i32 h.data_length s.data_length)
            (RoundTrips-map _ (RoundTrips-i32 h.data_zlength s.data_zlength))))))

-- What `RoundTrips` says of bytes that are written in any case.
module _ {A : Type 0} {bs : List ℕ} {n : ℕ} {d : Decoder A} {a : A}
    (t : RoundTrips (ok bs) n d a) where
  same_bytes : t.bytes ≡ bs
  same_bytes = sym (ok-injective t.written)

  written_size : length bs ≡ n
  written_size = rw (← same_bytes) t.size

  read_again :
      (tail : List ℕ) (r : ℕ)
      → d (record { bytes = bs ++ tail; remain = n + r })
        ≡ ok (a, record { bytes = tail; remain = r })
  read_again tail r =
      subst
        (λ (x : List ℕ).
          d (record { bytes = x ++ tail; remain = n + r })
          ≡ ok (a, record { bytes = tail; remain = r }))
        same_bytes
        (subst
          (λ (m : ℕ).
            d (record { bytes = t.bytes ++ tail; remain = m + r })
            ≡ ok (a, record { bytes = tail; remain = r }))
          t.size (t.back tail r))

abbrev checksum_of : List ℕ → List ℕ
checksum_of base = encode_i16 (fletcher32 base % 2 ^ 16)

verify_checksum-append :
    (len : ℕ) (base tail : List ℕ)
    → length base ≡ len - 2
    → verify_checksum len (base ++ (checksum_of base ++ tail)) ≡ ok tt
unfolding verify_checksum
verify_checksum-append len base tail h =
    rw
      (
        copy_bytes-append base (checksum_of base ++ tail) (len - 2) h,
        decode_i16-encode_i16 (fletcher32 base % 2 ^ 16) tail 0 (omega arith),
        ==_refl (fletcher32 base % 2 ^ 16),
      )
      refl

skip_checksum-there :
    (len v r n : ℕ) (base tail : List ℕ)
    → length base ≡ len - 2
    → skip_checksum len
        (record { bytes = base ++ (encode_i16 v ++ tail); remain = n })
        (record { bytes = encode_i16 v ++ tail; remain = 2 + r })
      ≡ record { bytes = tail; remain = r }
unfolding skip_checksum encode_i16
skip_checksum-there len v r n base tail h =
    ground (arith, length-append base (encode_i16 v ++ tail))

skip_checksum-not :
    (len n : ℕ) (base rest : List ℕ) (c : Cursor)
    → c.bytes ≡ rest
    → (length base == len - 2) ≡ false
    → skip_checksum len (record { bytes = base ++ rest; remain = n }) c ≡ c
unfolding skip_checksum
skip_checksum-not len n base rest c e h = rw (e, length-append base rest) (ground (arith, h))

closed :
    (len : ℕ) (base : List ℕ)
    → length base + 2 ≡ len
    → close_header len base ≡ base ++ checksum_of base
unfolding close_header write_header_checksum
closed len base h = ground arith

not_closed :
    (len : ℕ) (base : List ℕ) → (length base + 2 == len) ≡ false → close_header len base ≡ base
unfolding close_header
not_closed len base h = rw h refl

module _ (h : Header) (s : IsStorable h) where
  fields : (len : ℕ) → len < 2 ^ 8 → RoundTrips (ok (encode_fields len h)) 24 (decode_fields len) h
  fields len l = RoundTrips-fields len h l s

  base : List ℕ
  base = encode_fields header_length h

  decode-base :
      (tail : List ℕ) (r : ℕ)
      → decode header_length
          (record { bytes = (base ++ checksum_of base) ++ tail; remain = 26 + r })
        ≡ ok (h, record { bytes = tail; remain = r })
  unfolding decode base
  decode-base tail r =
      let t = fields header_length (omega arith) in
      let enough : ltb (26 + r) 26 ≡ false = ground arith in
      let count : 26 + r ≡ 24 + (2 + r) = omega arith in
      rw
        (
          enough,
          append_assoc base (checksum_of base) tail,
          verify_checksum-append 26 base tail (written_size t),
          count,
          read_again t (checksum_of base ++ tail) (2 + r),
          skip_checksum-there 26 (fletcher32 base % 2 ^ 16) r (24 + (2 + r)) base tail
              (written_size t),
        )
        refl

  written-base : encode header_length h ≡ base ++ checksum_of base
  unfolding encode base
  written-base =
      closed 26 (encode_fields 26 h)
        (omega (arith, written_size (fields header_length (omega arith))))

  -- A header of a cell store's block comes back from the 26 bytes that `encode` writes, whatever is behind
  -- them: its checksum agrees, and the cursor stands behind it.
  pub RoundTrips-header : RoundTrips (ok (encode header_length h)) 26 (decode header_length) h
  unfolding base
  RoundTrips-header = record {
    bytes = base ++ checksum_of base;
    written = ap ok written-base;
    size = header_size;
    back = λ tail r. rw header_size (decode-base tail r);
  }
    where
      header_size : length (base ++ checksum_of base) ≡ 26
      header_size =
          unfold encode_i16 in
          omega (
            arith,
            length-append base (checksum_of base),
            written_size (fields header_length (omega arith)),
          )

  module _ (timestamp : ℕ) (small : timestamp < 2 ^ 64) where
    log_base : List ℕ
    log_base = encode_fields commit_log_length h ++ encode_i64 timestamp

    log_fields :
        RoundTrips (ok (encode_fields commit_log_length h)) 24 (decode_fields commit_log_length) h
    log_fields = fields commit_log_length (omega arith)

    length-log_base : length log_base ≡ 32
    unfolding log_base encode_i64
    length-log_base =
        omega (
          arith,
          length-append (encode_fields 34 h) (encode_i64 timestamp),
          written_size log_fields,
        )

    written-log : encode_commit_log h timestamp ≡ log_base ++ checksum_of log_base
    unfolding encode_commit_log encode log_base
    written-log =
        let size = written_size log_fields in
        let open_header : close_header 34 (encode_fields 34 h) ≡ encode_fields 34 h =
          not_closed 34 _ (ground (arith, size)) in
        rw open_header (closed 34 log_base (omega (arith, length-log_base)))

    -- The part of the base class reads the fields and stops before the timestamp.
    decode-fields_only :
        (tail : List ℕ) (r : ℕ)
        → decode commit_log_length
            (record { bytes = log_base ++ (checksum_of log_base ++ tail); remain = 34 + r })
          ≡ ok (
            h,
            record {
              bytes = encode_i64 timestamp ++ (checksum_of log_base ++ tail);
              remain = 10 + r;
            },
          )
    unfolding decode
    decode-fields_only tail r =
        let rest = encode_i64 timestamp ++ (checksum_of log_base ++ tail) in
        let enough : ltb (34 + r) 34 ≡ false = ground arith in
        let count : 34 + r ≡ 24 + (10 + r) = omega arith in
        let split : log_base ++ (checksum_of log_base ++ tail) ≡ encode_fields 34 h ++ rest =
          unfold log_base in append_assoc (encode_fields 34 h) (encode_i64 timestamp) _ in
        rw
          (
            enough,
            verify_checksum-append 34 log_base tail (length-log_base),
            split,
            count,
            read_again log_fields rest (10 + r),
            skip_checksum-not 34 (24 + (10 + r)) (encode_fields 34 h) rest
                (record { bytes = rest; remain = 10 + r }) refl
                (ground (arith, written_size log_fields)),
          )
          refl

    decode_log :
        (tail : List ℕ) (r : ℕ)
        → decode_commit_log
            (record { bytes = (log_base ++ checksum_of log_base) ++ tail; remain = 34 + r })
          ≡ ok ((h, timestamp), record { bytes = tail; remain = r })
    unfolding decode_commit_log
    decode_log tail r =
        let count : 10 + r ≡ 8 + (2 + r) = omega arith in
        let last =
          skip_checksum-there 34 (fletcher32 log_base % 2 ^ 16) r (34 + r) log_base tail
            length-log_base in
        rw
          (
            append_assoc log_base (checksum_of log_base) tail,
            decode-fields_only tail r,
            count,
            read_again (RoundTrips-i64 timestamp small) (checksum_of log_base ++ tail) (2 + r),
            last,
          )
          refl

    -- The header of a commit log block and its timestamp come back from the 34 bytes that encode
    -- writes, whatever is behind them: the checksum behind both agrees, and the cursor stands
    -- behind it; the values fit in their fields.
    pub RoundTrips-commit_log :
        RoundTrips (ok (encode_commit_log h timestamp)) 34 decode_commit_log (h, timestamp)
    RoundTrips-commit_log = record {
      bytes = log_base ++ checksum_of log_base;
      written = ap ok written-log;
      size = log_size;
      back = λ tail r. rw log_size (decode_log tail r);
    }
      where
        log_size : length (log_base ++ checksum_of log_base) ≡ 34
        log_size =
            unfold encode_i16 in
            omega (arith, length-append log_base (checksum_of log_base), length-log_base)
