-- ===== src/BlockHeader/Checked.antt =====
-- What `decode` refuses.
use hypertable.Base.{
  ℕ, ◌-◌, ◌%◌, ◌^◌, ◌<◌, ◌≤◌, ◌≡◌, ◌≢◌, inl, inr, Bool-cases, refl, ap, ◌∙◌, List, ◌++◌, ltb, ◌==◌,
  true, false, if◌then◌else◌, length, Bool, arith,
}
use hypertable.Serialization.{ok, err, ◌>>=◌, Cursor, compressor_truncated, compressor_bad_header}
use hypertable.Serialization.Reading.{>>=-eq-ok, ok-injective}
use hypertable.Serialization.Fixed.{encode_i16, decode_i8, decode_i32}
use hypertable.Serialization.Fixed.RoundTrip.{decode_i16-encode_i16}
use hypertable.Checksum.{fletcher32}
use hypertable.BlockHeader.{
  Header, compression_type_limit, verify_checksum, decode_magic, decode_tested, decode_fields,
  skip_checksum, decode,
}
use hypertable.BlockHeader.RoundTrip.{copy_bytes-append}

verify_checksum-damaged :
    (len stored : ℕ) (base tail : List ℕ)
    → length base ≡ len - 2
    → stored < 2 ^ 16
    → fletcher32 base % 2 ^ 16 ≢ stored
    → verify_checksum len (base ++ (encode_i16 stored ++ tail)) ≡ err compressor_bad_header
unfolding verify_checksum
verify_checksum-damaged len stored base tail h s ne =
    let differ : (fletcher32 base % 2 ^ 16 == stored) ≡ false = ground arith in
    rw
      (
        copy_bytes-append base (encode_i16 stored ++ tail) (len - 2) h,
        decode_i16-encode_i16 stored tail 0 s,
        differ,
      )
      refl

-- A header that is cut off is refused as truncated, and a whole one whose bytes do not have the
-- checksum that is stored behind them is refused as bad, whatever its fields are.
pub decode-refuses :
    (len stored remain : ℕ) (base tail : List ℕ)
    → length base ≡ len - 2
    → stored < 2 ^ 16
    → fletcher32 base % 2 ^ 16 ≢ stored
    → decode len (record { bytes = base ++ (encode_i16 stored ++ tail); remain = remain })
      ≡ err (if ltb remain len then compressor_truncated else compressor_bad_header)
unfolding decode
decode-refuses len stored remain base tail h s ne = elim (Bool-cases (ltb remain len)) [
  | inl e ↦ rw e refl
  | inr e ↦ rw (e, verify_checksum-damaged len stored base tail h s ne) refl
]

decode_tested-passed :
    (test : ℕ → Bool) (c c' : Cursor) (v : ℕ) → decode_tested test c ≡ ok (v, c') → test v ≡ true
unfolding decode_tested
decode_tested-passed test c c' v e =
    let ((w, c1), _, e1) = >>=-eq-ok (decode_i8 c) _ e in
    elim (Bool-cases (test w)) [
      | inl t ↦ ground (arith, e1, t)
      | inr t ↦ absurd (ground (arith, e1, t))
    ]

-- What is accepted has a compression type that there is.
decode_fields-type :
    (len : ℕ) (c c' : Cursor) (h : Header)
    → decode_fields len c ≡ ok (h, c')
    → h.compression_type < compression_type_limit
unfolding decode_fields
decode_fields-type len c c' h e =
    let ((magic, c1), _, e1) = >>=-eq-ok (decode_magic c) _ e in
    let ((l, c2), _, e2) = >>=-eq-ok (decode_tested (λ v. v == len) c1) _ e1 in
    let ((type, c3), passed, e3) =
      >>=-eq-ok (decode_tested (λ v. ltb v compression_type_limit) c2) _ e2 in
    let ((checksum, c4), _, e4) = >>=-eq-ok (decode_i32 c3) _ e3 in
    let ((size, c5), _, e5) = >>=-eq-ok (decode_i32 c4) _ e4 in
    let ((zsize, c6), _, e6) = >>=-eq-ok (decode_i32 c5) _ e5 in
    let e7 : type ≡ h.compression_type = ap (λ p. p.0.compression_type) (ok-injective e6) in
    ground (arith, decode_tested-passed (λ v. ltb v compression_type_limit) c2 c3 type passed)

-- A header that is accepted is whole, its checksum is the one stored behind it, and its compression type
-- is one that there is.
pub decode-accepts :
    (len : ℕ) (c c' : Cursor) (h : Header)
    → decode len c ≡ ok (h, c')
    → (len ≤ c.remain)
      × (verify_checksum len c.bytes ≡ ok tt)
      × (h.compression_type < compression_type_limit)
unfolding decode
decode-accepts len c c' h e = elim (Bool-cases (ltb c.remain len)) [
  | inl l ↦ absurd (ground (arith, e, l))
  | inr l ↦
      let chain = ap_then len c l ∙ e in
      let (_, verified, e1) = >>=-eq-ok (verify_checksum len c.bytes) _ chain in
      let ((g, c1), fields, e2) = >>=-eq-ok (decode_fields len c) _ e1 in
      let same : g ≡ h = ap (λ p. p.0) (ok-injective e2) in
      (ground arith, verified, rw (← same) (decode_fields-type len c c1 g fields))
]
  where
    ap_then :
        (len : ℕ) (c : Cursor)
        → ltb c.remain len ≡ false
        → (verify_checksum len c.bytes >>= λ _.
            decode_fields len c >>= λ p. ok (p.0, skip_checksum len c p.1))
          ≡ decode len c
    ap_then len c l = rw l refl
