-- ===== src/Serialization/Strings/Overrun.antt =====
-- What the count is worth behind a string or a byte array.
use hypertable.Base.{
  ℕ, ◌+◌, ◌-◌, ◌%◌, ◌^◌, ◌≤◌, ◌<◌, ◌≡◌, refl, List, ◌++◌, arith, length, drop, ap, append_assoc,
  drop-length-append, ◌==◌, if◌then◌else◌, length-drop, drop-cons, mod_small, ltb, Bool-cases, inl,
  inr,
}
use hypertable.Serialization.{
  ok, err, ◌>>=◌, Cursor, need, next_byte, IsValid, Reads, Result, bad_vstr,
}
use hypertable.Serialization.Reading.{Reads->>=}
use hypertable.Serialization.Fixed.{encode_i16}
use hypertable.Serialization.Fixed.RoundTrip.{decode_i32-encode_i32}
use hypertable.Serialization.Vint.{decode_vi64}
use hypertable.Serialization.Vint.Safety.{decode_vi64-Reads}
use hypertable.Serialization.Strings.{
  sub64, encode_bytes32, decode_bytes32, decode_str16, decode_vstr, nul_behind,
}
use hypertable.Serialization.Strings.RoundTrip.{decode_str16-length, need-add}

-- The bytes come back from `encode_bytes32`, and the pointer stands behind them, but the count has
-- fallen by their number twice: with `r` bytes left it says `r` less that number, modulo 2 ^ 64.
pub decode_bytes32-encode_bytes32 :
    (s tail : List ℕ) (r : ℕ)
    → length s < 2 ^ 32
    → r < 2 ^ 63
    → decode_bytes32 (record { bytes = encode_bytes32 s ++ tail; remain = 4 + (length s + r) })
      ≡ ok ((s ++ tail, length s), record { bytes = tail; remain = sub64 r (length s) })
unfolding encode_bytes32 decode_bytes32
decode_bytes32-encode_bytes32 s tail r hs hr =
    rw
      (
        append_assoc,
        decode_i32-encode_i32 (length s) (s ++ tail) (length s + r) hs,
        need-add (length s) r (s ++ tail),
        drop-length-append,
      )
      refl

-- Where an array is longer than what stands behind it in the buffer, the cursor behind the array is
-- not valid: its count promises more than the memory holds.
pub decode_bytes32-not-IsValid :
    (s tail : List ℕ) (d : Cursor)
    → length s < 2 ^ 32
    → length tail < length s
    → decode_bytes32
        (record { bytes = encode_bytes32 s ++ tail; remain = 4 + (length s + length tail) })
      ≡ ok ((s ++ tail, length s), d)
    → ¬ IsValid d
decode_bytes32-not-IsValid s tail d hs ht e v =
    let same : length tail < length s
        → ◌≡◌ {A = Result ((List ℕ × ℕ) × Cursor)}
            (ok (
              (s ++ tail, length s),
              record { bytes = tail; remain = sub64 (length tail) (length s) },
            ))
            (ok ((s ++ tail, length s), d)) =
      λ _. rw (← decode_bytes32-encode_bytes32 s tail (length tail) hs (omega arith)) e in
    let m : d.remain ≡ sub64 (length tail) (length s) = cc (same ht) in
    let n : d.bytes ≡ tail = cc (same ht) in omega (arith, ap length n)

-- `decode_str16` checks nothing but the two bytes of the length: where the buffer holds fewer bytes
-- than the length and the NUL need, it returns without an exception, and its count has wrapped.
pub decode_str16-not-IsValid :
    (len : ℕ) (rest : List ℕ)
    → len < 2 ^ 16
    → length rest ≤ len
    → (d : Cursor) × (decode_str16
          (record { bytes = encode_i16 len ++ rest; remain = 2 + length rest })
        ≡ ok ((rest, len), d))
      × (¬ IsValid d)
decode_str16-not-IsValid len rest hl hr = (
  record { bytes = drop (len + 1) rest; remain = sub64 (length rest) (len + 1) },
  decode_str16-length len (length rest) rest hl,
  λ v. omega (arith, length-drop (len + 1) rest),
)

nul_behind-Reads :
    (len : ℕ) (bs : List ℕ) (n m : ℕ)
    → m ≤ length bs
    → n + (len + 1) ≡ m
    → Reads
        (λ _. Unit)
        (record { bytes = bs; remain = m })
        (nul_behind len (record { bytes = bs; remain = n }))
unfolding nul_behind next_byte
nul_behind-Reads len bs n m h hm =
    let (b, rest, e, k) = drop-cons len bs (omega arith) in rw e (ground arith)

fitting-Reads :
    (len : ℕ) (c : Cursor) → IsValid c → Reads (λ _. Unit) c (need (len + 1) c >>= nul_behind len)
unfolding need
fitting-Reads len c v = elim (Bool-cases (ltb c.remain (len + 1))) [
  | inl short ↦ rw short tt
  | inr long ↦
      rw long (nul_behind-Reads len c.bytes (c.remain - (len + 1)) c.remain v (ground arith))
]

nul_check-Reads :
    (len : ℕ) (c : Cursor)
    → IsValid c
    → len < 2 ^ 64
    → Reads
        (λ _. Unit)
        c
        (need ((len + 1) % 2 ^ 64) c >>= λ c2.
          if (len + 1) % 2 ^ 64 == 0 then err bad_vstr else nul_behind len c2)
nul_check-Reads len c v h = elim (Bool-cases ((len + 1) % 2 ^ 64 == 0)) [
  | inl wraps ↦ rw wraps (unfold need in ground arith)
  | inr fits ↦ rw (fits, mod_small (len + 1) (2 ^ 64) (ground arith)) (fitting-Reads len c v)
]

-- Where the count promises no more than the memory holds, `decode_vstr` never reads outside the
-- memory, and if it returns, the count has fallen by the bytes read.
pub decode_vstr-Reads : (c : Cursor) → IsValid c → Reads (λ _. Unit) c (decode_vstr c)
unfolding decode_vstr
decode_vstr-Reads c v =
    Reads->>= (λ u. u < 2 ^ 64) (λ _. Unit) c (decode_vi64 c) _ v (decode_vi64-Reads c v)
      (λ len c1 v1 h. nul_check-Reads len c1 v1 h)
