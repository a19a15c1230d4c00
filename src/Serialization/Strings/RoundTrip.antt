-- ===== src/Serialization/Strings/RoundTrip.antt =====
-- Strings are read back.
use hypertable.Base.{
  ℕ, suc, ◌+◌, ◌^◌, ◌<◌, ◌≡◌, refl, List, [], ◌∷◌, ◌++◌, arith, length, drop, length-append,
  append-nil, false, ◌==◌, append_assoc, drop-length-append, take-length-append, take-length,
  mod_small,
}
use native.Mathlib.Numerals.{add-one}
use hypertable.Serialization.{ok, need, next_byte}
use hypertable.Serialization.Fixed.{encode_i16}
use hypertable.Serialization.Fixed.RoundTrip.{decode_i16-encode_i16}
use hypertable.Serialization.Vint.{decode_vi64}
use hypertable.Serialization.Vint.RoundTrip.{decode_vi64-encode_vi64}
use hypertable.Serialization.Strings.{
  sub64, read_at, encode_str16, decode_str16, decode_str16_string, encoded_length_str16,
  encode_vstr, decode_vstr, nul_behind, encoded_length_vstr,
}

pub sub64-add : (n r : ℕ) → n < 2 ^ 63 → r < 2 ^ 63 → sub64 (n + r) n ≡ r
sub64-add n r hn hr = omega arith

drop-suc-append : (s tail : List ℕ) → drop (length s + 1) (s ++ (0 ∷ tail)) ≡ tail
drop-suc-append s tail = rw add-one (go s tail)
  where
    go : (s tail : List ℕ) → drop (suc (length s)) (s ++ (0 ∷ tail)) ≡ tail
    go [] tail = refl
    go (x ∷ s) tail = go s tail

-- What the length announces is taken off the count without a check.
pub decode_str16-length :
    (len m : ℕ) (rest : List ℕ)
    → len < 2 ^ 16
    → decode_str16 (record { bytes = encode_i16 len ++ rest; remain = 2 + m })
      ≡ ok ((rest, len), record { bytes = drop (len + 1) rest; remain = sub64 m (len + 1) })
unfolding decode_str16
decode_str16-length len m rest h = rw (decode_i16-encode_i16 len rest m h)

encode_str16-append :
    (s tail : List ℕ)
    → length s < 2 ^ 16
    → encode_str16 s ++ tail ≡ encode_i16 (length s) ++ (s ++ (0 ∷ tail))
unfolding encode_str16
encode_str16-append s tail h =
    rw (mod_small (length s) (2 ^ 16) h, take-length, append_assoc, append_assoc) refl

read_at-append : (s t : List ℕ) → read_at (s ++ t) (length s) ≡ ok s
unfolding read_at
read_at-append s t = rw take-length-append (ground (arith, length-append s t))

-- A `String` of less than 65536 characters comes back from `encode_str16`, which writes as many
-- bytes as `encoded_length_str16` says; the count falls by these.
pub decode_str16-encode_str16 :
    (s tail : List ℕ) (r : ℕ)
    → length s < 2 ^ 16
    → r < 2 ^ 63
    → (decode_str16_string
          (record { bytes = encode_str16 s ++ tail; remain = encoded_length_str16 s + r })
        ≡ ok (s, record { bytes = tail; remain = r }))
      × (length (encode_str16 s) ≡ encoded_length_str16 s)
unfolding decode_str16_string encoded_length_str16
decode_str16-encode_str16 s tail r hs hr = (value, size)
  where
    regroup : 2 + length s + 1 + r ≡ 2 + (length s + 1 + r)
    regroup = omega arith

    value :
        decode_str16_string
          (record { bytes = encode_str16 s ++ tail; remain = 2 + length s + 1 + r })
        ≡ ok (s, record { bytes = tail; remain = r })
    value =
        rw
          (
            encode_str16-append s tail hs,
            regroup,
            decode_str16-length (length s) (length s + 1 + r) (s ++ (0 ∷ tail)) hs,
            read_at-append,
            drop-suc-append,
            sub64-add (length s + 1) r (omega arith) hr,
          )
          refl

    size : length (encode_str16 s) ≡ 2 + length s + 1
    size =
        rw (← append-nil (encode_str16 s), encode_str16-append s [] hs)
          (unfold encode_i16 in omega (arith, length-append s (0 ∷ [])))

nul_behind-append :
    (s tail : List ℕ) (r : ℕ)
    → nul_behind (length s) (record { bytes = s ++ (0 ∷ tail); remain = r })
      ≡ ok ((s ++ (0 ∷ tail), length s), record { bytes = tail; remain = r })
unfolding nul_behind next_byte
nul_behind-append s tail r = rw drop-length-append refl

pub need-add :
    (l r : ℕ) (bs : List ℕ)
    → need l (record { bytes = bs; remain = l + r }) ≡ ok (record { bytes = bs; remain = r })
unfolding need
need-add l r bs = ground arith

-- The decoder behind the length `ls`.
decode_vstr-length :
    (ls s tail : List ℕ) (r : ℕ)
    → length s + 1 < 2 ^ 64
    → decode_vi64
        (record { bytes = ls ++ (s ++ (0 ∷ tail)); remain = length ls + (length s + 1 + r) })
      ≡ ok (length s, record { bytes = s ++ (0 ∷ tail); remain = length s + 1 + r })
    → decode_vstr (record {
      bytes = (ls ++ (s ++ (0 ∷ []))) ++ tail;
      remain = length (ls ++ (s ++ (0 ∷ []))) + r;
    })
      ≡ ok ((s ++ (0 ∷ tail), length s), record { bytes = tail; remain = r })
unfolding decode_vstr
decode_vstr-length ls s tail r h e =
    rw
      (
        append_assoc,
        append_assoc,
        regroup,
        e,
        mod_small (length s + 1) (2 ^ 64) h,
        need-add (length s + 1) r (s ++ (0 ∷ tail)),
        nonzero,
      )
      (nul_behind-append s tail r)
  where
    regroup : length (ls ++ (s ++ (0 ∷ []))) + r ≡ length ls + (length s + 1 + r)
    regroup = omega (arith, length-append ls (s ++ (0 ∷ [])), length-append s (0 ∷ []))

    nonzero : (length s + 1 == 0) ≡ false
    nonzero = ground arith

-- A string of any length that memory can hold comes back from `encode_vstr`, which writes as many
-- bytes as `encoded_length_vstr` says: the decoder hands out the place of its characters and their
-- number, and the count falls by the bytes written.
pub decode_vstr-encode_vstr :
    (s tail : List ℕ) (r : ℕ)
    → length s + 1 < 2 ^ 64
    → (bs : List ℕ) × (encode_vstr s ≡ ok bs)
      × (length bs ≡ encoded_length_vstr (length s))
      × (decode_vstr (record { bytes = bs ++ tail; remain = length bs + r })
          ≡ ok ((s ++ (0 ∷ tail), length s), record { bytes = tail; remain = r }))
unfolding encode_vstr encoded_length_vstr
decode_vstr-encode_vstr s tail r h =
    let (ls, written, size, back) =
      decode_vi64-encode_vi64 (length s) (length s + 1 + r) (s ++ (0 ∷ tail)) (omega arith) in
    (
      ls ++ (s ++ (0 ∷ [])),
      rw written refl,
      omega (arith, length-append ls (s ++ (0 ∷ [])), length-append s (0 ∷ []), size),
      decode_vstr-length ls s tail r h back,
    )
