-- ===== src/Key/RoundTrip.antt =====
-- A key that `create_key` wrote is loaded again.
use hypertable.Base.{
  ℕ, zero, suc, ◌+◌, ◌-◌, ◌^◌, ◌<◌, ◌≡◌, refl, List, [], ◌∷◌, ◌++◌, arith, length, ◌==◌, false, leb,
  All, All-append, length-append, Option, some, append_assoc,
}
use hypertable.Serialization.{ok}
use hypertable.Serialization.Vint.{encode_vi32}
use hypertable.Serialization.Reading.{>>=-eq-ok, ok-injective}
use hypertable.Serialization.Vint.RoundTrip.{encode_vi32-pos}
use hypertable.ByteString.{deref, decode_length}
use hypertable.ByteString.RoundTrip.{decode_vi32_ptr-encode_vi32}
use hypertable.Key.{
  skip_string, write_key, create_key, load, load_tail, load_qualifier, take_byte, encode_ts64,
  qualifier_chars, key_length,
}
use hypertable.Key.Timestamp.{decode_ts64-encode_ts64, key_timestamp-encode_ts64}

abbrev pub IsChar : ℕ → Type 0
IsChar b = 0 < b

-- No NUL among the characters.
abbrev pub IsCstring : List ℕ → Type 0
IsCstring s = All IsChar s

skip_string-append :
    (s rest : List ℕ) (n m : ℕ)
    → IsCstring s
    → length s + suc n ≡ m
    → skip_string (s ++ (0 ∷ rest)) m ≡ ok (0 ∷ rest, suc n)
unfolding skip_string
skip_string-append s rest n zero h e = absurd (omega arith)
skip_string-append [] rest n (suc m) h e = ground arith
skip_string-append (b ∷ s) rest n (suc m) h e =
    rw (neq b h.0) (skip_string-append s rest n m h.1 (omega arith))
  where
    neq : (b : ℕ) → 0 < b → (b == 0) ≡ false
    neq b h = ground arith

-- Behind the qualifier.
load_tail-flag :
    (row qualifier tail : List ℕ) (family flag ts : ℕ)
    → ts < 2 ^ 64
    → load_tail row qualifier family (flag ∷ (encode_ts64 ts ++ tail)) 9
      ≡ ok (
          some (record {
            row = row;
            column_qualifier = qualifier;
            timestamp = ts;
            column_family_code = family;
            flag = flag;
            timestamp_ptr = encode_ts64 ts ++ tail;
            end_ptr = tail;
          }))
unfolding load_tail take_byte
load_tail-flag row qualifier tail family flag ts h = rw (decode_ts64-encode_ts64 ts tail h) refl

-- Behind the row.
load_qualifier-family :
    (row q tail : List ℕ) (family flag ts m : ℕ)
    → ts < 2 ^ 64
    → IsCstring q
    → m ≡ length q + 11
    → load_qualifier row (family ∷ (q ++ (0 ∷ flag ∷ (encode_ts64 ts ++ tail)))) m
      ≡ ok (
          some (record {
            row = row;
            column_qualifier = q ++ (0 ∷ flag ∷ (encode_ts64 ts ++ tail));
            timestamp = ts;
            column_family_code = family;
            flag = flag;
            timestamp_ptr = encode_ts64 ts ++ tail;
            end_ptr = tail;
          }))
unfolding load_qualifier take_byte
load_qualifier-family row q tail family flag ts m h hq e =
    rw (skip_string-append q (flag ∷ (encode_ts64 ts ++ tail)) 9 (m - 1) hq (omega arith))
      (load_tail-flag row _ tail family flag ts h)

-- The serialized key with the memory behind it.
write_key-append :
    (flag family ts : ℕ) (row tail : List ℕ) (qualifier : Option (List ℕ))
    → write_key flag row family qualifier ts ++ tail
      ≡ row ++ (0 ∷ family ∷ (qualifier_chars qualifier ++ (0 ∷ flag ∷ (encode_ts64 ts ++ tail))))
unfolding write_key
write_key-append flag family ts row tail qualifier =
    rw (key_timestamp-encode_ts64 ts, append_assoc, append_assoc) refl

-- The scan over the length and the row, and all behind them.
load-bytes :
    (ls row tail : List ℕ) (flag family ts : ℕ) (qualifier : Option (List ℕ))
    → ts < 2 ^ 64
    → IsCstring ls
    → IsCstring row
    → IsCstring (qualifier_chars qualifier)
    → decode_length (some (ls ++ (write_key flag row family qualifier ts ++ tail)))
      ≡ ok (key_length row qualifier, write_key flag row family qualifier ts ++ tail)
    → load (some (ls ++ (write_key flag row family qualifier ts ++ tail)))
      ≡ ok (
          some (record {
            row = write_key flag row family qualifier ts ++ tail;
            column_qualifier = qualifier_chars qualifier ++ (0 ∷ flag ∷ (encode_ts64 ts ++ tail));
            timestamp = ts;
            column_family_code = family;
            flag = flag;
            timestamp_ptr = encode_ts64 ts ++ tail;
            end_ptr = tail;
          }))
unfolding load deref
load-bytes ls row tail flag family ts qualifier h hl hr hq e =
    rw (e, scan, more)
      (load_qualifier-family _ (qualifier_chars qualifier) tail family flag ts _ h hq (omega arith))
  where
    more : leb (suc (length (qualifier_chars qualifier) + 11)) 1 ≡ false
    more = ground arith

    rest : List ℕ
    rest = family ∷ (qualifier_chars qualifier ++ (0 ∷ flag ∷ (encode_ts64 ts ++ tail)))

    scan :
        skip_string (ls ++ (write_key flag row family qualifier ts ++ tail)) (
          length (ls ++ (write_key flag row family qualifier ts ++ tail))
          - length (write_key flag row family qualifier ts ++ tail)
          + key_length row qualifier)
        ≡ ok (0 ∷ rest, suc (length (qualifier_chars qualifier) + 11))
    scan =
        rw
          (
            length-append ls (write_key flag row family qualifier ts ++ tail),
            write_key-append flag family ts row tail qualifier,
            ← append_assoc,
          )
          (skip_string-append (ls ++ row) rest (length (qualifier_chars qualifier) + 11) _
            (All-append IsChar ls row hl hr)
            (unfold key_length in omega (arith, length-append ls row)))

-- `Key::load` takes back what `create_key` packed, whatever stands behind the key in memory: its
-- pointers lead to the row and the qualifier, to the serialized timestamp and behind the key. The
-- row and the qualifier hold no NUL, the timestamp has 64 bits, and the length fits in 32.
pub load-create_key :
    (flag family ts : ℕ) (row b tail : List ℕ) (qualifier : Option (List ℕ))
    → IsCstring row
    → IsCstring (qualifier_chars qualifier)
    → ts < 2 ^ 64
    → key_length row qualifier < 2 ^ 32
    → create_key flag row family qualifier ts ≡ ok b
    → load (some (b ++ tail))
      ≡ ok (
          some (record {
            row = write_key flag row family qualifier ts ++ tail;
            column_qualifier = qualifier_chars qualifier ++ (0 ∷ flag ∷ (encode_ts64 ts ++ tail));
            timestamp = ts;
            column_family_code = family;
            flag = flag;
            timestamp_ptr = encode_ts64 ts ++ tail;
            end_ptr = tail;
          }))
unfolding create_key
load-create_key flag family ts row b tail qualifier hr hq h hn e =
    let (ls, written, e1) = >>=-eq-ok (encode_vi32 (key_length row qualifier)) _ e in
    let same : ls ++ write_key flag row family qualifier ts ≡ b = ok-injective e1 in
    let pos : 0 < key_length row qualifier = unfold key_length in omega arith in
    rw (← same, append_assoc)
      (load-bytes ls row tail flag family ts qualifier h (encode_vi32-pos _ ls pos hn written) hr hq
        (unfold decode_length deref in decode_vi32_ptr-encode_vi32 _ ls _ hn written))
