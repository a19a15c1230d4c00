-- ===== src/ByteString/RoundTrip.antt =====
-- A byte string that `append_as_byte_string` wrote, read by the operations.
use hypertable.Base.{
  ℕ, ◌+◌, ◌-◌, ◌^◌, ◌≤◌, ◌<◌, ◌≡◌, refl, List, [], ◌++◌, some, arith, length, append_assoc,
  length-append, drop-length-append, take-length-append, ap,
}
use hypertable.Serialization.{ok}
use hypertable.Serialization.Reading.{>>=-eq-ok, ok-injective}
use hypertable.Serialization.Vint.{encode_vi32, encoded_length_vi32}
use hypertable.Serialization.Vint.RoundTrip.{decode_vi32-encode_vi32}
use hypertable.Serialization.Strings.{read_at}
use hypertable.ByteString.{
  decode_vi32_ptr, deref, byte_length, next, decode_length, write, str, append_as_byte_string, less,
  equal,
}
use hypertable.ByteString.Order.{lex, is_lt, is_eq, memcmp-lex, equal_bytes-lex}

encoded_length-le : (v : ℕ) → encoded_length_vi32 v ≤ 5
unfolding encoded_length_vi32
encoded_length-le v = ground arith

-- The six bytes that a bare pointer is given are enough.
pub decode_vi32_ptr-encode_vi32 :
    (v : ℕ) (bs tail : List ℕ)
    → v < 2 ^ 32
    → encode_vi32 v ≡ ok bs
    → decode_vi32_ptr (bs ++ tail) ≡ ok (v, tail)
unfolding decode_vi32_ptr
decode_vi32_ptr-encode_vi32 v bs tail h e =
    let (ls, written, size, back) = decode_vi32-encode_vi32 v (6 - encoded_length_vi32 v) tail h in
    let same : ls ≡ bs = ok-injective (cc) in
    let six : length bs + (6 - encoded_length_vi32 v) ≡ 6 =
      omega (arith, encoded_length-le v, ap length same) in
    rw (← six, ← same) (rw back refl)

decode_length-append :
    (x b tail : List ℕ)
    → length x < 2 ^ 32
    → append_as_byte_string [] x ≡ ok b
    → decode_length (some (b ++ tail)) ≡ ok (length x, x ++ tail)
unfolding append_as_byte_string decode_length deref
decode_length-append x b tail h e =
    let (ls, written, e1) = >>=-eq-ok (encode_vi32 (length x)) _ e in
    let same : ls ++ x ≡ b = ok-injective e1 in
    rw (← same, append_assoc) (decode_vi32_ptr-encode_vi32 (length x) ls (x ++ tail) h written)

-- Of two byte strings that `append_as_byte_string` wrote, `operator<` tells whether the bytes of
-- the first come before those of the second in the lexicographic order, whatever stands behind
-- them in memory.
pub less-append :
    (x y b d p q : List ℕ)
    → length x < 2 ^ 32
    → length y < 2 ^ 32
    → append_as_byte_string [] x ≡ ok b
    → append_as_byte_string [] y ≡ ok d
    → less (some (b ++ p)) (some (d ++ q)) ≡ ok (is_lt (lex x y))
unfolding less
less-append x y b d p q hx hy ex ey =
    rw (decode_length-append x b p hx ex, decode_length-append y d q hy ey) (memcmp-lex x y p q)

-- `operator==` tells whether the bytes are the same.
pub equal-append :
    (x y b d p q : List ℕ)
    → length x < 2 ^ 32
    → length y < 2 ^ 32
    → append_as_byte_string [] x ≡ ok b
    → append_as_byte_string [] y ≡ ok d
    → equal (some (b ++ p)) (some (d ++ q)) ≡ ok (is_eq (lex x y))
unfolding equal
equal-append x y b d p q hx hy ex ey =
    rw (decode_length-append x b p hx ex, decode_length-append y d q hy ey)
      (equal_bytes-lex x y p q)

le-length-append : (x b : List ℕ) → append_as_byte_string [] x ≡ ok b → length x ≤ length b
unfolding append_as_byte_string
le-length-append x b e =
    let (ls, written, e1) = >>=-eq-ok (encode_vi32 (length x)) _ e in
    omega (arith, ap length (ok-injective e1), length-append ls x)

-- Behind a byte string that `append_as_byte_string` wrote stands the next one: `next` hands out the
-- old pointer and moves to what follows, `length` is the number of bytes written, `write` copies
-- these bytes, and `str` leads to the value.
pub next-append :
    (x b tail : List ℕ)
    → length x < 2 ^ 32
    → append_as_byte_string [] x ≡ ok b
    → (next (some (b ++ tail)) ≡ ok (b ++ tail, some tail))
      × (byte_length (some (b ++ tail)) ≡ ok (length b))
      × (write (some (b ++ tail)) ≡ ok b)
      × (str (some (b ++ tail)) ≡ ok (x ++ tail))
unfolding next byte_length write str deref read_at
next-append x b tail h e = (
  rw (read) (rw drop-length-append refl),
  size,
  rw (size, take-length-append) (ground (arith, length-append b tail)),
  rw (decode_length-append x b tail h e) refl,
)
  where
    read : decode_vi32_ptr (b ++ tail) ≡ ok (length x, x ++ tail)
    read = unfold decode_length deref in decode_length-append x b tail h e

    size : byte_length (some (b ++ tail)) ≡ ok (length b)
    size =
        rw read (
          ap ok (omega (arith, length-append b tail, length-append x tail, le-length-append x b e)))
