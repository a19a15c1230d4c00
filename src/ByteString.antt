-- ===== src/ByteString.antt =====
-- src/cc/Common/ByteString.h: a pointer to bytes behind their length.
-- The pointer is the memory from there on, or `none` for the null pointer.
pub mod Order
pub mod RoundTrip
mod Runs
use hypertable.Base.{
  ℕ, zero, suc, ◌+◌, ◌-◌, Bool, true, false, not, List, [], ◌∷◌, ◌++◌, Option, none, some, ltb,
  ◌==◌, if◌then◌else◌, length, take, drop, min,
}
use Prim.Native.Nat.{compare, Ordering}
use hypertable.Serialization.{Result, ok, err, fault, ◌>>=◌}
use hypertable.Serialization.Vint.{encode_vi32, decode_vi32}
use hypertable.Serialization.Strings.{read_at}

-- `decode_vi32` of a bare pointer, which allows for six bytes.
unfoldable pub decode_vi32_ptr : List ℕ → Result (ℕ × List ℕ)
decode_vi32_ptr mem = do (v, c) ← decode_vi32 (record { bytes = mem; remain = 6 }); ok (v, c.bytes)

-- `ByteString`, with a read through the null pointer as a fault.
abbrev pub ByteString : Type 0
ByteString = Option (List ℕ)

unfoldable pub deref : ByteString → Result (List ℕ)
deref none = fault
deref (some mem) = ok mem

-- `length()`: the bytes of the length and those behind it.
unfoldable pub byte_length : ByteString → Result ℕ
byte_length none = ok 1
byte_length (some mem) = do (len, rest) ← decode_vi32_ptr mem; ok (length mem - length rest + len)

-- `next()`: the old pointer, and the byte string moved on.
unfoldable pub next : ByteString → Result (List ℕ × ByteString)
next s = do mem ← deref s; (len, rest) ← decode_vi32_ptr mem; ok (mem, some (drop len rest))

-- `decode_length`: the length, and the pointer behind it.
unfoldable pub decode_length : ByteString → Result (ℕ × List ℕ)
decode_length s = do mem ← deref s; decode_vi32_ptr mem

-- `str()`.
unfoldable pub str : ByteString → Result (List ℕ)
str s = do (len, rest) ← decode_length s; ok rest

-- `write`: what the destination receives.
unfoldable pub write : ByteString → Result (List ℕ)
write none = encode_vi32 0
write (some mem) = do n ← byte_length (some mem); read_at mem n

-- `append_as_byte_string`: what is added behind the pointer of the buffer, which is left at the end.
-- (The NUL behind it is not counted.)
unfoldable pub append_as_byte_string : List ℕ → List ℕ → Result (List ℕ)
append_as_byte_string buf value = do len ← encode_vi32 (length value); ok (buf ++ (len ++ value))

-- `memcmp`, by the sign of what it returns.
unfoldable pub memcmp : List ℕ → List ℕ → ℕ → Result Ordering
memcmp p q zero = ok Ordering.eq
memcmp (a ∷ p) (b ∷ q) (suc n) =
    let rest = memcmp p q n in
    if ltb a b then ok Ordering.lt else if ltb b a then ok Ordering.gt else rest
memcmp p q n = fault

-- `operator<`.
unfoldable pub less : ByteString → ByteString → Result Bool
less s t = do
  (len1, p1) ← decode_length s
  (len2, p2) ← decode_length t
  cmp ← memcmp p1 p2 (if ltb len1 len2 then len1 else len2)
  ok (elim cmp [ Ordering.lt ↦ true | Ordering.eq ↦ ltb len1 len2 | Ordering.gt ↦ false ])

unfoldable pub equal_bytes : List ℕ → List ℕ → ℕ → Result Bool
equal_bytes p q len = do
  cmp ← memcmp p q len
  ok (elim cmp [ Ordering.lt ↦ false | Ordering.eq ↦ true | Ordering.gt ↦ false ])

-- `operator==`.
unfoldable pub equal : ByteString → ByteString → Result Bool
equal s t = do
  (len1, p1) ← decode_length s
  (len2, p2) ← decode_length t
  if not (len1 == len2) then ok false else equal_bytes p1 p2 len1
