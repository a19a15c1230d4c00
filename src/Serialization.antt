-- ===== src/Serialization.antt =====
-- src/cc/Common/Serialization.h and serialization-c.h: a reader with its state and its exceptions.
-- A byte is a number below 256. `const uint8_t **bufp` and `size_t *remainp` are the two fields of
-- `Cursor`: the bytes from `*bufp` to the end of the memory that holds them, and the count.
-- The branch of the macros for a little-endian machine is the one modelled.
pub mod Reading
mod Runs
pub mod Fixed
pub mod Vint
pub mod Strings
pub mod Codec
use hypertable.Base.{ℕ, ◌+◌, ◌-◌, ◌≤◌, ◌≡◌, List, [], ◌∷◌, ltb, if◌then◌else◌, length}

pub data Error : Type 0 where
  input_overrun bad_vint bad_vstr unpossible compressor_truncated compressor_bad_header : Error

-- `fault` is a read outside the memory, which C++ leaves undefined.
pub data Result {ℓ} (A : Type ℓ) : Type ℓ where
  ok : A → Result A
  err : Error → Result A
  fault : Result A

infixl 5 ◌>>=◌
abbrev pub ◌>>=◌ {ℓ κ} : {A : Type ℓ} {C : Type κ} → Result A → (A → Result C) → Result C
fault >>= next = fault
err why >>= next = err why
ok value >>= next = next value

pub record Cursor : Type 0 where
  pub bytes : List ℕ
  pub remain : ℕ

-- A decoder returns its value and moves the cursor.
abbrev pub Decoder {ℓ} : Type ℓ → Type ℓ
Decoder A = Cursor → Result (A × Cursor)

-- The count promises no more bytes than the memory holds.
abbrev pub IsValid : Cursor → Type 0
IsValid c = c.remain ≤ length c.bytes

-- `c'` stands behind `c`: the count fell by as much as the pointer moved.
abbrev pub IsBehind : Cursor → Cursor → Type 0
IsBehind c c' = (c'.remain ≤ c.remain) × (length c.bytes + c'.remain ≡ length c'.bytes + c.remain)

-- No read outside the memory; a value meets `P`, and its cursor has moved on consistently.
abbrev pub Reads {ℓ} : {A : Type ℓ} → (A → Type 0) → Cursor → Result (A × Cursor) → Type 0
Reads P c (ok (a, c')) = IsBehind c c' × P a
Reads P c (err e) = Unit
Reads P c fault = ⊥

-- `HT_DECODE_NEED`.
unfoldable pub need : ℕ → Cursor → Result Cursor
need l c = if ltb c.remain l then err input_overrun else ok (record c { remain = c.remain - l })

-- `*(*bufp)++`.
unfoldable pub next_byte : Decoder ℕ
next_byte c = elim c.bytes [
  | [] ↦ fault
  | b ∷ bs ↦ ok (b, record { bytes = bs; remain = c.remain })
]
