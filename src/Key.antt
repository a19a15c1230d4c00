-- ===== src/Key.antt =====
-- src/cc/Hypertable/Lib/Key.h and Key.cc: the serialized key of a cell.
-- A C string is the list of its characters. A qualifier of `none` is the null pointer.
pub mod RoundTrip
pub mod Order
pub mod Timestamp
mod Runs
use hypertable.Base.{
  ℕ, zero, suc, ◌+◌, ◌-◌, ◌*◌, ◌/◌, ◌%◌, ◌^◌, Bool, true, false, List, [], ◌∷◌, ◌++◌, Option, none,
  some, ltb, leb, ◌==◌, if◌then◌else◌, length,
}
use hypertable.Serialization.{Result, ok, err, fault, ◌>>=◌}
use hypertable.Serialization.Vint.{encode_vi32}
use hypertable.ByteString.{ByteString, deref, decode_length}

abbrev pub flag_delete_row : ℕ
flag_delete_row = 0x00

abbrev pub flag_delete_column_family : ℕ
flag_delete_column_family = 0x01

abbrev pub flag_delete_cell : ℕ
flag_delete_cell = 0x02

abbrev pub flag_insert : ℕ
flag_insert = 0xff

-- `~v` of a 64-bit value.
abbrev pub complement64 : ℕ → ℕ
complement64 v = 2 ^ 64 - 1 - v

-- `encode_ts64` on a little-endian machine: the complement, high byte first.
unfoldable pub encode_ts64 : ℕ → List ℕ
encode_ts64 val =
    let v = complement64 val in
    (v / 2 ^ 56 % 256)
    ∷ (v / 2 ^ 48 % 256)
    ∷ (v / 2 ^ 40 % 256)
    ∷ (v / 2 ^ 32 % 256)
    ∷ (v / 2 ^ 24 % 256)
    ∷ (v / 2 ^ 16 % 256)
    ∷ (v / 2 ^ 8 % 256)
    ∷ (v % 256)
    ∷ []

-- `decode_ts64`: the value, and the pointer behind it.
unfoldable pub decode_ts64 : List ℕ → Result (ℕ × List ℕ)
decode_ts64 (b7 ∷ b6 ∷ b5 ∷ b4 ∷ b3 ∷ b2 ∷ b1 ∷ b0 ∷ rest) = ok (
  complement64 (
      b7 * 2 ^ 56
      + b6 * 2 ^ 48
      + b5 * 2 ^ 40
      + b4 * 2 ^ 32
      + b3 * 2 ^ 24
      + b2 * 2 ^ 16
      + b1 * 2 ^ 8
      + b0),
  rest,
)
decode_ts64 mem = fault

-- The characters of the qualifier and its NUL, or the NUL alone.
abbrev pub qualifier_chars : Option (List ℕ) → List ℕ
qualifier_chars none = []
qualifier_chars (some q) = q

-- The timestamp in `write_key`: 0 is written as eight bytes 0xFF, another one as the bytes of its
-- complement from the last to the first.
unfoldable pub key_timestamp : ℕ → List ℕ
key_timestamp timestamp =
    if timestamp == 0
    then 0xff ∷ 0xff ∷ 0xff ∷ 0xff ∷ 0xff ∷ 0xff ∷ 0xff ∷ 0xff ∷ []
    else (let v = complement64 timestamp in
        (v / 2 ^ 56 % 256)
        ∷ (v / 2 ^ 48 % 256)
        ∷ (v / 2 ^ 40 % 256)
        ∷ (v / 2 ^ 32 % 256)
        ∷ (v / 2 ^ 24 % 256)
        ∷ (v / 2 ^ 16 % 256)
        ∷ (v / 2 ^ 8 % 256)
        ∷ (v % 256)
        ∷ [])

-- `write_key`: what the buffer receives.
unfoldable pub write_key : ℕ → List ℕ → ℕ → Option (List ℕ) → ℕ → List ℕ
write_key flag row family qualifier timestamp =
    row ++ (0 ∷ family ∷ (qualifier_chars qualifier ++ (0 ∷ flag ∷ key_timestamp timestamp)))

-- The length that `create_key` computes.
unfoldable pub key_length : List ℕ → Option (List ℕ) → ℕ
key_length row qualifier = length row + 4 + 8 + length (qualifier_chars qualifier)

unfoldable pub create_key : ℕ → List ℕ → ℕ → Option (List ℕ) → ℕ → Result (List ℕ)
create_key flag row family qualifier timestamp = do
  len ← encode_vi32 (key_length row qualifier)
  ok (len ++ write_key flag row family qualifier timestamp)

unfoldable pub create_key_and_append :
    List ℕ → ℕ → List ℕ → ℕ → Option (List ℕ) → ℕ → Result (List ℕ)
create_key_and_append buf flag row family qualifier timestamp = do
  len ← encode_vi32 (key_length row qualifier)
  ok (buf ++ (len ++ write_key flag row family qualifier timestamp))

-- `Key`, its pointers `row` and `column_qualifier` as the memory that they lead to, and
-- `timestamp_ptr` and `end_ptr` too.
pub record Key : Type 0 where
  pub row : List ℕ
  pub column_qualifier : List ℕ
  pub timestamp : ℕ
  pub column_family_code : ℕ
  pub flag : ℕ
  pub timestamp_ptr : List ℕ
  pub end_ptr : List ℕ

-- `while (ptr < endptr && *ptr != 0) ptr++`, with the distance to `endptr`.
unfoldable pub skip_string : List ℕ → ℕ → Result (List ℕ × ℕ)
skip_string mem zero = ok (mem, 0)
skip_string [] (suc left) = fault
skip_string (b ∷ bs) (suc left) =
    let rest = skip_string bs left in if b == 0 then ok (b ∷ bs, suc left) else rest

-- `*ptr++`.
unfoldable pub take_byte : List ℕ → Result (ℕ × List ℕ)
take_byte [] = fault
take_byte (b ∷ bs) = ok (b, bs)

-- `ptr++` without a read.
abbrev pub advance : List ℕ → List ℕ
advance [] = []
advance (b ∷ bs) = bs

-- The flag and the timestamp, where nine bytes are left.
unfoldable pub load_tail : List ℕ → List ℕ → ℕ → List ℕ → ℕ → Result (Option Key)
load_tail row qualifier family ptr left =
    if left == 9
    then (do
      (flag, ts_ptr) ← take_byte ptr
      (ts, end_ptr) ← decode_ts64 ts_ptr
      ok (
          some (record {
            row = row;
            column_qualifier = qualifier;
            timestamp = ts;
            column_family_code = family;
            flag = flag;
            timestamp_ptr = ts_ptr;
            end_ptr = end_ptr;
          })))
    else ok none

-- The family and the qualifier; `left` counts the bytes to `endptr`, at least one.
unfoldable pub load_qualifier : List ℕ → List ℕ → ℕ → Result (Option Key)
load_qualifier row ptr left = do
  (family, qualifier) ← take_byte ptr
  (nul, at) ← skip_string qualifier (left - 1)
  if leb at 1 then ok none else load_tail row qualifier family (advance nul) (at - 1)

-- `Key::load`; `none` is its `false`. The scan for the end of the row starts at the length.
unfoldable pub load : ByteString → Result (Option Key)
load key = do
  mem ← deref key
  (len, row) ← decode_length key
  (nul, at) ← skip_string mem (length mem - length row + len)
  if leb at 1 then ok none else load_qualifier row (advance nul) (at - 1)
