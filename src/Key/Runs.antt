-- ===== src/Key/Runs.antt =====
-- The theorems of keys at concrete inputs.
use hypertable.Base.{ℕ, ◌≡◌, refl, List, [], ◌∷◌, ◌++◌, none, some, arith}
use Prim.Native.Nat.{compare}
use hypertable.Serialization.{ok}
use hypertable.Serialization.Vint.{encode_vi32, encode_vint}
use hypertable.ByteString.Order.{lex, then_by}
use hypertable.Key.{
  create_key, key_length, write_key, load, encode_ts64, flag_insert, key_timestamp,
  flag_delete_cell,
}
use hypertable.Key.RoundTrip.{load-create_key}
use hypertable.Key.Order.{lex-write_key}

abbrev row : List ℕ
row = b'r' ∷ b'o' ∷ b'w' ∷ []

abbrev key_bytes : List ℕ
key_bytes =
    16 ∷ b'r' ∷ b'o' ∷ b'w' ∷ 0 ∷ 5 ∷ b'q' ∷ 0 ∷ 0xff ∷ 255 ∷ 255 ∷ 255 ∷ 255 ∷ 255 ∷ 255 ∷ 255
    ∷ 252 ∷ []

key_created : create_key flag_insert row 5 (some (b'q' ∷ [])) 3 ≡ ok key_bytes
unfolding create_key key_length write_key key_timestamp encode_vi32 encode_vint
key_created = refl

load-create_key_example :
    load (some (key_bytes ++ (9 ∷ [])))
    ≡ ok (
        some (record {
          row = write_key flag_insert row 5 (some (b'q' ∷ [])) 3 ++ (9 ∷ []);
          column_qualifier = (b'q' ∷ []) ++ (0 ∷ flag_insert ∷ (encode_ts64 3 ++ (9 ∷ [])));
          timestamp = 3;
          column_family_code = 5;
          flag = flag_insert;
          timestamp_ptr = encode_ts64 3 ++ (9 ∷ []);
          end_ptr = 9 ∷ [];
        }))
unfolding key_length
load-create_key_example =
    load-create_key flag_insert 5 3 row key_bytes (9 ∷ []) (some (b'q' ∷ [])) (omega arith)
      (omega arith) (omega arith) (omega arith) key_created

lex-write_key_example :
    lex (write_key flag_insert row 5 none 3) (write_key flag_delete_cell row 5 none 8)
    ≡ then_by (lex row row) (
        then_by
          (compare 5 5)
          (then_by (lex [] []) (then_by (compare flag_insert flag_delete_cell) (compare 8 3))))
lex-write_key_example =
    lex-write_key flag_insert flag_delete_cell 5 5 3 8 row row none none (omega arith) (omega arith)
      tt tt (omega arith) (omega arith)
