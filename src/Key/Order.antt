-- ===== src/Key/Order.antt =====
-- Keys compare as bytes in the order of their components.
use hypertable.Base.{ℕ, ◌<◌, ◌^◌, ◌≡◌, refl, List, [], ◌∷◌, ◌++◌, arith, Option}
use Prim.Native.Nat.{compare}
use hypertable.ByteString.Order.{lex, then_by}
use hypertable.Key.{write_key, qualifier_chars}
use hypertable.Key.Timestamp.{lex-encode_ts64, key_timestamp-encode_ts64}
use hypertable.Key.RoundTrip.{IsCstring}

-- The first string of each, then the rest.
pub lex-nul :
    (s t p q : List ℕ)
    → IsCstring s
    → IsCstring t
    → lex (s ++ (0 ∷ p)) (t ++ (0 ∷ q)) ≡ then_by (lex s t) (lex p q)
unfolding lex
lex-nul [] [] p q hs ht = refl
lex-nul [] (y ∷ t) p q hs ht = ground arith
lex-nul (x ∷ s) [] p q hs ht = ground arith
lex-nul (x ∷ s) (y ∷ t) p q hs ht = ground (arith, lex-nul s t p q hs.1 ht.1)

pub lex-cons : (x y : ℕ) (p q : List ℕ) → lex (x ∷ p) (y ∷ q) ≡ then_by (compare x y) (lex p q)
unfolding lex
lex-cons x y p q = refl

-- The serialized keys compare as bytes (as `operator<` of byte strings does) by the row, the column
-- family, the qualifier, the flag, and at last by the timestamp, of which the later comes first.
pub lex-write_key :
    (flag flag' family family' ts ts' : ℕ) (row row' : List ℕ)
    (qualifier qualifier' : Option (List ℕ))
    → IsCstring row
    → IsCstring row'
    → IsCstring (qualifier_chars qualifier)
    → IsCstring (qualifier_chars qualifier')
    → ts < 2 ^ 64
    → ts' < 2 ^ 64
    → lex (write_key flag row family qualifier ts) (write_key flag' row' family' qualifier' ts')
      ≡ then_by (lex row row') (
          then_by (compare family family') (
            then_by
              (lex (qualifier_chars qualifier) (qualifier_chars qualifier'))
              (then_by (compare flag flag') (compare ts' ts))))
unfolding write_key
lex-write_key flag flag' family family' ts ts' row row' qualifier qualifier' hr hr' hq hq' ht ht' =
    rw
      (
        key_timestamp-encode_ts64 ts,
        key_timestamp-encode_ts64 ts',
        lex-nul row row' _ _ hr hr',
        lex-cons,
        lex-nul (qualifier_chars qualifier) (qualifier_chars qualifier') _ _ hq hq',
        lex-cons,
        lex-encode_ts64 ts ts' ht ht',
      )
      refl
