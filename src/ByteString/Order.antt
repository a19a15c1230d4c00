-- ===== src/ByteString/Order.antt =====
-- The order of byte strings: the first byte that differs decides, and a prefix comes first.
use hypertable.Base.{
  ℕ, ◌≡◌, refl, Bool, true, false, List, [], ◌∷◌, ◌++◌, arith, ltb, if◌then◌else◌, length, not,
  ◌==◌,
}
use Prim.Native.Nat.{compare, Ordering}
use hypertable.Serialization.{ok, ◌>>=◌}
use hypertable.ByteString.{memcmp, equal_bytes}

-- The first comparison that decides.
abbrev pub then_by : Ordering → Ordering → Ordering
then_by Ordering.lt o = Ordering.lt
then_by Ordering.eq o = o
then_by Ordering.gt o = Ordering.gt

abbrev pub flip : Ordering → Ordering
flip Ordering.lt = Ordering.gt
flip Ordering.eq = Ordering.eq
flip Ordering.gt = Ordering.lt

unfoldable pub lex : List ℕ → List ℕ → Ordering
lex [] [] = Ordering.eq
lex [] (y ∷ ys) = Ordering.lt
lex (x ∷ xs) [] = Ordering.gt
lex (x ∷ xs) (y ∷ ys) = then_by (compare x y) (lex xs ys)

abbrev pub is_lt : Ordering → Bool
is_lt Ordering.lt = true
is_lt Ordering.eq = false
is_lt Ordering.gt = false

pub lex-flip : (xs ys : List ℕ) → lex ys xs ≡ flip (lex xs ys)
unfolding lex
lex-flip [] [] = refl
lex-flip [] (y ∷ ys) = refl
lex-flip (x ∷ xs) [] = refl
lex-flip (x ∷ xs) (y ∷ ys) = ground (arith, lex-flip xs ys)

pub lex_refl : (xs : List ℕ) → lex xs xs ≡ Ordering.eq
unfolding lex
lex_refl [] = refl
lex_refl (x ∷ xs) = ground (arith, lex_refl xs)

pub lex-eq : (xs ys : List ℕ) → lex xs ys ≡ Ordering.eq → xs ≡ ys
unfolding lex
lex-eq [] [] e = refl
lex-eq [] (y ∷ ys) e = cc
lex-eq (x ∷ xs) [] e = cc
lex-eq (x ∷ xs) (y ∷ ys) e = ground (arith, lex-eq xs ys)

pub lex_trans :
    (xs ys zs : List ℕ)
    → lex xs ys ≡ Ordering.lt
    → lex ys zs ≡ Ordering.lt
    → lex xs zs ≡ Ordering.lt
unfolding lex
lex_trans [] [] zs h k = cc
lex_trans [] (y ∷ ys) [] h k = cc
lex_trans [] (y ∷ ys) (z ∷ zs) h k = refl
lex_trans (x ∷ xs) [] zs h k = cc
lex_trans (x ∷ xs) (y ∷ ys) [] h k = cc
lex_trans (x ∷ xs) (y ∷ ys) (z ∷ zs) h k = ground (arith, lex_trans xs ys zs)

-- What `operator<` does behind the two lengths.
pub memcmp-lex :
    (xs ys p q : List ℕ)
    → (memcmp (xs ++ p) (ys ++ q) (if ltb (length xs) (length ys) then length xs else length ys)
        >>= λ cmp. ok (elim cmp [
          | Ordering.lt ↦ true
          | Ordering.eq ↦ ltb (length xs) (length ys)
          | Ordering.gt ↦ false
        ]))
      ≡ ok (is_lt (lex xs ys))
unfolding memcmp lex
memcmp-lex [] [] p q = refl
memcmp-lex [] (y ∷ ys) p q = ground arith
memcmp-lex (x ∷ xs) [] p q = ground arith
memcmp-lex (x ∷ xs) (y ∷ ys) p q = ground (arith, memcmp-lex xs ys p q)

abbrev pub is_eq : Ordering → Bool
is_eq Ordering.lt = false
is_eq Ordering.eq = true
is_eq Ordering.gt = false

-- What `operator==` does behind the two lengths.
pub equal_bytes-lex :
    (xs ys p q : List ℕ)
    → (if not (length xs == length ys)
        then ok false
        else equal_bytes (xs ++ p) (ys ++ q) (length xs))
      ≡ ok (is_eq (lex xs ys))
unfolding equal_bytes memcmp lex
equal_bytes-lex [] [] p q = refl
equal_bytes-lex [] (y ∷ ys) p q = ground arith
equal_bytes-lex (x ∷ xs) [] p q = ground arith
equal_bytes-lex (x ∷ xs) (y ∷ ys) p q = ground (arith, equal_bytes-lex xs ys p q)
