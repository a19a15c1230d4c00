-- ===== src/MergeScanner/Same.antt =====
-- The comparisons of `forward` with the key before.
use hypertable.Base.{
  ℕ, ◌+◌, ◌-◌, ◌<◌, ◌≡◌, ◌≢◌, inl, inr, refl, sym, ap, ◌∙◌, true, false, Bool-cases, List, [], ◌∷◌,
  ◌++◌, append_assoc, arith, ltb, ◌==◌, length, length-append, take, take-length-append, All,
}
use Prim.Native.Nat.{Ordering}
use mathlib.Core.Path.{subst}
use hypertable.ByteString.Order.{lex, lex-eq, lex-flip}
use hypertable.Key.{write_key, key_timestamp}
use hypertable.Key.RoundTrip.{IsCstring}
use hypertable.Deletes.{CellKey, key_bytes, key_compare, cell_bytes, same}
use hypertable.Deletes.Newest.{same-eq}
use hypertable.Deletes.Sorted.{IsCell, Follows, lex-cell_bytes}
use hypertable.MergeScanner.{first_string, same_row, same_cell}

first_string-cstring : (s rest : List ℕ) → IsCstring s → first_string (s ++ (0 ∷ rest)) ≡ s
unfolding first_string
first_string-cstring [] rest h = refl
first_string-cstring (b ∷ s) rest h =
    let n : (b == 0) ≡ false = ground (arith, h.0) in
    rw n (ap (λ t. b ∷ t) (first_string-cstring s rest h.1))

pub same_row-key_bytes : (k p : CellKey) → IsCell p → same_row k (key_bytes p) ≡ same k.row p.row
unfolding same_row key_bytes write_key
same_row-key_bytes k p c = rw (first_string-cstring p.row _ c.row) refl

key_bytes-cell_bytes :
    (k : CellKey) → key_bytes k ≡ cell_bytes k ++ (k.flag ∷ key_timestamp k.timestamp)
unfolding key_bytes cell_bytes write_key
key_bytes-cell_bytes k =
    let tail = k.flag ∷ key_timestamp k.timestamp in
    sym (
      append_assoc k.row (0 ∷ k.family ∷ (k.qualifier ++ (0 ∷ []))) tail
      ∙ ap (λ t. k.row ++ (0 ∷ k.family ∷ t)) (append_assoc k.qualifier (0 ∷ []) tail))

length-key_timestamp : (t : ℕ) → length (key_timestamp t) ≡ 8
unfolding key_timestamp
length-key_timestamp t = ground arith

pub length-key_bytes : (k : CellKey) → length (key_bytes k) ≡ length (cell_bytes k) + 9
length-key_bytes k =
    ap length (key_bytes-cell_bytes k)
    ∙ length-append (cell_bytes k) (k.flag ∷ key_timestamp k.timestamp)
    ∙ omega (arith, length-key_timestamp k.timestamp)

take-key_bytes : (k : CellKey) → take (length (key_bytes k) - 9) (key_bytes k) ≡ cell_bytes k
take-key_bytes k =
    let tail = k.flag ∷ key_timestamp k.timestamp in
    let n : length (key_bytes k) - 9 ≡ length (cell_bytes k) = omega (arith, length-key_bytes k) in
    rw (n, key_bytes-cell_bytes k) (take-length-append (cell_bytes k) tail)

length-cell_bytes : (k : CellKey) → 0 < length (cell_bytes k)
unfolding cell_bytes
length-cell_bytes k = omega (arith, length-append k.row (0 ∷ k.family ∷ (k.qualifier ++ (0 ∷ []))))

differ : (x y : List ℕ) → length x ≢ length y → same x y ≡ false
differ x y h = elim (Bool-cases (same x y)) [
  | inl e ↦ absurd (h (ap length (same-eq x y e)))
  | inr e ↦ e
]

pub same_cell-key_bytes :
    (k p : CellKey) → same_cell (key_bytes k) (key_bytes p) ≡ same (cell_bytes k) (cell_bytes p)
unfolding same_cell
same_cell-key_bytes k p = elim (Bool-cases (length (key_bytes k) == length (key_bytes p))) [
  | inl e ↦
      let lengths : length (key_bytes k) ≡ length (key_bytes p) = ground arith in
      let long : ltb 9 (length (key_bytes k)) ≡ true =
        ground (arith, length-key_bytes k, length-cell_bytes k) in
      let front : take (length (key_bytes k) - 9) (key_bytes p) ≡ cell_bytes p =
        rw lengths (take-key_bytes p) in
      rw (e, long, take-key_bytes k, front) refl
  | inr e ↦ rw e (
      sym (
        differ (cell_bytes k) (cell_bytes p)
          (ground (arith, length-key_bytes k, length-key_bytes p))))
]

-- Keys of the same cell have the same row and column family.
pub cell_bytes-row :
    (k p : CellKey)
    → IsCell k
    → IsCell p
    → same (cell_bytes k) (cell_bytes p) ≡ true
    → k.row ≡ p.row
unfolding same
cell_bytes-row k p a b h = lex-eq k.row p.row (ground (arith, lex-cell_bytes k p a b))

pub cell_bytes-family :
    (k p : CellKey)
    → IsCell k
    → IsCell p
    → same (cell_bytes k) (cell_bytes p) ≡ true
    → k.family ≡ p.family
unfolding same
cell_bytes-family k p a b h = ground (arith, lex-cell_bytes k p a b)

back :
    (x y z : List ℕ)
    → lex z y ≢ Ordering.gt
    → lex y x ≢ Ordering.gt
    → same x y ≡ false
    → same x z ≡ false
unfolding same
back x y z h k d = elim (Bool-cases (same x z)) [
  | inl e ↦ absurd (impossible x y (subst (λ z. lex z y ≢ Ordering.gt) (sym (same-eq x z e)) h) k d)
  | inr e ↦ e
]
  where
    impossible : (x y : List ℕ) → lex x y ≢ Ordering.gt → lex y x ≢ Ordering.gt → same x y ≢ false
    impossible x y h k d = ground (arith, lex-flip x y)

-- Of keys in order, one that has not the bytes of the last one has not those of any before.
pub All-apart_before :
    (bytes : CellKey → List ℕ)
    → Follows bytes
    → (h k : CellKey) (b : List CellKey) → IsCell h
    → IsCell k
    → All IsCell b
    → All (λ q. key_compare q h ≢ Ordering.gt) b
    → key_compare h k ≢ Ordering.gt
    → same (bytes k) (bytes h) ≡ false
    → All (λ q. same (bytes k) (bytes q) ≡ false) b
All-apart_before bytes f h k [] ih ik ib a o d = tt
All-apart_before bytes f h k (q ∷ b) ih ik ib a o d = (
  back (bytes k) (bytes h) (bytes q) (f q h ib.0 ih a.0) (f h k ih ik o) d,
  All-apart_before bytes f h k b ih ik ib.1 a.1 o d,
)
