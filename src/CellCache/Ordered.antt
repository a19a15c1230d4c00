-- ===== src/CellCache/Ordered.antt =====
-- What an insertion into the map keeps.
use hypertable.Base.{
  ℕ, ◌+◌, ◌≡◌, ◌⊎◌, inl, inr, refl, ◌∙◌, List, [], ◌∷◌, some, Option-cases, arith, All,
}
use Prim.Native.Nat.{Ordering}
use hypertable.ByteString.Order.{lex-flip, lex_trans}
use hypertable.Deletes.{CellKey, key_bytes, key_compare}
use hypertable.Deletes.Sorted.{IsCell, Ascending}
use hypertable.CellCache.{Entry, map_insert}
use hypertable.CellCache.Purge.{keys, IsMap}

module _ (f : Entry → ℕ) where
  unfoldable pub sum_of : List Entry → ℕ
  sum_of [] = 0
  sum_of (e ∷ es) = f e + sum_of es

  pub sum-map_insert :
      (e : Entry) (es m : List Entry) → map_insert e es ≡ some m → sum_of m ≡ f e + sum_of es
  unfolding map_insert sum_of
  sum-map_insert e [] m h = ground arith
  sum-map_insert e (x ∷ xs) m h = elim (Option-cases (map_insert e xs)) [
    | inl n ↦ ground (arith, n)
    | inr (r, q) ↦ ground (arith, q, sum-map_insert e xs r q)
  ]

key_compare-flip : (k q : CellKey) → key_compare k q ≡ Ordering.gt → key_compare q k ≡ Ordering.lt
unfolding key_compare
key_compare-flip k q h = lex-flip (key_bytes k) (key_bytes q) ∙ rw h refl

key_compare_trans :
    (k q r : CellKey)
    → key_compare k q ≡ Ordering.lt
    → key_compare q r ≡ Ordering.lt
    → key_compare k r ≡ Ordering.lt
unfolding key_compare
key_compare_trans k q r h i = lex_trans (key_bytes k) (key_bytes q) (key_bytes r) h i

All-before :
    (k q : CellKey) (ks : List CellKey)
    → key_compare k q ≡ Ordering.lt
    → All (λ r. key_compare q r ≡ Ordering.lt) ks
    → All (λ r. key_compare k r ≡ Ordering.lt) ks
All-before k q [] h a = tt
All-before k q (r ∷ rs) h a = (key_compare_trans k q r h a.0, All-before k q rs h a.1)

-- The three ways of an insertion.
data Inserted (e : Entry) (x : Entry) (xs : List Entry) (m : List Entry) : Type 0 where
  behind :
      (r : List Entry)
      → key_compare x.key e.key ≡ Ordering.lt
      → map_insert e xs ≡ some r
      → m ≡ x ∷ r
      → Inserted e x xs m
  front : key_compare x.key e.key ≡ Ordering.gt → m ≡ e ∷ x ∷ xs → Inserted e x xs m

compare-cases : (o : Ordering) → (o ≡ Ordering.lt) ⊎ ((o ≡ Ordering.eq) ⊎ (o ≡ Ordering.gt))
compare-cases Ordering.lt = inl refl
compare-cases Ordering.eq = inr (inl refl)
compare-cases Ordering.gt = inr (inr refl)

map_insert-cases :
    (e x : Entry) (xs m : List Entry) → map_insert e (x ∷ xs) ≡ some m → Inserted e x xs m
unfolding map_insert
map_insert-cases e x xs m h = elim (compare-cases (key_compare x.key e.key)) [
  | inl l ↦ elim (Option-cases (map_insert e xs)) [
    | inl n ↦ absurd (ground arith)
    | inr (r, q) ↦ behind r l q (ground arith)
  ]
  | inr (inl l) ↦ absurd (ground arith)
  | inr (inr l) ↦ front l (ground arith)
]

map_insert-nil : (e : Entry) (m : List Entry) → map_insert e [] ≡ some m → m ≡ e ∷ []
unfolding map_insert
map_insert-nil e m h = ground arith

All-map_insert :
    (P : CellKey → Type 0) (e : Entry) (es m : List Entry)
    → map_insert e es ≡ some m
    → P e.key
    → All P (keys es)
    → All P (keys m)
All-map_insert P e [] m h p a = rw (map_insert-nil e m h) (p, tt)
All-map_insert P e (x ∷ xs) m h p a = elim (map_insert-cases e x xs m h) [
  | behind r l q i ↦ rw i (a.0, All-map_insert P e xs r q p a.1)
  | front l i ↦ rw i (p, a)
]

Ascending-map_insert :
    (e : Entry) (es m : List Entry)
    → map_insert e es ≡ some m
    → Ascending (keys es)
    → Ascending (keys m)
unfolding Ascending
Ascending-map_insert e [] m h a = rw (map_insert-nil e m h) (tt, tt)
Ascending-map_insert e (x ∷ xs) m h a = elim (map_insert-cases e x xs m h) [
  | behind r l q i ↦ rw i (
    All-map_insert (λ k. key_compare x.key k ≡ Ordering.lt) e xs r q l a.0,
    Ascending-map_insert e xs r q a.1,
  )
  | front l i ↦
      let before = key_compare-flip x.key e.key l in
      rw i ((before, All-before e.key x.key (keys xs) before a.0), a)
]

pub IsMap-map_insert :
    (e : Entry) (es m : List Entry) → map_insert e es ≡ some m → IsCell e.key → IsMap es → IsMap m
IsMap-map_insert e es m h c i = record {
  ascending = Ascending-map_insert e es m h i.ascending;
  cells = All-map_insert IsCell e es m h c i.cells;
}
