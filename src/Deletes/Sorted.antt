-- ===== src/Deletes/Sorted.antt =====
-- Cells in the order of their keys stand in groups.
use hypertable.Base.{
  ℕ, ◌≡◌, ◌≢◌, inl, inr, refl, false, Bool-cases, List, [], ◌∷◌, ◌++◌, arith, All,
}
use Prim.Native.Nat.{compare, Ordering}
use hypertable.ByteString.Order.{lex, then_by, is_eq, lex-flip, lex-eq}
use hypertable.Key.{write_key, key_timestamp}
use hypertable.Key.RoundTrip.{IsCstring}
use hypertable.Key.Order.{lex-nul, lex-cons}
use hypertable.Deletes.{CellKey, key_bytes, key_compare, row_bytes, family_bytes, cell_bytes, same}
use hypertable.Deletes.Newest.{Leads, Groups}
use hypertable.Deletes.Check.{IsGrouped}

-- No NUL in the row or in the qualifier.
pub record IsCell (k : CellKey) : Type 0 where
  pub row : IsCstring k.row
  pub qualifier : IsCstring k.qualifier

-- No key lies behind one that comes later.
unfoldable pub InOrder : List CellKey → Type 0
InOrder [] = Unit
InOrder (k ∷ ks) = All (λ q. key_compare k q ≢ Ordering.gt) ks × InOrder ks

-- Each key lies before the ones behind it.
unfoldable pub Ascending : List CellKey → Type 0
Ascending [] = Unit
Ascending (k ∷ ks) = All (λ q. key_compare k q ≡ Ordering.lt) ks × Ascending ks

module _ (k q : CellKey) (a : IsCell k) (b : IsCell q) where
  lex-tail :
      (p r : List ℕ)
      → lex
          (k.row ++ (0 ∷ k.family ∷ (k.qualifier ++ (0 ∷ p))))
          (q.row ++ (0 ∷ q.family ∷ (q.qualifier ++ (0 ∷ r))))
        ≡ then_by
            (lex k.row q.row)
            (then_by (compare k.family q.family) (then_by (lex k.qualifier q.qualifier) (lex p r)))
  lex-tail p r =
      rw
        (
          lex-nul k.row q.row _ _ a.row b.row,
          lex-cons,
          lex-nul k.qualifier q.qualifier _ _ a.qualifier b.qualifier,
        )
        refl

  lex-row_bytes : lex (row_bytes k) (row_bytes q) ≡ then_by (lex k.row q.row) Ordering.eq
  unfolding row_bytes lex
  lex-row_bytes = lex-nul k.row q.row [] [] a.row b.row

  lex-family_bytes :
      lex (family_bytes k) (family_bytes q)
      ≡ then_by (lex k.row q.row) (then_by (compare k.family q.family) Ordering.eq)
  unfolding family_bytes lex
  lex-family_bytes = lex-nul k.row q.row (k.family ∷ []) (q.family ∷ []) a.row b.row

  pub lex-cell_bytes :
      lex (cell_bytes k) (cell_bytes q)
      ≡ then_by
          (lex k.row q.row)
          (then_by (compare k.family q.family) (then_by (lex k.qualifier q.qualifier) Ordering.eq))
  unfolding cell_bytes lex
  lex-cell_bytes = lex-tail [] []

  -- The components that come first decide first.
  key_compare-lex :
      key_compare k q
      ≡ then_by (lex k.row q.row) (
          then_by (compare k.family q.family) (
            then_by
              (lex k.qualifier q.qualifier)
              (lex (k.flag ∷ key_timestamp k.timestamp) (q.flag ∷ key_timestamp q.timestamp))))
  unfolding key_compare key_bytes write_key
  key_compare-lex = lex-tail _ _

-- Keys in order do not have these bytes the other way round.
abbrev pub Follows : (CellKey → List ℕ) → Type 0
Follows bytes =
    (k q : CellKey)
    → IsCell k
    → IsCell q
    → key_compare k q ≢ Ordering.gt
    → lex (bytes k) (bytes q) ≢ Ordering.gt

pub Follows-name : Follows (λ k. k.row)
Follows-name k q a b h = ground (arith, key_compare-lex k q a b)

Follows-row : Follows row_bytes
Follows-row k q a b h = ground (arith, key_compare-lex k q a b, lex-row_bytes k q a b)

Follows-family : Follows family_bytes
Follows-family k q a b h = ground (arith, key_compare-lex k q a b, lex-family_bytes k q a b)

pub Follows-cell : Follows cell_bytes
Follows-cell k q a b h = ground (arith, key_compare-lex k q a b, lex-cell_bytes k q a b)

pub between :
    (a b c : List ℕ)
    → lex a b ≢ Ordering.gt
    → lex b c ≢ Ordering.gt
    → same a b ≡ false
    → same a c ≡ false
unfolding same
between a b c h k e = elim (Bool-cases (is_eq (lex a c))) [
  | inl s ↦
      let e1 : a ≡ c = lex-eq a c (ground arith) in
      let k1 : lex b a ≢ Ordering.gt = rw e1 k in ground (arith, lex-flip a b)
  | inr s ↦ s
]

module _ (bytes : CellKey → List ℕ) (flag : ℕ) (follows : Follows bytes) where
  apart-All :
      (k q : CellKey) (qs : List CellKey)
      → IsCell k
      → IsCell q
      → All IsCell qs
      → key_compare k q ≢ Ordering.gt
      → All (λ r. key_compare q r ≢ Ordering.gt) qs
      → same (bytes k) (bytes q) ≡ false
      → All (λ r. same (bytes k) (bytes r) ≡ false) qs
  apart-All k q [] a b c h hs e = tt
  apart-All k q (r ∷ rs) a b c h hs e = (
    between (bytes k) (bytes q) (bytes r) (follows k q a b h) (follows q r b c.0 hs.0) e,
    apart-All k q rs a b c.1 h hs.1 e,
  )

  Leads-InOrder :
      (k : CellKey) (ks : List CellKey)
      → IsCell k
      → All IsCell ks
      → All (λ q. key_compare k q ≢ Ordering.gt) ks
      → InOrder ks
      → Leads bytes flag (bytes k) ks
  unfolding Leads InOrder
  Leads-InOrder k [] a c h s = tt
  Leads-InOrder k (q ∷ qs) a c h s =
      (apart-All k q qs a c.0 c.1 h.0 s.0, Leads-InOrder k qs a c.1 h.1 s.1)

  Groups-InOrder : (ks : List CellKey) → All IsCell ks → InOrder ks → Groups bytes flag ks
  unfolding Groups InOrder
  Groups-InOrder [] c s = tt
  Groups-InOrder (k ∷ ks) c s = (Leads-InOrder k ks c.0 c.1 s.0 s.1, Groups-InOrder ks c.1 s.1)

pub InOrder-IsGrouped : (ks : List CellKey) → All IsCell ks → InOrder ks → IsGrouped ks
InOrder-IsGrouped ks c s = record {
  rows = Groups-InOrder row_bytes 0 Follows-row ks c s;
  families = Groups-InOrder family_bytes 1 Follows-family ks c s;
  cells = Groups-InOrder cell_bytes 2 Follows-cell ks c s;
}

All-not_gt :
    (k : CellKey) (qs : List CellKey)
    → All (λ q. key_compare k q ≡ Ordering.lt) qs
    → All (λ q. key_compare k q ≢ Ordering.gt) qs
All-not_gt k [] h = tt
All-not_gt k (q ∷ qs) h = (λ e. ground (arith, h.0), All-not_gt k qs h.1)

Ascending-InOrder : (ks : List CellKey) → Ascending ks → InOrder ks
unfolding Ascending InOrder
Ascending-InOrder [] s = tt
Ascending-InOrder (k ∷ ks) s = (All-not_gt k ks s.0, Ascending-InOrder ks s.1)

pub Ascending-IsGrouped : (ks : List CellKey) → All IsCell ks → Ascending ks → IsGrouped ks
Ascending-IsGrouped ks c s = InOrder-IsGrouped ks c (Ascending-InOrder ks s)
