-- ===== src/ScanContext/Cells.antt =====
-- The cells that a scan context takes in.
use hypertable.Base.{
  ℕ, ◌<◌, ◌%◌, ◌≡◌, ◌≢◌, refl, ◌∙◌, Bool, true, false, not, List, [], ◌∷◌, ◌++◌, arith, Option,
  some, ◌==◌, length, if◌then◌else◌, All, append_assoc,
}
use Prim.Native.Nat.{compare, Ordering}
use hypertable.ByteString.Order.{lex, then_by, is_lt}
use hypertable.Key.{write_key}
use hypertable.Key.RoundTrip.{IsCstring}
use hypertable.Key.Order.{lex-nul, lex-cons}
use hypertable.Deletes.{CellKey, key_bytes}
use hypertable.Deletes.Sorted.{IsCell}
use hypertable.CellCacheScanner.{row_bound}
use hypertable.Schema.{ColumnFamily, Schema, get_column_family}
use hypertable.ScanSpec.{CellInterval, ScanSpec}
use hypertable.ScanContext.Rows.{up_to, lex-nil}
use hypertable.ScanContext.{done, strchr, cell_bound, cell_start, cell_end, rows_of}

-- How a cell lies to a row, a column family and a qualifier.
abbrev pub cell_order : CellKey → List ℕ → ℕ → List ℕ → Ordering
cell_order k row family qualifier =
    then_by (lex k.row row) (then_by (compare k.family family) (lex k.qualifier qualifier))

-- The end of a key, behind its qualifier, and the end of a bound.
lex-bumped :
    (bumped : Bool) (q r rest : List ℕ)
    → IsCstring q
    → IsCstring r
    → is_lt (lex (q ++ (0 ∷ rest)) (r ++ ((if bumped then 1 ∷ [] else []) ++ (0 ∷ []))))
      ≡ up_to bumped (lex q r)
unfolding lex
lex-bumped true [] [] rest hq hr = refl
lex-bumped false [] [] rest hq hr = lex-nil rest
lex-bumped b [] (y ∷ r) rest hq hr = ground (arith, hr.0)
lex-bumped true (x ∷ []) [] rest hq hr = ground (arith, hq.0, lex-nil rest)
lex-bumped true (x ∷ w ∷ q) [] rest hq hr = ground (arith, hq.0, hq.1)
lex-bumped false (x ∷ q) [] rest hq hr = ground (arith, hq.0)
lex-bumped b (x ∷ q) (y ∷ r) rest hq hr = ground (arith, lex-bumped b q r rest hq.1 hr.1)

-- A lookup that finds a column family leaves the schema as it is.
pub get_column_family-state :
    (name : List ℕ) (s : Schema) (cf : ColumnFamily)
    → (get_column_family name s).0 ≡ some cf
    → (get_column_family name s).1 ≡ s
unfolding get_column_family
get_column_family-state name s cf e = ground arith

strchr-append :
    (name q : List ℕ) → All (λ c. c ≢ b':') name → strchr (name ++ (b':' ∷ q)) ≡ some (name, q)
unfolding strchr
strchr-append [] q h = refl
strchr-append (c ∷ name) q h = ground (arith, h.0, strchr-append name q h.1)

up_to-then_by :
    (b : Bool) (a o p : Ordering)
    → is_lt o ≡ up_to b p
    → is_lt (then_by a o) ≡ up_to b (then_by a p)
up_to-then_by b Ordering.lt o p h = refl
up_to-then_by b Ordering.eq o p h = h
up_to-then_by b Ordering.gt o p h = refl

cell_bound-done :
    (row name q : List ℕ) (bumped : Bool) (s : Schema) (cf : ColumnFamily)
    → All (λ c. c ≢ b':') name
    → (get_column_family name s).0 ≡ some cf
    → cell_bound (some row) (name ++ (b':' ∷ q)) bumped (some s)
      ≡ (done (row ++ (0 ∷ cf.id % 256 ∷ (q ++ (if bumped then 1 ∷ [] else [])))), some s)
unfolding cell_bound
cell_bound-done row name q bumped s cf hn e =
    rw (strchr-append name q hn, cell_bound)
      (rw (e, cell_bound) (rw (get_column_family-state name s cf e) refl))

-- A key lies before a bound from a cell as its cell lies before that cell, or is it where the bound is to
-- the next one.
cell_bound-exact :
    (row q : List ℕ) (bumped : Bool) (id : ℕ) (k : CellKey)
    → IsCstring row
    → IsCstring q
    → id < 256
    → IsCell k
    → is_lt (
        lex
          (key_bytes k)
          (row_bound (row ++ (0 ∷ id % 256 ∷ (q ++ (if bumped then 1 ∷ [] else []))))))
      ≡ up_to bumped (cell_order k row id q)
unfolding key_bytes write_key
cell_bound-exact row q bumped id k hr hq l c =
    let tail : List ℕ = if bumped then 1 ∷ [] else [] in
    let small : id % 256 ≡ id = omega (arith, l) in
    rw
      (
        small,
        append_assoc row (0 ∷ id ∷ (q ++ tail)) (0 ∷ []),
        append_assoc q tail (0 ∷ []),
        lex-nul k.row row _ _ c.row hr,
        lex-cons,
      )
      (up_to-then_by bumped (lex k.row row) _ _ (
        up_to-then_by bumped (compare k.family id) _ _
          (lex-bumped bumped k.qualifier q _ c.qualifier hq)))

-- A cell of the specification: its column is a family's name and a qualifier.
pub record Corner : Type 0 where
  pub row : List ℕ
  pub name : List ℕ
  pub qualifier : List ℕ
  pub family : ColumnFamily

-- Its strings hold no NUL, and the name is the one of the schema's column family.
pub record IsCorner (s : Schema) (c : Corner) : Type 0 where
  pub row : IsCstring c.row
  pub name : All (λ x. x ≢ b':') c.name
  pub qualifier : IsCstring c.qualifier
  pub found : (get_column_family c.name s).0 ≡ some c.family
  pub small : c.family.id < 256

abbrev pub column : Corner → List ℕ
column c = c.name ++ (b':' ∷ c.qualifier)

abbrev pub corner_order : CellKey → Corner → Ordering
corner_order k c = cell_order k c.row c.family.id c.qualifier

abbrev pub between : Corner → Bool → Corner → Bool → CellInterval
between a start_inclusive b end_inclusive = record {
  start_row = some a.row;
  start_column = some (column a);
  start_inclusive = start_inclusive;
  end_row = some b.row;
  end_column = some (column b);
  end_inclusive = end_inclusive;
}

column-not_empty : (c : Corner) → (length (column c) == 0) ≡ false
column-not_empty c = named c.name c.qualifier
  where
    named : (name q : List ℕ) → (length (name ++ (b':' ∷ q)) == 0) ≡ false
    named [] q = ground arith
    named (x ∷ name) q = ground arith

rows_of-cells :
    (spec : ScanSpec) (i : CellInterval) (is : List CellInterval) (o p q : Option Schema)
    (start end : List ℕ)
    → spec.row_intervals ≡ []
    → spec.cell_intervals ≡ i ∷ is
    → cell_start i o ≡ (done start, p)
    → cell_end i p ≡ (done end, q)
    → rows_of spec o ≡ (done (start, end), q)
unfolding rows_of
rows_of-cells spec i is o p q start end nr ci f l =
    rw (nr, rows_of) (rw (ci, rows_of) (rw (f, rows_of) (rw f (rw l (rw (f, l) refl)))))

cell_start-column :
    (a b : Corner) (start_inclusive end_inclusive : Bool) (o : Option Schema)
    → cell_start (between a start_inclusive b end_inclusive) o
      ≡ cell_bound (some a.row) (column a) (not start_inclusive) o
unfolding cell_start
cell_start-column a b start_inclusive end_inclusive o = rw (column-not_empty a) refl

cell_end-column :
    (a b : Corner) (start_inclusive end_inclusive : Bool) (o : Option Schema)
    → cell_end (between a start_inclusive b end_inclusive) o
      ≡ cell_bound (some b.row) (column b) end_inclusive o
unfolding cell_end
cell_end-column a b start_inclusive end_inclusive o = rw (column-not_empty b) refl

-- The bound from a corner.
abbrev pub bound_of : Corner → Bool → List ℕ
bound_of c bumped =
    c.row ++ (0 ∷ c.family.id % 256 ∷ (c.qualifier ++ (if bumped then 1 ∷ [] else [])))

pub bound_of-exact :
    (s : Schema) (c : Corner) (bumped : Bool) (k : CellKey)
    → IsCorner s c
    → IsCell k
    → is_lt (lex (key_bytes k) (row_bound (bound_of c bumped))) ≡ up_to bumped (corner_order k c)
bound_of-exact s c bumped k i l =
    cell_bound-exact c.row c.qualifier bumped c.family.id k i.row i.qualifier i.small l

pub rows_of-between :
    (spec : ScanSpec) (is : List CellInterval) (s : Schema) (a b : Corner)
    (start_inclusive end_inclusive : Bool)
    → spec.row_intervals ≡ []
    → spec.cell_intervals ≡ between a start_inclusive b end_inclusive ∷ is
    → IsCorner s a
    → IsCorner s b
    → rows_of spec (some s)
      ≡ (done (bound_of a (not start_inclusive), bound_of b end_inclusive), some s)
rows_of-between spec is s a b start_inclusive end_inclusive nr ci ia ib =
    rows_of-cells spec (between a start_inclusive b end_inclusive) is (some s) (some s) (some s)
      (bound_of a (not start_inclusive)) (bound_of b end_inclusive) nr ci
      (cell_start-column a b start_inclusive end_inclusive (some s)
        ∙ cell_bound-done a.row a.name a.qualifier (not start_inclusive) s a.family ia.name
            ia.found)
      (cell_end-column a b start_inclusive end_inclusive (some s)
        ∙ cell_bound-done b.row b.name b.qualifier end_inclusive s b.family ib.name ib.found)
