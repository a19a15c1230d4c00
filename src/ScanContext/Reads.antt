-- ===== src/ScanContext/Reads.antt =====
-- A scan of a cell cache between two cells, from its specification on.
use hypertable.Base.{
  ℕ, ◌<◌, ◌≤◌, ◌≡◌, ◌≢◌, refl, ◌∙◌, Bool, not, ◌&&◌, ◌||◌, List, [], ◌∷◌, arith, Option, some, ◌==◌,
  length, if◌then◌else◌, All,
}
use Prim.Native.Nat.{Ordering}
use hypertable.ByteString.Order.{lex}
use hypertable.Key.{flag_delete_row}
use hypertable.Deletes.{CellKey}
use hypertable.CellCache.{Entry, CellCache}
use hypertable.CellCache.Purge.{IsMap}
use hypertable.CellCacheScanner.{row_bound, passes, create_scanner, read_cells}
use hypertable.CellCacheScanner.Bounds.{given, tail-IsMap, read_cells-given}
use hypertable.Schema.{ColumnFamily, Schema}
use hypertable.ScanSpec.{CellInterval, ScanSpec}
use hypertable.ScanContext.{
  Outcome, done, failed, bad_scan_spec, Context, Filters, initialize, filters_of, rows_of,
  checked_rows, interval_of,
}
use hypertable.ScanContext.Rows.{up_to}
use hypertable.ScanContext.Cells.{
  Corner, IsCorner, corner_order, between, bound_of, bound_of-exact, rows_of-between,
}
use hypertable.ScanContext.Families.{takes_id}
use hypertable.ScanContext.Asked.{Asked, filters_of-Asked}

abbrev pub scan_of : List ℕ → List ℕ → Filters → hypertable.CellCacheScanner.ScanContext
scan_of start end fs = record { start_row = start; end_row = end; family_mask = fs.family_mask }

-- The members that the scanner of a cell cache reads.
abbrev pub scanned : Context → hypertable.CellCacheScanner.ScanContext
scanned ctx = scan_of ctx.start_row ctx.end_row ctx.filters

-- The check of the rows, by how they compare.
abbrev checked : List ℕ × List ℕ → Ordering → Outcome (List ℕ × List ℕ)
checked rows Ordering.lt = done rows
checked rows Ordering.eq = done rows
checked rows Ordering.gt = failed bad_scan_spec

checked-first :
    (rows : List ℕ × List ℕ) (schema : Option Schema) (o : Ordering)
    → (elim o as (λ x. Outcome (List ℕ × List ℕ) × Option Schema) [
      | Ordering.lt ↦ (done rows, schema)
      | Ordering.eq ↦ (done rows, schema)
      | Ordering.gt ↦ (failed bad_scan_spec, schema)
    ]).0
      ≡ checked rows o
checked-first rows schema Ordering.lt = refl
checked-first rows schema Ordering.eq = refl
checked-first rows schema Ordering.gt = refl

checked_rows-checked :
    (spec : ScanSpec) (s : Schema) (start end : List ℕ)
    → rows_of spec (some s) ≡ (done (start, end), some s)
    → (checked_rows (some spec) (some s)).0 ≡ checked (start, end) (lex start end)
unfolding checked_rows
checked_rows-checked spec s start end r =
    rw (r, checked_rows) (checked-first (start, end) (rows_of spec (some s)).1 (lex start end))

-- What initialize puts together, once the tables are there.
built : List ℕ × List ℕ → ℕ × ℕ → Filters → Ordering → Outcome Context
built rows interval fs Ordering.gt = failed bad_scan_spec
built rows interval fs Ordering.lt =
    done (record { start_row = rows.0; end_row = rows.1; interval = interval; filters = fs })
built rows interval fs Ordering.eq =
    done (record { start_row = rows.0; end_row = rows.1; interval = interval; filters = fs })

built-first :
    (rows : List ℕ × List ℕ) (interval : ℕ × ℕ) (fs : Filters) (schema : Option Schema)
    (o : Ordering)
    → (elim (checked rows o) as (λ x. Outcome Context × Option Schema) [
      | done rows ↦ (
        done (record { start_row = rows.0; end_row = rows.1; interval = interval; filters = fs }),
        schema,
      )
      | failed e ↦ (failed e, schema)
    ]).0
      ≡ built rows interval fs o
unfolding built
built-first rows interval fs schema Ordering.lt = refl
built-first rows interval fs schema Ordering.eq = refl
built-first rows interval fs schema Ordering.gt = refl

built-done :
    (rows : List ℕ × List ℕ) (interval : ℕ × ℕ) (fs : Filters) (o : Ordering)
    → o ≢ Ordering.gt
    → built rows interval fs o
      ≡ done (record { start_row = rows.0; end_row = rows.1; interval = interval; filters = fs })
unfolding built
built-done rows interval fs Ordering.lt h = refl
built-done rows interval fs Ordering.eq h = refl
built-done rows interval fs Ordering.gt h = absurd (h refl)

initialize-built :
    (ts : ℕ) (spec : ScanSpec) (s : Schema) (fs : Filters) (start end : List ℕ)
    → filters_of ts (some spec) (some s) ≡ (done fs, some s)
    → rows_of spec (some s) ≡ (done (start, end), some s)
    → (initialize ts (some spec) (some s)).0
      ≡ built (start, end) (interval_of ts (some spec)) fs (lex start end)
unfolding initialize
initialize-built ts spec s fs start end f r =
    rw (f, initialize)
      (rw f (
        rw (checked_rows-checked spec s start end r) (
          built-first (start, end) (interval_of ts (some spec)) fs
            (checked_rows (some spec) (filters_of ts (some spec) (some s)).1).1 (lex start end))))

-- A cell of the interval, of a column family that is asked for, or in it the delete of a row.
abbrev pub is_asked : Corner → Bool → Corner → Bool → Bool → List ColumnFamily → CellKey → Bool
is_asked a start_inclusive b end_inclusive everything cfs k =
    not (up_to (not start_inclusive) (corner_order k a))
    && up_to end_inclusive (corner_order k b)
    && ((k.flag == flag_delete_row) || (takes_id k.family cfs || ((k.family == 0) && everything)))

unfoldable pub all_asked : (CellKey → Bool) → List Entry → List Entry
all_asked asked [] = []
all_asked asked (e ∷ es) = let rest = all_asked asked es in if asked e.key then e ∷ rest else rest

given-all_asked :
    (s : Schema) (a b : Corner) (start_inclusive end_inclusive everything : Bool)
    (cfs : List ColumnFamily) (fs : Filters) (es : List Entry)
    → IsCorner s a
    → IsCorner s b
    → ((f : ℕ) → fs.family_mask f ≡ (takes_id f cfs || ((f == 0) && everything)))
    → IsMap es
    → given (scan_of (bound_of a (not start_inclusive)) (bound_of b end_inclusive) fs) es
      ≡ all_asked (is_asked a start_inclusive b end_inclusive everything cfs) es
unfolding given all_asked passes
given-all_asked s a b si ei everything cfs fs [] ia ib h m = refl
given-all_asked s a b si ei everything cfs fs (e ∷ es) ia ib h m =
    rw
      (
        bound_of-exact s a (not si) e.key ia m.cells.0,
        bound_of-exact s b ei e.key ib m.cells.0,
        h e.key.family,
        given-all_asked s a b si ei everything cfs fs es ia ib h (tail-IsMap e es m),
      )
      (ground arith)

-- For a specification with a cell interval between two cells of the schema's columns, the bound of its start not
-- behind that of its end, and with no row interval, for column families with ids below 256, and none
-- of them 0 where no columns are named, initialize makes
-- a context. With that a scanner gives from the map of a cell cache, which is in order, the cells that are not
-- before the interval's start, nor the start if that is left out, and before its end, or the end if that is
-- included, and whose families are asked for, or are the 0 where no columns are named, or which are deletes
-- of rows, in their order and no others; as many rounds as the map has cells are enough.
pub read_cells-between :
    (ts : ℕ) (spec : ScanSpec) (is : List CellInterval) (s : Schema) (cfs : List ColumnFamily)
    (a b : Corner) (start_inclusive end_inclusive : Bool) (c : CellCache) (rounds : ℕ)
    → spec.row_intervals ≡ []
    → spec.cell_intervals ≡ between a start_inclusive b end_inclusive ∷ is
    → IsCorner s a
    → IsCorner s b
    → lex (bound_of a (not start_inclusive)) (bound_of b end_inclusive) ≢ Ordering.gt
    → Asked spec s cfs
    → All (λ cf. cf.id < 256) cfs
    → IsMap c.cell_map
    → length c.cell_map ≤ rounds
    → (ctx : Context) × ((initialize ts (some spec) (some s)).0 ≡ done ctx)
      × (read_cells (scanned ctx) rounds (create_scanner (scanned ctx) c)
          ≡ all_asked
              (is_asked a start_inclusive b end_inclusive (length spec.columns == 0) cfs)
              c.cell_map)
read_cells-between ts spec is s cfs a b si ei c rounds nr ci ia ib o asked small m l =
    let (fs, f, mask, limit) = filters_of-Asked ts spec s cfs asked small in
    let start = bound_of a (not si) in
    let end = bound_of b ei in
    (
      record {
        start_row = start;
        end_row = end;
        interval = interval_of ts (some spec);
        filters = fs;
      },
      initialize-built ts spec s fs start end f (rows_of-between spec is s a b si ei nr ci ia ib)
          ∙ built-done (start, end) (interval_of ts (some spec)) fs (lex start end) o,
      read_cells-given (scan_of start end fs) c rounds o m l
          ∙ given-all_asked s a b si ei (length spec.columns == 0) cfs fs c.cell_map ia ib mask m,
    )
