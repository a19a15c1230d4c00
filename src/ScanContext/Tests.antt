-- ===== src/ScanContext/Tests.antt =====
-- The theorems at an interval of two rows, at one of two cells, and at a schema of one column family.
use hypertable.Base.{
  ℕ, ◌<◌, ◌≡◌, ◌≢◌, refl, true, false, not, ◌&&◌, ◌||◌, List, [], ◌∷◌, arith, some, none, ◌==◌,
}
use Prim.Native.Nat.{Ordering}
use hypertable.ByteString.Order.{lex, is_lt}
use hypertable.Key.{write_key, key_timestamp}
use hypertable.Deletes.{key_bytes, key_compare, same}
use hypertable.Deletes.Sorted.{Ascending}
use hypertable.CellCache.{Entry, CellCache, new_cell_cache}
use hypertable.CellCache.Purge.{IsMap}
use hypertable.CellCacheScanner.{create_scanner, read_cells}
use hypertable.MergeScanner.Counts.{within}
use hypertable.Schema.{ColumnFamily, Schema, new_schema, new_access_group, find, get_column_family}
use hypertable.ScanSpec.{RowInterval, ScanSpec, cleared}
use hypertable.ScanContext.{
  start_of, end_of, bump, done, failed, undefined, Filters, Context, filters_of, initialize,
}
use hypertable.ScanContext.Rows.{after_start, before_end, runs_over, start_of-end_of}
use hypertable.ScanContext.Cells.{Corner, IsCorner, between, bound_of}
use hypertable.ScanContext.Families.{takes_id, last_family, Named, Pointed}
use hypertable.ScanContext.Asked.{filters_of-Asked}
use hypertable.ScanContext.Overrun.{is_large, filters_of-overrun}
use hypertable.ScanContext.Reads.{scanned, is_asked, all_asked, read_cells-between}

abbrev a_to_b : RowInterval
a_to_b = record {
  start = some (b'a' ∷ []);
  start_inclusive = false;
  end = some (b'b' ∷ []);
  end_inclusive = true;
}

abbrev row_b : List ℕ
row_b = b'b' ∷ []

start_of-end_of_example :
    (is_lt (lex row_b (start_of a_to_b)) ≡ not (after_start a_to_b row_b))
    × (is_lt (lex row_b (end_of a_to_b)) ≡ (before_end a_to_b row_b || runs_over a_to_b row_b))
start_of-end_of_example = start_of-end_of a_to_b row_b (omega arith) refl

-- A longer row with the end row in front is taken in too.
end_of-longer : is_lt (lex (b'b' ∷ b'b' ∷ []) (end_of a_to_b)) ≡ true
unfolding end_of bump lex
end_of-longer = refl

-- A schema with one column family, of the id that is given.
abbrev family : ℕ → ColumnFamily
family id = record { name = b'f' ∷ []; ag = b'g' ∷ []; id = id; max_versions = 3; ttl = 0 }

abbrev schema : ℕ → Schema
schema id = record (new_schema true) {
  families = family id ∷ [];
  column_family_map = (b'f' ∷ [], some 0) ∷ [];
  access_groups = record new_access_group { columns = 0 ∷ [] } ∷ [];
}

found : (get_column_family (b'f' ∷ []) (schema 1)).0 ≡ some (family 1)
unfolding get_column_family find same lex
found = refl

abbrev corner : ℕ → Corner
corner c = record { row = b'a' ∷ []; name = b'f' ∷ []; qualifier = c ∷ []; family = family 1 }

corner-IsCorner : (c : ℕ) → 0 < c → IsCorner (schema 1) (corner c)
corner-IsCorner c h = record {
  row = (omega arith, tt);
  name = ((λ e. omega (arith, e)), tt);
  qualifier = (h, tt);
  found = found;
  small = omega arith;
}

abbrev cells : ScanSpec
cells = record cleared { cell_intervals = between (corner b'p') false (corner b'q') true ∷ [] }

abbrev entry : ℕ → ℕ → Entry
entry ptr c = record {
  ptr = ptr;
  key = record { row = b'a' ∷ []; family = 1; qualifier = c ∷ []; flag = 255; timestamp = 5 };
  value = 0 ∷ [];
  second = 15;
}

abbrev three_cells : CellCache
three_cells = record new_cell_cache {
  cell_map = entry 100 b'p' ∷ entry 200 b'q' ∷ entry 300 b'r' ∷ [];
}

three_cells-IsMap : IsMap three_cells.cell_map
unfolding Ascending key_compare key_bytes write_key key_timestamp lex
three_cells-IsMap = record {
  ascending = ((refl, (refl, tt)), ((refl, tt), (tt, tt)));
  cells = (
    record { row = (omega arith, tt); qualifier = (omega arith, tt) },
    (
      record { row = (omega arith, tt); qualifier = (omega arith, tt) },
      (record { row = (omega arith, tt); qualifier = (omega arith, tt) }, tt),
    ),
  );
}

in_order : lex (bound_of (corner b'p') true) (bound_of (corner b'q') true) ≢ Ordering.gt
unfolding lex
in_order = λ e. cc

read_cells-between_example :
    (ctx : Context) × ((initialize 9 (some cells) (some (schema 1))).0 ≡ done ctx)
    × (read_cells (scanned ctx) 3 (create_scanner (scanned ctx) three_cells)
        ≡ all_asked
            (is_asked (corner b'p') false (corner b'q') true true (family 1 ∷ []))
            three_cells.cell_map)
read_cells-between_example =
    read_cells-between 9 cells [] (schema 1) (family 1 ∷ []) (corner b'p') (corner b'q') false true
      three_cells 3 refl refl (corner-IsCorner b'p' (omega arith))
      (corner-IsCorner b'q' (omega arith)) in_order (unfold Pointed in (refl, tt), ((λ e. cc), tt))
      (omega arith, tt) three_cells-IsMap (omega arith)

-- One cell lies behind the first and not behind the second.
one_cell :
    all_asked
      (is_asked (corner b'p') false (corner b'q') true true (family 1 ∷ []))
      three_cells.cell_map
    ≡ entry 200 b'q' ∷ []
unfolding all_asked takes_id lex
one_cell = refl

abbrev two_versions : ScanSpec
two_versions = record cleared { max_versions = 2; columns = some (b'f' ∷ []) ∷ [] }

filters_of-Asked_example :
    (fs : Filters) × (filters_of 7 (some two_versions) (some (schema 1))
      ≡ (done fs, some (schema 1)))
    × ((f : ℕ) → fs.family_mask f ≡ (takes_id f (family 1 ∷ []) || ((f == 0) && false)))
    × ((f n : ℕ) (cf : ColumnFamily)
        → last_family f (family 1 ∷ []) ≡ some cf
        → within (fs.family_info f).max_versions n ≡ (within 2 n && within cf.max_versions n))
filters_of-Asked_example =
    filters_of-Asked 7 two_versions (schema 1) (family 1 ∷ []) (unfold Named in (found, tt))
      (omega arith, tt)

filters_of-overrun_example :
    filters_of 7 none (some (schema 256)) ≡ (failed undefined, some (schema 256))
filters_of-overrun_example =
    filters_of-overrun 7 none (schema 256) (family 256 ∷ []) refl (unfold Pointed in (refl, tt))
      ((λ e. cc), tt) (unfold is_large in refl)
