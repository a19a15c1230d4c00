-- ===== src/CellCacheScanner/Tests.antt =====
-- The theorem at a map of three rows.
use hypertable.Base.{ℕ, ◌≡◌, ◌≢◌, refl, [], ◌∷◌, arith, ◌==◌}
use Prim.Native.Nat.{Ordering}
use hypertable.ByteString.Order.{lex}
use hypertable.Key.{write_key, key_timestamp}
use hypertable.Deletes.{key_bytes, key_compare}
use hypertable.Deletes.Sorted.{Ascending}
use hypertable.CellCache.{Entry, CellCache, new_cell_cache}
use hypertable.CellCache.Purge.{IsMap}
use hypertable.CellCacheScanner.{
  ScanContext, create_scanner, read_cells, lower_bound, passes, seek, get, forward,
}
use hypertable.CellCacheScanner.Rows.{wanted, read_cells-wanted}

abbrev entry : ℕ → ℕ → ℕ → Entry
entry ptr row family = record {
  ptr = ptr;
  key = record { row = row ∷ []; family = family; qualifier = []; flag = 255; timestamp = 4 };
  value = 0 ∷ [];
  second = 15;
}

abbrev three_rows : CellCache
three_rows = record new_cell_cache {
  cell_map = entry 100 b'a' 1 ∷ entry 200 b'b' 2 ∷ entry 300 b'b' 3 ∷ entry 400 b'c' 1 ∷ [];
}

abbrev row_b : ScanContext
row_b = record { start_row = b'b' ∷ []; end_row = b'c' ∷ []; family_mask = λ f. f == 3 }

three_rows-IsMap : IsMap three_rows.cell_map
unfolding Ascending key_compare key_bytes write_key key_timestamp lex
three_rows-IsMap = record {
  ascending = ((refl, (refl, (refl, tt))), ((refl, (refl, tt)), ((refl, tt), (tt, tt))));
  cells = (
    record { row = omega arith; qualifier = tt },
    (
      record { row = omega arith; qualifier = tt },
      (
        record { row = omega arith; qualifier = tt },
        (record { row = omega arith; qualifier = tt }, tt),
      ),
    ),
  );
}

row_b-starts : lex row_b.start_row row_b.end_row ≢ Ordering.gt
unfolding lex
row_b-starts = λ e. cc

read_cells-wanted_example :
    read_cells row_b 4 (create_scanner row_b three_rows) ≡ wanted row_b three_rows.cell_map
read_cells-wanted_example =
    read_cells-wanted row_b (omega arith) (omega arith) row_b-starts three_rows 4 three_rows-IsMap
      (omega arith)

read_row_b : read_cells row_b 4 (create_scanner row_b three_rows) ≡ entry 300 b'b' 3 ∷ []
unfolding read_cells create_scanner lower_bound passes seek get forward lex key_bytes write_key
    key_timestamp
read_row_b = refl
