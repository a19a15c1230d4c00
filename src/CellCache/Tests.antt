-- ===== src/CellCache/Tests.antt =====
-- The theorems at small maps.
use hypertable.Base.{ℕ, ◌≡◌, refl, List, [], ◌∷◌, arith}
use hypertable.ByteString.Order.{lex}
use hypertable.Key.{write_key, key_timestamp, flag_insert, flag_delete_row, flag_delete_cell}
use hypertable.Deletes.{CellKey, key_bytes, key_compare}
use hypertable.Deletes.Sorted.{Ascending}
use hypertable.CellCache.{
  Entry, CellCache, new_cell_cache, key_len, map_insert, add, slice_copy, purge_deletes, freed,
  new_entry, get_split_rows, get_rows,
}
use hypertable.CellCache.Purge.{
  IsMap, survivors, later_than, slice_copy-later_than, purge_deletes-survivors,
}
use hypertable.CellCache.Owner.{Shares, copies-Shares}
use hypertable.CellCache.Ordered.{sum_of}
use hypertable.CellCache.Counts.{IsValid, add-IsValid}

abbrev text : List ℕ
text = b'a' ∷ b'b' ∷ []

abbrev column : List ℕ
column = b'q' ∷ []

abbrev row_delete : CellKey
row_delete = record {
  row = text;
  family = 0;
  qualifier = [];
  flag = flag_delete_row;
  timestamp = 9;
}

abbrev cell_delete : CellKey
cell_delete = record {
  row = text;
  family = 1;
  qualifier = column;
  flag = flag_delete_cell;
  timestamp = 3;
}

abbrev inserted : CellKey
inserted = record { row = text; family = 1; qualifier = column; flag = flag_insert; timestamp = 5 }

abbrev first : Entry
first = record { ptr = 100; key = row_delete; value = 0 ∷ []; second = 15 }

abbrev second_entry : Entry
second_entry = record { ptr = 200; key = cell_delete; value = 0 ∷ []; second = 16 }

abbrev third : Entry
third = record { ptr = 300; key = inserted; value = 1 ∷ b'v' ∷ []; second = 16 }

abbrev two_cells : CellCache
two_cells = record new_cell_cache { cell_map = first ∷ third ∷ [] }

abbrev three_cells : CellCache
three_cells = record new_cell_cache { cell_map = first ∷ second_entry ∷ third ∷ [] }

abbrev fresh : CellCache
fresh = new_cell_cache

two_cells-IsMap : IsMap two_cells.cell_map
unfolding Ascending key_compare key_bytes write_key key_timestamp lex
two_cells-IsMap = record {
  ascending = ((refl, tt), (tt, tt));
  cells = (
    record { row = omega arith; qualifier = tt },
    (record { row = omega arith; qualifier = omega arith }, tt),
  );
}

three_cells-IsMap : IsMap three_cells.cell_map
unfolding Ascending key_compare key_bytes write_key key_timestamp lex
three_cells-IsMap = record {
  ascending = ((refl, (refl, tt)), ((refl, tt), (tt, tt)));
  cells = (
    record { row = omega arith; qualifier = tt },
    (
      record { row = omega arith; qualifier = omega arith },
      (record { row = omega arith; qualifier = omega arith }, tt),
    ),
  );
}

fresh-IsValid : IsValid fresh
unfolding sum_of Ascending
fresh-IsValid = record {
  sorted = record { ascending = tt; cells = tt };
  memory = refl;
  delete_count = refl;
}

purge_deletes-survivors_example :
    (purge_deletes three_cells).1.cell_map ≡ survivors [] three_cells.cell_map
purge_deletes-survivors_example = purge_deletes-survivors three_cells three_cells-IsMap

slice_copy-later_than_example :
    (slice_copy 4 three_cells).1.cell_map ≡ later_than 4 three_cells.cell_map
slice_copy-later_than_example = slice_copy-later_than 4 three_cells three_cells-IsMap

copies-Shares_example :
    Shares three_cells.cell_map
      (slice_copy 4 three_cells).0.cell_map
      (slice_copy 4 three_cells).1.cell_map
    × Shares three_cells.cell_map
        (purge_deletes three_cells).0.cell_map
        (purge_deletes three_cells).1.cell_map
copies-Shares_example = copies-Shares 4 three_cells three_cells-IsMap

add-IsValid_example : IsValid (add 300 third.key (1 ∷ b'v' ∷ []) fresh).0
add-IsValid_example =
    add-IsValid 300 third.key (1 ∷ b'v' ∷ []) fresh
      (record { row = omega arith; qualifier = omega arith }) fresh-IsValid

split_row : get_split_rows three_cells ≡ text ∷ []
unfolding get_split_rows
split_row = refl

rows : get_rows three_cells ≡ text ∷ []
unfolding get_rows hypertable.CellCache.rows_from lex
rows = refl
