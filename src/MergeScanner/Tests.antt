-- ===== src/MergeScanner/Tests.antt =====
-- The theorems at two scanners with a cell each in one row, and one in another.
use hypertable.Base.{ℕ, ◌≡◌, refl, true, false, List, [], ◌∷◌, arith, All}
use mathlib.Core.List.{Perm}
use hypertable.ByteString.Order.{lex}
use hypertable.Key.{write_key, key_timestamp}
use hypertable.Deletes.{
  key_bytes, key_compare, track, check, check_row, check_family, check_cell, note_delete, row_bytes,
  family_bytes, cell_bytes, same,
}
use hypertable.Deletes.Sorted.{InOrder}
use hypertable.MergeScanner.{
  Cell, Settings, cells, initialize, read_all, scan, first_loop, forward, forward_loop, take_top,
  push, pop, get, inspect, limit, conclude, count_cell, count_row, new_cell, same_row, same_cell,
  first_string,
}
use hypertable.MergeScanner.Queue.{keys, flatten, IsScanner}
use hypertable.MergeScanner.Counts.{chosen}
use hypertable.MergeScanner.Candidates.{candidates}
use hypertable.MergeScanner.Scan.{everything, scan-everything, scan-chosen, read_all-scan}

abbrev column : List ℕ
column = b'q' ∷ []

abbrev newer : Cell
newer = record {
  key = record { row = b'a' ∷ []; family = 1; qualifier = column; flag = 255; timestamp = 7 };
  value = 1 ∷ b'v' ∷ [];
}

abbrev older : Cell
older = record {
  key = record { row = b'a' ∷ []; family = 1; qualifier = column; flag = 255; timestamp = 5 };
  value = 1 ∷ b'u' ∷ [];
}

abbrev deleted : Cell
deleted = record {
  key = record { row = b'b' ∷ []; family = 0; qualifier = []; flag = 0; timestamp = 6 };
  value = 0 ∷ [];
}

abbrev hidden : Cell
hidden = record {
  key = record { row = b'b' ∷ []; family = 1; qualifier = column; flag = 255; timestamp = 6 };
  value = 0 ∷ [];
}

abbrev two_scanners : List (List Cell)
two_scanners = (older ∷ hidden ∷ []) ∷ (newer ∷ deleted ∷ []) ∷ []

abbrev all_settings : Settings
all_settings = record {
  return_everything = true;
  row_limit = 0;
  start_timestamp = 0;
  end_timestamp = 100;
  max_versions = λ f. 0;
  cutoff_time = λ f. 0;
}

abbrev one_version : Settings
one_version = record all_settings { return_everything = false; max_versions = λ f. 1 }

two_scanners-IsScanner : All IsScanner two_scanners
unfolding InOrder key_compare key_bytes write_key key_timestamp lex
two_scanners-IsScanner = (
  record {
    cells = (
      record { row = omega arith; qualifier = omega arith },
      (record { row = omega arith; qualifier = omega arith }, tt),
    );
    order = ((λ e. cc, tt), (tt, tt));
  },
  (
    record {
      cells = (
        record { row = omega arith; qualifier = omega arith },
        (record { row = omega arith; qualifier = tt }, tt),
      );
      order = ((λ e. cc, tt), (tt, tt));
    },
    tt,
  ),
)

scan-everything_example :
    Perm (scan all_settings two_scanners) (flatten two_scanners)
    × InOrder (keys (scan all_settings two_scanners))
scan-everything_example = scan-everything all_settings two_scanners refl two_scanners-IsScanner

scan-chosen_example :
    scan one_version two_scanners
    ≡ chosen one_version [] (candidates one_version [] (scan (everything one_version) two_scanners))
scan-chosen_example = scan-chosen one_version two_scanners refl two_scanners-IsScanner

read_all-scan_example :
    read_all one_version 9 (initialize one_version two_scanners) ≡ scan one_version two_scanners
unfolding cells
read_all-scan_example = read_all-scan one_version two_scanners 9 (omega arith)

-- The newest version of a cell, and none that its row's delete covers.
shown : scan one_version two_scanners ≡ newer ∷ []
unfolding scan initialize first_loop forward forward_loop cells take_top push pop get read_all
    inspect limit conclude count_cell count_row new_cell same_row same_cell first_string track check
    check_row check_family check_cell note_delete row_bytes family_bytes cell_bytes same key_compare
    key_bytes write_key key_timestamp lex
shown = refl
