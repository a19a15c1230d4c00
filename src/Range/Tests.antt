-- ===== src/Range/Tests.antt =====
-- The theorems at one range.
use hypertable.Base.{
  ℕ, List, ◌⊎◌, min, ◌*◌, ◌≤◌, ◌≡◌, refl, true, false, [], ◌∷◌, some, none, arith,
}
use hypertable.ByteString.Order.{lex}
use hypertable.Types.{steady}
use hypertable.Range.{
  AccessGroup, Environment, World, Range, no_time, determine_split_row, split_rows, rows_of, middle,
  sort, outside, accept, grow_limit, split, overflow, split_install_log,
}
use hypertable.Range.Split.{grow_limit_bounds}
use hypertable.Range.Divide.{Divides, split-Divides}
use hypertable.Range.Resume.{Resumes, split-Resumes}

abbrev one_group : AccessGroup
one_group = record {
  store_rows = (b'x' ∷ []) ∷ (b'm' ∷ []) ∷ (b'c' ∷ []) ∷ [];
  cache_rows = [];
  cached_rows = [];
  name = b'g' ∷ [];
  files = b'f' ∷ [];
}

abbrev master : Environment
master = record {
  groups = one_group ∷ [];
  transfer_log = λ row. b'l' ∷ row;
  range_max_bytes = 150;
  report_split = λ report. 0;
}

abbrev nothing : World
nothing = record { log = []; metadata = []; reports = [] }

abbrev steady_range : Range
steady_range = record {
  start_row = b'a' ∷ [];
  end_row = b'z' ∷ [];
  split_row = [];
  state = record {
    state = steady;
    timestamp = no_time;
    soft_limit = 100;
    transfer_log = none;
    split_point = none;
    old_start_row = none;
  };
  split_log = false;
  timestamp = record { logical = 7; real = 8 };
  row_overflow = false;
  maintenance = true;
  is_root = false;
}

found :
    determine_split_row master.groups steady_range.start_row steady_range.end_row ≡ some (b'm' ∷ [])
unfolding determine_split_row split_rows rows_of middle sort outside accept lex
found = refl

grow_limit_bounds_example :
    (grow_limit 150 100 ≡ min (2 * 100) 150)
    × (grow_limit 150 100 ≤ 150)
    × (100 ≤ grow_limit 150 100)
grow_limit_bounds_example = grow_limit_bounds 150 100 (omega arith) (omega arith)

split-Divides_example :
    ((determine_split_row master.groups steady_range.start_row steady_range.end_row ≡ none)
      × ((split master steady_range nothing).0 ≡ overflow)
      × ((split master steady_range nothing).1.start_row ≡ steady_range.start_row)
      × ((split master steady_range nothing).1.end_row ≡ steady_range.end_row)
      × ((split master steady_range nothing).1.state ≡ steady_range.state)
      × ((split master steady_range nothing).2 ≡ nothing))
    ⊎ (row : List ℕ) × (determine_split_row master.groups steady_range.start_row
          steady_range.end_row
        ≡ some row)
      × Divides master steady_range nothing row (split master steady_range nothing)
split-Divides_example = split-Divides master steady_range nothing refl refl refl

split-Resumes_example :
    Resumes master 5 steady_range nothing
      (b'm' ∷ [])
      (split_install_log master steady_range nothing)
split-Resumes_example =
    split-Resumes master 5 steady_range nothing (b'm' ∷ []) (omega arith) (omega arith) refl found
