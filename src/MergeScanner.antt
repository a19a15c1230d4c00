-- ===== src/MergeScanner.antt =====
-- src/cc/Hypertable/RangeServer/MergeScanner.h and MergeScanner.cc: the scan over the cell cache and the
-- cell stores of an access group, or over the access groups of a range.
-- A scanner that is merged is the list of the cells that it still has. Keys load, and timestamps are not
-- negative. Of equal keys the priority queue may have either on top; here it is the first.
-- The counts of rows and of cells of 32 bits are taken not to wrap around, and the limits not to be
-- negative.
pub mod Queue
pub mod Drain
pub mod Passes
pub mod First
pub mod Same
pub mod Counts
pub mod Limits
pub mod Candidates
pub mod Scan
mod Tests
use hypertable.Base.{
  ℕ, zero, suc, ◌+◌, ◌-◌, Bool, true, false, ◌&&◌, ◌||◌, not, List, [], ◌∷◌, ◌++◌, Option, none,
  some, ltb, leb, ◌==◌, if◌then◌else◌, length, take,
}
use hypertable.ByteString.Order.{is_lt}
use hypertable.Key.{flag_delete_row, flag_delete_column_family, flag_delete_cell}
use hypertable.Deletes.{CellKey, key_bytes, key_compare, same, Deletes, no_deletes, track, check}

pub record Cell : Type 0 where
  pub key : CellKey
  pub value : List ℕ

-- What the scan context gives: the interval of time and, for a column family, the number of versions
-- (0 for all of them) and the cutoff time.
pub record Settings : Type 0 where
  pub return_everything : Bool
  pub row_limit : ℕ
  pub start_timestamp : ℕ
  pub end_timestamp : ℕ
  pub max_versions : ℕ → ℕ
  pub cutoff_time : ℕ → ℕ

-- The counters, and the bytes of `m_prev_key`.
pub record Counters : Type 0 where
  pub row_count : ℕ
  pub cell_count : ℕ
  pub cell_limit : ℕ
  pub cell_cutoff : ℕ
  pub prev_key : List ℕ

abbrev pub no_counters : Counters
no_counters = record {
  row_count = 0;
  cell_count = 0;
  cell_limit = 0;
  cell_cutoff = 0;
  prev_key = [];
}

-- The queue holds the scanners that have a cell.
pub record MergeScanner : Type 0 where
  pub queue : List (List Cell)
  pub deletes : Deletes
  pub counters : Counters
  pub done : Bool

-- `m_queue.top()`: its cell, what its scanner has behind it, and the rest of the queue.
unfoldable pub take_top : List (List Cell) → Option (Cell × List Cell × List (List Cell))
take_top [] = none
take_top ([] ∷ qs) = take_top qs
take_top ((c ∷ cs) ∷ qs) = elim (take_top qs) [
  | none ↦ some (c, cs, [])
  | some (d, ds, rest) ↦
      if is_lt (key_compare d.key c.key) then some (d, ds, (c ∷ cs) ∷ rest) else some (c, cs, qs)
]

-- `m_queue.push`, if the scanner has a cell.
unfoldable pub push : List Cell → List (List Cell) → List (List Cell)
push [] qs = qs
push (c ∷ cs) qs = (c ∷ cs) ∷ qs

-- The top is popped, its scanner forwarded, and pushed again.
unfoldable pub pop : List (List Cell) → List (List Cell)
pop q = elim (take_top q) [ none ↦ [] | some (c, cs, rest) ↦ push cs rest ]

-- Whether the inner loop of `forward` breaks at a cell, and the deletes in mind.
unfoldable pub inspect : Settings → CellKey → Deletes → Bool × Deletes
inspect cfg k s =
    if ltb k.timestamp cfg.start_timestamp && not cfg.return_everything
    then (false, s)
    else if (k.flag == flag_delete_row)
        || (k.flag == flag_delete_column_family)
        || (k.flag == flag_delete_cell)
    then (cfg.return_everything, track k s)
    else if leb cfg.end_timestamp k.timestamp && not cfg.return_everything
    then (false, s)
    else if cfg.return_everything
    then (true, s)
    else check k s

-- The characters before a NUL.
unfoldable pub first_string : List ℕ → List ℕ
first_string [] = []
first_string (b ∷ bs) = if b == 0 then [] else b ∷ first_string bs

-- `strcmp(key.row, m_prev_key.base)`.
unfoldable pub same_row : CellKey → List ℕ → Bool
same_row k prev = same k.row (first_string prev)

-- The keys are as long as one another, and agree but for the last nine bytes.
unfoldable pub same_cell : List ℕ → List ℕ → Bool
same_cell key prev =
    (length key == length prev)
    && ltb 9 (length key)
    && same (take (length key - 9) key) (take (length key - 9) prev)

-- `m_prev_key.set`, with the limits of the column family.
unfoldable pub new_cell : Settings → CellKey → Counters → Counters
new_cell cfg k n = record n {
  prev_key = key_bytes k;
  cell_limit = cfg.max_versions k.family;
  cell_cutoff = cfg.cutoff_time k.family;
  cell_count = 0;
}

pub data Verdict : Type 0 where
  returned skipped finished : Verdict

unfoldable pub count_cell : Settings → CellKey → Counters → Verdict × Counters
count_cell cfg k n =
    if same_cell (key_bytes k) n.prev_key
    then (if n.cell_limit == 0 then (returned, n) else (
      if not cfg.return_everything && leb n.cell_limit (n.cell_count + 1)
          then skipped
          else returned,
      record n { cell_count = n.cell_count + 1; prev_key = key_bytes k },
    ))
    else (returned, new_cell cfg k n)

unfoldable pub count_row : Settings → CellKey → Counters → Verdict × Counters
count_row cfg k n =
    let n' : Counters = record n { row_count = n.row_count + 1 } in
    if not cfg.return_everything && leb cfg.row_limit (n.row_count + 1)
    then (finished, n')
    else (returned, new_cell cfg k n')

-- The second half of `forward`.
unfoldable pub limit : Settings → CellKey → Counters → Verdict × Counters
limit cfg k n =
    if length n.prev_key == 0
    then (returned, new_cell cfg k n)
    else if not (cfg.row_limit == 0) && not (same_row k n.prev_key)
    then count_row cfg k n
    else count_cell cfg k n

-- What is done with the counters' verdict; the last argument is the loop's next round.
unfoldable pub conclude :
    Verdict × Counters → MergeScanner → (MergeScanner → MergeScanner) → MergeScanner
conclude (returned, n) s again = record s { counters = n }
conclude (skipped, n) s again = again (record s { counters = n })
conclude (finished, n) s again = record s { counters = n; done = true }

-- Both loops of `forward`, with fuel: a round pops one cell.
unfoldable pub forward_loop : Settings → ℕ → MergeScanner → MergeScanner
forward_loop cfg zero s = s
forward_loop cfg (suc fuel) s =
    let q = pop s.queue in
    elim (take_top q) [
      | none ↦ record s { queue = q }
      | some (c, cs, rest) ↦
          let (stops, deletes) = inspect cfg c.key s.deletes in
          let s' : MergeScanner = record s { queue = q; deletes = deletes } in
          elim stops [
            | false ↦ forward_loop cfg fuel s'
            | true ↦ conclude (limit cfg c.key s.counters) s' (forward_loop cfg fuel)
          ]
    ]

-- The number of cells in the queue.
unfoldable pub cells : List (List Cell) → ℕ
cells [] = 0
cells (q ∷ qs) = length q + cells qs

unfoldable pub forward : Settings → MergeScanner → MergeScanner
forward cfg s = elim (take_top s.queue) [ none ↦ s | some _ ↦ forward_loop cfg (cells s.queue) s ]

-- The loop of `initialize` over a queue that holds the scanners' first cells, with fuel.
unfoldable pub first_loop : Settings → ℕ → MergeScanner → MergeScanner
first_loop cfg zero s = s
first_loop cfg (suc fuel) s = elim (take_top s.queue) [
  | none ↦ s
  | some (c, cs, rest) ↦
      let k = c.key in
      let next : MergeScanner = record s { queue = pop s.queue } in
      let tracked : MergeScanner = record s { deletes = track k s.deletes } in
      let again = first_loop cfg fuel next in
      let started : MergeScanner = record s {
        deletes = record s.deletes { present = false };
        counters = new_cell cfg k s.counters;
      } in
      if ltb k.timestamp cfg.start_timestamp && not cfg.return_everything
      then again
      else if (k.flag == flag_delete_row)
          || (k.flag == flag_delete_column_family)
          || (k.flag == flag_delete_cell)
      then (if cfg.return_everything then tracked else forward cfg tracked)
      else if leb cfg.end_timestamp k.timestamp && not cfg.return_everything
      then again
      else started
]

-- A scanner as the constructor and `add_scanner` leave it, initialized by the first `get`.
unfoldable pub initialize : Settings → List (List Cell) → MergeScanner
initialize cfg scanners =
    first_loop cfg (cells scanners)
      (record { queue = scanners; deletes = no_deletes; counters = no_counters; done = false })

unfoldable pub get : MergeScanner → Option Cell
get s = elim (take_top s.queue) [
  | none ↦ none
  | some (c, cs, rest) ↦ if s.done then none else some c
]

-- `while (scanner->get(key, value)) { ...; scanner->forward(); }`, with fuel.
unfoldable pub read_all : Settings → ℕ → MergeScanner → List Cell
read_all cfg zero s = []
read_all cfg (suc fuel) s = elim (get s) [
  | none ↦ []
  | some c ↦ c ∷ read_all cfg fuel (forward cfg s)
]

unfoldable pub scan : Settings → List (List Cell) → List Cell
scan cfg scanners = read_all cfg (cells scanners + 1) (initialize cfg scanners)
