-- ===== src/Range.antt =====
-- src/cc/Hypertable/RangeServer/Range.cc: the split of a range, and how a range is loaded in the middle
-- of one. RangeState.h has the state that is kept in the meta log.
-- A row is the list of its characters. Left out are the table's identifier and its generation, the
-- compaction and the shrinking of the access groups, the threads that scan or update meanwhile, the
-- crash tests, and what ends the process: a log directory, METADATA or the meta log that cannot be
-- written.
pub mod Split
pub mod Divide
pub mod Resume
mod Tests
use hypertable.Base.{
  ℕ, ◌+◌, ◌*◌, ◌/◌, ◌%◌, ◌^◌, Bool, true, false, ◌&&◌, ◌||◌, not, List, [], ◌∷◌, ◌++◌, Option, none,
  some, ltb, leb, ◌==◌, if◌then◌else◌, length, get_elem?,
}
use Prim.Native.Nat.{Ordering}
use hypertable.ByteString.Order.{lex, is_lt, is_eq}
use hypertable.Serialization.Codec.{Cstring, chars}
use hypertable.Types.{Timestamp, RangeSpec, RangeState, steady}

abbrev pub split_log_installed : ℕ
split_log_installed = 1

abbrev pub split_shrunk : ℕ
split_shrunk = 2

abbrev pub no_time : Timestamp
no_time = record { logical = 0; real = 0 }

-- An access group: the split rows of its stores, the one of its cell cache, the rows of its cell cache,
-- its name and its files.
pub record AccessGroup : Type 0 where
  pub store_rows : List (List ℕ)
  pub cache_rows : List (List ℕ)
  pub cached_rows : List (List ℕ)
  pub name : List ℕ
  pub files : List ℕ

-- What the entries of the meta log say.
pub data LogEntry : Type 0 where
  split_start : RangeSpec → RangeSpec → RangeState → LogEntry
  shrunk : RangeSpec → RangeState → LogEntry
  split_done : RangeSpec → LogEntry

-- Writes to METADATA: the row, which is a range's end row behind the table's id, and the value.
pub data MetaWrite : Type 0 where
  start_row : List ℕ → List ℕ → MetaWrite
  files : List ℕ → List ℕ → List ℕ → MetaWrite

-- What is sent to the master.
pub record Report : Type 0 where
  pub range : RangeSpec
  pub transfer_log : Cstring
  pub soft_limit : ℕ

-- What the split leaves behind outside the range.
pub record World : Type 0 where
  pub log : List LogEntry
  pub metadata : List MetaWrite
  pub reports : List Report

pub record Range : Type 0 where
  pub start_row : List ℕ
  pub end_row : List ℕ
  pub split_row : List ℕ
  pub state : RangeState
  pub split_log : Bool
  pub timestamp : Timestamp
  pub row_overflow : Bool
  pub maintenance : Bool
  pub is_root : Bool

-- The name of the transfer log of a split point is a digest in the log directory. The master answers
-- with an error code, 0 where all is well.
pub record Environment : Type 0 where
  pub groups : List AccessGroup
  pub transfer_log : List ℕ → List ℕ
  pub range_max_bytes : ℕ
  pub report_split : Report → ℕ

pub data Outcome : Type 0 where
  completed expectation overflow : Outcome
  refused : ℕ → Outcome

abbrev pub Step : Type 0
Step = Outcome × Range × World

unfoldable pub insert_row : List ℕ → List (List ℕ) → List (List ℕ)
insert_row row [] = row ∷ []
insert_row row (x ∷ xs) =
    let rest = x ∷ insert_row row xs in if is_lt (lex x row) then rest else row ∷ x ∷ xs

-- `std::sort` of strings.
unfoldable pub sort : List (List ℕ) → List (List ℕ)
unfolding insert_row
sort [] = []
sort (x ∷ xs) = insert_row x (sort xs)

-- `split_rows[split_rows.size()/2]` after the sort; `none` where there is none.
unfoldable pub middle : List (List ℕ) → Option (List ℕ)
middle rows = get_elem? (sort rows) (length rows / 2)

-- What the groups push onto the vector.
unfoldable pub rows_of : (AccessGroup → List (List ℕ)) → List AccessGroup → List (List ℕ)
rows_of f [] = []
rows_of f (g ∷ gs) = f g ++ rows_of f gs

unfoldable pub split_rows : List AccessGroup → List (List ℕ)
split_rows groups =
    let rows = rows_of (λ g. g.store_rows) groups in
    if ltb (length rows) (length groups)
    then rows ++ rows_of (λ g. g.store_rows ++ g.cache_rows) groups
    else rows

-- `m_split_row < m_start_row || m_split_row >= m_end_row`.
unfoldable pub outside : List ℕ → List ℕ → List ℕ → Bool
outside start end row = is_lt (lex row start) || not (is_lt (lex row end))

-- A row that is not outside.
unfoldable pub accept : List ℕ → List ℕ → Option (List ℕ) → Option (List ℕ)
accept start end none = none
accept start end (some row) = if outside start end row then none else some row

-- The choice of the split row; `none` is the row overflow.
unfoldable pub determine_split_row : List AccessGroup → List ℕ → List ℕ → Option (List ℕ)
determine_split_row groups start end = elim (middle (split_rows groups)) [
  | none ↦ none
  | some row ↦
      if outside start end row
      then accept start end (middle (rows_of (λ g. g.cached_rows) groups))
      else some row
]

-- What stands in `m_split_row` when none is chosen: the row that was tried last.
unfoldable pub tried_row : List AccessGroup → Range → List ℕ
tried_row groups r = elim (middle (split_rows groups)) [
  | none ↦ r.split_row
  | some row ↦ elim (middle (rows_of (λ g. g.cached_rows) groups)) [ none ↦ row | some last ↦ last ]
]

abbrev pub spec : List ℕ → List ℕ → RangeSpec
spec start end = record { start_row = some start; end_row = some end }

unfoldable pub split_install_log : Environment → Range → World → Step
split_install_log env r w = elim (determine_split_row env.groups r.start_row r.end_row) [
  | none ↦ (overflow, record r { row_overflow = true; split_row = tried_row env.groups r }, w)
  | some row ↦
      let state : RangeState = record r.state {
        state = split_log_installed;
        timestamp = r.timestamp;
        split_point = some row;
        transfer_log = some (env.transfer_log row);
      } in
      (
        completed,
        record r { split_row = row; split_log = true; state = state },
        record w {
          log =
              w.log ++ (split_start (spec r.start_row r.end_row) (spec r.start_row row) state ∷ []);
        },
      )
]

unfoldable pub write_files : List ℕ → List AccessGroup → List MetaWrite
write_files row [] = []
write_files row (g ∷ gs) = files row g.name g.files ∷ write_files row gs

unfoldable pub split_compact_and_shrink : Environment → Range → World → Range × World
split_compact_and_shrink env r w =
    let point = chars r.state.split_point in
    let state : RangeState = record r.state {
      state = split_shrunk;
      timestamp = no_time;
      old_start_row = some r.start_row;
      split_point = none;
    } in
    (
      record r { start_row = point; split_row = []; split_log = false; state = state },
      record w {
        metadata =
            w.metadata
            ++ (start_row r.end_row point
                ∷ start_row point r.start_row
                ∷ write_files point env.groups);
        log = w.log ++ (shrunk (spec point r.end_row) state ∷ []);
      },
    )

-- `soft_limit *= 2` of 64 bits, and the bound.
unfoldable pub grow_limit : ℕ → ℕ → ℕ
grow_limit range_max soft_limit =
    if ltb soft_limit range_max
    then (let twice = soft_limit * 2 % 2 ^ 64 in if ltb range_max twice then range_max else twice)
    else soft_limit

unfoldable pub split_report : Environment → Range → Report
split_report env r = record {
  range = record { start_row = r.state.old_start_row; end_row = some r.start_row };
  transfer_log = r.state.transfer_log;
  soft_limit = grow_limit env.range_max_bytes r.state.soft_limit;
}

unfoldable pub split_notify_master : Environment → Range → World → Step
split_notify_master env r w =
    let report = split_report env r in
    let told : World = record w { reports = w.reports ++ (report ∷ []) } in
    if env.report_split report == 0
    then (
      completed,
      record r {
        state = record r.state {
          state = steady;
          soft_limit = report.soft_limit;
          transfer_log = none;
          old_start_row = none;
        };
      },
      record told { log = w.log ++ (split_done (spec r.start_row r.end_row) ∷ []) },
    )
    else (refused (env.report_split report), r, told)

abbrev pub shrink_and_notify : Environment → Range → World → Step
shrink_and_notify env r w =
    let (r', w') = split_compact_and_shrink env r w in split_notify_master env r' w'

-- After `split_install_log`: an exception leaves the `switch`.
unfoldable pub after_install : Environment → Step → Step
after_install env (completed, r, w) = shrink_and_notify env r w
after_install env (overflow, r, w) = (overflow, r, w)
after_install env (expectation, r, w) = (expectation, r, w)
after_install env (refused code, r, w) = (refused code, r, w)

-- The `switch`, where each case falls through to the next.
unfoldable pub run_split : Environment → Range → World → Step
run_split env r w =
    if r.state.state == steady
    then after_install env (split_install_log env r w)
    else if r.state.state == split_log_installed
    then shrink_and_notify env r w
    else if r.state.state == split_shrunk
    then split_notify_master env r w
    else (completed, r, w)

unfoldable pub split : Environment → Range → World → Step
split env r w =
    if r.maintenance && not r.is_root
    then (let (o, r', w') = run_split env r w in (o, record r' { maintenance = false }, w'))
    else (expectation, r, w)

-- `Key::END_ROOT_ROW`.
abbrev pub end_root_row : List ℕ
end_root_row = b'0' ∷ b':' ∷ 0xff ∷ 0xff ∷ []

-- The constructor, as far as the split goes.
unfoldable pub new_range : ℕ → ℕ → RangeSpec → RangeState → Range
new_range range_max table_id range state =
    let limit =
      if (state.soft_limit == 0) || ltb range_max state.soft_limit
      then range_max
      else state.soft_limit in
    record {
      start_row = chars range.start_row;
      end_row = chars range.end_row;
      split_row = if state.state == split_log_installed then chars state.split_point else [];
      state = record state { soft_limit = limit };
      split_log = state.state == split_log_installed;
      timestamp = no_time;
      row_overflow = false;
      maintenance = false;
      is_root =
          (table_id == 0)
          && (length (chars range.start_row) == 0)
          && is_eq (lex (chars range.end_row) end_root_row);
    }
