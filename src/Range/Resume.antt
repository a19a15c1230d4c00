-- ===== src/Range/Resume.antt =====
-- A split that was cut off goes on where the meta log says.
use hypertable.Base.{
  ℕ, ◌<◌, ◌≤◌, ◌≡◌, inl, inr, refl, Bool, false, length, ◌&&◌, ◌||◌, Bool-cases, List, [], ◌∷◌,
  ◌++◌, some, arith, ltb, ◌==◌, if◌then◌else◌,
}
use hypertable.ByteString.Order.{lex, is_eq}
use hypertable.Range.Split.{installed, installed_world, split_install_log-found, run_split-steady}
use hypertable.Types.{Timestamp, steady}
use hypertable.Range.{
  split_start, shrunk, World, Range, Environment, Step, determine_split_row, spec,
  split_install_log, split_compact_and_shrink, split_report, split_notify_master, shrink_and_notify,
  run_split, new_range, no_time, end_root_row,
}

-- The same to everyone but the range's own threads.
pub record Same (a b : Range) : Type 0 where
  pub start_row : a.start_row ≡ b.start_row
  pub end_row : a.end_row ≡ b.end_row
  pub split_row : a.split_row ≡ b.split_row
  pub split_log : a.split_log ≡ b.split_log
  pub state : a.state ≡ b.state

pub record Agrees (a b : Step) : Type 0 where
  pub outcome : a.0 ≡ b.0
  pub range : Same a.1 b.1
  pub world : a.2 ≡ b.2

-- The range with other values where the constructor forgets.
abbrev other : Range → Timestamp → Bool → Range
other r t root = record r {
  timestamp = t;
  row_overflow = false;
  maintenance = false;
  is_root = root;
}

same : (r : Range) (t : Timestamp) (root : Bool) → Same (other r t root) r
same r t root = record {
  start_row = refl;
  end_row = refl;
  split_row = refl;
  split_log = refl;
  state = refl;
}

notify-other :
    (env : Environment) (r : Range) (w : World) (t : Timestamp) (root : Bool)
    → Agrees (split_notify_master env (other r t root) w) (split_notify_master env r w)
unfolding split_notify_master split_report
notify-other env r w t root = elim (Bool-cases (env.report_split (split_report env r) == 0)) [
  | inl e ↦ rw e (record { outcome = refl; range = same _ t root; world = refl })
  | inr e ↦ rw e (record { outcome = refl; range = same r t root; world = refl })
]

shrink-other :
    (env : Environment) (r : Range) (w : World) (t : Timestamp) (root : Bool)
    → Agrees (shrink_and_notify env (other r t root) w) (shrink_and_notify env r w)
unfolding split_compact_and_shrink
shrink-other env r w t root =
    notify-other env (split_compact_and_shrink env r w).0 (split_compact_and_shrink env r w).1 t
      root

-- A soft limit within the maximum is kept.
limit_kept :
    (range_max limit : ℕ)
    → 0 < limit
    → limit ≤ range_max
    → (if (limit == 0) || ltb range_max limit then range_max else limit) ≡ limit
limit_kept range_max limit h k = ground arith

module _ (env : Environment) (table_id : ℕ) (r : Range) (w : World) (row : List ℕ)
    (positive : 0 < r.state.soft_limit) (within : r.state.soft_limit ≤ env.range_max_bytes) where
  abbrev start : Range
  start = installed env r row

  abbrev shrunken : Range × World
  shrunken = split_compact_and_shrink env start (installed_world env r w row)

  root_of : List ℕ → Bool
  root_of start = (table_id == 0) && (length start == 0) && is_eq (lex r.end_row end_root_row)

  loaded-start :
      new_range env.range_max_bytes table_id (spec r.start_row r.end_row) start.state
      ≡ other start no_time (root_of r.start_row)
  unfolding new_range root_of
  loaded-start = rw (limit_kept env.range_max_bytes r.state.soft_limit positive within) refl

  loaded-shrunk :
      new_range env.range_max_bytes table_id (spec row r.end_row) shrunken.0.state
      ≡ other shrunken.0 no_time (root_of row)
  unfolding new_range root_of split_compact_and_shrink
  loaded-shrunk = rw (limit_kept env.range_max_bytes r.state.soft_limit positive within) refl

  resume_start :
      Agrees
        (run_split env
          (new_range env.range_max_bytes table_id (spec r.start_row r.end_row) start.state)
          (installed_world env r w row))
        (shrink_and_notify env start (installed_world env r w row))
  unfolding run_split
  resume_start = rw loaded-start (shrink-other env start _ no_time (root_of r.start_row))

  resume_shrunk :
      Agrees
        (run_split env
          (new_range env.range_max_bytes table_id (spec row r.end_row) shrunken.0.state)
          shrunken.1)
        (split_notify_master env shrunken.0 shrunken.1)
  unfolding run_split split_compact_and_shrink
  resume_shrunk = rw loaded-shrunk (notify-other env shrunken.0 shrunken.1 no_time (root_of row))

abbrev pub after_shrink : Environment → Step → Range × World
after_shrink env (o, r, w) = split_compact_and_shrink env r w

-- The meta log gets an entry after each of the first two parts of the split. From the range and the state
-- that an entry names, the constructor makes a range that goes on to the same outcome, the same writes
-- and reports, and the same rows and state of the range as the split that is not cut off.
pub record Resumes (env : Environment) (table_id : ℕ) (r : Range) (w : World) (row : List ℕ)
    (installs : Step) : Type 0 where
  pub log_start :
      installs.2.log
      ≡ w.log
        ++ (split_start (spec r.start_row r.end_row) (spec r.start_row row) installs.1.state ∷ [])
  pub resumed_start :
      Agrees
        (run_split env
          (new_range env.range_max_bytes table_id (spec r.start_row r.end_row) installs.1.state)
          installs.2)
        (run_split env r w)
  pub log_shrunk :
      (after_shrink env installs).1.log
      ≡ installs.2.log ++ (shrunk (spec row r.end_row) (after_shrink env installs).0.state ∷ [])
  pub resumed_shrunk :
      Agrees
        (run_split env
          (new_range env.range_max_bytes table_id
            (spec row r.end_row)
            (after_shrink env installs).0.state)
          (after_shrink env installs).1)
        (run_split env r w)

-- A split of a steady range that finds a split row writes an entry of the meta log after each of
-- its first two parts, and from the range and state of either entry the constructor makes a
-- range that goes on to the same outcome, writes, reports, rows and state as the split that is
-- not cut off; the soft limit is above 0 and within the maximum.
pub split-Resumes :
    (env : Environment) (table_id : ℕ) (r : Range) (w : World) (row : List ℕ)
    → 0 < r.state.soft_limit
    → r.state.soft_limit ≤ env.range_max_bytes
    → r.state.state ≡ steady
    → determine_split_row env.groups r.start_row r.end_row ≡ some row
    → Resumes env table_id r w row (split_install_log env r w)
unfolding split_compact_and_shrink
split-Resumes env table_id r w row positive within s found =
    rw (split_install_log-found env r w row found) (record {
      log_start = refl;
      resumed_start =
          rw (run_split-steady env r w row s found)
            (resume_start env table_id r w row positive within);
      log_shrunk = refl;
      resumed_shrunk =
          rw (run_split-steady env r w row s found)
            (resume_shrunk env table_id r w row positive within);
    })
