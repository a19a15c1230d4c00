-- ===== src/Range/Split.antt =====
-- What a split does.
use hypertable.Base.{
  ℕ, min, ◌*◌, ◌^◌, ◌<◌, ◌≤◌, ◌≡◌, ◌≢◌, inl, inr, refl, true, false, not, ◌&&◌, Bool-cases, List,
  [], ◌∷◌, ◌++◌, Option, none, some, Option-cases, arith, ◌==◌,
}
use Prim.Native.Nat.{Ordering}
use hypertable.ByteString.Order.{lex}
use hypertable.Types.{steady}
use hypertable.Range.{
  AccessGroup, split_log_installed, split_start, World, Range, Environment, completed, Step, middle,
  rows_of, split_rows, outside, accept, determine_split_row, spec, split_install_log, grow_limit,
  shrink_and_notify, after_install, run_split, split,
}

accept-inside :
    (start end row : List ℕ) (o : Option (List ℕ))
    → accept start end o ≡ some row
    → outside start end row ≡ false
unfolding accept
accept-inside start end row none h = absurd (ground arith)
accept-inside start end row (some x) h = elim (Bool-cases (outside start end x)) [
  | inl e ↦ absurd (ground (arith, e, h))
  | inr e ↦ ground (arith, e, h)
]

determine-inside :
    (groups : List AccessGroup) (start end row : List ℕ)
    → determine_split_row groups start end ≡ some row
    → outside start end row ≡ false
unfolding determine_split_row
determine-inside groups start end row h = elim (Option-cases (middle (split_rows groups))) [
  | inl e ↦ absurd (ground (arith, e, h))
  | inr (x, e) ↦ elim (Bool-cases (outside start end x)) [
    | inl o ↦
        accept-inside start end row (middle (rows_of (λ g. g.cached_rows) groups))
          (ground (arith, e, o, h))
    | inr o ↦ ground (arith, e, o, h)
  ]
]

-- The split row that is chosen, from the stores and caches or from the cached rows, is not before the
-- start row and lies before the end row.
pub determine_split_row-inside :
    (groups : List AccessGroup) (start end row : List ℕ)
    → determine_split_row groups start end ≡ some row
    → (lex row start ≢ Ordering.lt) × (lex row end ≡ Ordering.lt)
unfolding outside
determine_split_row-inside groups start end row h =
    let inside = determine-inside groups start end row h in
    (ground (arith, inside), ground (arith, inside))

-- The soft limit of the two new ranges is twice the old one, as far as the maximum allows; it does not
-- exceed the maximum and does not fall. The old one does not exceed it either, and the maximum is below
-- 2 ^ 63, so that 64 bits are enough.
pub grow_limit_bounds :
    (range_max soft_limit : ℕ)
    → range_max < 2 ^ 63
    → soft_limit ≤ range_max
    → (grow_limit range_max soft_limit ≡ min (2 * soft_limit) range_max)
      × (grow_limit range_max soft_limit ≤ range_max)
      × (soft_limit ≤ grow_limit range_max soft_limit)
unfolding grow_limit
grow_limit_bounds m s h k = (ground arith, ground arith, ground arith)

-- What `split_install_log` leaves behind.
abbrev pub installed : Environment → Range → List ℕ → Range
installed env r row = record r {
  split_row = row;
  split_log = true;
  state = record r.state {
    state = split_log_installed;
    timestamp = r.timestamp;
    split_point = some row;
    transfer_log = some (env.transfer_log row);
  };
}

abbrev pub installed_world : Environment → Range → World → List ℕ → World
installed_world env r w row = record w {
  log =
      w.log
      ++ (split_start (spec r.start_row r.end_row) (spec r.start_row row)
            (installed env r row).state
          ∷ []);
}

pub split_install_log-found :
    (env : Environment) (r : Range) (w : World) (row : List ℕ)
    → determine_split_row env.groups r.start_row r.end_row ≡ some row
    → split_install_log env r w ≡ (completed, installed env r row, installed_world env r w row)
unfolding split_install_log
split_install_log-found env r w row found = rw (found, split_install_log) refl

pub run_split-steady :
    (env : Environment) (r : Range) (w : World) (row : List ℕ)
    → r.state.state ≡ steady
    → determine_split_row env.groups r.start_row r.end_row ≡ some row
    → run_split env r w ≡ shrink_and_notify env (installed env r row) (installed_world env r w row)
unfolding run_split
run_split-steady env r w row s found =
    let b : (r.state.state == steady) ≡ true = ground arith in
    rw (b, split_install_log-found env r w row found) (unfold after_install in refl)

abbrev pub done : Step → Step
done s = (s.0, record s.1 { maintenance = false }, s.2)

pub split-run :
    (env : Environment) (r : Range) (w : World)
    → r.maintenance ≡ true
    → r.is_root ≡ false
    → split env r w ≡ done (run_split env r w)
unfolding split
split-run env r w m root =
    let b : (r.maintenance && not r.is_root) ≡ true = ground arith in rw b refl
