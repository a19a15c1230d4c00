-- ===== src/ScanSpec/Tests.antt =====
-- A scan of one row interval and two columns.
use hypertable.Base.{◌-◌, ◌^◌, ◌≡◌, refl, true, false, [], ◌∷◌, none, some, arith}
use hypertable.Serialization.Codec.{IsText}
use hypertable.ScanSpec.{ScanSpec, RowInterval, cleared, base_copy}
use hypertable.ScanSpec.RoundTrip.{IsStorable}

abbrev interval : RowInterval
interval = record {
  start = some (b'a' ∷ []);
  start_inclusive = true;
  end = none;
  end_inclusive = false;
}

abbrev spec : ScanSpec
spec = record cleared {
  row_limit = 10;
  columns = some (b'x' ∷ []) ∷ some (b'y' ∷ []) ∷ [];
  row_intervals = interval ∷ [];
  end_time = 2 ^ 63 - 1;
  return_deletes = true;
}

copied : base_copy spec ≡ record spec { row_intervals = [] }
unfolding base_copy
copied = refl

spec-IsStorable : IsStorable spec
unfolding IsText
spec-IsStorable = record {
  row_limit = omega arith;
  max_versions = omega arith;
  columns =
      (omega arith, (((omega arith, tt), omega arith), (((omega arith, tt), omega arith), tt)));
  row_intervals = (omega arith, ((((omega arith, tt), omega arith), (tt, omega arith)), tt));
  cell_intervals = (omega arith, tt);
  start_time = omega arith;
  end_time = omega arith;
}
