-- ===== src/ScanContext.antt =====
-- src/cc/Hypertable/RangeServer/ScanContext.h and ScanContext.cc: what a scan takes in, from its
-- specification and the schema.
-- A time is its 64 bits. The tables of 256 column
-- families are functions, and `undefined` is an access behind their end, or through a null pointer.
pub mod Rows
pub mod Families
pub mod Asked
pub mod Overrun
pub mod Reads
pub mod Cells
mod Tests
use hypertable.Base.{
  ℕ, ◌+◌, Bool, true, false, not, List, [], ◌∷◌, ◌++◌, ◌==◌, if◌then◌else◌, length, ◌*◌, ◌-◌, ◌%◌,
  ◌^◌, ltb, Option, none, some, get_elem?,
}
use Prim.Native.Nat.{Ordering}
use hypertable.ByteString.Order.{lex}
use hypertable.Serialization.Codec.{Cstring, chars}
use hypertable.ScanSpec.{RowInterval, CellInterval, ScanSpec}
use hypertable.Schema.{ColumnFamily, AccessGroup, Schema, get_column_family}

-- `Key::END_ROW_MARKER`.
abbrev pub end_row_marker : List ℕ
end_row_marker = 0xff ∷ 0xff ∷ []

-- The last character and one more, or a character behind it.
unfoldable pub bump : List ℕ → List ℕ
bump [] = []
bump (x ∷ []) = if x == 0xff then x ∷ 1 ∷ [] else (x + 1) ∷ []
bump (x ∷ y ∷ xs) = x ∷ bump (y ∷ xs)

-- The start row; `row_bounds` tests that the interval has no null pointers.
unfoldable pub start_of : RowInterval → List ℕ
start_of i = if not i.start_inclusive then chars i.start ++ (1 ∷ []) else chars i.start

unfoldable pub end_of : RowInterval → List ℕ
end_of i =
    if length (chars i.end) == 0
    then end_row_marker
    else if i.end_inclusive
    then bump (chars i.end)
    else chars i.end

pub data Failure : Type 0 where
  invalid_column_family invalid_cfid bad_scan_spec undefined : Failure

pub data Outcome {ℓ} (A : Type ℓ) : Type ℓ where
  done : A → Outcome A
  failed : Failure → Outcome A

pub record CellFilterInfo : Type 0 where
  pub cutoff_time : ℕ
  pub max_versions : ℕ

pub record Filters : Type 0 where
  pub family_mask : ℕ → Bool
  pub family_info : ℕ → CellFilterInfo

-- The two calls of `memset`.
unfoldable pub same_filters : Bool → Filters
same_filters b = record {
  family_mask = λ f. b;
  family_info = λ f. record { cutoff_time = 0; max_versions = 0 };
}

unfoldable pub cutoff : ℕ → ℕ → ℕ
cutoff ts ttl = if ttl == 0 then 0 else (ts + 2 ^ 64 - ttl * 1000000000 % 2 ^ 64) % 2 ^ 64

unfoldable pub fewer_versions : ℕ → ℕ → ℕ
fewer_versions max_versions v =
    if max_versions == 0
    then v
    else if v == 0
    then max_versions
    else if ltb max_versions v
    then max_versions
    else v

unfoldable pub put_family : ℕ → ℕ → ColumnFamily → Filters → Filters
put_family ts max_versions cf fs = record {
  family_mask = λ f. if f == cf.id then true else fs.family_mask f;
  family_info = λ f.
      if f == cf.id
      then record {
        cutoff_time = cutoff ts cf.ttl;
        max_versions = fewer_versions max_versions cf.max_versions;
      }
      else fs.family_info f;
}

-- The loop over the columns that are asked for; the schema is as the lookups leave it.
unfoldable pub add_columns : ℕ → ℕ → List Cstring → Filters → Schema → Outcome Filters × Schema
add_columns ts max_versions [] fs s = (done fs, s)
add_columns ts max_versions (c ∷ cs) fs s = elim (get_column_family (chars c) s).0 [
  | none ↦ (failed invalid_column_family, (get_column_family (chars c) s).1)
  | some cf ↦ elim (ltb cf.id 256) [
    | false ↦ (failed undefined, (get_column_family (chars c) s).1)
    | true ↦
        add_columns ts max_versions cs (put_family ts max_versions cf fs)
          (get_column_family (chars c) s).1
  ]
]

-- The loops over the access groups and their columns.
unfoldable pub add_group : ℕ → ℕ → List ColumnFamily → List ℕ → Filters → Outcome Filters
add_group ts max_versions families [] fs = done fs
add_group ts max_versions families (ptr ∷ ptrs) fs = elim (get_elem? families ptr) [
  | none ↦ failed undefined
  | some cf ↦ elim (cf.id == 0) [
    | true ↦ failed invalid_cfid
    | false ↦ elim (ltb cf.id 256) [
      | false ↦ failed undefined
      | true ↦ add_group ts max_versions families ptrs (put_family ts max_versions cf fs)
    ]
  ]
]

unfoldable pub add_groups : ℕ → ℕ → List ColumnFamily → List AccessGroup → Filters → Outcome Filters
add_groups ts max_versions families [] fs = done fs
add_groups ts max_versions families (g ∷ gs) fs =
    elim (add_group ts max_versions families g.columns fs) [
      | failed e ↦ failed e
      | done fs1 ↦ add_groups ts max_versions families gs fs1
    ]

-- Deletes of rows have the column family 0.
unfoldable pub let_deletes : Filters → Filters
let_deletes fs = record fs { family_mask = λ f. if f == 0 then true else fs.family_mask f }

unfoldable pub filters_of : ℕ → Option ScanSpec → Option Schema → Outcome Filters × Option Schema
filters_of ts none none = (done (same_filters true), none)
filters_of ts (some spec) none = (done (same_filters false), none)
filters_of ts none (some s) =
    (add_groups ts 0 s.families s.access_groups (let_deletes (same_filters true)), some s)
filters_of ts (some spec) (some s) =
    if length spec.columns == 0
    then (
      add_groups ts spec.max_versions s.families s.access_groups (let_deletes (same_filters false)),
      some s,
    )
    else (let (r, s1) = add_columns ts spec.max_versions spec.columns (same_filters false) s in
        (r, some s1))

-- A signed comparison of 64 bits.
unfoldable pub less_signed : ℕ → ℕ → Bool
less_signed a b = ltb ((a + 2 ^ 63) % 2 ^ 64) ((b + 2 ^ 63) % 2 ^ 64)

abbrev pub end_of_time : ℕ
end_of_time = 2 ^ 63 - 1

unfoldable pub end_time_of : ℕ → Option ScanSpec → ℕ
end_time_of ts none = ts
end_time_of ts (some spec) =
    if ts == 0
    then spec.end_time
    else if not (spec.end_time == 0)
    then (if less_signed spec.end_time ts then spec.end_time else ts)
    else ts

unfoldable pub interval_of : ℕ → Option ScanSpec → ℕ × ℕ
interval_of ts spec = (
  elim spec [ none ↦ 0 | some sp ↦ sp.start_time ],
  if end_time_of ts spec == 0 then end_of_time else end_time_of ts spec,
)

-- What stands before the first colon, and what behind it.
unfoldable pub strchr : List ℕ → Option (List ℕ × List ℕ)
strchr [] = none
strchr (x ∷ xs) = if x == b':' then some ([], xs) else (elim (strchr xs) [
  | none ↦ none
  | some (family, qualifier) ↦ some (x ∷ family, qualifier)
])

-- The row, the family's id and the qualifier as they stand in a key; `bumped` is to the next cell.
unfoldable pub cell_bound :
    Cstring → List ℕ → Bool → Option Schema → Outcome (List ℕ) × Option Schema
cell_bound row column bumped schema = elim (strchr column) [
  | none ↦ (failed bad_scan_spec, schema)
  | some (family, qualifier) ↦ elim schema [
    | none ↦ (failed undefined, none)
    | some s ↦ elim (get_column_family family s).0 [
      | none ↦ (failed bad_scan_spec, some (get_column_family family s).1)
      | some cf ↦ elim row [
        | none ↦ (failed undefined, some (get_column_family family s).1)
        | some chars ↦ (
          done (chars ++ (0 ∷ cf.id % 256 ∷ (qualifier ++ (if bumped then 1 ∷ [] else [])))),
          some (get_column_family family s).1,
        )
      ]
    ]
  ]
]

-- `start_row = spec->cell_intervals[0].start_row`.
unfoldable pub copied : Cstring → Outcome (List ℕ)
copied none = failed undefined
copied (some row) = done row

unfoldable pub cell_start : CellInterval → Option Schema → Outcome (List ℕ) × Option Schema
cell_start i schema = elim i.start_column [
  | none ↦ (failed undefined, schema)
  | some column ↦
      if length column == 0
      then (copied i.start_row, schema)
      else cell_bound i.start_row column (not i.start_inclusive) schema
]

unfoldable pub cell_end : CellInterval → Option Schema → Outcome (List ℕ) × Option Schema
cell_end i schema = elim i.end_column [
  | none ↦ (failed undefined, schema)
  | some column ↦
      if length column == 0
      then (copied i.end_row, schema)
      else cell_bound i.end_row column i.end_inclusive schema
]

-- The start and end row of a row interval.
unfoldable pub row_bounds : RowInterval → Outcome (List ℕ × List ℕ)
row_bounds i = elim i.start [
  | none ↦ failed undefined
  | some start ↦ elim i.end [ none ↦ failed undefined | some end ↦ done (start_of i, end_of i) ]
]

-- The start and the end row; only the first interval counts.
unfoldable pub rows_of : ScanSpec → Option Schema → Outcome (List ℕ × List ℕ) × Option Schema
rows_of spec schema = elim spec.row_intervals [
  | i ∷ is ↦ (row_bounds i, schema)
  | [] ↦ elim spec.cell_intervals [
    | [] ↦ (done ([], end_row_marker), schema)
    | i ∷ is ↦ elim (cell_start i schema).0 [
      | failed e ↦ (failed e, (cell_start i schema).1)
      | done start ↦ elim (cell_end i (cell_start i schema).1).0 [
        | failed e ↦ (failed e, (cell_end i (cell_start i schema).1).1)
        | done end ↦ (done (start, end), (cell_end i (cell_start i schema).1).1)
      ]
    ]
  ]
]

unfoldable pub checked_rows :
    Option ScanSpec → Option Schema → Outcome (List ℕ × List ℕ) × Option Schema
checked_rows none schema = (done ([], end_row_marker), schema)
checked_rows (some spec) schema = elim (rows_of spec schema).0 [
  | failed e ↦ (failed e, (rows_of spec schema).1)
  | done rows ↦ elim (lex rows.0 rows.1) [
    | Ordering.gt ↦ (failed bad_scan_spec, (rows_of spec schema).1)
    | Ordering.lt ↦ (done rows, (rows_of spec schema).1)
    | Ordering.eq ↦ (done rows, (rows_of spec schema).1)
  ]
]

pub record Context : Type 0 where
  pub start_row : List ℕ
  pub end_row : List ℕ
  pub interval : ℕ × ℕ
  pub filters : Filters

unfoldable pub initialize : ℕ → Option ScanSpec → Option Schema → Outcome Context × Option Schema
initialize ts spec schema = elim (filters_of ts spec schema).0 [
  | failed e ↦ (failed e, (filters_of ts spec schema).1)
  | done fs ↦ elim (checked_rows spec (filters_of ts spec schema).1).0 [
    | failed e ↦ (failed e, (checked_rows spec (filters_of ts spec schema).1).1)
    | done rows ↦ (
      done (record {
        start_row = rows.0;
        end_row = rows.1;
        interval = interval_of ts spec;
        filters = fs;
      }),
      (checked_rows spec (filters_of ts spec schema).1).1,
    )
  ]
]
