-- ===== src/Deletes.antt =====
-- src/cc/Hypertable/RangeServer/CellCache.cc: the deletes that a pass over sorted cells keeps in mind.
-- MergeScanner.cc has the same code.
-- A cell's key is taken apart as `Key::load` does, with the row and the qualifier as the characters
-- before their NUL. A `DynamicBuffer` is its bytes. Timestamps are not negative.
pub mod Newest
pub mod Track
pub mod Check
pub mod Sorted
use hypertable.Base.{
  ℕ, ◌+◌, ◌≡◌, Bool, true, false, ◌&&◌, not, List, [], ◌∷◌, ◌++◌, ltb, leb, ◌==◌, if◌then◌else◌,
  length, some,
}
use Prim.Native.Nat.{Ordering}
use hypertable.ByteString.Order.{lex, is_eq}
use hypertable.Key.{write_key}

pub record CellKey : Type 0 where
  pub row : List ℕ
  pub family : ℕ
  pub qualifier : List ℕ
  pub flag : ℕ
  pub timestamp : ℕ

-- The key behind its length: what `write_key` put down.
unfoldable pub key_bytes : CellKey → List ℕ
key_bytes k = write_key k.flag k.row k.family (some k.qualifier) k.timestamp

-- `operator<` of byte strings compares the keys as bytes.
unfoldable pub key_compare : CellKey → CellKey → Ordering
key_compare k q = lex (key_bytes k) (key_bytes q)

-- The bytes of a key from `row` on: `strlen(row) + 1` of them, those up to `column_qualifier`, and
-- those of the qualifier with its NUL too.
unfoldable pub row_bytes : CellKey → List ℕ
row_bytes k = k.row ++ (0 ∷ [])

unfoldable pub family_bytes : CellKey → List ℕ
family_bytes k = k.row ++ (0 ∷ k.family ∷ [])

unfoldable pub cell_bytes : CellKey → List ℕ
cell_bytes k = k.row ++ (0 ∷ k.family ∷ (k.qualifier ++ (0 ∷ [])))

-- `fill() == len && !memcmp(base, row, len)`.
unfoldable pub same : List ℕ → List ℕ → Bool
same p q = is_eq (lex p q)

-- One of the three buffers with its timestamp.
pub record Deleted : Type 0 where
  pub buffer : List ℕ
  pub time : ℕ

pub record Deletes : Type 0 where
  pub present : Bool
  pub row : Deleted
  pub family : Deleted
  pub cell : Deleted

abbrev pub none_deleted : Deleted
none_deleted = record { buffer = []; time = 0 }

abbrev pub no_deletes : Deletes
no_deletes = record {
  present = false;
  row = none_deleted;
  family = none_deleted;
  cell = none_deleted;
}

-- A delete of the same bytes makes the timestamp later, and one of others takes the place.
unfoldable pub note_delete : Bool → List ℕ → ℕ → Deleted → Deleted
note_delete present bytes timestamp d =
    if present && same d.buffer bytes
    then (if ltb d.time timestamp then record d { time = timestamp } else d)
    else record { buffer = bytes; time = timestamp }

-- The branches for the three kinds of deletes.
unfoldable pub track : CellKey → Deletes → Deletes
track k s =
    if k.flag == 0
    then record s { present = true; row = note_delete s.present (row_bytes k) k.timestamp s.row }
    else if k.flag == 1
    then record s {
      present = true;
      family = note_delete s.present (family_bytes k) k.timestamp s.family;
    }
    else if k.flag == 2
    then record s { present = true; cell = note_delete s.present (cell_bytes k) k.timestamp s.cell }
    else s

abbrev pub clear : Deleted → Deleted
clear d = record d { buffer = [] }

-- For an insert: whether it is newer than the delete that covers it, if one does; and a buffer that
-- does not match is cleared on the way.
unfoldable pub check_row : CellKey → Deletes → Bool × Deletes
check_row k s =
    if leb 1 (length s.row.buffer)
    then (if same s.row.buffer (row_bytes k)
        then (ltb s.row.time k.timestamp, s)
        else (true, record s { row = clear s.row; present = false }))
    else (true, record s { present = false })

unfoldable pub check_family : CellKey → Deletes → Bool × Deletes
check_family k s =
    if leb 1 (length s.family.buffer)
    then (if same s.family.buffer (family_bytes k)
        then (ltb s.family.time k.timestamp, s)
        else check_row k (record s { family = clear s.family }))
    else check_row k s

unfoldable pub check_cell : CellKey → Deletes → Bool × Deletes
check_cell k s =
    if leb 1 (length s.cell.buffer)
    then (if same s.cell.buffer (cell_bytes k)
        then (ltb s.cell.time k.timestamp, s)
        else check_family k (record s { cell = clear s.cell }))
    else check_family k s

unfoldable pub check : CellKey → Deletes → Bool × Deletes
check k s = if s.present then check_cell k s else (true, s)
