-- ===== src/CellCacheScanner.antt =====
-- src/cc/Hypertable/RangeServer/CellCacheScanner.cc: a scan of the map of a cell cache, and the members of
-- ScanContext that it reads.
-- An iterator is what the map holds from there on. No cell is added to the map meanwhile.
pub mod Bounds
pub mod Rows
pub mod Merged
mod Tests
use hypertable.Base.{
  ℕ, zero, suc, Bool, true, false, ◌||◌, List, [], ◌∷◌, ◌++◌, Option, none, some, ◌==◌,
  if◌then◌else◌, length,
}
use hypertable.ByteString.Order.{lex, is_lt}
use hypertable.Key.{flag_delete_row}
use hypertable.Deletes.{CellKey, key_bytes}
use hypertable.CellCache.{Entry, CellCache}

pub record ScanContext : Type 0 where
  pub start_row : List ℕ
  pub end_row : List ℕ
  pub family_mask : ℕ → Bool

-- `m_cur_iter` and `m_end_iter`.
pub record CellCacheScanner : Type 0 where
  pub current : List Entry
  pub last : List Entry
  pub eos : Bool

-- `lower_bound`: the first key that does not lie before the bytes.
unfoldable pub lower_bound : List ℕ → List Entry → List Entry
lower_bound bound [] = []
lower_bound bound (e ∷ es) =
    let rest = lower_bound bound es in if is_lt (lex (key_bytes e.key) bound) then rest else e ∷ es

-- The characters with their NUL.
abbrev pub row_bound : List ℕ → List ℕ
row_bound row = row ++ (0 ∷ [])

unfoldable pub passes : ScanContext → CellKey → Bool
passes ctx k = (k.flag == flag_delete_row) || ctx.family_mask k.family

-- The loop of the constructor and of `forward`.
unfoldable pub seek : ScanContext → List Entry → List Entry → CellCacheScanner
seek ctx last [] = record { current = []; last = last; eos = true }
seek ctx last (e ∷ es) =
    let rest = seek ctx last es in
    if length (e ∷ es) == length last
    then record { current = e ∷ es; last = last; eos = true }
    else if passes ctx e.key
    then record { current = e ∷ es; last = last; eos = false }
    else rest

unfoldable pub create_scanner : ScanContext → CellCache → CellCacheScanner
create_scanner ctx c =
    seek ctx (lower_bound (row_bound ctx.end_row) c.cell_map)
      (lower_bound (row_bound ctx.start_row) c.cell_map)

unfoldable pub get : CellCacheScanner → Option Entry
get s = if s.eos then none else (elim s.current [ [] ↦ none | e ∷ es ↦ some e ])

unfoldable pub forward : ScanContext → CellCacheScanner → CellCacheScanner
forward ctx s = elim s.current [ [] ↦ record s { eos = true } | e ∷ es ↦ seek ctx s.last es ]

-- `while (scanner->get(key, value)) { ...; scanner->forward(); }`, with fuel.
unfoldable pub read_cells : ScanContext → ℕ → CellCacheScanner → List Entry
read_cells ctx zero s = []
read_cells ctx (suc fuel) s = elim (get s) [
  | none ↦ []
  | some e ↦ e ∷ read_cells ctx fuel (forward ctx s)
]
