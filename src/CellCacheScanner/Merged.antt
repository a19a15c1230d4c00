-- ===== src/CellCacheScanner/Merged.antt =====
-- The scanner of a cell cache as one of those that are merged.
use hypertable.Base.{
  ◌≡◌, ◌≢◌, inl, inr, ◌&&◌, not, Bool-cases, List, [], ◌∷◌, arith, length, map, All,
}
use Prim.Native.Nat.{Ordering}
use hypertable.ByteString.Order.{lex, is_lt}
use hypertable.Key.RoundTrip.{IsCstring}
use hypertable.Deletes.{key_compare}
use hypertable.Deletes.Sorted.{Ascending}
use hypertable.CellCache.{Entry, CellCache}
use hypertable.CellCache.Purge.{IsMap, keys}
use hypertable.MergeScanner.{Cell}
use hypertable.MergeScanner.Queue.{IsScanner, Below, empty-IsScanner, cons-IsScanner}
use hypertable.CellCacheScanner.{ScanContext, passes, create_scanner, read_cells}
use hypertable.CellCacheScanner.Bounds.{tail-IsMap}
use hypertable.CellCacheScanner.Rows.{wanted, read_cells-wanted}

-- The cells as a merge scanner takes them.
abbrev pub cells_of : List Entry → List Cell
cells_of es = map (λ e. record { key = e.key; value = e.value }) es

wanted-Below :
    (ctx : ScanContext) (c : Cell) (es : List Entry)
    → Below c (cells_of es)
    → Below c (cells_of (wanted ctx es))
unfolding wanted
wanted-Below ctx c [] h = tt
wanted-Below ctx c (e ∷ es) h =
    let rest = wanted-Below ctx c es h.1 in
    elim (Bool-cases (
      not (is_lt (lex e.key.row ctx.start_row))
      && is_lt (lex e.key.row ctx.end_row)
      && passes ctx e.key)) [ inl t ↦ rw t (h.0, rest) | inr t ↦ rw t rest ]

Ascending-Below :
    (c : Cell) (es : List Entry)
    → All (λ k. key_compare c.key k ≡ Ordering.lt) (keys es)
    → Below c (cells_of es)
Ascending-Below c [] h = tt
Ascending-Below c (e ∷ es) h = ((λ g. ground (arith, h.0)), Ascending-Below c es h.1)

wanted-IsScanner :
    (ctx : ScanContext) (es : List Entry) → IsMap es → IsScanner (cells_of (wanted ctx es))
unfolding wanted Ascending
wanted-IsScanner ctx [] m = empty-IsScanner
wanted-IsScanner ctx (e ∷ es) m =
    let rest = wanted-IsScanner ctx es (tail-IsMap e es m) in
    let c : Cell = record { key = e.key; value = e.value } in
    let below = wanted-Below ctx c es (Ascending-Below c es m.ascending.0) in
    elim (Bool-cases (
      not (is_lt (lex e.key.row ctx.start_row))
      && is_lt (lex e.key.row ctx.end_row)
      && passes ctx e.key)) [
        | inl t ↦ rw t (cons-IsScanner c (cells_of (wanted ctx es)) m.cells.0 below rest)
        | inr t ↦ rw t rest
      ]

-- What a scanner gives from the map of a cell cache, which is in order, a merge scanner can take: the cells
-- come in the order of their keys. The start row is not behind the end row, and neither holds a NUL.
pub read_cells-IsScanner :
    (ctx : ScanContext) (c : CellCache)
    → IsCstring ctx.start_row
    → IsCstring ctx.end_row
    → lex ctx.start_row ctx.end_row ≢ Ordering.gt
    → IsMap c.cell_map
    → IsScanner (cells_of (read_cells ctx (length c.cell_map) (create_scanner ctx c)))
read_cells-IsScanner ctx c a b o m =
    rw (read_cells-wanted ctx a b o c (length c.cell_map) m (omega arith))
      (wanted-IsScanner ctx c.cell_map m)
