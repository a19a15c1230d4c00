-- ===== src/CellCacheScanner/Rows.antt =====
-- The cells that the scanner of a cell cache gives.
use hypertable.Base.{
  ℕ, ◌≤◌, ◌≡◌, ◌≢◌, refl, ◌∙◌, ◌&&◌, not, List, [], ◌∷◌, arith, if◌then◌else◌, length,
}
use Prim.Native.Nat.{Ordering}
use hypertable.ByteString.Order.{lex, is_lt}
use hypertable.Key.{write_key}
use hypertable.Key.RoundTrip.{IsCstring}
use hypertable.Key.Order.{lex-nul}
use hypertable.Deletes.{CellKey, key_bytes}
use hypertable.CellCache.{Entry, CellCache}
use hypertable.CellCache.Purge.{IsMap}
use hypertable.CellCacheScanner.{ScanContext, row_bound, passes, create_scanner, read_cells}
use hypertable.CellCacheScanner.Bounds.{given, tail-IsMap, read_cells-given}

-- The cells of the rows from the start row to before the end row that the families let through.
unfoldable pub wanted : ScanContext → List Entry → List Entry
wanted ctx [] = []
wanted ctx (e ∷ es) =
    let rest = wanted ctx es in
    if not (is_lt (lex e.key.row ctx.start_row))
      && is_lt (lex e.key.row ctx.end_row)
      && passes ctx e.key
    then e ∷ rest
    else rest

-- A key lies before a row's bound where its row lies before the row.
bound-row :
    (k : CellKey) (row : List ℕ)
    → IsCstring k.row
    → IsCstring row
    → is_lt (lex (key_bytes k) (row_bound row)) ≡ is_lt (lex k.row row)
unfolding key_bytes write_key lex
bound-row k row a b = rw (lex-nul k.row row _ [] a b) (ground arith)

-- Between rows, the keys inside the bounds are those whose rows are.
given-wanted :
    (ctx : ScanContext) (es : List Entry)
    → IsCstring ctx.start_row
    → IsCstring ctx.end_row
    → IsMap es
    → given ctx es ≡ wanted ctx es
unfolding given wanted
given-wanted ctx [] a b m = refl
given-wanted ctx (e ∷ es) a b m =
    rw
      (
        bound-row e.key ctx.start_row m.cells.0.row a,
        bound-row e.key ctx.end_row m.cells.0.row b,
        given-wanted ctx es a b (tail-IsMap e es m),
      )
      (ground arith)

-- From the map of a cell cache, which is in order, a scanner gives the cells whose rows are not
-- before the start row and lie before the end row, and whose column families the scan asks for, or
-- which are deletes of rows, in their order and no others; as many rounds as the map has cells are
-- enough. The start row is not behind the end row, and neither holds a NUL.
pub read_cells-wanted :
    (ctx : ScanContext)
    → IsCstring ctx.start_row
    → IsCstring ctx.end_row
    → lex ctx.start_row ctx.end_row ≢ Ordering.gt
    → (c : CellCache) (rounds : ℕ) → IsMap c.cell_map
    → length c.cell_map ≤ rounds
    → read_cells ctx rounds (create_scanner ctx c) ≡ wanted ctx c.cell_map
read_cells-wanted ctx a b o c rounds m l =
    read_cells-given ctx c rounds o m l ∙ given-wanted ctx c.cell_map a b m
