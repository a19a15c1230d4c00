-- ===== src/MergeScanner/Counts.antt =====
-- The limits on rows and versions, and what the counters of `forward` stand for.
use hypertable.Base.{
  ℕ, ◌+◌, ◌≡◌, ◌≢◌, ◌⊎◌, refl, Bool, true, false, ◌&&◌, ◌||◌, List, [], ◌∷◌, leb, ◌==◌,
  if◌then◌else◌, All,
}
use Prim.Native.Nat.{Ordering}
use hypertable.Deletes.{CellKey, key_bytes, key_compare, cell_bytes, same}
use hypertable.Deletes.Sorted.{IsCell}
use hypertable.MergeScanner.{Cell, Settings, Counters, limit}
use hypertable.MergeScanner.Queue.{key_compare_trans}

abbrev pub any_of : (CellKey → Bool) → List CellKey → Bool
any_of p [] = false
any_of p (q ∷ qs) = p q || any_of p qs

-- The number of rows among the cells.
unfoldable pub rows : List CellKey → ℕ
rows [] = 0
rows (k ∷ ks) = if any_of (λ q. same k.row q.row) ks then rows ks else rows ks + 1

-- The number of versions of a key's cell among the cells.
unfoldable pub versions : CellKey → List CellKey → ℕ
versions k [] = 0
versions k (q ∷ qs) =
    if same (cell_bytes k) (cell_bytes q) then versions k qs + 1 else versions k qs

-- A limit of 0 is none.
abbrev pub within : ℕ → ℕ → Bool
within limit n = (limit == 0) || leb n limit

-- The cells before it, the last one first, and the cell: whether the limits let it through.
abbrev pub let_through : Settings → List CellKey → CellKey → Bool
let_through cfg before k =
    within cfg.row_limit (rows (k ∷ before))
    && within (cfg.max_versions k.family) (versions k before + 1)

unfoldable pub chosen : Settings → List CellKey → List Cell → List Cell
chosen cfg before [] = []
chosen cfg before (c ∷ m) =
    let rest = chosen cfg (c.key ∷ before) m in
    if let_through cfg before c.key then c ∷ rest else rest

-- The counters stand for the cells so far, the last of which is `h`.
pub record Counts (cfg : Settings) (n : Counters) (h : CellKey) (b : List CellKey) : Type 0 where
  pub last : CellKey
  pub prev : n.prev_key ≡ key_bytes last
  pub last_cell : IsCell last
  pub cell : IsCell h
  pub cells : All IsCell b
  pub order : All (λ q. key_compare q h ≢ Ordering.gt) b
  pub same_last : same (cell_bytes h) (cell_bytes last) ≡ true
  pub limit : n.cell_limit ≡ cfg.max_versions h.family
  pub counted : (n.cell_limit ≡ 0) ⊎ (n.cell_count + 1 ≡ versions h (h ∷ b))
  pub counted_rows : (cfg.row_limit ≡ 0) ⊎ (n.row_count + 1 ≡ rows (h ∷ b))
  pub room : within cfg.row_limit (rows (h ∷ b)) ≡ true

pub versions-apart :
    (k : CellKey) (b : List CellKey)
    → All (λ q. same (cell_bytes k) (cell_bytes q) ≡ false) b
    → versions k b ≡ 0
unfolding versions
versions-apart k [] a = refl
versions-apart k (q ∷ b) a = rw a.0 (versions-apart k b a.1)

pub any_of-apart :
    (k : CellKey) (b : List CellKey)
    → All (λ q. same k.row q.row ≡ false) b
    → any_of (λ q. same k.row q.row) b ≡ false
any_of-apart k [] a = refl
any_of-apart k (q ∷ b) a = rw (a.0, any_of-apart k b a.1) refl

pub versions-bytes :
    (k h : CellKey) (b : List CellKey) → cell_bytes k ≡ cell_bytes h → versions k b ≡ versions h b
unfolding versions
versions-bytes k h [] e = refl
versions-bytes k h (q ∷ b) e = rw (e, versions-bytes k h b e) refl

pub All-not_behind :
    (h k : CellKey) (b : List CellKey)
    → All (λ q. key_compare q h ≢ Ordering.gt) b
    → key_compare h k ≢ Ordering.gt
    → All (λ q. key_compare q k ≢ Ordering.gt) b
All-not_behind h k [] a o = tt
All-not_behind h k (q ∷ b) a o = (key_compare_trans q h k a.0 o, All-not_behind h k b a.1 o)
