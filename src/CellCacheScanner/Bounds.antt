-- ===== src/CellCacheScanner/Bounds.antt =====
-- The cells that the scanner of a cell cache gives, by the keys that bound them.
use hypertable.Base.{
  ℕ, zero, suc, ◌≤◌, ◌≡◌, ◌≢◌, inl, inr, refl, sym, ap, ◌∙◌, Bool, true, false, ◌&&◌, not,
  Bool-cases, List, [], ◌∷◌, arith, ◌==◌, if◌then◌else◌, length,
}
use Prim.Native.Nat.{Ordering}
use hypertable.ByteString.Order.{lex, is_lt, lex-eq, lex-flip, lex_trans}
use hypertable.Deletes.{CellKey, key_bytes, key_compare}
use hypertable.Deletes.Sorted.{Ascending}
use hypertable.CellCache.{Entry, CellCache}
use hypertable.CellCache.Purge.{IsMap}
use hypertable.CellCacheScanner.{
  ScanContext, CellCacheScanner, lower_bound, row_bound, passes, seek, create_scanner, get, forward,
  read_cells,
}

-- A key that does not lie before the start's bound, and lies before the end's.
abbrev pub inside : ScanContext → CellKey → Bool
inside ctx k =
    not (is_lt (lex (key_bytes k) (row_bound ctx.start_row)))
    && is_lt (lex (key_bytes k) (row_bound ctx.end_row))

-- The cells inside the bounds that the families let through.
unfoldable pub given : ScanContext → List Entry → List Entry
given ctx [] = []
given ctx (e ∷ es) =
    let rest = given ctx es in if inside ctx e.key && passes ctx e.key then e ∷ rest else rest

-- Bounds are in the order of their rows.
row_bound-ordered :
    (s t : List ℕ) → lex s t ≢ Ordering.gt → is_lt (lex (row_bound t) (row_bound s)) ≡ false
unfolding lex
row_bound-ordered [] [] h = refl
row_bound-ordered [] (y ∷ []) h = ground arith
row_bound-ordered [] (y ∷ z ∷ t) h = ground arith
row_bound-ordered (x ∷ s) [] h = absurd (h refl)
row_bound-ordered (x ∷ s) (y ∷ t) h = ground (arith, row_bound-ordered s t)

pub tail-IsMap : (e : Entry) (es : List Entry) → IsMap (e ∷ es) → IsMap es
unfolding Ascending
tail-IsMap e es m = record { ascending = m.ascending.1; cells = m.cells.1 }

length-lower_bound : (b : List ℕ) (es : List Entry) → length (lower_bound b es) ≤ length es
unfolding lower_bound
length-lower_bound b [] = omega arith
length-lower_bound b (e ∷ es) = ground (arith, length-lower_bound b es)

itself : (n : ℕ) → (n == n) ≡ true
itself n = ground arith

module _ (ctx : ScanContext) where
  -- What a scanner at this place reads up to the end.
  unfoldable between : List Entry → List Entry → List Entry
  between last [] = []
  between last (e ∷ es) =
      let rest = between last es in
      if length (e ∷ es) == length last then [] else if passes ctx e.key then e ∷ rest else rest

  between-inside :
      (e : Entry) (es last : List Entry)
      → (length (e ∷ es) == length last) ≡ false
      → between last es ≡ given ctx es
      → between last (e ∷ es) ≡ (if passes ctx e.key then e ∷ given ctx es else given ctx es)
  unfolding between
  between-inside e es last h r = rw (h, r) refl

  given-inside :
      (e : Entry) (es : List Entry)
      → is_lt (lex (key_bytes e.key) (row_bound ctx.end_row)) ≡ true
      → is_lt (lex (key_bytes e.key) (row_bound ctx.start_row)) ≡ false
      → given ctx (e ∷ es) ≡ (if passes ctx e.key then e ∷ given ctx es else given ctx es)
  unfolding given
  given-inside e es h s = rw (h, s) refl

  read_cells-eos : (fuel : ℕ) (s : CellCacheScanner) → s.eos ≡ true → read_cells ctx fuel s ≡ []
  unfolding read_cells get
  read_cells-eos zero s e = refl
  read_cells-eos (suc fuel) s e = rw (read_cells, get, e) refl

  read_cells-seek :
      (es last : List Entry) (fuel : ℕ)
      → length es ≤ fuel
      → read_cells ctx fuel (seek ctx last es) ≡ between last es
  unfolding between seek read_cells get forward
  read_cells-seek [] last fuel l =
      read_cells-eos fuel (record { current = []; last = last; eos = true }) refl
  read_cells-seek (e ∷ es) last zero l = absurd (omega arith)
  read_cells-seek (e ∷ es) last (suc fuel) l = elim (Bool-cases (length (e ∷ es) == length last)) [
    | inl h ↦
        rw h (read_cells-eos (suc fuel) (record { current = e ∷ es; last = last; eos = true }) refl)
    | inr h ↦ elim (Bool-cases (passes ctx e.key)) [
      | inl p ↦ rw (h, p) (ap (λ r. e ∷ r) (read_cells-seek es last fuel (omega arith)))
      | inr p ↦ rw (h, p) (read_cells-seek es last (suc fuel) (omega arith))
    ]
  ]

  not_before :
      (s x y : List ℕ) → is_lt (lex x s) ≡ false → lex x y ≡ Ordering.lt → is_lt (lex y s) ≡ false
  not_before s x y h k = ground (arith, lex_trans x y s)

  keys_ascend :
      (e d : Entry) (es : List Entry)
      → IsMap (e ∷ d ∷ es)
      → lex (key_bytes e.key) (key_bytes d.key) ≡ Ordering.lt
  unfolding Ascending key_compare
  keys_ascend e d es m = m.ascending.0.0

  given-none :
      (e : Entry) (es : List Entry)
      → IsMap (e ∷ es)
      → is_lt (lex (key_bytes e.key) (row_bound ctx.end_row)) ≡ false
      → given ctx es ≡ []
  unfolding given
  given-none e [] m h = refl
  given-none e (d ∷ es) m h =
      let n =
        not_before (row_bound ctx.end_row) (key_bytes e.key) (key_bytes d.key) h
          (keys_ascend e d es m) in
      let rest = given-none d es (tail-IsMap e (d ∷ es) m) n in ground (arith, n, rest)

  abbrev from_start : List Entry → List Entry
  from_start es = lower_bound (row_bound ctx.start_row) es

  abbrev from_end : List Entry → List Entry
  from_end es = lower_bound (row_bound ctx.end_row) es

  -- What is not before the end is not before the start.
  in_order :
      (k : CellKey)
      → lex ctx.start_row ctx.end_row ≢ Ordering.gt
      → is_lt (lex (key_bytes k) (row_bound ctx.end_row)) ≡ false
      → is_lt (lex (key_bytes k) (row_bound ctx.start_row)) ≡ false
  in_order k o h = ground (
    arith,
    row_bound-ordered ctx.start_row ctx.end_row o,
    lex_trans (key_bytes k) (row_bound ctx.start_row) (row_bound ctx.end_row),
    lex-eq (row_bound ctx.start_row) (row_bound ctx.end_row),
    lex-flip (row_bound ctx.start_row) (row_bound ctx.end_row),
  )

  from_start-all :
      (e : Entry) (es : List Entry)
      → IsMap (e ∷ es)
      → is_lt (lex (key_bytes e.key) (row_bound ctx.start_row)) ≡ false
      → from_start es ≡ es
  unfolding lower_bound
  from_start-all e [] m h = refl
  from_start-all e (d ∷ es) m h =
      rw
        (not_before (row_bound ctx.start_row) (key_bytes e.key) (key_bytes d.key) h
          (keys_ascend e d es m))
        refl

  between-here :
      (e : Entry) (es : List Entry)
      → IsMap (e ∷ es)
      → is_lt (lex (key_bytes e.key) (row_bound ctx.end_row)) ≡ true
      → is_lt (lex (key_bytes e.key) (row_bound ctx.start_row)) ≡ false
      → between (from_end es) (from_start es) ≡ given ctx es
      → between (from_end (e ∷ es)) (from_start (e ∷ es)) ≡ given ctx (e ∷ es)
  unfolding lower_bound
  between-here e es m h s more =
      let differ : (length (e ∷ es) == length (from_end es)) ≡ false =
        ground (arith, length-lower_bound (row_bound ctx.end_row) es) in
      rw (h, s)
        (between-inside e es (from_end es) differ
            (ap (λ t. between (from_end es) t) (sym (from_start-all e es m s)) ∙ more)
          ∙ sym (given-inside e es h s))

  between-given :
      (es : List Entry)
      → lex ctx.start_row ctx.end_row ≢ Ordering.gt
      → IsMap es
      → between (from_end es) (from_start es) ≡ given ctx es
  unfolding between given lower_bound
  between-given [] o m = refl
  between-given (e ∷ es) o m =
      let more = between-given es o (tail-IsMap e es m) in
      elim (Bool-cases (is_lt (lex (key_bytes e.key) (row_bound ctx.end_row)))) [
        | inr out ↦
            rw (in_order e.key o out, out, given-none e es m out, itself (length (e ∷ es))) refl
        | inl h ↦ elim (Bool-cases (is_lt (lex (key_bytes e.key) (row_bound ctx.start_row)))) [
          | inl s ↦ rw (s, h) more
          | inr s ↦ between-here e es m h s more
        ]
      ]

  -- A scanner of a map in order reads the cells inside the bounds.
  pub read_cells-given :
      (c : CellCache) (rounds : ℕ)
      → lex ctx.start_row ctx.end_row ≢ Ordering.gt
      → IsMap c.cell_map
      → length c.cell_map ≤ rounds
      → read_cells ctx rounds (create_scanner ctx c) ≡ given ctx c.cell_map
  unfolding create_scanner
  read_cells-given c rounds o m l =
      read_cells-seek (from_start c.cell_map) (from_end c.cell_map) rounds
        (omega (arith, l, length-lower_bound (row_bound ctx.start_row) c.cell_map))
      ∙ between-given c.cell_map o m
