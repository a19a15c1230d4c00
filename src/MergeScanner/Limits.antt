-- ===== src/MergeScanner/Limits.antt =====
-- A step of the counters of `forward` is what the limits ask for.
use hypertable.Base.{
  ℕ, ◌+◌, ◌≡◌, ◌≢◌, ◌⊎◌, inl, inr, refl, sym, ap, ◌∙◌, Bool, true, false, ◌&&◌, not, Bool-cases,
  List, [], ◌∷◌, arith, leb, ◌==◌, if◌then◌else◌, length, All,
}
use Prim.Native.Nat.{Ordering}
use mathlib.Core.Path.{subst}
use hypertable.Deletes.{CellKey, key_bytes, key_compare, cell_bytes, same}
use hypertable.Deletes.Newest.{same-eq, same_refl}
use hypertable.Deletes.Sorted.{IsCell, Follows-name, Follows-cell}
use hypertable.MergeScanner.{
  Settings, Counters, no_counters, Verdict, returned, skipped, finished, same_row, same_cell,
  new_cell, count_cell, count_row, limit,
}
use hypertable.MergeScanner.Same.{
  same_row-key_bytes, same_cell-key_bytes, cell_bytes-row, cell_bytes-family, length-key_bytes,
  All-apart_before,
}
use hypertable.MergeScanner.Counts.{
  All-not_behind, Counts, any_of-apart, rows, versions, versions-apart, versions-bytes, within,
}

-- The verdict that the limits ask for.
abbrev pub verdict : Bool → Bool → Verdict
verdict false v = finished
verdict true true = returned
verdict true false = skipped

-- A step of the counters.
pub record Counted (cfg : Settings) (r : Verdict × Counters) (k : CellKey) (before : List CellKey)
    : Type 0 where
  pub says :
      r.0
      ≡ verdict
          (within cfg.row_limit (rows (k ∷ before)))
          (within (cfg.max_versions k.family) (versions k before + 1))
  pub counts : (r.0 ≡ finished) ⊎ Counts cfg r.1 k before

and_false : (b : Bool) → (b && false) ≡ false
and_false true = refl
and_false false = refl

within-one : (l : ℕ) → within l 1 ≡ true
within-one l = ground arith

module _ (cfg : Settings) (k : CellKey) (i : IsCell k) (e : cfg.return_everything ≡ false) where
  versions_self : (b : List CellKey) → versions k (k ∷ b) ≡ versions k b + 1
  unfolding versions
  versions_self b = rw (same_refl (cell_bytes k)) refl

  -- The first cell.
  pub Counted-first : Counted cfg (limit cfg k no_counters) k []
  unfolding limit new_cell rows versions
  Counted-first = record {
    says = rw (within-one cfg.row_limit, within-one (cfg.max_versions k.family)) refl;
    counts = inr (record {
      last = k;
      prev = refl;
      last_cell = i;
      cell = i;
      cells = tt;
      order = tt;
      same_last = same_refl (cell_bytes k);
      limit = refl;
      counted = inr (sym (versions_self []));
      counted_rows = inr refl;
      room = within-one cfg.row_limit;
    });
  }

  -- The step from the cell before.
  module _ (n : Counters) (h : CellKey) (b : List CellKey) (c : Counts cfg n h b)
      (o : key_compare h k ≢ Ordering.gt) where
    order_next : All (λ q. key_compare q k ≢ Ordering.gt) (h ∷ b)
    order_next = (o, All-not_behind h k b c.order o)

    prev_key-long : (length n.prev_key == 0) ≡ false
    prev_key-long = rw c.prev (ground (arith, length-key_bytes c.last))

    row-test : same_row k n.prev_key ≡ same k.row h.row
    row-test =
        ap (same_row k) c.prev
        ∙ same_row-key_bytes k c.last c.last_cell
        ∙ ap (same k.row) (sym (cell_bytes-row h c.last c.cell c.last_cell c.same_last))

    cell-test : same_cell (key_bytes k) n.prev_key ≡ same (cell_bytes k) (cell_bytes h)
    cell-test =
        ap (same_cell (key_bytes k)) c.prev
        ∙ same_cell-key_bytes k c.last
        ∙ ap (same (cell_bytes k)) (sym (same-eq (cell_bytes h) (cell_bytes c.last) c.same_last))

    rows-same : same k.row h.row ≡ true → rows (k ∷ h ∷ b) ≡ rows (h ∷ b)
    unfolding rows
    rows-same s = rw s refl

    rows-other : same k.row h.row ≡ false → rows (k ∷ h ∷ b) ≡ rows (h ∷ b) + 1
    unfolding rows
    rows-other s =
        let a : All (λ q. same k.row q.row ≡ false) (h ∷ b) =
          (s, All-apart_before (λ q. q.row) Follows-name h k b c.cell i c.cells c.order o s) in
        rw (rows, any_of-apart k (h ∷ b) a) refl

    versions-same :
        same (cell_bytes k) (cell_bytes h) ≡ true → versions k (h ∷ b) ≡ versions h (h ∷ b)
    versions-same s = versions-bytes k h (h ∷ b) (same-eq (cell_bytes k) (cell_bytes h) s)

    versions-other : same (cell_bytes k) (cell_bytes h) ≡ false → versions k (h ∷ b) ≡ 0
    versions-other s =
        versions-apart k (h ∷ b)
          (s, All-apart_before cell_bytes Follows-cell h k b c.cell i c.cells c.order o s)

    -- The counters are set for the cell.
    Counts-at :
        (r : Counters)
        → r.prev_key ≡ key_bytes k
        → r.cell_limit ≡ cfg.max_versions k.family
        → (r.cell_limit ≡ 0) ⊎ (r.cell_count + 1 ≡ versions k (k ∷ h ∷ b))
        → (cfg.row_limit ≡ 0) ⊎ (r.row_count + 1 ≡ rows (k ∷ h ∷ b))
        → within cfg.row_limit (rows (k ∷ h ∷ b)) ≡ true
        → Counts cfg r k (h ∷ b)
    Counts-at r p l v w room = record {
      last = k;
      prev = p;
      last_cell = i;
      cell = i;
      cells = (c.cell, c.cells);
      order = order_next;
      same_last = same_refl (cell_bytes k);
      limit = l;
      counted = v;
      counted_rows = w;
      room = room;
    }

    -- A new row.
    Counted-row :
        (f : Bool)
        → leb cfg.row_limit (n.row_count + 1) ≡ f
        → (cfg.row_limit == 0) ≡ false
        → same k.row h.row ≡ false
        → same (cell_bytes k) (cell_bytes h) ≡ false
        → Counted cfg
            (let n' : Counters = record n { row_count = n.row_count + 1 } in
              if f then (finished, n') else (returned, new_cell cfg k n'))
            k
            (h ∷ b)
    unfolding new_cell
    Counted-row true g l s d =
        let more : n.row_count + 1 ≡ rows (h ∷ b) = ground (arith, c.counted_rows) in
        let out : within cfg.row_limit (rows (k ∷ h ∷ b)) ≡ false = ground (arith, rows-other s) in
        record { says = rw out refl; counts = inl refl }
    Counted-row false g l s d =
        let more : n.row_count + 1 ≡ rows (h ∷ b) = ground (arith, c.counted_rows) in
        let room : within cfg.row_limit (rows (k ∷ h ∷ b)) ≡ true = ground (arith, rows-other s) in
        record {
          says = rw (room, versions-other d, within-one (cfg.max_versions k.family)) refl;
          counts = inr (
              Counts-at _ refl refl (inr (ground (arith, versions_self (h ∷ b), versions-other d)))
                (inr (omega (arith, rows-other s, more))) room);
        }

    -- The same row, or any with no limit on them.
    module _ (room : within cfg.row_limit (rows (k ∷ h ∷ b)) ≡ true)
        (w : (cfg.row_limit ≡ 0) ⊎ (n.row_count + 1 ≡ rows (k ∷ h ∷ b))) where
      Counted-cell :
          same (cell_bytes k) (cell_bytes h) ≡ false
          → Counted cfg (returned, new_cell cfg k n) k (h ∷ b)
      unfolding new_cell
      Counted-cell d = record {
        says = rw (room, versions-other d, within-one (cfg.max_versions k.family)) refl;
        counts = inr (
            Counts-at _ refl refl (inr (ground (arith, versions_self (h ∷ b), versions-other d))) w
              room);
      }

      module _ (s : same (cell_bytes k) (cell_bytes h) ≡ true) where
        same_limit : n.cell_limit ≡ cfg.max_versions k.family
        same_limit = c.limit ∙ ap cfg.max_versions (sym (cell_bytes-family k h i c.cell s))

        Counted-unlimited : (n.cell_limit == 0) ≡ true → Counted cfg (returned, n) k (h ∷ b)
        Counted-unlimited z =
            let l : cfg.max_versions k.family ≡ 0 = ground (arith, same_limit) in
            record {
              says = rw (room, l) refl;
              counts = inr (record {
                last = c.last;
                prev = c.prev;
                last_cell = c.last_cell;
                cell = i;
                cells = (c.cell, c.cells);
                order = order_next;
                same_last = rw (same-eq (cell_bytes k) (cell_bytes h) s) c.same_last;
                limit = same_limit;
                counted = inl (ground arith);
                counted_rows = w;
                room = room;
              });
            }

        version_says :
            (n.cell_limit == 0) ≡ false
            → n.cell_count + 1 ≡ versions k (h ∷ b)
            → (if leb n.cell_limit (n.cell_count + 1) then skipped else returned)
              ≡ verdict
                  (within cfg.row_limit (rows (k ∷ h ∷ b)))
                  (within (cfg.max_versions k.family) (versions k (h ∷ b) + 1))
        version_says z more = rw (room, ← same_limit, ← more) (ground arith)

        Counted-version :
            (n.cell_limit == 0) ≡ false
            → Counted cfg
                (
                  if leb n.cell_limit (n.cell_count + 1) then skipped else returned,
                  record n { cell_count = n.cell_count + 1; prev_key = key_bytes k },
                )
                k
                (h ∷ b)
        Counted-version z =
            let more : n.cell_count + 1 ≡ versions h (h ∷ b) = ground (arith, c.counted) in
            record {
              says = version_says z (more ∙ sym (versions-same s));
              counts = inr (
                  Counts-at _ refl same_limit
                    (inr (omega (arith, versions_self (h ∷ b), versions-same s, more))) w room);
            }

    limit-row :
        (cfg.row_limit == 0) ≡ false
        → same k.row h.row ≡ false
        → limit cfg k n ≡ (
            let n' : Counters = record n { row_count = n.row_count + 1 } in
            if leb cfg.row_limit (n.row_count + 1)
            then (finished, n')
            else (returned, new_cell cfg k n'))
    unfolding limit count_row
    limit-row l s = rw (limit, prev_key-long, l, row-test, s, count_row, e) refl

    limit-count_cell :
        ((cfg.row_limit == 0) ≡ true) ⊎ (same k.row h.row ≡ true)
        → limit cfg k n ≡ count_cell cfg k n
    unfolding limit
    limit-count_cell (inl l) = rw (limit, prev_key-long, l) refl
    limit-count_cell (inr s) =
        rw (limit, prev_key-long, row-test, s, and_false (not (cfg.row_limit == 0))) refl

    count_cell-other :
        same (cell_bytes k) (cell_bytes h) ≡ false
        → count_cell cfg k n ≡ (returned, new_cell cfg k n)
    unfolding count_cell
    count_cell-other d = rw (cell-test, d, count_cell) refl

    count_cell-unlimited :
        same (cell_bytes k) (cell_bytes h) ≡ true
        → (n.cell_limit == 0) ≡ true
        → count_cell cfg k n ≡ (returned, n)
    unfolding count_cell
    count_cell-unlimited s z = rw (count_cell, cell-test, s, z) refl

    count_cell-version :
        same (cell_bytes k) (cell_bytes h) ≡ true
        → (n.cell_limit == 0) ≡ false
        → count_cell cfg k n ≡ (
          if leb n.cell_limit (n.cell_count + 1) then skipped else returned,
          record n { cell_count = n.cell_count + 1; prev_key = key_bytes k },
        )
    unfolding count_cell
    count_cell-version s z = rw (count_cell, cell-test, s, z, e) refl

    limit-same_row :
        ((cfg.row_limit == 0) ≡ true) ⊎ (same k.row h.row ≡ true)
        → within cfg.row_limit (rows (k ∷ h ∷ b)) ≡ true
        → (cfg.row_limit ≡ 0) ⊎ (n.row_count + 1 ≡ rows (k ∷ h ∷ b))
        → Counted cfg (limit cfg k n) k (h ∷ b)
    limit-same_row t room w = elim (Bool-cases (same (cell_bytes k) (cell_bytes h))) [
      | inl s ↦ elim (Bool-cases (n.cell_limit == 0)) [
        | inl z ↦ rw (limit-count_cell t, count_cell-unlimited s z) (Counted-unlimited room w s z)
        | inr z ↦ rw (limit-count_cell t, count_cell-version s z) (Counted-version room w s z)
      ]
      | inr d ↦ rw (limit-count_cell t, count_cell-other d) (Counted-cell room w d)
    ]

    row-cell : same k.row h.row ≡ false → same (cell_bytes k) (cell_bytes h) ≡ false
    row-cell s = elim (Bool-cases (same (cell_bytes k) (cell_bytes h))) [
      | inl d ↦
          absurd (
            ground (arith, same_refl h.row, ap (λ r. same r h.row) (cell_bytes-row k h i c.cell d)))
      | inr d ↦ d
    ]

    -- The limits let a cell through or not, and the counters keep up.
    pub limit-Counted : Counted cfg (limit cfg k n) k (h ∷ b)
    limit-Counted = elim (Bool-cases (cfg.row_limit == 0)) [
      | inl l ↦ limit-same_row (inl l) (ground arith) (inl (ground arith))
      | inr l ↦ elim (Bool-cases (same k.row h.row)) [
        | inl s ↦
            limit-same_row (inr s) (rw (rows-same s) c.room)
              (inr (rw (rows-same s) (ground (arith, c.counted_rows))))
        | inr s ↦
            subst (λ r. Counted cfg r k (h ∷ b)) (sym (limit-row l s))
              (Counted-row (leb cfg.row_limit (n.row_count + 1)) refl l s (row-cell s))
      ]
    ]
