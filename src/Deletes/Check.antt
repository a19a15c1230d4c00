-- ===== src/Deletes/Check.antt =====
-- One cell of the pass: a delete is noted, and an insert is looked up.
use hypertable.Base.{
  ℕ, ◌≡◌, inl, inr, refl, ◌∙◌, Bool, true, false, Bool-cases, List, [], ◌∷◌, none, some, arith, leb,
  ◌==◌, if◌then◌else◌, length,
}
use hypertable.Deletes.{
  CellKey, Deleted, Deletes, row_bytes, family_bytes, cell_bytes, same, note_delete, track, clear,
  check_row, check_family, check_cell, check,
}
use hypertable.Deletes.Newest.{newest, told, Knows, Groups}
use hypertable.Deletes.Track.{
  Tells, Tracks, visible_row, visible_family, visible, Tells-skip, Tells-note, Tells-clear,
  row-nonempty, family-nonempty, cell-nonempty,
}

-- Cells of the same row, family or qualifier are next to one another.
pub record IsGrouped (ks : List CellKey) : Type 0 where
  pub rows : Groups row_bytes 0 ks
  pub families : Groups family_bytes 1 ks
  pub cells : Groups cell_bytes 2 ks

abbrev skip_row :
    (d : Deleted) (k : CellKey) (past qs : List CellKey)
    → (k.flag == 0) ≡ false
    → Tells row_bytes 0 d past (k ∷ qs)
    → Tells row_bytes 0 d (k ∷ past) qs
skip_row = Tells-skip row_bytes 0 row-nonempty

abbrev skip_family :
    (d : Deleted) (k : CellKey) (past qs : List CellKey)
    → (k.flag == 1) ≡ false
    → Tells family_bytes 1 d past (k ∷ qs)
    → Tells family_bytes 1 d (k ∷ past) qs
skip_family = Tells-skip family_bytes 1 family-nonempty

abbrev skip_cell :
    (d : Deleted) (k : CellKey) (past qs : List CellKey)
    → (k.flag == 2) ≡ false
    → Tells cell_bytes 2 d past (k ∷ qs)
    → Tells cell_bytes 2 d (k ∷ past) qs
skip_cell = Tells-skip cell_bytes 2 cell-nonempty

module _ (s : Deletes) (k : CellKey) (past qs : List CellKey) (t : Tracks s past (k ∷ qs)) where
  pub Tracks-skip :
      (k.flag == 0) ≡ false → (k.flag == 1) ≡ false → (k.flag == 2) ≡ false → Tracks s (k ∷ past) qs
  Tracks-skip h0 h1 h2 = record {
    row = skip_row s.row k past qs h0 t.row;
    family = skip_family s.family k past qs h1 t.family;
    cell = skip_cell s.cell k past qs h2 t.cell;
    absent = t.absent;
  }

  Tracks-note_row :
      IsGrouped (k ∷ qs)
      → (k.flag == 0) ≡ true
      → Tracks
          (record s { present = true; row = note_delete s.present (row_bytes k) k.timestamp s.row })
          (k ∷ past)
          qs
  Tracks-note_row g h = record {
    row =
        Tells-note row_bytes 0 row-nonempty s.present s.row k past qs h (λ e. (t.absent e).0) g.rows
          t.row;
    family = skip_family s.family k past qs (ground arith) t.family;
    cell = skip_cell s.cell k past qs (ground arith) t.cell;
    absent = λ e. cc;
  }

  Tracks-note_family :
      IsGrouped (k ∷ qs)
      → (k.flag == 1) ≡ true
      → Tracks
          (record s {
            present = true;
            family = note_delete s.present (family_bytes k) k.timestamp s.family;
          })
          (k ∷ past)
          qs
  Tracks-note_family g h = record {
    row = skip_row s.row k past qs (ground arith) t.row;
    family =
        Tells-note family_bytes 1 family-nonempty s.present s.family k past qs h
          (λ e. (t.absent e).1) g.families t.family;
    cell = skip_cell s.cell k past qs (ground arith) t.cell;
    absent = λ e. cc;
  }

  Tracks-note_cell :
      IsGrouped (k ∷ qs)
      → (k.flag == 2) ≡ true
      → Tracks
          (record s {
            present = true;
            cell = note_delete s.present (cell_bytes k) k.timestamp s.cell;
          })
          (k ∷ past)
          qs
  Tracks-note_cell g h = record {
    row = skip_row s.row k past qs (ground arith) t.row;
    family = skip_family s.family k past qs (ground arith) t.family;
    cell =
        Tells-note cell_bytes 2 cell-nonempty s.present s.cell k past qs h (λ e. (t.absent e).2)
          g.cells t.cell;
    absent = λ e. cc;
  }

  -- `track` keeps up with each cell.
  pub Tracks-track : IsGrouped (k ∷ qs) → Tracks (track k s) (k ∷ past) qs
  unfolding track
  Tracks-track g = elim (Bool-cases (k.flag == 0)) [
    | inl h ↦ rw h (Tracks-note_row g h)
    | inr h0 ↦ elim (Bool-cases (k.flag == 1)) [
      | inl h ↦ rw (h0, h) (Tracks-note_family g h)
      | inr h1 ↦ elim (Bool-cases (k.flag == 2)) [
        | inl h ↦ rw (h0, h1, h) (Tracks-note_cell g h)
        | inr h2 ↦ rw (h0, h1, h2) (Tracks-skip h0 h1 h2)
      ]
    ]
  ]

-- What a buffer tells of the cell at hand.
module _ (bytes : CellKey → List ℕ) (flag : ℕ) (d : Deleted) (k : CellKey) (past qs : List CellKey)
    (t : Tells bytes flag d past (k ∷ qs)) where
  newest-same : same d.buffer (bytes k) ≡ true → newest bytes flag (bytes k) past ≡ some d.time
  unfolding told Knows
  newest-same h = t.knows.0 ∙ rw h refl

  newest-apart : same d.buffer (bytes k) ≡ false → newest bytes flag (bytes k) past ≡ none
  unfolding told Knows
  newest-apart h = t.knows.0 ∙ rw h refl

-- A result of the lookup.
pub record Checks (r : Bool × Deletes) (b : Bool) (k : CellKey) (past qs : List CellKey)
    : Type 0 where
  pub result : r.0 ≡ b
  pub tracks : Tracks r.1 past (k ∷ qs)

empty_buffer : (xs : List ℕ) → leb 1 (length xs) ≡ false → xs ≡ []
empty_buffer [] h = refl
empty_buffer (x ∷ xs) h = ground arith

apart_empty : (xs b : List ℕ) → leb 1 (length xs) ≡ false → same [] b ≡ false → same xs b ≡ false
apart_empty xs b h e = rw (empty_buffer xs h) e

module _ (k : CellKey) (past qs : List CellKey) where
  check_row-Checks :
      (s : Deletes)
      → Tracks s past (k ∷ qs)
      → s.family.buffer ≡ []
      → s.cell.buffer ≡ []
      → Checks (check_row k s) (visible_row past k) k past qs
  unfolding check_row
  check_row-Checks s t f c = elim (Bool-cases (leb 1 (length s.row.buffer))) [
    | inl h ↦ elim (Bool-cases (same s.row.buffer (row_bytes k))) [
      | inl e ↦
          rw (h, e, newest-same row_bytes 0 s.row k past qs t.row e)
            (record { result = refl; tracks = t })
      | inr e ↦
          rw (h, e, newest-apart row_bytes 0 s.row k past qs t.row e)
            (record {
              result = refl;
              tracks = record {
                row = Tells-clear row_bytes 0 row-nonempty s.row k past qs e t.row;
                family = t.family;
                cell = t.cell;
                absent = λ _. (refl, f, c);
              };
            })
    ]
    | inr h ↦
        rw
          (
            h,
            newest-apart row_bytes 0 s.row k past qs t.row
                (apart_empty s.row.buffer _ h (row-nonempty k)),
          )
          (record {
            result = refl;
            tracks = record {
              row = t.row;
              family = t.family;
              cell = t.cell;
              absent = λ _. (empty_buffer s.row.buffer h, f, c);
            };
          })
  ]

  check_family-Checks :
      (s : Deletes)
      → Tracks s past (k ∷ qs)
      → s.present ≡ true
      → s.cell.buffer ≡ []
      → Checks (check_family k s) (visible_family past k) k past qs
  unfolding check_family
  check_family-Checks s t p c = elim (Bool-cases (leb 1 (length s.family.buffer))) [
    | inl h ↦ elim (Bool-cases (same s.family.buffer (family_bytes k))) [
      | inl e ↦
          rw (h, e, newest-same family_bytes 1 s.family k past qs t.family e)
            (record { result = refl; tracks = t })
      | inr e ↦
          rw (h, e, newest-apart family_bytes 1 s.family k past qs t.family e)
            (check_row-Checks (record s { family = clear s.family })
              (record {
                row = t.row;
                family = Tells-clear family_bytes 1 family-nonempty s.family k past qs e t.family;
                cell = t.cell;
                absent = λ a. absurd (ground arith);
              })
              refl c)
    ]
    | inr h ↦
        rw
          (
            h,
            newest-apart family_bytes 1 s.family k past qs t.family
                (apart_empty s.family.buffer _ h (family-nonempty k)),
          )
          (check_row-Checks s t (empty_buffer s.family.buffer h) c)
  ]

  check_cell-Checks :
      (s : Deletes)
      → Tracks s past (k ∷ qs)
      → s.present ≡ true
      → Checks (check_cell k s) (visible past k) k past qs
  unfolding check_cell visible
  check_cell-Checks s t p = elim (Bool-cases (leb 1 (length s.cell.buffer))) [
    | inl h ↦ elim (Bool-cases (same s.cell.buffer (cell_bytes k))) [
      | inl e ↦
          rw (h, e, newest-same cell_bytes 2 s.cell k past qs t.cell e)
            (record { result = refl; tracks = t })
      | inr e ↦
          rw (h, e, newest-apart cell_bytes 2 s.cell k past qs t.cell e)
            (check_family-Checks (record s { cell = clear s.cell })
              (record {
                row = t.row;
                family = t.family;
                cell = Tells-clear cell_bytes 2 cell-nonempty s.cell k past qs e t.cell;
                absent = λ a. absurd (ground arith);
              })
              p refl)
    ]
    | inr h ↦
        rw
          (
            h,
            newest-apart cell_bytes 2 s.cell k past qs t.cell
                (apart_empty s.cell.buffer _ h (cell-nonempty k)),
          )
          (check_family-Checks s t p (empty_buffer s.cell.buffer h))
  ]

  check_absent : (s : Deletes) → Tracks s past (k ∷ qs) → s.present ≡ false → true ≡ visible past k
  unfolding visible
  check_absent s t p =
      let (r, f, c) = t.absent p in
      rw
        (
          newest-apart cell_bytes 2 s.cell k past qs t.cell (rw c (cell-nonempty k)),
          newest-apart family_bytes 1 s.family k past qs t.family (rw f (family-nonempty k)),
          newest-apart row_bytes 0 s.row k past qs t.row (rw r (row-nonempty k)),
        )
        refl

  check_present :
      (b : Bool) (s : Deletes)
      → Tracks s past (k ∷ qs)
      → s.present ≡ b
      → Checks (if b then check_cell k s else (true, s)) (visible past k) k past qs
  check_present true s t p = check_cell-Checks s t p
  check_present false s t p = record { result = check_absent s t p; tracks = t }

  -- What `check` says is what the deletes before the cell say.
  pub check-Checks :
      (s : Deletes) → Tracks s past (k ∷ qs) → Checks (check k s) (visible past k) k past qs
  unfolding check
  check-Checks s t = check_present s.present s t refl
