-- ===== src/Deletes/Track.antt =====
-- The three buffers together: what `check` says of an insert is what the deletes before it say.
use hypertable.Base.{
  ℕ, ◌≡◌, inl, inr, refl, Bool, true, false, Bool-cases, ◌&&◌, List, [], ◌∷◌, ◌++◌, Option, none,
  some, ltb, ◌==◌, All,
}
use hypertable.ByteString.Order.{lex}
use hypertable.Deletes.{
  CellKey, Deleted, Deletes, none_deleted, no_deletes, row_bytes, family_bytes, cell_bytes, same,
  note_delete, clear,
}
use hypertable.Deletes.Newest.{
  newest, Knows, Leads, Groups, Knows-other, Knows-clear, Knows-note_delete, Knows-nothing,
}

-- The newest delete of a kind decides, and else what is less specific.
abbrev pub under : Option ℕ → ℕ → Bool → Bool
under (some t) time rest = ltb t time
under none time rest = rest

abbrev pub visible_row : List CellKey → CellKey → Bool
visible_row past k = under (newest row_bytes 0 (row_bytes k) past) k.timestamp true

abbrev pub visible_family : List CellKey → CellKey → Bool
visible_family past k =
    under (newest family_bytes 1 (family_bytes k) past) k.timestamp (visible_row past k)

-- The most specific kind of delete decides: a delete of the cell, or else of its column family, or else
-- of its row; and the newest of that kind.
unfoldable pub visible : List CellKey → CellKey → Bool
visible past k = under (newest cell_bytes 2 (cell_bytes k) past) k.timestamp (visible_family past k)

-- One buffer.
pub record Tells (bytes : CellKey → List ℕ) (flag : ℕ) (d : Deleted) (past qs : List CellKey)
    : Type 0 where
  pub knows : Knows bytes flag d past qs
  pub leads : Leads bytes flag d.buffer qs

pub record Tracks (s : Deletes) (past qs : List CellKey) : Type 0 where
  pub row : Tells row_bytes 0 s.row past qs
  pub family : Tells family_bytes 1 s.family past qs
  pub cell : Tells cell_bytes 2 s.cell past qs
  pub absent :
      s.present ≡ false → (s.row.buffer ≡ []) × (s.family.buffer ≡ []) × (s.cell.buffer ≡ [])

same_empty : (x : ℕ) (p q : List ℕ) → same [] (p ++ (x ∷ q)) ≡ false
unfolding same lex
same_empty x [] q = refl
same_empty x (y ∷ p) q = refl

pub row-nonempty : (q : CellKey) → same [] (row_bytes q) ≡ false
unfolding row_bytes
row-nonempty q = same_empty 0 q.row []

pub family-nonempty : (q : CellKey) → same [] (family_bytes q) ≡ false
unfolding family_bytes
family-nonempty q = same_empty 0 q.row _

pub cell-nonempty : (q : CellKey) → same [] (cell_bytes q) ≡ false
unfolding cell_bytes
cell-nonempty q = same_empty 0 q.row _

module _ (bytes : CellKey → List ℕ) (flag : ℕ)
    (nonempty : (q : CellKey) → same [] (bytes q) ≡ false) where
  All-apart : (qs : List CellKey) → All (λ q. same [] (bytes q) ≡ false) qs
  All-apart [] = tt
  All-apart (q ∷ qs) = (nonempty q, All-apart qs)

  Leads-empty : (qs : List CellKey) → Leads bytes flag [] qs
  unfolding Leads
  Leads-empty [] = tt
  Leads-empty (q ∷ qs) = (λ e. All-apart qs, Leads-empty qs)

  pub Tells-nothing : (qs : List CellKey) → Tells bytes flag none_deleted [] qs
  Tells-nothing qs = record { knows = Knows-nothing bytes flag nonempty qs; leads = Leads-empty qs }

  pub Tells-skip :
      (d : Deleted) (k : CellKey) (past qs : List CellKey)
      → (k.flag == flag) ≡ false
      → Tells bytes flag d past (k ∷ qs)
      → Tells bytes flag d (k ∷ past) qs
  unfolding Knows Leads
  Tells-skip d k past qs f t = record {
    knows = Knows-other bytes flag d k past qs f t.knows.1;
    leads = t.leads.1;
  }

  pub Tells-clear :
      (d : Deleted) (k : CellKey) (past qs : List CellKey)
      → same d.buffer (bytes k) ≡ false
      → Tells bytes flag d past (k ∷ qs)
      → Tells bytes flag (clear d) past (k ∷ qs)
  unfolding Leads
  Tells-clear d k past qs apart t = record {
    knows = Knows-clear bytes flag d past (k ∷ qs) (apart, t.leads.0 apart) nonempty t.knows;
    leads = Leads-empty (k ∷ qs);
  }

  Leads-note :
      (present : Bool) (d : Deleted) (k : CellKey) (qs : List CellKey)
      → Leads bytes flag (bytes k) qs
      → Leads bytes flag d.buffer qs
      → Leads bytes flag (note_delete present (bytes k) k.timestamp d).buffer qs
  unfolding note_delete
  Leads-note present d k qs g l = elim (Bool-cases (present && same d.buffer (bytes k))) [
    | inl h ↦ elim (Bool-cases (ltb d.time k.timestamp)) [
      | inl e ↦ rw (h, e) l
      | inr e ↦ rw (h, e) l
    ]
    | inr h ↦ rw h g
  ]

  pub Tells-note :
      (present : Bool) (d : Deleted) (k : CellKey) (past qs : List CellKey)
      → (k.flag == flag) ≡ true
      → (present ≡ false → d.buffer ≡ [])
      → Groups bytes flag (k ∷ qs)
      → Tells bytes flag d past (k ∷ qs)
      → Tells bytes flag (note_delete present (bytes k) k.timestamp d) (k ∷ past) qs
  unfolding Groups Leads
  Tells-note present d k past qs f empty g t = record {
    knows = Knows-note_delete bytes flag present d k past qs f empty nonempty t.leads t.knows;
    leads = Leads-note present d k qs g.0 t.leads.1;
  }

pub Tracks-nothing : (qs : List CellKey) → Tracks no_deletes [] qs
Tracks-nothing qs = record {
  row = Tells-nothing row_bytes 0 row-nonempty qs;
  family = Tells-nothing family_bytes 1 family-nonempty qs;
  cell = Tells-nothing cell_bytes 2 cell-nonempty qs;
  absent = λ e. (refl, refl, refl);
}
