-- ===== src/Schema/Numbered.antt =====
-- The numbers that `assign_ids` gives.
use hypertable.Base.{
  ℕ, zero, suc, ◌+◌, ◌≤◌, ◌<◌, ◌≡◌, inl, inr, refl, sym, ap, ◌∙◌, Option-cases, List, [], ◌∷◌, ◌++◌,
  map, Option, none, some, arith, length, get_elem?, set, length-set, get_elem?-set_self,
  get_elem?-set_ne,
}
use hypertable.Schema.{ColumnFamily, AccessGroup, Schema, assign_columns, assign_groups, assign_ids}
use hypertable.Schema.Invariant.{
  IsSchema, Climbs, columns_of, open_columns, Climbs-le, Climbs-front,
}

-- The id of the family that a pointer leads to.
abbrev id_of : Option ColumnFamily → ℕ
id_of none = 0
id_of (some cf) = cf.id

abbrev pub id_at : List ColumnFamily → ℕ → ℕ
id_at families p = id_of (get_elem? families p)

-- The numbers from `n` on.
abbrev pub count_from : ℕ → ℕ → List ℕ
count_from n zero = []
count_from n (suc k) = n ∷ count_from (n + 1) k

assign_columns-append :
    (xs ys : List ℕ) (n : ℕ) (families : List ColumnFamily)
    → assign_columns (xs ++ ys) n families
      ≡ assign_columns ys (assign_columns xs n families).0 (assign_columns xs n families).1
unfolding assign_columns
assign_columns-append [] ys n families = refl
assign_columns-append (p ∷ xs) ys n families = elim (Option-cases (get_elem? families p)) [
  | inl e ↦ rw (e, assign_columns) (assign_columns-append xs ys (n + 1) families)
  | inr (cf, e) ↦
      rw (e, assign_columns)
        (assign_columns-append xs ys (n + 1) (set families p (record cf { id = n + 1 })))
]

assign_groups-columns :
    (gs : List AccessGroup) (n : ℕ) (families : List ColumnFamily)
    → assign_groups gs n families ≡ assign_columns (columns_of gs) n families
unfolding assign_groups assign_columns
assign_groups-columns [] n families = refl
assign_groups-columns (g ∷ gs) n families =
    let r = assign_columns g.columns n families in
    assign_groups-columns gs r.0 r.1
    ∙ sym (assign_columns-append g.columns (columns_of gs) n families)

Climbs-lower : (n k m : ℕ) (ps : List ℕ) → n ≤ k → Climbs k ps m → Climbs n ps m
unfolding Climbs
Climbs-lower n k m [] l c = omega (arith, c)
Climbs-lower n k m (p ∷ ps) l c = (omega (arith, c.0), c.1)

-- A family before those that are numbered stays as it is.
assign_columns-before :
    (ps : List ℕ) (q n m : ℕ) (families : List ColumnFamily)
    → Climbs (q + 1) ps m
    → get_elem? (assign_columns ps n families).1 q ≡ get_elem? families q
unfolding assign_columns Climbs
assign_columns-before [] q n m families c = refl
assign_columns-before (p ∷ ps) q n m families c =
    let lower = Climbs-lower (q + 1) (p + 1) m ps (omega (arith, c.0)) c.1 in
    elim (Option-cases (get_elem? families p)) [
      | inl e ↦ rw (e, assign_columns) (assign_columns-before ps q (n + 1) m families lower)
      | inr (cf, e) ↦
          rw (e, assign_columns)
            (assign_columns-before ps q (n + 1) m (set families p (record cf { id = n + 1 })) lower
              ∙ get_elem?-set_ne families (record cf { id = n + 1 }) (λ h. ground (arith, c.0)))
    ]

get_elem?-none :
    (families : List ColumnFamily) (p : ℕ) → get_elem? families p ≡ none → length families ≤ p
get_elem?-none [] p h = omega arith
get_elem?-none (x ∷ families) zero h = absurd (ground (arith, h))
get_elem?-none (x ∷ families) (suc p) h = omega (arith, get_elem?-none families p h)

module _ (m : ℕ) where
  -- The numbers that are given, and the last one.
  record Numbered (ps : List ℕ) (n : ℕ) (r : ℕ × List ColumnFamily) : Type 0 where
    ids : map (id_at r.1) ps ≡ count_from (n + 1) (length ps)
    last : r.0 ≡ n + length ps

  assign_columns-Numbered :
      (ps : List ℕ) (a n : ℕ) (families : List ColumnFamily)
      → Climbs a ps m
      → m ≤ length families
      → Numbered ps n (assign_columns ps n families)
  unfolding assign_columns Climbs
  assign_columns-Numbered [] a n families c l = record { ids = refl; last = omega arith }
  assign_columns-Numbered (p ∷ ps) a n families c l =
      let below : p < length families = omega (arith, l, Climbs-le (p + 1) m ps c.1) in
      elim (Option-cases (get_elem? families p)) [
        | inl e ↦ absurd (omega (arith, below, get_elem?-none families p e))
        | inr (cf, e) ↦
            let numbered : ColumnFamily = record cf { id = n + 1 } in
            let families' = set families p numbered in
            let size : m ≤ length families' = omega (arith, l, length-set families p numbered) in
            let rest = assign_columns-Numbered ps (p + 1) (n + 1) families' c.1 size in
            let here : id_at (assign_columns ps (n + 1) families').1 p ≡ n + 1 = ap id_of (
              assign_columns-before ps p (n + 1) m families' c.1
              ∙ get_elem?-set_self families p numbered below) in
            rw (e, assign_columns)
              (record { ids = cons_ids here rest.ids; last = omega (arith, rest.last) })
      ]
    where
      cons_ids : {x y : ℕ} {xs ys : List ℕ} → x ≡ y → xs ≡ ys → ◌≡◌ {A = List ℕ} (x ∷ xs) (y ∷ ys)
      cons_ids {x} {y} {xs} {ys} e f = ap (λ t. t ∷ xs) e ∙ ap (λ t. y ∷ t) f

-- assign_ids numbers the column families of a well-formed schema from 1 on, in the order in which its
-- access groups have them: no two have the same id, none is 0, and the maximum is their number.
pub assign_ids-numbers :
    (s : Schema)
    → IsSchema s
    → (map (id_at (assign_ids s).families) (columns_of (assign_ids s).access_groups)
        ≡ count_from 1 (length (columns_of s.access_groups)))
      × ((assign_ids s).max_column_family_id ≡ length (columns_of s.access_groups))
unfolding assign_ids
assign_ids-numbers s i =
    let columns = columns_of s.access_groups in
    let front = Climbs-front 0 (length s.families) columns (open_columns s.open_group) i.pointers in
    let r =
      assign_columns-Numbered (length s.families) columns 0 0 s.families front (omega arith) in
    let g = assign_groups-columns s.access_groups 0 s.families in
    (ap (λ t. map (id_at t.1) columns) g ∙ r.ids, ap (λ t. t.0) g ∙ r.last ∙ omega arith)
