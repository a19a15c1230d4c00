-- ===== src/CellCache/Purge.antt =====
-- What `purge_deletes` and `slice_copy` give to the child.
use hypertable.Base.{
  ℕ, ◌≡◌, inl, inr, refl, sym, ap, ◌∙◌, Bool, true, false, Bool-cases, ◌&&◌, List, [], ◌∷◌, ◌++◌,
  append-nil, append_assoc, some, arith, ltb, ◌==◌, if◌then◌else◌, All, All-append,
}
use Prim.Native.Nat.{Ordering}
use hypertable.Key.{flag_insert}
use hypertable.Deletes.{CellKey, key_compare, Deletes, no_deletes, check}
use hypertable.Deletes.Track.{visible, Tracks, Tracks-nothing}
use hypertable.Deletes.Check.{IsGrouped, Tracks-skip, Tracks-track, check-Checks}
use hypertable.Deletes.Sorted.{IsCell, Ascending, Ascending-IsGrouped}
use hypertable.CellCache.{
  Entry, CellCache, map_insert, child_insert, slice, slice_copy, purge_step, purge, purge_deletes,
}

abbrev pub keys : List Entry → List CellKey
keys [] = []
keys (e ∷ es) = e.key ∷ keys es

-- The map is in order, and its keys hold no NUL.
pub record IsMap (es : List Entry) : Type 0 where
  pub ascending : Ascending (keys es)
  pub cells : All IsCell (keys es)

-- The inserts that the deletes before them leave.
unfoldable pub survivors : List CellKey → List Entry → List Entry
survivors past [] = []
survivors past (e ∷ es) =
    let rest = survivors (e.key ∷ past) es in
    if (e.key.flag == flag_insert) && visible past e.key then e ∷ rest else rest

-- The entries later than a timestamp.
unfoldable pub later_than : ℕ → List Entry → List Entry
later_than timestamp [] = []
later_than timestamp (e ∷ es) =
    let rest = later_than timestamp es in if ltb timestamp e.key.timestamp then e ∷ rest else rest

map_insert_last :
    (e : Entry) (m : List Entry)
    → All (λ x. key_compare x.key e.key ≡ Ordering.lt) m
    → map_insert e m ≡ some (m ++ (e ∷ []))
unfolding map_insert
map_insert_last e [] h = refl
map_insert_last e (x ∷ xs) h = ground (arith, h.0, map_insert_last e xs h.1)

-- All of the child lie before the keys to come.
abbrev pub Before : List Entry → List CellKey → Type 0
Before child ks = All (λ x. All (λ k. key_compare x.key k ≡ Ordering.lt) ks) child

Before-head :
    (child : List Entry) (k : CellKey) (ks : List CellKey)
    → Before child (k ∷ ks)
    → All (λ x. key_compare x.key k ≡ Ordering.lt) child
Before-head [] k ks b = tt
Before-head (x ∷ xs) k ks b = (b.0.0, Before-head xs k ks b.1)

Before-tail :
    (child : List Entry) (k : CellKey) (ks : List CellKey) → Before child (k ∷ ks) → Before child ks
Before-tail [] k ks b = tt
Before-tail (x ∷ xs) k ks b = (b.0.1, Before-tail xs k ks b.1)

abbrev pub only : Bool → Entry → List Entry
only true e = e ∷ []
only false e = []

pub child_insert-only :
    (taken : Bool) (e : Entry) (child : List Entry) (ks : List CellKey)
    → Before child (e.key ∷ ks)
    → child_insert taken e child ≡ child ++ only taken e
unfolding child_insert
child_insert-only true e child ks b =
    rw (map_insert_last e child (Before-head child e.key ks b)) refl
child_insert-only false e child ks b = sym (append-nil child)

Before-only :
    (taken : Bool) (e : Entry) (child : List Entry) (ks : List CellKey)
    → All (λ k. key_compare e.key k ≡ Ordering.lt) ks
    → Before child (e.key ∷ ks)
    → Before (child ++ only taken e) ks
Before-only true e child ks h b =
    All-append (λ x. All (λ k. key_compare x.key k ≡ Ordering.lt) ks) child (e ∷ [])
      (Before-tail child e.key ks b) (h, tt)
Before-only false e child ks h b = rw (append-nil child) (Before-tail child e.key ks b)

append-only :
    (taken : Bool) (e : Entry) (child rest : List Entry)
    → (child ++ only taken e) ++ rest ≡ child ++ (if taken then e ∷ rest else rest)
append-only true e child rest = append_assoc child (e ∷ []) rest
append-only false e child rest = append_assoc child [] rest

-- One round of either loop.
module _ (taken : Bool) (e : Entry) (child : List Entry) (ks : List CellKey)
    (later : All (λ k. key_compare e.key k ≡ Ordering.lt) ks)
    (before : Before child (e.key ∷ ks)) where
  pub Before-child_insert : Before (child_insert taken e child) ks
  Before-child_insert =
      rw (child_insert-only taken e child ks before) (Before-only taken e child ks later before)

  child_insert-append :
      (rest : List Entry)
      → child_insert taken e child ++ rest ≡ child ++ (if taken then e ∷ rest else rest)
  child_insert-append rest =
      rw (child_insert-only taken e child ks before) (append-only taken e child rest)

slice-later_than :
    (timestamp : ℕ) (es child : List Entry)
    → Ascending (keys es)
    → Before child (keys es)
    → (slice timestamp es child).1 ≡ child ++ later_than timestamp es
unfolding slice later_than Ascending
slice-later_than timestamp [] child a b = sym (append-nil child)
slice-later_than timestamp (e ∷ es) child a b =
    let taken = ltb timestamp e.key.timestamp in
    slice-later_than timestamp es (child_insert taken e child) a.1
      (Before-child_insert taken e child (keys es) a.0 b)
    ∙ child_insert-append taken e child (keys es) a.0 b (later_than timestamp es)

-- `slice_copy` copies the entries later than the timestamp, in their order.
pub slice_copy-later_than :
    (timestamp : ℕ) (c : CellCache)
    → IsMap c.cell_map
    → (slice_copy timestamp c).1.cell_map ≡ later_than timestamp c.cell_map
unfolding slice_copy
slice_copy-later_than timestamp c m = slice-later_than timestamp c.cell_map [] m.ascending tt

-- A cell of the pass.
record Steps (r : Bool × Deletes) (k : CellKey) (past qs : List CellKey) : Type 0 where
  taken : r.0 ≡ ((k.flag == flag_insert) && visible past k)
  tracks : Tracks r.1 (k ∷ past) qs

purge_step-Steps :
    (k : CellKey) (s : Deletes) (past qs : List CellKey)
    → IsGrouped (k ∷ qs)
    → Tracks s past (k ∷ qs)
    → Steps (purge_step k s) k past qs
unfolding purge_step
purge_step-Steps k s past qs g t = elim (Bool-cases (k.flag == flag_insert)) [
  | inl h ↦
      let c = check-Checks k past qs s t in
      rw h (record {
        taken = rw h c.result;
        tracks =
            Tracks-skip (check k s).1 k past qs c.tracks (ground arith) (ground arith)
              (ground arith);
      })
  | inr h ↦ rw h (record { taken = rw h refl; tracks = Tracks-track s k past qs t g })
]

purge-survivors :
    (s : Deletes) (past : List CellKey) (es child : List Entry)
    → IsMap es
    → Before child (keys es)
    → Tracks s past (keys es)
    → (purge s es child).1 ≡ child ++ survivors past es
unfolding purge survivors Ascending
purge-survivors s past [] child m b t = sym (append-nil child)
purge-survivors s past (e ∷ es) child m b t =
    let step =
      purge_step-Steps e.key s past (keys es)
        (Ascending-IsGrouped (keys (e ∷ es)) m.cells m.ascending) t in
    let taken = (purge_step e.key s).0 in
    purge-survivors (purge_step e.key s).1 (e.key ∷ past) es (child_insert taken e child)
      (record { ascending = m.ascending.1; cells = m.cells.1 })
      (Before-child_insert taken e child (keys es) m.ascending.0 b) step.tracks
    ∙ child_insert-append taken e child (keys es) m.ascending.0 b (survivors (e.key ∷ past) es)
    ∙ ap
        (λ b. child ++ (if b then e ∷ survivors (e.key ∷ past) es else survivors (e.key ∷ past) es))
        step.taken

-- purge_deletes of a map in order gives its child the inserts that the deletes before them
-- leave, and nothing else, in their order: an insert is left where it is newer than the newest
-- delete of its cell, or else of its row and column family, or else of its row, among those
-- before it.
pub purge_deletes-survivors :
    (c : CellCache) → IsMap c.cell_map → (purge_deletes c).1.cell_map ≡ survivors [] c.cell_map
unfolding purge_deletes
purge_deletes-survivors c m =
    purge-survivors no_deletes [] c.cell_map [] m tt (Tracks-nothing (keys c.cell_map))
