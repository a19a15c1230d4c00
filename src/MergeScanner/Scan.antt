-- ===== src/MergeScanner/Scan.antt =====
-- What a scan gives of the cells of its scanners.
use hypertable.Base.{
  ℕ, ◌+◌, ◌≤◌, ◌≡◌, ◌≢◌, ◌⊎◌, inl, inr, refl, sym, ap, ◌∙◌, Bool, true, false, ◌&&◌, not,
  Bool-cases, List, [], ◌∷◌, arith, ltb, if◌then◌else◌, All,
}
use Prim.Native.Nat.{Ordering}
use mathlib.Core.List.{Perm}
use hypertable.Deletes.{CellKey, key_compare, no_deletes}
use hypertable.Deletes.Track.{visible, Tracks-nothing}
use hypertable.Deletes.Sorted.{InOrder}
use hypertable.MergeScanner.{
  Cell, Settings, Counters, no_counters, Verdict, finished, limit, cells, initialize, read_all,
  scan,
}
use hypertable.MergeScanner.Queue.{
  keys, flatten, IsScanner, Below, tail-IsScanner, head-Below, cons-IsScanner,
}
use hypertable.MergeScanner.Drain.{merged, merged-Drained, merged-IsScanner}
use hypertable.MergeScanner.First.{is_delete, read_all-results, scan-results, results-everything}
use hypertable.MergeScanner.Limits.{verdict, Counted-first, limit-Counted}
use hypertable.MergeScanner.Counts.{rows, within, versions, chosen, Counts}
use hypertable.MergeScanner.Candidates.{
  candidates, limited, add_limited, results-limited, kept-candidates,
}

-- A reader that calls get and forward in turn has got all cells of a scan after as many rounds as the
-- scanners have cells: with that many rounds or more it gets the same cells.
pub read_all-scan :
    (cfg : Settings) (q : List (List Cell)) (rounds : ℕ)
    → cells q ≤ rounds
    → read_all cfg rounds (initialize cfg q) ≡ scan cfg q
read_all-scan cfg q rounds enough = read_all-results cfg q rounds enough ∙ sym (scan-results cfg q)

-- A scan of everything that the scanners have.
abbrev pub everything : Settings → Settings
everything cfg = record cfg { return_everything = true }

scan-merged : (cfg : Settings) (q : List (List Cell)) → scan (everything cfg) q ≡ merged q
scan-merged cfg q =
    scan-results (everything cfg) q
    ∙ results-everything (everything cfg) no_deletes no_counters (merged q) refl

-- A scan of everything gives each cell that the scanners have, as often as they have it, in the order
-- of their keys, where each scanner gives its cells in that order.
pub scan-everything :
    (cfg : Settings) (q : List (List Cell))
    → cfg.return_everything ≡ true
    → All IsScanner q
    → Perm (scan cfg q) (flatten q) × InOrder (keys (scan cfg q))
scan-everything cfg q e s =
    let whole : scan cfg q ≡ merged q =
      scan-results cfg q ∙ results-everything cfg no_deletes no_counters (merged q) e in
    rw whole (∣ (merged-Drained q).perm ∣₁, (merged-IsScanner q s).order)

rows_more : (k : CellKey) (b : List CellKey) → rows b ≤ rows (k ∷ b)
unfolding rows
rows_more k b = ground arith

module _ (cfg : Settings) where
  -- Once there are too many rows, nothing more is let through.
  chosen-none :
      (m : List Cell) (b : List CellKey)
      → within cfg.row_limit (rows b) ≡ false
      → chosen cfg b m ≡ []
  unfolding chosen
  chosen-none [] b h = refl
  chosen-none (c ∷ m) b h =
      let out : within cfg.row_limit (rows (c.key ∷ b)) ≡ false =
        ground (arith, rows_more c.key b) in
      rw out (chosen-none m (c.key ∷ b) out)

  module _ (e : cfg.return_everything ≡ false) where
    abbrev Limits : List Cell → Type 0
    Limits m =
        (n : Counters) (h : CellKey) (b : List CellKey)
        → Counts cfg n h b
        → All (λ q. key_compare h q ≢ Ordering.gt) (keys m)
        → IsScanner m
        → limited cfg n m ≡ chosen cfg (h ∷ b) m

    limited-step :
        (c : Cell) (m : List Cell) (b : List CellKey) (r : Verdict × Counters) (row version : Bool)
        → within cfg.row_limit (rows (c.key ∷ b)) ≡ row
        → r.0 ≡ verdict row version
        → (r.0 ≡ finished) ⊎ Counts cfg r.1 c.key b
        → Limits m
        → IsScanner (c ∷ m)
        → add_limited r.0 c (limited cfg r.1 m)
          ≡ (if row && version then c ∷ chosen cfg (c.key ∷ b) m else chosen cfg (c.key ∷ b) m)
    limited-step c m b (o, n) false version w s k limits i =
        rw s (sym (chosen-none m (c.key ∷ b) w))
    limited-step c m b (o, n) true true w s (inl f) limits i = cc
    limited-step c m b (o, n) true false w s (inl f) limits i = cc
    limited-step c m b (o, n) true true w s (inr k) limits i =
        rw s (ap (λ t. c ∷ t) (limits n c.key b k (head-Below c m i) (tail-IsScanner c m i)))
    limited-step c m b (o, n) true false w s (inr k) limits i =
        rw s (limits n c.key b k (head-Below c m i) (tail-IsScanner c m i))

    limited-chosen : (m : List Cell) → Limits m
    unfolding limited chosen
    limited-chosen [] n h b k o i = refl
    limited-chosen (c ∷ m) n h b k o i =
        let r = limit cfg c.key n in
        let t = limit-Counted cfg c.key i.cells.0 e n h b k o.0 in
        limited-step c m (h ∷ b) r (within cfg.row_limit (rows (c.key ∷ h ∷ b)))
          (within (cfg.max_versions c.key.family) (versions c.key (h ∷ b) + 1)) refl t.says t.counts
          (limited-chosen m) i

    limited-first : (m : List Cell) → IsScanner m → limited cfg no_counters m ≡ chosen cfg [] m
    unfolding limited chosen
    limited-first [] i = refl
    limited-first (c ∷ m) i =
        let t = Counted-first cfg c.key i.cells.0 e in
        limited-step c m [] (limit cfg c.key no_counters) (within cfg.row_limit (rows (c.key ∷ [])))
          (within (cfg.max_versions c.key.family) (versions c.key [] + 1)) refl t.says t.counts
          (limited-chosen m) i

candidates-Below :
    (cfg : Settings) (c : Cell) (m : List Cell) (past : List CellKey)
    → Below c m
    → Below c (candidates cfg past m)
unfolding candidates
candidates-Below cfg c [] past h = tt
candidates-Below cfg c (d ∷ m) past h =
    let without = candidates-Below cfg c m past h.1 in
    let rest = candidates-Below cfg c m (d.key ∷ past) h.1 in
    elim (Bool-cases (ltb d.key.timestamp cfg.start_timestamp)) [
      | inl o ↦ rw o without
      | inr o ↦
          elim (Bool-cases (
            not (is_delete d.key) && ltb d.key.timestamp cfg.end_timestamp && visible past d.key)) [
              | inl v ↦ rw (o, v) (h.0, rest)
              | inr v ↦ rw (o, v) rest
            ]
    ]

candidates-IsScanner :
    (cfg : Settings) (m : List Cell) (past : List CellKey)
    → IsScanner m
    → IsScanner (candidates cfg past m)
unfolding candidates
candidates-IsScanner cfg [] past i = i
candidates-IsScanner cfg (c ∷ m) past i =
    let tail = tail-IsScanner c m i in
    let without = candidates-IsScanner cfg m past tail in
    let rest = candidates-IsScanner cfg m (c.key ∷ past) tail in
    elim (Bool-cases (ltb c.key.timestamp cfg.start_timestamp)) [
      | inl o ↦ rw o without
      | inr o ↦
          elim (Bool-cases (
            not (is_delete c.key) && ltb c.key.timestamp cfg.end_timestamp && visible past c.key)) [
              | inl v ↦
                  rw (o, v)
                    (cons-IsScanner c (candidates cfg (c.key ∷ past) m) i.cells.0
                      (candidates-Below cfg c m (c.key ∷ past) (head-Below c m i)) rest)
              | inr v ↦ rw (o, v) rest
            ]
    ]

-- A scan that does not return everything, over scanners that give their cells in the order of their
-- keys, gives some of the cells of a scan of everything, in its order. They are found in two steps. The
-- first leaves the inserts from the start of the interval of time to before its end that are newer than
-- the delete that covers them: the newest one of their cell, or else of their row and column family, or
-- else of their row, among the deletes before them that are not older than the interval. The second
-- leaves those of them that stand in the first rows, as many as the row limit, and have fewer versions
-- of their cell before them than their column family keeps; a limit of 0 is none.
pub scan-chosen :
    (cfg : Settings) (q : List (List Cell))
    → cfg.return_everything ≡ false
    → All IsScanner q
    → scan cfg q ≡ chosen cfg [] (candidates cfg [] (scan (everything cfg) q))
scan-chosen cfg q e s =
    let m = merged-IsScanner q s in
    scan-results cfg q
    ∙ results-limited cfg (merged q) no_deletes no_counters
    ∙ ap (limited cfg no_counters)
        (kept-candidates cfg e (merged q) m no_deletes [] (Tracks-nothing (keys (merged q))))
    ∙ limited-first cfg e (candidates cfg [] (merged q)) (candidates-IsScanner cfg (merged q) [] m)
    ∙ ap (λ m. chosen cfg [] (candidates cfg [] m)) (sym (scan-merged cfg q))
