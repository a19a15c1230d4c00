-- ===== src/MergeScanner/Candidates.antt =====
-- The cells that the deletes and the interval of time leave, and the pass that finds them.
use hypertable.Base.{
  ℕ, ◌≡◌, inl, inr, refl, sym, ap, ◌∙◌, Bool, true, false, ◌&&◌, not, Bool-cases, List, [], ◌∷◌,
  arith, ltb, if◌then◌else◌,
}
use hypertable.Deletes.{
  CellKey, Deleted, Deletes, track, check, row_bytes, family_bytes, cell_bytes,
}
use hypertable.Deletes.Track.{visible, Tracks, Tells}
use hypertable.Deletes.Newest.{Knows, Leads}
use hypertable.Deletes.Check.{Tracks-skip, Tracks-track, check-Checks}
use hypertable.Deletes.Sorted.{InOrder-IsGrouped}
use hypertable.MergeScanner.{
  Cell, Settings, Counters, Verdict, returned, skipped, finished, inspect, limit,
}
use hypertable.MergeScanner.Queue.{keys, IsScanner, tail-IsScanner}
use hypertable.MergeScanner.Passes.{add_result, results}
use hypertable.MergeScanner.First.{
  is_delete, too_old, too_new, inspect-old, inspect-delete, inspect-new, inspect-insert,
}

-- The inserts in the interval of time that are newer than the deletes before them.
unfoldable pub candidates : Settings → List CellKey → List Cell → List Cell
candidates cfg past [] = []
candidates cfg past (c ∷ m) =
    let without = candidates cfg past m in
    let rest = candidates cfg (c.key ∷ past) m in
    if ltb c.key.timestamp cfg.start_timestamp
    then without
    else if not (is_delete c.key) && ltb c.key.timestamp cfg.end_timestamp && visible past c.key
    then c ∷ rest
    else rest

-- The cells at which the inner loop stops.
unfoldable pub kept : Settings → Deletes → List Cell → List Cell
kept cfg s [] = []
kept cfg s (c ∷ m) =
    let r = inspect cfg c.key s in let rest = kept cfg r.1 m in if r.0 then c ∷ rest else rest

abbrev pub add_limited : Verdict → Cell → List Cell → List Cell
add_limited returned c rest = c ∷ rest
add_limited skipped c rest = rest
add_limited finished c rest = []

unfoldable pub limited : Settings → Counters → List Cell → List Cell
limited cfg n [] = []
limited cfg n (c ∷ m) =
    let v = limit cfg c.key n in let rest = limited cfg v.1 m in add_limited v.0 c rest

limited-if :
    (cfg : Settings) (n : Counters) (c : Cell) (b : Bool) (m : List Cell)
    → limited cfg n (if b then c ∷ m else m)
      ≡ add_result b (limit cfg c.key n).0 c (limited cfg (limit cfg c.key n).1 m) (limited cfg n m)
unfolding limited
limited-if cfg n c false m = refl
limited-if cfg n c true m = adds (limit cfg c.key n).0
  where
    adds :
        (o : Verdict)
        → add_limited o c (limited cfg (limit cfg c.key n).1 m)
          ≡ add_result true o c (limited cfg (limit cfg c.key n).1 m) (limited cfg n m)
    adds returned = refl
    adds skipped = refl
    adds finished = refl

pub results-limited :
    (cfg : Settings) (m : List Cell) (s : Deletes) (n : Counters)
    → results cfg s n m ≡ limited cfg n (kept cfg s m)
unfolding results kept limited
results-limited cfg [] s n = refl
results-limited cfg (c ∷ m) s n =
    let r = inspect cfg c.key s in
    let v = limit cfg c.key n in
    ap (λ t. add_result r.0 v.0 c t (results cfg r.1 n m)) (results-limited cfg m r.1 v.1)
    ∙ ap (λ t. add_result r.0 v.0 c (limited cfg v.1 (kept cfg r.1 m)) t)
        (results-limited cfg m r.1 n)
    ∙ sym (limited-if cfg n c r.0 (kept cfg r.1 m))

-- A cell that is passed over.
Tells-drop :
    (bytes : CellKey → List ℕ) (flag : ℕ) (d : Deleted) (k : CellKey) (past qs : List CellKey)
    → Tells bytes flag d past (k ∷ qs)
    → Tells bytes flag d past qs
unfolding Knows Leads
Tells-drop bytes flag d k past qs t = record { knows = t.knows.1; leads = t.leads.1 }

Tracks-drop :
    (s : Deletes) (k : CellKey) (past qs : List CellKey) → Tracks s past (k ∷ qs) → Tracks s past qs
Tracks-drop s k past qs t = record {
  row = Tells-drop row_bytes 0 s.row k past qs t.row;
  family = Tells-drop family_bytes 1 s.family k past qs t.family;
  cell = Tells-drop cell_bytes 2 s.cell k past qs t.cell;
  absent = t.absent;
}

module _ (cfg : Settings) (e : cfg.return_everything ≡ false) where
  abbrev pub Keeps : List Cell → Type 0
  Keeps m =
      (s : Deletes) (past : List CellKey)
      → Tracks s past (keys m)
      → kept cfg s m ≡ candidates cfg past m

  module _ (c : Cell) (m : List Cell) (s : Deletes) (past : List CellKey)
      (scanner : IsScanner (c ∷ m)) (t : Tracks s past (keys (c ∷ m))) (keeps : Keeps m) where
    kept-inspect :
        (b : Bool) (d : Deletes)
        → inspect cfg c.key s ≡ (b, d)
        → kept cfg s (c ∷ m) ≡ (if b then c ∷ kept cfg d m else kept cfg d m)
    unfolding kept
    kept-inspect b d i = ap (λ r. if r.0 then c ∷ kept cfg r.1 m else kept cfg r.1 m) i

    keeps-old : too_old cfg c.key ≡ true → kept cfg s (c ∷ m) ≡ candidates cfg past (c ∷ m)
    unfolding candidates
    keeps-old h =
        let old : ltb c.key.timestamp cfg.start_timestamp ≡ true = ground arith in
        kept-inspect false s (inspect-old cfg c.key s h)
        ∙ rw old (keeps s past (Tracks-drop s c.key past (keys m) t))

    keeps-delete :
        ltb c.key.timestamp cfg.start_timestamp ≡ false
        → is_delete c.key ≡ true
        → kept cfg s (c ∷ m) ≡ candidates cfg past (c ∷ m)
    unfolding candidates
    keeps-delete o d =
        let old : too_old cfg c.key ≡ false = rw o refl in
        let grouped = InOrder-IsGrouped (keys (c ∷ m)) scanner.cells scanner.order in
        kept-inspect false (track c.key s)
          (inspect-delete cfg c.key s old d ∙ ap (λ b. (b, track c.key s)) e)
        ∙ rw (o, d)
            (keeps (track c.key s) (c.key ∷ past) (Tracks-track s c.key past (keys m) t grouped))

    skips :
        (u : Deletes)
        → Tracks u past (c.key ∷ keys m)
        → is_delete c.key ≡ false
        → Tracks u (c.key ∷ past) (keys m)
    skips u w d = Tracks-skip u c.key past (keys m) w (ground arith) (ground arith) (ground arith)

    keeps-insert :
        ltb c.key.timestamp cfg.start_timestamp ≡ false
        → is_delete c.key ≡ false
        → kept cfg s (c ∷ m) ≡ candidates cfg past (c ∷ m)
    unfolding candidates
    keeps-insert o d =
        let old : too_old cfg c.key ≡ false = rw o refl in
        let checks = check-Checks c.key past (keys m) s t in
        elim (Bool-cases (ltb c.key.timestamp cfg.end_timestamp)) [
          | inl n ↦
              let new : too_new cfg c.key ≡ false = ground arith in
              kept-inspect (check c.key s).0 (check c.key s).1 (
                inspect-insert cfg c.key s old d new
                ∙ ap (λ b. if b then (true, s) else check c.key s) e)
              ∙ rw (o, d, n, ← checks.result)
                  (ap (λ r. if (check c.key s).0 then c ∷ r else r)
                    (keeps (check c.key s).1 (c.key ∷ past)
                      (skips (check c.key s).1 checks.tracks d)))
          | inr n ↦
              let new : too_new cfg c.key ≡ true = ground arith in
              kept-inspect false s (inspect-new cfg c.key s old d new)
              ∙ rw (o, d, n) (keeps s (c.key ∷ past) (skips s t d))
        ]

  pub kept-candidates : (m : List Cell) → IsScanner m → Keeps m
  unfolding kept candidates
  kept-candidates [] i s past t = refl
  kept-candidates (c ∷ m) i s past t =
      let keeps : Keeps m = kept-candidates m (tail-IsScanner c m i) in
      elim (Bool-cases (ltb c.key.timestamp cfg.start_timestamp)) [
        | inl o ↦ keeps-old c m s past i t keeps (rw (o, e) refl)
        | inr o ↦ elim (Bool-cases (is_delete c.key)) [
          | inl d ↦ keeps-delete c m s past i t keeps o d
          | inr d ↦ keeps-insert c m s past i t keeps o d
        ]
      ]
