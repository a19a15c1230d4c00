-- ===== src/MergeScanner/First.antt =====
-- `initialize`, and all that a reader gets.
use hypertable.Base.{
  ℕ, zero, suc, ◌+◌, ◌≤◌, ◌<◌, ◌≡◌, inl, inr, refl, sym, ap, ◌∙◌, Bool, true, false, ◌&&◌, ◌||◌,
  not, Bool-cases, List, [], ◌∷◌, none, some, arith, length, ltb, leb, ◌==◌, if◌then◌else◌,
}
use hypertable.Key.{flag_delete_row, flag_delete_column_family, flag_delete_cell}
use hypertable.Deletes.{Deletes, CellKey, no_deletes, track, check}
use hypertable.MergeScanner.{
  Cell, Settings, Counters, no_counters, MergeScanner, returned, take_top, pop, inspect, limit,
  count_row, count_cell, new_cell, cells, forward, first_loop, initialize, read_all, scan,
}
use hypertable.MergeScanner.Drain.{Holds, Holds-cells, merged, merged-Drained}
use hypertable.MergeScanner.Passes.{
  add_result, results, read_all-next, forward_loop-results, forward-some, read_all-stop, get-none,
}

abbrev pub is_delete : CellKey → Bool
is_delete k =
    (k.flag == flag_delete_row)
    || (k.flag == flag_delete_column_family)
    || (k.flag == flag_delete_cell)

-- Older than the interval of the scan; not before its end.
abbrev pub too_old : Settings → CellKey → Bool
too_old cfg k = ltb k.timestamp cfg.start_timestamp && not cfg.return_everything

abbrev pub too_new : Settings → CellKey → Bool
too_new cfg k = leb cfg.end_timestamp k.timestamp && not cfg.return_everything

module _ (cfg : Settings) (k : CellKey) where
  pub inspect-old : (s : Deletes) → too_old cfg k ≡ true → inspect cfg k s ≡ (false, s)
  unfolding inspect
  inspect-old s h = rw h refl

  pub inspect-delete :
      (s : Deletes)
      → too_old cfg k ≡ false
      → is_delete k ≡ true
      → inspect cfg k s ≡ (cfg.return_everything, track k s)
  unfolding inspect
  inspect-delete s h d = rw (h, d) refl

  pub inspect-new :
      (s : Deletes)
      → too_old cfg k ≡ false
      → is_delete k ≡ false
      → too_new cfg k ≡ true
      → inspect cfg k s ≡ (false, s)
  unfolding inspect
  inspect-new s h d e = rw (h, d, e) refl

  pub inspect-insert :
      (s : Deletes)
      → too_old cfg k ≡ false
      → is_delete k ≡ false
      → too_new cfg k ≡ false
      → inspect cfg k s ≡ (if cfg.return_everything then (true, s) else check k s)
  unfolding inspect
  inspect-insert s h d e = rw (h, d, e) refl

  inspect-everything : (s : Deletes) → cfg.return_everything ≡ true → (inspect cfg k s).0 ≡ true
  unfolding inspect
  inspect-everything s e = rw (inspect, e) (ground arith)

  limit-everything : (n : Counters) → cfg.return_everything ≡ true → (limit cfg k n).0 ≡ returned
  unfolding limit count_row count_cell
  limit-everything n e = rw (limit, e) (ground arith)

  limit-first : limit cfg k no_counters ≡ (returned, new_cell cfg k no_counters)
  unfolding limit
  limit-first = refl

pub results-everything :
    (cfg : Settings) (s : Deletes) (n : Counters) (m : List Cell)
    → cfg.return_everything ≡ true
    → results cfg s n m ≡ m
unfolding results
results-everything cfg s n [] e = refl
results-everything cfg s n (c ∷ m) e =
    rw (inspect-everything cfg c.key s e, limit-everything cfg c.key n e)
      (ap (λ r. c ∷ r) (results-everything cfg (inspect cfg c.key s).1 (limit cfg c.key n).1 m e))

-- A scanner before its first round.
abbrev pub fresh : List (List Cell) → MergeScanner
fresh q = record { queue = q; deletes = no_deletes; counters = no_counters; done = false }

module _ (cfg : Settings) where
  abbrev started : MergeScanner → CellKey → MergeScanner
  started s k = record s {
    deletes = record s.deletes { present = false };
    counters = new_cell cfg k s.counters;
  }

  -- The branches of the loop, for a cell.
  abbrev begin : ℕ → MergeScanner → CellKey → MergeScanner
  begin f s k =
      let again = first_loop cfg f (record s { queue = pop s.queue }) in
      let tracked : MergeScanner = record s { deletes = track k s.deletes } in
      if too_old cfg k
      then again
      else if is_delete k
      then (if cfg.return_everything then tracked else forward cfg tracked)
      else if too_new cfg k
      then again
      else started s k

  first_loop-none : (f : ℕ) (s : MergeScanner) → take_top s.queue ≡ none → first_loop cfg f s ≡ s
  unfolding first_loop
  first_loop-none zero s e = refl
  first_loop-none (suc f) s e = rw (e, first_loop) refl

  first_loop-begin :
      (f : ℕ) (s : MergeScanner) (x : Cell × List Cell × List (List Cell))
      → take_top s.queue ≡ some x
      → first_loop cfg (suc f) s ≡ begin f s x.0.key
  unfolding first_loop
  first_loop-begin f s x e = rw (e, first_loop) refl

  abbrev Starts : List Cell → Type 0
  Starts m =
      (q : List (List Cell)) (f g : ℕ)
      → Holds q m
      → length m ≤ f
      → length m ≤ g
      → read_all cfg g (first_loop cfg f (fresh q)) ≡ results cfg no_deletes no_counters m

  module _ (c : Cell) (m : List Cell) (starts : Starts m) (q : List (List Cell)) (f g : ℕ)
      (h : Holds q (c ∷ m)) (lf : length m ≤ f) (lg : length m < g) where
    again-results :
        read_all cfg g (first_loop cfg f (fresh (pop q))) ≡ results cfg no_deletes no_counters m
    unfolding Holds
    again-results = starts (pop q) f g h.3 lf (omega arith)

    tracked-results :
        (b : Bool)
        → cfg.return_everything ≡ b
        → read_all cfg g (
            let tracked : MergeScanner = record (fresh q) { deletes = track c.key no_deletes } in
            if b then tracked else forward cfg tracked)
          ≡ add_result b returned c
              (results cfg (track c.key no_deletes) (new_cell cfg c.key no_counters) m)
              (results cfg (track c.key no_deletes) no_counters m)
    unfolding Holds
    tracked-results true e =
        let s : MergeScanner = record (fresh q) { deletes = track c.key no_deletes } in
        read_all-next cfg m s c g (forward_loop-results cfg m) h refl lg
        ∙ ap (λ r. c ∷ r) (results-everything cfg s.deletes no_counters m e)
        ∙ sym (
            ap (λ r. c ∷ r) (results-everything cfg s.deletes (new_cell cfg c.key no_counters) m e))
    tracked-results false e =
        let s : MergeScanner = record (fresh q) { deletes = track c.key no_deletes } in
        ap (read_all cfg g) (forward-some cfg s (c, h.0, h.1) h.2)
        ∙ forward_loop-results cfg m s c (cells q) g h refl (omega (arith, Holds-cells q (c ∷ m) h))
            (omega arith)

    started-results :
        read_all cfg g (started (fresh q) c.key)
        ≡ c ∷ results cfg no_deletes (new_cell cfg c.key no_counters) m
    started-results =
        read_all-next cfg m (started (fresh q) c.key) c g (forward_loop-results cfg m) h refl lg

    results-begin :
        (b : Bool) (d : Deletes)
        → inspect cfg c.key no_deletes ≡ (b, d)
        → results cfg no_deletes no_counters (c ∷ m)
          ≡ add_result b returned c
              (results cfg d (new_cell cfg c.key no_counters) m)
              (results cfg d no_counters m)
    unfolding results limit new_cell
    results-begin b d e =
        ap
          (λ r.
            add_result r.0 returned c (results cfg r.1 (new_cell cfg c.key no_counters) m)
              (results cfg r.1 no_counters m))
          e

    check-first :
        (b : Bool) → (if b then (true, no_deletes) else check c.key no_deletes) ≡ (true, no_deletes)
    unfolding check
    check-first true = refl
    check-first false = refl

    begin-results :
        read_all cfg g (begin f (fresh q) c.key) ≡ results cfg no_deletes no_counters (c ∷ m)
    begin-results = elim (Bool-cases (too_old cfg c.key)) [
      | inl h0 ↦
          rw (h0, results-begin false no_deletes (inspect-old cfg c.key no_deletes h0))
            again-results
      | inr h0 ↦ elim (Bool-cases (is_delete c.key)) [
        | inl h1 ↦
            rw
              (
                h0,
                h1,
                results-begin cfg.return_everything (track c.key no_deletes)
                    (inspect-delete cfg c.key no_deletes h0 h1),
              )
              (tracked-results cfg.return_everything refl)
        | inr h1 ↦ elim (Bool-cases (too_new cfg c.key)) [
          | inl h2 ↦
              rw
                (
                  h0,
                  h1,
                  h2,
                  results-begin false no_deletes (inspect-new cfg c.key no_deletes h0 h1 h2),
                )
                again-results
          | inr h2 ↦
              rw
                (
                  h0,
                  h1,
                  h2,
                  results-begin true no_deletes (
                      inspect-insert cfg c.key no_deletes h0 h1 h2
                      ∙ check-first cfg.return_everything),
                )
                started-results
        ]
      ]
    ]

  first_loop-results : (m : List Cell) → Starts m
  unfolding Holds results
  first_loop-results [] q f g h lf lg =
      ap (read_all cfg g) (first_loop-none f (fresh q) h)
      ∙ read_all-stop cfg g (fresh q) (get-none cfg (fresh q) h)
  first_loop-results (c ∷ m) q zero g h lf lg = absurd (omega arith)
  first_loop-results (c ∷ m) q (suc f) g h lf lg =
      ap (read_all cfg g) (first_loop-begin f (fresh q) (c, h.0, h.1) h.2)
      ∙ begin-results c m (first_loop-results m) q f g h (omega arith) (omega arith)

  -- A reader with enough rounds.
  pub read_all-results :
      (q : List (List Cell)) (g : ℕ)
      → cells q ≤ g
      → read_all cfg g (initialize cfg q) ≡ results cfg no_deletes no_counters (merged q)
  unfolding initialize
  read_all-results q g enough =
      let d = merged-Drained q in
      let size = Holds-cells q (merged q) d.holds in
      first_loop-results (merged q) q (cells q) g d.holds (omega (arith, size))
        (omega (arith, size))

  pub scan-results :
      (q : List (List Cell)) → scan cfg q ≡ results cfg no_deletes no_counters (merged q)
  unfolding scan
  scan-results q = read_all-results q (cells q + 1) (omega arith)
