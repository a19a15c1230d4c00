-- ===== src/MergeScanner/Passes.antt =====
-- The loops of `initialize` and `forward`, and the rounds of a reader, as one pass over the cells that
-- the queue gives.
use hypertable.Base.{
  ℕ, zero, suc, ◌≤◌, ◌<◌, ◌≡◌, inl, inr, refl, ap, ◌∙◌, Bool, true, false, Option-cases, List, [],
  ◌∷◌, none, some, arith, length,
}
use hypertable.Deletes.{Deletes, CellKey}
use hypertable.MergeScanner.{
  Cell, Settings, Counters, MergeScanner, Verdict, returned, skipped, finished, take_top, pop,
  inspect, limit, conclude, cells, forward_loop, forward, get, read_all,
}
use hypertable.MergeScanner.Drain.{Holds, Holds-cells}

-- What a cell adds: `after` is what follows it, and `past` what would follow without counting it.
abbrev pub add_result : Bool → Verdict → Cell → List Cell → List Cell → List Cell
add_result false v c after past = past
add_result true returned c after past = c ∷ after
add_result true skipped c after past = after
add_result true finished c after past = []

unfoldable pub results : Settings → Deletes → Counters → List Cell → List Cell
results cfg deletes n [] = []
results cfg deletes n (c ∷ m) =
    let r = inspect cfg c.key deletes in
    let v = limit cfg c.key n in
    let after = results cfg r.1 v.1 m in
    let past = results cfg r.1 n m in add_result r.0 v.0 c after past

module _ (cfg : Settings) where
  pub get-none : (s : MergeScanner) → take_top s.queue ≡ none → get s ≡ none
  unfolding get
  get-none s e = rw (e, get) refl

  get-done : (s : MergeScanner) → s.done ≡ true → get s ≡ none
  unfolding get
  get-done s e = elim (Option-cases (take_top s.queue)) [
    | inl h ↦ rw (h, get) refl
    | inr (x, h) ↦ rw (h, get, e) refl
  ]

  get-some :
      (s : MergeScanner) (x : Cell × List Cell × List (List Cell))
      → take_top s.queue ≡ some x
      → s.done ≡ false
      → get s ≡ some x.0
  unfolding get
  get-some s x e n = rw (e, get, n) refl

  pub read_all-stop : (g : ℕ) (s : MergeScanner) → get s ≡ none → read_all cfg g s ≡ []
  unfolding read_all
  read_all-stop zero s e = refl
  read_all-stop (suc g) s e = rw (e, read_all) refl

  read_all-some :
      (g : ℕ) (s : MergeScanner) (c : Cell)
      → get s ≡ some c
      → read_all cfg (suc g) s ≡ c ∷ read_all cfg g (forward cfg s)
  unfolding read_all
  read_all-some g s c e = rw (e, read_all) refl

  pub forward-some :
      (s : MergeScanner) (x : Cell × List Cell × List (List Cell))
      → take_top s.queue ≡ some x
      → forward cfg s ≡ forward_loop cfg (cells s.queue) s
  unfolding forward
  forward-some s x e = rw (e, forward) refl

  forward_loop-none :
      (f : ℕ) (s : MergeScanner)
      → take_top (pop s.queue) ≡ none
      → forward_loop cfg (suc f) s ≡ record s { queue = pop s.queue }
  unfolding forward_loop
  forward_loop-none f s e = rw (e, forward_loop) refl

  -- One round of the loops.
  abbrev round : ℕ → MergeScanner → CellKey → MergeScanner
  round f s k =
      let r = inspect cfg k s.deletes in
      let s' : MergeScanner = record s { queue = pop s.queue; deletes = r.1 } in
      elim r.0 [
        | false ↦ forward_loop cfg f s'
        | true ↦ conclude (limit cfg k s.counters) s' (forward_loop cfg f)
      ]

  forward_loop-round :
      (f : ℕ) (s : MergeScanner) (x : Cell × List Cell × List (List Cell))
      → take_top (pop s.queue) ≡ some x
      → forward_loop cfg (suc f) s ≡ round f s x.0.key
  unfolding forward_loop
  forward_loop-round f s x e = rw (e, forward_loop) refl

  -- Any scanner before a cell reads the rest in one pass.
  abbrev Reads : List Cell → Type 0
  Reads m =
      (s : MergeScanner) (c : Cell) (f g : ℕ)
      → Holds s.queue (c ∷ m)
      → s.done ≡ false
      → length m < f
      → length m ≤ g
      → read_all cfg g (forward_loop cfg f s) ≡ results cfg s.deletes s.counters m

  pub read_all-next :
      (m : List Cell) (s : MergeScanner) (d : Cell) (g : ℕ)
      → Reads m
      → Holds s.queue (d ∷ m)
      → s.done ≡ false
      → length m < g
      → read_all cfg g s ≡ d ∷ results cfg s.deletes s.counters m
  unfolding Holds
  read_all-next m s d zero reads h n l = absurd (omega arith)
  read_all-next m s d (suc g) reads (cs, rest, e, h) n l =
      let size = Holds-cells s.queue (d ∷ m) (cs, rest, e, h) in
      read_all-some g s d (get-some s (d, cs, rest) e n)
      ∙ ap (λ t. d ∷ read_all cfg g t) (forward-some s (d, cs, rest) e)
      ∙ ap (λ r. d ∷ r)
          (reads s d (cells s.queue) g (cs, rest, e, h) n (omega (arith, size)) (omega arith))

  module _ (m : List Cell) (reads : Reads m) (s : MergeScanner) (d : Cell) (f g : ℕ)
      (h : Holds s.queue (d ∷ m)) (n : s.done ≡ false) (lf : length m < f) (lg : length m < g) where
    read_all-conclude :
        (v : Verdict × Counters)
        → read_all cfg g (conclude v s (forward_loop cfg f))
          ≡ add_result true v.0 d (results cfg s.deletes v.1 m) (results cfg s.deletes s.counters m)
    unfolding conclude
    read_all-conclude (returned, k) = read_all-next m (record s { counters = k }) d g reads h n lg
    read_all-conclude (skipped, k) = reads (record s { counters = k }) d f g h n lf (omega arith)
    read_all-conclude (finished, k) =
        let s' : MergeScanner = record s { counters = k; done = true } in
        read_all-stop g s' (get-done s' refl)

    read_all-inspected :
        (b : Bool) (v : Verdict × Counters)
        → read_all cfg g
            (elim b [ false ↦ forward_loop cfg f s | true ↦ conclude v s (forward_loop cfg f) ])
          ≡ add_result b v.0 d (results cfg s.deletes v.1 m) (results cfg s.deletes s.counters m)
    read_all-inspected false v = reads s d f g h n lf (omega arith)
    read_all-inspected true v = read_all-conclude v

  pub forward_loop-results : (m : List Cell) → Reads m
  unfolding results Holds
  forward_loop-results [] s c zero g h n lf lg = absurd (omega arith)
  forward_loop-results [] s c (suc f) g (cs, rest, e, h) n lf lg =
      let s' : MergeScanner = record s { queue = pop s.queue } in
      ap (read_all cfg g) (forward_loop-none f s h) ∙ read_all-stop g s' (get-none s' h)
  forward_loop-results (d ∷ m) s c zero g h n lf lg = absurd (omega arith)
  forward_loop-results (d ∷ m) s c (suc f) g (cs, rest, e, (ds, more, i, h)) n lf lg =
      let r = inspect cfg d.key s.deletes in
      ap (read_all cfg g) (forward_loop-round f s (d, ds, more) i)
      ∙ (read_all-inspected m (forward_loop-results m)
          (record s { queue = pop s.queue; deletes = r.1 }) d f g (ds, more, i, h) n (omega arith)
          (omega arith) r.0 (limit cfg d.key s.counters))
