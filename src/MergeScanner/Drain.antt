-- ===== src/MergeScanner/Drain.antt =====
-- The cells that a queue gives, from its top on.
use hypertable.Base.{
  ℕ, zero, suc, ◌+◌, ◌≤◌, ◌≡◌, refl, sym, ap, ◌∙◌, List, [], ◌∷◌, ◌++◌, Option, none, some, arith,
  length, All, length-append,
}
use mathlib.Core.Path.{subst}
use mathlib.Core.List.{Permᴰ}
use mathlib.Core.List.Permᴰ
use hypertable.MergeScanner.{Cell, cells, take_top, push, pop}
use hypertable.MergeScanner.Queue.{
  Below, Below-append, Below-perm, IsScanner, Top, TopLeads, cons-IsScanner, empty-IsScanner,
  flatten, take_top-Top, take_top-TopLeads,
}

-- What a queue gives, one cell after the other.
unfoldable pub Holds : List (List Cell) → List Cell → Type 0
Holds q [] = take_top q ≡ none
Holds q (c ∷ m) =
    (cs : List Cell) × (rest : List (List Cell)) × (take_top q ≡ some (c, cs, rest))
    × Holds (pop q) m

abbrev drained :
    (List (List Cell) → List Cell) → Option (Cell × List Cell × List (List Cell)) → List Cell
drained more none = []
drained more (some (c, cs, rest)) = c ∷ more (push cs rest)

unfoldable pub drain : ℕ → List (List Cell) → List Cell
drain zero q = []
drain (suc fuel) q = drained (drain fuel) (take_top q)

Permᴰ-length : {xs ys : List Cell} → Permᴰ xs ys → length xs ≡ length ys
Permᴰ-length Permᴰ.nil = refl
Permᴰ-length (Permᴰ.cons e p) = ap suc (Permᴰ-length p)
Permᴰ-length (Permᴰ.swap e f) = refl
Permᴰ-length (Permᴰ.trans p r) = Permᴰ-length p ∙ Permᴰ-length r

flatten-push :
    (cs : List Cell) (rest : List (List Cell)) → flatten (push cs rest) ≡ cs ++ flatten rest
unfolding push
flatten-push [] rest = refl
flatten-push (c ∷ cs) rest = refl

IsScanner-push :
    (cs : List Cell) (rest : List (List Cell))
    → IsScanner cs
    → All IsScanner rest
    → All IsScanner (push cs rest)
unfolding push
IsScanner-push [] rest s ss = ss
IsScanner-push (c ∷ cs) rest s ss = (s, ss)

-- What draining gives.
pub record Drained (q : List (List Cell)) (m : List Cell) : Type 0 where
  pub holds : Holds q m
  pub perm : Permᴰ m (flatten q)

pub pop-push :
    (q : List (List Cell)) (c : Cell) (cs : List Cell) (rest : List (List Cell))
    → take_top q ≡ some (c, cs, rest)
    → pop q ≡ push cs rest
unfolding pop
pop-push q c cs rest e = rw (e, pop) refl

Top-length :
    (q : List (List Cell)) (c : Cell) (cs : List Cell) (rest : List (List Cell))
    → Top q (some (c, cs, rest))
    → length (flatten q) ≡ length (flatten (push cs rest)) + 1
Top-length q c cs rest t = rw (Permᴰ-length t, flatten-push cs rest) (omega arith)

module _ (q : List (List Cell)) where
  Drained-nothing : take_top q ≡ none → Top q none → Drained q []
  unfolding Holds
  Drained-nothing e t = record { holds = e; perm = rw t Permᴰ.nil }

  Drained-next :
      (c : Cell) (cs : List Cell) (rest : List (List Cell)) (m : List Cell)
      → take_top q ≡ some (c, cs, rest)
      → Top q (some (c, cs, rest))
      → Drained (push cs rest) m
      → Drained q (c ∷ m)
  unfolding Holds
  Drained-next c cs rest m e t d = record {
    holds = (cs, rest, e, rw (pop-push q c cs rest e) d.holds);
    perm =
        Permᴰ.trans (Permᴰ.cons refl (subst (λ l. Permᴰ m l) (flatten-push cs rest) d.perm))
          (Permᴰ.symm t);
  }

Drained-stop :
    (q : List (List Cell)) (o : Option (Cell × List Cell × List (List Cell)))
    → length (flatten q) ≤ 0
    → take_top q ≡ o
    → Top q o
    → Drained q []
Drained-stop q none h e t = Drained-nothing q e t
Drained-stop q (some (c, cs, rest)) h e t = absurd (ground (arith, Top-length q c cs rest t))

module _ (fuel : ℕ) (more : List (List Cell) → List Cell)
    (all : (q : List (List Cell)) → length (flatten q) ≤ fuel → Drained q (more q))
    (q : List (List Cell)) (h : length (flatten q) ≤ suc fuel) where
  Drained-round :
      (o : Option (Cell × List Cell × List (List Cell)))
      → take_top q ≡ o
      → Top q o
      → Drained q (drained more o)
  Drained-round none e t = Drained-nothing q e t
  Drained-round (some (c, cs, rest)) e t =
      Drained-next q c cs rest (more (push cs rest)) e t
        (all (push cs rest) (ground (arith, Top-length q c cs rest t)))

  IsScanner-round :
      ((q : List (List Cell)) → length (flatten q) ≤ fuel → All IsScanner q → IsScanner (more q))
      → (o : Option (Cell × List Cell × List (List Cell))) → Top q o
      → TopLeads o
      → IsScanner (drained more o)
  IsScanner-round scanner none t l = empty-IsScanner
  IsScanner-round scanner (some (c, cs, rest)) t l =
      let enough : length (flatten (push cs rest)) ≤ fuel =
        ground (arith, Top-length q c cs rest t) in
      cons-IsScanner c (more (push cs rest)) l.cell
        (Below-perm c (all (push cs rest) enough).perm (
          subst (λ ds. Below c ds) (sym (flatten-push cs rest))
            (Below-append c cs (flatten rest) l.below l.below_others)))
        (scanner (push cs rest) enough (IsScanner-push cs rest l.scanner l.others))

drain-Drained :
    (fuel : ℕ) (q : List (List Cell)) → length (flatten q) ≤ fuel → Drained q (drain fuel q)
unfolding drain
drain-Drained zero q h = Drained-stop q (take_top q) h refl (take_top-Top q)
drain-Drained (suc fuel) q h =
    Drained-round fuel (drain fuel) (drain-Drained fuel) q h (take_top q) refl (take_top-Top q)

drain-IsScanner :
    (fuel : ℕ) (q : List (List Cell))
    → length (flatten q) ≤ fuel
    → All IsScanner q
    → IsScanner (drain fuel q)
unfolding drain
drain-IsScanner zero q h s = empty-IsScanner
drain-IsScanner (suc fuel) q h s =
    IsScanner-round fuel (drain fuel) (drain-Drained fuel) q h (drain-IsScanner fuel) (take_top q)
      (take_top-Top q) (take_top-TopLeads q s)

-- All the cells of a queue, as draining it gives them.
unfoldable pub merged : List (List Cell) → List Cell
merged q = drain (cells q) q

pub cells-length : (q : List (List Cell)) → cells q ≡ length (flatten q)
unfolding cells
cells-length [] = refl
cells-length (cs ∷ qs) = rw (cells-length qs) (sym (length-append cs (flatten qs)))

pub merged-Drained : (q : List (List Cell)) → Drained q (merged q)
unfolding merged
merged-Drained q = drain-Drained (cells q) q (omega (arith, cells-length q))

pub merged-IsScanner : (q : List (List Cell)) → All IsScanner q → IsScanner (merged q)
unfolding merged
merged-IsScanner q s = drain-IsScanner (cells q) q (omega (arith, cells-length q)) s

-- As many cells are in the queue as it gives.
pub Holds-cells : (q : List (List Cell)) (m : List Cell) → Holds q m → cells q ≡ length m
unfolding Holds
Holds-cells q [] h = cells-length q ∙ ap length (subst (λ o. Top q o) h (take_top-Top q))
Holds-cells q (c ∷ m) (cs, rest, e, h) =
    let t = subst (λ o. Top q o) e (take_top-Top q) in
    let more = Holds-cells (pop q) m h in
    cells-length q
    ∙ Top-length q c cs rest t
    ∙ ap (λ n. n + 1)
        (sym (cells-length (push cs rest)) ∙ ap cells (sym (pop-push q c cs rest e)) ∙ more)
    ∙ omega arith
