-- ===== src/MergeScanner/Queue.antt =====
-- The priority queue of a merge scanner: what is on top of it, and the order in which its cells come.
use hypertable.Base.{
  ℕ, ◌≡◌, ◌≢◌, inl, inr, refl, sym, true, false, Bool-cases, List, [], ◌∷◌, ◌++◌, map, append_assoc,
  Option, none, some, arith, if◌then◌else◌, All,
}
use Prim.Native.Nat.{Ordering}
use mathlib.Core.Path.{subst}
use mathlib.Core.List.{Permᴰ}
use mathlib.Core.List.Permᴰ
use hypertable.ByteString.Order.{lex, is_lt, lex-flip, lex-eq, lex_trans}
use hypertable.Deletes.{CellKey, key_bytes, key_compare}
use hypertable.Deletes.Sorted.{IsCell, InOrder}
use hypertable.MergeScanner.{Cell, take_top}

abbrev pub keys : List Cell → List CellKey
keys cs = map (λ c. c.key) cs

-- The cells of all the scanners.
abbrev pub flatten : List (List Cell) → List Cell
flatten [] = []
flatten (q ∷ qs) = q ++ flatten qs

-- A scanner gives its cells in the order of their keys.
pub record IsScanner (cs : List Cell) : Type 0 where
  pub cells : All IsCell (keys cs)
  pub order : InOrder (keys cs)

-- What is on top of the queue, and what is behind it.
abbrev pub Top : List (List Cell) → Option (Cell × List Cell × List (List Cell)) → Type 0
Top q none = flatten q ≡ []
Top q (some (c, cs, rest)) = Permᴰ (flatten q) (c ∷ (cs ++ flatten rest))

Top-choose :
    (c : Cell) (cs : List Cell) (qs : List (List Cell))
    (o : Option (Cell × List Cell × List (List Cell)))
    → Top qs o
    → Top ((c ∷ cs) ∷ qs) (elim o [
      | none ↦ some (c, cs, [])
      | some (d, ds, rest) ↦
          if is_lt (key_compare d.key c.key)
          then some (d, ds, (c ∷ cs) ∷ rest)
          else some (c, cs, qs)
    ])
Top-choose c cs qs none t = rw t (Permᴰ.refl (c ∷ (cs ++ [])))
Top-choose c cs qs (some (d, ds, rest)) t = elim (Bool-cases (is_lt (key_compare d.key c.key))) [
  | inl h ↦ rw h (
      Permᴰ.trans (Permᴰ.append_left (c ∷ cs) t) (
        Permᴰ.trans (Permᴰ.middle d (c ∷ cs) (ds ++ flatten rest))
          (Permᴰ.cons refl (swap_front (c ∷ cs) ds (flatten rest)))))
  | inr h ↦ rw h (Permᴰ.refl (c ∷ (cs ++ flatten qs)))
]
  where
    swap_front : (xs ys zs : List Cell) → Permᴰ (xs ++ (ys ++ zs)) (ys ++ (xs ++ zs))
    swap_front xs ys zs =
        subst (λ l. Permᴰ l (ys ++ (xs ++ zs))) (append_assoc xs ys zs)
          (subst (λ l. Permᴰ ((xs ++ ys) ++ zs) l) (append_assoc ys xs zs)
            (Permᴰ.append_right zs (Permᴰ.append_comm xs ys)))

pub take_top-Top : (q : List (List Cell)) → Top q (take_top q)
unfolding take_top
take_top-Top [] = refl
take_top-Top ([] ∷ qs) = take_top-Top qs
take_top-Top ((c ∷ cs) ∷ qs) = Top-choose c cs qs (take_top qs) (take_top-Top qs)

-- A cell's key is not behind those of the others.
abbrev pub Below : Cell → List Cell → Type 0
Below c ds = All (λ k. key_compare c.key k ≢ Ordering.gt) (keys ds)

pub Below-append : (c : Cell) (xs ys : List Cell) → Below c xs → Below c ys → Below c (xs ++ ys)
Below-append c [] ys h k = k
Below-append c (x ∷ xs) ys h k = (h.0, Below-append c xs ys h.1 k)

pub Below-perm : (c : Cell) {xs ys : List Cell} → Permᴰ xs ys → Below c ys → Below c xs
Below-perm c Permᴰ.nil h = tt
Below-perm c (Permᴰ.cons e p) h =
    (subst (λ x. key_compare c.key x.key ≢ Ordering.gt) (sym e) h.0, Below-perm c p h.1)
Below-perm c (Permᴰ.swap e f) h = (
  subst (λ x. key_compare c.key x.key ≢ Ordering.gt) (sym e) h.1.0,
  (subst (λ x. key_compare c.key x.key ≢ Ordering.gt) (sym f) h.0, h.1.1),
)
Below-perm c (Permᴰ.trans p r) h = Below-perm c p (Below-perm c r h)

pub key_compare_trans :
    (a b c : CellKey)
    → key_compare a b ≢ Ordering.gt
    → key_compare b c ≢ Ordering.gt
    → key_compare a c ≢ Ordering.gt
unfolding key_compare
key_compare_trans a b c h k = not_gt_trans (key_bytes a) (key_bytes b) (key_bytes c) h k
  where
    not_gt_trans :
        (x y z : List ℕ) → lex x y ≢ Ordering.gt → lex y z ≢ Ordering.gt → lex x z ≢ Ordering.gt
    not_gt_trans x y z h k = ground (arith, lex_trans x y z, lex-eq x y, lex-eq y z)

Below-trans :
    (a b : Cell) (ds : List Cell) → key_compare a.key b.key ≢ Ordering.gt → Below b ds → Below a ds
Below-trans a b [] h k = tt
Below-trans a b (d ∷ ds) h k = (key_compare_trans a.key b.key d.key h k.0, Below-trans a b ds h k.1)

-- The top is not behind the rest, and the scanners behind it are in order.
pub record Leads (c : Cell) (cs : List Cell) (rest : List (List Cell)) : Type 0 where
  pub cell : IsCell c.key
  pub below : Below c cs
  pub below_others : Below c (flatten rest)
  pub scanner : IsScanner cs
  pub others : All IsScanner rest

abbrev pub TopLeads : Option (Cell × List Cell × List (List Cell)) → Type 0
TopLeads none = Unit
TopLeads (some (c, cs, rest)) = Leads c cs rest

pub empty-IsScanner : IsScanner []
unfolding InOrder
empty-IsScanner = record { cells = tt; order = tt }

pub tail-IsScanner : (c : Cell) (cs : List Cell) → IsScanner (c ∷ cs) → IsScanner cs
unfolding InOrder
tail-IsScanner c cs s = record { cells = s.cells.1; order = s.order.1 }

pub cons-IsScanner :
    (c : Cell) (cs : List Cell) → IsCell c.key → Below c cs → IsScanner cs → IsScanner (c ∷ cs)
unfolding InOrder
cons-IsScanner c cs i b s = record { cells = (i, s.cells); order = (b, s.order) }

pub head-Below : (c : Cell) (cs : List Cell) → IsScanner (c ∷ cs) → Below c cs
unfolding InOrder
head-Below c cs s = s.order.0

module _ (c : Cell) (cs : List Cell) (qs : List (List Cell)) (s : IsScanner (c ∷ cs))
    (ss : All IsScanner qs) where
  Leads-next :
      (d : Cell) (ds : List Cell) (rest : List (List Cell))
      → is_lt (key_compare d.key c.key) ≡ true
      → Leads d ds rest
      → Leads d ds ((c ∷ cs) ∷ rest)
  Leads-next d ds rest h l =
      let b : key_compare d.key c.key ≢ Ordering.gt = λ e. ground arith in
      record {
        cell = l.cell;
        below = l.below;
        below_others =
            Below-append d (c ∷ cs) (flatten rest) (b, Below-trans d c cs b (head-Below c cs s))
              l.below_others;
        scanner = l.scanner;
        others = (s, l.others);
      }

  not_behind : (k q : CellKey) → is_lt (key_compare q k) ≡ false → key_compare k q ≢ Ordering.gt
  unfolding key_compare
  not_behind k q h e = ground (arith, lex-flip (key_bytes k) (key_bytes q))

  Leads-first :
      (d : Cell) (ds : List Cell) (rest : List (List Cell))
      → is_lt (key_compare d.key c.key) ≡ false
      → Permᴰ (flatten qs) (d ∷ (ds ++ flatten rest))
      → Leads d ds rest
      → Leads c cs qs
  Leads-first d ds rest h p l =
      let b = not_behind c.key d.key h in
      record {
        cell = s.cells.0;
        below = head-Below c cs s;
        below_others =
            Below-perm c p
              (b, Below-trans c d _ b (Below-append d ds (flatten rest) l.below l.below_others));
        scanner = tail-IsScanner c cs s;
        others = ss;
      }

  Leads-alone : flatten qs ≡ [] → Leads c cs []
  Leads-alone e = record {
    cell = s.cells.0;
    below = head-Below c cs s;
    below_others = tt;
    scanner = tail-IsScanner c cs s;
    others = tt;
  }

  Leads-choose :
      (o : Option (Cell × List Cell × List (List Cell)))
      → Top qs o
      → TopLeads o
      → TopLeads (elim o [
        | none ↦ some (c, cs, [])
        | some (d, ds, rest) ↦
            if is_lt (key_compare d.key c.key)
            then some (d, ds, (c ∷ cs) ∷ rest)
            else some (c, cs, qs)
      ])
  Leads-choose none t l = Leads-alone t
  Leads-choose (some (d, ds, rest)) t l = elim (Bool-cases (is_lt (key_compare d.key c.key))) [
    | inl h ↦ rw h (Leads-next d ds rest h l)
    | inr h ↦ rw h (Leads-first d ds rest h t l)
  ]

pub take_top-TopLeads : (q : List (List Cell)) → All IsScanner q → TopLeads (take_top q)
unfolding take_top
take_top-TopLeads [] s = tt
take_top-TopLeads ([] ∷ qs) s = take_top-TopLeads qs s.1
take_top-TopLeads ((c ∷ cs) ∷ qs) s =
    Leads-choose c cs qs s.0 s.1 (take_top qs) (take_top-Top qs) (take_top-TopLeads qs s.1)
