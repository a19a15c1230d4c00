-- ===== src/ApplicationQueue/Scan.antt =====
-- The requests of a group, and the search for one that is ready.
use hypertable.Base.{
  ℕ, ◌+◌, ◌-◌, ◌<◌, ◌≡◌, ◌⊎◌, inl, inr, refl, true, false, List, [], ◌∷◌, ◌++◌, none, some, arith,
  ◌==◌, if◌then◌else◌,
}
use hypertable.ApplicationQueue.{UsageRec, WorkRec, find_usage, is_ready, scan, pick}

-- The requests of one group, in order, and their number.
unfoldable pub of_group : ℕ → List WorkRec → List WorkRec
of_group g [] = []
of_group g (r ∷ rs) = let rest = of_group g rs in if r.usage == g then r ∷ rest else rest

unfoldable pub count : ℕ → List WorkRec → ℕ
count g [] = 0
count g (r ∷ rs) = (if r.usage == g then 1 else 0) + count g rs

pub of_group-append :
    (g : ℕ) (rs ss : List WorkRec) → of_group g (rs ++ ss) ≡ of_group g rs ++ of_group g ss
unfolding of_group
of_group-append g [] ss = refl
of_group-append g (r ∷ rs) ss = ground (arith, of_group-append g rs ss)

pub count-append : (g : ℕ) (rs ss : List WorkRec) → count g (rs ++ ss) ≡ count g rs + count g ss
unfolding count
count-append g [] ss = ground arith
count-append g (r ∷ rs) ss = ground (arith, count-append g rs ss)

pub count-pick :
    (g n : ℕ) (rs : List WorkRec)
    → count g rs ≡ elim (pick n rs) [
      | none ↦ count g rs
      | some (r, rest) ↦ (if r.usage == g then 1 else 0) + count g rest
    ]
unfolding pick count
count-pick g n [] = refl
count-pick g n (x ∷ xs) = ground (arith, count-pick g (n - 1) xs)

-- `scan` with a request found: it is ready, it is the first of its group, and the requests of the other
-- groups are left.
unfoldable pub IsFound : List UsageRec → List WorkRec → WorkRec → List WorkRec → Type 0
IsFound us rs r rest =
    (is_ready us r ≡ some true)
    × ((g : ℕ) → count g rs ≡ (if r.usage == g then 1 else 0) + count g rest)
    × ((g : ℕ)
        → 0 < g
        → of_group g rs ≡ (if r.usage == g then r ∷ of_group g rest else of_group g rest))

-- Every request can be looked up, and whether one is ready depends on its group alone.
is_ready-same :
    (us : List UsageRec) (x r : WorkRec) → x.usage ≡ r.usage → is_ready us x ≡ is_ready us r
unfolding is_ready
is_ready-same us x r e = rw e refl

there-IsFound :
    (us : List UsageRec) (x : WorkRec) (xs : List WorkRec) (r : WorkRec) (rest : List WorkRec)
    → is_ready us x ≡ some false
    → IsFound us xs r rest
    → IsFound us (x ∷ xs) r (x ∷ rest)
unfolding of_group count IsFound
there-IsFound us x xs r rest h (ready, counts, groups) = (
  ready,
  λ g. ground (arith, counts g),
  λ g pos. ground (arith, groups g pos, is_ready-same us x r),
)

is_ready-answers :
    (us : List UsageRec) (x : WorkRec)
    → (0 < x.usage → ¬ (find_usage x.usage us ≡ none))
    → (is_ready us x ≡ some true) ⊎ (is_ready us x ≡ some false)
unfolding is_ready
is_ready-answers us x h = ground arith

here-IsFound :
    (us : List UsageRec) (x : WorkRec) (xs : List WorkRec)
    → is_ready us x ≡ some true
    → IsFound us (x ∷ xs) x xs
unfolding of_group count IsFound
here-IsFound us x xs e = (e, λ g. refl, λ g pos. refl)

-- What `scan` returns where the usage record of every request is there.
pub scan_cases :
    (us : List UsageRec) (rs : List WorkRec)
    → ((g : ℕ) → 0 < g → 0 < count g rs → ¬ (find_usage g us ≡ none))
    → ((scan us rs ≡ some none)
        × ((r : WorkRec) → is_ready us r ≡ some true → count r.usage rs ≡ 0))
      ⊎ ((r : WorkRec) × (rest : List WorkRec) × (scan us rs ≡ some (some (r, rest)))
          × IsFound us rs r rest)
unfolding scan count
scan_cases us [] h = inl (refl, λ r ready. refl)
scan_cases us (x ∷ xs) h = elim (is_ready-answers us x (λ pos. h x.usage pos (ground arith))) [
  | inl e ↦ inr (x, xs, rw (e, scan) refl, here-IsFound us x xs e)
  | inr e ↦ elim (scan_cases us xs (λ g pos c. h g pos (omega arith))) [
    | inl (q, busy) ↦
        inl (rw (e, q, scan) refl, λ r ready. ground (arith, busy r ready, is_ready-same us x r))
    | inr (r, rest, q, found) ↦
        inr (r, x ∷ rest, rw (e, q, scan) refl, there-IsFound us x xs r rest e found)
  ]
]
