-- ===== src/ApplicationQueue/Usage.antt =====
-- The usage records: lookups behind each change of the map.
use hypertable.Base.{
  ℕ, ◌≡◌, ◌⊎◌, inl, inr, refl, Bool-cases, List, [], ◌∷◌, none, some, arith, ◌==◌, if◌then◌else◌,
}
use hypertable.ApplicationQueue.{UsageRec, find_usage, write_usage, erase_usage}

pub find_usage-group :
    (g : ℕ) (us : List UsageRec) (u : UsageRec) → find_usage g us ≡ some u → u.thread_group ≡ g
unfolding find_usage
find_usage-group g [] u h = cc
find_usage-group g (v ∷ vs) u h = ground (arith, find_usage-group g vs u)

pub find_usage-write_usage :
    (g : ℕ) (u : UsageRec) (us : List UsageRec)
    → find_usage g (write_usage u us) ≡ (
        if u.thread_group == g
        then elim (find_usage g us) [ none ↦ none | some v ↦ some u ]
        else find_usage g us)
unfolding find_usage write_usage
find_usage-write_usage g u [] = ground arith
find_usage-write_usage g u (v ∷ vs) = ground (arith, find_usage-write_usage g u vs)

pub find_usage-erase_usage :
    (g h : ℕ) (us : List UsageRec)
    → find_usage g (erase_usage h us) ≡ (if h == g then none else find_usage g us)
unfolding find_usage erase_usage
find_usage-erase_usage g h [] = ground arith
find_usage-erase_usage g h (v ∷ vs) = ground (arith, find_usage-erase_usage g h vs)

pub find_usage_cases :
    (g : ℕ) (us : List UsageRec)
    → (find_usage g us ≡ none)
      ⊎ ((u : UsageRec) × (find_usage g us ≡ some u) × (u.thread_group ≡ g))
unfolding find_usage
find_usage_cases g [] = inl refl
find_usage_cases g (v ∷ vs) = elim (Bool-cases (v.thread_group == g)) [
  | inl e ↦ inr (v, rw e refl, ground arith)
  | inr e ↦ elim (find_usage_cases g vs) [
    | inl q ↦ inl (rw e q)
    | inr (u, q, group) ↦ inr (u, rw e q, group)
  ]
]
