-- ===== src/FileBlockCache/Entries.antt =====
-- The two indices of the cache agree: searching what was erased, counted down and appended.
use hypertable.Base.{
  ℕ, ◌+◌, ◌-◌, ◌≡◌, refl, List, [], ◌∷◌, ◌++◌, Option, none, some, arith, ◌==◌, if◌then◌else◌,
  Bool-cases, inl, inr,
}
use hypertable.FileBlockCache.{BlockCacheEntry, entry_key, find, erase, decrement_ref_count}

-- No two entries have one key.
abbrev pub IsUnique : List BlockCacheEntry → Type 0
IsUnique [] = Unit
IsUnique (e ∷ es) = (find (entry_key e) es ≡ none) × IsUnique es

-- The memory of all blocks.
abbrev pub total : List BlockCacheEntry → ℕ
total [] = 0
total (e ∷ es) = e.length + total es

abbrev pub or_else {ℓ} : {A : Type ℓ} → Option A → Option A → Option A
or_else (some a) o = some a
or_else none o = o

pub find-append :
    (k : ℕ) (es ds : List BlockCacheEntry) → find k (es ++ ds) ≡ or_else (find k es) (find k ds)
unfolding find
find-append k [] ds = refl
find-append k (e ∷ es) ds = ground (arith, find-append k es ds)

pub find-key :
    (k : ℕ) (es : List BlockCacheEntry) (e : BlockCacheEntry) → find k es ≡ some e → entry_key e ≡ k
unfolding find
find-key k [] e h = cc
find-key k (d ∷ es) e h = ground (arith, find-key k es e)

pub find-erase :
    (k j : ℕ) (es : List BlockCacheEntry)
    → IsUnique es
    → find j (erase k es) ≡ (if k == j then none else find j es)
unfolding find erase
find-erase k j [] u = ground arith
find-erase k j (e ∷ es) u = ground (arith, find-erase k j es u.1, u.0)

pub erase-IsUnique : (k : ℕ) (es : List BlockCacheEntry) → IsUnique es → IsUnique (erase k es)
unfolding erase
erase-IsUnique k [] u = tt
erase-IsUnique k (e ∷ es) u = elim (Bool-cases (entry_key e == k)) [
  | inl here ↦ rw here u.1
  | inr later ↦
      rw later
        (rw (find-erase k (entry_key e) es u.1) (ground (arith, u.0)), erase-IsUnique k es u.1)
]

pub total-erase :
    (k : ℕ) (es : List BlockCacheEntry) (e : BlockCacheEntry)
    → find k es ≡ some e
    → total (erase k es) + e.length ≡ total es
unfolding find erase
total-erase k [] e h = cc
total-erase k (d ∷ es) e h = ground (arith, total-erase k es e)

pub total-append : (es ds : List BlockCacheEntry) → total (es ++ ds) ≡ total es + total ds
total-append [] ds = omega arith
total-append (e ∷ es) ds = omega (arith, total-append es ds)

pub append-IsUnique :
    (es : List BlockCacheEntry) (e : BlockCacheEntry)
    → IsUnique es
    → find (entry_key e) es ≡ none
    → IsUnique (es ++ (e ∷ []))
unfolding find
append-IsUnique [] e u h = (refl, tt)
append-IsUnique (d ∷ es) e u h =
    (rw find-append (ground (arith, u.0)), append-IsUnique es e u.1 (ground arith))

pub find-decrement :
    (k j : ℕ) (es : List BlockCacheEntry)
    → find j (decrement_ref_count k es) ≡ elim (find j es) [
      | none ↦ none
      | some e ↦ if k == j then some (record e { ref_count = e.ref_count - 1 }) else some e
    ]
unfolding find decrement_ref_count
find-decrement k j [] = refl
find-decrement k j (e ∷ es) = ground (arith, find-decrement k j es)
