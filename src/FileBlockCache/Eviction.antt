-- ===== src/FileBlockCache/Eviction.antt =====
-- The loop that makes room: what it keeps, and when it succeeds.
use hypertable.Base.{
  ℕ, ◌+◌, ◌%◌, ◌^◌, ◌≤◌, ◌<◌, ◌≡◌, refl, List, [], ◌∷◌, ◌++◌, none, some, arith, ◌==◌, leb,
  if◌then◌else◌, Bool-cases, inl, inr,
}
use hypertable.FileBlockCache.{BlockCacheEntry, entry_key, find, make_room, Room}
use hypertable.FileBlockCache.Entries.{IsUnique, total}

-- The memory of the blocks that nobody uses.
abbrev pub idle : List BlockCacheEntry → ℕ
idle [] = 0
idle (e ∷ es) = if e.ref_count == 0 then e.length + idle es else idle es

-- The entries in use, and the blocks of the others.
abbrev pub busy : List BlockCacheEntry → List BlockCacheEntry
busy [] = []
busy (e ∷ es) = if e.ref_count == 0 then busy es else e ∷ busy es

abbrev pub idle_blocks : List BlockCacheEntry → List ℕ
idle_blocks [] = []
idle_blocks (e ∷ es) = if e.ref_count == 0 then e.block ∷ idle_blocks es else idle_blocks es

pub idle-le-total : (es : List BlockCacheEntry) → idle es ≤ total es
idle-le-total [] = omega arith
idle-le-total (e ∷ es) = ground (arith, idle-le-total es)

-- The induction that the loop follows: it stops behind the entry that gives enough room, drops one
-- that nobody uses, and passes by one in use.
module _ {ℓ} (n : ℕ) (P : ℕ → List BlockCacheEntry → Room → Type ℓ)
    (base : (a : ℕ) → P a [] (record { kept = []; avail = a; freed = [] }))
    (enough : (a : ℕ) (e : BlockCacheEntry) (es : List BlockCacheEntry)
      → e.ref_count ≡ 0
      → n ≤ (a + e.length) % 2 ^ 64
      → P a (e ∷ es) (record { kept = es; avail = (a + e.length) % 2 ^ 64; freed = e.block ∷ [] }))
    (drop : (a : ℕ) (e : BlockCacheEntry) (es : List BlockCacheEntry) (r : Room)
      → e.ref_count ≡ 0
      → (a + e.length) % 2 ^ 64 < n
      → P ((a + e.length) % 2 ^ 64) es r
      → P a (e ∷ es) (record r { freed = e.block ∷ r.freed }))
    (pass : (a : ℕ) (e : BlockCacheEntry) (es : List BlockCacheEntry) (r : Room)
      → 0 < e.ref_count
      → P a es r
      → P a (e ∷ es) (record r { kept = e ∷ r.kept })) where
  make_room_rule : (a : ℕ) (es : List BlockCacheEntry) → P a es (make_room n a es)
  unfolding make_room
  make_room_rule a [] = base a
  make_room_rule a (e ∷ es) = elim (Bool-cases (e.ref_count == 0)) [
    | inl free ↦ rw free (elim (Bool-cases (leb n ((a + e.length) % 2 ^ 64))) [
      | inl stop ↦ rw stop (enough a e es (ground arith) (ground arith))
      | inr more ↦ rw more (
          drop a e es _ (ground arith) (ground arith) (make_room_rule ((a + e.length) % 2 ^ 64) es))
    ])
    | inr used ↦ rw used (pass a e es _ (ground arith) (make_room_rule a es))
  ]

pub make_room-total :
    (n a : ℕ) (es : List BlockCacheEntry)
    → a + total es < 2 ^ 64
    → (make_room n a es).avail + total (make_room n a es).kept ≡ a + total es
make_room-total n =
    make_room_rule n (λ a es r. a + total es < 2 ^ 64 → r.avail + total r.kept ≡ a + total es)
      (λ a h. refl) (λ a e es free k h. omega arith) (λ a e es r free k ih h. omega arith)
      (λ a e es r used ih h. omega arith)

-- There is room in the end exactly if the free memory and the unused blocks are enough.
pub make_room-enough :
    (n a : ℕ) (es : List BlockCacheEntry)
    → a + total es < 2 ^ 64
    → a < n
    → leb n (make_room n a es).avail ≡ leb n (a + idle es)
make_room-enough n =
    make_room_rule n (λ a es r. a + total es < 2 ^ 64 → a < n → leb n r.avail ≡ leb n (a + idle es))
      (λ a h k. ground arith) (λ a e es free k h l. ground arith)
      (λ a e es r free k ih h l. ground (arith, ih (omega arith) (omega arith)))
      (λ a e es r used ih h l. ground (arith, ih (omega arith) l))

-- What was not there is not there afterwards.
pub make_room-find-none :
    (n a : ℕ) (es : List BlockCacheEntry) (k : ℕ)
    → find k es ≡ none
    → find k (make_room n a es).kept ≡ none
unfolding find
make_room-find-none n a es k =
    make_room_rule n (λ a es r. find k es ≡ none → find k r.kept ≡ none) (λ a h. refl)
      (λ a e es free l h. ground arith) (λ a e es r free l ih h. ground (arith, ih (ground arith)))
      (λ a e es r used ih h. ground (arith, ih (ground arith))) a es

pub make_room-IsUnique :
    (n a : ℕ) (es : List BlockCacheEntry) → IsUnique es → IsUnique (make_room n a es).kept
make_room-IsUnique n a es u =
    (make_room_rule n
      (λ a es r.
        IsUnique es → IsUnique r.kept × ((k : ℕ) → find k es ≡ none → find k r.kept ≡ none))
      (λ a u. (tt, λ k h. h)) (λ a e es free l u. (u.1, λ k h. unfold find in ground arith))
      (λ a e es r free l ih u. ((ih u.1).0, λ k h. unfold find in (ih u.1).1 k (ground arith)))
      (λ a e es r used ih u. (
        ((ih u.1).1 (entry_key e) u.0, (ih u.1).0),
        λ k h. unfold find in ground (arith, (ih u.1).1 k (ground arith)),
      ))
      a es u).0

-- An entry in use stays as it is.
pub make_room-find_used :
    (n a : ℕ) (es : List BlockCacheEntry) (k : ℕ) (d : BlockCacheEntry)
    → 0 < d.ref_count
    → find k es ≡ some d
    → find k (make_room n a es).kept ≡ some d
unfolding find
make_room-find_used n a es k d u =
    make_room_rule n (λ a es r. find k es ≡ some d → find k r.kept ≡ some d) (λ a h. h)
      (λ a e es free l h. ground arith) (λ a e es r free l ih h. ground (arith, ih))
      (λ a e es r used ih h. ground (arith, ih)) a es

-- The blocks that go are those of the unused entries up to some point, from the front on, where the
-- entries stand that were not checked out for longest.
pub make_room-split :
    (n a : ℕ) (es : List BlockCacheEntry)
    → (front : List BlockCacheEntry) × (back : List BlockCacheEntry) × (es ≡ front ++ back)
      × ((make_room n a es).kept ≡ busy front ++ back)
      × ((make_room n a es).freed ≡ idle_blocks front)
make_room-split n =
    make_room_rule n
      (λ a es r.
        (front : List BlockCacheEntry) × (back : List BlockCacheEntry) × (es ≡ front ++ back)
        × (r.kept ≡ busy front ++ back)
        × (r.freed ≡ idle_blocks front))
      (λ a. ([], [], refl, refl, refl))
      (λ a e es free l. (e ∷ [], es, refl, rw free refl, rw free refl))
      (λ a e es r free l ih.
        let (front, back, p, q, f) = ih in
        (e ∷ front, back, rw p refl, rw (free, q) refl, rw (free, f) refl))
      (λ a e es r used ih.
        let (front, back, p, q, f) = ih in (e ∷ front, back, rw p refl, ground arith, ground arith))
