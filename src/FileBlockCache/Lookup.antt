-- ===== src/FileBlockCache/Lookup.antt =====
-- What the users of the cache see: which blocks are found, which stay, and which make room.
use hypertable.Base.{
  ℕ, ◌+◌, ◌<◌, ◌≡◌, refl, Bool, true, false, List, [], ◌∷◌, ◌++◌, Option, none, some, arith, ◌==◌,
  leb, ltb, ◌&&◌, not, if◌then◌else◌, Bool-cases, inl, inr, ◌⊎◌, append-nil, sym, ◌∙◌,
}
use hypertable.FileBlockCache.{
  BlockCacheEntry, FileBlockCache, Room, cache_key, entry_key, find, erase, checkout, room_for,
  insert_and_checkout,
}
use hypertable.FileBlockCache.Entries.{find-append, find-key, find-erase}
use hypertable.FileBlockCache.Eviction.{
  idle, busy, idle_blocks, make_room-enough, make_room-find_used, make_room-split,
}
use hypertable.FileBlockCache.Invariant.{
  IsValid, used_once_more, checkout_entry-eq, insert_and_checkout-eq, is_refused, after_insert,
  new_entry,
}

-- A checkout finds exactly what is there: without an entry under the key it changes nothing and says
-- so; with one it hands out its block and length, counts one more user (modulo 2 ^ 32), and leaves
-- every other key as it was.
pub checkout-find :
    (file_id file_offset : ℕ) (c : FileBlockCache)
    → IsValid c
    → (find (cache_key file_id file_offset) c.cache ≡ none
        → checkout file_id file_offset c ≡ some (c, none))
      × ((e : BlockCacheEntry)
          → find (cache_key file_id file_offset) c.cache ≡ some e
          → (c' : FileBlockCache) × (checkout file_id file_offset c
              ≡ some (c', some (e.block, e.length)))
            × ((j : ℕ)
                → find j c'.cache ≡ (
                    if cache_key file_id file_offset == j
                    then some (used_once_more e)
                    else find j c.cache)))
unfolding checkout
checkout-find file_id file_offset c v = (
  λ absent. rw (absent, checkout) refl,
  λ e there.
      let k : entry_key e ≡ cache_key file_id file_offset = find-key _ c.cache e there in
      (
        record c { cache = erase (entry_key e) c.cache ++ (used_once_more e ∷ []) },
        rw (there, checkout) (rw (checkout_entry-eq e c v.unique, checkout) refl),
        λ j.
            rw (find-append, find-erase (entry_key e) j c.cache v.unique, k)
              (unfold find in ground arith),
      ),
)

insert-refused :
    (file_id file_offset block length : ℕ) (c : FileBlockCache)
    → is_refused file_id file_offset length c ≡ true
    → insert_and_checkout file_id file_offset block length c ≡ some (c, false, [])
unfolding insert_and_checkout
insert-refused file_id file_offset block length c h = rw h refl

triple-injective :
    {c c' : FileBlockCache} {b b' : Bool} {f f' : List ℕ}
    → ◌≡◌ {A = Option (FileBlockCache × Bool × List ℕ)} (some (c, b, f)) (some (c', b', f'))
    → (c ≡ c') × (b ≡ b') × (f ≡ f')
triple-injective e = (cc, cc, cc)

-- What an insertion that returns has done.
module _ (file_id file_offset block length : ℕ) {c c' : FileBlockCache} {done : Bool}
    {freed : List ℕ} (v : IsValid c)
    (h : insert_and_checkout file_id file_offset block length c ≡ some (c', done, freed)) where
  insert-cases :
      ((is_refused file_id file_offset length c ≡ true) × (c ≡ c') × (false ≡ done) × ([] ≡ freed))
      ⊎ ((is_refused file_id file_offset length c ≡ false)
          × (after_insert file_id file_offset block length (room_for length c) c ≡ c')
          × (leb length (room_for length c).avail ≡ done)
          × ((room_for length c).freed ≡ freed))
  insert-cases = elim (Bool-cases (is_refused file_id file_offset length c)) [
    | inl refused ↦
        let (p, q, r) =
          triple-injective (sym (insert-refused file_id file_offset block length c refused) ∙ h) in
        inl (refused, p, q, r)
    | inr taken ↦
        let (p, q, r) =
          triple-injective
            (sym (insert_and_checkout-eq file_id file_offset block length c v taken).0 ∙ h) in
        inr (taken, p, q, r)
  ]

room_for-enough :
    (n : ℕ) (c : FileBlockCache)
    → IsValid c
    → leb n (room_for n c).avail ≡ leb n (c.avail_memory + idle c.cache)
unfolding room_for
room_for-enough n c v = elim (Bool-cases (ltb c.avail_memory n)) [
  | inl full ↦ rw full (
      make_room-enough n c.avail_memory c.cache (omega (arith, v.accounted, v.bounded))
        (ground arith))
  | inr spare ↦ rw spare (ground arith)
]

-- A block is taken exactly if it is not there yet, is no larger than the whole memory, and fits in
-- what is free together with the blocks that nobody uses.
pub insert-taken :
    (file_id file_offset block length : ℕ) (c c' : FileBlockCache) (done : Bool) (freed : List ℕ)
    → IsValid c
    → insert_and_checkout file_id file_offset block length c ≡ some (c', done, freed)
    → done ≡ (
        not (is_refused file_id file_offset length c) && leb length (c.avail_memory + idle c.cache))
insert-taken file_id file_offset block length c c' done freed v h =
    elim (insert-cases file_id file_offset block length v h) [
      | inl (refused, _, d, _) ↦ rw (refused, ← d) refl
      | inr (taken, _, d, _) ↦ rw (taken, ← d) (room_for-enough length c v)
    ]

room_for-find_used :
    (n : ℕ) (c : FileBlockCache) (j : ℕ) (d : BlockCacheEntry)
    → 0 < d.ref_count
    → find j c.cache ≡ some d
    → find j (room_for n c).kept ≡ some d
unfolding room_for
room_for-find_used n c j d u h = elim (Bool-cases (ltb c.avail_memory n)) [
  | inl full ↦ rw full (make_room-find_used n c.avail_memory c.cache j d u h)
  | inr spare ↦ rw spare h
]

after_insert-find :
    (file_id file_offset block length j : ℕ) (room : Room) (c : FileBlockCache)
    (d : BlockCacheEntry)
    → find j room.kept ≡ some d
    → find j (after_insert file_id file_offset block length room c).cache ≡ some d
after_insert-find file_id file_offset block length j room c d h =
    elim (Bool-cases (ltb room.avail length)) [
      | inl short ↦ rw short h
      | inr fits ↦ rw fits (rw (find-append, h) refl)
    ]

-- No block in use makes room: whatever an insertion does, an entry with a user is found afterwards
-- as it was.
pub insert-keeps_used :
    (file_id file_offset block length : ℕ) (c c' : FileBlockCache) (done : Bool) (freed : List ℕ)
    (j : ℕ) (d : BlockCacheEntry)
    → IsValid c
    → insert_and_checkout file_id file_offset block length c ≡ some (c', done, freed)
    → find j c.cache ≡ some d
    → 0 < d.ref_count
    → find j c'.cache ≡ some d
insert-keeps_used file_id file_offset block length c c' done freed j d v h there used =
    elim (insert-cases file_id file_offset block length v h) [
      | inl (_, e, _, _) ↦ rw (← e) there
      | inr (_, e, _, _) ↦ rw (← e) (
          after_insert-find file_id file_offset block length j (room_for length c) c d
            (room_for-find_used length c j d used there))
    ]

-- A block that was taken is found under its key, with one user.
pub insert-find :
    (file_id file_offset block length : ℕ) (c c' : FileBlockCache) (freed : List ℕ)
    → IsValid c
    → insert_and_checkout file_id file_offset block length c ≡ some (c', true, freed)
    → find (cache_key file_id file_offset) c'.cache
      ≡ some (new_entry file_id file_offset block length)
insert-find file_id file_offset block length c c' freed v h =
    elim (insert-cases file_id file_offset block length v h) [
      | inl (_, _, d, _) ↦ cc
      | inr (taken, e, d, _) ↦
          let room = room_for length c in
          let fits : ltb room.avail length ≡ false = ground arith in
          let absent = (insert_and_checkout-eq file_id file_offset block length c v taken).1 in
          rw (← e, fits) (rw (find-append, absent) (unfold find in ground arith))
    ]

room_for-split :
    (n : ℕ) (c : FileBlockCache)
    → (front : List BlockCacheEntry) × (back : List BlockCacheEntry) × (c.cache ≡ front ++ back)
      × ((room_for n c).kept ≡ busy front ++ back)
      × ((room_for n c).freed ≡ idle_blocks front)
unfolding room_for
room_for-split n c = elim (Bool-cases (ltb c.avail_memory n)) [
  | inl full ↦ rw full (make_room-split n c.avail_memory c.cache)
  | inr spare ↦ rw spare ([], c.cache, refl, refl, refl)
]

after_insert-cache :
    (file_id file_offset block length : ℕ) (room : Room) (c : FileBlockCache)
    → (after_insert file_id file_offset block length room c).cache
      ≡ room.kept
        ++ (if leb length room.avail then new_entry file_id file_offset block length ∷ [] else [])
after_insert-cache file_id file_offset block length room c =
    elim (Bool-cases (ltb room.avail length)) [
      | inl short ↦
          let gives : leb length room.avail ≡ false = ground arith in
          rw (short, gives) (sym (append-nil room.kept))
      | inr fits ↦ let takes : leb length room.avail ≡ true = ground arith in rw (fits, takes) refl
    ]

-- The blocks that an insertion deletes are unused ones, taken from the front, where the entries stand
-- that were not checked out for longest: the cache falls into two parts, of which the front loses
-- its unused entries, and the back stays as it is, before the new entry if there is one.
pub insert-lru :
    (file_id file_offset block length : ℕ) (c c' : FileBlockCache) (done : Bool) (freed : List ℕ)
    → IsValid c
    → insert_and_checkout file_id file_offset block length c ≡ some (c', done, freed)
    → (front : List BlockCacheEntry) × (back : List BlockCacheEntry) × (c.cache ≡ front ++ back)
      × (freed ≡ idle_blocks front)
      × (c'.cache
          ≡ (busy front ++ back)
            ++ (if done then new_entry file_id file_offset block length ∷ [] else []))
insert-lru file_id file_offset block length c c' done freed v h =
    elim (insert-cases file_id file_offset block length v h) [
      | inl (_, e, d, f) ↦ ([], c.cache, refl, sym f, rw (← e, ← d) (sym (append-nil c.cache)))
      | inr (taken, e, d, f) ↦
          let (front, back, p, q, g) = room_for-split length c in
          (
            front,
            back,
            p,
            sym f ∙ g,
            rw (← e, ← d, ← q)
                (after_insert-cache file_id file_offset block length (room_for length c) c),
          )
    ]
