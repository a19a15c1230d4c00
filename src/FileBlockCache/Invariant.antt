-- ===== src/FileBlockCache/Invariant.antt =====
-- Every method keeps the cache well formed, and no `assert` fails.
use hypertable.Base.{
  ℕ, ◌+◌, ◌-◌, ◌%◌, ◌^◌, ◌<◌, ◌≡◌, refl, Bool, false, List, [], ◌∷◌, ◌++◌, Option, none, some,
  arith, ◌==◌, leb, ltb, ◌||◌, if◌then◌else◌, Bool-cases, Option-cases, inl, inr,
}
use hypertable.FileBlockCache.{
  BlockCacheEntry, FileBlockCache, Room, cache_key, entry_key, new_cache, find, erase,
  decrement_ref_count, push_back, is_some, checkout_entry, checkout, checkin, room_for,
  insert_entry, insert_and_checkout,
}
use hypertable.FileBlockCache.Entries.{
  IsUnique, total, find-key, find-erase, erase-IsUnique, total-erase, total-append, append-IsUnique,
  find-decrement,
}
use hypertable.FileBlockCache.Eviction.{make_room-total, make_room-IsUnique, make_room-find-none}

-- No two blocks have one key, and the memory is either free or taken by a block of the cache.
pub record IsValid (c : FileBlockCache) : Type 0 where
  pub unique : IsUnique c.cache
  pub accounted : c.avail_memory + total c.cache ≡ c.max_memory
  pub bounded : c.max_memory < 2 ^ 64

-- An empty cache is well formed.
pub new_cache-IsValid : (max_memory : ℕ) → max_memory < 2 ^ 64 → IsValid (new_cache max_memory)
unfolding new_cache
new_cache-IsValid max_memory h = record { unique = tt; accounted = omega arith; bounded = h }

push_back-none :
    (e : BlockCacheEntry) (es : List BlockCacheEntry)
    → find (entry_key e) es ≡ none
    → push_back e es ≡ some (es ++ (e ∷ []))
unfolding push_back
push_back-none e es h = rw h refl

-- The entry that a checkout puts in the place of `e`.
abbrev pub used_once_more : BlockCacheEntry → BlockCacheEntry
used_once_more e = record e { ref_count = (e.ref_count + 1) % 2 ^ 32 }

pub checkout_entry-eq :
    (e : BlockCacheEntry) (c : FileBlockCache)
    → IsUnique c.cache
    → checkout_entry e c
      ≡ some (record c { cache = erase (entry_key e) c.cache ++ (used_once_more e ∷ []) })
unfolding checkout_entry
checkout_entry-eq e c u =
    rw
      (
        push_back-none (used_once_more e) (erase (entry_key e) c.cache)
            (rw (find-erase (entry_key e) (entry_key e) c.cache u) (ground arith)),
        checkout_entry,
      )
      refl

checkout_entry-IsValid :
    (e : BlockCacheEntry) (c : FileBlockCache)
    → IsValid c
    → find (entry_key e) c.cache ≡ some e
    → IsValid (record c { cache = erase (entry_key e) c.cache ++ (used_once_more e ∷ []) })
checkout_entry-IsValid e c v h = record {
  unique =
      append-IsUnique (erase (entry_key e) c.cache) (used_once_more e)
        (erase-IsUnique (entry_key e) c.cache v.unique)
        (rw (find-erase (entry_key e) (entry_key e) c.cache v.unique) (ground arith));
  accounted = omega (
    arith,
    v.accounted,
    total-erase (entry_key e) c.cache e h,
    total-append (erase (entry_key e) c.cache) (used_once_more e ∷ []),
  );
  bounded = v.bounded;
}

decrement-IsUnique :
    (k : ℕ) (es : List BlockCacheEntry) → IsUnique es → IsUnique (decrement_ref_count k es)
unfolding decrement_ref_count
decrement-IsUnique k [] u = tt
decrement-IsUnique k (e ∷ es) u = elim (Bool-cases (entry_key e == k)) [
  | inl here ↦ rw here (u.0, u.1)
  | inr later ↦
      rw later
        (rw (find-decrement k (entry_key e) es) (ground (arith, u.0)), decrement-IsUnique k es u.1)
]

total-decrement : (k : ℕ) (es : List BlockCacheEntry) → total (decrement_ref_count k es) ≡ total es
unfolding decrement_ref_count
total-decrement k [] = refl
total-decrement k (e ∷ es) = ground (arith, total-decrement k es)

-- In a well-formed cache no assertion of `checkout` fails, and the cache stays well formed.
pub checkout-IsValid :
    (file_id file_offset : ℕ) (c : FileBlockCache)
    → IsValid c
    → (c' : FileBlockCache) × (found : Option (ℕ × ℕ)) × (checkout file_id file_offset c
        ≡ some (c', found))
      × IsValid c'
unfolding checkout
checkout-IsValid file_id file_offset c v =
    elim (Option-cases (find (cache_key file_id file_offset) c.cache)) [
      | inl absent ↦ (c, none, rw (absent, checkout) refl, v)
      | inr (e, there) ↦
          let k : entry_key e ≡ cache_key file_id file_offset = find-key _ c.cache e there in
          (
            record c { cache = erase (entry_key e) c.cache ++ (used_once_more e ∷ []) },
            some (e.block, e.length),
            rw (there, checkout) (rw (checkout_entry-eq e c v.unique, checkout) refl),
            checkout_entry-IsValid e c v (rw k there),
          )
    ]

-- A block that is there and in use can be checked in, and the cache stays well formed. On any other
-- block the assertion of `checkin` fails.
pub checkin-IsValid :
    (file_id file_offset : ℕ) (c : FileBlockCache)
    → IsValid c
    → ((e : BlockCacheEntry)
        → find (cache_key file_id file_offset) c.cache ≡ some e
        → 0 < e.ref_count
        → (c' : FileBlockCache) × (checkin file_id file_offset c ≡ some c') × IsValid c')
      × (find (cache_key file_id file_offset) c.cache ≡ none → checkin file_id file_offset c ≡ none)
      × ((e : BlockCacheEntry)
          → find (cache_key file_id file_offset) c.cache ≡ some e
          → e.ref_count ≡ 0
          → checkin file_id file_offset c ≡ none)
unfolding checkin
checkin-IsValid file_id file_offset c v =
    let k : ℕ = cache_key file_id file_offset in
    (
      λ e there used. (
        record c { cache = decrement_ref_count k c.cache },
        rw (there, checkin) (ground arith),
        record {
          unique = decrement-IsUnique k c.cache v.unique;
          accounted = omega (arith, v.accounted, total-decrement k c.cache);
          bounded = v.bounded;
        },
      ),
      λ absent. rw (absent, checkin) refl,
      λ e there free. rw (there, checkin) (ground arith),
    )

room_for-lem :
    (n : ℕ) (c : FileBlockCache)
    → IsValid c
    → IsUnique (room_for n c).kept
      × ((room_for n c).avail + total (room_for n c).kept ≡ c.max_memory)
      × ((k : ℕ) → find k c.cache ≡ none → find k (room_for n c).kept ≡ none)
unfolding room_for
room_for-lem n c v = elim (Bool-cases (ltb c.avail_memory n)) [
  | inl full ↦ rw full (
    make_room-IsUnique n c.avail_memory c.cache v.unique,
    omega (arith, v.accounted, v.bounded, make_room-total n c.avail_memory c.cache),
    make_room-find-none n c.avail_memory c.cache,
  )
  | inr spare ↦ rw spare (v.unique, v.accounted, λ k h. h)
]

-- The entry that an insertion adds.
abbrev pub new_entry : ℕ → ℕ → ℕ → ℕ → BlockCacheEntry
new_entry file_id file_offset block length = record {
  file_id = file_id;
  file_offset = file_offset;
  block = block;
  length = length;
  ref_count = 1;
}

-- The cache behind `insert_entry`.
abbrev pub after_insert : ℕ → ℕ → ℕ → ℕ → Room → FileBlockCache → FileBlockCache
after_insert file_id file_offset block length room c =
    if ltb room.avail length
    then record c { cache = room.kept; avail_memory = room.avail }
    else record c {
      cache = room.kept ++ (new_entry file_id file_offset block length ∷ []);
      avail_memory = room.avail - length;
    }

pub insert_entry-eq :
    (file_id file_offset block length : ℕ) (room : Room) (c : FileBlockCache)
    → find (cache_key file_id file_offset) room.kept ≡ none
    → insert_entry file_id file_offset block length room c
      ≡ some (after_insert file_id file_offset block length room c, leb length room.avail)
unfolding insert_entry
insert_entry-eq file_id file_offset block length room c h =
    rw (push_back-none (new_entry file_id file_offset block length) room.kept h, insert_entry)
      (ground arith)

after_insert-IsValid :
    (file_id file_offset block length : ℕ) (room : Room) (c : FileBlockCache)
    → IsUnique room.kept
    → room.avail + total room.kept ≡ c.max_memory
    → c.max_memory < 2 ^ 64
    → find (cache_key file_id file_offset) room.kept ≡ none
    → IsValid (after_insert file_id file_offset block length room c)
after_insert-IsValid file_id file_offset block length room c u t b h =
    elim (Bool-cases (ltb room.avail length)) [
      | inl short ↦ rw short (record { unique = u; accounted = t; bounded = b })
      | inr fits ↦ rw fits (record {
        unique = append-IsUnique room.kept (new_entry file_id file_offset block length) u h;
        accounted =
            ground
              (arith, total-append room.kept (new_entry file_id file_offset block length ∷ []));
        bounded = b;
      })
    ]

-- Whether `insert_and_checkout` turns the block away at once.
abbrev pub is_refused : ℕ → ℕ → ℕ → FileBlockCache → Bool
is_refused file_id file_offset length c =
    ltb c.max_memory length || is_some (find (cache_key file_id file_offset) c.cache)

pub insert_and_checkout-eq :
    (file_id file_offset block length : ℕ) (c : FileBlockCache)
    → IsValid c
    → is_refused file_id file_offset length c ≡ false
    → (insert_and_checkout file_id file_offset block length c
        ≡ some (
          after_insert file_id file_offset block length (room_for length c) c,
          leb length (room_for length c).avail,
          (room_for length c).freed,
        ))
      × (find (cache_key file_id file_offset) (room_for length c).kept ≡ none)
unfolding insert_and_checkout
insert_and_checkout-eq file_id file_offset block length c v taken =
    let (u, t, keep) = room_for-lem length c v in
    let absent : find (cache_key file_id file_offset) (room_for length c).kept ≡ none =
      keep (cache_key file_id file_offset) (ground arith) in
    (
      rw taken (
          rw
            (
              insert_entry-eq file_id file_offset block length (room_for length c) c absent,
              insert_and_checkout,
            )
            refl),
      absent,
    )

-- In a well-formed cache no assertion of `insert_and_checkout` fails, and the cache stays well
-- formed, whether the block was taken or not.
pub insert_and_checkout-IsValid :
    (file_id file_offset block length : ℕ) (c : FileBlockCache)
    → IsValid c
    → (c' : FileBlockCache) × (done : Bool) × (freed : List ℕ) × (insert_and_checkout file_id
          file_offset block length c
        ≡ some (c', done, freed))
      × IsValid c'
unfolding insert_and_checkout
insert_and_checkout-IsValid file_id file_offset block length c v =
    elim (Bool-cases (is_refused file_id file_offset length c)) [
      | inl refused ↦ (c, false, [], rw refused refl, v)
      | inr taken ↦
          let (u, t, _) = room_for-lem length c v in
          let (e, absent) = insert_and_checkout-eq file_id file_offset block length c v taken in
          (
            after_insert file_id file_offset block length (room_for length c) c,
            leb length (room_for length c).avail,
            (room_for length c).freed,
            unfold insert_and_checkout in e,
            after_insert-IsValid file_id file_offset block length (room_for length c) c u t
                v.bounded absent,
          )
    ]
