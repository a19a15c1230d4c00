-- ===== src/FileBlockCache.antt =====
-- src/cc/Hypertable/RangeServer/FileBlockCache.h and FileBlockCache.cc: blocks of files in memory,
-- counted by their users, the least recently checked out first.
-- The multi-index container is the list of its sequenced index; its hashed index is a search. A block
-- is its address. Every method holds the mutex, so a method is one step. `none` is a failed `assert`.
pub mod Entries
pub mod Eviction
pub mod Invariant
pub mod Lookup
mod Runs
use hypertable.Base.{
  ℕ, zero, suc, ◌+◌, ◌-◌, ◌*◌, ◌%◌, ◌^◌, Bool, true, false, ◌&&◌, ◌||◌, not, List, [], ◌∷◌, ◌++◌,
  Option, none, some, ltb, leb, ◌==◌, if◌then◌else◌,
}

pub record BlockCacheEntry : Type 0 where
  pub file_id : ℕ
  pub file_offset : ℕ
  pub block : ℕ
  pub length : ℕ
  pub ref_count : ℕ

-- `((uint64_t)file_id << 32) | file_offset`, for file ids from `get_next_file_id` and an offset of 32
-- bits, so that `|` adds.
abbrev pub cache_key : ℕ → ℕ → ℕ
cache_key file_id file_offset = (file_id * 2 ^ 32 + file_offset) % 2 ^ 64

abbrev pub entry_key : BlockCacheEntry → ℕ
entry_key e = cache_key e.file_id e.file_offset

pub record FileBlockCache : Type 0 where
  pub cache : List BlockCacheEntry
  pub max_memory : ℕ
  pub avail_memory : ℕ

unfoldable pub new_cache : ℕ → FileBlockCache
new_cache max_memory = record { cache = []; max_memory = max_memory; avail_memory = max_memory }

-- The hashed index: `find` and `erase`.
unfoldable pub find : ℕ → List BlockCacheEntry → Option BlockCacheEntry
find k [] = none
find k (e ∷ es) = if entry_key e == k then some e else find k es

unfoldable pub erase : ℕ → List BlockCacheEntry → List BlockCacheEntry
erase k [] = []
erase k (e ∷ es) = let rest = erase k es in if entry_key e == k then es else e ∷ rest

-- `hash_index.modify(iter, DecrementRefCount())`.
unfoldable pub decrement_ref_count : ℕ → List BlockCacheEntry → List BlockCacheEntry
decrement_ref_count k [] = []
decrement_ref_count k (e ∷ es) =
    let rest = decrement_ref_count k es in
    if entry_key e == k then record e { ref_count = e.ref_count - 1 } ∷ es else e ∷ rest

abbrev pub is_some {ℓ} : {A : Type ℓ} → Option A → Bool
is_some none = false
is_some (some a) = true

-- `m_cache.push_back`, which refuses a key that the unique index holds; the callers assert that it
-- does not.
unfoldable pub push_back : BlockCacheEntry → List BlockCacheEntry → Option (List BlockCacheEntry)
push_back e es = if is_some (find (entry_key e) es) then none else some (es ++ (e ∷ []))

-- `checkout`: its result, and the block and its length.
unfoldable pub checkout_entry : BlockCacheEntry → FileBlockCache → Option FileBlockCache
checkout_entry e c =
    elim (push_back (record e { ref_count = (e.ref_count + 1) % 2 ^ 32 })
      (erase (entry_key e) c.cache)) [ none ↦ none | some es ↦ some (record c { cache = es }) ]

unfoldable pub checkout : ℕ → ℕ → FileBlockCache → Option (FileBlockCache × Option (ℕ × ℕ))
checkout file_id file_offset c = elim (find (cache_key file_id file_offset) c.cache) [
  | none ↦ some (c, none)
  | some e ↦ elim (checkout_entry e c) [
    | none ↦ none
    | some c' ↦ some (c', some (e.block, e.length))
  ]
]

-- `checkin`.
unfoldable pub checkin : ℕ → ℕ → FileBlockCache → Option FileBlockCache
checkin file_id file_offset c =
    let k = cache_key file_id file_offset in
    elim (find k c.cache) [
      | none ↦ none
      | some e ↦
          if ltb 0 e.ref_count
          then some (record c { cache = decrement_ref_count k c.cache })
          else none
    ]

-- The entries that are left, the memory that is free, and the blocks that were deleted.
pub record Room : Type 0 where
  pub kept : List BlockCacheEntry
  pub avail : ℕ
  pub freed : List ℕ

-- The loop that makes room.
unfoldable pub make_room : ℕ → ℕ → List BlockCacheEntry → Room
make_room length avail [] = record { kept = []; avail = avail; freed = [] }
make_room length avail (e ∷ es) =
    let more = (avail + e.length) % 2 ^ 64 in
    let rest = make_room length (if e.ref_count == 0 then more else avail) es in
    if e.ref_count == 0
    then (if leb length more
        then record { kept = es; avail = more; freed = e.block ∷ [] }
        else record rest { freed = e.block ∷ rest.freed })
    else record rest { kept = e ∷ rest.kept }

unfoldable pub room_for : ℕ → FileBlockCache → Room
room_for length c =
    if ltb c.avail_memory length
    then make_room length c.avail_memory c.cache
    else record { kept = c.cache; avail = c.avail_memory; freed = [] }

-- The entry itself, once there is room.
unfoldable pub insert_entry : ℕ → ℕ → ℕ → ℕ → Room → FileBlockCache → Option (FileBlockCache × Bool)
insert_entry file_id file_offset block length room c =
    if ltb room.avail length
    then some (record c { cache = room.kept; avail_memory = room.avail }, false)
    else elim (push_back
        (record {
          file_id = file_id;
          file_offset = file_offset;
          block = block;
          length = length;
          ref_count = 1;
        })
        room.kept) [
          | none ↦ none
          | some es ↦ some (record c { cache = es; avail_memory = room.avail - length }, true)
        ]

-- `insert_and_checkout`: the cache, the result, and the blocks deleted on the way.
unfoldable pub insert_and_checkout :
    ℕ → ℕ → ℕ → ℕ → FileBlockCache → Option (FileBlockCache × Bool × List ℕ)
insert_and_checkout file_id file_offset block length c =
    if ltb c.max_memory length || is_some (find (cache_key file_id file_offset) c.cache)
    then some (c, false, [])
    else (let room = room_for length c in
        elim (insert_entry file_id file_offset block length room c) [
          | none ↦ none
          | some (c', done) ↦ some (c', done, room.freed)
        ])

-- `contains`.
unfoldable pub contains : ℕ → ℕ → FileBlockCache → Bool
contains file_id file_offset c = is_some (find (cache_key file_id file_offset) c.cache)
