-- ===== src/FileBlockCache/Runs.antt =====
-- The theorems of the block cache at concrete inputs.
use hypertable.Base.{ℕ, ◌≡◌, refl, Bool, true, false, List, [], ◌∷◌, some, arith}
use hypertable.FileBlockCache.{
  BlockCacheEntry, FileBlockCache, find, push_back, make_room, room_for, insert_entry,
  insert_and_checkout,
}
use hypertable.FileBlockCache.Invariant.{IsValid, new_entry, insert_and_checkout-IsValid}

abbrev old : BlockCacheEntry
old = record { file_id = 1; file_offset = 0; block = 100; length = 40; ref_count = 0 }

abbrev used : BlockCacheEntry
used = record { file_id = 1; file_offset = 64; block = 200; length = 50; ref_count = 1 }

abbrev two_blocks : FileBlockCache
two_blocks = record { cache = old ∷ used ∷ []; max_memory = 100; avail_memory = 10 }

two_blocks-IsValid : IsValid two_blocks
unfolding find
two_blocks-IsValid = record { unique = (refl, (refl, tt)); accounted = refl; bounded = omega arith }

-- The unused block makes room.
abbrev three_blocks : FileBlockCache
three_blocks = record {
  cache = used ∷ new_entry 2 0 300 45 ∷ [];
  max_memory = 100;
  avail_memory = 5;
}

inserted : insert_and_checkout 2 0 300 45 two_blocks ≡ some (three_blocks, true, 100 ∷ [])
unfolding insert_and_checkout find room_for make_room insert_entry push_back
inserted = refl

too_large :
    insert_and_checkout 2 0 300 60 two_blocks
    ≡ some (record { cache = used ∷ []; max_memory = 100; avail_memory = 50 }, false, 100 ∷ [])
unfolding insert_and_checkout find room_for make_room insert_entry push_back
too_large = refl

insert_and_checkout-IsValid_example :
    (c' : FileBlockCache) × (done : Bool) × (freed : List ℕ) × (insert_and_checkout 2 0 300 45
        two_blocks
      ≡ some (c', done, freed))
    × IsValid c'
insert_and_checkout-IsValid_example =
    insert_and_checkout-IsValid 2 0 300 45 two_blocks two_blocks-IsValid
