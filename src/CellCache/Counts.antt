-- ===== src/CellCache/Counts.antt =====
-- The counters of the cache and its map, under `add`.
use hypertable.Base.{
  ℕ, ◌+◌, ◌<◌, ◌≡◌, ◌⊎◌, inl, inr, refl, List, [], ◌∷◌, Option-cases, arith, leb, if◌then◌else◌,
  length,
}
use hypertable.Key.{flag_delete_cell, key_length}
use hypertable.Deletes.{CellKey}
use hypertable.Deletes.Sorted.{IsCell}
use hypertable.CellCache.{
  Entry, CellCache, key_len, new_entry, map_insert, add, slice_copy, purge_deletes,
}
use hypertable.CellCache.Purge.{IsMap}
use hypertable.CellCache.Ordered.{sum_of, sum-map_insert, IsMap-map_insert}

abbrev pub entry_size : Entry → ℕ
entry_size e = key_len e.key + length e.value

abbrev pub is_delete : Entry → ℕ
is_delete e = if leb e.key.flag flag_delete_cell then 1 else 0

-- The map is in order; the memory is the sum of the lengths of the keys and values; the deletes are
-- counted.
pub record IsValid (c : CellCache) : Type 0 where
  pub sorted : IsMap c.cell_map
  pub memory : c.memory_used ≡ sum_of entry_size c.cell_map
  pub delete_count : c.deletes ≡ sum_of is_delete c.cell_map

-- `add` keeps the map in order and the counters right, on a collision too. The key holds no NUL in its
-- row and qualifier.
pub add-IsValid :
    (ptr : ℕ) (key : CellKey) (value : List ℕ) (c : CellCache)
    → IsCell key
    → IsValid c
    → IsValid (add ptr key value c).0
unfolding add
add-IsValid ptr key value c k v =
    let e = new_entry ptr key value in
    elim (Option-cases (map_insert e c.cell_map)) [
      | inl n ↦
          rw (n, add)
            (record { sorted = v.sorted; memory = v.memory; delete_count = v.delete_count })
      | inr (m, q) ↦
          rw (q, add)
            (record {
              sorted = IsMap-map_insert e c.cell_map m q k v.sorted;
              memory = ground (arith, v.memory, sum-map_insert entry_size e c.cell_map m q);
              delete_count =
                  ground (arith, v.delete_count, sum-map_insert is_delete e c.cell_map m q);
            })
    ]

uncounted : (es : List Entry) → (es ≡ []) ⊎ (0 < sum_of entry_size es)
unfolding sum_of key_len key_length
uncounted [] = inl refl
uncounted (e ∷ es) = inr (omega arith)

-- The memory of the child of `slice_copy`, and of `purge_deletes`, is less than the sum of the lengths of
-- the keys and values in its map, unless the map is empty.
pub copies-uncounted :
    (timestamp : ℕ) (c : CellCache)
    → (((slice_copy timestamp c).1.cell_map ≡ [])
        ⊎ ((slice_copy timestamp c).1.memory_used
            < sum_of entry_size (slice_copy timestamp c).1.cell_map))
      × (((purge_deletes c).1.cell_map ≡ [])
          ⊎ ((purge_deletes c).1.memory_used < sum_of entry_size (purge_deletes c).1.cell_map))
unfolding slice_copy purge_deletes
copies-uncounted timestamp c = (uncounted _, uncounted _)
