-- ===== src/CellCache.antt =====
-- src/cc/Hypertable/RangeServer/CellCache.h and CellCache.cc: the sorted map of cells in memory.
-- An entry is the allocation that its key points to: its address, its key taken apart, and the bytes of
-- its value. `second` is what the map holds for the key, the key's length and the bit above it.
-- Timestamps are not negative. A key that does not load is not in the map.
-- The count of deletes, of 32 bits, is taken not to wrap around.
pub mod Purge
pub mod Owner
pub mod Ordered
pub mod Counts
mod Tests
use hypertable.Base.{
  ℕ, ◌+◌, ◌*◌, ◌/◌, ◌%◌, ◌^◌, ◌≡◌, Bool, true, false, ◌&&◌, not, List, [], ◌∷◌, ◌++◌, Option, none,
  some, ltb, leb, ◌==◌, if◌then◌else◌, length, get_elem?, map,
}
use Prim.Native.Nat.{Ordering}
use hypertable.ByteString.Order.{lex, is_eq}
use hypertable.Serialization.Vint.{encoded_length_vi32}
use hypertable.Key.{key_length, flag_delete_cell, flag_insert}
use hypertable.Deletes.{CellKey, key_compare, Deletes, no_deletes, track, check}

pub record Entry : Type 0 where
  pub ptr : ℕ
  pub key : CellKey
  pub value : List ℕ
  pub second : ℕ

pub record CellCache : Type 0 where
  pub cell_map : List Entry
  pub memory_used : ℕ
  pub deletes : ℕ
  pub collisions : ℕ

abbrev pub new_cell_cache : CellCache
new_cell_cache = record { cell_map = []; memory_used = 0; deletes = 0; collisions = 0 }

-- `ByteString::length` of a key: the length in front, and the key.
unfoldable pub key_len : CellKey → ℕ
key_len k = let n = key_length k.row (some k.qualifier) in encoded_length_vi32 n + n

-- `second & ALLOC_BIT_MASK`, and `second |= ALLOC_BIT_MASK`, of 32 bits.
unfoldable pub is_kept : ℕ → Bool
is_kept second = leb (2 ^ 31) second

unfoldable pub keep : ℕ → ℕ
keep second = if leb (2 ^ 31) second then second else second + 2 ^ 31

-- `std::map::insert`; `none` where the key is there already.
unfoldable pub map_insert : Entry → List Entry → Option (List Entry)
map_insert e [] = some (e ∷ [])
map_insert e (x ∷ xs) =
    let rest = map_insert e xs in
    elim (key_compare x.key e.key) [
      | Ordering.lt ↦ (elim rest [ some m ↦ some (x ∷ m) | none ↦ none ])
      | Ordering.eq ↦ none
      | Ordering.gt ↦ some (e ∷ x ∷ xs)
    ]

abbrev pub new_entry : ℕ → CellKey → List ℕ → Entry
new_entry ptr key value = record { ptr = ptr; key = key; value = value; second = key_len key }

-- The new allocation is at `ptr`. What is deleted again is returned too.
unfoldable pub add : ℕ → CellKey → List ℕ → CellCache → CellCache × List ℕ
add ptr key value c = elim (map_insert (new_entry ptr key value) c.cell_map) [
  | none ↦ (record c { collisions = c.collisions + 1 }, ptr ∷ [])
  | some m ↦ (
    record c {
      cell_map = m;
      memory_used = c.memory_used + (key_len key + length value);
      deletes = if leb key.flag flag_delete_cell then c.deletes + 1 else c.deletes;
    },
    [],
  )
]

-- With the size of a pair of the map.
unfoldable pub memory_used : ℕ → CellCache → ℕ
memory_used pair_size c = c.memory_used + length c.cell_map * pair_size

-- `get_split_rows`: what is pushed onto the vector.
unfoldable pub get_split_rows : CellCache → List (List ℕ)
get_split_rows c =
    if ltb 2 (length c.cell_map)
    then (elim (get_elem? c.cell_map (length c.cell_map / 2)) [
      | some e ↦ e.key.row ∷ []
      | none ↦ []
    ])
    else []

-- The loop of `get_rows`, with the last row.
unfoldable pub rows_from : List ℕ → List Entry → List (List ℕ)
rows_from last [] = []
rows_from last (e ∷ es) =
    let rest = rows_from e.key.row es in
    let skipped = rows_from last es in
    if is_eq (lex e.key.row last) then skipped else e.key.row ∷ rest

unfoldable pub get_rows : CellCache → List (List ℕ)
get_rows c = rows_from [] c.cell_map

-- The child takes the entry, and the old map does not delete it any more.
unfoldable pub child_insert : Bool → Entry → List Entry → List Entry
child_insert taken e child =
    if taken then (elim (map_insert e child) [ some m ↦ m | none ↦ child ]) else child

unfoldable pub mark : Bool → Entry → Entry
mark taken e = if taken then record e { second = keep e.second } else e

-- The loop of `slice_copy`: the old map and the child's.
unfoldable pub slice : ℕ → List Entry → List Entry → List Entry × List Entry
slice timestamp [] child = ([], child)
slice timestamp (e ∷ es) child =
    let taken = ltb timestamp e.key.timestamp in
    let (old, c) = slice timestamp es (child_insert taken e child) in (mark taken e ∷ old, c)

-- The old cache and the child.
unfoldable pub slice_copy : ℕ → CellCache → CellCache × CellCache
slice_copy timestamp c =
    let (old, child) = slice timestamp c.cell_map [] in
    (record c { cell_map = old }, record new_cell_cache { cell_map = child })

-- Whether the entry is taken, and the deletes in mind.
unfoldable pub purge_step : CellKey → Deletes → Bool × Deletes
purge_step k s = if k.flag == flag_insert then check k s else (false, track k s)

-- The loop of `purge_deletes`.
unfoldable pub purge : Deletes → List Entry → List Entry → List Entry × List Entry
purge s [] child = ([], child)
purge s (e ∷ es) child =
    let (taken, s') = purge_step e.key s in
    let (old, c) = purge s' es (child_insert taken e child) in (mark taken e ∷ old, c)

unfoldable pub purge_deletes : CellCache → CellCache × CellCache
purge_deletes c =
    let (old, child) = purge no_deletes c.cell_map [] in
    (record c { cell_map = old }, record new_cell_cache { cell_map = child })

-- What the destructor deletes.
unfoldable pub freed : List Entry → List ℕ
freed [] = []
freed (e ∷ es) = if is_kept e.second then freed es else e.ptr ∷ freed es

-- What it takes off the tracked memory.
unfoldable pub mem_freed : List Entry → ℕ
mem_freed [] = 0
mem_freed (e ∷ es) =
    (if is_kept e.second then 0 else e.second % 2 ^ 31 + length e.value) + mem_freed es
