-- ===== src/CellCache/Owner.antt =====
-- Which map deletes which allocation.
use hypertable.Base.{
  ℕ, ◌+◌, ◌%◌, ◌^◌, ◌<◌, ◌≡◌, inl, inr, refl, Bool, true, false, List, [], ◌∷◌, ◌++◌, Option-cases,
  arith, ltb, ◌==◌, if◌then◌else◌, length,
}
use hypertable.Deletes.{CellKey, Deletes, no_deletes}
use hypertable.Deletes.Sorted.{Ascending}
use hypertable.CellCache.{
  Entry, CellCache, is_kept, keep, key_len, new_entry, map_insert, add, child_insert, mark, slice,
  slice_copy, purge_step, purge, purge_deletes, freed, mem_freed,
}
use hypertable.CellCache.Ordered.{sum_of, sum-map_insert}
use hypertable.CellCache.Purge.{keys, IsMap, Before, Before-child_insert, only, child_insert-only}

-- How often a number stands in a list.
unfoldable pub count : ℕ → List ℕ → ℕ
count p [] = 0
count p (x ∷ xs) = (if x == p then 1 else 0) + count p xs

keep-kept : (second : ℕ) → is_kept (keep second) ≡ true
unfolding is_kept keep
keep-kept second = ground arith

-- A sum over the entries that the map deletes.
module _ (f : Entry → ℕ) where
  own : Entry → ℕ
  own e = if is_kept e.second then 0 else f e

  abbrev total : List Entry → ℕ
  total es = sum_of own es

  total-append : (xs ys : List Entry) → total (xs ++ ys) ≡ total xs + total ys
  unfolding sum_of
  total-append [] ys = omega arith
  total-append (x ∷ xs) ys = omega (arith, total-append xs ys)

  own-mark : (taken : Bool) (e : Entry) → own (mark taken e) + total (only taken e) ≡ own e
  unfolding own mark sum_of
  own-mark true e = ground (arith, keep-kept e.second)
  own-mark false e = omega arith

  total-child_insert :
      (taken : Bool) (e : Entry) (child : List Entry) (ks : List CellKey)
      → Before child (e.key ∷ ks)
      → total (child_insert taken e child) ≡ total child + total (only taken e)
  total-child_insert taken e child ks b =
      rw (child_insert-only taken e child ks b) (total-append child (only taken e))

  total-slice :
      (timestamp : ℕ) (es child : List Entry)
      → Ascending (keys es)
      → Before child (keys es)
      → total (slice timestamp es child).0 + total (slice timestamp es child).1
        ≡ total es + total child
  unfolding slice sum_of Ascending
  total-slice timestamp [] child a b = omega arith
  total-slice timestamp (e ∷ es) child a b =
      let taken = ltb timestamp e.key.timestamp in
      omega (
        arith,
        own-mark taken e,
        total-child_insert taken e child (keys es) b,
        total-slice timestamp es (child_insert taken e child) a.1
            (Before-child_insert taken e child (keys es) a.0 b),
      )

  total-purge :
      (s : Deletes) (es child : List Entry)
      → Ascending (keys es)
      → Before child (keys es)
      → total (purge s es child).0 + total (purge s es child).1 ≡ total es + total child
  unfolding purge sum_of Ascending
  total-purge s [] child a b = omega arith
  total-purge s (e ∷ es) child a b =
      let taken = (purge_step e.key s).0 in
      omega (
        arith,
        own-mark taken e,
        total-child_insert taken e child (keys es) b,
        total-purge (purge_step e.key s).1 es (child_insert taken e child) a.1
            (Before-child_insert taken e child (keys es) a.0 b),
      )

-- The allocation at an address.
abbrev at : ℕ → Entry → ℕ
at p e = if e.ptr == p then 1 else 0

count-freed : (p : ℕ) (es : List Entry) → count p (freed es) ≡ total (at p) es
unfolding freed count sum_of own
count-freed p [] = refl
count-freed p (e ∷ es) = ground (arith, count-freed p es)

mem_freed-total :
    (es : List Entry) → mem_freed es ≡ total (λ e. e.second % 2 ^ 31 + length e.value) es
unfolding mem_freed sum_of own
mem_freed-total [] = refl
mem_freed-total (e ∷ es) = omega (arith, mem_freed-total es)

-- Each allocation that a map would delete is deleted by exactly one of two others, and the memory that
-- they report sums up.
pub record Shares (es old child : List Entry) : Type 0 where
  pub allocations : (p : ℕ) → count p (freed old) + count p (freed child) ≡ count p (freed es)
  pub memory : mem_freed old + mem_freed child ≡ mem_freed es

Shares-total :
    (es old child : List Entry)
    → ((f : Entry → ℕ) → total f old + total f child ≡ total f es + total f [])
    → Shares es old child
unfolding sum_of
Shares-total es old child h = record {
  allocations =
      λ p. omega (arith, h (at p), count-freed p es, count-freed p old, count-freed p child);
  memory = omega (
    arith,
    h (λ e. e.second % 2 ^ 31 + length e.value),
    mem_freed-total es,
    mem_freed-total old,
    mem_freed-total child,
  );
}

-- Each allocation that the cache would delete is deleted by exactly one of the two caches after
-- `slice_copy`, the old one or its child; and so it is after `purge_deletes`. The memory that the two
-- report sums up to what the cache would report. The map is in order.
pub copies-Shares :
    (timestamp : ℕ) (c : CellCache)
    → IsMap c.cell_map
    → Shares c.cell_map (slice_copy timestamp c).0.cell_map (slice_copy timestamp c).1.cell_map
      × Shares c.cell_map (purge_deletes c).0.cell_map (purge_deletes c).1.cell_map
unfolding slice_copy purge_deletes
copies-Shares timestamp c m = (
  Shares-total c.cell_map _ _ (λ f. total-slice f timestamp c.cell_map [] m.ascending tt),
  Shares-total c.cell_map _ _ (λ f. total-purge f no_deletes c.cell_map [] m.ascending tt),
)

key_len-own : (f : Entry → ℕ) (e : Entry) → e.second < 2 ^ 31 → own f e ≡ f e
unfolding own is_kept
key_len-own f e h = ground arith

-- `add` keeps the new allocation in the map or deletes it at once, and lets go of no other. The key is
-- shorter than 2 ^ 31 bytes.
pub add-freed :
    (ptr p : ℕ) (key : CellKey) (value : List ℕ) (c : CellCache)
    → key_len key < 2 ^ 31
    → count p (freed (add ptr key value c).0.cell_map) + count p (add ptr key value c).1
      ≡ count p (ptr ∷ freed c.cell_map)
unfolding add count
add-freed ptr p key value c h =
    let e = new_entry ptr key value in
    elim (Option-cases (map_insert e c.cell_map)) [
      | inl n ↦ rw (n, add) (omega arith)
      | inr (m, q) ↦
          rw (q, add)
            (omega (
              arith,
              count-freed p m,
              count-freed p c.cell_map,
              sum-map_insert (own (at p)) e c.cell_map m q,
              key_len-own (at p) e h,
            ))
    ]
