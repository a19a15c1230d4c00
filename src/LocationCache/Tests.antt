-- ===== src/LocationCache/Tests.antt =====
-- A cache of three ranges of one table.
use hypertable.Base.{ℕ, ◌≡◌, refl, Bool, true, false, [], ◌∷◌, some}
use hypertable.ByteString.Order.{lex}
use hypertable.LocationCache.{
  RangeLocationInfo, Value, LocationCache, range_key, remove, equal_key, equal_end_row, less_key,
  less_end_row, lower_bound, is_outside, find_range, lookup, invalidate, move_to_head, strcmp_lt,
  strcmp_eq,
}
use hypertable.LocationCache.Search.{IsLeast, find_range-IsLeast}

abbrev range : ℕ → ℕ → RangeLocationInfo
range from to = record { start_row = from ∷ []; end_row = to ∷ []; location = 49 ∷ [] }

abbrev entry : ℕ → ℕ → Bool → Value
entry from to pegged = record {
  key = range_key 1 (range from to);
  info = range from to;
  pegged = pegged;
}

abbrev three_ranges : LocationCache
three_ranges = record {
  values = entry 97 100 true ∷ entry 100 104 false ∷ entry 104 110 false ∷ [];
  max_entries = 3;
}

second_found : find_range 1 (102 ∷ []) false three_ranges.values ≡ some (entry 100 104 false)
unfolding find_range lower_bound less_key less_end_row is_outside lex
second_found = refl

invalidated :
    invalidate 1 (102 ∷ []) three_ranges
    ≡ (true, record three_ranges { values = entry 97 100 true ∷ entry 104 110 false ∷ [] })
unfolding invalidate find_range lower_bound less_key less_end_row is_outside lex remove equal_key
    equal_end_row
invalidated = refl

moved : lookup 1 (102 ∷ []) false three_ranges ≡ (
  some (range 100 104),
  record three_ranges {
    values = entry 97 100 true ∷ entry 104 110 false ∷ entry 100 104 false ∷ [];
  },
)
unfolding lookup find_range lower_bound less_key less_end_row is_outside lex move_to_head remove
    equal_key equal_end_row
moved = refl

find_range-IsLeast_example :
    ((entry 100 104 false).key.table_id ≡ 1)
    × (less_end_row (some (104 ∷ [])) (some (102 ∷ [])) ≡ false)
    × (strcmp_lt (102 ∷ []) (100 ∷ []) ≡ false)
    × (false ≡ false → strcmp_eq (102 ∷ []) (100 ∷ []) ≡ false)
    × IsLeast
        (record { table_id = 1; end_row = some (102 ∷ []) })
        three_ranges.values
        (some (entry 100 104 false))
find_range-IsLeast_example =
    find_range-IsLeast 1 (102 ∷ []) false three_ranges.values (entry 100 104 false) second_found

abbrev all_pegged : LocationCache
all_pegged = record { values = entry 97 100 true ∷ []; max_entries = 1 }
