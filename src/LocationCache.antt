-- ===== src/LocationCache.antt =====
-- src/cc/Hypertable/Lib/LocationCache.h and LocationCache.cc: where the ranges of a table are, for
-- those that were used last.
-- The linked values are a list from `m_tail`, the least recently used, to `m_head`; the map is a search
-- among their keys. Strings are lists of characters without NUL. `none` is a loop that goes on, or a
-- read through the null pointer. Every method holds the mutex.
pub mod Room
pub mod Search
mod Tests
use hypertable.Base.{
  ℕ, zero, suc, ◌+◌, Bool, true, false, ◌&&◌, ◌||◌, not, List, [], ◌∷◌, ◌++◌, Option, none, some,
  ltb, length, ◌==◌, if◌then◌else◌,
}
use Prim.Native.Nat.{Ordering}
use hypertable.ByteString.Order.{lex}

pub record LocationCacheKey : Type 0 where
  pub table_id : ℕ
  pub end_row : Option (List ℕ)

-- `RangeLocationInfo`.
pub record RangeLocationInfo : Type 0 where
  pub start_row : List ℕ
  pub end_row : List ℕ
  pub location : List ℕ

-- A value with the key that it has in the map.
pub record Value : Type 0 where
  pub key : LocationCacheKey
  pub info : RangeLocationInfo
  pub pegged : Bool

pub record LocationCache : Type 0 where
  pub values : List Value
  pub max_entries : ℕ

-- `strcmp`.
abbrev pub strcmp_lt : List ℕ → List ℕ → Bool
strcmp_lt x y = elim (lex x y) [ Ordering.lt ↦ true | Ordering.eq ↦ false | Ordering.gt ↦ false ]

abbrev pub strcmp_eq : List ℕ → List ℕ → Bool
strcmp_eq x y = elim (lex x y) [ Ordering.lt ↦ false | Ordering.eq ↦ true | Ordering.gt ↦ false ]

-- `operator<` and `operator==` of the end rows, of which the null pointer is the last.
unfoldable pub less_end_row : Option (List ℕ) → Option (List ℕ) → Bool
less_end_row none none = false
less_end_row (some x) none = true
less_end_row none (some y) = false
less_end_row (some x) (some y) = strcmp_lt x y

unfoldable pub equal_end_row : Option (List ℕ) → Option (List ℕ) → Bool
equal_end_row none none = true
equal_end_row (some x) none = false
equal_end_row none (some y) = false
equal_end_row (some x) (some y) = strcmp_eq x y

unfoldable pub less_key : LocationCacheKey → LocationCacheKey → Bool
less_key x y =
    if x.table_id == y.table_id then less_end_row x.end_row y.end_row else ltb x.table_id y.table_id

unfoldable pub equal_key : LocationCacheKey → LocationCacheKey → Bool
equal_key x y = if x.table_id == y.table_id then equal_end_row x.end_row y.end_row else false

-- `remove`, by the key that the value has in the map.
unfoldable pub remove : LocationCacheKey → List Value → List Value
remove k [] = []
remove k (v ∷ vs) = let rest = remove k vs in if equal_key v.key k then vs else v ∷ rest

unfoldable pub move_to_head : Value → List Value → List Value
move_to_head v vs = remove v.key vs ++ (v ∷ [])

-- `m_location_map.lower_bound`: the value of the first key that is not before `k`.
unfoldable pub lower_bound : LocationCacheKey → List Value → Option Value
lower_bound k [] = none
lower_bound k (v ∷ vs) =
    let rest = lower_bound k vs in
    if less_key v.key k
    then rest
    else elim rest [ none ↦ some v | some u ↦ some (if less_key u.key v.key then u else v) ]

-- The loop that makes room for one more, with the number of tests that it may make.
unfoldable pub make_room : ℕ → ℕ → List Value → Option (List Value)
make_room zero max_entries vs = none
make_room (suc n) max_entries [] = if ltb 0 max_entries then some [] else none
make_room (suc n) max_entries (t ∷ vs) =
    let rest = make_room n max_entries (if t.pegged then vs ++ (t ∷ []) else vs) in
    if ltb (length (t ∷ vs)) max_entries then some (t ∷ vs) else rest

-- The key of a range.
abbrev pub range_key : ℕ → RangeLocationInfo → LocationCacheKey
range_key table_id info = record {
  table_id = table_id;
  end_row = if length info.end_row == 0 then none else some info.end_row;
}

-- `insert`, with the number of tests that the loop may make.
unfoldable pub insert : ℕ → ℕ → RangeLocationInfo → Bool → LocationCache → Option LocationCache
insert n table_id info pegged c =
    elim (make_room n c.max_entries (remove (range_key table_id info) c.values)) [
      | none ↦ none
      | some vs ↦ some (record c {
        values =
            vs ++ (record { key = range_key table_id info; info = info; pegged = pegged } ∷ []);
      })
    ]

-- `strcmp(rowkey, start_row) < 0`, or `<= 0`.
unfoldable pub is_outside : Bool → List ℕ → List ℕ → Bool
is_outside inclusive rowkey start_row =
    strcmp_lt rowkey start_row || (not inclusive && strcmp_eq rowkey start_row)

-- What `lookup` and `invalidate` find.
unfoldable pub find_range : ℕ → List ℕ → Bool → List Value → Option Value
find_range table_id rowkey inclusive vs =
    elim (lower_bound (record { table_id = table_id; end_row = some rowkey }) vs) [
      | none ↦ none
      | some v ↦
          if not (v.key.table_id == table_id)
          then none
          else if is_outside inclusive rowkey v.info.start_row
          then none
          else some v
    ]

-- `lookup`.
unfoldable pub lookup : ℕ → List ℕ → Bool → LocationCache → Option RangeLocationInfo × LocationCache
lookup table_id rowkey inclusive c = elim (find_range table_id rowkey inclusive c.values) [
  | none ↦ (none, c)
  | some v ↦ (some v.info, record c { values = move_to_head v c.values })
]

-- `invalidate`.
unfoldable pub invalidate : ℕ → List ℕ → LocationCache → Bool × LocationCache
invalidate table_id rowkey c = elim (find_range table_id rowkey true c.values) [
  | none ↦ (false, c)
  | some v ↦ (true, record c { values = remove v.key c.values })
]
