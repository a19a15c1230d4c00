-- ===== src/LocationCache/Search.antt =====
-- The order of the keys, and the search for the range of a row.
use hypertable.Base.{
  ℕ, ◌≡◌, inl, inr, refl, ap, Bool, true, false, Bool-cases, List, [], ◌∷◌, ◌++◌, Option, none,
  some, Option-cases, arith, if◌then◌else◌,
}
use hypertable.ByteString.Order.{lex-flip, lex_refl, lex-eq, lex_trans}
use hypertable.LocationCache.{
  LocationCacheKey, Value, strcmp_lt, strcmp_eq, less_end_row, less_key, lower_bound, is_outside,
  find_range,
}

strcmp_asym : (x y : List ℕ) → strcmp_lt x y ≡ true → strcmp_lt y x ≡ false
strcmp_asym x y h = ground (arith, lex-flip x y)

strcmp_irrefl : (x : List ℕ) → strcmp_lt x x ≡ false
strcmp_irrefl x = ground (arith, lex_refl x)

-- Not before, and so on.
strcmp_chain :
    (x y z : List ℕ) → strcmp_lt x y ≡ false → strcmp_lt y z ≡ false → strcmp_lt x z ≡ false
strcmp_chain x y z h k = ground (arith, lex-flip y z, lex-eq y z, lex_trans x z y)

end_row_asym : (x y : Option (List ℕ)) → less_end_row x y ≡ true → less_end_row y x ≡ false
unfolding less_end_row
end_row_asym none none h = refl
end_row_asym none (some y) h = cc
end_row_asym (some x) none h = refl
end_row_asym (some x) (some y) h = strcmp_asym x y h

end_row_irrefl : (x : Option (List ℕ)) → less_end_row x x ≡ false
unfolding less_end_row
end_row_irrefl none = refl
end_row_irrefl (some x) = strcmp_irrefl x

end_row_chain :
    (x y z : Option (List ℕ))
    → less_end_row x y ≡ false
    → less_end_row y z ≡ false
    → less_end_row x z ≡ false
unfolding less_end_row
end_row_chain none y none h k = refl
end_row_chain none y (some z) h k = refl
end_row_chain (some x) none z h k = cc
end_row_chain (some x) (some y) none h k = cc
end_row_chain (some x) (some y) (some z) h k = strcmp_chain x y z h k

key_asym : (x y : LocationCacheKey) → less_key x y ≡ true → less_key y x ≡ false
unfolding less_key
key_asym x y h = ground (arith, end_row_asym x.end_row y.end_row)

key_irrefl : (x : LocationCacheKey) → less_key x x ≡ false
unfolding less_key
key_irrefl x = ground (arith, end_row_irrefl x.end_row)

key_chain :
    (x y z : LocationCacheKey) → less_key x y ≡ false → less_key y z ≡ false → less_key x z ≡ false
unfolding less_key
key_chain x y z h k = ground (arith, end_row_chain x.end_row y.end_row z.end_row)

-- Every value whose key is not before `k` is not before `r` either.
AllFrom : LocationCacheKey → Value → List Value → Type 0
AllFrom k r [] = Unit
AllFrom k r (u ∷ us) = (less_key u.key k ≡ false → less_key u.key r.key ≡ false) × AllFrom k r us

AllFrom-less :
    (k : LocationCacheKey) (r v : Value) (vs : List Value)
    → less_key r.key v.key ≡ false
    → AllFrom k r vs
    → AllFrom k v vs
unfolding AllFrom
AllFrom-less k r v [] h a = tt
AllFrom-less k r v (u ∷ us) h a =
    (λ e. key_chain u.key r.key v.key (a.0 e) h, AllFrom-less k r v us h a.1)

AllBefore : LocationCacheKey → List Value → Type 0
AllBefore k [] = Unit
AllBefore k (u ∷ us) = (less_key u.key k ≡ true) × AllBefore k us

AllBefore-AllFrom :
    (k : LocationCacheKey) (r : Value) (vs : List Value) → AllBefore k vs → AllFrom k r vs
unfolding AllFrom AllBefore
AllBefore-AllFrom k r [] a = tt
AllBefore-AllFrom k r (u ∷ us) a = (λ e. ground (arith, a.0), AllBefore-AllFrom k r us a.1)

-- What `lower_bound` finds: the least of the values from `k` on, or that there is none.
pub IsLeast : LocationCacheKey → List Value → Option Value → Type 0
IsLeast k vs none = AllBefore k vs
IsLeast k vs (some r) =
    (less_key r.key k ≡ false)
    × AllFrom k r vs
    × ((front : List Value) × (back : List Value) × (vs ≡ front ++ (r ∷ back)))

AllFrom-cons :
    (k : LocationCacheKey) (r v : Value) (vs : List Value)
    → (less_key v.key k ≡ false → less_key v.key r.key ≡ false)
    → AllFrom k r vs
    → AllFrom k r (v ∷ vs)
unfolding AllFrom
AllFrom-cons k r v vs h a = (h, a)

IsLeast-cons :
    (k : LocationCacheKey) (v : Value) (vs : List Value) (o : Option Value)
    → IsLeast k vs o
    → IsLeast k (v ∷ vs) (
        if less_key v.key k
        then o
        else elim o [ none ↦ some v | some u ↦ some (if less_key u.key v.key then u else v) ])
unfolding IsLeast AllBefore
IsLeast-cons k v vs none a = elim (Bool-cases (less_key v.key k)) [
  | inl e ↦ rw e (e, a)
  | inr e ↦ rw e (
    e,
    AllFrom-cons k v v vs (λ x. key_irrefl v.key) (AllBefore-AllFrom k v vs a),
    ([], vs, refl),
  )
]
IsLeast-cons k v vs (some r) (from, a, (front, back, same)) = elim (Bool-cases (less_key v.key k)) [
  | inl e ↦
      rw e
        (from, AllFrom-cons k r v vs (λ x. ground arith) a, (v ∷ front, back, ap (λ x. v ∷ x) same))
  | inr e ↦ elim (Bool-cases (less_key r.key v.key)) [
    | inl l ↦
        rw (e, l)
          (
            from,
            AllFrom-cons k r v vs (λ x. key_asym r.key v.key l) a,
            (v ∷ front, back, ap (λ x. v ∷ x) same),
          )
    | inr l ↦
        rw (e, l)
          (
            e,
            AllFrom-cons k v v vs (λ x. key_irrefl v.key) (AllFrom-less k r v vs l a),
            ([], vs, refl),
          )
  ]
]

pub lower_bound-IsLeast : (k : LocationCacheKey) (vs : List Value) → IsLeast k vs (lower_bound k vs)
unfolding IsLeast lower_bound
lower_bound-IsLeast k [] = unfold AllBefore in tt
lower_bound-IsLeast k (v ∷ vs) = IsLeast-cons k v vs (lower_bound k vs) (lower_bound-IsLeast k vs)

-- The range that `lookup` and `invalidate` find is one of the table: its end row is not before the row,
-- and its start row is before it, or may be the row itself if that is asked for; and of all values in
-- the cache that do not end before the row, none comes before it.
pub find_range-IsLeast :
    (table_id : ℕ) (rowkey : List ℕ) (inclusive : Bool) (vs : List Value) (v : Value)
    → find_range table_id rowkey inclusive vs ≡ some v
    → (v.key.table_id ≡ table_id)
      × (less_end_row v.key.end_row (some rowkey) ≡ false)
      × (strcmp_lt rowkey v.info.start_row ≡ false)
      × (inclusive ≡ false → strcmp_eq rowkey v.info.start_row ≡ false)
      × IsLeast (record { table_id = table_id; end_row = some rowkey }) vs (some v)
unfolding find_range is_outside
find_range-IsLeast table_id rowkey inclusive vs v h =
    let k : LocationCacheKey = record { table_id = table_id; end_row = some rowkey } in
    let least = lower_bound-IsLeast k vs in
    elim (Option-cases (lower_bound k vs)) [
      | inl e ↦ ground arith
      | inr (u, e) ↦
          let there : lower_bound k vs ≡ some v = ground arith in
          let found : IsLeast k vs (some v) = rw⁻¹ there least in
          let from : less_key v.key k ≡ false = unfold IsLeast in found.0 in
          (
            ground (arith, there),
            unfold less_key in ground (arith, there, from),
            ground (arith, there),
            λ x. ground (arith, there),
            found,
          )
    ]
