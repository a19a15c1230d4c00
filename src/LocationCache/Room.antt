-- ===== src/LocationCache/Room.antt =====
-- The loop of `insert` that makes room.
use hypertable.Base.{
  ℕ, zero, suc, ◌+◌, ◌<◌, ◌≤◌, ◌≡◌, refl, ap, ◌∙◌, Bool, true, false, List, [], ◌∷◌, ◌++◌,
  append-nil, append_assoc, none, some, arith, length, length-append,
}
use hypertable.LocationCache.{
  Value, LocationCache, RangeLocationInfo, range_key, remove, insert, make_room,
}

unfoldable pub AllPegged : List Value → Type 0
AllPegged [] = Unit
AllPegged (v ∷ vs) = (v.pegged ≡ true) × AllPegged vs

AllPegged-append :
    (vs : List Value) (v : Value) → AllPegged vs → v.pegged ≡ true → AllPegged (vs ++ (v ∷ []))
unfolding AllPegged
AllPegged-append [] v p h = (h, tt)
AllPegged-append (u ∷ vs) v p h = (p.0, AllPegged-append vs v p.1 h)

-- Where all values are pegged and no room is left, the loop that makes room does not end, however long
-- it runs.
make_room-AllPegged :
    (n max_entries : ℕ) (vs : List Value)
    → AllPegged vs
    → max_entries ≤ length vs
    → 0 < max_entries
    → make_room n max_entries vs ≡ none
unfolding make_room AllPegged
make_room-AllPegged zero max_entries vs p h pos = refl
make_room-AllPegged (suc n) max_entries [] p h pos = ground arith
make_room-AllPegged (suc n) max_entries (t ∷ vs) p h pos =
    let rest =
      make_room-AllPegged n max_entries (vs ++ (t ∷ [])) (AllPegged-append vs t p.1 p.0)
        (ground (arith, length-append vs (t ∷ []))) pos in
    ground (arith, rest)

make_room-unpegged :
    (n max_entries : ℕ) (v : Value) (back : List Value)
    → v.pegged ≡ false
    → length (v ∷ back) ≡ max_entries
    → make_room (suc (suc n)) max_entries (v ∷ back) ≡ some back
unfolding make_room
make_room-unpegged n max_entries v [] p h = ground arith
make_room-unpegged n max_entries v (u ∷ back) p h = ground arith

rotate :
    (m max_entries : ℕ) (t v : Value) (front back : List Value)
    → t.pegged ≡ true
    → length (t ∷ (front ++ (v ∷ back))) ≡ max_entries
    → make_room m max_entries (front ++ (v ∷ (back ++ (t ∷ []))))
      ≡ some ((back ++ (t ∷ [])) ++ front)
    → make_room (suc m) max_entries (t ∷ (front ++ (v ∷ back))) ≡ some (back ++ (t ∷ front))
unfolding make_room
rotate m max_entries t v front back p full h =
    let next : make_room m max_entries ((front ++ (v ∷ back)) ++ (t ∷ []))
        ≡ some (back ++ (t ∷ front)) =
      rw (append_assoc front (v ∷ back) (t ∷ []))
        (h ∙ ap some (append_assoc back (t ∷ []) front)) in
    ground (arith, next)

-- Where the cache is full, the least recently used value that is not pegged is dropped, and the pegged
-- ones before it become the most recently used, in their order. Two tests more than the pegged values
-- before it are enough.
make_room-drops :
    (n max_entries : ℕ) (front : List Value) (v : Value) (back : List Value)
    → AllPegged front
    → v.pegged ≡ false
    → length (front ++ (v ∷ back)) ≡ max_entries
    → length front + 2 ≤ n
    → make_room n max_entries (front ++ (v ∷ back)) ≡ some (back ++ front)
unfolding AllPegged
make_room-drops (suc (suc n)) max_entries [] v back p h full enough =
    rw (append-nil back) (make_room-unpegged n max_entries v back h full)
make_room-drops (suc zero) max_entries [] v back p h full enough = ground arith
make_room-drops zero max_entries [] v back p h full enough = ground arith
make_room-drops zero max_entries (t ∷ front) v back p h full enough = ground arith
make_room-drops (suc n) max_entries (t ∷ front) v back p h full enough =
    rotate n max_entries t v front back p.0 full (
      make_room-drops n max_entries front v (back ++ (t ∷ [])) p.1 h
        (ground (
          arith,
          length-append front (v ∷ back),
          length-append front (v ∷ (back ++ (t ∷ []))),
          length-append back (t ∷ []),
        ))
        (omega arith))

-- Where the cache is full without the range, an insertion drops the least recently used value that is
-- not pegged, the pegged ones before it become more recent than the others, and the new value is the
-- most recent. Two tests more than the pegged values before it are enough.
pub insert-drops :
    (n table_id : ℕ) (info : RangeLocationInfo) (pegged : Bool) (c : LocationCache)
    (front : List Value) (v : Value) (back : List Value)
    → remove (range_key table_id info) c.values ≡ front ++ (v ∷ back)
    → AllPegged front
    → v.pegged ≡ false
    → length (front ++ (v ∷ back)) ≡ c.max_entries
    → length front + 2 ≤ n
    → insert n table_id info pegged c
      ≡ some (record c {
        values =
            (back ++ front)
            ++ (record { key = range_key table_id info; info = info; pegged = pegged } ∷ []);
      })
unfolding insert
insert-drops n table_id info pegged c front v back e p h full enough =
    let room : make_room n c.max_entries (remove (range_key table_id info) c.values)
        ≡ some (back ++ front) =
      ap (make_room n c.max_entries) e
      ∙ make_room-drops n c.max_entries front v back p h full enough in
    rw (room, insert) refl

-- Where the cache is full without the range and every value is pegged, an insertion never ends, however
-- many tests its loop may make.
pub insert-AllPegged :
    (n table_id : ℕ) (info : RangeLocationInfo) (pegged : Bool) (c : LocationCache)
    → AllPegged (remove (range_key table_id info) c.values)
    → c.max_entries ≤ length (remove (range_key table_id info) c.values)
    → 0 < c.max_entries
    → insert n table_id info pegged c ≡ none
unfolding insert
insert-AllPegged n table_id info pegged c p h pos =
    rw
      (
        make_room-AllPegged n c.max_entries (remove (range_key table_id info) c.values) p h pos,
        insert,
      )
      refl
