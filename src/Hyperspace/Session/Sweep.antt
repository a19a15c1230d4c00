-- ===== src/Hyperspace/Session/Sweep.antt =====
-- src/cc/Hyperspace/Master.cc: what remove_expired_sessions takes out, and what it leaves.
use hypertable.Base.{
  ℕ, zero, suc, ◌+◌, ◌<◌, ◌≤◌, ◌≡◌, inl, inr, sym, Bool, true, false, ◌&&◌, ◌||◌, Bool-cases, List,
  [], ◌∷◌, Option, none, some, arith, ltb, leb, ◌==◌, if◌then◌else◌, All,
}
use hypertable.Hyperspace.Lock.{member, remove}
use hypertable.Hyperspace.Session.{
  SessionData, HandleData, Master, is_expired, pop_heap, next_expired_session, destroy_handles,
  remove_expired, remove_expired_sessions, heap_size,
}
use hypertable.Hyperspace.Session.Handles.{
  has_session, owned, All-map, destroy_handles-Left, erase_handles, All-erase_handles,
}
use hypertable.Hyperspace.Session.Heap.{Popped, Pops, pop_heap-Pops}
use mathlib.Core.Path.{subst}
use hypertable.Hyperspace.Session.Valid.{IsValid, All-remove}

-- A round of the loop: the session taken out, and the master behind it.
pub record Round (now : ℕ) (m : Master) (s : SessionData) (r : Master) : Type 1 where
  pub popped : Popped m.session_heap s r.session_heap
  pub late : s.expire_time < now
  pub map : r.session_map ≡ remove s.id m.session_map
  pub handles : r.handle_map ≡ erase_handles s.handles m.handle_map
  pub next_id : r.next_session_id ≡ m.next_session_id
  pub next_number : r.next_handle_number ≡ m.next_handle_number

-- What a round finds: a session whose time has run out, or none.
pub record Finished (now : ℕ) (m : Master) : Type 1 where
  pub alive : All (λ s. now ≤ s.expire_time) m.session_heap

abbrev pub Found : ℕ → Master → Option (SessionData × Master) → Type 1
Found now m none = Finished now m
Found now m (some (s, r)) = Round now m s (destroy_handles s.handles r)

Pops-Found :
    (now : ℕ) (m : Master) (o : Option (SessionData × List SessionData))
    → Pops m.session_heap o
    → Found now m (elim o [
      | none ↦ none
      | some (s, rest) ↦
          if is_expired now s
          then some (s, record m { session_heap = rest; session_map = remove s.id m.session_map })
          else none
    ])
unfolding is_expired
Pops-Found now m none p = record { alive = rw p.empty tt }
Pops-Found now m (some (s, rest)) p = elim (Bool-cases (ltb s.expire_time now)) [
  | inr e ↦ rw e (record {
    alive =
        p.whole (λ t. now ≤ t.expire_time) (ground arith)
          (All-map (λ t. s.expire_time ≤ t.expire_time) (λ t. now ≤ t.expire_time)
            (λ t l. ground arith) rest p.least);
  })
  | inl e ↦
      let r : Master = record m { session_heap = rest; session_map = remove s.id m.session_map } in
      let l = destroy_handles-Left s.handles r in
      rw e (record {
        popped = subst (λ h. Popped m.session_heap s h) (sym l.heap) p;
        late = ground arith;
        map = l.map;
        handles = l.handles;
        next_id = l.next_id;
        next_number = l.next_number;
      })
]

next_expired_session-Found : (now : ℕ) (m : Master) → Found now m (next_expired_session now m)
unfolding next_expired_session
next_expired_session-Found now m =
    Pops-Found now m (pop_heap m.session_heap) (pop_heap-Pops m.session_heap)

pub Found-keeps :
    (P : Master → Type 0) (now : ℕ) (m : Master) (loop : Master → Master)
    → ((r : Master) (s : SessionData) → Round now m s r → P m → P r)
    → ((r : Master) → P r → P (loop r))
    → P m
    → (o : Option (SessionData × Master)) → Found now m o
    → P (elim o [ none ↦ m | some (s, r) ↦ loop (destroy_handles s.handles r) ])
Found-keeps P now m loop k rest p none f = p
Found-keeps P now m loop k rest p (some (s, r)) f =
    rest (destroy_handles s.handles r) (k (destroy_handles s.handles r) s f p)

-- The rounds of the loop keep a property of the master that one of them keeps.
pub remove_expired-keeps :
    (P : Master → Type 0) (clock : ℕ → ℕ)
    → ((n : ℕ) (m r : Master) (s : SessionData) → Round (clock n) m s r → P m → P r)
    → (fuel n : ℕ) (m : Master) → P m
    → P (remove_expired clock fuel n m)
unfolding remove_expired
remove_expired-keeps P clock k zero n m p = p
remove_expired-keeps P clock k (suc fuel) n m p =
    Found-keeps P (clock n) m (remove_expired clock fuel (n + 1)) (k n m)
      (remove_expired-keeps P clock k fuel (n + 1)) p (next_expired_session (clock n) m)
      (next_expired_session-Found (clock n) m)

Round-IsValid : (now : ℕ) (m r : Master) (s : SessionData) → Round now m s r → IsValid m → IsValid r
Round-IsValid now m r s o v = record {
  map = rw o.map (
      All-map (λ id. (has_session id m.session_heap ≡ true) × ((s.id == id) ≡ false))
        (λ id. has_session id r.session_heap ≡ true)
        (λ id h. ground (arith, o.popped.has id, h.0, h.1)) (remove s.id m.session_map)
        (All-remove (λ id. has_session id m.session_heap ≡ true) s.id m.session_map v.map));
  handles = rw o.handles (
      All-map (λ h. (owned h m.session_heap ≡ true) × (member h.id s.handles ≡ false))
        (λ h. owned h r.session_heap ≡ true) (λ h p. ground (arith, o.popped.owns h, p.0, p.1))
        (erase_handles s.handles m.handle_map)
        (All-erase_handles (λ h. owned h m.session_heap ≡ true) s.handles m.handle_map v.handles));
  ids = rw o.next_id (o.popped.parts (λ t. t.id + 1 ≤ m.next_session_id) v.ids).1;
  numbers =
      rw (o.handles, o.next_number)
        (All-map (λ h. (h.id ≤ m.next_handle_number) × (member h.id s.handles ≡ false))
          (λ h. h.id ≤ m.next_handle_number) (λ h p. p.0) (erase_handles s.handles m.handle_map)
          (All-erase_handles (λ h. h.id ≤ m.next_handle_number) s.handles m.handle_map v.numbers));
  given =
      rw o.next_number
        (o.popped.parts (λ s. All (λ h. h ≤ m.next_handle_number) s.handles) v.given).1;
  different = ground (arith, o.popped.others, v.different);
}

pub remove_expired_sessions-IsValid :
    (clock : ℕ → ℕ) (m : Master) → IsValid m → IsValid (remove_expired_sessions clock m)
unfolding remove_expired_sessions
remove_expired_sessions-IsValid clock m v =
    remove_expired-keeps IsValid clock (λ n. Round-IsValid (clock n)) (heap_size m.session_heap + 1)
      0 m v

-- No session of the heap has run out before `t`.
abbrev pub Alive : ℕ → Master → Type 0
Alive t m = All (λ s. t ≤ s.expire_time) m.session_heap

Found-Alive :
    (t now : ℕ) (m : Master) (fuel : ℕ) (loop : Master → Master)
    → t ≤ now
    → ((r : Master) → heap_size r.session_heap < fuel → Alive t (loop r))
    → heap_size m.session_heap < suc fuel
    → (o : Option (SessionData × Master)) → Found now m o
    → Alive t (elim o [ none ↦ m | some (s, r) ↦ loop (destroy_handles s.handles r) ])
Found-Alive t now m fuel loop c rest l none f =
    All-map (λ s. now ≤ s.expire_time) (λ s. t ≤ s.expire_time) (λ s h. omega (arith, h, c))
      m.session_heap f.alive
Found-Alive t now m fuel loop c rest l (some (s, r)) f =
    rest (destroy_handles s.handles r) (omega (arith, l, f.popped.size))

-- Rounds enough for the sessions of the heap: none is left whose time ran out before `t`.
remove_expired-Alive :
    (t : ℕ) (clock : ℕ → ℕ)
    → ((n : ℕ) → t ≤ clock n)
    → (fuel n : ℕ) (m : Master) → heap_size m.session_heap < fuel
    → Alive t (remove_expired clock fuel n m)
unfolding remove_expired
remove_expired-Alive t clock c zero n m l = absurd (omega (arith, l))
remove_expired-Alive t clock c (suc fuel) n m l =
    Found-Alive t (clock n) m fuel (remove_expired clock fuel (n + 1)) (c n)
      (remove_expired-Alive t clock c fuel (n + 1)) l (next_expired_session (clock n) m)
      (next_expired_session-Found (clock n) m)

pub remove_expired_sessions-Alive :
    (t : ℕ) (clock : ℕ → ℕ) (m : Master)
    → ((n : ℕ) → t ≤ clock n)
    → Alive t (remove_expired_sessions clock m)
unfolding remove_expired_sessions
remove_expired_sessions-Alive t clock m c =
    remove_expired-Alive t clock c (heap_size m.session_heap + 1) 0 m (omega arith)

-- A handle's session is in the heap, has the handle, and has time left at `t`.
unfoldable pub held : ℕ → HandleData → List SessionData → Bool
held t h [] = false
held t h (s ∷ ss) =
    (leb t s.expire_time && ((s.id == h.session) && member h.id s.handles)) || held t h ss

held-owned :
    (t : ℕ) (h : HandleData) (ss : List SessionData)
    → All (λ s. t ≤ s.expire_time) ss
    → owned h ss ≡ true
    → held t h ss ≡ true
unfolding held owned
held-owned t h [] a o = o
held-owned t h (s ∷ ss) a o = ground (arith, held-owned t h ss a.1, a.0)

-- After a sweep by a clock that shows `t` or later, every session of the heap has time left at `t`, and every
-- handle of the master is one of such a session, when the master's handles were its sessions' before.
pub remove_expired_sessions-held :
    (t : ℕ) (clock : ℕ → ℕ) (m : Master)
    → IsValid m
    → ((n : ℕ) → t ≤ clock n)
    → All (λ s. t ≤ s.expire_time) (remove_expired_sessions clock m).session_heap
      × All
          (λ h. held t h (remove_expired_sessions clock m).session_heap ≡ true)
          (remove_expired_sessions clock m).handle_map
remove_expired_sessions-held t clock m v c =
    let r = remove_expired_sessions clock m in
    let a = remove_expired_sessions-Alive t clock m c in
    (
      a,
      All-map (λ h. owned h r.session_heap ≡ true) (λ h. held t h r.session_heap ≡ true)
          (λ h. held-owned t h r.session_heap a) r.handle_map
          (remove_expired_sessions-IsValid clock m v).handles,
    )
