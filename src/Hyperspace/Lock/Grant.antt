-- ===== src/Hyperspace/Lock/Grant.antt =====
-- `lock`: who gets the lock, and that holders exclude one another.
use hypertable.Base.{
  ℕ, ◌+◌, ◌%◌, ◌^◌, ◌<◌, ◌≡◌, ◌≢◌, refl, Bool, true, false, ◌&&◌, ◌||◌, not, List, [], ◌∷◌, ◌++◌,
  Option, some, ◌==◌, if◌then◌else◌, arith, ◌⊎◌, inl, inr, Bool-cases, sym, ◌∙◌,
}
use hypertable.Hyperspace.Lock.{
  LockState, LockEvent, Response, granted, busy, pending, status, lock_acquired, not_stored, member,
  add, remove, is_empty, lock_handle, turn_away, next_generation, acquire, lock_node,
}

pub member-add : (h x : ℕ) (ys : List ℕ) → member h (add x ys) ≡ (h == x || member h ys)
unfolding member add
member-add h x ys = elim (Bool-cases (member x ys)) [
  | inl there ↦ rw there (elim (Bool-cases (h == x)) [
    | inl same ↦ let e : h ≡ x = ground arith in rw (same, e) there
    | inr other ↦ rw other refl
  ])
  | inr absent ↦ rw absent (ground arith)
]

pub member-remove : (h x : ℕ) (ys : List ℕ) → member h (remove x ys) ≡ (not (x == h) && member h ys)
unfolding member remove
member-remove h x [] = ground arith
member-remove h x (y ∷ ys) = ground (arith, member-remove h x ys)

-- Nobody holds the lock, some handles share it, or one has it alone; and the mode says which.
abbrev pub IsConsistent : LockState → Type 0
IsConsistent s =
    (s.cur_lock_mode ≡ 0) × (s.exclusive_lock_handle ≡ 0) × (s.shared_lock_handles ≡ [])
    ⊎ (s.cur_lock_mode ≡ 1) × (s.exclusive_lock_handle ≡ 0) × (s.shared_lock_handles ≢ [])
    ⊎ (s.cur_lock_mode ≡ 2) × (0 < s.exclusive_lock_handle) × (s.shared_lock_handles ≡ [])

-- The handles whose `locked` is set are those that the node has as holders.
pub record IsValid (s : LockState) : Type 0 where
  pub consistent : IsConsistent s
  pub holders :
      (h : ℕ)
      → 0 < h
      → member h s.locked ≡ (member h s.shared_lock_handles || s.exclusive_lock_handle == h)

-- The modes that a client may ask for.
abbrev pub IsMode : ℕ → Type 0
IsMode mode = (mode ≡ 1) ⊎ (mode ≡ 2)

-- Whether the state lets a request through.
abbrev pub is_open_to : ℕ → LockState → Bool
is_open_to mode s =
    s.cur_lock_mode == 0 || (s.cur_lock_mode == 1 && mode == 1 && is_empty s.pending_lock_reqs)

-- What `lock_node` gives the handle: the state, the answer and the events.
abbrev pub lock_result : ℕ → ℕ → Bool → Bool → LockState → LockState × Response × List LockEvent
lock_result id mode try_lock commits s =
    if is_open_to mode s
    then (if commits
        then (
          (if mode == 1
              then record s {
                cur_lock_mode = 1;
                lock_generation = (s.lock_generation + 1) % 2 ^ 64;
                shared_lock_handles = add id s.shared_lock_handles;
                locked = add id s.locked;
              }
              else record s {
                cur_lock_mode = 2;
                lock_generation = (s.lock_generation + 1) % 2 ^ 64;
                exclusive_lock_handle = id;
                locked = add id s.locked;
              }),
          status (granted ((s.lock_generation + 1) % 2 ^ 64)),
          if mode == 1 && not (is_empty s.shared_lock_handles) then [] else lock_acquired mode ∷ [],
        )
        else (next_generation s, not_stored, []))
    else if try_lock
    then (s, status busy, [])
    else (
      record s {
        pending_lock_reqs = s.pending_lock_reqs ++ (record { handle = id; mode = mode } ∷ []);
      },
      status pending,
      [],
    )

pub lock_node-eq :
    (id mode : ℕ) (try_lock commits : Bool) (s : LockState)
    → IsConsistent s
    → IsMode mode
    → lock_node id mode try_lock commits s ≡ some (lock_result id mode try_lock commits s)
unfolding lock_node turn_away acquire lock_handle next_generation
lock_node-eq id mode try_lock commits s v m = ground arith

pub add-nonempty : (x : ℕ) (ys : List ℕ) → add x ys ≢ []
unfolding add
add-nonempty x [] e = unfold member in cc
add-nonempty x (y ∷ ys) e = elim (Bool-cases (member x (y ∷ ys))) [
  | inl there ↦ cc (rw there at e)
  | inr absent ↦ cc (rw absent at e)
]

lock_result-IsValid :
    (id mode : ℕ) (try_lock commits : Bool) (s : LockState)
    → IsValid s
    → 0 < id
    → IsMode mode
    → IsValid (lock_result id mode try_lock commits s).0
unfolding next_generation
lock_result-IsValid id mode try_lock commits s v pos m = record {
  consistent = ground (arith, v.consistent, add-nonempty id s.shared_lock_handles);
  holders = λ h hp. ground (
    arith,
    v.consistent,
    v.holders h hp,
    member-add h id s.shared_lock_handles,
    member-add h id s.locked,
    empty h,
  );
}
  where
    empty : (h : ℕ) → s.shared_lock_handles ≡ [] → member h s.shared_lock_handles ≡ false
    empty h e = rw e (unfold member in refl)

-- On a well-formed node and a mode that exists, no assertion of `lock` fails, and the node stays
-- well formed: a lock that somebody has alone is nobody else's, and the mode and the `locked` marks
-- of the handles agree with the holders.
pub lock_node-IsValid :
    (id mode : ℕ) (try_lock commits : Bool) (s : LockState)
    → IsValid s
    → 0 < id
    → IsMode mode
    → (s' : LockState) × (r : Response) × (es : List LockEvent) × (lock_node id mode try_lock
          commits s
        ≡ some (s', r, es))
      × IsValid s'
lock_node-IsValid id mode try_lock commits s v pos m =
    let t = lock_result id mode try_lock commits s in
    (
      t.0,
      t.1,
      t.2,
      lock_node-eq id mode try_lock commits s v.consistent m,
      lock_result-IsValid id mode try_lock commits s v pos m,
    )

triple-injective :
    {s s' : LockState} {r r' : Response} {es es' : List LockEvent}
    → ◌≡◌ {A = Option (LockState × Response × List LockEvent)}
        (some (s, r, es))
        (some (s', r', es'))
    → (s ≡ s') × (r ≡ r') × (es ≡ es')
triple-injective e = (cc, cc, cc)

-- On a well-formed node and for a mode that exists, shared or exclusive, when no assertion fails:
-- the lock is open to the request exactly if it is free, or shared and asked for to share with
-- nobody waiting. Where it is open and the new generation is stored, the lock is granted: the
-- handle holds it in that mode, the queue is as it was, and the generation is one higher (modulo 2
-- ^ 64) and is the one answered. Where it is open and the generation is not stored, the answer is
-- that, and nothing but the generation changes, which is one higher all the same. Where it is not
-- open, a handle that only tries is answered busy and nothing changes, and one that waits is put
-- behind all who wait.
pub lock_node-answer :
    (id mode : ℕ) (try_lock commits : Bool) (s s' : LockState) (r : Response) (es : List LockEvent)
    → IsValid s
    → IsMode mode
    → lock_node id mode try_lock commits s ≡ some (s', r, es)
    → (is_open_to mode s ≡ true
        → commits ≡ true
        → (r ≡ status (granted s'.lock_generation))
          × (s'.lock_generation ≡ (s.lock_generation + 1) % 2 ^ 64)
          × (s'.cur_lock_mode ≡ mode)
          × (member id s'.locked ≡ true)
          × (s'.pending_lock_reqs ≡ s.pending_lock_reqs))
      × (is_open_to mode s ≡ true
          → commits ≡ false
          → (r ≡ not_stored)
            × (s' ≡ record s { lock_generation = (s.lock_generation + 1) % 2 ^ 64 }))
      × (is_open_to mode s ≡ false → try_lock ≡ true → (r ≡ status busy) × (s' ≡ s))
      × (is_open_to mode s ≡ false
          → try_lock ≡ false
          → (r ≡ status pending)
            × (s' ≡ record s {
              pending_lock_reqs = s.pending_lock_reqs ++ (record { handle = id; mode = mode } ∷ []);
            }))
unfolding next_generation
lock_node-answer id mode try_lock commits s s' r es v m h =
    let (p, q, _) =
      triple-injective (sym (lock_node-eq id mode try_lock commits s v.consistent m) ∙ h) in
    (
      λ o c. ground (arith, member-add id id s.locked),
      λ o c. ground arith,
      λ o t. ground arith,
      λ o t. ground arith,
    )
