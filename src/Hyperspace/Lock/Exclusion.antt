-- ===== src/Hyperspace/Lock/Exclusion.antt =====
-- Where `lock` and `release_lock` do not keep what they promise.
use hypertable.Base.{
  ℕ, ◌+◌, ◌%◌, ◌^◌, ◌<◌, ◌≡◌, ◌≢◌, refl, Bool, true, false, List, [], ◌∷◌, none, some, ◌==◌,
  if◌then◌else◌, arith, inl, inr, ◌∙◌,
}
use hypertable.Hyperspace.Lock.{
  LockState, LockRequest, LockEvent, status, granted, pending, lock_acquired, lock_released, member,
  add, remove, is_empty, lock_handle, next_generation, drop_hold, next_requests, grant_all,
  hand_over, release_held, release_lock, lock_node, acquire,
}
use hypertable.Hyperspace.Lock.Grant.{IsValid, member-remove, lock_node-eq}
use hypertable.Hyperspace.Lock.Release.{IsSole, dropped, release_lock-sole}

-- The node when one of several sharers has left.
abbrev left_by : ℕ → LockState → LockState
left_by id s = record s {
  cur_lock_mode = 0;
  pending_lock_reqs = [];
  shared_lock_handles = remove id s.shared_lock_handles;
  locked = remove id s.locked;
}

shared-exclusive_none :
    (id : ℕ) (s : LockState)
    → IsValid s
    → member id s.shared_lock_handles ≡ true
    → s.exclusive_lock_handle ≡ 0
unfolding member
shared-exclusive_none id s v m = ground (arith, v.consistent)

drop_hold-shared :
    (id : ℕ) (s : LockState)
    → s.exclusive_lock_handle ≡ 0
    → member id s.shared_lock_handles ≡ true
    → drop_hold id s
      ≡ some (record s {
        shared_lock_handles = remove id s.shared_lock_handles;
        locked = remove id s.locked;
      })
unfolding drop_hold
drop_hold-shared id s e m = ground arith

release_held-nobody :
    (id : ℕ) (commits : Bool) (s : LockState)
    → s.pending_lock_reqs ≡ []
    → release_held id commits s
      ≡ some (
        record s { cur_lock_mode = 0; pending_lock_reqs = [] },
        if is_empty s.shared_lock_handles then lock_released ∷ [] else [],
      )
unfolding release_held hand_over next_requests
release_held-nobody id commits s p = rw (p, release_held) refl

release_shared :
    (id : ℕ) (s : LockState)
    → IsValid s
    → 0 < id
    → member id s.shared_lock_handles ≡ true
    → s.pending_lock_reqs ≡ []
    → (es : List LockEvent) × (release_lock id true s ≡ some (left_by id s, es))
unfolding release_lock
release_shared id s v pos m p =
    let none_alone = shared-exclusive_none id s v m in
    let marked : member id s.locked ≡ true = rw (v.holders id pos, m) refl in
    (
      (if is_empty (remove id s.shared_lock_handles) then lock_released ∷ [] else []),
      rw (marked, drop_hold-shared id s none_alone m, release_lock)
          (release_held-nobody id true _ p),
    )

-- A handle that shares the lock with another one releases it: the mode says that the lock is free,
-- though the other still has it, and so the next one to ask for the lock alone is granted it. Then
-- one handle has the lock alone and another shares it.
pub release_lock-breaks_exclusion :
    (id other third : ℕ) (s : LockState)
    → IsValid s
    → 0 < id
    → member id s.shared_lock_handles ≡ true
    → member other s.shared_lock_handles ≡ true
    → id ≢ other
    → s.pending_lock_reqs ≡ []
    → (s1 : LockState) × (es : List LockEvent) × (release_lock id true s ≡ some (s1, es))
      × (s2 : LockState) × (es2 : List LockEvent) × (lock_node third 2 true true s1
          ≡ some (s2, status (granted s2.lock_generation), es2))
      × (s2.exclusive_lock_handle ≡ third)
      × (member other s2.shared_lock_handles ≡ true)
release_lock-breaks_exclusion id other third s v pos m n ne p =
    let (es, e) = release_shared id s v pos m p in
    (
      left_by id s,
      es,
      e,
      record (left_by id s) {
        cur_lock_mode = 2;
        lock_generation = (s.lock_generation + 1) % 2 ^ 64;
        exclusive_lock_handle = third;
        locked = add third (remove id s.locked);
      },
      lock_acquired 2 ∷ [],
      unfold lock_node acquire lock_handle next_generation in refl,
      refl,
      rw (member-remove other id s.shared_lock_handles, n) (ground arith),
    )

hand_over-itself : (id : ℕ) (s : LockState) → hand_over id true 2 (id ∷ []) s ≡ none
unfolding hand_over grant_all
hand_over-itself id s = let same : (id == id) ≡ true = ground arith in rw same refl

-- A handle that has the lock alone asks for it again and is told to wait; when it then releases the
-- lock, the request that is next is its own, and the assertion in `release_lock` fails.
pub release_lock-fails_on_itself :
    (id : ℕ) (s : LockState)
    → IsValid s
    → 0 < id
    → s.exclusive_lock_handle ≡ id
    → s.pending_lock_reqs ≡ []
    → member id s.handle_map ≡ true
    → (s1 : LockState) × (lock_node id 2 false true s ≡ some (s1, status pending, []))
      × (release_lock id true s1 ≡ none)
release_lock-fails_on_itself id s v pos e p present =
    let own : LockRequest = record { handle = id; mode = 2 } in
    let s1 : LockState = record s { pending_lock_reqs = own ∷ [] } in
    let next : next_requests s1.handle_map (own ∷ []) ≡ (2, id ∷ [], []) =
      unfold next_requests in rw present refl in
    (
      s1,
      lock_node-eq id 2 false true s v.consistent (inr refl) ∙ ground (arith, v.consistent),
      release_lock-sole id true s1 (record { consistent = v.consistent; holders = v.holders }) pos
            (inl e)
          ∙ unfold release_held in rw (next, hand_over-itself id _, release_held) refl,
    )

-- The request that is next belongs to a handle that has been closed: the last holder's release drops
-- it and gives the lock to nobody, and the requests behind it go on waiting for a lock that is free.
pub release_lock-strands_waiters :
    (id dead : ℕ) (rs : List LockRequest) (s : LockState)
    → IsValid s
    → 0 < id
    → IsSole id s
    → s.pending_lock_reqs ≡ record { handle = dead; mode = 2 } ∷ rs
    → member dead s.handle_map ≡ false
    → release_lock id true s
      ≡ some
          (record (dropped id s) { cur_lock_mode = 0; pending_lock_reqs = rs }, lock_released ∷ [])
unfolding release_held hand_over
release_lock-strands_waiters id dead rs s v pos sole first closed =
    let next : next_requests s.handle_map s.pending_lock_reqs ≡ (2, [], rs) =
      rw first (unfold next_requests in rw closed refl) in
    release_lock-sole id true s v pos sole
    ∙ unfold release_held hand_over in rw (next, release_held) refl
