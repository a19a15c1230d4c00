-- ===== src/Hyperspace/Lock/Release.antt =====
-- `release_lock` by the last holder: the lock goes to those who wait, in their order.
use hypertable.Base.{
  ℕ, ◌+◌, ◌%◌, ◌^◌, ◌<◌, ◌≡◌, ◌≢◌, refl, Bool, true, false, ◌||◌, List, [], ◌∷◌, ◌++◌, some, ◌==◌,
  arith, ◌⊎◌, inl, inr, Bool-cases, ◌∙◌, All,
}
use hypertable.Hyperspace.Lock.{
  LockState, LockRequest, LockEvent, lock_acquired, lock_granted, lock_released, member, add,
  remove, lock_handle, next_generation, drop_hold, shared_run, next_requests, grant_all, hand_over,
  release_held, release_lock,
}
use hypertable.Hyperspace.Lock.Grant.{IsValid, IsMode, member-add, member-remove, add-nonempty}

abbrev pub add_all : List ℕ → List ℕ → List ℕ
add_all [] xs = xs
add_all (h ∷ hs) xs = add_all hs (add h xs)

member-add_all : (h : ℕ) (hs xs : List ℕ) → member h (add_all hs xs) ≡ (member h hs || member h xs)
unfolding member
member-add_all h [] xs = refl
member-add_all h (x ∷ hs) xs = ground (arith, member-add_all h hs (add x xs), member-add h x xs)

add_all-nonempty : (hs xs : List ℕ) → xs ≢ [] → add_all hs xs ≢ []
add_all-nonempty [] xs h = h
add_all-nonempty (x ∷ hs) xs h = add_all-nonempty hs (add x xs) (add-nonempty x xs)

-- Handles that can be granted the lock which `id` gives up.
abbrev pub AreOthers : ℕ → List ℕ → Type 0
AreOthers id hs = All (λ h. (0 < h) × (h ≢ id)) hs

-- Requests of other handles, for a mode that exists.
abbrev pub AreRequests : ℕ → List LockRequest → Type 0
AreRequests id rs = All (λ r. (0 < r.handle) × (r.handle ≢ id) × IsMode r.mode) rs

-- The events of `grant_all`.
abbrev grants : ℕ → ℕ → List ℕ → List LockEvent
grants mode generation [] = []
grants mode generation (h ∷ hs) = lock_granted h mode generation ∷ grants mode generation hs

grant_all-shared :
    (id : ℕ) (hs : List ℕ) (s : LockState)
    → AreOthers id hs
    → grant_all id 1 hs s
      ≡ some (
        record s {
          shared_lock_handles = add_all hs s.shared_lock_handles;
          locked = add_all hs s.locked;
        },
        grants 1 s.lock_generation hs,
      )
unfolding grant_all lock_handle
grant_all-shared id [] s o = refl
grant_all-shared id (h ∷ hs) s o =
    let s1 : LockState = record s {
      shared_lock_handles = add h s.shared_lock_handles;
      locked = add h s.locked;
    } in
    let other : (id == h) ≡ false = ground (arith, o.0) in
    rw other (rw (grant_all-shared id hs s1 o.1, grant_all) refl)

grant_all-exclusive :
    (id h : ℕ) (s : LockState)
    → h ≢ id
    → grant_all id 2 (h ∷ []) s
      ≡ some (
        record s { exclusive_lock_handle = h; locked = add h s.locked },
        lock_granted h 2 s.lock_generation ∷ [],
      )
unfolding grant_all lock_handle
grant_all-exclusive id h s hn = let other : (id == h) ≡ false = ground arith in rw other refl

-- What `next_requests` can come up with.
data IsNext (id : ℕ) : ℕ × List ℕ × List LockRequest → Type 0 where
  nobody : (mode : ℕ) (rest : List LockRequest) → IsNext id (mode, [], rest)
  sharers :
      (next : List ℕ) (rest : List LockRequest) → AreOthers id next → IsNext id (1, next, rest)
  one : (h : ℕ) (rest : List LockRequest) → 0 < h → h ≢ id → IsNext id (2, h ∷ [], rest)

shared_run-AreOthers :
    (id : ℕ) (handle_map : List ℕ) (rs : List LockRequest)
    → AreRequests id rs
    → AreOthers id (shared_run handle_map rs).0
unfolding shared_run
shared_run-AreOthers id handle_map [] o = tt
shared_run-AreOthers id handle_map (r ∷ rs) o = elim (Bool-cases (r.mode == 1)) [
  | inl shares ↦ rw shares (elim (Bool-cases (member r.handle handle_map)) [
    | inl present ↦ rw present ((o.0.0, o.0.1), shared_run-AreOthers id handle_map rs o.1)
    | inr closed ↦ rw closed (shared_run-AreOthers id handle_map rs o.1)
  ])
  | inr alone ↦ rw alone tt
]

next_requests-IsNext :
    (id : ℕ) (handle_map : List ℕ) (rs : List LockRequest)
    → AreRequests id rs
    → IsNext id (next_requests handle_map rs)
unfolding next_requests
next_requests-IsNext id handle_map [] o = nobody 0 []
next_requests-IsNext id handle_map (r ∷ rs) o = elim (Bool-cases (r.mode == 2)) [
  | inl alone ↦ rw alone (elim (Bool-cases (member r.handle handle_map)) [
    | inl present ↦ rw present (one r.handle rs o.0.0 o.0.1)
    | inr closed ↦ rw closed (nobody 2 rs)
  ])
  | inr shares ↦ rw shares (sharers _ _ (shared_run-AreOthers id handle_map (r ∷ rs) o))
]

-- A free node with the marks of no holder.
abbrev IsFree : LockState → Type 0
IsFree s =
    (s.cur_lock_mode ≡ 0)
    × (s.exclusive_lock_handle ≡ 0)
    × (s.shared_lock_handles ≡ [])
    × ((h : ℕ) → 0 < h → member h s.locked ≡ false)

IsFree-IsValid : (s : LockState) → IsFree s → IsValid s
IsFree-IsValid s (m, e, p, none_locked) = record {
  consistent = inl (m, e, p);
  holders = λ h hp. rw (p, e, none_locked h hp) (unfold member in ground arith);
}

-- The node once the handles share it, and once one has it alone.
abbrev shared_by : List ℕ → LockState → LockState
shared_by hs s = record (next_generation s) {
  cur_lock_mode = 1;
  shared_lock_handles = add_all hs s.shared_lock_handles;
  locked = add_all hs s.locked;
}

abbrev held_by : ℕ → LockState → LockState
held_by h s = record (next_generation s) {
  cur_lock_mode = 2;
  exclusive_lock_handle = h;
  locked = add h s.locked;
}

member-none : (h : ℕ) (xs : List ℕ) → xs ≡ [] → member h xs ≡ false
member-none h xs e = rw e (unfold member in refl)

shared_by-IsValid :
    (h : ℕ) (hs : List ℕ) (s : LockState) → IsFree s → IsValid (shared_by (h ∷ hs) s)
unfolding next_generation
shared_by-IsValid h hs s (m, e, p, free) = record {
  consistent =
      inr (inl (refl, e, add_all-nonempty hs (add h s.shared_lock_handles) (add-nonempty h _)));
  holders = λ k hk. ground (
    arith,
    e,
    free k hk,
    member-none k s.shared_lock_handles p,
    member-add_all k (h ∷ hs) s.locked,
    member-add_all k (h ∷ hs) s.shared_lock_handles,
  );
}

held_by-IsValid : (h : ℕ) (s : LockState) → 0 < h → IsFree s → IsValid (held_by h s)
unfolding next_generation
held_by-IsValid h s hp (m, e, p, free) = record {
  consistent = inr (inr (refl, hp, p));
  holders = λ k hk.
      ground (arith, free k hk, member-none k s.shared_lock_handles p, member-add k h s.locked);
}

hand_over-one :
    (id h : ℕ) (s : LockState)
    → h ≢ id
    → hand_over id true 2 (h ∷ []) s
      ≡ some
          (held_by h s, lock_granted h 2 (next_generation s).lock_generation ∷ lock_acquired 2 ∷ [])
unfolding hand_over
hand_over-one id h s hn =
    rw (grant_all-exclusive id h (record (next_generation s) { cur_lock_mode = 2 }) hn, hand_over)
      (unfold next_generation in refl)

hand_over-IsValid :
    (id : ℕ) (commits : Bool) (n : ℕ × List ℕ × List LockRequest) (s : LockState)
    → IsFree s
    → IsNext id n
    → (s' : LockState) × (es : List LockEvent) × (hand_over id commits n.0 n.1 s ≡ some (s', es))
      × IsValid s'
unfolding hand_over
hand_over-IsValid id commits n s f (nobody mode rest) = (s, [], refl, IsFree-IsValid s f)
hand_over-IsValid id false n s f (sharers [] rest o) = (s, [], refl, IsFree-IsValid s f)
hand_over-IsValid id true n s f (sharers [] rest o) = (s, [], refl, IsFree-IsValid s f)
hand_over-IsValid id false n s f (sharers (h ∷ hs) rest o) =
    (next_generation s, [], refl, unfold next_generation in IsFree-IsValid _ f)
hand_over-IsValid id true n s f (sharers (h ∷ hs) rest o) = (
  shared_by (h ∷ hs) s,
  grants 1 (next_generation s).lock_generation (h ∷ hs) ++ (lock_acquired 1 ∷ []),
  rw (grant_all-shared id (h ∷ hs) (record (next_generation s) { cur_lock_mode = 1 }) o, hand_over)
      (unfold next_generation in refl),
  shared_by-IsValid h hs s f,
)
hand_over-IsValid id false n s f (one h rest hp hn) =
    (next_generation s, [], refl, unfold next_generation in IsFree-IsValid _ f)
hand_over-IsValid id true n s f (one h rest hp hn) = (
  held_by h s,
  lock_granted h 2 (next_generation s).lock_generation ∷ lock_acquired 2 ∷ [],
  unfold hand_over in hand_over-one id h s hn,
  held_by-IsValid h s hp f,
)

-- The handle is the only one that holds the lock.
abbrev pub IsSole : ℕ → LockState → Type 0
IsSole id s = (s.exclusive_lock_handle ≡ id) ⊎ (s.shared_lock_handles ≡ id ∷ [])

abbrev pub dropped : ℕ → LockState → LockState
dropped id s = record s {
  exclusive_lock_handle = 0;
  shared_lock_handles = [];
  locked = remove id s.locked;
}

drop_hold-sole :
    (id : ℕ) (s : LockState)
    → IsValid s
    → 0 < id
    → IsSole id s
    → drop_hold id s ≡ some (dropped id s)
unfolding drop_hold remove member
drop_hold-sole id s v pos sole = ground (arith, v.consistent)

dropped-free :
    (id : ℕ) (s : LockState)
    → IsValid s
    → 0 < id
    → IsSole id s
    → (h : ℕ) → 0 < h
    → member h (remove id s.locked) ≡ false
unfolding member
dropped-free id s v pos sole h hp =
    ground (arith, v.consistent, v.holders h hp, member-remove h id s.locked)

sole-locked :
    (id : ℕ) (s : LockState) → IsValid s → 0 < id → IsSole id s → member id s.locked ≡ true
unfolding member
sole-locked id s v pos sole = ground (arith, v.consistent, v.holders id pos)

pub release_lock-sole :
    (id : ℕ) (commits : Bool) (s : LockState)
    → IsValid s
    → 0 < id
    → IsSole id s
    → release_lock id commits s ≡ release_held id commits (dropped id s)
unfolding release_lock
release_lock-sole id commits s v pos sole =
    rw (sole-locked id s v pos sole, drop_hold-sole id s v pos sole, release_lock) refl

-- When the last holder releases the lock, and the requests of others wait, no assertion fails, and
-- the node is well formed again, whether the lock is free or handed on, and whether or not the
-- generation could be stored.
pub release_lock-IsValid :
    (id : ℕ) (commits : Bool) (s : LockState)
    → IsValid s
    → 0 < id
    → IsSole id s
    → AreRequests id s.pending_lock_reqs
    → (s' : LockState) × (es : List LockEvent) × (release_lock id commits s ≡ some (s', es))
      × IsValid s'
release_lock-IsValid id commits s v pos sole waiting =
    let n = next_requests s.handle_map s.pending_lock_reqs in
    let freed : LockState = record (dropped id s) { cur_lock_mode = 0; pending_lock_reqs = n.2 } in
    let (s', es, e, w) =
      hand_over-IsValid id commits n freed (refl, refl, refl, dropped-free id s v pos sole)
        (next_requests-IsNext id s.handle_map s.pending_lock_reqs waiting) in
    (
      s',
      lock_released ∷ es,
      release_lock-sole id commits s v pos sole ∙ unfold release_held in rw (e, release_held) refl,
      w,
    )

-- When the last holder of a well-formed node releases the lock and the generation is stored, and the
-- first request in the queue asks for the lock alone and is of another handle than the one that
-- releases it, which is still open, then no assertion fails, that handle has the lock alone, with the
-- next generation (modulo 2 ^ 64), and the others go on waiting.
pub release_lock-exclusive_next :
    (id h : ℕ) (rs : List LockRequest) (s : LockState)
    → IsValid s
    → 0 < id
    → IsSole id s
    → s.pending_lock_reqs ≡ record { handle = h; mode = 2 } ∷ rs
    → h ≢ id
    → member h s.handle_map ≡ true
    → (s' : LockState) × (es : List LockEvent) × (release_lock id true s ≡ some (s', es))
      × (s'.exclusive_lock_handle ≡ h)
      × (s'.cur_lock_mode ≡ 2)
      × (s'.lock_generation ≡ (s.lock_generation + 1) % 2 ^ 64)
      × (s'.pending_lock_reqs ≡ rs)
release_lock-exclusive_next id h rs s v pos sole first other present =
    let d = dropped id s in
    let freed : LockState = record d { cur_lock_mode = 0; pending_lock_reqs = rs } in
    let next : next_requests s.handle_map s.pending_lock_reqs ≡ (2, h ∷ [], rs) =
      rw first (unfold next_requests in rw present refl) in
    (
      held_by h freed,
      lock_released
          ∷ lock_granted h 2 (next_generation freed).lock_generation
          ∷ lock_acquired 2
          ∷ [],
      release_lock-sole id true s v pos sole
          ∙ (unfold release_held in rw (next, hand_over-one id h freed other, release_held) refl),
      refl,
      refl,
      unfold next_generation in refl,
      unfold next_generation in refl,
    )
