-- ===== src/Hyperspace/Lock/Runs.antt =====
-- The theorems of locks at concrete nodes.
use hypertable.Base.{
  ◌+◌, ◌%◌, ◌^◌, ◌≡◌, refl, true, false, List, [], ◌∷◌, ◌++◌, some, arith, inl, inr,
}
use hypertable.Hyperspace.Lock.{
  LockState, LockEvent, Response, status, granted, pending, busy, not_stored, member, lock_node,
  release_lock, lock, acquire, lock_handle, next_generation, add,
}
use hypertable.Hyperspace.Lock.Grant.{IsValid, is_open_to, lock_node-IsValid, lock_node-answer}
use hypertable.Hyperspace.Lock.Release.{release_lock-IsValid, release_lock-exclusive_next}
use hypertable.Hyperspace.Lock.Exclusion.{release_lock-breaks_exclusion}

-- Handle 7 has the lock alone, 8 waits for it alone.
abbrev alone : LockState
alone = record {
  cur_lock_mode = 2;
  lock_generation = 5;
  exclusive_lock_handle = 7;
  shared_lock_handles = [];
  pending_lock_reqs = record { handle = 8; mode = 2 } ∷ [];
  locked = 7 ∷ [];
  handle_map = 7 ∷ 8 ∷ 9 ∷ [];
}

alone-IsValid : IsValid alone
unfolding member
alone-IsValid = record {
  consistent = inr (inr (refl, omega arith, refl));
  holders = λ h hp. ground arith;
}

-- Handles 7 and 8 share the lock.
abbrev two_share : LockState
two_share = record {
  cur_lock_mode = 1;
  lock_generation = 5;
  exclusive_lock_handle = 0;
  shared_lock_handles = 7 ∷ 8 ∷ [];
  pending_lock_reqs = [];
  locked = 7 ∷ 8 ∷ [];
  handle_map = 7 ∷ 8 ∷ 9 ∷ [];
}

two_share-IsValid : IsValid two_share
unfolding member
two_share-IsValid = record {
  consistent = inr (inl (refl, refl, λ e. cc));
  holders = λ h hp. ground arith;
}

abbrev three_share : LockState
three_share = record two_share {
  lock_generation = 6;
  shared_lock_handles = 9 ∷ 7 ∷ 8 ∷ [];
  locked = 9 ∷ 7 ∷ 8 ∷ [];
}

third_shares : lock true 6 9 1 true true two_share ≡ some (three_share, status (granted 6), [])
unfolding lock member lock_node acquire lock_handle next_generation add
third_shares = refl

third_shares_node : lock_node 9 1 true true two_share ≡ some (three_share, status (granted 6), [])
unfolding lock_node acquire lock_handle next_generation add member
third_shares_node = refl

lock_node-IsValid_example :
    (s' : LockState) × (r : Response) × (es : List LockEvent) × (lock_node 9 1 true true two_share
      ≡ some (s', r, es))
    × IsValid s'
lock_node-IsValid_example =
    lock_node-IsValid 9 1 true true two_share two_share-IsValid (omega arith) (inl refl)

release_lock-IsValid_example :
    (s' : LockState) × (es : List LockEvent) × (release_lock 7 true alone ≡ some (s', es))
    × IsValid s'
release_lock-IsValid_example =
    release_lock-IsValid 7 true alone alone-IsValid (omega arith) (inl refl)
      ((omega arith, omega arith, inr refl), tt)

release_lock-exclusive_next_example :
    (s' : LockState) × (es : List LockEvent) × (release_lock 7 true alone ≡ some (s', es))
    × (s'.exclusive_lock_handle ≡ 8)
    × (s'.cur_lock_mode ≡ 2)
    × (s'.lock_generation ≡ (5 + 1) % 2 ^ 64)
    × (s'.pending_lock_reqs ≡ [])
release_lock-exclusive_next_example =
    release_lock-exclusive_next 7 8 [] alone alone-IsValid (omega arith) (inl refl) refl
      (omega arith) (unfold member in refl)

release_lock-breaks_exclusion_example :
    (s1 : LockState) × (es : List LockEvent) × (release_lock 7 true two_share ≡ some (s1, es))
    × (s2 : LockState) × (es2 : List LockEvent) × (lock_node 9 2 true true s1
        ≡ some (s2, status (granted s2.lock_generation), es2))
    × (s2.exclusive_lock_handle ≡ 9)
    × (member 8 s2.shared_lock_handles ≡ true)
release_lock-breaks_exclusion_example =
    release_lock-breaks_exclusion 7 8 9 two_share two_share-IsValid (omega arith)
      (unfold member in refl) (unfold member in refl) (omega arith) refl

abbrev alone_in_peace : LockState
alone_in_peace = record alone { pending_lock_reqs = [] }

abbrev waiter_gone : LockState
waiter_gone = record alone {
  pending_lock_reqs = record { handle = 8; mode = 2 } ∷ record { handle = 9; mode = 2 } ∷ [];
  handle_map = 7 ∷ 9 ∷ [];
}

lock_node-answer_example :
    (is_open_to 1 two_share ≡ true
      → true ≡ true
      → (status (granted 6) ≡ status (granted three_share.lock_generation))
        × (three_share.lock_generation ≡ (two_share.lock_generation + 1) % 2 ^ 64)
        × (three_share.cur_lock_mode ≡ 1)
        × (member 9 three_share.locked ≡ true)
        × (three_share.pending_lock_reqs ≡ two_share.pending_lock_reqs))
    × (is_open_to 1 two_share ≡ true
        → true ≡ false
        → (status (granted 6) ≡ not_stored)
          × (three_share
              ≡ record two_share { lock_generation = (two_share.lock_generation + 1) % 2 ^ 64 }))
    × (is_open_to 1 two_share ≡ false
        → true ≡ true
        → (status (granted 6) ≡ status busy) × (three_share ≡ two_share))
    × (is_open_to 1 two_share ≡ false
        → true ≡ false
        → (status (granted 6) ≡ status pending)
          × (three_share ≡ record two_share {
            pending_lock_reqs =
                two_share.pending_lock_reqs ++ (record { handle = 9; mode = 1 } ∷ []);
          }))
lock_node-answer_example =
    lock_node-answer 9 1 true true two_share three_share (status (granted 6)) [] two_share-IsValid
      (inl refl) third_shares_node
