-- ===== src/Hyperspace/Lock.antt =====
-- src/cc/Hyperspace/Master.cc: the lock of one node, under the node's mutex.
-- `none` is a failed `assert` or `HT_EXPECT`. Whether the transaction that stores the generation
-- commits, after its retries, is the argument `commits`. The events are listed as they are delivered.
pub mod Grant
pub mod Release
pub mod Exclusion
mod Runs
use hypertable.Base.{
  ℕ, ◌+◌, ◌%◌, ◌^◌, Bool, true, false, ◌&&◌, not, List, [], ◌∷◌, ◌++◌, Option, none, some, ◌==◌,
  if◌then◌else◌, bit_and,
}

-- `LockSequencer.h`.
abbrev pub lock_mode_shared : ℕ
lock_mode_shared = 1

abbrev pub lock_mode_exclusive : ℕ
lock_mode_exclusive = 2

pub data LockStatus : Type 0 where
  granted : ℕ → LockStatus
  busy pending : LockStatus

-- What the callback is given. `not_stored` is the error of the transaction.
pub data Response : Type 0 where
  status : LockStatus → Response
  expired_session invalid_handle mode_restriction not_stored : Response

pub data LockEvent : Type 0 where
  lock_acquired : ℕ → LockEvent
  lock_released : LockEvent
  lock_granted : ℕ → ℕ → ℕ → LockEvent

pub record LockRequest : Type 0 where
  pub handle : ℕ
  pub mode : ℕ

-- `NodeData`, as far as locks go; the handles whose `locked` is set; and those that
-- `get_handle_data` finds. Handles count from 1, and 0 is no handle.
pub record LockState : Type 0 where
  pub cur_lock_mode : ℕ
  pub lock_generation : ℕ
  pub exclusive_lock_handle : ℕ
  pub shared_lock_handles : List ℕ
  pub pending_lock_reqs : List LockRequest
  pub locked : List ℕ
  pub handle_map : List ℕ

-- `std::set`: membership, insertion, and `erase`.
unfoldable pub member : ℕ → List ℕ → Bool
member x [] = false
member x (y ∷ ys) = if x == y then true else member x ys

unfoldable pub add : ℕ → List ℕ → List ℕ
add x ys = if member x ys then ys else x ∷ ys

unfoldable pub remove : ℕ → List ℕ → List ℕ
remove x [] = []
remove x (y ∷ ys) = let rest = remove x ys in if x == y then rest else y ∷ rest

abbrev pub is_empty {ℓ} : {A : Type ℓ} → List A → Bool
is_empty [] = true
is_empty (x ∷ xs) = false

abbrev pub open_flag_write : ℕ
open_flag_write = 0x2

abbrev pub open_flag_lock : ℕ
open_flag_lock = 0x4

-- `lock_handle`.
unfoldable pub lock_handle : ℕ → ℕ → LockState → Option LockState
lock_handle id mode s =
    if mode == lock_mode_shared
    then some
        (record s { shared_lock_handles = add id s.shared_lock_handles; locked = add id s.locked })
    else if mode == lock_mode_exclusive
    then some (record s { exclusive_lock_handle = id; locked = add id s.locked })
    else none

-- The branches of `lock` that do not acquire.
unfoldable pub turn_away : ℕ → ℕ → Bool → LockState → LockState × Response
turn_away id mode try_lock s = if try_lock then (s, status busy) else (
  record s {
    pending_lock_reqs = s.pending_lock_reqs ++ (record { handle = id; mode = mode } ∷ []);
  },
  status pending,
)

unfoldable pub next_generation : LockState → LockState
next_generation s = record s { lock_generation = (s.lock_generation + 1) % 2 ^ 64 }

-- "at this point we're OK to acquire the lock". A shared lock beside others is not announced.
unfoldable pub acquire : ℕ → ℕ → Bool → LockState → Option (LockState × Response × List LockEvent)
acquire id mode commits s =
    let s1 = next_generation s in
    let quiet = (mode == lock_mode_shared) && not (is_empty s.shared_lock_handles) in
    if commits
    then elim (lock_handle id mode (record s1 { cur_lock_mode = mode })) [
      | none ↦ none
      | some s2 ↦
          some
            (s2, status (granted s1.lock_generation), if quiet then [] else lock_acquired mode ∷ [])
    ]
    else some (s1, not_stored, [])

abbrev pub silent : LockState × Response → Option (LockState × Response × List LockEvent)
silent r = some (r.0, r.1, [])

-- The part of `lock` under the mutex of the node.
unfoldable pub lock_node :
    ℕ → ℕ → Bool → Bool → LockState → Option (LockState × Response × List LockEvent)
lock_node id mode try_lock commits s =
    if s.cur_lock_mode == lock_mode_exclusive
    then silent (turn_away id mode try_lock s)
    else if s.cur_lock_mode == lock_mode_shared
    then (if mode == lock_mode_exclusive
        then silent (turn_away id mode try_lock s)
        else if mode == lock_mode_shared
        then (if is_empty s.pending_lock_reqs
            then acquire id mode commits s
            else silent (turn_away id mode try_lock s))
        else none)
    else acquire id mode commits s

-- `lock`, with whether `get_session` finds the session, and the flags that the handle was opened with.
unfoldable pub lock :
    Bool → ℕ → ℕ → ℕ → Bool → Bool → LockState → Option (LockState × Response × List LockEvent)
lock session_live open_flags id mode try_lock commits s =
    if not session_live
    then silent (s, expired_session)
    else if not (member id s.handle_map)
    then silent (s, invalid_handle)
    else if bit_and open_flags open_flag_lock == 0
    then silent (s, mode_restriction)
    else if bit_and open_flags open_flag_write == 0
    then silent (s, mode_restriction)
    else lock_node id mode try_lock commits s

-- The first step of `release_lock`: the handle no longer holds the lock.
unfoldable pub drop_hold : ℕ → LockState → Option LockState
drop_hold id s =
    if not (s.exclusive_lock_handle == 0)
    then (if id == s.exclusive_lock_handle
        then some (record s { exclusive_lock_handle = 0; locked = remove id s.locked })
        else none)
    else if member id s.shared_lock_handles
    then some (record s {
      shared_lock_handles = remove id s.shared_lock_handles;
      locked = remove id s.locked;
    })
    else none

-- The requests that are next: the handles to lock, and those requests that stay.
unfoldable pub shared_run : List ℕ → List LockRequest → List ℕ × List LockRequest
shared_run handle_map [] = ([], [])
shared_run handle_map (r ∷ rs) =
    let (next, rest) = shared_run handle_map rs in
    if r.mode == lock_mode_shared
    then ((if member r.handle handle_map then r.handle ∷ next else next), rest)
    else ([], r ∷ rs)

unfoldable pub next_requests : List ℕ → List LockRequest → ℕ × List ℕ × List LockRequest
next_requests handle_map [] = (0, [], [])
next_requests handle_map (r ∷ rs) =
    let (next, rest) = shared_run handle_map (r ∷ rs) in
    if r.mode == lock_mode_exclusive
    then (lock_mode_exclusive, (if member r.handle handle_map then r.handle ∷ [] else []), rs)
    else (lock_mode_shared, next, rest)

-- `lock_handle_with_notification` for each of the next handles, in turn.
unfoldable pub grant_all : ℕ → ℕ → List ℕ → LockState → Option (LockState × List LockEvent)
grant_all id mode [] s = some (s, [])
grant_all id mode (h ∷ hs) s = if id == h then none else elim (lock_handle h mode s) [
  | none ↦ none
  | some s1 ↦ elim (grant_all id mode hs s1) [
    | none ↦ none
    | some (s2, es) ↦ some (s2, lock_granted h mode s1.lock_generation ∷ es)
  ]
]

-- The end of `release_lock`: the lock goes to the next handles, if there are any.
unfoldable pub hand_over : ℕ → Bool → ℕ → List ℕ → LockState → Option (LockState × List LockEvent)
hand_over id commits mode next s =
    if is_empty next
    then some (s, [])
    else if not commits
    then some (next_generation s, [])
    else elim (grant_all id mode next (record (next_generation s) { cur_lock_mode = mode })) [
      | none ↦ none
      | some (s1, es) ↦ some (s1, es ++ (lock_acquired mode ∷ []))
    ]

-- `release_lock`.
unfoldable pub release_held : ℕ → Bool → LockState → Option (LockState × List LockEvent)
release_held id commits s =
    let (mode, next, rest) = next_requests s.handle_map s.pending_lock_reqs in
    elim (hand_over id commits mode next
      (record s { cur_lock_mode = 0; pending_lock_reqs = rest })) [
        | none ↦ none
        | some (s1, es) ↦
            some (s1, if is_empty s.shared_lock_handles then lock_released ∷ es else es)
      ]

unfoldable pub release_lock : ℕ → Bool → LockState → Option (LockState × List LockEvent)
release_lock id commits s =
    if not (member id s.locked)
    then some (s, [])
    else elim (drop_hold id s) [ none ↦ none | some s1 ↦ release_held id commits s1 ]
