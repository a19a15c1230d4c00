-- ===== src/Hyperspace/Session.antt =====
-- src/cc/Hyperspace/Master.cc, SessionData.h and HandleData.h: sessions with their leases, and the handles
-- that they have open.
-- The session map leads by their ids to sessions of the heap, on whose top is one that expires first; here
-- it is the first of them. A time is a number, and `now` is what the clock shows. An event's count of
-- notifications is not kept. What `destroy_handle` does to the node of a handle, which is to take it out
-- of the node and to release its lock, is listed in `destroyed`.
pub mod Handles
pub mod Heap
pub mod Valid
pub mod Keeps
pub mod Sweep
pub mod Room
pub mod Find
pub mod Calls
pub mod Lease
pub mod Orphan
pub mod Leak
mod Tests
use hypertable.Base.{
  ℕ, zero, suc, ◌+◌, ◌%◌, ◌^◌, Bool, true, false, ◌&&◌, ◌||◌, not, List, [], ◌∷◌, ◌++◌, Option,
  none, some, ltb, ◌==◌, if◌then◌else◌,
}
use hypertable.Hyperspace.Lock.{member, add, remove}

pub record SessionData : Type 0 where
  pub id : ℕ
  pub lease_interval : ℕ
  pub expire_time : ℕ
  pub expired : Bool
  pub handles : List ℕ
  pub notifications : List ℕ

-- The session and the node that a handle points to, by their ids.
pub record HandleData : Type 0 where
  pub id : ℕ
  pub session : ℕ
  pub node : ℕ

pub record Master : Type 0 where
  pub lease_interval : ℕ
  pub session_heap : List SessionData
  pub session_map : List ℕ
  pub next_session_id : ℕ
  pub handle_map : List HandleData
  pub next_handle_number : ℕ
  pub destroyed : List HandleData

unfoldable pub new_session : ℕ → ℕ → ℕ → SessionData
new_session lease now id = record {
  id = id;
  lease_interval = lease;
  expire_time = now + lease;
  expired = false;
  handles = [];
  notifications = [];
}

unfoldable pub add_notification : ℕ → SessionData → SessionData
add_notification event s =
    if s.expired then s else record s { notifications = s.notifications ++ (event ∷ []) }

unfoldable pub keep_later : ℕ → List ℕ → List ℕ
keep_later event [] = []
keep_later event (n ∷ ns) = let rest = keep_later event ns in if ltb event n then n ∷ rest else rest

unfoldable pub purge_notifications : ℕ → SessionData → SessionData
purge_notifications event s = record s { notifications = keep_later event s.notifications }

unfoldable pub is_expired : ℕ → SessionData → Bool
is_expired now s = ltb s.expire_time now

unfoldable pub renew_lease : ℕ → SessionData → Bool × SessionData
renew_lease now s =
    if ltb s.expire_time now
    then (false, record s { expired = true; notifications = [] })
    else (true, record s { expire_time = now + s.lease_interval })

unfoldable pub expire : SessionData → SessionData
expire s = if s.expired then s else record s { expired = true; notifications = [] }

-- `find` of the session map, and what is done through the pointer.
unfoldable pub find_session : ℕ → List SessionData → Option SessionData
find_session id [] = none
find_session id (s ∷ ss) = if s.id == id then some s else find_session id ss

unfoldable pub update_session :
    ℕ → (SessionData → SessionData) → List SessionData → List SessionData
update_session id f [] = []
update_session id f (s ∷ ss) =
    let rest = update_session id f ss in if s.id == id then f s ∷ rest else s ∷ rest

unfoldable pub create_session : ℕ → Master → ℕ × Master
create_session now m = (
  m.next_session_id,
  record m {
    next_session_id = (m.next_session_id + 1) % 2 ^ 64;
    session_map = m.next_session_id ∷ m.session_map;
    session_heap = m.session_heap ++ (new_session m.lease_interval now m.next_session_id ∷ []);
  },
)

unfoldable pub get_session : ℕ → Master → Option SessionData
get_session id m = if member id m.session_map then find_session id m.session_heap else none

unfoldable pub destroy_session : ℕ → ℕ → Master → Master
destroy_session id now m =
    if member id m.session_map
    then record m {
      session_map = remove id m.session_map;
      session_heap =
          update_session id (λ s. record (expire s) { expire_time = now }) m.session_heap;
    }
    else m

-- Whether the answer is `Error::OK`.
unfoldable pub renew_session_lease : ℕ → ℕ → Master → Bool × Master
renew_session_lease id now m = elim (get_session id m) [
  | none ↦ (false, m)
  | some s ↦ (
    (renew_lease now s).0,
    record m { session_heap = update_session id (λ t. (renew_lease now t).1) m.session_heap },
  )
]

-- The top of the heap, and the rest.
unfoldable pub pop_heap : List SessionData → Option (SessionData × List SessionData)
pop_heap [] = none
pop_heap (s ∷ ss) = elim (pop_heap ss) [
  | none ↦ some (s, [])
  | some (t, rest) ↦ if ltb t.expire_time s.expire_time then some (t, s ∷ rest) else some (s, ss)
]

unfoldable pub next_expired_session : ℕ → Master → Option (SessionData × Master)
next_expired_session now m = elim (pop_heap m.session_heap) [
  | none ↦ none
  | some (s, rest) ↦
      if is_expired now s
      then some (s, record m { session_heap = rest; session_map = remove s.id m.session_map })
      else none
]

unfoldable pub get_handle_data : ℕ → List HandleData → Option HandleData
get_handle_data handle [] = none
get_handle_data handle (h ∷ hs) = if h.id == handle then some h else get_handle_data handle hs

unfoldable pub erase_handle : ℕ → List HandleData → List HandleData
erase_handle handle [] = []
erase_handle handle (h ∷ hs) =
    let rest = erase_handle handle hs in if h.id == handle then rest else h ∷ rest

-- `remove_handle_data`, and the rest of `destroy_handle`; whether the handle was there.
unfoldable pub destroy_handle : ℕ → Master → Bool × Master
destroy_handle handle m = elim (get_handle_data handle m.handle_map) [
  | none ↦ (false, m)
  | some h ↦ (
    true,
    record m { handle_map = erase_handle handle m.handle_map; destroyed = m.destroyed ++ (h ∷ []) },
  )
]

unfoldable pub destroy_handles : List ℕ → Master → Master
destroy_handles [] m = m
destroy_handles (h ∷ hs) m = destroy_handles hs (destroy_handle h m).1

-- The loop of `remove_expired_sessions`, with fuel: the clock shows `clock n` in round `n`. The session
-- that was taken out is not in the heap any more, and with it go its expiry and its handles.
unfoldable pub remove_expired : (ℕ → ℕ) → ℕ → ℕ → Master → Master
remove_expired clock zero n m = m
remove_expired clock (suc fuel) n m = elim (next_expired_session (clock n) m) [
  | none ↦ m
  | some (s, m1) ↦ remove_expired clock fuel (n + 1) (destroy_handles s.handles m1)
]

unfoldable pub heap_size : List SessionData → ℕ
heap_size [] = 0
heap_size (s ∷ ss) = heap_size ss + 1

unfoldable pub remove_expired_sessions : (ℕ → ℕ) → Master → Master
remove_expired_sessions clock m = remove_expired clock (heap_size m.session_heap + 1) 0 m

unfoldable pub create_handle : ℕ → ℕ → Master → ℕ × Master
create_handle session node m =
    let number = (m.next_handle_number + 1) % 2 ^ 64 in
    let handle : HandleData = record { id = number; session = session; node = node } in
    (number, record m { next_handle_number = number; handle_map = handle ∷ m.handle_map })

-- The part of `open` that makes the handle known, behind the session that it found: `create_handle`
-- and `add_handle`.
unfoldable pub enter_handle : ℕ → ℕ → Master → ℕ × Master
enter_handle session node m =
    let (number, m1) = create_handle session node m in
    (
      number,
      record m1 {
        session_heap =
            update_session session (λ s. record s { handles = add number s.handles })
              m1.session_heap;
      },
    )

-- `open` of a node that is there and not locked: `none` is that the session has expired.
unfoldable pub open_handle : ℕ → ℕ → Master → Option (ℕ × Master)
open_handle session node m = elim (get_session session m) [
  | none ↦ none
  | some s ↦ some (enter_handle session node m)
]

unfoldable pub close : ℕ → ℕ → Master → Master
close session handle m = elim (get_session session m) [
  | none ↦ m
  | some s ↦
      let erased : Master = record m {
        session_heap =
            update_session session (λ t. record t { handles = remove handle t.handles })
              m.session_heap;
      } in
      if member handle s.handles then (destroy_handle handle erased).1 else m
]

-- The calls that the master gets, each with the time or the clock where it looks at it.
pub data Call : Type 0 where
  call_create : ℕ → Call
  call_destroy call_renew call_open call_close : ℕ → ℕ → Call
  call_sweep : (ℕ → ℕ) → Call

unfoldable pub step : Call → Master → Master
step (call_create now) m = (create_session now m).1
step (call_destroy id now) m = destroy_session id now m
step (call_renew id now) m = (renew_session_lease id now m).1
step (call_open id node) m = elim (open_handle id node m) [ none ↦ m | some r ↦ r.1 ]
step (call_close id handle) m = close id handle m
step (call_sweep clock) m = remove_expired_sessions clock m

unfoldable pub run : List Call → Master → Master
run [] m = m
run (c ∷ cs) m = run cs (step c m)

unfoldable pub new_master : ℕ → Master
new_master lease = record {
  lease_interval = lease;
  session_heap = [];
  session_map = [];
  next_session_id = 1;
  handle_map = [];
  next_handle_number = 1;
  destroyed = [];
}
