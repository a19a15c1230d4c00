-- ===== src/Hyperspace/Session/Tests.antt =====
-- A master with two sessions, one of which has a handle, and the theorems at it.
use hypertable.Base.{ℕ, ◌≤◌, ◌≡◌, refl, true, false, List, [], ◌∷◌, some, none, arith, All}
use hypertable.Hyperspace.Lock.{member, add}
use hypertable.Hyperspace.Session.{
  remove_expired, heap_size, next_expired_session, pop_heap, is_expired, destroy_handles,
  destroy_handle, erase_handle, step, open_handle, create_session, find_session, new_session,
  create_handle, update_session, SessionData, HandleData, Master, Call, call_create, call_open,
  call_close, run, new_master, get_session, renew_session_lease, remove_expired_sessions,
  enter_handle, get_handle_data,
}
use hypertable.Hyperspace.Session.Handles.{owned}
use hypertable.Hyperspace.Session.Valid.{IsValid, HasRoom}
use hypertable.Hyperspace.Session.Calls.{run-new_master-IsValid}
use hypertable.Hyperspace.Session.Sweep.{held, remove_expired_sessions-held}
use hypertable.Hyperspace.Session.Lease.{renew_session_lease-lasts}
use hypertable.Hyperspace.Session.Leak.{enter_handle-leaks}

-- The sessions 1 and 2 expire at 10 and 15.
abbrev calls : List Call
calls = call_create 0 ∷ (call_create 5 ∷ (call_open 1 7 ∷ (call_open 2 7 ∷ [])))

abbrev master : Master
master = run calls (new_master 10)

abbrev at_12 : ℕ → ℕ
at_12 n = 12

abbrev first : SessionData
first = record {
  id = 1;
  lease_interval = 10;
  expire_time = 10;
  expired = false;
  handles = 2 ∷ [];
  notifications = [];
}

found : get_session 1 master ≡ some first
unfolding get_session run new_master member step open_handle create_session find_session new_session
    enter_handle create_handle update_session add
found = refl

calls-IsValid : IsValid master
calls-IsValid = run-new_master-IsValid 10 calls (omega arith)

calls-HasRoom : HasRoom 2 master
unfolding run new_master step open_handle create_session get_session member find_session new_session
    enter_handle create_handle update_session add
calls-HasRoom = record { sessions = omega arith; handles = omega arith }

run-new_master-IsValid_example : IsValid (run calls (new_master 10))
run-new_master-IsValid_example = run-new_master-IsValid 10 calls (omega arith)

remove_expired_sessions-held_example :
    All (λ s. 12 ≤ s.expire_time) (remove_expired_sessions at_12 master).session_heap
    × All
        (λ h. held 12 h (remove_expired_sessions at_12 master).session_heap ≡ true)
        (remove_expired_sessions at_12 master).handle_map
remove_expired_sessions-held_example =
    remove_expired_sessions-held 12 at_12 master calls-IsValid (λ n. omega arith)

-- The sweep at 12 takes the handle of the first session away.
handle_left : get_handle_data 2 (remove_expired_sessions at_12 master).handle_map ≡ none
unfolding get_session run new_master member step open_handle create_session find_session new_session
    enter_handle create_handle update_session add get_handle_data remove_expired_sessions
    remove_expired heap_size next_expired_session pop_heap is_expired destroy_handles destroy_handle
    erase_handle
handle_left = refl

renew_session_lease-lasts_example :
    get_session 1 (remove_expired_sessions at_12 (renew_session_lease 1 9 master).1)
    ≡ some (record first { expire_time = 19 })
renew_session_lease-lasts_example =
    renew_session_lease-lasts 1 9 master first at_12 calls-IsValid found (omega arith)
      (λ n. omega arith)

enter_handle-leaks_example :
    let swept = remove_expired_sessions at_12 master in
    let (number, entered) = enter_handle 1 7 swept in
    let h : HandleData = record { id = number; session = 1; node = 7 } in
    (get_handle_data number (run (call_close 1 number ∷ []) entered).handle_map ≡ some h)
    × (owned h (run (call_close 1 number ∷ []) entered).session_heap ≡ false)
enter_handle-leaks_example =
    enter_handle-leaks 1 7 12 master first at_12
      (call_close 1 (enter_handle 1 7 (remove_expired_sessions at_12 master)).0 ∷ []) calls-IsValid
      calls-HasRoom found (omega arith) (λ n. omega arith)
