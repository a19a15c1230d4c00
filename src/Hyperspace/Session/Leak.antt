-- ===== src/Hyperspace/Session/Leak.antt =====
-- src/cc/Hyperspace/Master.cc: `open` finds its session at its start, and gives it the handle later, with no
-- lock held in between. What becomes of the handle when the session is swept away meanwhile.
use hypertable.Base.{
  ℕ, suc, ◌^◌, ◌%◌, length, ◌+◌, ◌<◌, ◌≤◌, ◌≡◌, refl, ap, true, false, List, [], ◌∷◌, some, arith,
  ◌==◌, All,
}
use hypertable.Hyperspace.Lock.{member, add}
use hypertable.Hyperspace.Session.{
  SessionData, HandleData, Master, update_session, get_session, get_handle_data,
  remove_expired_sessions, create_handle, enter_handle, Call, run,
}
use hypertable.Hyperspace.Session.Handles.{has_session, owned, All-map}
use hypertable.Hyperspace.Session.Valid.{HasRoom, IsValid}
use hypertable.Hyperspace.Session.Room.{remove_expired_sessions-SameCounters}
use hypertable.Hyperspace.Session.Sweep.{remove_expired_sessions-IsValid}
use hypertable.Hyperspace.Session.Lease.{remove_expired_sessions-gone}
use hypertable.Hyperspace.Session.Orphan.{IsOrphan, run-IsOrphan}

nobody-owned :
    (h : HandleData) (ss : List SessionData)
    → All (λ s. member h.id s.handles ≡ false) ss
    → owned h ss ≡ false
unfolding owned
nobody-owned h [] a = refl
nobody-owned h (s ∷ ss) a = ground (arith, nobody-owned h ss a.1, a.0)

fresh : (n : ℕ) (hs : List ℕ) → All (λ h. h ≤ n) hs → member (n + 1) hs ≡ false
unfolding member
fresh n [] a = refl
fresh n (h ∷ hs) a = ground (arith, fresh n hs a.1, a.0)

-- No session has the id, so that the update changes none.
update_session-none :
    (id : ℕ) (f : SessionData → SessionData) (ss : List SessionData)
    → has_session id ss ≡ false
    → update_session id f ss ≡ ss
unfolding has_session update_session
update_session-none id f [] e = refl
update_session-none id f (s ∷ ss) e =
    let other_id : (s.id == id) ≡ false = ground arith in
    rw (other_id, update_session) (ap (λ r. s ∷ r) (update_session-none id f ss (ground arith)))

-- A new handle for a session that is not in the heap.
enter_handle-IsOrphan :
    (id node k : ℕ) (m : Master)
    → HasRoom (suc k) m
    → IsValid m
    → has_session id m.session_heap ≡ false
    → IsOrphan
        (record { id = (m.next_handle_number + 1) % 2 ^ 64; session = id; node = node })
        (enter_handle id node m).1
unfolding enter_handle create_handle get_handle_data
enter_handle-IsOrphan id node k m room v e =
    let n = m.next_handle_number + 1 in
    let fits : (m.next_handle_number + 1) % 2 ^ 64 ≡ n = omega (arith, room.handles) in
    let same : (n == n) ≡ true = ground arith in
    rw fits (record {
      there = rw same refl;
      nobody =
          rw (update_session-none id (λ s. record s { handles = add n s.handles }) m.session_heap e)
            (All-map (λ s. All (λ h. h ≤ m.next_handle_number) s.handles)
              (λ s. member n s.handles ≡ false) (λ s. fresh m.next_handle_number s.handles)
              m.session_heap v.given);
      below = omega arith;
    })

enter_handle-HasRoom :
    (id node k : ℕ) (m : Master) → HasRoom (suc k) m → HasRoom k (enter_handle id node m).1
unfolding enter_handle create_handle
enter_handle-HasRoom id node k m h = record {
  sessions = omega (arith, h.sessions);
  handles = omega (arith, h.handles);
}

-- When `open` has found its session, and before it makes the handle a sweep takes the session out, because
-- its lease ran out before `t`, then the master has the new handle, no session has it, and this stays so
-- whatever calls follow: the handle is never destroyed. The calls are so few that the ids and the numbers
-- of handles do not wrap around.
pub enter_handle-leaks :
    (id node t : ℕ) (m : Master) (s : SessionData) (clock : ℕ → ℕ) (cs : List Call)
    → IsValid m
    → HasRoom (length cs + 1) m
    → get_session id m ≡ some s
    → s.expire_time < t
    → ((n : ℕ) → t ≤ clock n)
    → let swept = remove_expired_sessions clock m in
      let (number, entered) = enter_handle id node swept in
      let h : HandleData = record { id = number; session = id; node = node } in
      (get_handle_data number (run cs entered).handle_map ≡ some h)
      × (owned h (run cs entered).session_heap ≡ false)
unfolding enter_handle create_handle
enter_handle-leaks id node t m s clock cs v room e l c =
    let swept = remove_expired_sessions clock m in
    let same = remove_expired_sessions-SameCounters clock m in
    let left : HasRoom (suc (length cs)) swept = record {
      sessions = omega (arith, same.sessions, room.sessions);
      handles = omega (arith, same.handles, room.handles);
    } in
    let h : HandleData = record {
      id = (swept.next_handle_number + 1) % 2 ^ 64;
      session = id;
      node = node;
    } in
    let o =
      run-IsOrphan h cs (enter_handle id node swept).1
        (enter_handle-HasRoom id node (length cs) swept left)
        (enter_handle-IsOrphan id node (length cs) swept left
          (remove_expired_sessions-IsValid clock m v)
          (remove_expired_sessions-gone id t m s clock v e l c)) in
    (o.there, nobody-owned h (run cs (enter_handle id node swept).1).session_heap o.nobody)
