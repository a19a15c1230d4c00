-- ===== src/Hyperspace/Session/Room.antt =====
-- How far a call counts the ids and the numbers on.
use hypertable.Base.{ℕ, suc, ◌+◌, ◌≡◌, inl, inr, refl, ◌∙◌, Bool-cases, Option-cases, arith}
use hypertable.Hyperspace.Lock.{member, remove}
use hypertable.Hyperspace.Session.{
  SessionData, Master, update_session, create_session, get_session, destroy_session,
  renew_session_lease, remove_expired_sessions, create_handle, enter_handle, open_handle, close,
  Call, call_create, call_destroy, call_renew, call_open, call_close, call_sweep, step, heap_size,
}
use hypertable.Hyperspace.Session.Handles.{destroy_handle-Left}
use hypertable.Hyperspace.Session.Valid.{HasRoom}
use hypertable.Hyperspace.Session.Sweep.{remove_expired-keeps}

-- Neither is counted.
pub record SameCounters (m r : Master) : Type 0 where
  pub sessions : r.next_session_id ≡ m.next_session_id
  pub handles : r.next_handle_number ≡ m.next_handle_number

SameCounters-HasRoom : (k : ℕ) (m r : Master) → SameCounters m r → HasRoom (suc k) m → HasRoom k r
SameCounters-HasRoom k m r c h = record {
  sessions = omega (arith, c.sessions, h.sessions);
  handles = omega (arith, c.handles, h.handles);
}

destroy_session-SameCounters : (id now : ℕ) (m : Master) → SameCounters m (destroy_session id now m)
unfolding destroy_session
destroy_session-SameCounters id now m = elim (Bool-cases (member id m.session_map)) [
  | inl e ↦ rw (e, destroy_session) (record { sessions = refl; handles = refl })
  | inr e ↦ rw (e, destroy_session) (record { sessions = refl; handles = refl })
]

renew_session_lease-SameCounters :
    (id now : ℕ) (m : Master) → SameCounters m (renew_session_lease id now m).1
unfolding renew_session_lease
renew_session_lease-SameCounters id now m = elim (Option-cases (get_session id m)) [
  | inl e ↦ rw (e, renew_session_lease) (record { sessions = refl; handles = refl })
  | inr (s, e) ↦ rw (e, renew_session_lease) (record { sessions = refl; handles = refl })
]

close-SameCounters : (id handle : ℕ) (m : Master) → SameCounters m (close id handle m)
unfolding close
close-SameCounters id handle m = elim (Option-cases (get_session id m)) [
  | inl e ↦ rw (e, close) (record { sessions = refl; handles = refl })
  | inr (s, e) ↦ elim (Bool-cases (member handle s.handles)) [
    | inr t ↦ rw (e, close) (rw t (record { sessions = refl; handles = refl }))
    | inl t ↦
        let l = destroy_handle-Left handle (record m {
          session_heap =
              update_session id
                (λ (t : SessionData). record t { handles = remove handle t.handles })
                m.session_heap;
        }) in
        rw (e, close) (rw t (record { sessions = l.next_id; handles = l.next_number }))
  ]
]

pub remove_expired_sessions-SameCounters :
    (clock : ℕ → ℕ) (m : Master) → SameCounters m (remove_expired_sessions clock m)
unfolding remove_expired_sessions
remove_expired_sessions-SameCounters clock m =
    remove_expired-keeps (SameCounters m) clock
      (λ n a b s o c. record {
        sessions = o.next_id ∙ c.sessions;
        handles = o.next_number ∙ c.handles;
      })
      (heap_size m.session_heap + 1) 0 m (record { sessions = refl; handles = refl })

open_handle-HasRoom :
    (id node k : ℕ) (m : Master) → HasRoom (suc k) m → HasRoom k (step (call_open id node) m)
unfolding step open_handle enter_handle create_handle
open_handle-HasRoom id node k m h = elim (Option-cases (get_session id m)) [
  | inl e ↦ rw (e, step) (SameCounters-HasRoom k m m (record { sessions = refl; handles = refl }) h)
  | inr (s, e) ↦
      rw (e, step)
        (record { sessions = omega (arith, h.sessions); handles = omega (arith, h.handles) })
]

-- A call less is left.
pub step-HasRoom : (c : Call) (k : ℕ) (m : Master) → HasRoom (suc k) m → HasRoom k (step c m)
unfolding step create_session
step-HasRoom (call_create now) k m h = record {
  sessions = omega (arith, h.sessions);
  handles = omega (arith, h.handles);
}
step-HasRoom (call_destroy id now) k m h =
    SameCounters-HasRoom k m (destroy_session id now m) (destroy_session-SameCounters id now m) h
step-HasRoom (call_renew id now) k m h =
    SameCounters-HasRoom k m (renew_session_lease id now m).1
      (renew_session_lease-SameCounters id now m) h
step-HasRoom (call_open id node) k m h = open_handle-HasRoom id node k m h
step-HasRoom (call_close id handle) k m h =
    SameCounters-HasRoom k m (close id handle m) (close-SameCounters id handle m) h
step-HasRoom (call_sweep clock) k m h =
    SameCounters-HasRoom k m (remove_expired_sessions clock m)
      (remove_expired_sessions-SameCounters clock m) h
