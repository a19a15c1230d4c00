-- ===== src/Hyperspace/Session/Calls.antt =====
-- What the master's calls keep: every handle is one of a session's, and every session's id leads to it.
use hypertable.Base.{
  ℕ, suc, arith, ◌<◌, ◌^◌, ◌-◌, length, ◌≤◌, ◌≡◌, inl, inr, refl, ◌∙◌, true, false, Bool-cases,
  Option-cases, List, [], ◌∷◌, ◌==◌, All,
}
use hypertable.Hyperspace.Lock.{member, remove}
use hypertable.Hyperspace.Session.{
  SessionData, Master, update_session, get_session, erase_handle, destroy_handle, close, Call,
  call_create, call_destroy, call_renew, call_open, call_close, call_sweep, step, run, new_master,
}
use hypertable.Hyperspace.Session.Handles.{
  has_session, owned, distinct, member-remove, has_session-update, owned-update, All-erase, All-map,
  destroy_handle-Left,
}
use hypertable.Hyperspace.Session.Valid.{
  IsValid, HasRoom, All-remove, All-update, ids-update, distinct-update,
}
use hypertable.Hyperspace.Session.Keeps.{
  create_session-IsValid, destroy_session-IsValid, renew_session_lease-IsValid, open_handle-IsValid,
}
use hypertable.Hyperspace.Session.Room.{step-HasRoom}
use hypertable.Hyperspace.Session.Sweep.{remove_expired_sessions-IsValid}

-- A handle that is taken from its session and destroyed.
erased-IsValid :
    (id handle : ℕ) (m : Master)
    → IsValid m
    → IsValid
        (destroy_handle handle (record m {
          session_heap =
              update_session id
                (λ t. record t { handles = remove handle t.handles })
                m.session_heap;
        })).1
erased-IsValid id handle m v =
    let f = λ (t : SessionData). record t { handles = remove handle t.handles } in
    let m1 : Master = record m { session_heap = update_session id f m.session_heap } in
    let l = destroy_handle-Left handle m1 in
    record {
      map =
          rw (l.map, l.heap)
            (All-map (λ x. has_session x m.session_heap ≡ true)
              (λ x. has_session x (update_session id f m.session_heap) ≡ true)
              (λ x h. has_session-update id x f m.session_heap (λ t. refl) ∙ h) m.session_map
              v.map);
      handles =
          rw (l.handles, l.heap)
            (All-map (λ h. (owned h m.session_heap ≡ true) × ((h.id == handle) ≡ false))
              (λ h. owned h (update_session id f m.session_heap) ≡ true)
              (λ h p.
                owned-update h id f m.session_heap (λ t. refl)
                  (λ s o. member-remove h.id handle s.handles p.1 ∙ o) p.0)
              (erase_handle handle m.handle_map)
              (All-erase (λ h. owned h m.session_heap ≡ true) handle m.handle_map v.handles));
      ids =
          rw (l.heap, l.next_id)
            (ids-update id m.next_session_id f m.session_heap (λ t. refl) v.ids);
      numbers =
          rw (l.handles, l.next_number)
            (All-map (λ h. (h.id ≤ m.next_handle_number) × ((h.id == handle) ≡ false))
              (λ h. h.id ≤ m.next_handle_number) (λ h p. p.0) (erase_handle handle m.handle_map)
              (All-erase (λ h. h.id ≤ m.next_handle_number) handle m.handle_map v.numbers));
      given =
          rw (l.heap, l.next_number)
            (All-update (λ s. All (λ h. h ≤ m.next_handle_number) s.handles) id f m.session_heap
              (λ s a.
                All-map (λ h. (h ≤ m.next_handle_number) × ((handle == h) ≡ false))
                  (λ h. h ≤ m.next_handle_number) (λ h p. p.0) (remove handle s.handles)
                  (All-remove (λ h. h ≤ m.next_handle_number) handle s.handles a))
              v.given);
      different = rw l.heap (distinct-update id f m.session_heap (λ t. refl) ∙ v.different);
    }

close-IsValid : (id handle : ℕ) (m : Master) → IsValid m → IsValid (close id handle m)
unfolding close
close-IsValid id handle m v = elim (Option-cases (get_session id m)) [
  | inl e ↦ rw (e, close) v
  | inr (s, e) ↦ elim (Bool-cases (member handle s.handles)) [
    | inr t ↦ rw (e, close) (rw t v)
    | inl t ↦ rw (e, close) (rw t (erased-IsValid id handle m v))
  ]
]

-- Every call of the master keeps it valid.
step-IsValid : (c : Call) (k : ℕ) (m : Master) → HasRoom (suc k) m → IsValid m → IsValid (step c m)
unfolding step
step-IsValid (call_create now) k m r v = create_session-IsValid now k m r v
step-IsValid (call_destroy id now) k m r v = destroy_session-IsValid id now m v
step-IsValid (call_renew id now) k m r v = renew_session_lease-IsValid id now m v
step-IsValid (call_open id node) k m r v = open_handle-IsValid id node k m r v
step-IsValid (call_close id handle) k m r v = close-IsValid id handle m v
step-IsValid (call_sweep clock) k m r v = remove_expired_sessions-IsValid clock m v

run-keeps : (cs : List Call) (m : Master) → HasRoom (length cs) m → IsValid m → IsValid (run cs m)
unfolding run
run-keeps [] m r v = v
run-keeps (c ∷ cs) m r v =
    run-keeps cs (step c m) (step-HasRoom c (length cs) m r) (step-IsValid c (length cs) m r v)

-- A new master, whatever calls it then gets one after the other, fewer than 2 ^ 64 - 1 of them, so that no id
-- and no number wraps around, has for every id of its session map a session of the heap with that id, and
-- for every handle a session of the heap that has it; no two sessions have one id, the next session's id is
-- above all of theirs, and no handle, of the master or of a session, has a number above the last one given.
pub run-new_master-IsValid :
    (lease : ℕ) (cs : List Call) → length cs < 2 ^ 64 - 1 → IsValid (run cs (new_master lease))
unfolding new_master distinct
run-new_master-IsValid lease cs few =
    run-keeps cs (new_master lease)
      (record { sessions = omega (arith, few); handles = omega (arith, few) })
      (record { map = tt; handles = tt; ids = tt; numbers = tt; given = tt; different = refl })
