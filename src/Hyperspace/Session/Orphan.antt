-- ===== src/Hyperspace/Session/Orphan.antt =====
-- src/cc/Hyperspace/Master.cc: a handle that no session has, and what the master's calls do to it.
use hypertable.Base.{
  ℕ, suc, ◌^◌, ◌%◌, length, ◌+◌, ◌≤◌, ◌≡◌, inl, inr, refl, ◌∙◌, true, false, Bool-cases,
  Option-cases, List, [], ◌∷◌, some, arith, ◌==◌, All,
}
use hypertable.Hyperspace.Lock.{member, add, remove}
use hypertable.Hyperspace.Session.{
  SessionData, HandleData, Master, new_session, renew_lease, expire, update_session, create_session,
  get_session, destroy_session, renew_session_lease, get_handle_data, erase_handle, destroy_handle,
  remove_expired_sessions, create_handle, enter_handle, open_handle, close, Call, call_create,
  call_destroy, call_renew, call_open, call_close, call_sweep, step, run, heap_size,
}
use hypertable.Hyperspace.Session.Handles.{destroy_handle-Left, erase_handles}
use hypertable.Hyperspace.Session.Valid.{HasRoom, All-update, All-snoc}
use hypertable.Hyperspace.Session.Room.{step-HasRoom}
use hypertable.Hyperspace.Session.Sweep.{Round, remove_expired-keeps}
use hypertable.Hyperspace.Session.Find.{get_session-find, find_session-All}

-- The master has the handle, no session has it, and none will be given its number.
pub record IsOrphan (h : HandleData) (m : Master) : Type 0 where
  pub there : get_handle_data h.id m.handle_map ≡ some h
  pub nobody : All (λ s. member h.id s.handles ≡ false) m.session_heap
  pub below : h.id ≤ m.next_handle_number

-- An update that gives no session the handle.
update_session-IsOrphan :
    (h : HandleData) (id : ℕ) (f : SessionData → SessionData) (m : Master)
    → ((s : SessionData) → member h.id s.handles ≡ false → member h.id (f s).handles ≡ false)
    → IsOrphan h m
    → IsOrphan h (record m { session_heap = update_session id f m.session_heap })
update_session-IsOrphan h id f m k o = record {
  there = o.there;
  nobody = All-update (λ s. member h.id s.handles ≡ false) id f m.session_heap k o.nobody;
  below = o.below;
}

get_handle_data-erase :
    (n x : ℕ) (hs : List HandleData)
    → (n == x) ≡ false
    → get_handle_data n (erase_handle x hs) ≡ get_handle_data n hs
unfolding get_handle_data erase_handle
get_handle_data-erase n x [] e = refl
get_handle_data-erase n x (h ∷ hs) e = ground (arith, get_handle_data-erase n x hs e)

get_handle_data-erase_handles :
    (n : ℕ) (xs : List ℕ) (hs : List HandleData)
    → member n xs ≡ false
    → get_handle_data n (erase_handles xs hs) ≡ get_handle_data n hs
unfolding member erase_handles
get_handle_data-erase_handles n [] hs e = refl
get_handle_data-erase_handles n (x ∷ xs) hs e =
    get_handle_data-erase_handles n xs (erase_handle x hs) (ground arith)
    ∙ get_handle_data-erase n x hs (ground arith)

member-remove_absent :
    (n x : ℕ) (ys : List ℕ) → member n ys ≡ false → member n (remove x ys) ≡ false
unfolding member remove
member-remove_absent n x [] e = refl
member-remove_absent n x (y ∷ ys) e = ground (arith, member-remove_absent n x ys)

member-add_absent :
    (n x : ℕ) (ys : List ℕ) → (n == x) ≡ false → member n ys ≡ false → member n (add x ys) ≡ false
unfolding member add
member-add_absent n x ys d e = ground arith

-- A handle of another number is passed by.
get_handle_data-skip :
    (n session node x : ℕ) (hs : List HandleData)
    → (x == n) ≡ false
    → get_handle_data n (record { id = x; session = session; node = node } ∷ hs)
      ≡ get_handle_data n hs
unfolding get_handle_data
get_handle_data-skip n session node x hs e = rw e refl

Round-IsOrphan :
    (h : HandleData) (now : ℕ) (m r : Master) (s : SessionData)
    → Round now m s r
    → IsOrphan h m
    → IsOrphan h r
Round-IsOrphan h now m r s o i =
    let p = o.popped.parts (λ t. member h.id t.handles ≡ false) i.nobody in
    record {
      there =
          rw o.handles (get_handle_data-erase_handles h.id s.handles m.handle_map p.0 ∙ i.there);
      nobody = p.1;
      below = rw o.next_number i.below;
    }

erased-IsOrphan :
    (h : HandleData) (id handle : ℕ) (m : Master)
    → (h.id == handle) ≡ false
    → IsOrphan h m
    → IsOrphan h
        (destroy_handle handle (record m {
          session_heap =
              update_session id
                (λ t. record t { handles = remove handle t.handles })
                m.session_heap;
        })).1
erased-IsOrphan h id handle m d o =
    let f = λ (t : SessionData). record t { handles = remove handle t.handles } in
    let m1 : Master = record m { session_heap = update_session id f m.session_heap } in
    let u = update_session-IsOrphan h id f m (λ t. member-remove_absent h.id handle t.handles) o in
    let l = destroy_handle-Left handle m1 in
    record {
      there = rw l.handles (get_handle_data-erase h.id handle m.handle_map d ∙ o.there);
      nobody = rw l.heap u.nobody;
      below = rw l.next_number u.below;
    }

other : (n x : ℕ) (ys : List ℕ) → member n ys ≡ false → member x ys ≡ true → (n == x) ≡ false
unfolding member
other n x [] f t = cc
other n x (y ∷ ys) f t = ground (arith, other n x ys)

close-IsOrphan :
    (h : HandleData) (id handle : ℕ) (m : Master) → IsOrphan h m → IsOrphan h (close id handle m)
unfolding close
close-IsOrphan h id handle m o = elim (Option-cases (get_session id m)) [
  | inl e ↦ rw (e, close) o
  | inr (s, e) ↦ elim (Bool-cases (member handle s.handles)) [
    | inr t ↦ rw (e, close) (rw t o)
    | inl t ↦
        rw (e, close)
          (rw t (
            erased-IsOrphan h id handle m
              (other h.id handle s.handles
                (find_session-All (λ x. member h.id x.handles ≡ false) id m.session_heap s o.nobody
                  (get_session-find id m s e).1)
                t)
              o))
  ]
]

open_handle-IsOrphan :
    (h : HandleData) (id node k : ℕ) (m : Master)
    → HasRoom (suc k) m
    → IsOrphan h m
    → IsOrphan h (step (call_open id node) m)
unfolding step open_handle enter_handle create_handle
open_handle-IsOrphan h id node k m room o = elim (Option-cases (get_session id m)) [
  | inl e ↦ rw (e, step) o
  | inr (s, e) ↦
      let n = m.next_handle_number + 1 in
      let fits : (m.next_handle_number + 1) % 2 ^ 64 ≡ n = omega (arith, room.handles) in
      rw (e, step)
        (rw fits (
          update_session-IsOrphan h id (λ (s : SessionData). record s { handles = add n s.handles })
            (record m {
              next_handle_number = n;
              handle_map = record { id = n; session = id; node = node } ∷ m.handle_map;
            })
            (λ s. member-add_absent h.id n s.handles (ground (arith, o.below)))
            (record {
              there =
                  get_handle_data-skip h.id id node n m.handle_map (ground (arith, o.below))
                  ∙ o.there;
              nobody = o.nobody;
              below = omega (arith, o.below);
            })))
]

renew_session_lease-IsOrphan :
    (h : HandleData) (id now : ℕ) (m : Master)
    → IsOrphan h m
    → IsOrphan h (renew_session_lease id now m).1
unfolding renew_session_lease renew_lease
renew_session_lease-IsOrphan h id now m o = elim (Option-cases (get_session id m)) [
  | inl e ↦ rw (e, renew_session_lease) o
  | inr (s, e) ↦
      rw (e, renew_session_lease)
        (update_session-IsOrphan h id (λ t. (renew_lease now t).1) m (λ t n. ground arith) o)
]

step-IsOrphan :
    (h : HandleData) (c : Call) (k : ℕ) (m : Master)
    → HasRoom (suc k) m
    → IsOrphan h m
    → IsOrphan h (step c m)
unfolding step create_session destroy_session expire remove_expired_sessions new_session member
step-IsOrphan h (call_create now) k m r o = record {
  there = o.there;
  nobody =
      All-snoc (λ s. member h.id s.handles ≡ false)
        (new_session m.lease_interval now m.next_session_id) m.session_heap o.nobody refl;
  below = o.below;
}
step-IsOrphan h (call_destroy id now) k m r o =
    let u =
      update_session-IsOrphan h id (λ (s : SessionData). record (expire s) { expire_time = now }) m
        (λ s n. ground arith) o in
    elim (Bool-cases (member id m.session_map)) [
      | inl e ↦ rw (e, step) (record { there = o.there; nobody = u.nobody; below = o.below })
      | inr e ↦ rw (e, step) o
    ]
step-IsOrphan h (call_renew id now) k m r o = renew_session_lease-IsOrphan h id now m o
step-IsOrphan h (call_open id node) k m r o = open_handle-IsOrphan h id node k m r o
step-IsOrphan h (call_close id handle) k m r o = close-IsOrphan h id handle m o
step-IsOrphan h (call_sweep clock) k m r o =
    remove_expired-keeps (IsOrphan h) clock (λ n. Round-IsOrphan h (clock n))
      (heap_size m.session_heap + 1) 0 m o

pub run-IsOrphan :
    (h : HandleData) (cs : List Call) (m : Master)
    → HasRoom (length cs) m
    → IsOrphan h m
    → IsOrphan h (run cs m)
unfolding run
run-IsOrphan h [] m r o = o
run-IsOrphan h (c ∷ cs) m r o =
    run-IsOrphan h cs (step c m) (step-HasRoom c (length cs) m r)
      (step-IsOrphan h c (length cs) m r o)
