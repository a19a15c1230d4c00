-- ===== src/Hyperspace/Session/Keeps.antt =====
-- src/cc/Hyperspace/Master.cc: the calls that make a session or a handle, or change a session's lease, keep
-- the master valid.
use hypertable.Base.{
  ℕ, suc, ◌+◌, ◌%◌, ◌^◌, ◌≤◌, ◌≡◌, inl, inr, refl, sym, ap, ◌∙◌, true, false, Bool-cases,
  Option-cases, [], ◌∷◌, ◌++◌, some, arith, ◌==◌, All,
}
use mathlib.Core.Path.{subst}
use hypertable.Hyperspace.Lock.{member, add, remove}
use hypertable.Hyperspace.Session.{
  SessionData, HandleData, Master, new_session, renew_lease, expire, update_session, create_session,
  get_session, destroy_session, renew_session_lease, create_handle, enter_handle, open_handle,
  call_open, step,
}
use hypertable.Hyperspace.Session.Handles.{
  has_session, owned, member-add_self, member-add, has_session-update, owned-update, owned-new,
  has_session-find, All-map,
}
use hypertable.Hyperspace.Session.Valid.{
  IsValid, HasRoom, All-snoc, All-remove, has_session-snoc, owned-snoc, distinct-snoc,
  distinct-update, All-update, ids-update, All-add,
}

pub create_session-IsValid :
    (now n : ℕ) (m : Master) → HasRoom (suc n) m → IsValid m → IsValid (create_session now m).1
unfolding create_session new_session
create_session-IsValid now n m room v =
    let s = new_session m.lease_interval now m.next_session_id in
    let fits : (m.next_session_id + 1) % 2 ^ 64 ≡ m.next_session_id + 1 =
      omega (arith, room.sessions) in
    rw (fits, create_session)
      (record {
        map = (
          has_session-snoc m.next_session_id s m.session_heap ∙ ground arith,
          All-map (λ id. has_session id m.session_heap ≡ true)
              (λ id. has_session id (m.session_heap ++ (s ∷ [])) ≡ true)
              (λ id h. ground (arith, has_session-snoc id s m.session_heap)) m.session_map v.map,
        );
        handles =
            All-map (λ h. owned h m.session_heap ≡ true)
              (λ h. owned h (m.session_heap ++ (s ∷ [])) ≡ true)
              (λ h. owned-snoc h s m.session_heap) m.handle_map v.handles;
        ids =
            All-snoc (λ t. t.id + 1 ≤ m.next_session_id + 1) s m.session_heap
              (All-map (λ t. t.id + 1 ≤ m.next_session_id) (λ t. t.id + 1 ≤ m.next_session_id + 1)
                (λ t l. omega (arith, l)) m.session_heap v.ids)
              (omega arith);
        numbers = v.numbers;
        given =
            All-snoc (λ t. All (λ h. h ≤ m.next_handle_number) t.handles) s m.session_heap v.given
              tt;
        different = distinct-snoc s m.session_heap v.different v.ids;
      })

-- An update of the heap that keeps the ids and the handles.
update_session-IsValid :
    (id : ℕ) (f : SessionData → SessionData) (m : Master)
    → ((s : SessionData) → (f s).id ≡ s.id)
    → ((s : SessionData) → (f s).handles ≡ s.handles)
    → IsValid m
    → IsValid (record m { session_heap = update_session id f m.session_heap })
update_session-IsValid id f m e k v = record {
  map =
      All-map (λ x. has_session x m.session_heap ≡ true)
        (λ x. has_session x (update_session id f m.session_heap) ≡ true)
        (λ x h. has_session-update id x f m.session_heap e ∙ h) m.session_map v.map;
  handles =
      All-map (λ h. owned h m.session_heap ≡ true)
        (λ h. owned h (update_session id f m.session_heap) ≡ true)
        (λ h. owned-update h id f m.session_heap e (λ s o. ap (member h.id) (k s) ∙ o)) m.handle_map
        v.handles;
  ids = ids-update id m.next_session_id f m.session_heap e v.ids;
  numbers = v.numbers;
  given =
      All-update (λ s. All (λ h. h ≤ m.next_handle_number) s.handles) id f m.session_heap
        (λ s. subst (λ hs. All (λ h. h ≤ m.next_handle_number) hs) (sym (k s))) v.given;
  different = distinct-update id f m.session_heap e ∙ v.different;
}

pub destroy_session-IsValid :
    (id now : ℕ) (m : Master) → IsValid m → IsValid (destroy_session id now m)
unfolding destroy_session expire
destroy_session-IsValid id now m v = elim (Bool-cases (member id m.session_map)) [
  | inl e ↦
      let f = λ (s : SessionData). record (expire s) { expire_time = now } in
      let u = update_session-IsValid id f m (λ s. ground arith) (λ s. ground arith) v in
      rw (e, destroy_session)
        (record {
          map =
              All-map
                (λ x.
                  (has_session x (update_session id f m.session_heap) ≡ true) × ((id == x) ≡ false))
                (λ x. has_session x (update_session id f m.session_heap) ≡ true) (λ x h. h.0)
                (remove id m.session_map)
                (All-remove (λ x. has_session x (update_session id f m.session_heap) ≡ true) id
                  m.session_map u.map);
          handles = u.handles;
          ids = u.ids;
          numbers = u.numbers;
          given = u.given;
          different = u.different;
        })
  | inr e ↦ rw (e, destroy_session) v
]

pub renew_session_lease-IsValid :
    (id now : ℕ) (m : Master) → IsValid m → IsValid (renew_session_lease id now m).1
unfolding renew_session_lease renew_lease
renew_session_lease-IsValid id now m v = elim (Option-cases (get_session id m)) [
  | inl e ↦ rw (e, renew_session_lease) v
  | inr (s, e) ↦
      rw (e, renew_session_lease)
        (update_session-IsValid id (λ t. (renew_lease now t).1) m (λ t. ground arith)
          (λ t. ground arith) v)
]

-- A session that is found is in the heap.
pub get_session-has_session :
    (id : ℕ) (m : Master) (s : SessionData)
    → get_session id m ≡ some s
    → has_session id m.session_heap ≡ true
unfolding get_session
get_session-has_session id m s e = ground (arith, has_session-find id m.session_heap s)

pub open_handle-IsValid :
    (id node k : ℕ) (m : Master)
    → HasRoom (suc k) m
    → IsValid m
    → IsValid (step (call_open id node) m)
unfolding step open_handle enter_handle create_handle
open_handle-IsValid id node k m room v = elim (Option-cases (get_session id m)) [
  | inl e ↦ rw (e, step) v
  | inr (s, e) ↦
      let n = m.next_handle_number + 1 in
      let fits : (m.next_handle_number + 1) % 2 ^ 64 ≡ n = omega (arith, room.handles) in
      let f = λ (s : SessionData). record s { handles = add n s.handles } in
      let h : HandleData = record { id = n; session = id; node = node } in
      rw (e, step)
        (rw fits (record {
          map =
              All-map (λ x. has_session x m.session_heap ≡ true)
                (λ x. has_session x (update_session id f m.session_heap) ≡ true)
                (λ x p. has_session-update id x f m.session_heap (λ t. refl) ∙ p) m.session_map
                v.map;
          handles = (
            owned-new h f m.session_heap (λ t. refl) (λ t. member-add_self n t.handles)
                (get_session-has_session id m s e),
            All-map (λ x. owned x m.session_heap ≡ true)
                (λ x. owned x (update_session id f m.session_heap) ≡ true)
                (λ x.
                  owned-update x id f m.session_heap (λ t. refl) (λ t. member-add x.id n t.handles))
                m.handle_map v.handles,
          );
          ids = ids-update id m.next_session_id f m.session_heap (λ t. refl) v.ids;
          numbers = (
            omega arith,
            All-map (λ x. x.id ≤ m.next_handle_number) (λ x. x.id ≤ n) (λ x l. omega (arith, l))
                m.handle_map v.numbers,
          );
          given =
              All-update (λ s. All (λ h. h ≤ n) s.handles) id f m.session_heap
                (λ s. All-add (λ h. h ≤ n) n s.handles (omega arith))
                (All-map (λ s. All (λ h. h ≤ m.next_handle_number) s.handles)
                  (λ s. All (λ h. h ≤ n) s.handles)
                  (λ s.
                    All-map (λ h. h ≤ m.next_handle_number) (λ h. h ≤ n) (λ h l. omega (arith, l))
                      s.handles)
                  m.session_heap v.given);
          different = distinct-update id f m.session_heap (λ t. refl) ∙ v.different;
        }))
]
