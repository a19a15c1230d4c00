-- ===== src/Hyperspace/Session/Lease.antt =====
-- src/cc/Hyperspace/Master.cc and SessionData.h: what a lease is good for, and how it ends.
use hypertable.Base.{
  ℕ, ◌+◌, ◌<◌, ◌≤◌, ◌≡◌, inl, inr, refl, sym, ap, ◌∙◌, true, false, Bool-cases, List, [], ◌∷◌, some,
  arith, ◌==◌, All,
}
use mathlib.Core.Path.{subst}
use mathlib.Core.Option.{some-injective}
use hypertable.Hyperspace.Session.{
  SessionData, Master, renew_lease, find_session, update_session, get_session, renew_session_lease,
  remove_expired_sessions, heap_size,
}
use hypertable.Hyperspace.Session.Handles.{has_session, distinct, member-remove}
use hypertable.Hyperspace.Session.Valid.{IsValid, distinct-update}
use hypertable.Hyperspace.Session.Sweep.{Round, remove_expired-keeps, remove_expired_sessions-Alive}
use hypertable.Hyperspace.Session.Find.{
  find_session-head, find_session-update, same_expiry, get_session-find, find_session-tail,
  get_session-found,
}

-- A session with time left, in a master whose sessions differ.
record Holds (id : ℕ) (s : SessionData) (m : Master) : Type 0 where
  different : distinct m.session_heap ≡ true
  there : get_session id m ≡ some s

Round-Holds :
    (id now : ℕ) (s : SessionData) (m r : Master) (p : SessionData)
    → now ≤ s.expire_time
    → Round now m p r
    → Holds id s m
    → Holds id s r
unfolding get_session
Round-Holds id now s m r p l o h = elim (Bool-cases (p.id == id)) [
  | inl e ↦ absurd (
      ground (
        arith,
        same_expiry id m.session_heap p s e (o.popped.found h.different)
            (get_session-find id m s h.there).1,
        o.late,
        l,
      ))
  | inr e ↦ record {
    different = ground (arith, o.popped.others, h.different);
    there =
        rw (o.map, member-remove id p.id m.session_map (ground arith), sym (o.popped.finds id e))
          h.there;
  }
]

renew_lease-id : (now : ℕ) (s : SessionData) → (renew_lease now s).1.id ≡ s.id
unfolding renew_lease
renew_lease-id now s = ground arith

renew_lease-on_time :
    (now : ℕ) (s : SessionData)
    → now ≤ s.expire_time
    → (renew_lease now s).1 ≡ record s { expire_time = now + s.lease_interval }
unfolding renew_lease
renew_lease-on_time now s l = ground arith

-- The renewal of a session with time left.
renewed-Holds :
    (id now : ℕ) (m : Master) (s : SessionData)
    → IsValid m
    → get_session id m ≡ some s
    → now ≤ s.expire_time
    → Holds id (record s { expire_time = now + s.lease_interval }) (renew_session_lease id now m).1
unfolding renew_session_lease
renewed-Holds id now m s v e l =
    let f = λ (t : SessionData). (renew_lease now t).1 in
    let g = get_session-find id m s e in
    rw (e, renew_session_lease)
      (record {
        different = distinct-update id f m.session_heap (renew_lease-id now) ∙ v.different;
        there =
            get_session-found id m (update_session id f m.session_heap) (f s) g.0
              (find_session-update id f m.session_heap s (renew_lease-id now) g.1)
            ∙ ap some (renew_lease-on_time now s l);
      })

-- All sessions with the id have run out before `t`.
abbrev Late : ℕ → ℕ → Master → Type 0
Late id t m = All (λ s. (s.id == id) ≡ true → s.expire_time < t) m.session_heap

no_session :
    (id t : ℕ) (ss : List SessionData)
    → has_session id ss ≡ false
    → All (λ s. (s.id == id) ≡ true → s.expire_time < t) ss
unfolding has_session
no_session id t [] h = tt
no_session id t (s ∷ ss) h = (λ e. ground arith, no_session id t ss (ground arith))

found-Late :
    (id t : ℕ) (ss : List SessionData) (s : SessionData)
    → distinct ss ≡ true
    → find_session id ss ≡ some s
    → s.expire_time < t
    → All (λ u. (u.id == id) ≡ true → u.expire_time < t) ss
unfolding distinct
found-Late id t [] s d e l = tt
found-Late id t (u ∷ ss) s d e l = elim (Bool-cases (u.id == id)) [
  | inl h ↦
      let same : u.id ≡ id = ground arith in
      let at_top = some-injective u s (sym (find_session-head id u ss h) ∙ e) in
      let expiry = ap (λ x. x.expire_time) at_top in
      (
        λ q. ground (arith, expiry, l),
        no_session id t ss (subst (λ x. has_session x ss ≡ false) same (ground arith)),
      )
  | inr h ↦
      (λ e. ground arith, found-Late id t ss s (ground arith) (find_session-tail id u ss h e) l)
]

Late-gone :
    (id t : ℕ) (ss : List SessionData)
    → All (λ s. (s.id == id) ≡ true → s.expire_time < t) ss
    → All (λ s. t ≤ s.expire_time) ss
    → has_session id ss ≡ false
unfolding has_session
Late-gone id t [] l a = refl
Late-gone id t (s ∷ ss) l a = ground (arith, Late-gone id t ss l.1 a.1, l.0, a.0)

-- A session that the master finds, whose lease is renewed before it has run out, is still there after a
-- sweep by a clock that shows nothing later than the renewed lease: all of it is as it was, but for the
-- time at which it expires, which is the lease's interval after the renewal.
pub renew_session_lease-lasts :
    (id now : ℕ) (m : Master) (s : SessionData) (clock : ℕ → ℕ)
    → IsValid m
    → get_session id m ≡ some s
    → now ≤ s.expire_time
    → ((n : ℕ) → clock n ≤ now + s.lease_interval)
    → get_session id (remove_expired_sessions clock (renew_session_lease id now m).1)
      ≡ some (record s { expire_time = now + s.lease_interval })
unfolding remove_expired_sessions
renew_session_lease-lasts id now m s clock v e l c =
    let r = (renew_session_lease id now m).1 in
    let t : SessionData = record s { expire_time = now + s.lease_interval } in
    (remove_expired-keeps (Holds id t) clock (λ n x y p. Round-Holds id (clock n) t x y p (c n))
      (heap_size r.session_heap + 1) 0 r (renewed-Holds id now m s v e l)).there

pub remove_expired_sessions-gone :
    (id t : ℕ) (m : Master) (s : SessionData) (clock : ℕ → ℕ)
    → IsValid m
    → get_session id m ≡ some s
    → s.expire_time < t
    → ((n : ℕ) → t ≤ clock n)
    → has_session id (remove_expired_sessions clock m).session_heap ≡ false
unfolding remove_expired_sessions
remove_expired_sessions-gone id t m s clock v e l c =
    Late-gone id t (remove_expired_sessions clock m).session_heap
      (remove_expired-keeps (Late id t) clock
        (λ n x y p o h. (o.popped.parts (λ u. (u.id == id) ≡ true → u.expire_time < t) h).1)
        (heap_size m.session_heap + 1) 0 m
        (found-Late id t m.session_heap s v.different (get_session-find id m s e).1 l))
      (remove_expired_sessions-Alive t clock m c)
