-- ===== src/Hyperspace/Session/Find.antt =====
-- What `find` of the session map comes upon.
use hypertable.Base.{
  ℕ, ◌≡◌, inl, inr, refl, sym, ap, ◌∙◌, true, false, Bool-cases, List, [], ◌∷◌, Option, some, arith,
  ◌==◌, All,
}
use mathlib.Core.Path.{subst}
use mathlib.Core.Option.{some-injective}
use hypertable.Hyperspace.Lock.{member}
use hypertable.Hyperspace.Session.{SessionData, Master, find_session, update_session, get_session}

pub find_session-head :
    (id : ℕ) (t : SessionData) (ss : List SessionData)
    → (t.id == id) ≡ true
    → find_session id (t ∷ ss) ≡ some t
unfolding find_session
find_session-head id t ss h = rw h refl

pub find_session-update :
    (id : ℕ) (f : SessionData → SessionData) (ss : List SessionData) (s : SessionData)
    → ((t : SessionData) → (f t).id ≡ t.id)
    → find_session id ss ≡ some s
    → find_session id (update_session id f ss) ≡ some (f s)
unfolding find_session update_session
find_session-update id f [] s k e = cc
find_session-update id f (t ∷ ss) s k e = elim (Bool-cases (t.id == id)) [
  | inl h ↦
      rw (h, update_session)
        (find_session-head id (f t) (update_session id f ss) (ap (λ x. x == id) (k t) ∙ h)
          ∙ ap (λ x. some (f x)) (some-injective t s (sym (find_session-head id t ss h) ∙ e)))
  | inr h ↦
      rw (h, update_session) (rw (find_session, h) (find_session-update id f ss s k (rw h at e)))
]

-- Two sessions found by one id are one.
pub same_expiry :
    (id : ℕ) (ss : List SessionData) (p s : SessionData)
    → (p.id == id) ≡ true
    → find_session p.id ss ≡ some p
    → find_session id ss ≡ some s
    → p.expire_time ≡ s.expire_time
same_expiry id ss p s e f g =
    let same : p.id ≡ id = ground arith in
    let q = sym (subst (λ x. find_session x ss ≡ some p) same f) ∙ g in
    ap (λ x. x.expire_time) (some-injective p s q)

pub get_session-find :
    (id : ℕ) (m : Master) (s : SessionData)
    → get_session id m ≡ some s
    → (member id m.session_map ≡ true) × (find_session id m.session_heap ≡ some s)
unfolding get_session
get_session-find id m s e = ground arith

pub find_session-tail :
    (id : ℕ) (t : SessionData) (ss : List SessionData) {o : Option SessionData}
    → (t.id == id) ≡ false
    → find_session id (t ∷ ss) ≡ o
    → find_session id ss ≡ o
unfolding find_session
find_session-tail id t ss h e = rw h at e

pub get_session-found :
    (id : ℕ) (m : Master) (ss : List SessionData) (s : SessionData)
    → member id m.session_map ≡ true
    → find_session id ss ≡ some s
    → get_session id (record m { session_heap = ss }) ≡ some s
unfolding get_session
get_session-found id m ss s h e = rw h e

pub find_session-All :
    (P : SessionData → Type 0) (id : ℕ) (ss : List SessionData) (s : SessionData)
    → All P ss
    → find_session id ss ≡ some s
    → P s
unfolding find_session
find_session-All P id [] s a e = cc
find_session-All P id (t ∷ ss) s a e = elim (Bool-cases (t.id == id)) [
  | inl h ↦ subst P (some-injective t s (rw h at e)) a.0
  | inr h ↦ find_session-All P id ss s a.1 (rw h at e)
]
