-- ===== src/Hyperspace/Session/Valid.antt =====
-- What holds of the master's sessions and handles, whatever it is called for.
use hypertable.Base.{
  ℕ, ◌+◌, ◌^◌, ◌<◌, ◌≤◌, ◌≡◌, inl, inr, refl, sym, true, false, ◌||◌, Bool-cases, List, [], ◌∷◌,
  ◌++◌, arith, ◌==◌, All,
}
use mathlib.Core.Path.{subst}
use hypertable.Hyperspace.Lock.{member, add, remove}
use hypertable.Hyperspace.Session.{SessionData, HandleData, Master, update_session}
use hypertable.Hyperspace.Session.Handles.{has_session, owned, distinct, has_session-update}

pub record IsValid (m : Master) : Type 0 where
  pub map : All (λ id. has_session id m.session_heap ≡ true) m.session_map
  pub handles : All (λ h. owned h m.session_heap ≡ true) m.handle_map
  pub ids : All (λ s. s.id + 1 ≤ m.next_session_id) m.session_heap
  pub numbers : All (λ h. h.id ≤ m.next_handle_number) m.handle_map
  pub given : All (λ s. All (λ h. h ≤ m.next_handle_number) s.handles) m.session_heap
  pub different : distinct m.session_heap ≡ true

-- The counters do not wrap around in the next `n` calls.
pub record HasRoom (n : ℕ) (m : Master) : Type 0 where
  pub sessions : m.next_session_id + n < 2 ^ 64
  pub handles : m.next_handle_number + n < 2 ^ 64

pub All-snoc :
    (P : SessionData → Type 0) (s : SessionData) (ss : List SessionData)
    → All P ss
    → P s
    → All P (ss ++ (s ∷ []))
All-snoc P s [] a p = (p, tt)
All-snoc P s (t ∷ ss) a p = (a.0, All-snoc P s ss a.1 p)

-- An id that is taken out is not there any more.
pub All-remove :
    (P : ℕ → Type 0) (x : ℕ) (ids : List ℕ)
    → All P ids
    → All (λ id. P id × ((x == id) ≡ false)) (remove x ids)
unfolding remove
All-remove P x [] a = tt
All-remove P x (id ∷ ids) a = elim (Bool-cases (x == id)) [
  | inl e ↦ rw (e, remove) (All-remove P x ids a.1)
  | inr e ↦ rw (e, remove) ((a.0, e), All-remove P x ids a.1)
]

pub has_session-snoc :
    (id : ℕ) (s : SessionData) (ss : List SessionData)
    → has_session id (ss ++ (s ∷ [])) ≡ (has_session id ss || (s.id == id))
unfolding has_session
has_session-snoc id s [] = ground arith
has_session-snoc id s (t ∷ ss) = ground (arith, has_session-snoc id s ss)

pub owned-snoc :
    (h : HandleData) (s : SessionData) (ss : List SessionData)
    → owned h ss ≡ true
    → owned h (ss ++ (s ∷ [])) ≡ true
unfolding owned
owned-snoc h s [] o = cc
owned-snoc h s (t ∷ ss) o = ground (arith, owned-snoc h s ss)

pub distinct-snoc :
    (s : SessionData) (ss : List SessionData)
    → distinct ss ≡ true
    → All (λ t. t.id + 1 ≤ s.id) ss
    → distinct (ss ++ (s ∷ [])) ≡ true
unfolding distinct has_session
distinct-snoc s [] d a = refl
distinct-snoc s (t ∷ ss) d a =
    ground (arith, distinct-snoc s ss (ground arith) a.1, has_session-snoc t.id s ss, a.0)

pub distinct-update :
    (id : ℕ) (f : SessionData → SessionData) (ss : List SessionData)
    → ((s : SessionData) → (f s).id ≡ s.id)
    → distinct (update_session id f ss) ≡ distinct ss
unfolding distinct update_session
distinct-update id f [] e = refl
distinct-update id f (s ∷ ss) e =
    ground (arith, distinct-update id f ss e, has_session-update id s.id f ss e, e s)

pub All-update :
    (P : SessionData → Type 0) (id : ℕ) (f : SessionData → SessionData) (ss : List SessionData)
    → ((s : SessionData) → P s → P (f s))
    → All P ss
    → All P (update_session id f ss)
unfolding update_session
All-update P id f [] k a = tt
All-update P id f (s ∷ ss) k a = elim (Bool-cases (s.id == id)) [
  | inl t ↦ rw (t, update_session) (k s a.0, All-update P id f ss k a.1)
  | inr t ↦ rw (t, update_session) (a.0, All-update P id f ss k a.1)
]

pub ids-update :
    (id n : ℕ) (f : SessionData → SessionData) (ss : List SessionData)
    → ((s : SessionData) → (f s).id ≡ s.id)
    → All (λ s. s.id + 1 ≤ n) ss
    → All (λ s. s.id + 1 ≤ n) (update_session id f ss)
ids-update id n f ss e a =
    All-update (λ s. s.id + 1 ≤ n) id f ss (λ s l. subst (λ x. x + 1 ≤ n) (sym (e s)) l) a

pub All-add : (P : ℕ → Type 0) (x : ℕ) (ys : List ℕ) → P x → All P ys → All P (add x ys)
unfolding add
All-add P x ys p a = elim (Bool-cases (member x ys)) [ inl e ↦ rw e a | inr e ↦ rw e (p, a) ]
