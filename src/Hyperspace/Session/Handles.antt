-- ===== src/Hyperspace/Session/Handles.antt =====
-- Which handles the sessions of the heap have, and what the updates of the heap keep of that.
use hypertable.Base.{
  ℕ, ◌≡◌, inl, inr, refl, sym, ap, ◌∙◌, Bool, true, false, ◌&&◌, ◌||◌, not, Bool-cases,
  Option-cases, List, [], ◌∷◌, none, some, arith, ◌==◌, if◌then◌else◌, All,
}
use hypertable.Hyperspace.Lock.{member, add, remove}
use hypertable.Hyperspace.Session.{
  SessionData, HandleData, Master, update_session, find_session, erase_handle, get_handle_data,
  destroy_handle, destroy_handles,
}

-- A session of the heap has the id.
unfoldable pub has_session : ℕ → List SessionData → Bool
has_session id [] = false
has_session id (s ∷ ss) = (s.id == id) || has_session id ss

-- The handle is among those of its session, which is in the heap.
unfoldable pub owned : HandleData → List SessionData → Bool
owned h [] = false
owned h (s ∷ ss) = ((s.id == h.session) && member h.id s.handles) || owned h ss

-- No two sessions of the heap have one id.
unfoldable pub distinct : List SessionData → Bool
distinct [] = true
distinct (s ∷ ss) = not (has_session s.id ss) && distinct ss

pub member-add_self : (x : ℕ) (ys : List ℕ) → member x (add x ys) ≡ true
unfolding add member
member-add_self x ys = elim (Bool-cases (member x ys)) [
  | inl h ↦ rw (h, h) refl
  | inr h ↦ rw h (ground arith)
]

pub member-add : (x y : ℕ) (ys : List ℕ) → member x ys ≡ true → member x (add y ys) ≡ true
unfolding add member
member-add x y ys h = ground (arith, h)

pub member-remove :
    (x y : ℕ) (ys : List ℕ) → (x == y) ≡ false → member x (remove y ys) ≡ member x ys
unfolding member remove
member-remove x y [] h = refl
member-remove x y (z ∷ ys) h = ground (arith, member-remove x y ys h)

pub has_session-update :
    (id k : ℕ) (f : SessionData → SessionData) (ss : List SessionData)
    → ((s : SessionData) → (f s).id ≡ s.id)
    → has_session k (update_session id f ss) ≡ has_session k ss
unfolding has_session update_session
has_session-update id k f [] e = refl
has_session-update id k f (s ∷ ss) e = ground (arith, has_session-update id k f ss e, e s)

-- An update that keeps the handle.
pub owned-update :
    (h : HandleData) (id : ℕ) (f : SessionData → SessionData) (ss : List SessionData)
    → ((s : SessionData) → (f s).id ≡ s.id)
    → ((s : SessionData) → member h.id s.handles ≡ true → member h.id (f s).handles ≡ true)
    → owned h ss ≡ true
    → owned h (update_session id f ss) ≡ true
unfolding owned update_session
owned-update h id f [] e k o = o
owned-update h id f (s ∷ ss) e k o = ground (arith, owned-update h id f ss e k, e s, k s)

-- An update that adds it.
pub owned-new :
    (h : HandleData) (f : SessionData → SessionData) (ss : List SessionData)
    → ((s : SessionData) → (f s).id ≡ s.id)
    → ((s : SessionData) → member h.id (f s).handles ≡ true)
    → has_session h.session ss ≡ true
    → owned h (update_session h.session f ss) ≡ true
unfolding owned update_session has_session
owned-new h f [] e k o = o
owned-new h f (s ∷ ss) e k o = ground (arith, owned-new h f ss e k, e s, k s)

pub has_session-find :
    (id : ℕ) (ss : List SessionData) (s : SessionData)
    → find_session id ss ≡ some s
    → has_session id ss ≡ true
unfolding find_session has_session
has_session-find id [] s e = cc
has_session-find id (t ∷ ss) s e = ground (arith, has_session-find id ss s)

-- Behind an erased handle there are the others.
pub All-erase :
    (P : HandleData → Type 0) (x : ℕ) (hs : List HandleData)
    → All P hs
    → All (λ h. P h × ((h.id == x) ≡ false)) (erase_handle x hs)
unfolding erase_handle
All-erase P x [] a = tt
All-erase P x (h ∷ hs) a = elim (Bool-cases (h.id == x)) [
  | inl e ↦ rw e (All-erase P x hs a.1)
  | inr e ↦ rw e ((a.0, e), All-erase P x hs a.1)
]

erase-none : (x : ℕ) (hs : List HandleData) → get_handle_data x hs ≡ none → erase_handle x hs ≡ hs
unfolding get_handle_data erase_handle
erase-none x [] e = refl
erase-none x (h ∷ hs) e = elim (Bool-cases (h.id == x)) [
  | inl t ↦ absurd (ground (arith, rw t at e))
  | inr t ↦ rw t (ap (λ r. h ∷ r) (erase-none x hs (rw t at e)))
]

-- What a destroyed handle, and those of a list, leave of the master.
pub record Left (handle_map : List HandleData) (m : Master) (r : Master) : Type 0 where
  pub handles : r.handle_map ≡ handle_map
  pub heap : r.session_heap ≡ m.session_heap
  pub map : r.session_map ≡ m.session_map
  pub next_id : r.next_session_id ≡ m.next_session_id
  pub next_number : r.next_handle_number ≡ m.next_handle_number

pub destroy_handle-Left :
    (x : ℕ) (m : Master) → Left (erase_handle x m.handle_map) m (destroy_handle x m).1
unfolding destroy_handle
destroy_handle-Left x m = elim (Option-cases (get_handle_data x m.handle_map)) [
  | inl e ↦
      rw (e, destroy_handle)
        (record {
          handles = sym (erase-none x m.handle_map e);
          heap = refl;
          map = refl;
          next_id = refl;
          next_number = refl;
        })
  | inr (h, e) ↦
      rw (e, destroy_handle)
        (record { handles = refl; heap = refl; map = refl; next_id = refl; next_number = refl })
]

unfoldable pub erase_handles : List ℕ → List HandleData → List HandleData
erase_handles [] hs = hs
erase_handles (x ∷ xs) hs = erase_handles xs (erase_handle x hs)

pub destroy_handles-Left :
    (xs : List ℕ) (m : Master) → Left (erase_handles xs m.handle_map) m (destroy_handles xs m)
unfolding destroy_handles erase_handles
destroy_handles-Left [] m = record {
  handles = refl;
  heap = refl;
  map = refl;
  next_id = refl;
  next_number = refl;
}
destroy_handles-Left (x ∷ xs) m =
    let one = destroy_handle-Left x m in
    let rest = destroy_handles-Left xs (destroy_handle x m).1 in
    record {
      handles = rest.handles ∙ ap (erase_handles xs) one.handles;
      heap = rest.heap ∙ one.heap;
      map = rest.map ∙ one.map;
      next_id = rest.next_id ∙ one.next_id;
      next_number = rest.next_number ∙ one.next_number;
    }

pub All-map {ℓ} :
    {A : Type ℓ} (P Q : A → Type 0) → ((x : A) → P x → Q x) → (xs : List A) → All P xs → All Q xs
All-map P Q f [] a = tt
All-map P Q f (x ∷ xs) a = (f x a.0, All-map P Q f xs a.1)

pub All-erase_handles :
    (P : HandleData → Type 0) (xs : List ℕ) (hs : List HandleData)
    → All P hs
    → All (λ h. P h × (member h.id xs ≡ false)) (erase_handles xs hs)
unfolding erase_handles member
All-erase_handles P [] hs a = All-map P (λ h. P h × (false ≡ false)) (λ h p. (p, refl)) hs a
All-erase_handles P (x ∷ xs) hs a =
    All-map (λ h. (P h × ((h.id == x) ≡ false)) × (member h.id xs ≡ false))
      (λ h. P h × ((if h.id == x then true else member h.id xs) ≡ false))
      (λ h p. (p.0.0, rw p.0.1 p.1)) (erase_handles xs (erase_handle x hs))
      (All-erase_handles (λ h. P h × ((h.id == x) ≡ false)) xs (erase_handle x hs)
        (All-erase P x hs a))
