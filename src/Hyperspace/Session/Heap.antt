-- ===== src/Hyperspace/Session/Heap.antt =====
-- What the top of the heap is, and what is left when it is taken.
use hypertable.Base.{
  ℕ, ◌+◌, ◌≤◌, ◌≡◌, inl, inr, refl, true, false, ◌&&◌, ◌||◌, not, Bool-cases, List, [], ◌∷◌, Option,
  none, some, arith, ltb, ◌==◌, if◌then◌else◌, All,
}
use hypertable.Hyperspace.Lock.{member}
use hypertable.Hyperspace.Session.{SessionData, HandleData, find_session, pop_heap, heap_size}
use hypertable.Hyperspace.Session.Handles.{has_session, owned, distinct}

-- What is taken off the heap, and what stays.
pub record Popped (ss : List SessionData) (s : SessionData) (rest : List SessionData) : Type 1 where
  pub size : heap_size ss ≡ heap_size rest + 1
  pub least : All (λ t. s.expire_time ≤ t.expire_time) rest
  pub whole : (P : SessionData → Type 0) → P s → All P rest → All P ss
  pub parts : (P : SessionData → Type 0) → All P ss → P s × All P rest
  pub has : (id : ℕ) → has_session id ss ≡ ((s.id == id) || has_session id rest)
  pub owns :
      (h : HandleData)
      → owned h ss ≡ (((s.id == h.session) && member h.id s.handles) || owned h rest)
  pub others : distinct ss ≡ (not (has_session s.id rest) && distinct rest)
  pub finds : (id : ℕ) → (s.id == id) ≡ false → find_session id ss ≡ find_session id rest
  pub found : distinct ss ≡ true → find_session s.id ss ≡ some s

pub record Nothing (ss : List SessionData) : Type 1 where
  pub empty : ss ≡ []

-- The heap is empty, or has a top.
abbrev pub Pops : List SessionData → Option (SessionData × List SessionData) → Type 1
Pops ss none = Nothing ss
Pops ss (some (s, rest)) = Popped ss s rest

All-later :
    (a b : ℕ) (ss : List SessionData)
    → a ≤ b
    → All (λ t. b ≤ t.expire_time) ss
    → All (λ t. a ≤ t.expire_time) ss
All-later a b [] l h = tt
All-later a b (s ∷ ss) l h = (omega (arith, l, h.0), All-later a b ss l h.1)

Pops-step :
    (s : SessionData) (ss : List SessionData) (o : Option (SessionData × List SessionData))
    → Pops ss o
    → Pops (s ∷ ss) (elim o [
      | none ↦ some (s, [])
      | some (t, rest) ↦
          if ltb t.expire_time s.expire_time then some (t, s ∷ rest) else some (s, ss)
    ])
unfolding has_session owned heap_size distinct find_session
Pops-step s ss none p = rw p.empty (record {
  size = omega arith;
  least = tt;
  whole = λ P h a. (h, tt);
  parts = λ P a. a;
  has = λ id. refl;
  owns = λ h. refl;
  others = refl;
  finds = λ id e. rw e refl;
  found = λ d. ground arith;
})
Pops-step s ss (some (t, rest)) p = elim (Bool-cases (ltb t.expire_time s.expire_time)) [
  | inl l ↦ rw l (record {
    size = omega (arith, p.size);
    least = (ground arith, p.least);
    whole = λ P h a. (a.0, p.whole P h a.1);
    parts = λ P a. ((p.parts P a.1).0, (a.0, (p.parts P a.1).1));
    has = λ id. ground (arith, p.has id);
    owns = λ h. ground (arith, p.owns h);
    others = ground (arith, p.others, p.has s.id);
    finds = λ id e. ground (arith, p.finds id e);
    found = λ d. ground (arith, p.found, p.has s.id);
  })
  | inr l ↦ rw l (record {
    size = refl;
    least =
        p.whole (λ u. s.expire_time ≤ u.expire_time) (ground arith)
          (All-later s.expire_time t.expire_time rest (ground arith) p.least);
    whole = λ P h a. (h, a);
    parts = λ P a. a;
    has = λ id. refl;
    owns = λ h. refl;
    others = refl;
    finds = λ id e. rw e refl;
    found = λ d. ground arith;
  })
]

pub pop_heap-Pops : (ss : List SessionData) → Pops ss (pop_heap ss)
unfolding pop_heap
pop_heap-Pops [] = record { empty = refl }
pop_heap-Pops (s ∷ ss) = Pops-step s ss (pop_heap ss) (pop_heap-Pops ss)
