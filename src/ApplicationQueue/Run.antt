-- ===== src/ApplicationQueue/Run.antt =====
-- Whatever clients and workers do, in whatever order.
use hypertable.Base.{
  ℕ, ◌+◌, ◌-◌, ◌<◌, ◌≤◌, ◌≡◌, ◌≢◌, inl, inr, refl, sym, ap, ◌∙◌, Bool-cases, Option-cases, true,
  false, List, [], ◌∷◌, ◌++◌, append_assoc, Option, none, some, arith, ◌==◌, if◌then◌else◌,
}
use hypertable.ApplicationQueue.{
  UsageRec, WorkRec, ApplicationQueue, Workers, Event, counts, puts, looks, ends, new_workers,
  find_usage, count_request, is_ready, mark_running, take_next, release_usage, finish, add_usage,
  push_request, pick, step, run,
}
use hypertable.ApplicationQueue.Usage.{
  find_usage_cases, find_usage-write_usage, find_usage-erase_usage,
}
use hypertable.ApplicationQueue.Scan.{
  of_group, count, of_group-append, count-append, count-pick, IsFound, scan_cases,
}

-- The usage record of a group that has `waiting` requests on their way to the queue or in it, and `held` in hand: there is one
-- exactly if there is a request, it counts them all, and it is running exactly if one is in hand.
unfoldable pub Agrees : Option UsageRec → ℕ → ℕ → Type 0
Agrees none waiting held = (waiting ≡ 0) × (held ≡ 0)
Agrees (some u) waiting held =
    (u.outstanding ≡ waiting + held) × (0 < waiting + held) × (held ≡ (if u.running then 1 else 0))

-- Every group's usage record agrees with its requests, and the group's requests were started in the
-- order in which they were put into the queue.
pub record IsValid (w : Workers) : Type 0 where
  pub agrees :
      (g : ℕ)
      → 0 < g
      → Agrees
          (find_usage g w.state.usage_map)
          (count g w.counted + count g w.state.queue)
          (count g w.in_hand)
  pub in_order :
      (g : ℕ) → 0 < g → of_group g w.started ++ of_group g w.state.queue ≡ of_group g w.added

pub new_workers-IsValid : IsValid new_workers
unfolding Agrees find_usage count of_group
new_workers-IsValid = record { agrees = λ g pos. (refl, refl); in_order = λ g pos. refl }

count_request-Agrees :
    (g h waiting held : ℕ) (us : List UsageRec)
    → Agrees (find_usage g us) waiting held
    → Agrees (find_usage g (count_request h us)) ((if h == g then 1 else 0) + waiting) held
unfolding Agrees count_request find_usage
count_request-Agrees g h waiting held us a = elim (find_usage_cases h us) [
  | inl e ↦ ground arith
  | inr (u, e, group) ↦
      ground (arith, find_usage-write_usage g (record u { outstanding = u.outstanding + 1 }) us)
]

mark_running-Agrees :
    (g waiting held : ℕ) (r : WorkRec) (us : List UsageRec)
    → 0 < g
    → is_ready us r ≡ some true
    → Agrees (find_usage g us) ((if r.usage == g then 1 else 0) + waiting) held
    → Agrees (find_usage g (mark_running r us)) waiting ((if r.usage == g then 1 else 0) + held)
unfolding Agrees is_ready mark_running
mark_running-Agrees g waiting held r us pos ready a = elim (find_usage_cases r.usage us) [
  | inl e ↦ ground arith
  | inr (u, e, group) ↦ ground (arith, find_usage-write_usage g (record u { running = true }) us)
]

release_usage-Agrees :
    (g waiting held : ℕ) (u : UsageRec) (us : List UsageRec)
    → find_usage u.thread_group us ≡ some u
    → Agrees (find_usage g us) waiting ((if u.thread_group == g then 1 else 0) + held)
    → Agrees (find_usage g (release_usage u us)) waiting held
unfolding Agrees release_usage
release_usage-Agrees g waiting held u us e a = ground (
  arith,
  find_usage-erase_usage g u.thread_group us,
  find_usage-write_usage g (record u { running = false; outstanding = u.outstanding - 1 }) us,
)

adds-in_order :
    (g : ℕ) (r : WorkRec) (started queue added : List WorkRec)
    → of_group g started ++ of_group g queue ≡ of_group g added
    → of_group g started ++ of_group g (queue ++ (r ∷ [])) ≡ of_group g (added ++ (r ∷ []))
adds-in_order g r started queue added h =
    rw (of_group-append g queue (r ∷ []), of_group-append g added (r ∷ []), sym h)
      (sym (append_assoc (of_group g started) (of_group g queue) (of_group g (r ∷ []))))

looks-in_order :
    (g : ℕ) (r : WorkRec) (started queue rest added : List WorkRec)
    → of_group g queue ≡ (if r.usage == g then r ∷ of_group g rest else of_group g rest)
    → of_group g started ++ of_group g queue ≡ of_group g added
    → of_group g (started ++ (r ∷ [])) ++ of_group g rest ≡ of_group g added
unfolding of_group
looks-in_order g r started queue rest added found h =
    let first : of_group g (r ∷ []) ++ of_group g rest ≡ of_group g queue = ground (arith, found) in
    rw
      (
        of_group-append g started (r ∷ []),
        append_assoc (of_group g started) (of_group g (r ∷ [])) (of_group g rest),
        first,
      )
      h

no_dangling :
    (w : Workers)
    → IsValid w
    → (g : ℕ) → 0 < g
    → 0 < count g w.state.queue
    → find_usage g w.state.usage_map ≢ none
unfolding Agrees
no_dangling w v g pos c e = ground (arith, v.agrees g pos)

counts-IsValid :
    (handler h : ℕ) (w : Workers)
    → IsValid w
    → (w' : Workers) × (step (counts handler h) w ≡ some w') × IsValid w'
unfolding step add_usage count Agrees
counts-IsValid handler h w v = (
  _,
  refl,
  record {
    agrees = λ g pos. ground (
      arith,
      v.agrees g pos,
      count_request-Agrees g h (count g w.counted + count g w.state.queue) (count g w.in_hand)
          w.state.usage_map,
    );
    in_order = v.in_order;
  },
)

puts-IsValid :
    (n : ℕ) (w : Workers) → IsValid w → (w' : Workers) × (step (puts n) w ≡ some w') × IsValid w'
unfolding step push_request count
puts-IsValid n w v = elim (Option-cases (pick n w.counted)) [
  | inl e ↦ (w, rw (e, step) refl, v)
  | inr ((r, rest), e) ↦ (
    record w {
      state = record w.state { queue = w.state.queue ++ (r ∷ []) };
      counted = rest;
      added = w.added ++ (r ∷ []);
    },
    rw (e, step) refl,
    record {
      agrees = λ g pos.
          let same : count g rest + count g (w.state.queue ++ (r ∷ []))
              ≡ count g w.counted + count g w.state.queue =
            ground (arith, count-pick g n w.counted, e, count-append g w.state.queue (r ∷ [])) in
          rw same (v.agrees g pos);
      in_order = λ g pos. adds-in_order g r w.started w.state.queue w.added (v.in_order g pos);
    },
  )
]

-- A worker has taken the request, and `rest` is left.
abbrev begun : WorkRec → List WorkRec → Workers → Workers
begun r rest w = record w {
  state = record { queue = rest; usage_map = mark_running r w.state.usage_map };
  in_hand = r ∷ w.in_hand;
  started = w.started ++ (r ∷ []);
}

looks-IsValid : (w : Workers) → IsValid w → (w' : Workers) × (step looks w ≡ some w') × IsValid w'
unfolding step take_next IsFound count
looks-IsValid w v = elim (scan_cases w.state.usage_map w.state.queue (no_dangling w v)) [
  | inl (q, busy) ↦ (w, rw (q, step, take_next) refl, v)
  | inr (r, rest, q, (ready, tally, groups)) ↦ (
    begun r rest w,
    rw (q, step, take_next) refl,
    record {
      agrees = λ g pos.
          mark_running-Agrees g (count g w.counted + count g rest) (count g w.in_hand) r
            w.state.usage_map pos ready (ground (arith, v.agrees g pos, tally g));
      in_order = λ g pos.
          looks-in_order g r w.started w.state.queue rest w.added (groups g pos) (v.in_order g pos);
    },
  )
]

-- A request that is in hand can be finished.
finish-Agrees :
    (r : WorkRec) (s : ApplicationQueue) (waiting held : ℕ → ℕ)
    → ((g : ℕ)
        → 0 < g
        → Agrees (find_usage g s.usage_map) (waiting g) ((if r.usage == g then 1 else 0) + held g))
    → (s' : ApplicationQueue) × (finish r s ≡ some s')
      × (s'.queue ≡ s.queue)
      × ((g : ℕ) → 0 < g → Agrees (find_usage g s'.usage_map) (waiting g) (held g))
unfolding Agrees finish
finish-Agrees r s waiting held h = elim (Bool-cases (r.usage == 0)) [
  | inl e ↦ (s, rw e refl, refl, λ g pos. ground (arith, h g pos))
  | inr e ↦ elim (find_usage_cases r.usage s.usage_map) [
    | inl q ↦ ground (arith, h r.usage (ground arith))
    | inr (u, q, group) ↦ (
      _,
      rw (e, q) refl,
      refl,
      λ g pos.
          release_usage-Agrees g (waiting g) (held g) u s.usage_map
            (ap (λ x. find_usage x s.usage_map) group ∙ q) (rw group (h g pos)),
    )
  ]
]

ends-IsValid :
    (n : ℕ) (w : Workers) → IsValid w → (w' : Workers) × (step (ends n) w ≡ some w') × IsValid w'
unfolding step
ends-IsValid n w v = elim (Option-cases (pick n w.in_hand)) [
  | inl e ↦ (w, rw (e, step) refl, v)
  | inr ((r, rest), e) ↦
      let tally : (g : ℕ) → count g w.in_hand ≡ (if r.usage == g then 1 else 0) + count g rest =
        λ g. ground (arith, count-pick g n w.in_hand, e) in
      let (s', q, same, agrees) =
        finish-Agrees r w.state (λ g. count g w.counted + count g w.state.queue) (λ g. count g rest)
          (λ g pos. rw (sym (tally g)) (v.agrees g pos)) in
      (
        record w { state = s'; in_hand = rest },
        rw (e, q, step) refl,
        record {
          agrees = λ g pos. rw same (agrees g pos);
          in_order = λ g pos. rw same (v.in_order g pos);
        },
      )
]

-- In any state, any event.
step-IsValid :
    (e : Event) (w : Workers) → IsValid w → (w' : Workers) × (step e w ≡ some w') × IsValid w'
step-IsValid (counts handler h) w v = counts-IsValid handler h w v
step-IsValid (puts n) w v = puts-IsValid n w v
step-IsValid looks w v = looks-IsValid w v
step-IsValid (ends n) w v = ends-IsValid n w v

-- From a state in which the usage record of each thread group agrees with its requests, no order in which
-- clients count requests and put them into the queue, and workers look for them and end them, reads a
-- usage record that was deleted, and the records still agree behind it: there is one exactly if there is a request of the group
-- counted, in the queue or in hand, it counts those, and it is running exactly if one is in hand. The requests of each
-- group have been started in the order in which they were put into the queue.
pub run-IsValid :
    (es : List Event) (w : Workers) → IsValid w → (w' : Workers) × (run es w ≡ some w') × IsValid w'
unfolding run
run-IsValid [] w v = (w, refl, v)
run-IsValid (e ∷ es) w v =
    let (w1, q, v1) = step-IsValid e w v in
    let (w2, q2, v2) = run-IsValid es w1 v1 in (w2, rw (q, run) q2, v2)

-- From the empty queue, in whatever order clients count requests and put them into the queue, and workers
-- look for them and end them, at most one request of a thread group is in hand, and its requests are started in
-- the order in which they were put into the queue.
pub run-one_at_a_time :
    (es : List Event) (w : Workers) (g : ℕ)
    → 0 < g
    → run es new_workers ≡ some w
    → (count g w.in_hand ≤ 1)
      × (of_group g w.started ++ of_group g w.state.queue ≡ of_group g w.added)
unfolding Agrees
run-one_at_a_time es w g pos h =
    let (w', q, v) = run-IsValid es new_workers new_workers-IsValid in
    ground (arith, v.agrees g pos, v.in_order g pos)

-- In a state as clients and workers reach, if the queue holds a request of a thread group of which none
-- is in hand, then a worker that looks for a request starts one.
pub step-starts_one :
    (w : Workers) (r : WorkRec)
    → IsValid w
    → count r.usage w.in_hand ≡ 0
    → 0 < count r.usage w.state.queue
    → (x : WorkRec) × (w' : Workers) × (step looks w ≡ some w')
      × (w'.started ≡ w.started ++ (x ∷ []))
      × (w'.in_hand ≡ x ∷ w.in_hand)
unfolding step take_next Agrees is_ready
step-starts_one w r v free waits =
    elim (scan_cases w.state.usage_map w.state.queue (no_dangling w v)) [
      | inl (q, busy) ↦
          let ready : is_ready w.state.usage_map r ≡ some true = elim (Bool-cases (r.usage == 0)) [
            | inl e ↦ ground arith
            | inr e ↦ ground (arith, v.agrees r.usage (ground arith))
          ] in
          ground (arith, busy r ready)
      | inr (x, rest, q, _) ↦ (x, begun x rest w, rw (q, step, take_next) refl, refl, refl)
    ]
