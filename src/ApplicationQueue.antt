-- ===== src/ApplicationQueue.antt =====
-- src/cc/AsyncComm/ApplicationQueue.h: requests that workers carry out, those of one thread group in
-- turn.
-- A `UsageRec *` is the thread group of the record, and 0 is the null pointer; `none` is a read
-- through a pointer to a record that has been deleted. The wait for a request and the shutdown are
-- left out: a worker that finds nothing takes nothing.
pub mod Usage
pub mod Scan
pub mod Run
mod Tests
use hypertable.Base.{
  ℕ, ◌+◌, ◌-◌, Bool, true, false, not, List, [], ◌∷◌, ◌++◌, Option, none, some, ◌==◌, if◌then◌else◌,
}

-- `outstanding` counts requests that are in memory, so that the `int` does not overflow.
pub record UsageRec : Type 0 where
  pub thread_group : ℕ
  pub running : Bool
  pub outstanding : ℕ

pub record WorkRec : Type 0 where
  pub handler : ℕ
  pub usage : ℕ

pub record ApplicationQueue : Type 0 where
  pub queue : List WorkRec
  pub usage_map : List UsageRec

abbrev pub empty_queue : ApplicationQueue
empty_queue = record { queue = []; usage_map = [] }

-- `m_state.usage_map`: `find`, a write through the pointer that it holds, and `erase`.
unfoldable pub find_usage : ℕ → List UsageRec → Option UsageRec
find_usage g [] = none
find_usage g (u ∷ us) = if u.thread_group == g then some u else find_usage g us

unfoldable pub write_usage : UsageRec → List UsageRec → List UsageRec
write_usage u [] = []
write_usage u (v ∷ vs) =
    let rest = write_usage u vs in if v.thread_group == u.thread_group then u ∷ rest else v ∷ rest

unfoldable pub erase_usage : ℕ → List UsageRec → List UsageRec
erase_usage g [] = []
erase_usage g (v ∷ vs) =
    let rest = erase_usage g vs in if v.thread_group == g then rest else v ∷ rest

-- The usage record for one more request of the group.
unfoldable pub count_request : ℕ → List UsageRec → List UsageRec
count_request g us = elim (find_usage g us) [
  | none ↦ record { thread_group = g; running = false; outstanding = 1 } ∷ us
  | some u ↦ write_usage (record u { outstanding = u.outstanding + 1 }) us
]

-- The first part of `add`, under `usage_mutex` if the group is not 0: the request with its usage record.
unfoldable pub add_usage : ℕ → ℕ → ApplicationQueue → WorkRec × ApplicationQueue
add_usage handler thread_group s = (
  record { handler = handler; usage = thread_group },
  record s {
    usage_map = if thread_group == 0 then s.usage_map else count_request thread_group s.usage_map;
  },
)

-- The second part, under `queue_mutex`.
unfoldable pub push_request : WorkRec → ApplicationQueue → ApplicationQueue
push_request r s = record s { queue = s.queue ++ (r ∷ []) }

-- `rec->usage == 0 || !rec->usage->running`.
unfoldable pub is_ready : List UsageRec → WorkRec → Option Bool
is_ready us r =
    if r.usage == 0
    then some true
    else elim (find_usage r.usage us) [ none ↦ none | some u ↦ some (not u.running) ]

-- The loop over the queue: the first request that is ready, and the queue without it.
unfoldable pub scan : List UsageRec → List WorkRec → Option (Option (WorkRec × List WorkRec))
scan us [] = some none
scan us (r ∷ rs) =
    let rest = scan us rs in
    elim (is_ready us r) [
      | none ↦ none
      | some true ↦ some (some (r, rs))
      | some false ↦ elim rest [
        | none ↦ none
        | some none ↦ some none
        | some (some (x, ys)) ↦ some (some (x, r ∷ ys))
      ]
    ]

-- `rec->usage->running = true`.
unfoldable pub mark_running : WorkRec → List UsageRec → List UsageRec
mark_running r us = if r.usage == 0 then us else elim (find_usage r.usage us) [
  | none ↦ us
  | some u ↦ write_usage (record u { running = true }) us
]

-- What a worker does under the mutexes: the request that it goes on to run, if there is one.
unfoldable pub take_next : ApplicationQueue → Option (Option WorkRec × ApplicationQueue)
take_next s = elim (scan s.usage_map s.queue) [
  | none ↦ none
  | some none ↦ some (none, s)
  | some (some (r, rest)) ↦
      some (some r, record { queue = rest; usage_map = mark_running r s.usage_map })
]

-- The usage record when a request of it has been run.
unfoldable pub release_usage : UsageRec → List UsageRec → List UsageRec
release_usage u us =
    if u.outstanding - 1 == 0
    then erase_usage u.thread_group us
    else write_usage (record u { running = false; outstanding = u.outstanding - 1 }) us

-- What a worker does behind `rec->handler->run()`.
unfoldable pub finish : WorkRec → ApplicationQueue → Option ApplicationQueue
finish r s = if r.usage == 0 then some s else elim (find_usage r.usage s.usage_map) [
  | none ↦ none
  | some u ↦ some (record s { usage_map = release_usage u s.usage_map })
]

-- The queue, its clients and its workers: the requests that clients have counted and not yet put into
-- the queue, and those that workers have in hand, the latest first; and all that were put into the queue
-- and started so far, in order.
pub record Workers : Type 0 where
  pub state : ApplicationQueue
  pub counted : List WorkRec
  pub in_hand : List WorkRec
  pub added : List WorkRec
  pub started : List WorkRec

abbrev pub new_workers : Workers
new_workers = record { state = empty_queue; counted = []; in_hand = []; added = []; started = [] }

-- A client in `add` counts a request; a client puts the `n`-th of those counted into the queue; a worker
-- looks for a request; a worker is done with the `n`-th in hand.
pub data Event : Type 0 where
  counts : ℕ → ℕ → Event
  puts : ℕ → Event
  looks : Event
  ends : ℕ → Event

unfoldable pub pick : ℕ → List WorkRec → Option (WorkRec × List WorkRec)
pick n [] = none
pick n (r ∷ rs) =
    let rest = pick (n - 1) rs in
    if n == 0 then some (r, rs) else elim rest [ none ↦ none | some (x, ys) ↦ some (x, r ∷ ys) ]

unfoldable pub step : Event → Workers → Option Workers
step (counts handler thread_group) w =
    let (r, s) = add_usage handler thread_group w.state in
    some (record w { state = s; counted = r ∷ w.counted })
step (puts n) w = elim (pick n w.counted) [
  | none ↦ some w
  | some (r, rest) ↦
      some
        (record w { state = push_request r w.state; counted = rest; added = w.added ++ (r ∷ []) })
]
step looks w = elim (take_next w.state) [
  | none ↦ none
  | some (none, s) ↦ some (record w { state = s })
  | some (some r, s) ↦
      some (record w { state = s; in_hand = r ∷ w.in_hand; started = w.started ++ (r ∷ []) })
]
step (ends n) w = elim (pick n w.in_hand) [
  | none ↦ some w
  | some (r, rest) ↦ elim (finish r w.state) [
    | none ↦ none
    | some s ↦ some (record w { state = s; in_hand = rest })
  ]
]

unfoldable pub run : List Event → Workers → Option Workers
run [] w = some w
run (e ∷ es) w = elim (step e w) [ none ↦ none | some w' ↦ run es w' ]
