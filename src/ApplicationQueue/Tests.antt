-- ===== src/ApplicationQueue/Tests.antt =====
-- Two workers and the requests of two thread groups.
use hypertable.Base.{ℕ, ◌≤◌, ◌≡◌, refl, true, false, List, [], ◌∷◌, ◌++◌, some, arith}
use hypertable.ApplicationQueue.{
  WorkRec, Workers, Event, counts, puts, looks, new_workers, find_usage, write_usage, count_request,
  is_ready, scan, mark_running, take_next, add_usage, push_request, pick, step, run,
}
use hypertable.ApplicationQueue.Scan.{of_group, count}
use hypertable.ApplicationQueue.Run.{
  IsValid, Agrees, new_workers-IsValid, run-IsValid, run-one_at_a_time, step-starts_one,
}

abbrev request : ℕ → ℕ → WorkRec
request handler group = record { handler = handler; usage = group }

abbrev three_requests : List Event
three_requests =
    counts 1 7 ∷ counts 2 7 ∷ puts 1 ∷ counts 3 8 ∷ puts 1 ∷ looks ∷ puts 0 ∷ looks ∷ []

-- The second request of group 7 waits, though it came before that of group 8.
abbrev two_busy : Workers
two_busy = record {
  state = record {
    queue = request 2 7 ∷ [];
    usage_map =
        record { thread_group = 8; running = true; outstanding = 1 }
        ∷ record { thread_group = 7; running = true; outstanding = 2 }
        ∷ [];
  };
  counted = [];
  in_hand = request 3 8 ∷ request 1 7 ∷ [];
  added = request 1 7 ∷ request 2 7 ∷ request 3 8 ∷ [];
  started = request 1 7 ∷ request 3 8 ∷ [];
}

run_three : run three_requests new_workers ≡ some two_busy
unfolding run step add_usage push_request pick count_request find_usage write_usage take_next scan
    is_ready mark_running
run_three = refl

run-IsValid_example : (w : Workers) × (run three_requests new_workers ≡ some w) × IsValid w
run-IsValid_example = run-IsValid three_requests new_workers new_workers-IsValid

run-one_at_a_time_example :
    (count 7 two_busy.in_hand ≤ 1)
    × (of_group 7 two_busy.started ++ of_group 7 two_busy.state.queue ≡ of_group 7 two_busy.added)
run-one_at_a_time_example = run-one_at_a_time three_requests two_busy 7 (omega arith) run_three

abbrev one_waits : Workers
one_waits = record {
  state = record {
    queue = request 1 7 ∷ [];
    usage_map = record { thread_group = 7; running = false; outstanding = 1 } ∷ [];
  };
  counted = [];
  in_hand = [];
  added = request 1 7 ∷ [];
  started = [];
}

one_waits-IsValid : IsValid one_waits
unfolding Agrees find_usage count of_group
one_waits-IsValid = record { agrees = λ g pos. ground arith; in_order = λ g pos. refl }

step-starts_one_example :
    (x : WorkRec) × (w' : Workers) × (step looks one_waits ≡ some w')
    × (w'.started ≡ [] ++ (x ∷ []))
    × (w'.in_hand ≡ x ∷ [])
step-starts_one_example =
    step-starts_one one_waits (request 1 7) one_waits-IsValid (unfold count in refl)
      (unfold count in omega arith)
