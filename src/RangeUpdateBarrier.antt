-- ===== src/RangeUpdateBarrier.antt =====
-- src/cc/Hypertable/RangeServer/RangeUpdateBarrier.h: updates of a range are held off while
-- maintenance changes it.
-- A thread sleeps on a condition until it is notified, and then tests again. Between two sleeps a
-- method holds the mutex, and that part of it is one step. Maintenance of a range is one thread at a
-- time, with a `ScopedActivator`.
pub mod Exclusion
mod Tests
use hypertable.Base.{
  ℕ, ◌+◌, ◌-◌, ◌%◌, ◌^◌, Bool, true, false, ◌&&◌, List, [], ◌∷◌, ltb, ◌==◌, if◌then◌else◌,
}

pub record RangeUpdateBarrier : Type 0 where
  pub hold_updates : Bool
  pub update_counter : ℕ

-- The maintenance thread: elsewhere, asleep in `put_up`, notified there, or behind `put_up`.
pub data Activator : Type 0 where
  away asleep notified behind : Activator

-- The barrier and its threads: how many updates are between `enter` and `exit`, how many sleep in
-- `enter`, and how many were notified there.
pub record Threads : Type 0 where
  pub barrier : RangeUpdateBarrier
  pub activator : Activator
  pub inside : ℕ
  pub sleeping : ℕ
  pub awake : ℕ

abbrev pub no_threads : Threads
no_threads = record {
  barrier = record { hold_updates = false; update_counter = 0 };
  activator = away;
  inside = 0;
  sleeping = 0;
  awake = 0;
}

-- `enter`: the test, and what follows it.
unfoldable pub enter : Threads → Threads
enter t = if t.barrier.hold_updates then record t { sleeping = t.sleeping + 1 } else record t {
  barrier = record t.barrier { update_counter = (t.barrier.update_counter + 1) % 2 ^ 32 };
  inside = t.inside + 1;
}

abbrev pub notify_one : Activator → Activator
notify_one away = away
notify_one asleep = notified
notify_one notified = notified
notify_one behind = behind

-- `exit`.
unfoldable pub exit : Threads → Threads
exit t =
    let count = (t.barrier.update_counter + (2 ^ 32 - 1)) % 2 ^ 32 in
    record t {
      barrier = record t.barrier { update_counter = count };
      activator =
          if t.barrier.hold_updates && (count == 0) then notify_one t.activator else t.activator;
      inside = t.inside - 1;
    }

-- `put_up`: the test, on the way in and when notified.
unfoldable pub await_quiet : Threads → Threads
await_quiet t = record t { activator = if ltb 0 t.barrier.update_counter then asleep else behind }

unfoldable pub put_up : Threads → Threads
put_up t = await_quiet (record t { barrier = record t.barrier { hold_updates = true } })

-- `take_down`, which notifies all who sleep in `enter`.
unfoldable pub take_down : Threads → Threads
take_down t = record t {
  barrier = record t.barrier { hold_updates = false };
  activator = away;
  sleeping = 0;
  awake = t.awake + t.sleeping;
}

-- What a thread does next. Nothing happens where there is no such thread.
pub data Event : Type 0 where
  enters exits enters_again puts_up wakes takes_down : Event

unfoldable pub step : Event → Threads → Threads
step enters t = enter t
step exits t = if t.inside == 0 then t else exit t
step enters_again t = if t.awake == 0 then t else enter (record t { awake = t.awake - 1 })
step puts_up t = elim t.activator [ away ↦ put_up t | asleep ↦ t | notified ↦ t | behind ↦ t ]
step wakes t = elim t.activator [ away ↦ t | asleep ↦ t | notified ↦ await_quiet t | behind ↦ t ]
step takes_down t = elim t.activator [ away ↦ t | asleep ↦ t | notified ↦ t | behind ↦ take_down t ]

unfoldable pub run : List Event → Threads → Threads
run [] t = t
run (e ∷ es) t = run es (step e t)
