-- ===== src/RangeUpdateBarrier/Exclusion.antt =====
-- Updates and maintenance exclude one another, and nobody sleeps for nothing.
use hypertable.Base.{
  ℕ, zero, suc, ◌+◌, ◌-◌, ◌<◌, ◌≤◌, ◌⊎◌, inl, inr, Bool-cases, ◌^◌, ◌≡◌, refl, ap, ◌∙◌, Bool, true,
  false, List, [], ◌∷◌, arith, length, ◌==◌, if◌then◌else◌,
}
use hypertable.RangeUpdateBarrier.{
  Activator, away, asleep, notified, behind, Threads, no_threads, enter, exit, await_quiet, put_up,
  take_down, Event, enters, exits, enters_again, puts_up, wakes, takes_down, step, run,
}

activator_cases : (a : Activator) → (a ≡ away) ⊎ ((a ≡ asleep) ⊎ ((a ≡ notified) ⊎ (a ≡ behind)))
activator_cases away = inl refl
activator_cases asleep = inr (inl refl)
activator_cases notified = inr (inr (inl refl))
activator_cases behind = inr (inr (inr refl))

-- What the state of the maintenance thread says of the barrier.
unfoldable pub Fits : Activator → Bool → ℕ → Type 0
Fits away hold inside = hold ≡ false
Fits asleep hold inside = (hold ≡ true) × (0 < inside)
Fits notified hold inside = hold ≡ true
Fits behind hold inside = (hold ≡ true) × (inside ≡ 0)

-- The counter counts the updates inside; behind `put_up` there are none; the maintenance thread sleeps
-- only while there are some; and updates sleep only while the barrier is up.
pub record IsValid (t : Threads) : Type 0 where
  pub counted : t.barrier.update_counter ≡ t.inside
  pub few : t.inside < 2 ^ 32
  pub fits : Fits t.activator t.barrier.hold_updates t.inside
  pub held : t.barrier.hold_updates ≡ false → t.sleeping ≡ 0

pub no_threads-IsValid : IsValid no_threads
unfolding Fits
no_threads-IsValid = record { counted = refl; few = omega arith; fits = refl; held = λ e. refl }

enter-IsValid : (t : Threads) → IsValid t → t.inside + 1 < 2 ^ 32 → IsValid (enter t)
unfolding Fits enter
enter-IsValid t v h = record {
  counted = ground (arith, v.counted);
  few = ground (arith, v.few);
  fits = ground (arith, v.fits);
  held = ground (arith, v.held);
}

exit-IsValid : (t : Threads) → IsValid t → 0 < t.inside → IsValid (exit t)
unfolding Fits exit
exit-IsValid t v h = record {
  counted = ground (arith, v.counted, v.few);
  few = ground (arith, v.few);
  fits = ground (arith, v.fits, v.counted, v.few);
  held = v.held;
}

-- A thread that was notified in `enter` tests again.
again-IsValid : (t : Threads) → IsValid t → IsValid (record t { awake = t.awake - 1 })
again-IsValid t v = record { counted = v.counted; few = v.few; fits = v.fits; held = v.held }

put_up-IsValid : (t : Threads) → IsValid t → t.activator ≡ away → IsValid (put_up t)
unfolding Fits put_up await_quiet
put_up-IsValid t v h = record {
  counted = v.counted;
  few = v.few;
  fits = ground (arith, v.counted);
  held = λ e. ground arith;
}

wakes-IsValid : (t : Threads) → IsValid t → t.activator ≡ notified → IsValid (await_quiet t)
unfolding Fits await_quiet
wakes-IsValid t v h = record {
  counted = v.counted;
  few = v.few;
  fits = ground (arith, v.counted, v.fits);
  held = v.held;
}

take_down-IsValid : (t : Threads) → IsValid t → IsValid (take_down t)
unfolding Fits take_down
take_down-IsValid t v = record { counted = v.counted; few = v.few; fits = refl; held = λ e. refl }

exits-IsValid : (t : Threads) → IsValid t → IsValid (step exits t)
unfolding step
exits-IsValid t v = elim (Bool-cases (t.inside == 0)) [
  | inl e ↦ rw (e, step) v
  | inr e ↦ rw (e, step) (exit-IsValid t v (ground arith))
]

step-IsValid : (e : Event) (t : Threads) → IsValid t → t.inside + 1 < 2 ^ 32 → IsValid (step e t)
unfolding step
step-IsValid enters t v h = enter-IsValid t v h
step-IsValid exits t v h = exits-IsValid t v
step-IsValid enters_again t v h = elim (Bool-cases (t.awake == 0)) [
  | inl e ↦ rw (e, step) v
  | inr e ↦ rw (e, step) (enter-IsValid (record t { awake = t.awake - 1 }) (again-IsValid t v) h)
]
step-IsValid puts_up t v h = elim (activator_cases t.activator) [
  | inl e ↦ rw (e, step) (put_up-IsValid t v e)
  | inr (inl e) ↦ rw (e, step) v
  | inr (inr (inl e)) ↦ rw (e, step) v
  | inr (inr (inr e)) ↦ rw (e, step) v
]
step-IsValid wakes t v h = elim (activator_cases t.activator) [
  | inl e ↦ rw (e, step) v
  | inr (inl e) ↦ rw (e, step) v
  | inr (inr (inl e)) ↦ rw (e, step) (wakes-IsValid t v e)
  | inr (inr (inr e)) ↦ rw (e, step) v
]
step-IsValid takes_down t v h = elim (activator_cases t.activator) [
  | inl e ↦ rw (e, step) v
  | inr (inl e) ↦ rw (e, step) v
  | inr (inr (inl e)) ↦ rw (e, step) v
  | inr (inr (inr e)) ↦ rw (e, step) (take_down-IsValid t v)
]

step-inside : (e : Event) (t : Threads) → (step e t).inside ≤ t.inside + 1
unfolding step enter exit put_up await_quiet take_down
step-inside e t = ground arith

run-keeps_IsValid :
    (es : List Event) (t : Threads) → IsValid t → t.inside + length es < 2 ^ 32 → IsValid (run es t)
unfolding run
run-keeps_IsValid [] t v h = v
run-keeps_IsValid (e ∷ es) t v h =
    run-keeps_IsValid es (step e t) (step-IsValid e t v (omega arith))
      (ground (arith, step-inside e t))

-- From a barrier without threads, in whatever order fewer than 2 ^ 32 steps of updates and maintenance
-- come: behind `put_up` no update is inside; maintenance that sleeps waits for an update that is inside;
-- and updates sleep only while the barrier is up.
pub run-excludes :
    (es : List Event) (t : Threads)
    → length es < 2 ^ 32
    → run es no_threads ≡ t
    → (t.activator ≡ behind → t.inside ≡ 0)
      × (t.activator ≡ asleep → 0 < t.inside)
      × (0 < t.sleeping → t.barrier.hold_updates ≡ true)
unfolding Fits
run-excludes es t few h =
    let v : IsValid t = rw⁻¹ h (run-keeps_IsValid es no_threads no_threads-IsValid (omega arith)) in
    (λ e. ground (arith, v.fits), λ e. ground (arith, v.fits), λ e. ground (arith, v.held))

-- The updates that are inside leave, and then the maintenance thread runs.
unfoldable pub drain : ℕ → List Event
drain zero = wakes ∷ []
drain (suc n) = exits ∷ drain n

drain-last :
    (t : Threads)
    → t.activator ≡ notified
    → t.inside ≡ 0
    → IsValid t
    → (run (drain 0) t).activator ≡ behind
unfolding run drain step await_quiet
drain-last t e none v = ground (arith, v.counted)

-- An update that leaves notifies the maintenance thread if it was the last one.
exits-notifies :
    (t : Threads)
    → IsValid t
    → t.activator ≡ asleep
    → 0 < t.inside
    → ((step exits t).inside ≡ t.inside - 1)
      × ((step exits t).activator ≡ (if t.inside == 1 then notified else asleep))
unfolding step exit Fits
exits-notifies t v e some_inside = ground (arith, v.counted, v.few, v.fits)

drain_from :
    (n : ℕ) (t : Threads)
    → IsValid t
    → t.activator ≡ asleep
    → t.inside ≡ suc n
    → (run (drain (suc n)) t).activator ≡ behind
unfolding run drain
drain_from zero t v e one =
    let (left, told) = exits-notifies t v e (omega arith) in
    drain-last (step exits t) (ground (arith, told)) (omega arith) (exits-IsValid t v)
drain_from (suc n) t v e more =
    let (left, told) = exits-notifies t v e (omega arith) in
    drain_from n (step exits t) (exits-IsValid t v) (ground (arith, told)) (omega arith)

-- In a state that is well formed, maintenance that sleeps in `put_up` is woken: once the updates that
-- are inside have left, it tests again and is behind `put_up`.
pub put_up-returns :
    (t : Threads) → IsValid t → t.activator ≡ asleep → (run (drain t.inside) t).activator ≡ behind
unfolding Fits
put_up-returns t v e =
    let n : t.inside ≡ suc (t.inside - 1) = ground (arith, v.fits) in
    ap (λ k. (run (drain k) t).activator) n ∙ drain_from (t.inside - 1) t v e n
