-- ===== src/Muduo/TimerWheel/Reuse.antt =====
-- What the destructor of a task does to the record, also when its id has been given to another task.
use mathlib.Core.Path.{subst}
use linux_os.Base.{
  ℕ, zero, suc, ◌+◌, ◌%◌, ◌<◌, ◌≡◌, ap, ◌∙◌, List, [], ◌∷◌, none, some, true, false, arith, inl,
  inr, update, Bool-cases,
}
use linux_os.Muduo.TimerWheel.{
  TimerWheel, capacity, contains, held_below, is_alive, release, advance, ticks, put,
  set_timer_task, remove_timer_task, if_exists, destroy,
}
use linux_os.Muduo.TimerWheel.Release.{step, step-SameTasks}
use linux_os.Muduo.TimerWheel.Schedule.{
  LastIn, tasks-advance, advance-LastIn, advance-release, cleared, cleared-dead,
}

step-keeps_none :
    (t : ℕ) (rest : List ℕ) (w : TimerWheel) (id : ℕ)
    → w.timers_record id ≡ none
    → (step t rest w).0.timers_record id ≡ none
unfolding destroy update
step-keeps_none t rest w id e = ground arith

-- A released slot only takes ids out of the record.
release-keeps_none :
    (ts : List ℕ) (w : TimerWheel) (id : ℕ)
    → w.timers_record id ≡ none
    → (release ts w).0.timers_record id ≡ none
unfolding release
release-keeps_none [] w id e = e
release-keeps_none (t ∷ rest) w id e =
    release-keeps_none rest (step t rest w).0 id (step-keeps_none t rest w id e)

step-destroys :
    (r t : ℕ) (rest : List ℕ) (w : TimerWheel)
    → contains r (t ∷ rest) ≡ true
    → contains r rest ≡ false
    → is_alive w r ≡ false
    → (step t rest w).0.timers_record (w.tasks r).id ≡ none
unfolding contains destroy update
step-destroys r t rest w h last dead = ground arith

step-alive :
    (r t : ℕ) (rest : List ℕ) (w : TimerWheel) → is_alive (step t rest w).0 r ≡ is_alive w r
unfolding is_alive
step-alive r t rest w = ap (λ wheels. held_below capacity wheels r) (step-SameTasks t rest w).wheels

-- The id of a task that the release destroys is not in the record afterwards.
release-record :
    (ts : List ℕ) (w : TimerWheel) (r : ℕ)
    → contains r ts ≡ true
    → is_alive w r ≡ false
    → (release ts w).0.timers_record (w.tasks r).id ≡ none
unfolding release
release-record [] w r h dead = absurd (nothing h)
  where
    nothing : contains r [] ≡ true → ⊥
    nothing e = cc
release-record (t ∷ rest) w r h dead = elim (Bool-cases (contains r rest)) [
  | inl more ↦
      let same : (step t rest w).0.tasks ≡ w.tasks = (step-SameTasks t rest w).tasks in
      let later = release-record rest (step t rest w).0 r more (step-alive r t rest w ∙ dead) in
      subst (λ tasks. (release rest (step t rest w).0).0.timers_record (tasks r).id ≡ none) same
        later
  | inr last ↦
      release-keeps_none rest (step t rest w).0 (w.tasks r).id
        (step-destroys r t rest w h last dead)
]

advance-record :
    (w : TimerWheel) (r : ℕ) → LastIn w r 1 → (advance w).0.timers_record (w.tasks r).id ≡ none
unfolding cleared
advance-record w r l =
    rw (advance-release w) (
      release-record (w.wheels ((w.tick + 1) % capacity)) (cleared w) r l.held (cleared-dead w r l))

-- The tick that takes a task off the wheel takes its id out of the record, whichever task the
-- record names for that id then.
pub ticks-record :
    (k : ℕ) (w : TimerWheel) (r : ℕ)
    → LastIn w r k
    → (ticks k w).0.timers_record (w.tasks r).id ≡ none
unfolding ticks
ticks-record zero w r l = absurd (omega (arith, l.ahead))
ticks-record (suc zero) w r l = advance-record w r l
ticks-record (suc (suc k)) w r l =
    let later = ticks-record (suc k) (advance w).0 r (advance-LastIn w r k l) in
    subst (λ tasks. (ticks (suc k) (advance w).0).0.timers_record (tasks r).id ≡ none)
      (tasks-advance w r) later

-- The wheel after the timer of `id` was removed and set again.
set_again : TimerWheel → ℕ → ℕ → TimerWheel
set_again w id timeout = set_timer_task (remove_timer_task w id) id timeout

module _ (w : TimerWheel) (id timeout r : ℕ) (e : w.timers_record id ≡ some r)
    (old : r < w.next_task) where
  again-tick : (set_again w id timeout).tick ≡ w.tick
  unfolding set_again set_timer_task remove_timer_task if_exists put
  again-tick = ground (arith, e)

  again-contains :
      (i : ℕ) → contains r ((set_again w id timeout).wheels i) ≡ contains r (w.wheels i)
  unfolding set_again set_timer_task remove_timer_task if_exists put update contains
  again-contains i = ground (arith, e)

  again-id : ((set_again w id timeout).tasks r).id ≡ (w.tasks r).id
  unfolding set_again set_timer_task remove_timer_task if_exists put update
  again-id = ground (arith, e)

  again-LastIn : (k : ℕ) → LastIn w r k → LastIn (set_again w id timeout) r k
  again-LastIn k l = record {
    on_wheel = rw again-tick l.on_wheel;
    ahead = l.ahead;
    held = rw (again-tick, again-contains ((w.tick + k) % capacity)) l.held;
    no_later =
        λ j lo hi. rw (again-tick, again-contains ((w.tick + j) % capacity)) (l.no_later j lo hi);
  }

if_exists-none : (w : TimerWheel) (id : ℕ) → w.timers_record id ≡ none → if_exists w id ≡ false
unfolding if_exists
if_exists-none w id e = ground (arith, e)

-- Where a timer is removed and its id set again while its old task is `k` ticks from its end, the
-- id is not known to the wheel after those ticks, though the new task may still be on the wheel:
-- it can then be neither refreshed nor removed.
pub set_timer_task-forgotten :
    (w : TimerWheel) (id timeout r k : ℕ)
    → w.timers_record id ≡ some r
    → (w.tasks r).id ≡ id
    → r < w.next_task
    → LastIn w r k
    → if_exists (ticks k (set_timer_task (remove_timer_task w id) id timeout)).0 id ≡ false
unfolding set_again
set_timer_task-forgotten w id timeout r k e own old last =
    let gone =
      ticks-record k (set_again w id timeout) r (again-LastIn w id timeout r e old k last) in
    let mine : ((set_again w id timeout).tasks r).id ≡ id = again-id w id timeout r e old ∙ own in
    if_exists-none _ id
      (subst (λ n. (ticks k (set_again w id timeout)).0.timers_record n ≡ none) mine gone)
