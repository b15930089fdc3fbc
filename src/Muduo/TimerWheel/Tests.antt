-- ===== src/Muduo/TimerWheel/Tests.antt =====
-- Runs of the timer wheel, and the theorems on concrete wheels.
use linux_os.Base.{◌≡◌, refl, [], ◌∷◌, none, some, true, false, arith, ◌==◌, if◌then◌else◌, update}
use linux_os.Muduo.TimerWheel.{
  TimerWheel, new_wheel, contains, ticks, set_timer_task, refresh_timer_task, remove_timer_task,
  if_exists, held_below, is_alive, release,
}
use linux_os.Muduo.TimerWheel.Release.{runs, contains-release}
use linux_os.Muduo.TimerWheel.Schedule.{LastIn}
use linux_os.Muduo.TimerWheel.Record.{
  IsReady, set_timer_task-runs, refresh_timer_task-runs, remove_timer_task-never_runs,
}
use linux_os.Muduo.TimerWheel.Reuse.{set_timer_task-forgotten}

new_wheel-IsReady : IsReady new_wheel
unfolding new_wheel contains
new_wheel-IsReady = record { on_wheel = omega arith; unused = λ i. refl }

-- One timer with id 7 and a timeout of 30 seconds, just set.
abbrev one_timer : TimerWheel
one_timer = record {
  tick = 0;
  timers_record = λ id. if id == 7 then some 0 else none;
  wheels = λ slot. if slot == 30 then 0 ∷ [] else [];
  tasks = λ task. record { id = 7; timeout = 30; cancel = false };
  next_task = 1;
}

one_timer-LastIn : LastIn one_timer 0 30
unfolding contains
one_timer-LastIn = record {
  on_wheel = omega arith;
  ahead = omega arith;
  held = refl;
  no_later = λ j lo hi. ground arith;
}

-- It runs in the thirtieth tick.
ticks_run : (ticks 30 one_timer).1 ≡ 0 ∷ []
unfolding ticks held_below is_alive update
ticks_run = refl

-- A timeout of 61 seconds runs after one.
early_run : (ticks 1 (set_timer_task new_wheel 7 61)).1 ≡ 0 ∷ []
unfolding ticks set_timer_task new_wheel held_below is_alive update
early_run = refl

contains-release_example : contains 0 (release (0 ∷ []) one_timer).1 ≡ runs 0 (0 ∷ []) one_timer
contains-release_example = contains-release 0 (0 ∷ []) one_timer

set_timer_task-runs_example :
    (contains new_wheel.next_task (ticks 10 (set_timer_task new_wheel 7 30)).1 ≡ false)
    × (contains new_wheel.next_task (ticks 30 (set_timer_task new_wheel 7 30)).1 ≡ true)
unfolding new_wheel
set_timer_task-runs_example =
    set_timer_task-runs new_wheel 7 30 10 new_wheel-IsReady refl (omega arith) (omega arith)

refresh_timer_task-runs_example :
    (contains 0 (ticks 10 (refresh_timer_task one_timer 7)).1 ≡ false)
    × (contains 0 (ticks 30 (refresh_timer_task one_timer 7)).1 ≡ true)
refresh_timer_task-runs_example =
    refresh_timer_task-runs one_timer 7 0 30 10 refl one_timer-LastIn (omega arith) refl
      (omega arith) (omega arith)

remove_timer_task-never_runs_example :
    contains 0 (ticks 40 (remove_timer_task one_timer 7)).1 ≡ false
remove_timer_task-never_runs_example =
    remove_timer_task-never_runs one_timer 7 0 30 40 refl one_timer-LastIn

set_timer_task-forgotten_example :
    if_exists (ticks 30 (set_timer_task (remove_timer_task one_timer 7) 7 50)).0 7 ≡ false
set_timer_task-forgotten_example =
    set_timer_task-forgotten one_timer 7 50 0 30 refl refl (omega arith) one_timer-LastIn
