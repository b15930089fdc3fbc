-- ===== src/Muduo/TimerWheel/Record.antt =====
-- SetTimerTask, RefreshTimerTask and RemoveTimerTask, and when the task's function runs after each.
use linux_os.Base.{
  ℕ, zero, suc, ◌+◌, ◌%◌, ◌^◌, ◌<◌, ◌≤◌, ◌≡◌, ◌≢◌, refl, ap, ◌∙◌, none, some, Bool, true, false,
  not, ◌&&◌, arith, ◌==◌, if◌then◌else◌, update,
}
use linux_os.Muduo.TimerWheel.{
  TimerWheel, capacity, contains, is_alive, advance, ticks, put, set_timer_task, refresh_timer_task,
  remove_timer_task, if_exists,
}
use linux_os.Muduo.TimerWheel.Release.{contains-release, contains-append}
use linux_os.Muduo.TimerWheel.Schedule.{
  LastIn, held_below-true, ticks-waits, ticks-fires, tasks-advance, advance-release, cleared,
}

-- The number of ticks after which the slot of a timeout is reached: the timeout itself from 1 to
-- 60, and for any other timeout the number in that range that differs by a multiple of 60.
abbrev pub delay : ℕ → ℕ
delay timeout = (timeout + 59) % 60 + 1

pub contains-put :
    (w : TimerWheel) (r timeout i : ℕ)
    → contains r ((put w r timeout).wheels i)
      ≡ (if i == (w.tick + timeout) % 2 ^ 32 % capacity then true else contains r (w.wheels i))
unfolding put contains update
contains-put w r timeout i = ground arith

put-LastIn :
    (w : TimerWheel) (r timeout : ℕ)
    → w.tick < capacity
    → timeout + 60 ≤ 2 ^ 32
    → ((j : ℕ)
        → delay timeout < j
        → j ≤ capacity
        → contains r (w.wheels ((w.tick + j) % capacity)) ≡ false)
    → LastIn (put w r timeout) r (delay timeout)
unfolding put
put-LastIn w r timeout on fits free = record {
  on_wheel = on;
  ahead = omega arith;
  held =
      let here : (w.tick + delay timeout) % capacity ≡ (w.tick + timeout) % 2 ^ 32 % capacity =
        omega arith in
      ground (arith, contains-put w r timeout ((w.tick + delay timeout) % capacity), here);
  no_later = λ j lo hi.
      let there : (w.tick + j) % capacity ≢ (w.tick + timeout) % 2 ^ 32 % capacity = omega arith in
      ground (arith, contains-put w r timeout ((w.tick + j) % capacity), free j lo hi, there);
}

-- A wheel whose hand is in range and on which the next task to be made stands nowhere.
pub record IsReady (w : TimerWheel) : Type 0 where
  pub on_wheel : w.tick < capacity
  pub unused : (i : ℕ) → contains w.next_task (w.wheels i) ≡ false

set-put :
    (w : TimerWheel) (id timeout : ℕ)
    → w.timers_record id ≡ none
    → (w' : TimerWheel) × (set_timer_task w id timeout ≡ put w' w.next_task timeout)
      × (w'.tick ≡ w.tick)
      × (w'.wheels ≡ w.wheels)
      × ((w'.tasks w.next_task).cancel ≡ false)
unfolding set_timer_task if_exists put update
set-put w id timeout e = (
  record w {
    tasks = update w.tasks w.next_task (record { id = id; timeout = timeout; cancel = false });
    next_task = suc w.next_task;
    timers_record = update w.timers_record id (some w.next_task);
  },
  ground arith,
  refl,
  refl,
  ground arith,
)

set-LastIn :
    (w : TimerWheel) (id timeout : ℕ)
    → IsReady w
    → w.timers_record id ≡ none
    → timeout + 60 ≤ 2 ^ 32
    → LastIn (set_timer_task w id timeout) w.next_task (delay timeout)
      × (((set_timer_task w id timeout).tasks w.next_task).cancel ≡ false)
unfolding put
set-LastIn w id timeout ready e fits =
    let (w', eq, tick, wheels, live) = set-put w id timeout e in
    rw eq (
      put-LastIn w' w.next_task timeout (rw tick ready.on_wheel) fits
          (λ j lo hi. rw (tick, wheels) (ready.unused ((w.tick + j) % capacity))),
      live,
    )

-- A timer that is set for an id without one runs in `delay timeout` ticks, and not before.
pub set_timer_task-runs :
    (w : TimerWheel) (id timeout n : ℕ)
    → IsReady w
    → w.timers_record id ≡ none
    → timeout + 60 ≤ 2 ^ 32
    → n < delay timeout
    → (contains w.next_task (ticks n (set_timer_task w id timeout)).1 ≡ false)
      × (contains w.next_task (ticks (delay timeout) (set_timer_task w id timeout)).1 ≡ true)
set_timer_task-runs w id timeout n ready e fits h =
    let (last, live) = set-LastIn w id timeout ready e fits in
    (
      ticks-waits n (delay timeout) (set_timer_task w id timeout) w.next_task last h,
      ticks-fires (delay timeout) (set_timer_task w id timeout) w.next_task last ∙ ap not live,
    )

alive-LastIn : (w : TimerWheel) (r k : ℕ) → LastIn w r k → is_alive w r ≡ true
unfolding is_alive
alive-LastIn w r k l =
    held_below-true capacity ((w.tick + k) % capacity) r w.wheels (omega arith) l.held

refresh-put :
    (w : TimerWheel) (r id : ℕ)
    → w.timers_record id ≡ some r
    → is_alive w r ≡ true
    → refresh_timer_task w id ≡ put w r (w.tasks r).timeout
unfolding refresh_timer_task
refresh-put w r id e alive = ground (arith, e, alive)

live_put :
    (w : TimerWheel) (r : ℕ)
    → (w.tasks r).cancel ≡ false
    → not ((put w r (w.tasks r).timeout).tasks r).cancel ≡ true
unfolding put
live_put w r live = rw live

-- Refreshing a timer whose last slot is no further than its timeout moves its run to `delay` of
-- that timeout from now.
pub refresh_timer_task-runs :
    (w : TimerWheel) (id r k n : ℕ)
    → w.timers_record id ≡ some r
    → LastIn w r k
    → k ≤ delay (w.tasks r).timeout
    → (w.tasks r).cancel ≡ false
    → (w.tasks r).timeout + 60 ≤ 2 ^ 32
    → n < delay (w.tasks r).timeout
    → (contains r (ticks n (refresh_timer_task w id)).1 ≡ false)
      × (contains r (ticks (delay (w.tasks r).timeout) (refresh_timer_task w id)).1 ≡ true)
refresh_timer_task-runs w id r k n e last near live fits h =
    let d : ℕ = delay (w.tasks r).timeout in
    let again =
      put-LastIn w r (w.tasks r).timeout last.on_wheel fits
        (λ j lo hi. last.no_later j (omega arith) hi) in
    rw (refresh-put w r id e (alive-LastIn w r k last)) (
      ticks-waits n d (put w r (w.tasks r).timeout) r again h,
      ticks-fires d (put w r (w.tasks r).timeout) r again ∙ live_put w r live,
    )

advance-cancelled :
    (w : TimerWheel) (r : ℕ) → (w.tasks r).cancel ≡ true → contains r (advance w).1 ≡ false
unfolding cleared
advance-cancelled w r h = rw (advance-release w) (
    contains-release r (w.wheels ((w.tick + 1) % capacity)) (cleared w)
    ∙ stopped (contains r (w.wheels ((w.tick + 1) % capacity))) (is_alive (cleared w) r))
  where
    stopped : (held alive : Bool) → (held && (not alive && not (w.tasks r).cancel)) ≡ false
    stopped held alive = rw h (ground arith)

remove-cancels :
    (w : TimerWheel) (id r : ℕ)
    → w.timers_record id ≡ some r
    → is_alive w r ≡ true
    → ((remove_timer_task w id).tasks r).cancel ≡ true
unfolding remove_timer_task update
remove-cancels w id r e alive = ground (arith, e, alive)

ticks-cancelled :
    (n r : ℕ) (w : TimerWheel) → (w.tasks r).cancel ≡ true → contains r (ticks n w).1 ≡ false
unfolding ticks contains
ticks-cancelled zero r w h = refl
ticks-cancelled (suc n) r w h =
    let kept : ((advance w).0.tasks r).cancel ≡ true = rw (tasks-advance w r) h in
    rw (contains-append r (advance w).1 (ticks n (advance w).0).1, advance-cancelled w r h)
      (ticks-cancelled n r (advance w).0 kept)

-- The task of a removed timer never runs.
pub remove_timer_task-never_runs :
    (w : TimerWheel) (id r k n : ℕ)
    → w.timers_record id ≡ some r
    → LastIn w r k
    → contains r (ticks n (remove_timer_task w id)).1 ≡ false
remove_timer_task-never_runs w id r k n e last =
    ticks-cancelled n r (remove_timer_task w id) (remove-cancels w id r e (alive-LastIn w r k last))
