-- ===== src/Muduo/TimerWheel.antt =====
-- muduo/server.hpp, classes TimerTask and TimerWheel: a wheel of 60 slots that share timer tasks.
-- A task lives as long as some slot holds a pointer to it; its destructor runs the timer function,
-- unless the task was cancelled, and takes the task's id out of the record. A task is named by the
-- number of its allocation. The functions that run are returned in order, as the numbers of their
-- tasks; they are taken not to add timers themselves.
pub mod Release
pub mod Schedule
pub mod Record
pub mod Reuse
mod Tests
use linux_os.Base.{
  ℕ, zero, suc, ◌+◌, ◌%◌, ◌^◌, List, [], ◌∷◌, ◌++◌, Option, none, some, Bool, true, false, ◌||◌,
  ◌==◌, if◌then◌else◌, update,
}

abbrev pub capacity : ℕ
capacity = 60

pub record TimerTask : Type 0 where
  pub id : ℕ
  pub timeout : ℕ
  pub cancel : Bool

pub record TimerWheel : Type 0 where
  pub tick : ℕ
  pub timers_record : ℕ → Option ℕ
  pub wheels : ℕ → List ℕ
  pub tasks : ℕ → TimerTask
  pub next_task : ℕ

abbrev no_task : TimerTask
no_task = record { id = 0; timeout = 0; cancel = false }

unfoldable pub new_wheel : TimerWheel
new_wheel = record {
  tick = 0;
  timers_record = λ id. none;
  wheels = λ slot. [];
  tasks = λ task. no_task;
  next_task = 0;
}

unfoldable pub contains : ℕ → List ℕ → Bool
contains t [] = false
contains t (x ∷ xs) = (t == x) || contains t xs

-- One of the first `n` slots holds the task.
unfoldable pub held_below : ℕ → (ℕ → List ℕ) → ℕ → Bool
held_below zero wheels t = false
held_below (suc n) wheels t = contains t (wheels n) || held_below n wheels t

-- `_timers_record[id].lock()` gives a task while a slot holds it.
unfoldable pub is_alive : TimerWheel → ℕ → Bool
is_alive w t = held_below capacity w.wheels t

unfoldable pub if_exists : TimerWheel → ℕ → Bool
if_exists w id = elim (w.timers_record id) [ none ↦ false | some t ↦ true ]

-- `_wheels[(_tick + timeout) % _capacity].push_front(s_task)`, with the sum on 32 bits.
unfoldable pub put : TimerWheel → ℕ → ℕ → TimerWheel
put w t timeout =
    let slot = (w.tick + timeout) % 2 ^ 32 % capacity in
    record w { wheels = update w.wheels slot (t ∷ w.wheels slot) }

unfoldable pub set_timer_task : TimerWheel → ℕ → ℕ → TimerWheel
unfolding if_exists put
set_timer_task w id timeout =
    if if_exists w id
    then w
    else (let task : TimerTask = record { id = id; timeout = timeout; cancel = false } in
        let w' : TimerWheel = record w {
          tasks = update w.tasks w.next_task task;
          next_task = suc w.next_task;
          timers_record = update w.timers_record id (some w.next_task);
        } in
        put w' w.next_task timeout)

unfoldable pub refresh_timer_task : TimerWheel → ℕ → TimerWheel
unfolding put is_alive
refresh_timer_task w id = elim (w.timers_record id) [
  | none ↦ w
  | some t ↦ if is_alive w t then put w t (w.tasks t).timeout else w
]

unfoldable pub remove_timer_task : TimerWheel → ℕ → TimerWheel
unfolding is_alive
remove_timer_task w id = elim (w.timers_record id) [
  | none ↦ w
  | some t ↦
      let w' : TimerWheel =
        (if is_alive w t
          then record w { tasks = update w.tasks t (record (w.tasks t) { cancel = true }) }
          else w) in
      record w' { timers_record = update w'.timers_record id none }
]

-- `~TimerTask` with RemoveFromTimerWheel as its release function.
unfoldable pub destroy : TimerWheel → ℕ → TimerWheel × List ℕ
destroy w t = (
  record w { timers_record = update w.timers_record (w.tasks t).id none },
  if (w.tasks t).cancel then [] else t ∷ [],
)

-- The pointers of a cleared slot go in order; the last pointer to a task destroys it.
unfoldable pub release : List ℕ → TimerWheel → TimerWheel × List ℕ
unfolding destroy is_alive contains
release [] w = (w, [])
release (t ∷ rest) w =
    let (w', first) = (if contains t rest || is_alive w t then (w, []) else destroy w t) in
    let (w'', more) = release rest w' in (w'', first ++ more)

-- One round of Tick.
unfoldable pub advance : TimerWheel → TimerWheel × List ℕ
unfolding release
advance w =
    let slot = (w.tick + 1) % capacity in
    release (w.wheels slot) (record w { tick = slot; wheels = update w.wheels slot [] })

unfoldable pub ticks : ℕ → TimerWheel → TimerWheel × List ℕ
unfolding advance
ticks zero w = (w, [])
ticks (suc nums) w =
    let (w', first) = advance w in let (w'', more) = ticks nums w' in (w'', first ++ more)
