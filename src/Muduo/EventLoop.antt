-- ===== src/Muduo/EventLoop.antt =====
-- muduo/server.hpp, class EventLoop: the queue of tasks that other threads leave for the loop's thread,
-- and the event descriptor that wakes it. A task is a value of a type `A`; the steps of the
-- threads interleave. `queued` and `ran` record, for the theorems, the tasks that were queued and
-- those of them that ran.
pub mod Queue
mod Tests
use linux_os.Base.{ℕ, suc, ◌+◌, ◌<◌, ◌≡◌, List, [], ◌∷◌, ◌++◌, Bool, true, false, if◌then◌else◌}

-- Where the loop's thread is: in epoll_wait, in the handlers of the events, or in DoPendingTask.
pub data Phase : Type 0 where
  polling : Phase
  handling : Phase
  draining : Phase

pub record EventLoop (A : Type 0) : Type 0 where
  pub phase : Phase
  pub pending : List A
  pub running : List A
  pub event_count : ℕ
  pub wakers : ℕ
  pub queued : List A
  pub ran : List A

unfoldable pub new_loop : {A : Type 0} → EventLoop A
new_loop = record {
  phase = polling;
  pending = [];
  running = [];
  event_count = 0;
  wakers = 0;
  queued = [];
  ran = [];
}

-- QueueInLoop in another thread, which has yet to call WakeUpEpollToDoPending.
unfoldable pub queue_in_loop : {A : Type 0} → EventLoop A → A → EventLoop A
queue_in_loop l task = record l {
  pending = l.pending ++ task ∷ [];
  wakers = suc l.wakers;
  queued = l.queued ++ task ∷ [];
}

-- WakeUpEpollToDoPending: the counter of the event descriptor goes up.
unfoldable pub wake_up : {A : Type 0} → EventLoop A → ℕ → EventLoop A
wake_up l wakers = record l { event_count = suc l.event_count; wakers = wakers }

-- EventRead: a read sets the counter to 0.
unfoldable pub event_read : {A : Type 0} → EventLoop A → EventLoop A
event_read l = record l { event_count = 0 }

-- The swap of DoPendingTask, under the lock.
unfoldable pub take_pending : {A : Type 0} → EventLoop A → EventLoop A
take_pending l = record l { phase = draining; pending = []; running = l.pending }

unfoldable pub run_task : {A : Type 0} → EventLoop A → A → List A → EventLoop A
run_task l task rest = record l { running = rest; ran = l.ran ++ task ∷ [] }

-- A step of the loop's thread, or of another one.
pub data Step {A : Type 0} (l : EventLoop A) : EventLoop A → Type 0 where
  queue : (task : A) → Step l (queue_in_loop l task)
  wake : (wakers : ℕ) → l.wakers ≡ suc wakers → Step l (wake_up l wakers)
  poll : l.phase ≡ polling → Step l (record l { phase = handling })
  read_event : l.phase ≡ handling → Step l (event_read l)
  swap : l.phase ≡ handling → Step l (take_pending l)
  run :
      (task : A) (rest : List A)
      → l.phase ≡ draining
      → l.running ≡ task ∷ rest
      → Step l (run_task l task rest)
  again : l.phase ≡ draining → l.running ≡ [] → Step l (record l { phase = polling })

pub data Reach {A : Type 0} (l : EventLoop A) : EventLoop A → Type 0 where
  here : Reach l l
  next : {m n : EventLoop A} → Reach l m → Step m n → Reach l n
