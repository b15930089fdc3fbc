-- ===== src/Muduo/EventLoop/Tests.antt =====
-- A loop on which one task was queued, which woke it and ran.
use linux_os.Base.{ℕ, ◌≡◌, refl, []}
use linux_os.Muduo.EventLoop.{
  EventLoop, polling, handling, new_loop, queue_in_loop, wake_up, event_read, take_pending,
  run_task, Reach, here, next, queue, wake, poll, read_event, swap, run, again,
}
use linux_os.Muduo.EventLoop.Queue.{Inv, Reach-Inv, asleep-ran}

abbrev woken : EventLoop ℕ
woken = wake_up (queue_in_loop new_loop 3) 0

abbrev handled : EventLoop ℕ
handled = take_pending (event_read (record woken { phase = handling }))

abbrev served : EventLoop ℕ
served = record (run_task handled 3 []) { phase = polling }

served-Reach : Reach new_loop served
unfolding new_loop queue_in_loop wake_up event_read take_pending run_task
served-Reach =
    next
      (next
        (next (next (next (next (next here (queue 3)) (wake 0 refl)) (poll refl)) (read_event refl))
          (swap refl))
        (run 3 [] refl refl))
      (again refl refl)

Reach-Inv_example : Inv served
Reach-Inv_example = Reach-Inv served-Reach

asleep-ran_example : served.ran ≡ served.queued
unfolding new_loop queue_in_loop wake_up event_read take_pending run_task
asleep-ran_example = asleep-ran served served-Reach refl refl refl
