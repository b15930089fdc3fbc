-- ===== src/Muduo/EventLoop/Queue.antt =====
-- What is true of an event loop after any steps of the threads.
use linux_os.Base.{
  ℕ, ◌+◌, ◌<◌, ◌≡◌, refl, sym, subst, ◌∙◌, List, [], ◌∷◌, ◌++◌, append_assoc, append-nil, arith,
  length,
}
use linux_os.Muduo.EventLoop.{
  EventLoop, Phase, polling, handling, draining, new_loop, queue_in_loop, wake_up, event_read,
  take_pending, run_task, Step, queue, wake, poll, read_event, swap, run, again, Reach, here, next,
}

-- Only DoPendingTask has tasks in hand. While the loop handles events it has not looked at its
-- queue yet; otherwise, where tasks are queued, the event descriptor is raised or a thread is
-- about to raise it.
abbrev pub IsWoken : {A : Type 0} → EventLoop A → Type 0
IsWoken l = 0 < length l.pending → 0 < l.event_count + l.wakers

abbrev pub InPhase : {A : Type 0} → Phase → EventLoop A → Type 0
InPhase polling l = (l.running ≡ []) × IsWoken l
InPhase handling l = l.running ≡ []
InPhase draining l = IsWoken l

pub record Inv {A : Type 0} (l : EventLoop A) : Type 0 where
  pub in_order : l.queued ≡ l.ran ++ l.running ++ l.pending
  pub phased : InPhase l.phase l

no_elements {ℓ} : {A : Type ℓ} (xs : List A) → (0 < length xs → ⊥) → xs ≡ []
no_elements [] h = refl
no_elements (x ∷ xs) h = absurd (h (omega arith))

module _ {A : Type 0} where
  queue-phased :
      (p : Phase) (l : EventLoop A) (task : A) → InPhase p l → InPhase p (queue_in_loop l task)
  unfolding queue_in_loop
  queue-phased polling l task (idle, w) = (idle, λ h. omega arith)
  queue-phased handling l task idle = idle
  queue-phased draining l task w = λ h. omega arith

  wake-phased : (p : Phase) (l : EventLoop A) (n : ℕ) → InPhase p l → InPhase p (wake_up l n)
  unfolding wake_up
  wake-phased polling l n (idle, w) = (idle, λ h. omega arith)
  wake-phased handling l n idle = idle
  wake-phased draining l n w = λ h. omega arith

  idle_handling : (l : EventLoop A) → l.phase ≡ handling → InPhase l.phase l → l.running ≡ []
  idle_handling l e h = subst (λ p. InPhase p l) e h

  Step-Inv : {l m : EventLoop A} → Step l m → Inv l → Inv m
  unfolding queue_in_loop wake_up event_read take_pending run_task
  Step-Inv {l} (queue task) i = record {
    in_order = rw (i.in_order, append_assoc) refl;
    phased = queue-phased l.phase l task i.phased;
  }
  Step-Inv {l} (wake n e) i = record {
    in_order = i.in_order;
    phased = wake-phased l.phase l n i.phased;
  }
  Step-Inv {l} (poll e) i =
      let (idle, w) : InPhase polling l = subst (λ p. InPhase p l) e i.phased in
      record { in_order = i.in_order; phased = idle }
  Step-Inv {l} (read_event e) i =
      let idle = idle_handling l e i.phased in
      record { in_order = i.in_order; phased = subst (λ p. InPhase p (event_read l)) (sym e) idle }
  Step-Inv {l} (swap e) i =
      let idle = idle_handling l e i.phased in
      record {
        in_order = i.in_order ∙ simp (idle, append-nil);
        phased = λ h. absurd (omega (arith, h));
      }
  Step-Inv {l} (run task rest e e') i =
      let w : IsWoken l = subst (λ p. InPhase p l) e i.phased in
      record {
        in_order = i.in_order ∙ simp (e', append_assoc);
        phased = subst (λ p. InPhase p (run_task l task rest)) (sym e) w;
      }
  Step-Inv {l} (again e e') i =
      let w : IsWoken l = subst (λ p. InPhase p l) e i.phased in
      record { in_order = i.in_order; phased = (e', w) }

  steps-Inv : {l m : EventLoop A} → Inv l → Reach l m → Inv m
  steps-Inv i here = i
  steps-Inv i (next r st) = Step-Inv st (steps-Inv i r)

module _ {A : Type 0} where
  new_loop-Inv : Inv {A = A} new_loop
  unfolding new_loop
  new_loop-Inv = record { in_order = refl; phased = (refl, λ h. omega (arith, h)) }

  -- Whatever steps the threads make, the tasks that were queued are, in their order, those that
  -- ran, those that DoPendingTask has in hand and those that are pending; and a loop that waits for
  -- events with tasks pending is woken, or a thread is about to wake it.
  pub Reach-Inv : {m : EventLoop A} → Reach new_loop m → Inv m
  Reach-Inv r = steps-Inv new_loop-Inv r

  -- A loop that waits for events while its event descriptor is not raised and no thread is about to
  -- raise it has run every task that was queued, in order.
  pub asleep-ran :
      (m : EventLoop A)
      → Reach new_loop m
      → m.phase ≡ polling
      → m.event_count ≡ 0
      → m.wakers ≡ 0
      → m.ran ≡ m.queued
  asleep-ran m r e none_raised none_waking =
      let i = Reach-Inv r in
      let (idle, w) : InPhase polling m = subst (λ p. InPhase p m) e i.phased in
      let nothing = no_elements m.pending (λ h. omega (arith, w h, none_raised, none_waking)) in
      sym (i.in_order ∙ simp (idle, nothing, append-nil))
