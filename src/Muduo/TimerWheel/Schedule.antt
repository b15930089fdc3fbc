-- ===== src/Muduo/TimerWheel/Schedule.antt =====
-- When the function of a timer task runs.
use mathlib.Core.Path.{subst}
use native.Mathlib.Decide.{dec_le, ℕ_discrete}
use linux_os.Base.{
  ℕ, zero, suc, ◌+◌, ◌-◌, ◌%◌, ◌<◌, ◌≤◌, ◌≡◌, ◌≢◌, refl, ap, ◌∙◌, List, [], ◌++◌, Bool, true, false,
  not, ◌&&◌, arith, ◌==◌, if◌then◌else◌, update, leb,
}
use linux_os.Muduo.TimerWheel.{
  TimerWheel, capacity, contains, held_below, is_alive, release, advance, ticks,
}
use linux_os.Muduo.TimerWheel.Release.{
  SameTasks, release-SameTasks, contains-release, contains-append, runs,
}

-- The last slot that holds the task is the one that the wheel reaches in `k` ticks.
pub record LastIn (w : TimerWheel) (r k : ℕ) : Type 0 where
  pub on_wheel : w.tick < capacity
  pub ahead : (1 ≤ k) × (k ≤ capacity)
  pub held : contains r (w.wheels ((w.tick + k) % capacity)) ≡ true
  pub no_later :
      (j : ℕ) → k < j → j ≤ capacity → contains r (w.wheels ((w.tick + j) % capacity)) ≡ false

pub held_below-true :
    (n i r : ℕ) (wheels : ℕ → List ℕ)
    → i < n
    → contains r (wheels i) ≡ true
    → held_below n wheels r ≡ true
unfolding held_below
held_below-true zero i r wheels h e = absurd (omega arith)
held_below-true (suc n) i r wheels h e = elim (ℕ_discrete i n) [
  | yes same ↦ let here = subst (λ k. contains r (wheels k) ≡ true) same e in rw here
  | no other ↦ ground (arith, held_below-true n i r wheels (omega arith) e)
]

held_below-false :
    (n r : ℕ) (wheels : ℕ → List ℕ)
    → ((i : ℕ) → i < n → contains r (wheels i) ≡ false)
    → held_below n wheels r ≡ false
unfolding held_below
held_below-false zero r wheels h = refl
held_below-false (suc n) r wheels h =
    let below = held_below-false n r wheels (λ i l. h i (omega arith)) in
    rw (h n (omega arith)) below

-- The wheel after the slot that the tick moves to is taken off.
unfoldable pub cleared : TimerWheel → TimerWheel
cleared w = record w {
  tick = (w.tick + 1) % capacity;
  wheels = update w.wheels ((w.tick + 1) % capacity) [];
}

pub advance-release :
    (w : TimerWheel) → advance w ≡ release (w.wheels ((w.tick + 1) % capacity)) (cleared w)
unfolding advance cleared
advance-release w = refl

contains-emptied :
    (r s i : ℕ) (wheels : ℕ → List ℕ)
    → contains r (update wheels s [] i) ≡ (if i == s then false else contains r (wheels i))
unfolding update contains
contains-emptied r s i wheels = ground arith

-- Every slot is ahead of the hand by 1 to 60 ticks.
ticks_to : ℕ → ℕ → ℕ
ticks_to tick i = if leb i tick then i + 60 - tick else i - tick

slot_ahead :
    (tick i : ℕ)
    → tick < 60
    → i < 60
    → ((tick + ticks_to tick i) % 60 ≡ i) × (1 ≤ ticks_to tick i) × (ticks_to tick i ≤ 60)
unfolding ticks_to
slot_ahead tick i h k = ground arith

not_next : (tick i k : ℕ) → (tick + k) % 60 ≡ i → 1 ≤ k → i ≢ (tick + 1) % capacity → 1 < k
not_next tick i (suc zero) e lo ne = absurd (ne (omega arith))
not_next tick i (suc (suc k)) e lo ne = omega arith
not_next tick i zero e lo ne = absurd (omega arith)

module _ (w : TimerWheel) (r : ℕ) where
  -- With one tick to go nothing holds the task once the slot is cleared.
  pub cleared-dead : LastIn w r 1 → is_alive (cleared w) r ≡ false
  unfolding is_alive cleared
  cleared-dead l = held_below-false capacity r _ λ i h.
      let (at, lo, hi) = slot_ahead w.tick i l.on_wheel h in
      let emptied = contains-emptied r ((w.tick + 1) % capacity) i w.wheels in
      elim (ℕ_discrete i ((w.tick + 1) % capacity)) [
        | yes one ↦ ground (arith, emptied)
        | no more ↦
            let further : 1 < ticks_to w.tick i =
              not_next w.tick i (ticks_to w.tick i) at lo more in
            let empty =
              subst (λ s. contains r (w.wheels s) ≡ false) at
                (l.no_later (ticks_to w.tick i) further hi) in
            ground (arith, emptied, empty)
      ]

  pub cleared-alive : (k : ℕ) → LastIn w r (suc (suc k)) → is_alive (cleared w) r ≡ true
  unfolding is_alive cleared
  cleared-alive k l =
      held_below-true capacity ((w.tick + suc (suc k)) % capacity) r _ (omega arith) (
        ground (
          arith,
          contains-emptied r ((w.tick + 1) % capacity) ((w.tick + suc (suc k)) % capacity) w.wheels,
          l.held,
          l.ahead,
        ))

  advance-fires : LastIn w r 1 → contains r (advance w).1 ≡ not (w.tasks r).cancel
  unfolding cleared
  advance-fires l = rw (advance-release w) (
      contains-release r (w.wheels ((w.tick + 1) % capacity)) (cleared w)
      ∙ ran (is_alive (cleared w) r) l.held (cleared-dead l))
    where
      ran :
          (alive : Bool)
          → contains r (w.wheels ((w.tick + 1) % capacity)) ≡ true
          → alive ≡ false
          → (contains r (w.wheels ((w.tick + 1) % capacity))
              && (not alive && not (w.tasks r).cancel))
            ≡ not (w.tasks r).cancel
      ran alive h d = rw (h, d)

  advance-waits : (k : ℕ) → LastIn w r (suc (suc k)) → contains r (advance w).1 ≡ false
  advance-waits k l =
      rw (advance-release w)
        (contains-release r (w.wheels ((w.tick + 1) % capacity)) (cleared w) ∙ waits)
    where
      waits : runs r (w.wheels ((w.tick + 1) % capacity)) (cleared w) ≡ false
      waits = ground (arith, cleared-alive k l)

  -- Apart from the record a tick only moves the hand and clears the slot.
  pub advance-SameTasks : SameTasks (cleared w) (advance w).0
  advance-SameTasks =
      rw (advance-release w) (release-SameTasks (w.wheels ((w.tick + 1) % capacity)) (cleared w))

  pub tasks-advance : (advance w).0.tasks ≡ w.tasks
  unfolding cleared
  tasks-advance = advance-SameTasks.tasks

  pub tick-advance : (advance w).0.tick ≡ (w.tick + 1) % capacity
  unfolding cleared
  tick-advance = advance-SameTasks.tick

  wheels-advance : (advance w).0.wheels ≡ update w.wheels ((w.tick + 1) % capacity) []
  unfolding cleared
  wheels-advance = advance-SameTasks.wheels

  slot_shift : (j : ℕ) → ((w.tick + 1) % capacity + j) % capacity ≡ (w.tick + suc j) % capacity
  slot_shift j = omega arith

  still_held :
      (k : ℕ)
      → LastIn w r (suc (suc k))
      → contains r (
          update w.wheels
            ((w.tick + 1) % capacity)
            []
            (((w.tick + 1) % capacity + suc k) % capacity))
        ≡ true
  still_held k l =
      let other : (w.tick + suc (suc k)) % capacity ≢ (w.tick + 1) % capacity =
        omega (arith, l.ahead, l.on_wheel) in
      rw
        (
          slot_shift (suc k),
          contains-emptied r ((w.tick + 1) % capacity) ((w.tick + suc (suc k)) % capacity) w.wheels,
        )
        (ground (arith, l.held, other))

  none_later :
      (k : ℕ)
      → LastIn w r (suc (suc k))
      → (j : ℕ) → suc k < j
      → j ≤ capacity
      → contains r
          (update w.wheels ((w.tick + 1) % capacity) [] (((w.tick + 1) % capacity + j) % capacity))
        ≡ false
  none_later k l j lo hi =
      rw
        (
          slot_shift j,
          contains-emptied r ((w.tick + 1) % capacity) ((w.tick + suc j) % capacity) w.wheels,
        )
        (elim (dec_le (suc j) capacity) [
          | yes inside ↦ ground (arith, l.no_later (suc j) (omega arith) inside)
          | no outside ↦
              let same : (w.tick + suc j) % capacity ≡ (w.tick + 1) % capacity = omega arith in
              ground (arith, same)
        ])

  pub advance-LastIn : (k : ℕ) → LastIn w r (suc (suc k)) → LastIn (advance w).0 r (suc k)
  advance-LastIn k l = record {
    on_wheel = rw tick-advance (omega arith);
    ahead = omega (arith, l.ahead);
    held = rw (tick-advance, wheels-advance) (still_held k l);
    no_later = λ j lo hi. rw (tick-advance, wheels-advance) (none_later k l j lo hi);
  }

pub ticks-suc :
    (n : ℕ) (w : TimerWheel)
    → ((ticks (suc n) w).1 ≡ (advance w).1 ++ (ticks n (advance w).0).1)
      × ((ticks (suc n) w).0 ≡ (ticks n (advance w).0).0)
unfolding ticks
ticks-suc n w = (refl, refl)

-- A task whose last slot is `k` ticks ahead does not run in fewer ticks.
pub ticks-waits :
    (n k : ℕ) (w : TimerWheel) (r : ℕ) → LastIn w r k → n < k → contains r (ticks n w).1 ≡ false
unfolding ticks contains
ticks-waits zero k w r l h = refl
ticks-waits (suc n) (suc zero) w r l h = absurd (omega arith)
ticks-waits (suc n) zero w r l h = absurd (omega arith)
ticks-waits (suc n) (suc (suc k)) w r l h =
    let now = advance-waits w r k l in
    let later = ticks-waits n (suc k) (advance w).0 r (advance-LastIn w r k l) (omega arith) in
    rw (contains-append r (advance w).1 (ticks n (advance w).0).1, now, later)

-- And runs in `k` ticks, unless it is cancelled.
pub ticks-fires :
    (k : ℕ) (w : TimerWheel) (r : ℕ)
    → LastIn w r k
    → contains r (ticks k w).1 ≡ not (w.tasks r).cancel
unfolding ticks contains
ticks-fires zero w r l = absurd (omega (arith, l.ahead))
ticks-fires (suc zero) w r l =
    rw (contains-append r (advance w).1 [], advance-fires w r l) (ground arith)
ticks-fires (suc (suc k)) w r l =
    let now = advance-waits w r k l in
    let later = ticks-fires (suc k) (advance w).0 r (advance-LastIn w r k l) in
    rw (contains-append r (advance w).1 (ticks (suc k) (advance w).0).1, now)
      (later ∙ ap (λ tasks. not (tasks r).cancel) (tasks-advance w r))
