-- ===== src/Muduo/TimerWheel/Release.antt =====
-- What the clearing of a slot does: which functions run, and what is left of the wheel.
use linux_os.Base.{
  ℕ, ◌≡◌, refl, ap, ◌∙◌, List, [], ◌∷◌, ◌++◌, Bool, not, ◌||◌, ◌&&◌, arith, if◌then◌else◌,
}
use linux_os.Muduo.TimerWheel.{TimerWheel, contains, is_alive, destroy, release}

-- Only the record may differ.
pub record SameTasks (w w' : TimerWheel) : Type 0 where
  pub wheels : w'.wheels ≡ w.wheels
  pub tasks : w'.tasks ≡ w.tasks
  pub tick : w'.tick ≡ w.tick
  pub next_task : w'.next_task ≡ w.next_task

pub contains-append :
    (t : ℕ) (xs ys : List ℕ) → contains t (xs ++ ys) ≡ (contains t xs || contains t ys)
unfolding contains
contains-append t [] ys = refl
contains-append t (x ∷ xs) ys = ground (arith, contains-append t xs ys)

-- What the release of one pointer leaves, and what runs.
abbrev pub step : ℕ → List ℕ → TimerWheel → TimerWheel × List ℕ
step t rest w = if contains t rest || is_alive w t then (w, []) else destroy w t

pub step-SameTasks : (t : ℕ) (rest : List ℕ) (w : TimerWheel) → SameTasks w (step t rest w).0
unfolding destroy
step-SameTasks t rest w = ground arith

release-cons :
    (t : ℕ) (rest : List ℕ) (w : TimerWheel)
    → ((release (t ∷ rest) w).0 ≡ (release rest (step t rest w).0).0)
      × ((release (t ∷ rest) w).1 ≡ (step t rest w).1 ++ (release rest (step t rest w).0).1)
unfolding release
release-cons t rest w = (refl, refl)

SameTasks-trans : {u v w : TimerWheel} → SameTasks u v → SameTasks v w → SameTasks u w
SameTasks-trans p q = ground arith

pub release-SameTasks : (ts : List ℕ) (w : TimerWheel) → SameTasks w (release ts w).0
unfolding release
release-SameTasks [] w = ground arith
release-SameTasks (t ∷ rest) w =
    SameTasks-trans (step-SameTasks t rest w) (release-SameTasks rest (step t rest w).0)

-- The timer function of a task runs when it stands in the cleared slot, no slot holds it any more
-- and it was not cancelled.
abbrev pub runs : ℕ → List ℕ → TimerWheel → Bool
runs r ts w = contains r ts && (not (is_alive w r) && not (w.tasks r).cancel)

step-runs :
    (r t : ℕ) (rest : List ℕ) (w : TimerWheel)
    → (contains r (step t rest w).1 || runs r rest (step t rest w).0) ≡ runs r (t ∷ rest) w
unfolding contains destroy is_alive
step-runs r t rest w = ground arith

pub contains-release :
    (r : ℕ) (ts : List ℕ) (w : TimerWheel) → contains r (release ts w).1 ≡ runs r ts w
unfolding release contains
contains-release r [] w = refl
contains-release r (t ∷ rest) w =
    contains-append r (step t rest w).1 (release rest (step t rest w).0).1
    ∙ ap (λ b. contains r (step t rest w).1 || b) (contains-release r rest (step t rest w).0)
    ∙ step-runs r t rest w
