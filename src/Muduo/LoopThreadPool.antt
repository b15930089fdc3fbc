-- ===== src/Muduo/LoopThreadPool.antt =====
-- muduo/server.hpp, class LoopThreadPool: which loop the next connection gets. A loop is a value of a
-- type `A`; `loops` are those of the threads that InitPool has started.
mod Tests
use native.Mathlib.Nat.{mod-lt, mod-add-mod}
use linux_os.Base.{
  ℕ, zero, suc, ◌+◌, ◌-◌, ◌%◌, ◌<◌, ◌≤◌, ◌≡◌, refl, ap, ◌∙◌, sym, List, [], ◌∷◌, ◌++◌, Option, none,
  some, Bool, true, false, arith, ltb, if◌then◌else◌, length, get_elem?, Bool-cases, inl, inr,
  lt→ltb,
}

pub record LoopThreadPool (A : Type 0) : Type 0 where
  pub threads_size : ℕ
  pub thread_index : ℕ
  pub base_loop : A
  pub loops : List A

unfoldable pub new_pool : {A : Type 0} → A → LoopThreadPool A
new_pool base = record { threads_size = 0; thread_index = 0; base_loop = base; loops = [] }

-- InitPool, for the loops of as many threads as were started.
unfoldable pub init_pool : {A : Type 0} → LoopThreadPool A → ℕ → List A → LoopThreadPool A
init_pool p threads_size started =
    if ltb 0 threads_size
    then (record p { threads_size = threads_size; loops = p.loops ++ started })
    else (record p { threads_size = threads_size })

-- GetNextLoopThread; `none` is an index out of range.
unfoldable pub get_next_loop_thread : {A : Type 0} → LoopThreadPool A → Option A × LoopThreadPool A
get_next_loop_thread p =
    if ltb 0 p.threads_size
    then (let i = (p.thread_index + 1) % p.threads_size in
        (get_elem? p.loops i, record p { thread_index = i }))
    else (some p.base_loop, p)

-- The pool after `n` calls.
unfoldable pub after_calls : {A : Type 0} → ℕ → LoopThreadPool A → LoopThreadPool A
unfolding get_next_loop_thread
after_calls zero p = p
after_calls (suc n) p = (get_next_loop_thread (after_calls n p)).1

-- Every loop of the threads can be asked for.
pub record IsReady {A : Type 0} (p : LoopThreadPool A) : Type 0 where
  pub started : length p.loops ≡ p.threads_size
  pub some_thread : 0 < p.threads_size
  pub in_range : p.thread_index < p.threads_size

in_range-get {ℓ} :
    {A : Type ℓ} (xs : List A) (i : ℕ) → i < length xs → (a : A) × (get_elem? xs i ≡ some a)
in_range-get [] i h = absurd (omega (arith, h))
in_range-get (x ∷ xs) zero h = (x, refl)
in_range-get (x ∷ xs) (suc i) h = in_range-get xs i (omega (arith, h))

module _ {A : Type 0} where
  next_with :
      (p : LoopThreadPool A)
      → 0 < p.threads_size
      → get_next_loop_thread p ≡ (
        get_elem? p.loops ((p.thread_index + 1) % p.threads_size),
        record p { thread_index = (p.thread_index + 1) % p.threads_size },
      )
  unfolding get_next_loop_thread
  next_with p h = rw (lt→ltb 0 p.threads_size h)

  -- The index after `n` calls.
  index-after_calls :
      (n : ℕ) (p : LoopThreadPool A)
      → 0 < p.threads_size
      → p.thread_index < p.threads_size
      → after_calls n p ≡ record p { thread_index = (p.thread_index + n) % p.threads_size }
  unfolding after_calls
  index-after_calls zero p h i =
      let same : (p.thread_index + 0) % p.threads_size ≡ p.thread_index = grind (arith, i) in
      ap (λ k. record p { thread_index = k }) (sym same)
  index-after_calls (suc n) p h i =
      let index = (p.thread_index + n) % p.threads_size in
      let sum : (index + 1) % p.threads_size ≡ (p.thread_index + suc n) % p.threads_size =
        mod-add-mod (p.thread_index + n) p.threads_size 1
        ∙ ap (λ k. k % p.threads_size) (omega arith) in
      ap (λ q. (get_next_loop_thread q).1) (index-after_calls n p h i)
      ∙ ap (λ r. r.1) (next_with (record p { thread_index = index }) h)
      ∙ ap (λ k. record p { thread_index = k }) sum

  -- With threads, the call after `n` others gives the loop that stands `n + 1` places behind the
  -- index, counted round: no loop is left out, and no index is out of range.
  pub get_next_loop_thread-round_robin :
      (n : ℕ) (p : LoopThreadPool A)
      → IsReady p
      → (loop : A) × ((get_next_loop_thread (after_calls n p)).0 ≡ some loop)
        × (get_elem? p.loops ((p.thread_index + suc n) % p.threads_size) ≡ some loop)
  get_next_loop_thread-round_robin n p r =
      let slot = (p.thread_index + suc n) % p.threads_size in
      let (loop, found) =
        in_range-get p.loops slot (
          grind (arith, r.started, r.some_thread, mod-lt (p.thread_index + suc n) r.some_thread)) in
      let index = (p.thread_index + n) % p.threads_size in
      let sum : (index + 1) % p.threads_size ≡ slot =
        mod-add-mod (p.thread_index + n) p.threads_size 1
        ∙ ap (λ k. k % p.threads_size) (omega arith) in
      (
        loop,
        ap (λ q. (get_next_loop_thread q).0) (index-after_calls n p r.some_thread r.in_range)
            ∙ ap (λ q. q.0) (next_with (record p { thread_index = index }) r.some_thread)
            ∙ ap (get_elem? p.loops) sum
            ∙ found,
        found,
      )
