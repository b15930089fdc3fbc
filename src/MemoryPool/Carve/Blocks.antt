-- ===== src/MemoryPool/Carve/Blocks.antt =====
-- The blocks of a new span.
use linux_os.Base.{
  lt→ltb, ℕ, zero, suc, ◌+◌, ◌*◌, ◌%◌, ◌<◌, ◌≤◌, ◌≡◌, ◌↔◌, refl, some, List, [], ◌∷◌, arith,
}
use native.Mathlib.Decide.{dec_lt}
use native.Mathlib.Nat.{mul-mod_left, div-add-mod}
use linux_os.MemoryPool.Memory.{Ptr, null, Memory, set_next, NotIn, Chain, SameOutside}
use linux_os.MemoryPool.Carve.{link_blocks, carve}

-- `n` blocks of `size` bytes from `p` on.
abbrev pub blocks : Ptr → ℕ → ℕ → List Ptr
blocks p size zero = []
blocks p size (suc n) = p ∷ blocks (p + size) size n

NotIn-blocks : (a p size : ℕ) (n : ℕ) → a < p → NotIn a (blocks p size n)
NotIn-blocks a p size zero h = tt
NotIn-blocks a p size (suc n) h =
    ((λ e. omega arith), NotIn-blocks a (p + size) size n (omega arith))

-- What the loop has made when it stops, started with the block at `t` linked as the last.
abbrev Linked : ℕ → Ptr → Ptr → ℕ → Memory → ℕ → Memory → Type 0
Linked f t end_bound size m n m' =
    (link_blocks f t (t + size) end_bound size m ≡ some m')
    × (t + n * size < end_bound)
    × (end_bound ≤ t + suc n * size)
    × Chain m' t (blocks t size (suc n))
    × SameOutside (blocks t size (suc n)) m m'

record Runs (f t end_bound size : ℕ) (m : Memory) : Type 0 where
  more_blocks : ℕ
  after : Memory
  linked : Linked f t end_bound size m more_blocks after

module _ (size end_bound : ℕ) (pos : 0 < size) where
  link_last :
      (f t : ℕ) (m : Memory)
      → 0 < t
      → t < end_bound
      → end_bound ≤ t + size
      → Linked (suc f) t end_bound size m 0 (set_next m t null)
  unfolding link_blocks set_next
  link_last f t m t_pos room stop =
      (ground arith, omega arith, omega arith, ground arith, λ a out. ground arith)

  link_next :
      (f t n : ℕ) (m m' : Memory)
      → 0 < t
      → t + size < end_bound
      → Linked f (t + size) end_bound size (set_next m t (t + size)) n m'
      → Linked (suc f) t end_bound size m (suc n) m'
  unfolding link_blocks set_next
  link_next f t n m m' t_pos more (e, lo, hi, chain, same) =
      let out = NotIn-blocks t (t + size) size (suc n) (omega arith) in
      let link : m' t ≡ t + size = ground (arith, same t out) in
      (
        rw (lt→ltb _ _ more) e,
        omega arith,
        omega arith,
        (refl, (λ z. omega arith), out, rw link chain),
        λ a away. ground (arith, same a away.1),
      )

  link_blocks-Linked :
      (f t : ℕ) (m : Memory) → 0 < t → t < end_bound → end_bound ≤ t + f → Runs f t end_bound size m
  link_blocks-Linked zero t m t_pos room fuel = absurd (omega arith)
  link_blocks-Linked (suc f) t m t_pos room fuel = elim (dec_lt (t + size) end_bound) [
    | yes more ↦
        let rest =
          link_blocks-Linked f (t + size) (set_next m t (t + size)) (omega arith) more
            (omega arith) in
        record {
          more_blocks = suc rest.more_blocks;
          after = rest.after;
          linked = link_next f t rest.more_blocks m rest.after t_pos more rest.linked;
        }
    | no done ↦ record {
      more_blocks = 0;
      after = set_next m t null;
      linked = link_last f t m t_pos room (omega arith);
    }
  ]

-- A span of at least one block's bytes is cut into the blocks of `size` bytes that begin inside it,
-- from its first byte on, linked in order of address; `bytes` rounds of fuel are enough, and
-- nothing else is written.
pub carve-blocks :
    (begin bytes size : ℕ) (m : Memory)
    → 0 < begin
    → 0 < size
    → 0 < bytes
    → (n : ℕ) × (m' : Memory) × (carve bytes begin bytes size m ≡ some m')
      × Chain m' begin (blocks begin size n)
      × (bytes ≤ n * size)
      × (n * size < bytes + size)
      × SameOutside (blocks begin size n) m m'
unfolding carve
carve-blocks begin bytes size m b_pos pos some_bytes =
    let run =
      link_blocks-Linked size (begin + bytes) pos bytes begin m b_pos (omega arith) (omega arith) in
    let (e, lo, hi, chain, same) = run.linked in
    (suc run.more_blocks, run.after, e, chain, omega arith, omega arith, same)

whole_blocks_iff :
    (n bytes size : ℕ)
    → 0 < size
    → bytes ≤ n * size
    → n * size < bytes + size
    → (n * size ≤ bytes) ↔ (bytes % size ≡ 0)
whole_blocks_iff n bytes size pos lo hi = (
  λ h. let e : bytes ≡ n * size = omega arith in rw e (mul-mod_left n size),
  λ h. grind (arith, div-add-mod bytes size),
)

-- The last of those blocks ends inside the span exactly when the block size divides the span's
-- bytes: the loop tests where a block begins, not where it ends.
pub carve-fits_iff :
    (begin bytes size : ℕ) (m : Memory)
    → 0 < begin
    → 0 < size
    → 0 < bytes
    → (n : ℕ) × (m' : Memory) × (carve bytes begin bytes size m ≡ some m')
      × Chain m' begin (blocks begin size n)
      × ((begin + n * size ≤ begin + bytes) ↔ (bytes % size ≡ 0))
carve-fits_iff begin bytes size m b_pos pos some_bytes =
    let (n, m', e, chain, lo, hi, _) = carve-blocks begin bytes size m b_pos pos some_bytes in
    let (fits, divides) = whole_blocks_iff n bytes size pos lo hi in
    (n, m', e, chain, (λ h. fits (omega arith), λ h. omega (arith, divides h)))
