-- ===== src/MemoryPool/SizeClass/Batches.antt =====
-- SizeClass::NumMoveSize and NumMovePage: how many blocks and pages move at once.
use native.Mathlib.Nat.{div-mul-le_self}
use linux_os.Base.{ℕ, ◌+◌, ◌*◌, ◌/◌, ◌≤◌, ◌<◌, ◌≡◌, some, arith, ltb, if◌then◌else◌}
use linux_os.MemoryPool.SizeClass.{max_bytes, page_size, pages_for, num_move_size, num_move_page}

-- The count that NumMoveSize clamps.
abbrev clamped : ℕ → ℕ
clamped nums = if ltb nums 2 then 2 else if ltb 512 nums then 512 else nums

num_move_size-clamped :
    (size : ℕ) → 0 < size → num_move_size size ≡ some (clamped (max_bytes / size))
unfolding num_move_size
num_move_size-clamped size h = ground arith

clamped_bounds :
    (q size : ℕ)
    → q * size ≤ max_bytes
    → size ≤ 262144
    → (2 ≤ clamped q) × (clamped q ≤ 512) × (clamped q * size ≤ max_bytes)
clamped_bounds q size h f = grind arith

module _ (size : ℕ) (pos : 0 < size) (fits : size ≤ 262144) where
  -- For a block size up to 256 KB between 2 and 512 blocks move at once, MAX_BYTES bytes at most.
  pub num_move_size_bounds :
      (n : ℕ) × (num_move_size size ≡ some n) × (2 ≤ n) × (n ≤ 512) × (n * size ≤ max_bytes)
  num_move_size_bounds =
      let (l, u, b) =
        clamped_bounds (max_bytes / size) size (div-mul-le_self max_bytes size) fits in
      (clamped (max_bytes / size), num_move_size-clamped size pos, l, u, b)

pages_for_bounds :
    (n size : ℕ)
    → 0 < n * size
    → n * size ≤ max_bytes
    → (1 ≤ pages_for n size)
      × (pages_for n size ≤ 64)
      × (n * size ≤ pages_for n size * page_size)
      × (pages_for n size * page_size < n * size + page_size)
unfolding pages_for
pages_for_bounds n size h f = ground arith

-- A span for a size class has 1 to 64 pages, so it is cut from the page cache's lists; it holds
-- the whole batch of blocks that NumMoveSize names, and wastes less than a page on it.
pub num_move_page_bounds :
    (size : ℕ)
    → 0 < size
    → size ≤ 262144
    → (n p : ℕ) × (num_move_size size ≡ some n)
      × (num_move_page size ≡ some p)
      × (1 ≤ p)
      × (p ≤ 64)
      × (n * size ≤ p * page_size)
      × (p * page_size < n * size + page_size)
unfolding num_move_page
num_move_page_bounds size pos fits =
    let (n, e, l, u, b) = num_move_size_bounds size pos fits in
    let some_block : 0 < n * size = grind arith in
    let (p1, p2, p3, p4) = pages_for_bounds n size some_block b in
    (n, pages_for n size, e, rw (e, num_move_page), p1, p2, p3, p4)
