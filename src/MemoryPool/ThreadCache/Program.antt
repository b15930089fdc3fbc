-- ===== src/MemoryPool/ThreadCache/Program.antt =====
-- ConcurrentMalloc and ConcurrentDelete, as the program calls them.
use linux_os.Base.{ℕ, ◌/◌, ◌<◌, ◌≤◌, ◌≡◌, ◌≢◌, refl, ◌∙◌, List, Option, some, false, arith, ltb}
use linux_os.MemoryPool.Memory.{Ptr, null}
use linux_os.MemoryPool.SizeClass.{max_bytes, page_size}
use linux_os.MemoryPool.SizeClass.Buckets.{index-round_up}
use linux_os.MemoryPool.PageCache.{page_to_span}
use linux_os.MemoryPool.PageCache.NewSpan.Grow.{Fresh}
use linux_os.MemoryPool.ThreadCache.{
  ThreadCache, allocate, deallocate, concurrent_malloc, concurrent_delete,
}
use linux_os.MemoryPool.ThreadCache.Laws.{Ready, Lent, Allocated}
use linux_os.MemoryPool.ThreadCache.Free.{Freed, deallocate-Freed}
use linux_os.MemoryPool.ThreadCache.Malloc.{allocate-Allocated}

runs_small :
    (system_alloc : ℕ → ℕ) (h : ThreadCache) (size : ℕ)
    → size ≤ 262144
    → concurrent_malloc system_alloc h size ≡ allocate system_alloc h size
unfolding concurrent_malloc
runs_small system_alloc h size fits =
    let small : ltb max_bytes size ≡ false = ground (arith, fits) in rw (small) refl

-- ConcurrentMalloc of 1 byte to 256 KB on a thread cache in order returns, given that the system gives
-- pages that are not in hand: a block, not null, that was not lent to the program. It now is, the blocks
-- that were lent still are and no others, and the thread cache, the central cache and the page cache are
-- in order.
pub concurrent_malloc-Allocated :
    (system_alloc : ℕ → ℕ) (h : ThreadCache) (free out cached : ℕ → List Ptr) (size : ℕ)
    → Ready h free out cached
    → 0 < size
    → size ≤ 262144
    → Fresh h.central.pages (system_alloc h.central.pages.allocations) 128
    → (i : ℕ) × (b : Ptr) × (h' : ThreadCache) × (concurrent_malloc system_alloc h size
        ≡ some (b, h'))
      × Allocated h out cached i b h'
concurrent_malloc-Allocated system_alloc h free out cached size r pos fits fresh =
    let (i, b, h', _, runs, done) =
      allocate-Allocated system_alloc h free out cached r size pos fits fresh in
    (i, b, h', runs_small system_alloc h size fits ∙ runs, done)

runs_delete :
    (h : ThreadCache) (b : Ptr) (s : ℕ) {result : Option ThreadCache}
    → page_to_span h.central.pages (b / page_size) ≡ some s
    → (h.central.pages.spans s).obj_size ≤ 262144
    → deallocate h b (h.central.pages.spans s).obj_size ≡ result
    → concurrent_delete h b ≡ result
unfolding concurrent_delete
runs_delete h b s on fits goes =
    let small : ltb max_bytes (h.central.pages.spans s).obj_size ≡ false = ground (arith, fits) in
    rw (concurrent_delete, on, small) goes

-- ConcurrentDelete of a block, not null, that is lent to the program, on a thread cache in order,
-- returns: it finds the size of the block by its page, the block is lent no more, all others that were
-- lent still are and no others, and the thread cache, the central cache and the page cache are in order.
pub concurrent_delete-Freed :
    (h : ThreadCache) (free out cached : ℕ → List Ptr) (b : Ptr)
    → Ready h free out cached
    → b ≢ null
    → Lent out cached b
    → (h' : ThreadCache) × (concurrent_delete h b ≡ some h') × Freed out cached b h'
unfolding page_to_span
concurrent_delete-Freed h free out cached b r ne lent =
    let (i, here) = r.balanced.listed lent.0.0 b lent.0.1 in
    let (pos, fits, at) = r.balanced.bytes i lent.0.0 here in
    let (h', runs, done) =
      deallocate-Freed h free out cached (h.central.pages.spans lent.0.0).obj_size i b r fits
        (index-round_up (h.central.pages.spans lent.0.0).obj_size pos fits ∙ at) ne lent here in
    (
      h',
      runs_delete h b lent.0.0 ((r.balanced.accounts i lent.0.0 here).out_on b lent.0.1) fits runs,
      done,
    )
