-- ===== src/MemoryPool/CentralCache/Tests.antt =====
-- Blocks of 8 bytes are fetched and come back.
use linux_os.Base.{ℕ, suc, ◌≡◌, sym, subst, List, [], ◌++◌, some, arith, length, update}
use linux_os.MemoryPool.Memory.{Ptr}
use linux_os.MemoryPool.Carve.{Taken}
use linux_os.MemoryPool.SizeClass.{index}
use linux_os.MemoryPool.PageCache.{new_cache}
use linux_os.MemoryPool.PageCache.NewSpan.Start.{new_cache-InOrder, new_cache-Fresh}
use linux_os.MemoryPool.PageCache.Release.Erase.{Within}
use linux_os.MemoryPool.CentralCache.{CentralCache, fetch_range_obj, release_list_to_spans}
use linux_os.MemoryPool.CentralCache.Accounts.{Balanced, Within-left}
use linux_os.MemoryPool.CentralCache.Take.{Fetched, at_self}
use linux_os.MemoryPool.CentralCache.Fetch.{fetch_range_obj-Fetched}
use linux_os.MemoryPool.CentralCache.Back.{ListBack, OutOf, release_list_to_spans-ListBack}

abbrev alloc : ℕ → ℕ
alloc n = 1000

abbrev no_blocks : ℕ → List Ptr
no_blocks s = []

abbrev empty_central : CentralCache
empty_central = record { pages = new_cache; span_lists = λ i. []; memory = λ a. 0 }

empty_central-Balanced : Balanced empty_central no_blocks no_blocks
empty_central-Balanced = record {
  order = new_cache-InOrder;
  accounts = λ i s h. absurd h;
  bytes = λ i s h. absurd h;
  distinct = λ i. tt;
  one_list = λ i j s h. absurd h;
  listed = λ s b h. absurd h;
}

fetched_two :
    (i : ℕ) × (taken : Taken) × (c' : CentralCache) × (index 8 ≡ some i)
    × (fetch_range_obj alloc empty_central 2 8 ≡ some (taken, c'))
    × Fetched empty_central no_blocks i 2 taken c'
fetched_two =
    fetch_range_obj-Fetched alloc empty_central no_blocks no_blocks empty_central-Balanced 2 8
      (omega arith) (omega arith) (omega arith) (omega arith)
      (new_cache-Fresh 1000 128 (omega arith))

fetch_range_obj-Fetched_example :
    (i : ℕ) × (taken : Taken) × (c' : CentralCache) × (index 8 ≡ some i)
    × (fetch_range_obj alloc empty_central 2 8 ≡ some (taken, c'))
    × Fetched empty_central no_blocks i 2 taken c'
fetch_range_obj-Fetched_example =
    fetch_range_obj-Fetched alloc empty_central no_blocks no_blocks empty_central-Balanced 2 8
      (omega arith) (omega arith) (omega arith) (omega arith)
      (new_cache-Fresh 1000 128 (omega arith))

abbrev got : Fetched empty_central no_blocks fetched_two.0 2 fetched_two.1 fetched_two.2
got = fetched_two.5

abbrev out_two : ℕ → List Ptr
out_two = update no_blocks got.span (got.blocks ++ [])

two-OutOf : OutOf fetched_two.2 out_two fetched_two.0 got.blocks
two-OutOf b w = (
  got.span,
  subst (Within b) (sym (at_self no_blocks got.span (got.blocks ++ [])))
      (Within-left b got.blocks [] w),
  got.listed,
)

-- The two blocks that were fetched come back.
release_list_to_spans-ListBack_example :
    (c' : CentralCache) × (release_list_to_spans
        (suc (length got.blocks))
        fetched_two.2
        fetched_two.1.start
        8
      ≡ some c')
    × ListBack fetched_two.2 out_two got.blocks c'
release_list_to_spans-ListBack_example =
    release_list_to_spans-ListBack fetched_two.2 got.free' out_two 8 fetched_two.0
      fetched_two.1.start got.blocks got.balanced fetched_two.3 got.chain two-OutOf
