-- ===== src/MemoryPool/ThreadCache/Tests.antt =====
-- The first request of a program, and its block comes back.
use linux_os.Base.{
  Option, none, refl, sym, subst, inl, ◌+◌, ◌≤◌, update, ℕ, ◌≡◌, ◌≢◌, List, [], ◌∷◌, some, arith,
  NotIn,
}
use linux_os.MemoryPool.SizeClass.{round_up, index, num_move_size, num_move_page}
use linux_os.MemoryPool.CentralCache.{fetch_range_obj, fetch_one_span, add_span, take_from}
use linux_os.MemoryPool.PageCache.{new_cache, new_span, page_to_span}
use linux_os.MemoryPool.Carve.{carve, take_batch}
use linux_os.MemoryPool.FreeList.{is_empty, fresh}
use linux_os.MemoryPool.ThreadCache.Stores.{InBlock, stored}
use linux_os.MemoryPool.Memory.{Ptr, null, Memory}
use linux_os.MemoryPool.PageCache.NewSpan.Start.{new_cache-Fresh}
use linux_os.MemoryPool.ThreadCache.{
  ThreadCache, concurrent_malloc, concurrent_delete, allocate, fetch_from_central_cache, widen,
  keep_rest,
}
use linux_os.MemoryPool.ThreadCache.Laws.{Allocated}
use linux_os.MemoryPool.ThreadCache.Free.{Freed}
use linux_os.MemoryPool.ThreadCache.Program.{concurrent_malloc-Allocated, concurrent_delete-Freed}
use linux_os.MemoryPool.ThreadCache.Runs.{
  new_thread, new_thread-Ready, Run, start, malloc, store, Sound, Run-Sound, concurrent_malloc-Run,
}

abbrev alloc : ℕ → ℕ
alloc n = 1000

abbrev no_blocks : ℕ → List Ptr
no_blocks s = []

abbrev zeros : Memory
zeros a = 0

concurrent_malloc-Allocated_example :
    (i : ℕ) × (b : Ptr) × (h' : ThreadCache) × (concurrent_malloc alloc (new_thread zeros) 20
      ≡ some (b, h'))
    × Allocated (new_thread zeros) no_blocks no_blocks i b h'
concurrent_malloc-Allocated_example =
    concurrent_malloc-Allocated alloc (new_thread zeros) no_blocks no_blocks no_blocks 20
      (new_thread-Ready zeros) (omega arith) (omega arith) (new_cache-Fresh 1000 128 (omega arith))

first_block :
    (i : ℕ) × (b : Ptr) × (h' : ThreadCache) × (concurrent_malloc alloc (new_thread zeros) 20
      ≡ some (b, h'))
    × Allocated (new_thread zeros) no_blocks no_blocks i b h'
first_block =
    concurrent_malloc-Allocated alloc (new_thread zeros) no_blocks no_blocks no_blocks 20
      (new_thread-Ready zeros) (omega arith) (omega arith) (new_cache-Fresh 1000 128 (omega arith))

abbrev got :
    Allocated (new_thread zeros) no_blocks no_blocks first_block.0 first_block.1 first_block.2
got = first_block.4

-- The block comes back.
concurrent_delete-Freed_example :
    (h' : ThreadCache) × (concurrent_delete first_block.2 first_block.1 ≡ some h')
    × Freed got.out' got.cached' first_block.1 h'
concurrent_delete-Freed_example =
    concurrent_delete-Freed first_block.2 got.free' got.out' got.cached' first_block.1 got.ready
      got.not_null got.lent

-- The same as a run of calls.
concurrent_malloc-Run_example :
    (b : Ptr) × (h' : ThreadCache) × (concurrent_malloc alloc (new_thread zeros) 20 ≡ some (b, h'))
    × (b ≢ null)
    × NotIn b []
    × Run alloc zeros h' (b ∷ [])
concurrent_malloc-Run_example =
    concurrent_malloc-Run alloc zeros (new_thread zeros) [] 20 start (omega arith) (omega arith)
      (new_cache-Fresh 1000 128 (omega arith))

-- A block of 256 KB, with a word of it written. Its span, 1, is cut off the 128 pages from page 1000 on.
abbrev after_call : Option (Ptr × ThreadCache)
after_call = concurrent_malloc alloc (new_thread zeros) 262144

abbrev held : ThreadCache
held = elim after_call [ none ↦ new_thread zeros | some (b, h) ↦ h ]

gives_block : concurrent_malloc alloc (new_thread zeros) 262144 ≡ some (8192000, held)
unfolding concurrent_malloc allocate fetch_from_central_cache round_up index num_move_size
    fetch_range_obj fetch_one_span num_move_page new_span add_span carve take_from is_empty fresh
    update widen keep_rest new_cache take_batch
gives_block = refl

size_of_held : (held.central.pages.spans 1).obj_size ≡ 262144
unfolding concurrent_malloc allocate fetch_from_central_cache round_up index num_move_size
    fetch_range_obj fetch_one_span num_move_page new_span add_span carve take_from is_empty fresh
    update widen keep_rest new_cache take_batch
size_of_held = refl

word-InBlock : InBlock held 8192000 8192016
unfolding concurrent_malloc allocate fetch_from_central_cache round_up index num_move_size
    fetch_range_obj fetch_one_span num_move_page new_span add_span carve take_from is_empty fresh
    update widen keep_rest new_cache take_batch page_to_span
word-InBlock = record {
  span = 1;
  block_page = refl;
  own_page = refl;
  from = omega arith;
  to = subst (λ n. 8192016 + 8 ≤ 8192000 + n) (sym size_of_held) (omega arith);
  aligned = refl;
}

one_store : Run alloc zeros (stored held 8192016 77) (8192000 ∷ [])
one_store =
    store 8192000 8192016 77
      (malloc 262144 8192000 held start (omega arith) (omega arith)
        (new_cache-Fresh 1000 128 (omega arith)) gives_block)
      (inl refl) word-InBlock

Run-Sound_example : Sound (stored held 8192016 77) (8192000 ∷ [])
Run-Sound_example = Run-Sound alloc zeros (stored held 8192016 77) (8192000 ∷ []) one_store
