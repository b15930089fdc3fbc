-- ===== src/MemoryPool/ThreadCache.antt =====
-- ConcurrentMemoryPool/ThreadCache.cc, and ConcurrentMalloc and ConcurrentDelete of ConCurrent.h, for one
-- thread. `none` is a failed assertion. The central cache is the one of MemoryPool.CentralCache, whose
-- memory the free lists of the thread are linked through.
pub mod Allocate
pub mod Free
pub mod Keep
pub mod Laws
pub mod Malloc
pub mod Program
pub mod Refill
pub mod Runs
pub mod Stores
mod Tests
use linux_os.Base.{
  ℕ, suc, ◌+◌, ◌-◌, ◌*◌, ◌/◌, Option, none, some, Bool, true, false, min, ◌==◌, leb, ltb, add_word,
  if◌then◌else◌, update,
}
use linux_os.MemoryPool.Memory.{Ptr, null}
use linux_os.MemoryPool.SizeClass.{max_bytes, page_size, round_up, index, num_move_size}
use linux_os.MemoryPool.FreeList.{FreeList, push, pop, push_range, pop_range, is_empty}
use linux_os.MemoryPool.Carve.{Taken}
use linux_os.MemoryPool.PageCache.{npage_lists, new_span, page_to_span, lend}
use linux_os.MemoryPool.PageCache.Release.{release_span}
use linux_os.MemoryPool.CentralCache.{CentralCache, fetch_range_obj, release_list_to_spans}

pub record ThreadCache : Type 0 where
  pub central : CentralCache
  pub freelists : ℕ → FreeList

-- The slow start: a list that gets all it may ask for may ask for one more.
unfoldable pub widen : FreeList → ℕ → FreeList
widen l distribute_nums =
    if distribute_nums == l.max_size then record l { max_size = add_word l.max_size 1 } else l

-- All blocks of a batch but the first go into the list `i`.
unfoldable pub keep_rest : ThreadCache → ℕ → Taken → Option (Ptr × ThreadCache)
unfolding push_range update
keep_rest h i taken =
    let m = h.central.memory in
    if taken.actual_num == 0
    then none
    else if taken.actual_num == 1
    then some (taken.start, h)
    else elim (push_range (h.freelists i) (m taken.start) taken.last (taken.actual_num - 1) m) [
      | none ↦ none
      | some (l, m') ↦ some (
        taken.start,
        record h {
          central = record (h.central) { memory = m' };
          freelists = update h.freelists i l;
        },
      )
    ]

unfoldable pub fetch_from_central_cache : (ℕ → ℕ) → ThreadCache → ℕ → Option (Ptr × ThreadCache)
unfolding widen keep_rest update
fetch_from_central_cache system_alloc h bytes =
    let obj_size = round_up bytes in
    elim (index obj_size) [
      | none ↦ none
      | some i ↦ elim (num_move_size obj_size) [
        | none ↦ none
        | some nums ↦
            let l = h.freelists i in
            let distribute_nums = min nums l.max_size in
            elim (fetch_range_obj system_alloc h.central distribute_nums obj_size) [
              | none ↦ none
              | some (taken, central) ↦
                  keep_rest
                    (record {
                      central = central;
                      freelists = update h.freelists i (widen l distribute_nums);
                    })
                    i taken
            ]
      ]
    ]

unfoldable pub allocate : (ℕ → ℕ) → ThreadCache → ℕ → Option (Ptr × ThreadCache)
unfolding fetch_from_central_cache pop is_empty update
allocate system_alloc h size = elim (index (round_up size)) [
  | none ↦ none
  | some i ↦
      if is_empty (h.freelists i)
      then fetch_from_central_cache system_alloc h size
      else elim (pop (h.freelists i) h.central.memory) [
        | none ↦ none
        | some (obj, l) ↦ some (obj, record h { freelists = update h.freelists i l })
      ]
]

-- Blocks go back once the list holds as many as it may ask for; as many rounds as these, and one, are
-- enough for the loop.
unfoldable pub list_too_long : ThreadCache → ℕ → ℕ → Option ThreadCache
unfolding pop_range update
list_too_long h i size =
    let l = h.freelists i in
    let (start, last, left, m) = pop_range l l.max_size h.central.memory in
    elim (release_list_to_spans (suc l.max_size) (record (h.central) { memory = m }) start size) [
      | none ↦ none
      | some central ↦ some (record { central = central; freelists = update h.freelists i left })
    ]

unfoldable pub deallocate : ThreadCache → Ptr → ℕ → Option ThreadCache
unfolding list_too_long push update
deallocate h ptr size = if leb max_bytes size then none else elim (index (round_up size)) [
  | none ↦ none
  | some i ↦ elim (push (h.freelists i) ptr h.central.memory) [
    | none ↦ none
    | some (l, m) ↦
        let pushed : ThreadCache = record {
          central = record (h.central) { memory = m };
          freelists = update h.freelists i l;
        } in
        if leb l.max_size l.size then list_too_long pushed i (round_up size) else some pushed
  ]
]

-- A large request goes to the page cache.
unfoldable pub malloc_large : (ℕ → ℕ) → ThreadCache → ℕ → Option (Ptr × ThreadCache)
unfolding new_span lend
malloc_large system_alloc h size =
    elim (new_span system_alloc 2 h.central.pages (round_up size / page_size)) [
      | none ↦ none
      | some (pages, s) ↦ some (
        (pages.spans s).page_id * page_size,
        record h { central = record (h.central) { pages = lend pages s size 1 null } },
      )
    ]

unfoldable pub concurrent_malloc : (ℕ → ℕ) → ThreadCache → ℕ → Option (Ptr × ThreadCache)
unfolding malloc_large allocate
concurrent_malloc system_alloc h size =
    if ltb max_bytes size then malloc_large system_alloc h size else allocate system_alloc h size

unfoldable pub concurrent_delete : ThreadCache → Ptr → Option ThreadCache
unfolding page_to_span release_span deallocate
concurrent_delete h ptr = elim (page_to_span h.central.pages (ptr / page_size)) [
  | none ↦ none
  | some s ↦
      let size = (h.central.pages.spans s).obj_size in
      if ltb max_bytes size
      then elim (release_span npage_lists h.central.pages s) [
        | none ↦ none
        | some (pages, freed) ↦ some (record h { central = record (h.central) { pages = pages } })
      ]
      else deallocate h ptr size
]
