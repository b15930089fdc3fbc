-- ===== src/MemoryPool/CentralCache.antt =====
-- ConcurrentMemoryPool/CentralCache.cpp: FetchRangeObj and ReleaseListToSpans, on the page cache. One
-- thread calls at a time. `none` is a failed assertion, or a span that is erased from a list that does
-- not hold it.
pub mod Accounts
pub mod Add
pub mod Back
pub mod Fetch
pub mod Put
pub mod Shape
pub mod Take
mod Tests
use linux_os.Base.{
  ℕ, zero, suc, ◌+◌, ◌-◌, ◌*◌, ◌/◌, List, [], ◌∷◌, Option, none, some, Bool, true, false, ◌==◌, ltb,
  not, if◌then◌else◌, update,
}
use linux_os.MemoryPool.Memory.{Ptr, null, Memory, set_next}
use linux_os.MemoryPool.SizeClass.{index, num_move_page, page_size}
use linux_os.MemoryPool.Carve.{Taken, carve, take_batch}
use linux_os.MemoryPool.PageCache.{Span, PageCache, npage_lists, new_span, lend}
use linux_os.MemoryPool.PageCache.Release.{erase_span, release_span}

pub record CentralCache : Type 0 where
  pub pages : PageCache
  pub span_lists : ℕ → List ℕ
  pub memory : Memory

-- FetchOneSpan: the first span of a list that has a free block.
unfoldable pub fetch_one_span : PageCache → List ℕ → Option ℕ
fetch_one_span pc [] = none
fetch_one_span pc (s ∷ rest) =
    let later = fetch_one_span pc rest in
    if not ((pc.spans s).free_lists == null) then some s else later

-- What a span keeps once blocks are taken off it or put on it.
unfoldable pub set_blocks : PageCache → ℕ → Ptr → ℕ → PageCache
unfolding update
set_blocks pc s free_lists use_count = record pc {
  spans =
      update pc.spans s (record (pc.spans s) { free_lists = free_lists; use_count = use_count });
}

-- The second half of FetchRangeObj: a batch off the span.
unfoldable pub take_from : CentralCache → ℕ → ℕ → Taken × CentralCache
unfolding set_blocks
take_from c s distribute_nums =
    let span = c.pages.spans s in
    let (taken, after) = take_batch span.free_lists distribute_nums c.memory in
    (
      taken,
      record c {
        pages = set_blocks c.pages s taken.free_lists (span.use_count + taken.actual_num);
        memory = after;
      },
    )

-- A new span, cut into blocks and put in front of its list.
unfoldable pub add_span : CentralCache → ℕ → ℕ → PageCache → ℕ → Option CentralCache
unfolding lend update
add_span c i size pages s =
    let span = pages.spans s in
    let begin = span.page_id * page_size in
    let bytes = span.npage * page_size in
    if ltb bytes size then none else elim (carve bytes begin bytes size c.memory) [
      | none ↦ none
      | some after ↦ some (record {
        pages = lend pages s size 0 begin;
        span_lists = update c.span_lists i (s ∷ c.span_lists i);
        memory = after;
      })
    ]

unfoldable pub fetch_range_obj : (ℕ → ℕ) → CentralCache → ℕ → ℕ → Option (Taken × CentralCache)
unfolding fetch_one_span add_span take_from
fetch_range_obj system_alloc c distribute_nums size = elim (index size) [
  | none ↦ none
  | some i ↦ elim (fetch_one_span c.pages (c.span_lists i)) [
    | some s ↦ some (take_from c s distribute_nums)
    | none ↦ elim (num_move_page size) [
      | none ↦ none
      | some npage ↦ elim (new_span system_alloc 2 c.pages npage) [
        | none ↦ none
        | some (pages, s) ↦ elim (add_span c i size pages s) [
          | none ↦ none
          | some after ↦ some (take_from after s distribute_nums)
        ]
      ]
    ]
  ]
]

-- `--_use_count` on an `int` whose value is not negative.
abbrev pub one_less : ℕ → ℕ
one_less zero = 4294967296 - 1
one_less (suc n) = n

-- A span of which no block is out goes back to the page cache.
unfoldable pub give_back : CentralCache → ℕ → ℕ → Option CentralCache
unfolding set_blocks erase_span release_span update
give_back c i s = elim (erase_span s (c.span_lists i)) [
  | none ↦ none
  | some rest ↦
      elim (release_span npage_lists (set_blocks c.pages s null (c.pages.spans s).use_count) s) [
        | none ↦ none
        | some (pages, freed) ↦
            some
              (record { pages = pages; span_lists = update c.span_lists i rest; memory = c.memory })
      ]
]

-- One round of the loop of ReleaseListToSpans: the block `start` goes back to its span.
unfoldable pub release_block : CentralCache → ℕ → Ptr → Option CentralCache
unfolding set_blocks give_back
release_block c i start = elim (c.pages.id_span_map (start / page_size)) [
  | none ↦ none
  | some s ↦
      let span = c.pages.spans s in
      let use_count = one_less span.use_count in
      let put : CentralCache = record c {
        pages = set_blocks c.pages s start use_count;
        memory = set_next c.memory start span.free_lists;
      } in
      if use_count == 0 then give_back put i s else some put
]

-- `while (start)`; the fuel bounds the rounds.
unfoldable pub release_blocks : ℕ → CentralCache → ℕ → Ptr → Option CentralCache
unfolding release_block
release_blocks zero c i start = none
release_blocks (suc f) c i start = elim (start == null) [
  | true ↦ some c
  | false ↦ elim (release_block c i start) [
    | none ↦ none
    | some after ↦ release_blocks f after i (c.memory start)
  ]
]

unfoldable pub release_list_to_spans : ℕ → CentralCache → Ptr → ℕ → Option CentralCache
unfolding release_blocks
release_list_to_spans f c start size = elim (index size) [
  | none ↦ none
  | some i ↦ release_blocks f c i start
]
