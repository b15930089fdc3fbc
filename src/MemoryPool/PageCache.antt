-- ===== src/MemoryPool/PageCache.antt =====
-- ConcurrentMemoryPool/PageCache.cpp: NewSpan and PageToSpan, with the lists of spans by their number of
-- pages. A span is named by the number of its allocation; its pool never gives out a name twice. A
-- SpanList is the list of its spans, and the page map is the map that MemoryPool.PageMap is one of.
-- `system_alloc n` is the first page of the memory that the n-th call of SystemAlloc gives.
pub mod Lists
pub mod NewSpan
pub mod Release
mod Tests
use linux_os.Base.{
  ℕ, zero, suc, ◌+◌, ◌-◌, List, [], ◌∷◌, Option, none, some, Bool, true, false, ltb, if◌then◌else◌,
  update,
}
use linux_os.MemoryPool.Memory.{Ptr, null}

-- NPAGE_LISTS
abbrev pub npage_lists : ℕ
npage_lists = 129

pub record Span : Type 0 where
  pub page_id : ℕ
  pub npage : ℕ
  pub free_lists : Ptr
  pub use_count : ℕ
  pub obj_size : ℕ
  pub is_used : Bool

pub record PageCache : Type 0 where
  pub span_lists : ℕ → List ℕ
  pub id_span_map : ℕ → Option ℕ
  pub spans : ℕ → Span
  pub next_span : ℕ
  pub allocations : ℕ

-- A span as NewSpan fills it.
abbrev pub fresh_span : ℕ → ℕ → Span
fresh_span page_id npage = record {
  page_id = page_id;
  npage = npage;
  free_lists = null;
  use_count = 0;
  obj_size = 0;
  is_used = false;
}

unfoldable pub new_cache : PageCache
new_cache = record {
  span_lists = λ i. [];
  id_span_map = λ page. none;
  spans = λ s. fresh_span 0 0;
  next_span = 0;
  allocations = 0;
}

-- The loop that maps the pages of a span to it.
unfoldable pub set_pages : ℕ → ℕ → ℕ → (ℕ → Option ℕ) → ℕ → Option ℕ
unfolding update
set_pages zero page_id s map = map
set_pages (suc n) page_id s map = update (set_pages n page_id s map) (page_id + n) (some s)

unfoldable pub map_pages : PageCache → ℕ → PageCache
unfolding set_pages
map_pages pc s = record pc {
  id_span_map = set_pages (pc.spans s).npage (pc.spans s).page_id s pc.id_span_map;
}

-- The first and the last page of a span are mapped to it, or to nothing.
unfoldable pub set_ends : PageCache → ℕ → Option ℕ → PageCache
unfolding update
set_ends pc s value =
    let first = (pc.spans s).page_id in
    record pc {
      id_span_map =
          update (update pc.id_span_map first value) (first + (pc.spans s).npage - 1) value;
    }

-- `_obj_pool.New()`, filled.
unfoldable pub make_span : PageCache → ℕ → ℕ → PageCache
unfolding update
make_span pc page_id npage = record pc {
  spans = update pc.spans pc.next_span (fresh_span page_id npage);
  next_span = suc pc.next_span;
}

unfoldable pub push_span : PageCache → ℕ → ℕ → PageCache
unfolding update
push_span pc i s = record pc { span_lists = update pc.span_lists i (s ∷ pc.span_lists i) }

-- A span of the right size, the front of its list; `rest` is what the list keeps.
unfoldable pub take_exact : PageCache → ℕ → ℕ → List ℕ → PageCache
unfolding set_ends map_pages update
take_exact pc npage s rest =
    map_pages (set_ends (record pc { span_lists = update pc.span_lists npage rest }) s none) s

-- The front `s` of list `i` is cut: its first pages go to a new span.
unfoldable pub split_span : PageCache → ℕ → ℕ → ℕ → List ℕ → PageCache
unfolding make_span push_span set_ends map_pages update
split_span pc npage i s rest =
    let popped : PageCache = record pc { span_lists = update pc.span_lists i rest } in
    let k = popped.next_span in
    let made = make_span popped (popped.spans s).page_id npage in
    let cut : PageCache = record made {
      spans = update made.spans s (record (made.spans s) {
        page_id = (made.spans s).page_id + npage;
        npage = (made.spans s).npage - npage;
      });
    } in
    map_pages (set_ends (push_span cut (cut.spans s).npage s) s (some s)) k

-- The loop over the longer lists: `n` of them from `i` on.
unfoldable pub split_from : ℕ → PageCache → ℕ → ℕ → Option (PageCache × ℕ)
unfolding split_span
split_from zero pc npage i = none
split_from (suc n) pc npage i =
    let later = split_from n pc npage (suc i) in
    elim (pc.span_lists i) [
      | [] ↦ later
      | s ∷ rest ↦ some (split_span pc npage i s rest, pc.next_span)
    ]

module _ (system_alloc : ℕ → ℕ) where
  -- More than the lists are for: a span straight from the system.
  unfoldable pub new_large : PageCache → ℕ → PageCache
  unfolding make_span map_pages
  new_large pc npage =
      let made = make_span pc (system_alloc pc.allocations) npage in
      map_pages (record made { allocations = suc made.allocations }) pc.next_span

  -- 128 pages from the system, in the last list; of the 129 that are asked for one is never used.
  unfoldable pub grow : PageCache → PageCache
  unfolding make_span push_span
  grow pc =
      let made = make_span pc (system_alloc pc.allocations) (npage_lists - 1) in
      push_span (record made { allocations = suc made.allocations }) (npage_lists - 1) pc.next_span

  -- NewSpan calls itself after it has asked the system; `none` is no fuel.
  unfoldable pub new_span : ℕ → PageCache → ℕ → Option (PageCache × ℕ)
  unfolding new_large take_exact split_from grow
  new_span zero pc npage = none
  new_span (suc f) pc npage =
      let again = new_span f (grow pc) npage in
      if ltb (npage_lists - 1) npage
      then some (new_large pc npage, pc.next_span)
      else elim (pc.span_lists npage) [
        | s ∷ rest ↦ some (take_exact pc npage s rest, s)
        | [] ↦ elim (split_from (npage_lists - (npage + 1)) pc npage (npage + 1)) [
          | some found ↦ some found
          | none ↦ again
        ]
      ]

-- What the callers of NewSpan set in the span that they get.
unfoldable pub lend : PageCache → ℕ → ℕ → ℕ → Ptr → PageCache
unfolding update
lend pc s obj_size use_count free_lists = record pc {
  spans = update pc.spans s (record (pc.spans s) {
    free_lists = free_lists;
    use_count = use_count;
    obj_size = obj_size;
    is_used = true;
  });
}

-- PageToSpan, of the page of an address; `none` is the failed assertion.
unfoldable pub page_to_span : PageCache → ℕ → Option ℕ
page_to_span pc id = pc.id_span_map id
