-- ===== src/MemoryPool/PageCache/Release.antt =====
-- ConcurrentMemoryPool/PageCache.cpp, ReleaseSpanToPageCache: a span comes back and is merged with the
-- free spans beside it. The names of deleted spans are not given out again. The two loops that merge
-- are one function of the side they work on.
pub mod Absorb
pub mod Map
pub mod Order
pub mod Pages
pub mod Returned
pub mod Shelve
mod Tests
pub mod Erase
pub mod Merge
use linux_os.Base.{
  ℕ, zero, suc, ◌+◌, ◌-◌, List, [], ◌∷◌, Option, none, some, Bool, true, false, ltb, ◌==◌, ◌||◌,
  if◌then◌else◌, update, word_size,
}
use linux_os.MemoryPool.PageCache.{Span, PageCache, npage_lists, set_ends, push_span}

-- The loop that takes the pages of a span out of the page map.
unfoldable pub clear_pages : ℕ → ℕ → (ℕ → Option ℕ) → ℕ → Option ℕ
unfolding update
clear_pages zero page_id map = map
clear_pages (suc n) page_id map = update (clear_pages n page_id map) (page_id + n) none

-- SpanList::Erase; `none` where the span is not in the list, so that its links are null or stale.
unfoldable pub erase_span : ℕ → List ℕ → Option (List ℕ)
erase_span s [] = none
erase_span s (x ∷ xs) =
    let rest = erase_span s xs in
    if x == s then some xs else elim rest [ none ↦ none | some ys ↦ some (x ∷ ys) ]

pub data Side : Type 0 where
  backward : Side
  forward : Side

-- `page_id - 1`, which wraps at page 0.
abbrev pub page_before : ℕ → ℕ
page_before zero = word_size - 1
page_before (suc n) = n

-- The page beside a span.
abbrev pub page_beside : Side → Span → ℕ
page_beside backward span = page_before span.page_id
page_beside forward span = span.page_id + span.npage

-- The first page of a span that has taken in its neighbour.
abbrev pub merged_page_id : Side → Span → Span → ℕ
merged_page_id backward span other = other.page_id
merged_page_id forward span other = span.page_id

-- The tests that end the loops: no span there, one in use, or too many pages together.
unfoldable pub find_neighbour : PageCache → ℕ → ℕ → Option ℕ
find_neighbour pc s id = elim (pc.id_span_map id) [
  | none ↦ none
  | some t ↦
      if (pc.spans t).is_used || ltb (npage_lists - 1) ((pc.spans s).npage + (pc.spans t).npage)
      then none
      else some t
]

-- The body of the loops: `s` takes in the pages of `t`.
unfoldable pub absorb : Side → PageCache → ℕ → ℕ → Option PageCache
unfolding update set_ends erase_span
absorb side pc s t =
    let grown : PageCache = record pc {
      spans = update pc.spans s (record (pc.spans s) {
        page_id = merged_page_id side (pc.spans s) (pc.spans t);
        npage = (pc.spans s).npage + (pc.spans t).npage;
      });
    } in
    let i = (grown.spans t).npage in
    elim (erase_span t (grown.span_lists i)) [
      | none ↦ none
      | some rest ↦
          some (set_ends (record grown { span_lists = update grown.span_lists i rest }) t none)
    ]

unfoldable pub merge : Side → ℕ → PageCache → ℕ → Option PageCache
unfolding find_neighbour absorb
merge side zero pc s = none
merge side (suc f) pc s = elim (find_neighbour pc s (page_beside side (pc.spans s))) [
  | none ↦ some pc
  | some t ↦ elim (absorb side pc s t) [ none ↦ none | some next ↦ merge side f next s ]
]

-- The span goes into its list, unused, with its first and last page mapped to it.
unfoldable pub shelve : PageCache → ℕ → PageCache
unfolding push_span set_ends update
shelve pc s =
    let pushed = push_span pc (pc.spans s).npage s in
    let unused : PageCache = record pushed {
      spans = update pushed.spans s (record (pushed.spans s) { is_used = false });
    } in
    set_ends unused s (some s)

-- What is given back to the system is `some (page, npage)`.
unfoldable pub release_span : ℕ → PageCache → ℕ → Option (PageCache × Option (ℕ × ℕ))
unfolding clear_pages merge shelve
release_span f pc s =
    let span = pc.spans s in
    let cleared : PageCache = record pc {
      id_span_map = clear_pages span.npage span.page_id pc.id_span_map;
    } in
    if ltb (npage_lists - 1) span.npage
    then some (cleared, some (span.page_id, span.npage))
    else elim (merge backward f cleared s) [
      | none ↦ none
      | some merged ↦ elim (merge forward f merged s) [
        | none ↦ none
        | some both ↦ some (shelve both s, none)
      ]
    ]
