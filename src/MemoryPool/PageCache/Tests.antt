-- ===== src/MemoryPool/PageCache/Tests.antt =====
-- NewSpan on an empty cache: 128 pages come from the system and are cut.
use linux_os.Base.{ℕ, ◌≡◌, refl, List, [], ◌∷◌, Option, some, arith, update}
use mathlib.Core.Option
use linux_os.MemoryPool.PageCache.{
  PageCache, new_cache, new_span, set_pages, map_pages, set_ends, make_span, push_span, split_span,
  split_from, grow,
}
use linux_os.MemoryPool.PageCache.NewSpan.Start.{new_cache-InOrder, new_cache-Fresh}
use linux_os.MemoryPool.PageCache.NewSpan.{Handed, new_span-Handed}

abbrev alloc : ℕ → ℕ
alloc n = 1000

test_cut :
    Option.map {B = ℕ × List ℕ × ℕ × Option ℕ × Option ℕ}
      (λ (pc, s).
        (s, pc.span_lists 125, (pc.spans 0).page_id, pc.id_span_map 1002, pc.id_span_map 1003))
      (new_span alloc 2 new_cache 3)
    ≡ some (1, 0 ∷ [], 1003, some 1, some 0)
unfolding new_span new_cache grow split_from split_span make_span push_span set_ends map_pages
    set_pages update
test_cut = refl

new_span-Handed_example :
    (pc' : PageCache) × (s : ℕ) × (new_span alloc 2 new_cache 3 ≡ some (pc', s))
    × Handed 3 new_cache pc' s
new_span-Handed_example =
    new_span-Handed alloc new_cache 3 new_cache-InOrder (omega arith)
      (new_cache-Fresh 1000 128 (omega arith))
