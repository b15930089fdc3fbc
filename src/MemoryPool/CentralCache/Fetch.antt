-- ===== src/MemoryPool/CentralCache/Fetch.antt =====
-- CentralCache::FetchRangeObj.
use linux_os.Base.{
  ℕ, zero, suc, ◌+◌, ◌*◌, ◌<◌, ◌≤◌, ◌≡◌, ◌≢◌, ◌⊎◌, inl, inr, refl, sym, ap, subst, ◌∙◌, List, [],
  ◌∷◌, none, some, false, arith, ltb, word_size, ◌==◌, update, Bool-cases,
}
use linux_os.MemoryPool.Memory.{Ptr, null, Memory, Chain}
use linux_os.MemoryPool.Carve.{Taken}
use linux_os.MemoryPool.Carve.Blocks.{blocks, carve-blocks}
use linux_os.MemoryPool.SizeClass.{index, page_size, num_move_page}
use linux_os.MemoryPool.SizeClass.Batches.{num_move_size_bounds, num_move_page_bounds}
use linux_os.MemoryPool.SizeClass.Buckets.{index-bucket}
use linux_os.MemoryPool.PageCache.{PageCache, npage_lists, new_span}
use linux_os.MemoryPool.PageCache.NewSpan.{Handed, asked, new_span-Handed}
use linux_os.MemoryPool.PageCache.NewSpan.Grow.{Fresh}
use linux_os.MemoryPool.PageCache.Release.Erase.{Within}
use linux_os.MemoryPool.CentralCache.{
  CentralCache, fetch_one_span, add_span, take_from, fetch_range_obj,
}
use linux_os.MemoryPool.CentralCache.Accounts.{Balanced, OfSize}
use linux_os.MemoryPool.CentralCache.Add.{still_within, within_added, added-Balanced, other_same}
use linux_os.MemoryPool.CentralCache.Take.{Fetched, at_self, take_from-Fetched}

fetch_one_span-cases :
    (pc : PageCache) (xs : List ℕ)
    → (fetch_one_span pc xs ≡ none)
      ⊎ ((s : ℕ) × (fetch_one_span pc xs ≡ some s) × Within s xs × ((pc.spans s).free_lists ≢ null))
unfolding fetch_one_span
fetch_one_span-cases pc [] = inl refl
fetch_one_span-cases pc (x ∷ xs) = elim (Bool-cases ((pc.spans x).free_lists == null)) [
  | inr e ↦ inr (x, rw (e, fetch_one_span) refl, inl refl, ground (arith, e))
  | inl e ↦ elim (fetch_one_span-cases pc xs) [
    | inl later ↦ inl (rw (e, fetch_one_span) later)
    | inr (s, later, here, free) ↦ inr (s, rw (e, fetch_one_span) later, inr here, free)
  ]
]

pub Chain-cases :
    (m : Memory) (p : Ptr) (xs : List Ptr)
    → Chain m p xs
    → p ≢ null
    → (x : Ptr) × (rest : List Ptr) × (xs ≡ x ∷ rest)
Chain-cases m p [] h ne = absurd (ne h)
Chain-cases m p (x ∷ xs) h ne = (x, xs, refl)

some_blocks :
    (p size n bytes : ℕ)
    → 0 < bytes
    → bytes ≤ n * size
    → (x : Ptr) × (rest : List Ptr) × (blocks p size n ≡ x ∷ rest)
some_blocks p size zero bytes pos h = absurd (omega (arith, pos, h))
some_blocks p size (suc n) bytes pos h = (p, blocks (p + size) size n, refl)

-- A span for a class holds a block of it.
page_count :
    (size : ℕ)
    → 0 < size
    → size ≤ 262144
    → (npage : ℕ) × (num_move_page size ≡ some npage)
      × (0 < npage)
      × (npage ≤ 64)
      × (size ≤ npage * page_size)
page_count size pos fits =
    let (n, e, lo, _, _) = num_move_size_bounds size pos fits in
    let (n', npage, e', e'', p1, p2, holds, _) = num_move_page_bounds size pos fits in
    let same : n ≡ n' = some-injective (sym e ∙ e') in
    (npage, e'', p1, p2, one_fits n n' size (npage * page_size) lo same holds)
  where
    some-injective : {a b : ℕ} → some a ≡ some b → a ≡ b
    some-injective h = cc

    one_fits : (n n' size all : ℕ) → 2 ≤ n → n ≡ n' → n' * size ≤ all → size ≤ all
    one_fits zero n' size all lo same h = absurd (omega (arith, lo))
    one_fits (suc n) n' size all lo same h =
        let h' : suc n * size ≤ all = subst (λ k. k * size ≤ all) (sym same) h in omega (arith, h')

module _ (system_alloc : ℕ → ℕ) (c : CentralCache) (free out : ℕ → List Ptr)
    (bal : Balanced c free out) (n size : ℕ) (pos : 0 < n) (small : n < word_size)
    (some_byte : 0 < size) where
  -- A batch off a new span.
  abbrev FromNew : ℕ → PageCache → ℕ → Type 0
  FromNew i pages s =
      (c' : CentralCache) × (add_span c i size pages s ≡ some c')
      × Fetched c out i n (take_from c' s n).0 (take_from c' s n).1

  from_new :
      (i npage : ℕ) (pages : PageCache) (s : ℕ)
      → Handed npage c.pages pages s
      → OfSize i size
      → 0 < npage
      → npage ≤ 64
      → size ≤ npage * page_size
      → FromNew i pages s
  unfolding add_span
  from_new i npage pages s h given some_page few fits =
      let begin = (pages.spans s).page_id * page_size in
      let bytes = (pages.spans s).npage * page_size in
      let size_eq : bytes ≡ npage * page_size = ap (λ (k : ℕ). k * page_size) h.size in
      let (k, m, runs, chain, lo, hi, same) =
        carve-blocks begin bytes size c.memory (omega (arith, h.start)) some_byte
          (omega (arith, size_eq, some_page)) in
      let room : k * size < npage * page_size + size =
        subst (λ b. k * size < b + size) size_eq hi in
      let smaller : npage < npage_lists = omega (arith, few) in
      let not_short : ltb bytes size ≡ false = ground (arith, size_eq, fits) in
      let (x, rest, first) =
        some_blocks begin size k bytes (omega (arith, size_eq, some_page)) lo in
      let bal' =
        added-Balanced c free out bal i size npage pages s h some_byte given some_page smaller k m
          chain room same in
      let here =
        within_added c free out bal i size npage pages s h some_byte given some_page smaller k m
          chain room same in
      let got =
        take_from-Fetched _ (update free s (blocks begin size k)) out bal' i s here n pos small x
          rest (at_self free s (blocks begin size k) ∙ first) in
      (
        _,
        rw (not_short, runs) refl,
        record {
          span = got.span;
          blocks = got.blocks;
          free' = got.free';
          listed = got.listed;
          kept = λ j t w. got.kept j t (
              still_within c free out bal i size npage pages s h some_byte given some_page smaller k
                m chain room same j t w);
          ends = got.ends;
          chain = got.chain;
          count = got.count;
          some_block = got.some_block;
          at_most = got.at_most;
          new = got.new;
          same = λ b t w.
              let (j, there) = bal.listed t b w in
              got.same b t w
              ∙ other_same c free out bal i size npage pages s h some_byte given some_page smaller k
                  m chain room same b j t there ((bal.accounts j t there).out_on b w);
          balanced = got.balanced;
        },
      )

  runs_found :
      (i s : ℕ)
      → index size ≡ some i
      → fetch_one_span c.pages (c.span_lists i) ≡ some s
      → fetch_range_obj system_alloc c n size ≡ some (take_from c s n)
  unfolding fetch_range_obj
  runs_found i s at found = rw (fetch_range_obj, at, found) refl

  runs_new :
      (i npage s : ℕ) (pages : PageCache) (c' : CentralCache)
      → index size ≡ some i
      → fetch_one_span c.pages (c.span_lists i) ≡ none
      → num_move_page size ≡ some npage
      → new_span system_alloc 2 c.pages npage ≡ some (pages, s)
      → add_span c i size pages s ≡ some c'
      → fetch_range_obj system_alloc c n size ≡ some (take_from c' s n)
  unfolding fetch_range_obj
  runs_new i npage s pages c' at none_free pages_of runs adds =
      rw (fetch_range_obj, at, none_free, pages_of, runs, adds) refl

  -- FetchRangeObj for blocks of 1 byte to 256 KB, asked for at least one, returns, given that the system
  -- gives pages that are not in hand, on a central cache whose accounts are balanced: it gives a chain
  -- of at least one and at most as many blocks as it was asked for, of a span in the list of the size. None of them was out; they now are,
  -- and the accounts are balanced again. The links of the blocks that were out are not written.
  pub fetch_range_obj-Fetched :
      size ≤ 262144
      → Fresh c.pages (system_alloc c.pages.allocations) 128
      → (i : ℕ) × (taken : Taken) × (c' : CentralCache) × (index size ≡ some i)
        × (fetch_range_obj system_alloc c n size ≡ some (taken, c'))
        × Fetched c out i n taken c'
  fetch_range_obj-Fetched fits fresh =
      let (i, at, _, _) = index-bucket size some_byte fits in
      elim (fetch_one_span-cases c.pages (c.span_lists i)) [
        | inr (s, found, here, some_free) ↦
            let a = bal.accounts i s here in
            let (x, rest, e) =
              Chain-cases c.memory (c.pages.spans s).free_lists (free s) a.chain some_free in
            (
              i,
              (take_from c s n).0,
              (take_from c s n).1,
              at,
              runs_found i s at found,
              take_from-Fetched c free out bal i s here n pos small x rest e,
            )
        | inl none_free ↦
            let (npage, pages_of, some_page, few, holds) = page_count size some_byte fits in
            let enough : asked system_alloc npage ≡ 128 = ground (arith, few) in
            let (pages, s, runs, h) =
              new_span-Handed system_alloc c.pages npage bal.order some_page
                (subst (Fresh c.pages (system_alloc c.pages.allocations)) (sym enough) fresh) in
            let (c', adds, got) =
              from_new i npage pages s h (some_byte, fits, at) some_page few holds in
            (
              i,
              (take_from c' s n).0,
              (take_from c' s n).1,
              at,
              runs_new i npage s pages c' at none_free pages_of runs adds,
              got,
            )
      ]
