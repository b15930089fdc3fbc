-- ===== src/MemoryPool/PageCache/NewSpan.antt =====
-- NewSpan gives a span of the right size for any number of pages that the lists are for.
pub mod Cut
pub mod Grow
pub mod Lend
pub mod Start
pub mod Take
use linux_os.Base.{
  ℕ, zero, suc, ◌+◌, ◌-◌, ◌<◌, ◌≤◌, ◌≡◌, ◌≢◌, ◌⊎◌, inl, inr, refl, sym, ap, ◌∙◌, List, [], ◌∷◌,
  Option, Bool, true, subst, if◌then◌else◌, none, some, false, arith, ltb, ◌==◌, update, Bool-cases,
}
use linux_os.MemoryPool.PageCache.{
  Span, PageCache, npage_lists, fresh_span, map_pages, set_ends, make_span, push_span, take_exact,
  split_span, split_from, grow, new_span, lend, new_large,
}
use linux_os.MemoryPool.Memory.{Ptr}
use linux_os.MemoryPool.PageCache.Release.Absorb.{not_both}
use linux_os.MemoryPool.PageCache.Release.Order.{InOrder, Covers, Live}
use linux_os.MemoryPool.PageCache.NewSpan.Lend.{Room, lend-InOrder, set_pages_outside}
use linux_os.MemoryPool.PageCache.NewSpan.Take.{
  KeepsUsed, ended-Room, take_exact-KeepsUsed, front_size, front_unused,
}
use linux_os.MemoryPool.PageCache.NewSpan.Cut.{shelved-Room, shelved-KeepsUsed, of_k}
use linux_os.MemoryPool.PageCache.NewSpan.Grow.{Fresh, made-Room, made-KeepsUsed, pushed-InOrder}
use linux_os.MemoryPool.PageCache.Lists.{
  update_same, IsStocked, Apart, not_made, set_pages_lem, popped, popped-InList, popped-IsStocked,
  popped-Apart, change-IsStocked, push_span-IsStocked, push_span-Apart,
}

-- What NewSpan promises of the span `s` that it returns: the lists are in order and do not hold it,
-- it has the pages that were asked for, each of them is mapped to it, and it is marked as unused. Once
-- it is marked as used the whole cache is in order. What was in use stays as it was.
pub record Handed (npage : ℕ) (pc pc' : PageCache) (s : ℕ) : Type 0 where
  pub stocked : IsStocked pc'
  pub apart : Apart pc' s
  pub made : s < pc'.next_span
  pub size : (pc'.spans s).npage ≡ npage
  pub unused : (pc'.spans s).is_used ≡ false
  pub mapped :
      (p : ℕ)
      → (pc'.spans s).page_id ≤ p
      → p < (pc'.spans s).page_id + npage
      → pc'.id_span_map p ≡ some s
  pub ready :
      (obj_size use_count : ℕ) (free_lists : Ptr)
      → InOrder (lend pc' s obj_size use_count free_lists)
  pub kept : KeepsUsed pc pc' s
  pub start : 0 < (pc'.spans s).page_id

list_cases : (xs : List ℕ) → (xs ≡ []) ⊎ ((s : ℕ) × (rest : List ℕ) × (xs ≡ s ∷ rest))
list_cases [] = inl refl
list_cases (x ∷ xs) = inr (x, xs, refl)

cons_empty : {x : ℕ} {xs : List ℕ} → x ∷ xs ≡ [] → ⊥
cons_empty h = cc

update_other : (f : ℕ → Span) (s : ℕ) (v : Span) (x : ℕ) → s ≢ x → update f s v x ≡ f x
unfolding update
update_other f s v x ne = ground (arith, ne)

map_pages-mapped :
    (pc : PageCache) (s npage p : ℕ)
    → (pc.spans s).npage ≡ npage
    → (pc.spans s).page_id ≤ p
    → p < (pc.spans s).page_id + npage
    → (map_pages pc s).id_span_map p ≡ some s
unfolding map_pages
map_pages-mapped pc s npage p size h h' =
    ground
      (arith, set_pages_lem (pc.spans s).npage (pc.spans s).page_id s pc.id_span_map p, size, h, h')

-- With the pages of a span mapped that there is room for, it is handed out.
map_pages-Handed :
    (pc before : PageCache) (s npage : ℕ)
    → InOrder pc
    → Room before s
    → (before.spans s).npage ≡ npage
    → (before.spans s).is_used ≡ false
    → KeepsUsed pc before s
    → Handed npage pc (map_pages before s) s
unfolding map_pages
map_pages-Handed pc before s npage order room size unused kept = record {
  stocked = record { sized = room.stocked.sized; distinct = room.stocked.distinct };
  apart = room.apart;
  made = room.made;
  size = size;
  unused = unused;
  mapped = λ p. map_pages-mapped before s npage p size;
  ready = lend-InOrder before s room;
  kept = λ p t h used.
      let (ne, there, same) = kept p t h used in
      let en = order.entries p t h in
      let live : Live before t = inr (subst (λ sp. sp.is_used ≡ true) (sym same) used, p, there) in
      (
        ne,
        set_pages_outside (before.spans s).npage (before.spans s).page_id s before.id_span_map p
              (λ from to.
                room.beside t p live (subst (λ sp. Covers sp p) (sym same) (en.from, en.to))
                  (from, to))
            ∙ there,
        same,
      );
  start = room.start;
}

module _ (pc : PageCache) (order : InOrder pc) (npage s : ℕ) (rest : List ℕ) (pos : 0 < npage) where
  take_exact-Handed :
      pc.span_lists npage ≡ s ∷ rest → Handed npage pc (take_exact pc npage s rest) s
  unfolding take_exact set_ends
  take_exact-Handed e =
      map_pages-Handed pc _ s npage order (ended-Room pc order npage s rest e pos)
        (front_size pc order npage s rest e) (front_unused pc order npage s rest e)
        (take_exact-KeepsUsed pc order npage s rest e pos)

  split_span-Handed :
      (i : ℕ)
      → pc.span_lists i ≡ s ∷ rest
      → npage < i
      → Handed npage pc (split_span pc npage i s rest) pc.next_span
  unfolding split_span make_span
  split_span-Handed i e longer =
      let new = of_k pc order npage i s rest e pos longer in
      map_pages-Handed pc _ pc.next_span npage order
        (shelved-Room pc order npage i s rest e pos longer) (ap (λ t. t.npage) new)
        (ap (λ t. t.is_used) new) (shelved-KeepsUsed pc order npage i s rest e pos longer)

-- The search of the longer lists fails only where all of them are empty.
split_from-cases :
    (n : ℕ) (pc : PageCache) (npage i : ℕ)
    → InOrder pc
    → 0 < npage
    → npage < i
    → ((split_from n pc npage i ≡ none) × ((m : ℕ) → i ≤ m → m < i + n → pc.span_lists m ≡ []))
      ⊎ ((pc' : PageCache) × (s : ℕ) × (split_from n pc npage i ≡ some (pc', s))
          × Handed npage pc pc' s)
unfolding split_from
split_from-cases zero pc npage i st pos longer = inl (refl, λ m h h'. absurd (omega (arith, h, h')))
split_from-cases (suc n) pc npage i st pos longer = elim (list_cases (pc.span_lists i)) [
  | inr (s, rest, e) ↦ inr (
    split_span pc npage i s rest,
    pc.next_span,
    rw (e, split_from) refl,
    split_span-Handed pc st npage s rest pos i e longer,
  )
  | inl e ↦ elim (split_from-cases n pc npage (suc i) st pos (omega (arith, longer))) [
    | inr (pc', s, runs, handed) ↦ inr (pc', s, rw (e, split_from) runs, handed)
    | inl (runs, empty) ↦ inl (
      rw (e, split_from) runs,
      λ m h h'. elim (Bool-cases (m == i)) [
        | inl same ↦ ap pc.span_lists (ground (arith, same)) ∙ e
        | inr later ↦ empty m (ground (arith, later, h)) (omega (arith, h'))
      ],
    )
  ]
]

-- What was handed out after the cache had grown.
Handed-after :
    (pc before pc' : PageCache) (k s : ℕ) {npage : ℕ}
    → KeepsUsed pc before k
    → Handed npage before pc' s
    → Handed npage pc pc' s
Handed-after pc before pc' k s keeps h = record {
  stocked = h.stocked;
  apart = h.apart;
  made = h.made;
  size = h.size;
  unused = h.unused;
  mapped = h.mapped;
  ready = h.ready;
  kept = λ p t e used.
      let (_, there, same) = keeps p t e used in
      let (ne, there', same') =
        h.kept p t there (subst (λ sp. sp.is_used ≡ true) (sym same) used) in
      (ne, there', same' ∙ same);
  start = h.start;
}

module _ (system_alloc : ℕ → ℕ) where
  grow-InOrder :
      (pc : PageCache)
      → InOrder pc
      → Fresh pc (system_alloc pc.allocations) 128
      → InOrder (grow system_alloc pc)
  unfolding grow make_span
  grow-InOrder pc order fresh = pushed-InOrder pc order (system_alloc pc.allocations) 128 fresh

  grow-KeepsUsed :
      (pc : PageCache)
      → InOrder pc
      → Fresh pc (system_alloc pc.allocations) 128
      → KeepsUsed pc (grow system_alloc pc) pc.next_span
  unfolding grow make_span push_span
  grow-KeepsUsed pc order fresh = made-KeepsUsed pc order (system_alloc pc.allocations) 128 fresh

  -- The last list then has a span.
  grow-last :
      (pc : PageCache)
      → (rest : List ℕ) × ((grow system_alloc pc).span_lists 128 ≡ pc.next_span ∷ rest)
  unfolding grow make_span push_span update
  grow-last pc = (pc.span_lists 128, refl)

  -- One call of NewSpan: it hands a span out, or the list of its size and all longer ones are empty.
  new_span-cases :
      (f : ℕ) (pc : PageCache) (npage : ℕ)
      → InOrder pc
      → 0 < npage
      → npage < npage_lists
      → ((new_span system_alloc (suc f) pc npage
            ≡ new_span system_alloc f (grow system_alloc pc) npage)
          × ((m : ℕ) → npage ≤ m → m < npage_lists → pc.span_lists m ≡ []))
        ⊎ ((pc' : PageCache) × (s : ℕ) × (new_span system_alloc (suc f) pc npage ≡ some (pc', s))
            × Handed npage pc pc' s)
  unfolding new_span
  new_span-cases f pc npage st pos small =
      let fits : ltb (npage_lists - 1) npage ≡ false = ground (arith, small) in
      elim (list_cases (pc.span_lists npage)) [
        | inr (s, rest, e) ↦ inr (
          take_exact pc npage s rest,
          s,
          rw (fits, new_span, e) refl,
          take_exact-Handed pc st npage s rest pos e,
        )
        | inl e ↦
            elim (split_from-cases (npage_lists - (npage + 1)) pc npage (npage + 1) st pos
              (omega arith)) [
                | inr (pc', s, runs, handed) ↦
                    inr (pc', s, rw (fits, new_span, e, runs) refl, handed)
                | inl (runs, empty) ↦ inl (
                  rw (fits, new_span, e, runs) refl,
                  λ m h h'. elim (Bool-cases (m == npage)) [
                    | inl same ↦ ap pc.span_lists (ground (arith, same)) ∙ e
                    | inr later ↦ empty m (ground (arith, later, h)) (omega (arith, h', small))
                  ],
                )
              ]
      ]

  -- The pages that the system must not have given out yet: those of a large span, or 128.
  abbrev pub asked : ℕ → ℕ
  asked npage = if ltb (npage_lists - 1) npage then npage else npage_lists - 1

  new_large-Handed :
      (pc : PageCache) (npage : ℕ)
      → InOrder pc
      → Fresh pc (system_alloc pc.allocations) npage
      → Handed npage pc (new_large system_alloc pc npage) pc.next_span
  unfolding new_large make_span
  new_large-Handed pc npage order fresh =
      let base = system_alloc pc.allocations in
      let new = update_same pc.spans pc.next_span (fresh_span base npage) in
      map_pages-Handed pc _ pc.next_span npage order (made-Room pc order base npage fresh)
        (ap (λ t. t.npage) new) (ap (λ t. t.is_used) new) (made-KeepsUsed pc order base npage fresh)

  new_span-small :
      (pc : PageCache) (npage : ℕ)
      → InOrder pc
      → 0 < npage
      → npage < npage_lists
      → Fresh pc (system_alloc pc.allocations) 128
      → (pc' : PageCache) × (s : ℕ) × (new_span system_alloc 2 pc npage ≡ some (pc', s))
        × Handed npage pc pc' s
  new_span-small pc npage st pos small fresh = elim (new_span-cases 1 pc npage st pos small) [
    | inr found ↦ found
    | inl (again, empty) ↦
        elim (new_span-cases 0 (grow system_alloc pc) npage (grow-InOrder pc st fresh) pos small) [
          | inr (pc', s, runs, handed) ↦ (
            pc',
            s,
            again ∙ runs,
            Handed-after pc (grow system_alloc pc) pc' pc.next_span s (grow-KeepsUsed pc st fresh)
                handed,
          )
          | inl (none_left, all_empty) ↦
              let (rest, last) = grow-last pc in
              absurd (cons_empty (sym last ∙ all_empty 128 (omega (arith, small)) (omega arith)))
        ]
  ]

  -- NewSpan of any number of pages but 0, on a page cache in order, returns, given that the system gives
  -- pages that are not in hand: it calls itself at most once, and hands out a span of that many pages
  -- that is in no list and to which each of its pages is mapped. Once that span is marked as used the
  -- cache is in order, and every span that was in use is as it was, with its pages.
  pub new_span-Handed :
      (pc : PageCache) (npage : ℕ)
      → InOrder pc
      → 0 < npage
      → Fresh pc (system_alloc pc.allocations) (asked npage)
      → (pc' : PageCache) × (s : ℕ) × (new_span system_alloc 2 pc npage ≡ some (pc', s))
        × Handed npage pc pc' s
  unfolding new_span
  new_span-Handed pc npage st pos fresh = elim (Bool-cases (ltb (npage_lists - 1) npage)) [
    | inl large ↦ (
      new_large system_alloc pc npage,
      pc.next_span,
      rw (large, new_span) refl,
      new_large-Handed pc npage st (of_large large fresh),
    )
    | inr fits ↦ new_span-small pc npage st pos (ground (arith, fits)) (of_small fits fresh)
  ]
    where
      of_large :
          {b : Bool}
          → b ≡ true
          → Fresh pc (system_alloc pc.allocations) (if b then npage else npage_lists - 1)
          → Fresh pc (system_alloc pc.allocations) npage
      of_large {b = true} e h = h
      of_large {b = false} e h = absurd (not_both e refl)

      of_small :
          {b : Bool}
          → b ≡ false
          → Fresh pc (system_alloc pc.allocations) (if b then npage else npage_lists - 1)
          → Fresh pc (system_alloc pc.allocations) 128
      of_small {b = true} e h = absurd (not_both refl e)
      of_small {b = false} e h = h
