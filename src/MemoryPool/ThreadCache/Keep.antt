-- ===== src/MemoryPool/ThreadCache/Keep.antt =====
-- What ThreadCache::FetchFromCentralCache does with a batch.
use linux_os.Base.{
  ℕ, suc, ◌+◌, ◌-◌, ◌<◌, ◌≤◌, ◌≡◌, inl, inr, refl, sym, ap, subst, ◌∙◌, List, [], ◌∷◌, ◌++◌, some,
  false, arith, length, length-append, append-nil, ◌==◌, update, Bool-cases,
}
use linux_os.MemoryPool.Memory.{Ptr, null, Memory, Chain, Seg, Disjoint}
use linux_os.MemoryPool.FreeList.{FreeList, push_range}
use linux_os.MemoryPool.FreeList.Laws.{Holds, push_range-Holds}
use linux_os.MemoryPool.Carve.{Taken}
use linux_os.MemoryPool.CentralCache.{CentralCache}
use linux_os.MemoryPool.CentralCache.Accounts.{Within-right}
use linux_os.MemoryPool.CentralCache.Take.{Fetched}
use linux_os.MemoryPool.ThreadCache.{ThreadCache, widen, keep_rest}
use linux_os.MemoryPool.ThreadCache.Refill.{refilled-Allocated}
use linux_os.MemoryPool.ThreadCache.Laws.{Ready, Allocated}

widen_lem :
    (l : FreeList) (n : ℕ)
    → n ≤ 512
    → l.max_size ≤ 513
    → ((widen l n).freelist ≡ l.freelist)
      × ((widen l n).size ≡ l.size)
      × (l.max_size ≤ (widen l n).max_size)
      × ((widen l n).max_size ≤ 513)
unfolding widen
widen_lem l n small bounded = elim (Bool-cases (n == l.max_size)) [
  | inl e ↦
      (rw (e) refl, rw (e) refl, rw (e) (omega (arith, bounded)), rw (e) (ground (arith, e, small)))
  | inr e ↦ (rw (e) refl, rw (e) refl, rw (e) (omega arith), rw (e) bounded)
]

Disjoint-nil : (xs : List Ptr) → Disjoint xs []
Disjoint-nil [] = tt
Disjoint-nil (x ∷ xs) = (tt, Disjoint-nil xs)

pub freelist_at : (f : ℕ → FreeList) (i : ℕ) (l : FreeList) → update f i l i ≡ l
unfolding update
freelist_at f i l = ground arith

pub freelist_other :
    (f : ℕ → FreeList) (i : ℕ) (l : FreeList) (j : ℕ) → j == i ≡ false → update f i l j ≡ f j
unfolding update
freelist_other f i l j ne = rw (ne) refl

-- A batch has come for the empty list `i`.
module _ (h : ThreadCache) (free out cached : ℕ → List Ptr) (r : Ready h free out cached) (i n : ℕ)
    (empty : cached i ≡ []) (taken : Taken) (c' : CentralCache)
    (got : Fetched h.central out i n taken c') (small : n ≤ 512)
    (allowed : n ≤ (h.freelists i).max_size) where
  abbrev wide : FreeList
  wide = widen (h.freelists i) n

  abbrev lists1 : ℕ → FreeList
  lists1 = update h.freelists i wide

  abbrev h1 : ThreadCache
  h1 = record { central = c'; freelists = lists1 }

  wide_max : ((h.freelists i).max_size ≤ wide.max_size) × (wide.max_size ≤ 513)
  wide_max =
      let (_, _, more, bounded) = widen_lem (h.freelists i) n small (r.bounded i) in (more, bounded)

  wide_empty : Holds c'.memory wide []
  wide_empty =
      let (same, size, _, _) = widen_lem (h.freelists i) n small (r.bounded i) in
      let old = subst (Holds h.central.memory (h.freelists i)) empty (r.holds i) in
      record { chain = same ∙ old.chain; count = size ∙ old.count; small = old.small }

  abbrev pub Kept : Type 0
  Kept =
      (b : Ptr) × (h' : ThreadCache) × (keep_rest h1 i taken ≡ some (b, h'))
      × Allocated h out cached i b h'

  -- It is one block.
  keep_one : got.blocks ≡ taken.last ∷ [] → Kept
  unfolding keep_rest
  keep_one e =
      let first : taken.start ≡ taken.last =
        (subst (λ zs. Chain c'.memory taken.start zs) e got.chain).0 in
      let one : taken.actual_num ≡ 1 = sym got.count ∙ ap (λ (zs : List Ptr). length zs) e in
      let at = freelist_at h.freelists i wide in
      (
        taken.start,
        h1,
        rw (keep_rest, one) refl,
        refilled-Allocated h free out cached r i n empty taken c' got taken.start []
            (e ∙ ap (λ (p : Ptr). p ∷ []) (sym first)) c'.memory (λ a v. refl) lists1
            (λ j ne. freelist_other h.freelists i wide j ne)
            (subst (λ l. Holds c'.memory l []) (sym at) wide_empty)
            (subst (λ l. 0 < l.max_size) (sym at)
              (omega (arith, wide_max.0, got.at_most, got.some_block, allowed)))
            (subst (λ l. l.max_size ≤ 513) (sym at) wide_max.1),
      )

  -- It is more: they go into the list.
  keep_more : (f : Ptr) (fs : List Ptr) → got.blocks ≡ f ∷ (fs ++ taken.last ∷ []) → Kept
  unfolding keep_rest
  keep_more f fs e =
      let ys = fs ++ taken.last ∷ [] in
      let chain = subst (λ zs. Chain c'.memory taken.start zs) e got.chain in
      let first : taken.start ≡ f = chain.0 in
      let len : length ys ≡ length fs + 1 = length-append fs (taken.last ∷ []) in
      let num : taken.actual_num ≡ suc (length ys) =
        sym got.count ∙ ap (λ (zs : List Ptr). length zs) e in
      let rest : Seg c'.memory (c'.memory taken.start) ys null =
        subst (λ p. Seg c'.memory (c'.memory p) ys null) (sym first) chain.3 in
      let (l, m, runs, holds, max_same, same) =
        push_range-Holds c'.memory wide [] fs (c'.memory taken.start) taken.last null wide_empty
          rest (Disjoint-nil ys) (omega (arith, len, num, got.at_most, small)) in
      let pushed = subst (λ zs. Holds m l zs) (append-nil ys) holds in
      let lists2 = update lists1 i l in
      let at : lists2 i ≡ l = freelist_at lists1 i l in
      let pushes : push_range (lists1 i) (c'.memory taken.start) taken.last (taken.actual_num - 1)
            c'.memory
          ≡ some (l, m) =
        subst
          (λ w.
            push_range w (c'.memory taken.start) taken.last (taken.actual_num - 1) c'.memory
            ≡ some (l, m))
          (sym (freelist_at h.freelists i wide))
          (subst (λ k. push_range wide (c'.memory taken.start) taken.last k c'.memory ≡ some (l, m))
            (omega (arith, num, len)) runs) in
      (
        taken.start,
        record { central = record c' { memory = m }; freelists = lists2 },
        keeps_more taken.start l m (omega (arith, num, len)) pushes,
        refilled-Allocated h free out cached r i n empty taken c' got taken.start ys
            (e ∙ ap (λ (p : Ptr). p ∷ ys) (sym first)) m
            (λ a v. same a ((λ eq. v (Within-right a fs (taken.last ∷ []) (inl eq))), tt)) lists2
            (λ j ne. freelist_other lists1 i l j ne ∙ freelist_other h.freelists i wide j ne)
            (subst (λ k. Holds m k ys) (sym at) pushed)
            (subst (λ k. length ys < k.max_size) (sym at)
              (omega (arith, num, got.at_most, allowed, wide_max.0, max_same)))
            (subst (λ k. k.max_size ≤ 513) (sym at) (omega (arith, max_same, wide_max.1))),
      )
    where
      keeps_more :
          (b : Ptr) (l : FreeList) (m : Memory)
          → 1 < taken.actual_num
          → push_range
              (lists1 i)
              (c'.memory taken.start)
              taken.last
              (taken.actual_num - 1)
              c'.memory
            ≡ some (l, m)
          → keep_rest h1 i taken
            ≡ some (
              taken.start,
              record { central = record c' { memory = m }; freelists = update lists1 i l },
            )
      keeps_more b l m more pushes =
          let not_none : (taken.actual_num == 0) ≡ false = ground (arith, more) in
          let not_one : (taken.actual_num == 1) ≡ false = ground (arith, more) in
          rw (keep_rest, not_none, not_one, pushes) refl

  pub kept_rest : Kept
  kept_rest = let (front, e) = got.ends in by_front front e
    where
      by_front : (front : List Ptr) → got.blocks ≡ front ++ taken.last ∷ [] → Kept
      by_front [] e = keep_one e
      by_front (f ∷ fs) e = keep_more f fs e
