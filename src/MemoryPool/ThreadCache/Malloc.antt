-- ===== src/MemoryPool/ThreadCache/Malloc.antt =====
-- ThreadCache::Allocate as a whole.
use linux_os.Base.{
  ℕ, ◌<◌, ◌≤◌, ◌≡◌, ◌≢◌, inl, inr, refl, sym, subst, ◌∙◌, List, [], ◌∷◌, Option, none, some, true,
  false, arith, min, update, Bool-cases,
}
use native.Mathlib.Decide.{dec_le}
use linux_os.MemoryPool.Memory.{Ptr, null, Memory, Chain}
use linux_os.MemoryPool.SizeClass.{round_up, index, num_move_size}
use linux_os.MemoryPool.SizeClass.Bounds.{round_up-RoundsUp}
use linux_os.MemoryPool.SizeClass.Batches.{num_move_size_bounds}
use linux_os.MemoryPool.SizeClass.Buckets.{index-bucket, index-round_up, index-none_iff}
use linux_os.MemoryPool.FreeList.{FreeList, pop, is_empty}
use linux_os.MemoryPool.FreeList.Laws.{Holds, pop-Holds}
use linux_os.MemoryPool.Carve.{Taken}
use linux_os.MemoryPool.PageCache.NewSpan.Grow.{Fresh}
use linux_os.MemoryPool.CentralCache.{CentralCache, fetch_range_obj}
use linux_os.MemoryPool.CentralCache.Take.{Fetched}
use linux_os.MemoryPool.CentralCache.Fetch.{Chain-cases, fetch_range_obj-Fetched}
use linux_os.MemoryPool.ThreadCache.{
  ThreadCache, widen, keep_rest, fetch_from_central_cache, allocate,
}
use linux_os.MemoryPool.ThreadCache.Laws.{Ready, Allocated}
use linux_os.MemoryPool.ThreadCache.Allocate.{popped-Allocated}
use linux_os.MemoryPool.ThreadCache.Keep.{kept_rest}

-- A request that has a list still has one once it is rounded up.
pub rounded_fits :
    (size : ℕ) → 0 < size → size ≤ 262144 → (0 < round_up size) × (round_up size ≤ 262144)
rounded_fits size pos fits =
    let (i, at, _, _) = index-bucket size pos fits in
    (
      omega (arith, round_up-RoundsUp size (omega (arith, fits))),
      elim (dec_le (round_up size) 262144) [
        | yes h ↦ h
        | no h ↦
            let refused = (index-none_iff (round_up size)).1 (omega (arith, h)) in
            absurd (none_some (sym refused ∙ index-round_up size pos fits ∙ at))
      ],
    )
  where
    none_some : {i : ℕ} → none ≡ some i → ⊥
    none_some e = cc

no-Chain : (m : Memory) (p : Ptr) (xs : List Ptr) → Chain m p xs → p ≡ null → xs ≡ []
no-Chain m p [] h e = refl
no-Chain m p (x ∷ xs) h e = absurd (h.1 (sym h.0 ∙ e))

not_null : (l : FreeList) → is_empty l ≡ false → l.freelist ≢ null
unfolding is_empty
not_null l e = ground (arith, e)

is_null : (l : FreeList) → is_empty l ≡ true → l.freelist ≡ null
unfolding is_empty
is_null l e = ground (arith, e)

module _ (system_alloc : ℕ → ℕ) (h : ThreadCache) (free out cached : ℕ → List Ptr)
    (r : Ready h free out cached) (size : ℕ) (pos : 0 < size) (fits : size ≤ 262144) where
  runs_pop :
      (i : ℕ) (b : Ptr) (l : FreeList)
      → index (round_up size) ≡ some i
      → is_empty (h.freelists i) ≡ false
      → pop (h.freelists i) h.central.memory ≡ some (b, l)
      → allocate system_alloc h size ≡ some (b, record h { freelists = update h.freelists i l })
  unfolding allocate
  runs_pop i b l at full pops = rw (allocate, at, pops, full) refl

  runs_fetch :
      (i nums : ℕ) (taken : Taken) (c' : CentralCache) {result : Option (Ptr × ThreadCache)}
      → index (round_up size) ≡ some i
      → is_empty (h.freelists i) ≡ true
      → num_move_size (round_up size) ≡ some nums
      → fetch_range_obj system_alloc h.central (min nums (h.freelists i).max_size) (round_up size)
        ≡ some (taken, c')
      → keep_rest
          (record {
            central = c';
            freelists =
                update h.freelists i (widen (h.freelists i) (min nums (h.freelists i).max_size));
          })
          i
          taken
        ≡ result
      → allocate system_alloc h size ≡ result
  unfolding allocate fetch_from_central_cache
  runs_fetch i nums taken c' at empty moves fetches keeps =
      rw (allocate, at, empty, fetch_from_central_cache, at, moves, fetches) keeps

  -- Allocate of 1 byte to 256 KB on a thread cache in order returns, given that the system gives pages
  -- that are not in hand: a block that was not lent to the program. It now is, out of a span in the list of
  -- that size, the blocks that were lent still are and no others, and the thread cache, the central cache and the page cache are in order.
  pub allocate-Allocated :
      Fresh h.central.pages (system_alloc h.central.pages.allocations) 128
      → (i : ℕ) × (b : Ptr) × (h' : ThreadCache) × (index (round_up size) ≡ some i)
        × (allocate system_alloc h size ≡ some (b, h'))
        × Allocated h out cached i b h'
  allocate-Allocated fresh =
      let (some_byte, small) = rounded_fits size pos fits in
      let (i, at, _, _) = index-bucket (round_up size) some_byte small in
      elim (Bool-cases (is_empty (h.freelists i))) [
        | inr full ↦
            let (b, xs, e) =
              Chain-cases h.central.memory (h.freelists i).freelist (cached i) (r.holds i).chain
                (not_null (h.freelists i) full) in
            let (l, pops, holds, same) =
              pop-Holds h.central.memory (h.freelists i) b xs
                (subst (Holds h.central.memory (h.freelists i)) e (r.holds i)) in
            (
              i,
              b,
              record h { freelists = update h.freelists i l },
              at,
              runs_pop i b l at full pops,
              popped-Allocated h free out cached r i b xs e l holds same,
            )
        | inl empty ↦
            let none_cached =
              no-Chain h.central.memory (h.freelists i).freelist (cached i) (r.holds i).chain
                (is_null (h.freelists i) empty) in
            let (nums, moves, lo, hi, _) = num_move_size_bounds (round_up size) some_byte small in
            let n = min nums (h.freelists i).max_size in
            let (k, taken, c', at', fetches, got) =
              fetch_range_obj-Fetched system_alloc h.central free out r.balanced n (round_up size)
                (omega (arith, lo, r.few i)) (omega (arith, hi)) some_byte small fresh in
            let got' : Fetched h.central out i n taken c' =
              subst (λ j. Fetched h.central out j n taken c') (some-injective (sym at' ∙ at)) got in
            let (b, h', keeps, done) =
              kept_rest h free out cached r i n none_cached taken c' got' (omega (arith, hi))
                (omega arith) in
            (i, b, h', at, runs_fetch i nums taken c' at empty moves fetches keeps, done)
      ]
    where
      some-injective : {a b : ℕ} → some a ≡ some b → a ≡ b
      some-injective e = cc
