-- ===== src/MemoryPool/ThreadCache/Runs.antt =====
-- What a program sees of ConcurrentMalloc and ConcurrentDelete, over any number of calls and of writes
-- into its blocks.
use linux_os.Base.{
  ℕ, ◌<◌, ◌≤◌, ◌≡◌, ◌≢◌, ◌∙◌, inl, inr, refl, sym, subst, List, [], ◌∷◌, some, arith, NotIn,
}
use linux_os.MemoryPool.Memory.{Ptr, null, Memory}
use linux_os.MemoryPool.FreeList.{fresh}
use linux_os.MemoryPool.PageCache.{new_cache}
use linux_os.MemoryPool.PageCache.Lists.{Distinct}
use linux_os.MemoryPool.PageCache.NewSpan.Start.{new_cache-InOrder}
use linux_os.MemoryPool.PageCache.NewSpan.Grow.{Fresh}
use linux_os.MemoryPool.PageCache.Release.Erase.{Within, Within-NotIn, Erased}
use linux_os.MemoryPool.CentralCache.Accounts.{not_within}
use linux_os.MemoryPool.ThreadCache.{ThreadCache, concurrent_malloc, concurrent_delete}
use linux_os.MemoryPool.ThreadCache.Laws.{Ready, Lent, Allocated}
use linux_os.MemoryPool.ThreadCache.Free.{Freed}
use linux_os.MemoryPool.ThreadCache.Stores.{InBlock, stored, stored-Ready}
use linux_os.MemoryPool.ThreadCache.Program.{concurrent_malloc-Allocated, concurrent_delete-Freed}

-- Nothing is in hand before the first call.
abbrev pub new_thread : Memory → ThreadCache
new_thread m = record {
  central = record { pages = new_cache; span_lists = λ i. []; memory = m };
  freelists = λ i. fresh;
}

-- A program asks for blocks of 1 byte to 256 KB, writes words into blocks that it has, as far as they lie
-- on the pages of their span, and gives back blocks that it has; `ps` are those it has after the run. The system never gives pages that are in hand.
pub data Run (system_alloc : ℕ → ℕ) (m : Memory) : ThreadCache → List Ptr → Type 1 where
  start : Run system_alloc m (new_thread m) []
  malloc :
      {h : ThreadCache} {ps : List Ptr} (size : ℕ) (b : Ptr) (h' : ThreadCache)
      → Run system_alloc m h ps
      → 0 < size
      → size ≤ 262144
      → Fresh h.central.pages (system_alloc h.central.pages.allocations) 128
      → concurrent_malloc system_alloc h size ≡ some (b, h')
      → Run system_alloc m h' (b ∷ ps)
  delete :
      {h : ThreadCache} {ps qs : List Ptr} (b : Ptr) (h' : ThreadCache)
      → Run system_alloc m h ps
      → Within b ps
      → Erased b ps qs
      → concurrent_delete h b ≡ some h'
      → Run system_alloc m h' qs
  store :
      {h : ThreadCache} {ps : List Ptr} (b a v : Ptr)
      → Run system_alloc m h ps
      → Within b ps
      → InBlock h b a
      → Run system_alloc m (stored h a v) ps

-- The program has exactly the blocks that are lent, each once.
pub record Sound (h : ThreadCache) (ps : List Ptr) : Type 0 where
  pub free : ℕ → List Ptr
  pub out : ℕ → List Ptr
  pub cached : ℕ → List Ptr
  pub ready : Ready h free out cached
  pub distinct : Distinct ps
  pub none_null : (b : Ptr) → Within b ps → b ≢ null
  pub lent : (b : Ptr) → Within b ps → Lent out cached b
  pub no_more : (b : Ptr) → Lent out cached b → Within b ps

pub new_thread-Ready : (m : Memory) → Ready (new_thread m) (λ s. []) (λ s. []) (λ s. [])
unfolding fresh
new_thread-Ready m = record {
  balanced = record {
    order = new_cache-InOrder;
    accounts = λ i s h. absurd h;
    bytes = λ i s h. absurd h;
    distinct = λ i. tt;
    one_list = λ i j s h. absurd h;
    listed = λ s b h. absurd h;
  };
  holds = λ i. record { chain = refl; count = refl; small = omega arith };
  own = λ i b w. absurd w;
  few = λ i. omega arith;
  bounded = λ i. omega arith;
}

some-injective : {A : Type 0} {a b : A} → some a ≡ some b → a ≡ b
some-injective e = cc

malloc-Sound :
    (h h' : ThreadCache) (ps : List Ptr) (i : ℕ) (b : Ptr) (s : Sound h ps)
    → Allocated h s.out s.cached i b h'
    → Sound h' (b ∷ ps)
malloc-Sound h h' ps i b s a = record {
  free = a.free';
  out = a.out';
  cached = a.cached';
  ready = a.ready;
  distinct = (not_within b ps (λ w. a.was_free (s.lent b w)), s.distinct);
  none_null = λ x w. elim w [ inl e ↦ λ z. a.not_null (sym e ∙ z) | inr v ↦ s.none_null x v ];
  lent = λ x w. elim w [
    | inl e ↦ subst (Lent a.out' a.cached') (sym e) a.lent
    | inr v ↦ a.still x (s.lent x v)
  ];
  no_more = λ x l. elim (a.no_more x l) [ inl e ↦ inl e | inr old ↦ inr (s.no_more x old) ];
}

delete-Sound :
    (h h' : ThreadCache) (ps qs : List Ptr) (b : Ptr) (s : Sound h ps)
    → Erased b ps qs
    → Freed s.out s.cached b h'
    → Sound h' qs
delete-Sound h h' ps qs b s er f = record {
  free = f.free';
  out = f.out';
  cached = f.cached';
  ready = f.ready;
  distinct = (er.distinct s.distinct).0;
  none_null = λ x w. s.none_null x (er.held x w);
  lent =
      λ x w. f.still x (Within-NotIn x b qs w (er.distinct s.distinct).1) (s.lent x (er.held x w));
  no_more = λ x l.
      er.others x (λ e. f.not_lent (subst (Lent f.out' f.cached') e l))
        (s.no_more x (f.no_more x l));
}

store-Sound :
    (h : ThreadCache) (ps : List Ptr) (b a v : Ptr) (s : Sound h ps)
    → Within b ps
    → InBlock h b a
    → Sound (stored h a v) ps
store-Sound h ps b a v s has inside = record {
  free = s.free;
  out = s.out;
  cached = s.cached;
  ready = stored-Ready h s.free s.out s.cached s.ready b a (s.lent b has) inside v;
  distinct = s.distinct;
  none_null = s.none_null;
  lent = s.lent;
  no_more = s.no_more;
}

-- After any run of calls of ConcurrentMalloc for 1 byte to 256 KB, of ConcurrentDelete of blocks that the
-- program has, and of stores of aligned words into such blocks, the blocks that the program has are
-- exactly those that are lent, no two of them are the same, none is null, and the caches are in order. The
-- system gives no pages that are in hand, and no store goes beyond the pages of the span, where the last
-- block of a span may end.
pub Run-Sound :
    (system_alloc : ℕ → ℕ) (m : Memory) (h : ThreadCache) (ps : List Ptr)
    → Run system_alloc m h ps
    → Sound h ps
Run-Sound system_alloc m h ps start = record {
  free = λ s. [];
  out = λ s. [];
  cached = λ s. [];
  ready = new_thread-Ready m;
  distinct = tt;
  none_null = λ b w. absurd w;
  lent = λ b w. absurd w;
  no_more = λ b l. l.0.1;
}
Run-Sound system_alloc m h' ps (malloc {h = h} {ps = old} size b _ run pos fits fresh gives) =
    let s = Run-Sound system_alloc m h old run in
    let (i, b', h1, runs, a) =
      concurrent_malloc-Allocated system_alloc h s.free s.out s.cached size s.ready pos fits
        fresh in
    let same : (b', h1) ≡ (b, h') = some-injective (sym runs ∙ gives) in
    subst (λ (t : Ptr × ThreadCache). Sound t.1 (t.0 ∷ old)) same (malloc-Sound h h1 old i b' s a)
Run-Sound system_alloc m h' ps (store {h = h} b a v run has inside) =
    store-Sound h ps b a v (Run-Sound system_alloc m h ps run) has inside
Run-Sound system_alloc m h' qs (delete {h = h} {ps = ps} b _ run has er gives) =
    let s = Run-Sound system_alloc m h ps run in
    let (h1, runs, f) =
      concurrent_delete-Freed h s.free s.out s.cached b s.ready (s.none_null b has)
        (s.lent b has) in
    let same : h1 ≡ h' = some-injective (sym runs ∙ gives) in
    subst (λ (t : ThreadCache). Sound t qs) same (delete-Sound h h1 ps qs b s er f)

-- After any run of calls and stores, a call of ConcurrentMalloc for 1 byte to 256 KB returns, given that the system
-- gives pages that are not in hand: a block that is not null and that the program does not have, and the
-- run goes on with it. No store of the run goes beyond the pages of a span.
pub concurrent_malloc-Run :
    (system_alloc : ℕ → ℕ) (m : Memory) (h : ThreadCache) (ps : List Ptr) (size : ℕ)
    → Run system_alloc m h ps
    → 0 < size
    → size ≤ 262144
    → Fresh h.central.pages (system_alloc h.central.pages.allocations) 128
    → (b : Ptr) × (h' : ThreadCache) × (concurrent_malloc system_alloc h size ≡ some (b, h'))
      × (b ≢ null)
      × NotIn b ps
      × Run system_alloc m h' (b ∷ ps)
concurrent_malloc-Run system_alloc m h ps size run pos fits fresh =
    let s = Run-Sound system_alloc m h ps run in
    let (i, b, h', runs, a) =
      concurrent_malloc-Allocated system_alloc h s.free s.out s.cached size s.ready pos fits
        fresh in
    (
      b,
      h',
      runs,
      a.not_null,
      not_within b ps (λ w. a.was_free (s.lent b w)),
      malloc size b h' run pos fits fresh runs,
    )
