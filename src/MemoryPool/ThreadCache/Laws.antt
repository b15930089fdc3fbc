-- ===== src/MemoryPool/ThreadCache/Laws.antt =====
-- When a thread cache is in order.
use linux_os.Base.{ℕ, ◌<◌, ◌≤◌, ◌≡◌, ◌≢◌, ◌⊎◌, refl, subst, List, length}
use linux_os.MemoryPool.Memory.{Ptr, null, Memory}
use linux_os.MemoryPool.FreeList.{FreeList}
use linux_os.MemoryPool.FreeList.Laws.{Holds}
use linux_os.MemoryPool.PageCache.Release.Erase.{Within}
use linux_os.MemoryPool.CentralCache.{CentralCache}
use linux_os.MemoryPool.CentralCache.Accounts.{Balanced, on_one_span, Account-frame, Seg-same}
use linux_os.MemoryPool.CentralCache.Back.{OutOf}
use linux_os.MemoryPool.ThreadCache.{ThreadCache}

-- The accounts of the central cache are balanced, and list `i` of the thread holds the blocks `cached i`,
-- fewer than it may ask for, all of them out of spans of that size.
pub record Ready (h : ThreadCache) (free out cached : ℕ → List Ptr) : Type 0 where
  pub balanced : Balanced h.central free out
  pub holds : (i : ℕ) → Holds h.central.memory (h.freelists i) (cached i)
  pub own : (i : ℕ) → OutOf h.central out i (cached i)
  pub few : (i : ℕ) → length (cached i) < (h.freelists i).max_size
  pub bounded : (i : ℕ) → (h.freelists i).max_size ≤ 513

-- A block that the program has: it is out of its span and in no list.
abbrev pub Lent : (ℕ → List Ptr) → (ℕ → List Ptr) → Ptr → Type 0
Lent out cached b = ((s : ℕ) × Within b (out s)) × ((i : ℕ) → Within b (cached i) → ⊥)

-- What a call of malloc promises: the block was not lent and is now, out of a span of list `i`, and the
-- others as before.
pub record Allocated (h : ThreadCache) (out cached : ℕ → List Ptr) (i : ℕ) (b : Ptr)
    (h' : ThreadCache) : Type 0 where
  pub free' : ℕ → List Ptr
  pub out' : ℕ → List Ptr
  pub cached' : ℕ → List Ptr
  pub ready : Ready h' free' out' cached'
  pub was_free : Lent out cached b → ⊥
  pub lent : Lent out' cached' b
  pub listed : Within lent.0.0 (h'.central.span_lists i)
  pub not_null : b ≢ null
  pub still : (a : Ptr) → Lent out cached a → Lent out' cached' a
  pub no_more : (a : Ptr) → Lent out' cached' a → (a ≡ b) ⊎ Lent out cached a

-- A block is in one list only.
pub one_cache :
    {h : ThreadCache} {free out cached : ℕ → List Ptr}
    → Ready h free out cached
    → (i j : ℕ) (b : Ptr) → Within b (cached i)
    → Within b (cached j)
    → i ≡ j
one_cache {h} r i j b w v =
    let (s, o, here) = r.own i b w in
    let (t, o', there) = r.own j b v in
    let same : s ≡ t =
      on_one_span h.central.pages.id_span_map s t b b ((r.balanced.accounts i s here).out_on b o)
        ((r.balanced.accounts j t there).out_on b o') refl in
    r.balanced.one_list i j t (subst (λ u. Within u (h.central.span_lists i)) same here) there

-- No block that is out is free.
pub out_not_free :
    {c : CentralCache} {free out : ℕ → List Ptr}
    → Balanced c free out
    → (j t u : ℕ) (b : Ptr) → Within t (c.span_lists j)
    → Within b (free t)
    → Within b (out u)
    → ⊥
out_not_free {c} {free} {out} bal j t u b there f o =
    let (k, here) = bal.listed u b o in
    let a = bal.accounts j t there in
    let same : u ≡ t =
      on_one_span c.pages.id_span_map u t b b ((bal.accounts k u here).out_on b o) (a.free_on b f)
        refl in
    a.apart b f (subst (λ v. Within b (out v)) same o)

-- The accounts depend on the links of free blocks only.
pub Balanced-links :
    {c : CentralCache} {free out : ℕ → List Ptr} (m : Memory)
    → Balanced c free out
    → ((i t : ℕ) → Within t (c.span_lists i) → (a : Ptr) → Within a (free t) → m a ≡ c.memory a)
    → Balanced (record c { memory = m }) free out
Balanced-links {c} {free} {out} m bal same = record {
  order = bal.order;
  accounts = λ i s w. Account-frame (λ p h. h) (same i s w) (bal.accounts i s w);
  bytes = bal.bytes;
  distinct = bal.distinct;
  one_list = bal.one_list;
  listed = bal.listed;
}

pub Balanced-memory :
    {c : CentralCache} {free out : ℕ → List Ptr} (m : Memory)
    → Balanced c free out
    → ((a : Ptr) → (((t : ℕ) → Within a (out t) → ⊥)) → m a ≡ c.memory a)
    → Balanced (record c { memory = m }) free out
Balanced-memory m bal same =
    Balanced-links m bal (λ i s w b f. same b (λ t o. out_not_free bal i s t b w f o))

-- A free list does not depend on other links.
pub Holds-frame :
    {m m' : Memory} {l : FreeList} {xs : List Ptr}
    → ((b : Ptr) → Within b xs → m' b ≡ m b)
    → Holds m l xs
    → Holds m' l xs
Holds-frame {m} {m'} {l} {xs} same h = record {
  chain = Seg-same m m' l.freelist xs null same h.chain;
  count = h.count;
  small = h.small;
}
