-- ===== src/MemoryPool/CentralCache/Take.antt =====
-- A batch off a span of the central cache.
use linux_os.Base.{
  ℕ, ◌+◌, ◌<◌, ◌≤◌, ◌≡◌, ◌≢◌, inl, inr, refl, sym, subst, ◌∙◌, List, [], ◌∷◌, ◌++◌, false, arith,
  length, length-append, word_size, ◌==◌, update, Bool-cases,
}
use linux_os.MemoryPool.Memory.{Ptr, null, Memory, Chain}
use linux_os.MemoryPool.Carve.{Taken, take_batch}
use linux_os.MemoryPool.Carve.Batches.{IsBatch, take_batch-IsBatch}
use linux_os.MemoryPool.PageCache.{PageCache}
use linux_os.MemoryPool.PageCache.Lists.{Distinct}
use linux_os.MemoryPool.PageCache.Release.Erase.{Within}
use linux_os.MemoryPool.CentralCache.{CentralCache, set_blocks, take_from}
use linux_os.MemoryPool.CentralCache.Shape.{
  set_blocks_size, set_blocks_self, set_blocks_other, set_blocks-InOrder,
}
use linux_os.MemoryPool.CentralCache.Accounts.{
  OfSize, Account, Balanced, on_one_span, Within-append, Within-left, Within-right, Distinct-append,
  Distinct-apart, Seg-Distinct, Account-frame, Account-at,
}

-- What the central cache promises of a batch: a chain of at least one and at most `n` blocks of a span
-- in list `i` that were not out; they now are, and all else is as it was.
pub record Fetched (c : CentralCache) (out : ℕ → List Ptr) (i n : ℕ) (taken : Taken)
    (c' : CentralCache) : Type 0 where
  pub span : ℕ
  pub blocks : List Ptr
  pub free' : ℕ → List Ptr
  pub listed : Within span (c'.span_lists i)
  pub kept : (j t : ℕ) → Within t (c.span_lists j) → Within t (c'.span_lists j)
  pub chain : Chain c'.memory taken.start blocks
  pub ends : (front : List Ptr) × (blocks ≡ front ++ taken.last ∷ [])
  pub count : length blocks ≡ taken.actual_num
  pub some_block : 0 < taken.actual_num
  pub at_most : taken.actual_num ≤ n
  pub new : (b : Ptr) → Within b blocks → (t : ℕ) → Within b (out t) → ⊥
  pub same : (b : Ptr) (t : ℕ) → Within b (out t) → c'.memory b ≡ c.memory b
  pub balanced : Balanced c' free' (update out span (blocks ++ out span))

pub at_self : (f : ℕ → List Ptr) (s : ℕ) (v : List Ptr) → update f s v s ≡ v
unfolding update
at_self f s v = ground arith

pub at_other :
    (f : ℕ → List Ptr) (s : ℕ) (v : List Ptr) (t : ℕ) → t == s ≡ false → update f s v t ≡ f t
unfolding update
at_other f s v t ne = rw (ne) refl

module _ (c : CentralCache) (free out : ℕ → List Ptr) (bal : Balanced c free out) (i s : ℕ)
    (here : Within s (c.span_lists i)) (n : ℕ) (pos : 0 < n) (small : n < word_size) (x : Ptr)
    (xs : List Ptr) (e : free s ≡ x ∷ xs) where
  acc : Account c.pages.id_span_map (c.pages.spans s) c.memory (free s) (out s) s
  acc = bal.accounts i s here

  batch :
      IsBatch n
        (c.pages.spans s).free_lists
        (x ∷ xs)
        c.memory
        (take_batch (c.pages.spans s).free_lists n c.memory)
  batch =
      take_batch-IsBatch n (c.pages.spans s).free_lists x xs c.memory pos small
        (subst (λ l. Chain c.memory (c.pages.spans s).free_lists l) e acc.chain)

  abbrev taken : Taken
  taken = (take_batch (c.pages.spans s).free_lists n c.memory).0

  abbrev after : Memory
  after = (take_batch (c.pages.spans s).free_lists n c.memory).1

  abbrev blocks : List Ptr
  blocks = batch.taken ++ taken.last ∷ []

  parts : free s ≡ blocks ++ batch.rest
  parts = e ∙ batch.split

  block_free : (b : Ptr) → Within b blocks → Within b (free s)
  block_free b w = subst (Within b) (sym parts) (Within-left b blocks batch.rest w)

  rest_free : (b : Ptr) → Within b batch.rest → Within b (free s)
  rest_free b w = subst (Within b) (sym parts) (Within-right b blocks batch.rest w)

  last_free : Within taken.last (free s)
  last_free =
      block_free taken.last (Within-right taken.last batch.taken (taken.last ∷ []) (inl refl))

  -- Only the last block of the batch is written.
  same_after : (b : Ptr) → b ≢ taken.last → after b ≡ c.memory b
  same_after b ne = batch.same b (ne, tt)

  -- A block that is out is in no free list.
  out_of_free : (b : Ptr) (t : ℕ) → Within b (out t) → Within b (free s) → ⊥
  out_of_free b t w f =
      let (j, there) = bal.listed t b w in
      let on = (bal.accounts j t there).out_on b w in
      let same : t ≡ s = on_one_span c.pages.id_span_map t s b b on (acc.free_on b f) refl in
      acc.apart b f (subst (λ u. Within b (out u)) same w)

  abbrev pages' : PageCache
  pages' = set_blocks c.pages s taken.free_lists ((c.pages.spans s).use_count + taken.actual_num)

  abbrev free' : ℕ → List Ptr
  free' = update free s batch.rest

  abbrev out' : ℕ → List Ptr
  out' = update out s (blocks ++ out s)

  length_blocks : length blocks ≡ taken.actual_num
  length_blocks = omega (arith, length-append batch.taken (taken.last ∷ []), batch.count)

  own-Account :
      Account c.pages.id_span_map
        (record (c.pages.spans s) {
          free_lists = taken.free_lists;
          use_count = (c.pages.spans s).use_count + taken.actual_num;
        })
        after
        batch.rest
        (blocks ++ out s)
        s
  own-Account = record {
    used = acc.used;
    small = acc.small;
    mapped = acc.mapped;
    chain = batch.rest_chain;
    count = omega (arith, acc.count, length_blocks, length-append blocks (out s));
    distinct =
        Distinct-append blocks (out s)
          (Seg-Distinct after (c.pages.spans s).free_lists blocks null batch.batch_chain)
          acc.distinct (λ b w o. acc.apart b (block_free b w) o);
    apart = λ b r w. elim (Within-append b blocks (out s) w) [
      | inl l ↦
          Distinct-apart blocks batch.rest
            (subst Distinct parts
              (Seg-Distinct c.memory (c.pages.spans s).free_lists (free s) null acc.chain))
            b l r
      | inr o ↦ acc.apart b (rest_free b r) o
    ];
    free_on = λ b w. acc.free_on b (rest_free b w);
    out_on = λ b w. elim (Within-append b blocks (out s) w) [
      | inl l ↦ acc.free_on b (block_free b l)
      | inr o ↦ acc.out_on b o
    ];
    free_grid = λ b w. acc.free_grid b (rest_free b w);
    out_grid = λ b w. elim (Within-append b blocks (out s) w) [
      | inl l ↦ acc.free_grid b (block_free b l)
      | inr o ↦ acc.out_grid b o
    ];
  }

  acc-Account :
      (j t : ℕ)
      → Within t (c.span_lists j)
      → Account pages'.id_span_map (pages'.spans t) after (free' t) (out' t) t
  unfolding set_blocks
  acc-Account j t there = elim (Bool-cases (t == s)) [
    | inl same ↦
        let eq : s ≡ t = ground (arith, same) in
        subst (λ u. Account c.pages.id_span_map (pages'.spans u) after (free' u) (out' u) u) eq
          (Account-at
            (sym (
              set_blocks_self c.pages s taken.free_lists
                ((c.pages.spans s).use_count + taken.actual_num)))
            (sym (at_self free s batch.rest)) (sym (at_self out s (blocks ++ out s))) own-Account)
    | inr other ↦
        let a = bal.accounts j t there in
        let kept =
          Account-frame {map' = c.pages.id_span_map} {m' = after} (λ p h. h)
            (λ b w. same_after b (λ eq.
              let st : t ≡ s =
                on_one_span c.pages.id_span_map t s b taken.last (a.free_on b w)
                  (acc.free_on taken.last last_free) eq in
              ground (arith, st, other)))
            a in
        Account-at
          (sym (
            set_blocks_other c.pages s taken.free_lists
              ((c.pages.spans s).use_count + taken.actual_num) t other))
          (sym (at_other free s batch.rest t other))
          (sym (at_other out s (blocks ++ out s) t other)) kept
  ]

  pub take_from-Fetched : Fetched c out i n (take_from c s n).0 (take_from c s n).1
  unfolding take_from
  take_from-Fetched = record {
    span = s;
    blocks = blocks;
    free' = free';
    listed = here;
    kept = λ j t w. w;
    ends = (batch.taken, refl);
    chain = subst (λ p. Chain after p blocks) (sym batch.start) batch.batch_chain;
    count = length_blocks;
    some_block = omega (arith, batch.count);
    at_most = omega (arith, batch.as_many);
    new = λ b w t o. out_of_free b t o (block_free b w);
    same = λ b t o.
        same_after b (λ eq. out_of_free b t o (subst (λ u. Within u (free s)) (sym eq) last_free));
    balanced = record {
      order =
          set_blocks-InOrder c.pages s taken.free_lists
            ((c.pages.spans s).use_count + taken.actual_num) bal.order;
      accounts = acc-Account;
      bytes = λ j t w.
          subst (OfSize j)
            (set_blocks_size c.pages s taken.free_lists
              ((c.pages.spans s).use_count + taken.actual_num) t)
            (bal.bytes j t w);
      distinct = bal.distinct;
      one_list = bal.one_list;
      listed = λ t b w. elim (Bool-cases (t == s)) [
        | inl same ↦
            let eq : s ≡ t = ground (arith, same) in
            (i, subst (λ u. Within u (c.span_lists i)) eq here)
        | inr other ↦ bal.listed t b (subst (Within b) (at_other out s (blocks ++ out s) t other) w)
      ];
    };
  }
