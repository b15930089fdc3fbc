-- ===== src/MemoryPool/CentralCache/Add.antt =====
-- A new span in the central cache.
use linux_os.Base.{
  ℕ, zero, suc, ◌+◌, ◌*◌, ◌/◌, ◌<◌, ◌≤◌, ◌≡◌, ◌≢◌, ◌⊎◌, inl, inr, refl, sym, ap, subst, ◌∙◌, List,
  [], ◌∷◌, true, false, arith, NotIn, ◌==◌, update, Bool-cases,
}
use linux_os.MemoryPool.Memory.{Ptr, Memory, Chain}
use linux_os.MemoryPool.Carve.Blocks.{blocks}
use linux_os.MemoryPool.SizeClass.{page_size}
use linux_os.MemoryPool.PageCache.{Span, PageCache, npage_lists, lend}
use linux_os.MemoryPool.PageCache.Lists.{Distinct, lists_update}
use linux_os.MemoryPool.PageCache.NewSpan.{Handed}
use linux_os.MemoryPool.PageCache.Release.Erase.{Within}
use linux_os.MemoryPool.CentralCache.{CentralCache}
use linux_os.MemoryPool.CentralCache.Shape.{set_same, set_other}
use linux_os.MemoryPool.CentralCache.Accounts.{
  OfSize, OnSpan, Account, Balanced, on_one_span, not_within, Account-frame, Account-at,
}
use linux_os.MemoryPool.CentralCache.Take.{at_self, at_other}

Within-blocks : (b p size n : ℕ) → Within b (blocks p size n) → (p ≤ b) × (b + size ≤ p + n * size)
Within-blocks b p size zero h = absurd h
Within-blocks b p size (suc n) (inl e) = (omega (arith, e), omega (arith, e))
Within-blocks b p size (suc n) (inr h) =
    let (lo, hi) = Within-blocks b (p + size) size n h in (omega (arith, lo), omega (arith, hi))

blocks-grid : (b p size n : ℕ) → Within b (blocks p size n) → (k : ℕ) × (b ≡ p + k * size)
blocks-grid b p size zero h = absurd h
blocks-grid b p size (suc n) (inl e) = (0, omega (arith, e))
blocks-grid b p size (suc n) (inr h) =
    let (k, e) = blocks-grid b (p + size) size n h in (suc k, omega (arith, e))

not_listed : (s : ℕ) (xs : List Ptr) → ((b : Ptr) → Within b xs → ⊥) → xs ≡ []
not_listed s [] h = refl
not_listed s (x ∷ xs) h = absurd (h x (inl refl))

-- The page of an address inside a span.
page_inside :
    (page_id npage b size n : ℕ)
    → page_id * 8192 ≤ b
    → b + size ≤ page_id * 8192 + n * size
    → n * size < npage * 8192 + size
    → (page_id ≤ b / 8192) × (b / 8192 < page_id + npage)
page_inside page_id npage b size n lo hi room = (omega (arith, lo), omega (arith, hi, room))

module _ (c : CentralCache) (free out : ℕ → List Ptr) (bal : Balanced c free out) (i size npage : ℕ)
    (pages : PageCache) (s : ℕ) (h : Handed npage c.pages pages s) (pos : 0 < size)
    (given : OfSize i size) (some_page : 0 < npage) (small : npage < npage_lists) where
  abbrev begin : ℕ
  begin = (pages.spans s).page_id * page_size

  -- The span that is handed out is none of those in the lists.
  pub new_span : (j t : ℕ) → Within t (c.span_lists j) → t ≢ s
  new_span j t there =
      let a = bal.accounts j t there in (h.kept (c.pages.spans t).page_id t a.mapped a.used).0

  pub none_out : out s ≡ []
  none_out =
      not_listed s (out s) (λ b w. let (j, there) = bal.listed s b w in new_span j s there refl)

  module _ (n : ℕ) (m : Memory) (chain : Chain m begin (blocks begin size n))
      (room : n * size < npage * page_size + size) where
    abbrev span : Span
    span = record (pages.spans s) {
      free_lists = begin;
      use_count = 0;
      obj_size = size;
      is_used = true;
    }

    abbrev spans' : ℕ → Span
    spans' = update pages.spans s span

    block_on : (b : Ptr) → Within b (blocks begin size n) → OnSpan pages.id_span_map s b
    block_on b w =
        let (lo, hi) = Within-blocks b begin size n w in
        let (from, to) = page_inside (pages.spans s).page_id npage b size n lo hi room in
        h.mapped (b / page_size) from to

    own-Account : Account pages.id_span_map span m (blocks begin size n) [] s
    own-Account = record {
      used = refl;
      small = subst (λ k. k < npage_lists) (sym h.size) small;
      mapped = h.mapped (pages.spans s).page_id (omega arith) (omega (arith, some_page));
      chain = chain;
      count = refl;
      distinct = tt;
      apart = λ b l r. r;
      free_on = block_on;
      out_on = λ b w. absurd w;
      free_grid = λ b w. blocks-grid b begin size n w;
      out_grid = λ b w. absurd w;
    }

    module _ (same : (b : Ptr) → NotIn b (blocks begin size n) → m b ≡ c.memory b) where
      -- What is on another span is not written.
      pub other_same :
          (b : Ptr) (j t : ℕ)
          → Within t (c.span_lists j)
          → OnSpan c.pages.id_span_map t b
          → m b ≡ c.memory b
      other_same b j t there on =
          let a = bal.accounts j t there in
          same b (
            not_within b (blocks begin size n) (λ w. new_span j t there (
              on_one_span pages.id_span_map t s b b (h.kept (b / page_size) t on a.used).1
                (block_on b w) refl)))

      other-Account :
          (j t : ℕ)
          → Within t (c.span_lists j)
          → Account pages.id_span_map (spans' t) m (update free s (blocks begin size n) t) (out t) t
      other-Account j t there =
          let a = bal.accounts j t there in
          let (ne, _, kept) = h.kept (c.pages.spans t).page_id t a.mapped a.used in
          let other : t == s ≡ false = ground (arith, ne) in
          Account-at (sym (set_other pages.spans s span t other ∙ kept))
            (sym (at_other free s (blocks begin size n) t other)) refl
            (Account-frame (λ p e. (h.kept p t e a.used).1)
              (λ b w. other_same b j t there (a.free_on b w)) a)

      abbrev pub added : CentralCache
      added = record {
        pages = lend pages s size 0 begin;
        span_lists = update c.span_lists i (s ∷ c.span_lists i);
        memory = m;
      }

      -- A span of the lists is the new one in list `i`, or was there.
      was_within :
          (j t : ℕ)
          → Within t (added.span_lists j)
          → ((t ≡ s) × (j ≡ i)) ⊎ Within t (c.span_lists j)
      was_within j t w = elim (Bool-cases (j == i)) [
        | inl e ↦
            let eq : j ≡ i = ground (arith, e) in
            let whole : added.span_lists j ≡ s ∷ c.span_lists i =
              ap (λ k. added.span_lists k) eq ∙ at_self c.span_lists i (s ∷ c.span_lists i) in
            elim (subst (Within t) whole w) [
              | inl new ↦ inl (new, eq)
              | inr old ↦ inr (subst (λ k. Within t (c.span_lists k)) (sym eq) old)
            ]
        | inr e ↦ inr (subst (Within t) (at_other c.span_lists i (s ∷ c.span_lists i) j e) w)
      ]

      pub within_added : Within s (added.span_lists i)
      within_added = subst (Within s) (sym (at_self c.span_lists i (s ∷ c.span_lists i))) (inl refl)

      pub still_within : (j t : ℕ) → Within t (c.span_lists j) → Within t (added.span_lists j)
      still_within j t there =
          lists_update (λ k xs. Within t (c.span_lists k) → Within t xs) c.span_lists i
            (s ∷ c.span_lists i) (λ k ne l. l) (λ l. inr l) j there

      pub added-Balanced : Balanced added (update free s (blocks begin size n)) out
      unfolding lend
      added-Balanced = record {
        order = h.ready size 0 begin;
        accounts = λ j t w. elim (was_within j t w) [
          | inr old ↦ other-Account j t old
          | inl (eq, _) ↦
              subst
                (λ u.
                  Account pages.id_span_map (spans' u) m (update free s (blocks begin size n) u)
                    (out u) u)
                (sym eq)
                (Account-at (sym (set_same pages.spans s span))
                  (sym (at_self free s (blocks begin size n))) (sym none_out) own-Account)
        ];
        bytes = λ j t w. elim (was_within j t w) [
          | inr old ↦
              let a = bal.accounts j t old in
              let (ne, _, kept) = h.kept (c.pages.spans t).page_id t a.mapped a.used in
              subst (λ (sp : Span). OfSize j sp.obj_size)
                (sym (set_other pages.spans s span t (ground (arith, ne)) ∙ kept))
                (bal.bytes j t old)
          | inl (eq, at_i) ↦
              subst (λ u. OfSize j (spans' u).obj_size) (sym eq)
                (subst (λ (sp : Span). OfSize j sp.obj_size) (sym (set_same pages.spans s span))
                  (subst (λ k. OfSize k size) (sym at_i) given))
        ];
        distinct =
            lists_update (λ j xs. Distinct xs) c.span_lists i (s ∷ c.span_lists i)
              (λ j ne. bal.distinct j)
              (not_within s (c.span_lists i) (λ w. new_span i s w refl), bal.distinct i);
        one_list = λ j k t w v. elim (was_within j t w) [
          | inl (eq, at_i) ↦ elim (was_within k t v) [
            | inl (_, also) ↦ at_i ∙ sym also
            | inr old ↦ absurd (new_span k t old eq)
          ]
          | inr old ↦ elim (was_within k t v) [
            | inl (eq, _) ↦ absurd (new_span j t old eq)
            | inr also ↦ bal.one_list j k t old also
          ]
        ];
        listed = λ t b w. let (j, there) = bal.listed t b w in (j, still_within j t there);
      }
