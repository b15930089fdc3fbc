-- ===== src/MemoryPool/CentralCache/Put.antt =====
-- A block comes back to its span.
use linux_os.Base.{
  ℕ, ◌<◌, ◌≡◌, ◌≢◌, ◌⊎◌, inl, inr, refl, sym, ap, subst, ◌∙◌, List, [], ◌∷◌, Option, none, some,
  true, false, arith, length, NotIn, ◌==◌, update, Bool-cases,
}
use linux_os.MemoryPool.Memory.{
  Ptr, null, Memory, Chain, set_next, Seg-set_next, set_next-SameOutside,
}
use linux_os.MemoryPool.PageCache.{Span, PageCache, npage_lists}
use linux_os.MemoryPool.PageCache.Lists.{Distinct, lists_update}
use linux_os.MemoryPool.PageCache.Release.{release_span}
use linux_os.MemoryPool.PageCache.Release.Erase.{Within, Within-NotIn, Erased}
use linux_os.MemoryPool.PageCache.Release.Order.{Returned}
use linux_os.MemoryPool.PageCache.Release.Returned.{release_span-Returned}
use linux_os.MemoryPool.CentralCache.{CentralCache, set_blocks, one_less}
use linux_os.MemoryPool.CentralCache.Shape.{
  set_blocks_size, set_blocks_self, set_blocks_other, set_blocks-SameShape, set_blocks-InOrder,
}
use linux_os.MemoryPool.CentralCache.Accounts.{
  OnGrid, OfSize, OnSpan, Account, Balanced, on_one_span, not_within, NotIn-Within, Account-frame,
  Account-at,
}
use linux_os.MemoryPool.CentralCache.Take.{at_self, at_other}

-- The span is in no list of the central cache, and in no use.
abbrev pub GivenBack : CentralCache → ℕ → Type 0
GivenBack c s = ((j : ℕ) → Within s (c.span_lists j) → ⊥) × ((c.pages.spans s).is_used ≡ false)

-- What the central cache promises of a block `b` of span `s` that comes back: it is not out any more,
-- the accounts are balanced, only its own link is written, and only its span may leave the lists: it
-- is given back exactly when none of its blocks is out; no span enters a list.
pub record BlockBack (c : CentralCache) (out : ℕ → List Ptr) (s : ℕ) (b : Ptr) (c' : CentralCache)
    : Type 1 where
  pub left : List Ptr
  pub free' : ℕ → List Ptr
  pub erased : Erased b (out s) left
  pub balanced : Balanced c' free' (update out s left)
  pub same : (a : Ptr) → a ≢ b → c'.memory a ≡ c.memory a
  pub kept :
      (j t : ℕ) → Within t (c.span_lists j) → Within t (c'.span_lists j) ⊎ ((t ≡ s) × (left ≡ []))
  pub within : (j t : ℕ) → Within t (c'.span_lists j) → Within t (c.span_lists j)
  pub given : left ≡ [] → GivenBack c' s
  pub unused : (t : ℕ) → (c.pages.spans t).is_used ≡ false → (c'.pages.spans t).is_used ≡ false

set_next_self : (m : Memory) (a next : Ptr) → set_next m a next a ≡ next
unfolding set_next
set_next_self m a next = ground arith

module _ (c : CentralCache) (free out : ℕ → List Ptr) (bal : Balanced c free out) (i s : ℕ)
    (here : Within s (c.span_lists i)) (b : Ptr) (not_null : b ≢ null) (is_out : Within b (out s))
    (left : List Ptr) (er : Erased b (out s) left) where
  acc : Account c.pages.id_span_map (c.pages.spans s) c.memory (free s) (out s) s
  acc = bal.accounts i s here

  abbrev pub span : Span
  span = c.pages.spans s

  abbrev pub after : Memory
  after = set_next c.memory b span.free_lists

  abbrev pub pages' : PageCache
  pages' = set_blocks c.pages s b (one_less span.use_count)

  abbrev free' : ℕ → List Ptr
  free' = update free s (b ∷ free s)

  abbrev out' : ℕ → List Ptr
  out' = update out s left

  pub back_same : (a : Ptr) → a ≢ b → after a ≡ c.memory a
  back_same a ne = set_next-SameOutside c.memory b span.free_lists a (ne, tt)

  not_free : NotIn b (free s)
  not_free = not_within b (free s) (λ w. acc.apart b w is_out)

  pub one_fewer : one_less span.use_count ≡ length left
  one_fewer = ap one_less (acc.count ∙ er.fewer)

  own-Account :
      Account c.pages.id_span_map
        (record span { free_lists = b; use_count = one_less span.use_count })
        after
        (b ∷ free s)
        left
        s
  own-Account = record {
    used = acc.used;
    small = acc.small;
    mapped = acc.mapped;
    chain = (
      refl,
      not_null,
      not_free,
      subst (λ p. Chain after p (free s)) (sym (set_next_self c.memory b span.free_lists))
          (Seg-set_next c.memory span.free_lists (free s) null b span.free_lists not_free
            acc.chain),
    );
    count = one_fewer;
    distinct = (er.distinct acc.distinct).0;
    apart = λ a w o. elim w [
      | inl e ↦ NotIn-Within b a left (er.distinct acc.distinct).1 o (sym e)
      | inr f ↦ acc.apart a f (er.held a o)
    ];
    free_on = λ a w. elim w [
      | inl e ↦ subst (OnSpan c.pages.id_span_map s) (sym e) (acc.out_on b is_out)
      | inr f ↦ acc.free_on a f
    ];
    out_on = λ a o. acc.out_on a (er.held a o);
    free_grid = λ a w. elim w [
      | inl e ↦ subst (OnGrid span) (sym e) (acc.out_grid b is_out)
      | inr f ↦ acc.free_grid a f
    ];
    out_grid = λ a o. acc.out_grid a (er.held a o);
  }

  -- The other spans keep their accounts, on any page cache that keeps their pages.
  pub other-Account :
      (map' : ℕ → Option ℕ) (spans' : ℕ → Span) (j t : ℕ)
      → Within t (c.span_lists j)
      → t == s ≡ false
      → ((p : ℕ) → c.pages.id_span_map p ≡ some t → map' p ≡ some t)
      → spans' t ≡ c.pages.spans t
      → Account map' (spans' t) after (free' t) (out' t) t
  other-Account map' spans' j t there other keeps same =
      let a = bal.accounts j t there in
      Account-at (sym same) (sym (at_other free s (b ∷ free s) t other))
        (sym (at_other out s left t other))
        (Account-frame keeps
          (λ x w. back_same x (λ eq.
            let st : t ≡ s =
              on_one_span c.pages.id_span_map t s x b (a.free_on x w) (acc.out_on b is_out) eq in
            ground (arith, st, other)))
          a)

  acc-Account :
      (j t : ℕ)
      → Within t (c.span_lists j)
      → Account pages'.id_span_map (pages'.spans t) after (free' t) (out' t) t
  unfolding set_blocks
  acc-Account j t there = elim (Bool-cases (t == s)) [
    | inl same ↦
        let eq : s ≡ t = ground (arith, same) in
        subst (λ u. Account c.pages.id_span_map (pages'.spans u) after (free' u) (out' u) u) eq
          (Account-at (sym (set_blocks_self c.pages s b (one_less span.use_count)))
            (sym (at_self free s (b ∷ free s))) (sym (at_self out s left)) own-Account)
    | inr other ↦
        other-Account c.pages.id_span_map pages'.spans j t there other (λ p h. h)
          (set_blocks_other c.pages s b (one_less span.use_count) t other)
  ]

  abbrev pub put : CentralCache
  put = record c { pages = pages'; memory = after }

  -- The span stays in its list, since another of its blocks is out.
  pub put-BlockBack : left ≢ [] → BlockBack c out s b put
  unfolding set_blocks
  put-BlockBack some_left = record {
    left = left;
    free' = free';
    erased = er;
    balanced = record {
      order = set_blocks-InOrder c.pages s b (one_less span.use_count) bal.order;
      accounts = acc-Account;
      bytes = λ j t w.
          subst (OfSize j) (set_blocks_size c.pages s b (one_less span.use_count) t)
            (bal.bytes j t w);
      distinct = bal.distinct;
      one_list = bal.one_list;
      listed = λ t a w. elim (Bool-cases (t == s)) [
        | inl same ↦
            let eq : s ≡ t = ground (arith, same) in
            (i, subst (λ u. Within u (c.span_lists i)) eq here)
        | inr other ↦ bal.listed t a (subst (Within a) (at_other out s left t other) w)
      ];
    };
    same = back_same;
    kept = λ j t w. inl w;
    within = λ j t w. w;
    given = λ e. absurd (some_left e);
    unused = λ t e. sym (set_blocks-SameShape c.pages s b (one_less span.use_count) t).2 ∙ e;
  }

  -- It is given back to the page cache.
  abbrev pub last_pages : PageCache
  last_pages = set_blocks pages' s null (pages'.spans s).use_count

  last_same : (t : ℕ) → t == s ≡ false → last_pages.spans t ≡ c.pages.spans t
  last_same t other =
      set_blocks_other pages' s null (pages'.spans s).use_count t other
      ∙ set_blocks_other c.pages s b (one_less span.use_count) t other

  pub returned :
      (pc' : PageCache) × (release_span npage_lists last_pages s ≡ some (pc', none))
      × Returned last_pages pc' s
  unfolding set_blocks
  returned =
      let shape = set_blocks-SameShape c.pages s b (one_less span.use_count) s in
      let shape' = set_blocks-SameShape pages' s null (pages'.spans s).use_count s in
      release_span-Returned last_pages s span.page_id
        (set_blocks-InOrder pages' s null (pages'.spans s).use_count
          (set_blocks-InOrder c.pages s b (one_less span.use_count) bal.order))
        acc.mapped (sym (shape.2 ∙ shape'.2) ∙ acc.used)
        (subst (λ k. k < npage_lists) (shape.1 ∙ shape'.1) acc.small)

  module _ (none_out : left ≡ []) (rest : List ℕ) (er' : Erased s (c.span_lists i) rest) where
    abbrev pub lists' : ℕ → List ℕ
    lists' = update c.span_lists i rest

    abbrev pub gone : CentralCache
    gone = record { pages = returned.0; span_lists = lists'; memory = after }

    was_within : (j t : ℕ) → Within t (lists' j) → Within t (c.span_lists j)
    was_within j t =
        lists_update (λ k xs. Within t xs → Within t (c.span_lists k)) c.span_lists i rest
          (λ k ne w. w) (er'.held t) j

    still_within : (j t : ℕ) → t ≢ s → Within t (c.span_lists j) → Within t (lists' j)
    still_within j t ne =
        lists_update (λ k xs. Within t (c.span_lists k) → Within t xs) c.span_lists i rest
          (λ k nk w. w) (er'.others t ne) j

    not_s : (j t : ℕ) → Within t (lists' j) → t == s ≡ false
    not_s j t w = elim (Bool-cases (t == s)) [
      | inr other ↦ other
      | inl same ↦
          let eq : t ≡ s = ground (arith, same) in
          absurd (nowhere j (subst (λ u. Within u (lists' j)) eq w))
    ]
      where
        nowhere : (j : ℕ) → Within s (lists' j) → ⊥
        nowhere j w =
            lists_update (λ k xs. k ≡ i → Within s xs → ⊥) c.span_lists i rest
              (λ k ne e. absurd (ne e))
              (λ e v. Within-NotIn s s rest v (er'.distinct (bal.distinct i)).1 refl) j
              (bal.one_list j i s (was_within j s w) here) w

    -- The other spans are as they were.
    gone_same : (j t : ℕ) → Within t (lists' j) → gone.pages.spans t ≡ c.pages.spans t
    unfolding set_blocks
    gone_same j t w =
        let other = not_s j t w in
        let a = bal.accounts j t (was_within j t w) in
        let used : (last_pages.spans t).is_used ≡ true =
          subst (λ sp. sp.is_used ≡ true) (sym (last_same t other)) a.used in
        (returned.2.kept (c.pages.spans t).page_id t (λ e. ground (arith, e, other)) a.mapped
          used).1
        ∙ last_same t other

    gone-Account :
        (j t : ℕ)
        → Within t (lists' j)
        → Account gone.pages.id_span_map (gone.pages.spans t) after (free' t) (out' t) t
    unfolding set_blocks
    gone-Account j t w =
        let other = not_s j t w in
        let there = was_within j t w in
        let ne : t ≢ s = λ e. ground (arith, e, other) in
        let a = bal.accounts j t there in
        let used : (last_pages.spans t).is_used ≡ true =
          subst (λ sp. sp.is_used ≡ true) (sym (last_same t other)) a.used in
        let keep = λ (p : ℕ) (h : c.pages.id_span_map p ≡ some t). returned.2.kept p t ne h used in
        other-Account gone.pages.id_span_map gone.pages.spans j t there other (λ p h. (keep p h).0)
          (gone_same j t w)

    pub gone-BlockBack : BlockBack c out s b gone
    gone-BlockBack = record {
      left = left;
      free' = free';
      erased = er;
      balanced = record {
        order = returned.2.order;
        accounts = gone-Account;
        bytes = λ j t w.
            subst (λ (sp : Span). OfSize j sp.obj_size) (sym (gone_same j t w))
              (bal.bytes j t (was_within j t w));
        distinct =
            lists_update (λ k xs. Distinct xs) c.span_lists i rest (λ k ne. bal.distinct k)
              (er'.distinct (bal.distinct i)).0;
        one_list = λ j k t w v. bal.one_list j k t (was_within j t w) (was_within k t v);
        listed = λ t a w. elim (Bool-cases (t == s)) [
          | inl same ↦
              let eq : t ≡ s = ground (arith, same) in
              absurd (
                subst (Within a) (at_self out s left ∙ none_out)
                  (subst (λ u. Within a (out' u)) eq w))
          | inr other ↦
              let (j, there) = bal.listed t a (subst (Within a) (at_other out s left t other) w) in
              (j, still_within j t (λ e. ground (arith, e, other)) there)
        ];
      };
      same = back_same;
      kept = λ j t w. elim (Bool-cases (t == s)) [
        | inl same ↦ inr (ground (arith, same), none_out)
        | inr other ↦ inl (still_within j t (λ e. ground (arith, e, other)) w)
      ];
      within = was_within;
      given = λ e.
          (λ j w. let other = not_s j s w in absurd (ground (arith, other)), returned.2.unused);
      unused = λ t e. elim (Bool-cases (t == s)) [
        | inl same ↦
            let eq : s ≡ t = ground (arith, same) in
            subst (λ u. (gone.pages.spans u).is_used ≡ false) eq returned.2.unused
        | inr other ↦
            subst (λ (sp : Span). sp.is_used ≡ false)
              (sym (returned.2.others t (ground (arith, other)) ∙ last_same t other)) e
      ];
    }
