-- ===== src/MemoryPool/CentralCache/Shape.antt =====
-- The order of the page cache does not depend on what the central cache writes into a span.
use linux_os.Base.{
  ℕ, ◌<◌, ◌≡◌, inl, inr, refl, sym, subst, ◌∙◌, List, false, arith, ◌==◌, update, Bool-cases,
}
use linux_os.MemoryPool.Memory.{Ptr}
use linux_os.MemoryPool.PageCache.{Span, PageCache}
use linux_os.MemoryPool.PageCache.Lists.{All-map, InList}
use linux_os.MemoryPool.PageCache.Release.Erase.{Within}
use linux_os.MemoryPool.PageCache.Release.Order.{EntryOf, Live, Covers, InOrder}
use linux_os.MemoryPool.CentralCache.{set_blocks}

-- Two spans with the same pages and the same use.
abbrev pub SameShape : Span → Span → Type 0
SameShape a b = (a.page_id ≡ b.page_id) × (a.npage ≡ b.npage) × (a.is_used ≡ b.is_used)

EntryOf-SameShape :
    {n p t : ℕ} {lists : ℕ → List ℕ} (a b : Span)
    → SameShape a b
    → EntryOf n lists a p t
    → EntryOf n lists b p t
EntryOf-SameShape {p = p} {t = t} {lists = lists} a b (page, size, used) en = record {
  made = en.made;
  start = omega (arith, page, en.start);
  from = omega (arith, page, en.from);
  to = omega (arith, page, size, en.to);
  held = elim en.held [
    | inl in_use ↦ inl (sym used ∙ in_use)
    | inr (here, ends) ↦ inr (
      subst (λ k. Within t (lists k)) size here,
      elim ends [
        | inl first ↦ inl (first ∙ page)
        | inr last ↦ inr (omega (arith, last, page, size))
      ],
    )
  ];
}

module _ (pc : PageCache) (spans' : ℕ → Span)
    (same : (t : ℕ) → SameShape (pc.spans t) (spans' t)) where
  abbrev pc' : PageCache
  pc' = record pc { spans = spans' }

  of_Covers : (t q : ℕ) → Covers (spans' t) q → Covers (pc.spans t) q
  of_Covers t q (from, to) =
      let (page, size, used) = same t in (omega (arith, page, from), omega (arith, page, size, to))

  of-Live : (t : ℕ) → Live pc' t → Live pc t
  of-Live t (inl l) = inl (subst (λ k. Within t (pc.span_lists k)) (sym (same t).1) l)
  of-Live t (inr (used, p, h)) = inr ((same t).2 ∙ used, p, h)

  pub InOrder-SameShape : InOrder pc → InOrder pc'
  InOrder-SameShape order = record {
    stocked = record {
      sized = λ i.
          All-map (InList pc i) (InList pc' i) (pc.span_lists i)
            (λ x (size, unused, made). (sym (same x).1 ∙ size, sym (same x).2 ∙ unused, made))
            (order.stocked.sized i);
      distinct = order.stocked.distinct;
    };
    entries = λ p t h. EntryOf-SameShape (pc.spans t) (spans' t) (same t) (order.entries p t h);
    separate = record {
      whole = λ p q t h used c. order.separate.whole p q t h ((same t).2 ∙ used) (of_Covers t q c);
      separate = λ t u q lt lu ct cu.
          order.separate.separate t u q (of-Live t lt) (of-Live u lu) (of_Covers t q ct)
            (of_Covers u q cu);
      start = λ t l.
          subst (λ k. 0 < k) (same t).0
            (order.separate.start t (subst (λ k. Within t (pc.span_lists k)) (sym (same t).1) l));
    };
  }

pub set_same : (spans : ℕ → Span) (s : ℕ) (v : Span) → update spans s v s ≡ v
unfolding update
set_same spans s v = ground arith

pub set_other :
    (spans : ℕ → Span) (s : ℕ) (v : Span) (t : ℕ) → t == s ≡ false → update spans s v t ≡ spans t
unfolding update
set_other spans s v t ne = rw (ne) refl

module _ (pc : PageCache) (s : ℕ) (free_lists : Ptr) (use_count : ℕ) where
  pub set_blocks_self :
      (set_blocks pc s free_lists use_count).spans s
      ≡ record (pc.spans s) { free_lists = free_lists; use_count = use_count }
  unfolding set_blocks
  set_blocks_self = set_same pc.spans s _

  pub set_blocks_other :
      (t : ℕ) → t == s ≡ false → (set_blocks pc s free_lists use_count).spans t ≡ pc.spans t
  unfolding set_blocks
  set_blocks_other t ne = set_other pc.spans s _ t ne

  pub set_blocks-SameShape :
      (t : ℕ) → SameShape (pc.spans t) ((set_blocks pc s free_lists use_count).spans t)
  set_blocks-SameShape t = elim (Bool-cases (t == s)) [
    | inr ne ↦ subst (SameShape (pc.spans t)) (sym (set_blocks_other t ne)) (refl, refl, refl)
    | inl e ↦
        let same : s ≡ t = ground (arith, e) in
        subst (λ u. SameShape (pc.spans u) ((set_blocks pc s free_lists use_count).spans u)) same
          (subst (SameShape (pc.spans s)) (sym set_blocks_self) (refl, refl, refl))
  ]

  pub set_blocks_size :
      (t : ℕ) → (pc.spans t).obj_size ≡ ((set_blocks pc s free_lists use_count).spans t).obj_size
  set_blocks_size t = elim (Bool-cases (t == s)) [
    | inr ne ↦
        subst (λ (sp : Span). (pc.spans t).obj_size ≡ sp.obj_size) (sym (set_blocks_other t ne))
          refl
    | inl e ↦
        let same : s ≡ t = ground (arith, e) in
        subst
          (λ u. (pc.spans u).obj_size ≡ ((set_blocks pc s free_lists use_count).spans u).obj_size)
          same
          (subst (λ (sp : Span). (pc.spans s).obj_size ≡ sp.obj_size) (sym set_blocks_self) refl)
  ]

  pub set_blocks-InOrder : InOrder pc → InOrder (set_blocks pc s free_lists use_count)
  unfolding set_blocks
  set_blocks-InOrder =
      InOrder-SameShape pc (set_blocks pc s free_lists use_count).spans set_blocks-SameShape
