-- ===== src/MemoryPool/PageCache/NewSpan/Grow.antt =====
-- Pages come from the system.
use linux_os.Base.{
  ℕ, suc, ◌+◌, ◌<◌, ◌≤◌, ◌≡◌, ◌≢◌, inl, inr, sym, ap, subst, List, ◌∷◌, some, true, arith, ◌==◌,
  update, Bool-cases,
}
use linux_os.MemoryPool.PageCache.{Span, PageCache, fresh_span, push_span}
use linux_os.MemoryPool.PageCache.Lists.{
  IsStocked, Apart, not_made, change-IsStocked, push_span-IsStocked, lists_update, update_same,
}
use linux_os.MemoryPool.PageCache.Release.Erase.{Within, Within-NotIn}
use linux_os.MemoryPool.PageCache.Release.Order.{
  EntryOf, EntryOf-more, EntryOf-later, Live, Listed, Covers, InOrder, pairwise,
}
use linux_os.MemoryPool.PageCache.NewSpan.Lend.{Room}
use linux_os.MemoryPool.PageCache.NewSpan.Take.{KeepsUsed}

-- What the system gives: `n` pages from `base` on, not from page 0, that are none of the pages in hand.
pub record Fresh (pc : PageCache) (base n : ℕ) : Type 0 where
  pub start : 0 < base
  pub new : (t q : ℕ) → Live pc t → Covers (pc.spans t) q → base ≤ q → q < base + n → ⊥

module _ (pc : PageCache) (order : InOrder pc) (base n : ℕ) (fresh : Fresh pc base n) where
  abbrev k : ℕ
  k = pc.next_span

  abbrev spans' : ℕ → Span
  spans' = update pc.spans k (fresh_span base n)

  abbrev pub made : PageCache
  made = record pc { spans = spans'; next_span = suc k; allocations = suc pc.allocations }

  of_k : spans' k ≡ fresh_span base n
  of_k = update_same pc.spans k _

  of_other : (t : ℕ) → t ≢ k → pc.spans t ≡ spans' t
  unfolding update
  of_other t ne = ground (arith, ne)

  out : Apart pc k
  out i = not_made pc i (pc.span_lists i) (order.stocked.sized i)

  pub made-IsStocked : IsStocked made
  made-IsStocked =
      let st =
        change-IsStocked pc k spans' order.stocked out
          (λ x ne h. sym (of_other x (λ e. ne (sym e)))) in
      record { sized = st.sized; distinct = st.distinct }

  made_entry :
      (p t : ℕ) → pc.id_span_map p ≡ some t → (t ≢ k) × EntryOf (suc k) pc.span_lists (spans' t) p t
  made_entry p t h =
      let en = order.entries p t h in
      let ne : t ≢ k = omega (arith, en.made) in
      (
        ne,
        subst (λ sp. EntryOf (suc k) pc.span_lists sp p t) (of_other t ne)
            (EntryOf-later (omega arith) en),
      )

  listed : (t i : ℕ) → Within t (pc.span_lists i) → t ≢ k
  listed t i l = Within-NotIn t k (pc.span_lists i) l (out i)

  was-Listed : (t : ℕ) → Within t (pc.span_lists (spans' t).npage) → (t ≢ k) × Listed pc t
  was-Listed t l =
      let ne = listed t (spans' t).npage l in
      (ne, subst (λ sp. Within t (pc.span_lists sp.npage)) (sym (of_other t ne)) l)

  was_used :
      (p t : ℕ)
      → pc.id_span_map p ≡ some t
      → (spans' t).is_used ≡ true
      → (t ≢ k) × ((pc.spans t).is_used ≡ true)
  was_used p t h used =
      let ne = (made_entry p t h).0 in
      (ne, subst (λ sp. sp.is_used ≡ true) (sym (of_other t ne)) used)

  was-Live : (t : ℕ) → Live made t → (t ≢ k) × Live pc t
  was-Live t (inl l) = let (ne, old) = was-Listed t l in (ne, inl old)
  was-Live t (inr (used, p, h)) = let (ne, used') = was_used p t h used in (ne, inr (used', p, h))

  old_Covers : (t q : ℕ) → t ≢ k → Covers (spans' t) q → Covers (pc.spans t) q
  old_Covers t q ne c = subst (λ sp. Covers sp q) (sym (of_other t ne)) c

  made_whole :
      (p q t : ℕ)
      → pc.id_span_map p ≡ some t
      → (spans' t).is_used ≡ true
      → Covers (spans' t) q
      → pc.id_span_map q ≡ some t
  made_whole p q t h used c =
      let (ne, used') = was_used p t h used in
      order.separate.whole p q t h used' (old_Covers t q ne c)

  made_beside : (t q : ℕ) → t ≢ k → Live pc t → Covers (pc.spans t) q → Covers (spans' k) q → ⊥
  made_beside t q ne l c ck =
      let own = subst (λ sp. Covers sp q) of_k ck in fresh.new t q l c own.0 own.1

  pub made-Room : Room made k
  made-Room = record {
    stocked = made-IsStocked;
    apart = out;
    made = omega arith;
    start = subst (λ sp. 0 < sp.page_id) (sym of_k) fresh.start;
    entries = λ p t h _. made_entry p t h;
    separate = record {
      whole = made_whole;
      separate = λ t u q lt lu ct cu.
          let (nt, live_t) = was-Live t lt in
          let (nu, live_u) = was-Live u lu in
          order.separate.separate t u q live_t live_u (old_Covers t q nt ct) (old_Covers u q nu cu);
      start = λ t l.
          let (ne, old) = was-Listed t l in
          subst (λ sp. 0 < sp.page_id) (of_other t ne) (order.separate.start t old);
    };
    beside = λ t q l c ck.
        let (ne, live) = was-Live t l in made_beside t q ne live (old_Covers t q ne c) ck;
  }

  pub made-KeepsUsed : KeepsUsed pc made k
  made-KeepsUsed p t h used = let (ne, _) = made_entry p t h in (ne, h, sym (of_other t ne))

  -- NewSpan puts the pages into the list of their number.
  abbrev lists' : ℕ → List ℕ
  lists' = update pc.span_lists n (k ∷ pc.span_lists n)

  to_lists : (t i : ℕ) → Within t (pc.span_lists i) → Within t (lists' i)
  to_lists t =
      lists_update (λ m xs. Within t (pc.span_lists m) → Within t xs) pc.span_lists n
        (k ∷ pc.span_lists n) (λ m nm h. h) (λ h. inr h)

  of_lists : (t i : ℕ) → t ≢ k → Within t (lists' i) → Within t (pc.span_lists i)
  of_lists t i ne =
      lists_update (λ m xs. Within t xs → Within t (pc.span_lists m)) pc.span_lists n
        (k ∷ pc.span_lists n) (λ m nm h. h)
        (λ h. elim h [ inl same ↦ absurd (ne same) | inr later ↦ later ]) i

  pushed-Live : (t : ℕ) → t ≢ k → Live (push_span made n k) t → Live pc t
  unfolding push_span
  pushed-Live t ne (inl l) = (was-Live t (inl (of_lists t (spans' t).npage ne l))).1
  pushed-Live t ne (inr used) = (was-Live t (inr used)).1

  pub pushed-InOrder : InOrder (push_span made n k)
  unfolding push_span
  pushed-InOrder = record {
    stocked =
        push_span-IsStocked made n k made-IsStocked out
          (ap (λ sp. sp.npage) of_k, ap (λ sp. sp.is_used) of_k, omega arith);
    entries = λ p t h. EntryOf-more (to_lists t) (made_entry p t h).1;
    separate = record {
      whole = made_whole;
      separate =
          pairwise spans' spans' (λ t. (t ≢ k) × Live pc t) (Live (push_span made n k)) k (λ q c. c)
            (λ t q ne l c. c) (λ t ne l. (ne, pushed-Live t ne l))
            (λ t u q lt lu ct cu.
              order.separate.separate t u q lt.1 lu.1 (old_Covers t q lt.0 ct)
                (old_Covers u q lu.0 cu))
            (λ t q l c ck. made_beside t q l.0 l.1 (old_Covers t q l.0 c) ck);
      start = λ t l. elim (Bool-cases (t == k)) [
        | inl same ↦
            let eq : k ≡ t = ground (arith, same) in
            subst (λ v. 0 < (spans' v).page_id) eq
              (subst (λ sp. 0 < sp.page_id) (sym of_k) fresh.start)
        | inr other ↦
            let ne : t ≢ k = ground (arith, other) in
            let (_, old) = was-Listed t (of_lists t (spans' t).npage ne l) in
            subst (λ sp. 0 < sp.page_id) (of_other t ne) (order.separate.start t old)
      ];
    };
  }
