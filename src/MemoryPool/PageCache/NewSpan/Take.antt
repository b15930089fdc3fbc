-- ===== src/MemoryPool/PageCache/NewSpan/Take.antt =====
-- A span of the right size is taken from its list, or a longer one is cut.
use linux_os.Base.{
  ℕ, ◌+◌, ◌-◌, ◌<◌, ◌≡◌, ◌≢◌, inl, inr, refl, sym, subst, ◌∙◌, List, ◌∷◌, none, some, true, false,
  arith,
}
use linux_os.MemoryPool.PageCache.{PageCache, set_ends}
use linux_os.MemoryPool.PageCache.Lists.{
  popped, popped-InList, popped-IsStocked, popped-Apart, lists_update,
}
use linux_os.MemoryPool.PageCache.Release.Absorb.{not_both}
use linux_os.MemoryPool.PageCache.Release.Erase.{Within, Within-NotIn}
use linux_os.MemoryPool.PageCache.Release.Map.{cleared_ends, cleared_ends_other}
use linux_os.MemoryPool.PageCache.Release.Order.{Entry, EntryOf-more, Live, Listed, Covers, InOrder}
use linux_os.MemoryPool.PageCache.NewSpan.Lend.{Room}

-- The pages of the spans in use stay mapped to them, and these spans stay as they are; `s` is none.
abbrev pub KeepsUsed : PageCache → PageCache → ℕ → Type 0
KeepsUsed pc pc' s =
    (p t : ℕ)
    → pc.id_span_map p ≡ some t
    → (pc.spans t).is_used ≡ true
    → (t ≢ s) × (pc'.id_span_map p ≡ some t) × (pc'.spans t ≡ pc.spans t)

module _ (pc : PageCache) (order : InOrder pc) (i s : ℕ) (rest : List ℕ)
    (e : pc.span_lists i ≡ s ∷ rest) where
  abbrev left : PageCache
  left = popped pc order.stocked i s rest e

  pub front_size : (pc.spans s).npage ≡ i
  front_size = (popped-InList pc order.stocked i s rest e).0

  pub front_unused : (pc.spans s).is_used ≡ false
  front_unused = (popped-InList pc order.stocked i s rest e).1

  pub front-Listed : Listed pc s
  front-Listed =
      subst (λ n. Within s (pc.span_lists n)) (sym front_size) (subst (Within s) (sym e) (inl refl))

  pub front_start : 0 < (pc.spans s).page_id
  front_start = order.separate.start s front-Listed

  pub to_left : (t j : ℕ) → t ≢ s → Within t (pc.span_lists j) → Within t (left.span_lists j)
  to_left t j ne =
      lists_update (λ k xs. Within t (pc.span_lists k) → Within t xs) pc.span_lists i rest
        (λ k nk h. h)
        (λ h. elim (subst (Within t) e h) [ inl same ↦ absurd (ne same) | inr later ↦ later ]) j

  pub of_left : (t j : ℕ) → Within t (left.span_lists j) → Within t (pc.span_lists j)
  of_left t j =
      lists_update (λ k xs. Within t xs → Within t (pc.span_lists k)) pc.span_lists i rest
        (λ k nk h. h) (λ h. subst (Within t) (sym e) (inr h)) j

  pub left_away : (t j : ℕ) → Within t (left.span_lists j) → t ≢ s
  left_away t j h =
      Within-NotIn t s (left.span_lists j) h (popped-Apart pc order.stocked i s rest e j)

  -- No page of another span is one of `s`.
  pub front_beside :
      (t q : ℕ) → t ≢ s → Live pc t → Covers (pc.spans t) q → Covers (pc.spans s) q → ⊥
  front_beside t q ne l c c' = ne (order.separate.separate t s q l (inl front-Listed) c c')

  abbrev ended : PageCache
  ended = set_ends left s none

  ended_map : (p t : ℕ) → ended.id_span_map p ≡ some t → pc.id_span_map p ≡ some t
  unfolding set_ends
  ended_map p t h =
      (cleared_ends pc.id_span_map (pc.spans s).page_id
        ((pc.spans s).page_id + (pc.spans s).npage - 1) p t h).2

  ended-Live : (t : ℕ) → Live ended t → (t ≢ s) × Live pc t
  unfolding set_ends
  ended-Live t (inl l) = (left_away t (pc.spans t).npage l, inl (of_left t (pc.spans t).npage l))
  ended-Live t (inr (used, p, h)) = (
    (λ same. not_both (subst (λ v. (pc.spans v).is_used ≡ true) same used) front_unused),
    inr (used, p, ended_map p t h),
  )

  pub ended_other :
      (p t : ℕ)
      → pc.id_span_map p ≡ some t
      → (pc.spans t).is_used ≡ true
      → 0 < i
      → ended.id_span_map p ≡ some t
  unfolding set_ends
  ended_other p t h used pos =
      let ne : t ≢ s =
        λ same. not_both (subst (λ v. (pc.spans v).is_used ≡ true) same used) front_unused in
      let en = order.entries p t h in
      let away : (r : ℕ) → Covers (pc.spans s) r → p ≢ r = λ r cs same.
        front_beside t r ne (inr (used, p, h)) (subst (Covers (pc.spans t)) same (en.from, en.to))
          cs in
      cleared_ends_other pc.id_span_map (pc.spans s).page_id
        ((pc.spans s).page_id + (pc.spans s).npage - 1) p
        (away (pc.spans s).page_id (omega arith, omega (arith, pos, front_size)))
        (away ((pc.spans s).page_id + (pc.spans s).npage - 1)
          (omega (arith, pos, front_size), omega (arith, pos, front_size)))
      ∙ h

  pub ended-Room : 0 < i → Room ended s
  unfolding set_ends
  ended-Room pos =
      let st = popped-IsStocked pc order.stocked i s rest e in
      record {
        stocked = record { sized = st.sized; distinct = st.distinct };
        apart = popped-Apart pc order.stocked i s rest e;
        made = (popped-InList pc order.stocked i s rest e).2;
        start = front_start;
        entries = λ p t h out.
            let en = order.entries p t (ended_map p t h) in
            let ne : t ≢ s = λ same.
              let own : Entry pc p s = subst (Entry pc p) same en in out (own.from, own.to) in
            (ne, EntryOf-more (λ j. to_left t j ne) en);
        separate = record {
          whole = λ p q t h used c.
              ended_other q t (order.separate.whole p q t (ended_map p t h) used c) used pos;
          separate =
              λ t u q lt lu. order.separate.separate t u q (ended-Live t lt).1 (ended-Live u lu).1;
          start = λ t l. order.separate.start t (of_left t (pc.spans t).npage l);
        };
        beside = λ t q l c c'. let (ne, old) = ended-Live t l in front_beside t q ne old c c';
      }

  pub take_exact-KeepsUsed : 0 < i → KeepsUsed pc ended s
  unfolding set_ends
  take_exact-KeepsUsed pos p t h used = (
    (λ same. not_both (subst (λ v. (pc.spans v).is_used ≡ true) same used) front_unused),
    ended_other p t h used pos,
    refl,
  )
