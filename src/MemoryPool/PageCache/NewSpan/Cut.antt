-- ===== src/MemoryPool/PageCache/NewSpan/Cut.antt =====
-- The front of a list of longer spans is cut: its first pages go to a new span.
use linux_os.Base.{
  ℕ, suc, ◌+◌, ◌-◌, ◌<◌, ◌≤◌, ◌≡◌, ◌≢◌, ◌⊎◌, inl, inr, refl, sym, ap, subst, ◌∙◌, List, ◌∷◌, some,
  true, false, arith, ◌==◌, update, Bool-cases,
}
use linux_os.MemoryPool.PageCache.{Span, PageCache, fresh_span, set_ends, push_span}
use linux_os.MemoryPool.PageCache.Lists.{
  IsStocked, not_made, popped, popped-InList, popped-IsStocked, popped-Apart, change-IsStocked,
  push_span-IsStocked, push_span-Apart, lists_update, update_same,
}
use linux_os.MemoryPool.PageCache.Release.Absorb.{not_both}
use linux_os.MemoryPool.PageCache.Release.Erase.{Within, Within-NotIn}
use linux_os.MemoryPool.PageCache.Release.Map.{set_ends_cases, set_ends_other}
use linux_os.MemoryPool.PageCache.Release.Order.{
  Entry, EntryOf, EntryOf-more, EntryOf-later, Separate, Live, Listed, Covers, InOrder, pairwise,
}
use linux_os.MemoryPool.PageCache.NewSpan.Lend.{Room}
use linux_os.MemoryPool.PageCache.NewSpan.Take.{
  KeepsUsed, front_size, front_unused, front_start, front_beside, to_left, of_left,
}

module _ (pc : PageCache) (order : InOrder pc) (npage i s : ℕ) (rest : List ℕ)
    (e : pc.span_lists i ≡ s ∷ rest) (pos : 0 < npage) (longer : npage < i) where
  abbrev k : ℕ
  k = pc.next_span

  abbrev with_k : ℕ → Span
  with_k = update pc.spans k (fresh_span (pc.spans s).page_id npage)

  abbrev cut_spans : ℕ → Span
  cut_spans =
      update with_k s (record (with_k s) {
        page_id = (with_k s).page_id + npage;
        npage = (with_k s).npage - npage;
      })

  s_made : s < k
  s_made = (popped-InList pc order.stocked i s rest e).2

  with_k_other : (t : ℕ) → t ≢ k → with_k t ≡ pc.spans t
  unfolding update
  with_k_other t ne = ground (arith, ne)

  of_s : cut_spans s ≡ record (pc.spans s) {
    page_id = (pc.spans s).page_id + npage;
    npage = (pc.spans s).npage - npage;
  }
  of_s =
      update_same with_k s _
      ∙ ap (λ (t : Span). record t { page_id = t.page_id + npage; npage = t.npage - npage })
          (with_k_other s (omega (arith, s_made)))

  cut_other : (t : ℕ) → t ≢ s → cut_spans t ≡ with_k t
  unfolding update
  cut_other t ne = ground (arith, ne)

  pub of_k : cut_spans k ≡ fresh_span (pc.spans s).page_id npage
  of_k = cut_other k (omega (arith, s_made)) ∙ update_same pc.spans k _

  of_other : (t : ℕ) → t ≢ s → t ≢ k → pc.spans t ≡ cut_spans t
  of_other t ns nk = sym (cut_other t ns ∙ with_k_other t nk)

  abbrev cut : PageCache
  cut = record (popped pc order.stocked i s rest e) { spans = cut_spans; next_span = suc k }

  abbrev j : ℕ
  j = (cut_spans s).npage

  abbrev pub shelved : PageCache
  shelved = set_ends (push_span cut j s) s (some s)

  abbrev lists' : ℕ → List ℕ
  lists' = update cut.span_lists j (s ∷ cut.span_lists j)

  cut-IsStocked : IsStocked cut
  cut-IsStocked =
      change-IsStocked (popped pc order.stocked i s rest e) s cut_spans
        (popped-IsStocked pc order.stocked i s rest e) (popped-Apart pc order.stocked i s rest e)
        (λ x ne h. sym (of_other x (λ same. ne (sym same)) (omega (arith, h))))

  pub s_unused : (cut_spans s).is_used ≡ false
  s_unused = ap (λ t. t.is_used) of_s ∙ front_unused pc order i s rest e

  own_list : lists' j ≡ s ∷ cut.span_lists j
  unfolding update
  own_list = ground arith

  s-Listed : Within s (lists' j)
  s-Listed = subst (Within s) (sym own_list) (inl refl)

  to_lists : (t n : ℕ) → t ≢ s → Within t (pc.span_lists n) → Within t (lists' n)
  to_lists t n ne h =
      lists_update (λ m xs. Within t (cut.span_lists m) → Within t xs) cut.span_lists j
        (s ∷ cut.span_lists j) (λ m nm h. h) (λ h. inr h) n (to_left pc order i s rest e t n ne h)

  of_lists : (t n : ℕ) → t ≢ s → Within t (lists' n) → Within t (pc.span_lists n)
  of_lists t n ne h = of_left pc order i s rest e t n (
      lists_update (λ m xs. Within t xs → Within t (cut.span_lists m)) cut.span_lists j
        (s ∷ cut.span_lists j) (λ m nm h. h)
        (λ h. elim h [ inl same ↦ absurd (ne same) | inr later ↦ later ]) n h)

  some_page : 0 < (cut_spans s).npage
  some_page =
      subst (λ sp. 0 < sp.npage) (sym of_s) (omega (arith, longer, front_size pc order i s rest e))

  start : 0 < (cut_spans s).page_id
  start = subst (λ sp. 0 < sp.page_id) (sym of_s) (omega (arith, pos))

  own_Covers :
      (q : ℕ) → Covers (cut_spans s) q → Covers (pc.spans s) q × ((pc.spans s).page_id + npage ≤ q)
  own_Covers q c = within (subst (λ sp. Covers sp q) of_s c)
    where
      within :
          Covers
            (record (pc.spans s) {
              page_id = (pc.spans s).page_id + npage;
              npage = (pc.spans s).npage - npage;
            })
            q
          → Covers (pc.spans s) q × ((pc.spans s).page_id + npage ≤ q)
      within (from, to) =
          ((omega (arith, from), omega (arith, to, longer, front_size pc order i s rest e)), from)

  k-Covers :
      (q : ℕ) → Covers (cut_spans k) q → Covers (pc.spans s) q × (q < (pc.spans s).page_id + npage)
  k-Covers q c = within (subst (λ sp. Covers sp q) of_k c)
    where
      within :
          Covers (fresh_span (pc.spans s).page_id npage) q
          → Covers (pc.spans s) q × (q < (pc.spans s).page_id + npage)
      within (from, to) = ((from, omega (arith, to, longer, front_size pc order i s rest e)), to)

  own_entry :
      (p : ℕ)
      → (p ≡ (cut_spans s).page_id) ⊎ (p ≡ (cut_spans s).page_id + (cut_spans s).npage - 1)
      → EntryOf (suc k) lists' (cut_spans s) p s
  own_entry p ends = record {
    made = omega (arith, s_made);
    start = start;
    from = elim ends [ inl h ↦ omega (arith, h) | inr h ↦ omega (arith, h, some_page) ];
    to = elim ends [ inl h ↦ omega (arith, h, some_page) | inr h ↦ omega (arith, h, some_page) ];
    held = inr (s-Listed, ends);
  }

  map_cases :
      (p t : ℕ)
      → shelved.id_span_map p ≡ some t
      → ((s ≡ t)
          × ((p ≡ (cut_spans s).page_id) ⊎ (p ≡ (cut_spans s).page_id + (cut_spans s).npage - 1)))
        ⊎ (pc.id_span_map p ≡ some t)
  unfolding set_ends push_span
  map_cases p t h =
      set_ends_cases pc.id_span_map (cut_spans s).page_id
        ((cut_spans s).page_id + (cut_spans s).npage - 1) s p t h

  -- What was mapped to `s` at a page that the new span does not get is its last page.
  old_last :
      (p : ℕ)
      → Entry pc p s
      → (Covers (cut_spans k) p → ⊥)
      → p ≡ (cut_spans s).page_id + (cut_spans s).npage - 1
  old_last p en out = elim en.held [
    | inl used ↦ absurd (not_both used (front_unused pc order i s rest e))
    | inr (_, inl first) ↦ absurd (
        out
          (subst (λ sp. Covers sp p) (sym of_k) (omega (arith, first), omega (arith, first, pos))))
    | inr (_, inr last) ↦
        subst (λ sp. p ≡ sp.page_id + sp.npage - 1) (sym of_s)
          (omega (arith, last, longer, front_size pc order i s rest e))
  ]

  shelved_entry :
      (p t : ℕ)
      → shelved.id_span_map p ≡ some t
      → (Covers (cut_spans k) p → ⊥)
      → (t ≢ k) × EntryOf (suc k) lists' (cut_spans t) p t
  shelved_entry p t h out = elim (map_cases p t h) [
    | inl (same, ends) ↦ at_s same (own_entry p ends)
    | inr old ↦
        let en = order.entries p t old in
        elim (Bool-cases (t == s)) [
          | inl same ↦
              let eq : s ≡ t = ground (arith, same) in
              at_s eq (own_entry p (inr (old_last p (subst (Entry pc p) (sym eq) en) out)))
          | inr other ↦
              let ns : t ≢ s = ground (arith, other) in
              let nk : t ≢ k = omega (arith, en.made) in
              (
                nk,
                subst (λ sp. EntryOf (suc k) lists' sp p t) (of_other t ns nk)
                    (EntryOf-later (omega arith) (EntryOf-more (λ n. to_lists t n ns) en)),
              )
        ]
  ]
    where
      at_s :
          {u : ℕ}
          → s ≡ u
          → EntryOf (suc k) lists' (cut_spans s) p s
          → (u ≢ k) × EntryOf (suc k) lists' (cut_spans u) p u
      at_s same en =
          subst (λ v. (v ≢ k) × EntryOf (suc k) lists' (cut_spans v) p v) same
            ((λ h. omega (arith, h, s_made)), en)

  was-Listed : (u : ℕ) → u ≢ s → Within u (lists' (cut_spans u).npage) → (u ≢ k) × Listed pc u
  was-Listed u ns l =
      let old = of_lists u (cut_spans u).npage ns l in
      let nk : u ≢ k = Within-NotIn u k (pc.span_lists (cut_spans u).npage) old (
        not_made pc (cut_spans u).npage (pc.span_lists (cut_spans u).npage)
          (order.stocked.sized (cut_spans u).npage)) in
      (nk, subst (λ sp. Within u (pc.span_lists sp.npage)) (sym (of_other u ns nk)) old)

  was_used :
      (p u : ℕ)
      → shelved.id_span_map p ≡ some u
      → (cut_spans u).is_used ≡ true
      → (u ≢ s) × (u ≢ k) × (pc.id_span_map p ≡ some u) × ((pc.spans u).is_used ≡ true)
  was_used p u h used = elim (map_cases p u h) [
    | inl (same, _) ↦ absurd (ns (sym same))
    | inr old ↦
        let nk : u ≢ k = omega (arith, (order.entries p u old).made) in
        (ns, nk, old, subst (λ sp. sp.is_used ≡ true) (sym (of_other u ns nk)) used)
  ]
    where
      ns : u ≢ s
      ns same = not_both (subst (λ v. (cut_spans v).is_used ≡ true) same used) s_unused

  was-Live : (u : ℕ) → u ≢ s → Live shelved u → (u ≢ k) × Live pc u
  unfolding set_ends push_span
  was-Live u ns (inl l) = let (nk, old) = was-Listed u ns l in (nk, inl old)
  was-Live u ns (inr (used, p, h)) =
      let (_, nk, old, used') = was_used p u h used in (nk, inr (used', p, old))

  old_Covers : (u q : ℕ) → u ≢ s → u ≢ k → Covers (cut_spans u) q → Covers (pc.spans u) q
  old_Covers u q ns nk c = subst (λ sp. Covers sp q) (sym (of_other u ns nk)) c

  -- A page of a span in use keeps its entry.
  used_map :
      (q u : ℕ)
      → u ≢ s
      → Live pc u
      → Covers (pc.spans u) q
      → shelved.id_span_map q ≡ pc.id_span_map q
  unfolding set_ends push_span
  used_map q u ns live own =
      let away : (r : ℕ) → Covers (cut_spans s) r → q ≢ r = λ r cs same.
        front_beside pc order i s rest e u r ns live (subst (Covers (pc.spans u)) same own)
          (own_Covers r cs).0 in
      set_ends_other pc.id_span_map (cut_spans s).page_id
        ((cut_spans s).page_id + (cut_spans s).npage - 1) s q
        (away (cut_spans s).page_id (omega arith, omega (arith, some_page)))
        (away ((cut_spans s).page_id + (cut_spans s).npage - 1)
          (omega (arith, some_page), omega (arith, some_page)))

  shelved-Separate : Separate shelved
  unfolding set_ends push_span
  shelved-Separate = record {
    whole = λ p q u h used c.
        let (ns, nk, old, used') = was_used p u h used in
        let own = old_Covers u q ns nk c in
        used_map q u ns (inr (used', p, old)) own ∙ order.separate.whole p q u old used' own;
    separate =
        pairwise pc.spans cut_spans (λ u. (u ≢ s) × Live pc u) (Live shelved) s
          (λ q c. (own_Covers q c).0) (λ u q ns l. old_Covers u q ns (was-Live u ns l).0)
          (λ u ns l. (ns, (was-Live u ns l).1))
          (λ u v q lu lv. order.separate.separate u v q lu.1 lv.1)
          (λ u q l. front_beside pc order i s rest e u q l.0 l.1);
    start = λ u l. elim (Bool-cases (u == s)) [
      | inl same ↦
          let eq : s ≡ u = ground (arith, same) in subst (λ v. 0 < (cut_spans v).page_id) eq start
      | inr other ↦
          let ns : u ≢ s = ground (arith, other) in
          let (nk, old) = was-Listed u ns l in
          subst (λ sp. 0 < sp.page_id) (of_other u ns nk) (order.separate.start u old)
    ];
  }

  pub shelved-Room : Room shelved k
  unfolding set_ends push_span
  shelved-Room =
      let st =
        push_span-IsStocked cut j s cut-IsStocked (popped-Apart pc order.stocked i s rest e)
          (refl, s_unused, omega (arith, s_made)) in
      record {
        stocked = record { sized = st.sized; distinct = st.distinct };
        apart =
            push_span-Apart cut j s k
              (λ n.
                not_made (popped pc order.stocked i s rest e) n (cut.span_lists n)
                  ((popped-IsStocked pc order.stocked i s rest e).sized n))
              (λ h. omega (arith, h, s_made));
        made = omega arith;
        start = subst (λ sp. 0 < sp.page_id) (sym of_k) (front_start pc order i s rest e);
        entries = shelved_entry;
        separate = shelved-Separate;
        beside = λ t q l c ck. elim (Bool-cases (t == s)) [
          | inl same ↦
              let eq : t ≡ s = ground (arith, same) in
              let (_, from) = own_Covers q (subst (λ v. Covers (cut_spans v) q) eq c) in
              omega (arith, from, (k-Covers q ck).1)
          | inr other ↦
              let ns : t ≢ s = ground (arith, other) in
              let (nk, old) = was-Live t ns l in
              front_beside pc order i s rest e t q ns old (old_Covers t q ns nk c) (k-Covers q ck).0
        ];
      }

  pub shelved-KeepsUsed : KeepsUsed pc shelved k
  unfolding set_ends push_span
  shelved-KeepsUsed p t h used =
      let en = order.entries p t h in
      let ns : t ≢ s = λ same.
        not_both (subst (λ v. (pc.spans v).is_used ≡ true) same used)
          (front_unused pc order i s rest e) in
      let nk : t ≢ k = omega (arith, en.made) in
      (nk, used_map p t ns (inr (used, p, h)) (en.from, en.to) ∙ h, sym (of_other t ns nk))
