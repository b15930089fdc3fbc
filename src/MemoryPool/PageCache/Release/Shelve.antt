-- ===== src/MemoryPool/PageCache/Release/Shelve.antt =====
-- The end of ReleaseSpanToPageCache: the span goes into its list and its ends into the page map.
use linux_os.Base.{
  ℕ, ◌+◌, ◌-◌, ◌<◌, ◌≤◌, ◌≡◌, ◌≢◌, ◌⊎◌, inl, inr, refl, sym, ap, subst, ◌∙◌, List, ◌∷◌, some, true,
  false, arith, update, Bool-cases, ◌==◌,
}
use linux_os.MemoryPool.PageCache.{Span, PageCache, npage_lists, set_ends, push_span}
use linux_os.MemoryPool.PageCache.Lists.{
  All-without, InList, IsStocked, lists_update, update_same, push_span-IsStocked,
}
use linux_os.MemoryPool.PageCache.Release.{page_before, shelve}
use linux_os.MemoryPool.PageCache.Release.Erase.{Within}
use linux_os.MemoryPool.PageCache.Release.Absorb.{not_both}
use linux_os.MemoryPool.PageCache.Release.Map.{
  set_ends_cases, set_ends_other, set_ends_first, set_ends_last,
}
use linux_os.MemoryPool.PageCache.Release.Pages.{before_first, before_last}
use linux_os.MemoryPool.PageCache.Release.Order.{
  Entry, EntryOf, Merging, Separate, Live, Listed, Covers, EntryOf-more, pairwise, Blocked, Among,
  Returned,
}

module _ (pc : PageCache) (s : ℕ) (m : Merging pc s) where
  abbrev span : Span
  span = record (pc.spans s) { is_used = false }

  abbrev spans' : ℕ → Span
  spans' = update pc.spans s span

  abbrev lists' : ℕ → List ℕ
  lists' = update pc.span_lists (pc.spans s).npage (s ∷ pc.span_lists (pc.spans s).npage)

  self : spans' s ≡ span
  self = update_same pc.spans s span

  other_span : (u : ℕ) → u ≢ s → pc.spans u ≡ spans' u
  unfolding update
  other_span u ne = ground (arith, ne)

  own_list : lists' (pc.spans s).npage ≡ s ∷ pc.span_lists (pc.spans s).npage
  unfolding update
  own_list = ground arith

  listed : Within s (lists' (spans' s).npage)
  listed =
      subst (λ sp. Within s (lists' sp.npage)) (sym self)
        (subst (Within s) (sym own_list) (inl refl))

  longer : (t i : ℕ) → Within t (pc.span_lists i) → Within t (lists' i)
  longer t =
      lists_update (λ i xs. Within t (pc.span_lists i) → Within t xs) pc.span_lists
        (pc.spans s).npage (s ∷ pc.span_lists (pc.spans s).npage) (λ i ne h. h) (λ h. inr h)

  stocked : IsStocked (record pc { spans = spans'; span_lists = lists' })
  unfolding push_span
  stocked =
      let unused : PageCache = record pc { spans = spans' } in
      let st : IsStocked unused = record {
        sized = λ i.
            All-without (InList pc i) (InList unused i) s (pc.span_lists i) (m.apart i)
              (λ x ne h.
                subst (λ sp. (sp.npage ≡ i) × (sp.is_used ≡ false) × (x < pc.next_span))
                  (other_span x (λ e. ne (sym e))) h)
              (m.stocked.sized i);
        distinct = m.stocked.distinct;
      } in
      let pushed =
        push_span-IsStocked unused (pc.spans s).npage s st m.apart
          (ap (λ sp. sp.npage) self, ap (λ sp. sp.is_used) self, m.made) in
      record { sized = pushed.sized; distinct = pushed.distinct }

  some_page : 0 < (spans' s).npage
  some_page = subst (λ sp. 0 < sp.npage) (sym self) m.some_page

  start : 0 < (spans' s).page_id
  start = subst (λ sp. 0 < sp.page_id) (sym self) m.start

  own_entry :
      (p : ℕ)
      → (p ≡ (spans' s).page_id) ⊎ (p ≡ (spans' s).page_id + (spans' s).npage - 1)
      → EntryOf pc.next_span lists' (spans' s) p s
  own_entry p ends = record {
    made = m.made;
    start = start;
    from = elim ends [ inl e ↦ omega (arith, e) | inr e ↦ omega (arith, e, some_page) ];
    to = elim ends [ inl e ↦ omega (arith, e, some_page) | inr e ↦ omega (arith, e, some_page) ];
    held = inr (listed, ends);
  }

  entries' : (p t : ℕ) → (shelve pc s).id_span_map p ≡ some t → Entry (shelve pc s) p t
  unfolding shelve push_span set_ends
  entries' p t h =
      elim (set_ends_cases pc.id_span_map (spans' s).page_id
        ((spans' s).page_id + (spans' s).npage - 1) s p t h) [
          | inl (same, ends) ↦ subst (λ u. Entry (shelve pc s) p u) same (own_entry p ends)
          | inr old ↦
              let (ne, en) = m.entries p t old in
              subst (λ sp. EntryOf pc.next_span lists' sp p t) (other_span t ne)
                (EntryOf-more (longer t) en)
        ]

  own_Covers : (q : ℕ) → Covers (spans' s) q → Covers (pc.spans s) q
  own_Covers q c = subst (λ sp. Covers sp q) self c

  of_other : (u q : ℕ) → u ≢ s → Covers (spans' u) q → Covers (pc.spans u) q
  of_other u q ne c = subst (λ sp. Covers sp q) (sym (other_span u ne)) c

  was-Listed : (u : ℕ) → u ≢ s → Within u (lists' (spans' u).npage) → Listed pc u
  was-Listed u ne l =
      subst (λ sp. Within u (pc.span_lists sp.npage)) (sym (other_span u ne))
        (lists_update (λ i xs. Within u xs → Within u (pc.span_lists i)) pc.span_lists
          (pc.spans s).npage (s ∷ pc.span_lists (pc.spans s).npage) (λ i nk h. h)
          (λ h. elim h [ inl same ↦ absurd (ne same) | inr later ↦ later ]) (spans' u).npage l)

  not_used : (u : ℕ) → (spans' u).is_used ≡ true → u ≢ s
  not_used u used e =
      not_both (subst (λ v. (spans' v).is_used ≡ true) e used) (ap (λ sp. sp.is_used) self)

  was_mapped : (p u : ℕ) → u ≢ s → (shelve pc s).id_span_map p ≡ some u → pc.id_span_map p ≡ some u
  unfolding shelve push_span set_ends
  was_mapped p u ne h =
      elim (set_ends_cases pc.id_span_map (spans' s).page_id
        ((spans' s).page_id + (spans' s).npage - 1) s p u h) [
          | inl (same, ends) ↦ absurd (ne (sym same))
          | inr old ↦ old
        ]

  was-Live : (u : ℕ) → u ≢ s → Live (shelve pc s) u → Live pc u
  unfolding shelve push_span set_ends
  was-Live u ne (inl l) = inl (was-Listed u ne l)
  was-Live u ne (inr (used, p, h)) =
      inr (subst (λ sp. sp.is_used ≡ true) (sym (other_span u ne)) used, p, was_mapped p u ne h)

  -- A page of another live span keeps its entry.
  other_map :
      (q u : ℕ) → Live pc u → Covers (pc.spans u) q → (shelve pc s).id_span_map q ≡ pc.id_span_map q
  unfolding shelve push_span set_ends
  other_map q u live own =
      let away : (r : ℕ) → Covers (spans' s) r → q ≢ r =
        λ r cs e. m.beside u q live own (subst (Covers (pc.spans s)) (sym e) (own_Covers r cs)) in
      set_ends_other pc.id_span_map (spans' s).page_id ((spans' s).page_id + (spans' s).npage - 1) s
        q (away (spans' s).page_id (omega arith, omega (arith, some_page)))
        (away ((spans' s).page_id + (spans' s).npage - 1)
          (omega (arith, some_page), omega (arith, some_page)))

  shelve-Separate : Separate (shelve pc s)
  unfolding shelve push_span set_ends
  shelve-Separate = record {
    whole = λ p q u h used c.
        let ne = not_used u used in
        let own = of_other u q ne c in
        let used' : (pc.spans u).is_used ≡ true =
          subst (λ sp. sp.is_used ≡ true) (sym (other_span u ne)) used in
        let old = was_mapped p u ne h in
        other_map q u (inr (used', p, old)) own ∙ m.separate.whole p q u old used' own;
    separate =
        pairwise pc.spans spans' (Live pc) (Live (shelve pc s)) s own_Covers
          (λ u q ne l. of_other u q ne) was-Live m.separate.separate m.beside;
    start = λ u l. elim (Bool-cases (u == s)) [
      | inl eu ↦
          let same : s ≡ u = ground (arith, eu) in subst (λ w. 0 < (spans' w).page_id) same start
      | inr nu ↦
          let ne : u ≢ s = ground (arith, nu) in
          subst (λ sp. 0 < sp.page_id) (other_span u ne) (m.separate.start u (was-Listed u ne l))
    ];
  }

  shelve_kept :
      (p t : ℕ)
      → t ≢ s
      → pc.id_span_map p ≡ some t
      → (pc.spans t).is_used ≡ true
      → ((shelve pc s).id_span_map p ≡ some t) × ((shelve pc s).spans t ≡ pc.spans t)
  unfolding shelve push_span set_ends
  shelve_kept p t ne h used = (other_map p t (inr (used, p, h)) own ∙ h, sym (other_span t ne))
    where
      own : Covers (pc.spans t) p
      own = let en = (m.entries p t h).1 in (en.from, en.to)

  Blocked-shelve :
      (id : ℕ)
      → id ≢ (spans' s).page_id
      → id ≢ (spans' s).page_id + (spans' s).npage - 1
      → Blocked pc s id
      → Blocked (shelve pc s) s id
  unfolding shelve push_span set_ends
  Blocked-shelve id nf nl b =
      let same =
        set_ends_other pc.id_span_map (spans' s).page_id ((spans' s).page_id + (spans' s).npage - 1)
          s id nf nl in
      elim b [
        | inl e ↦ inl (same ∙ e)
        | inr (t, e, busy) ↦ inr (
          t,
          same ∙ e,
          subst (λ sp. (sp.is_used ≡ true) ⊎ (npage_lists ≤ (spans' s).npage + sp.npage))
              (other_span t (m.entries id t e).0)
              (subst (λ n. ((pc.spans t).is_used ≡ true) ⊎ (npage_lists ≤ n + (pc.spans t).npage))
                (sym (ap (λ sp. sp.npage) self)) busy),
        )
      ]

  pub shelve-Returned :
      Blocked pc s (page_before (pc.spans s).page_id)
      → Blocked pc s ((pc.spans s).page_id + (pc.spans s).npage)
      → Returned pc (shelve pc s) s
  unfolding shelve push_span set_ends
  shelve-Returned before behind = record {
    order = record {
      stocked = record { sized = stocked.sized; distinct = stocked.distinct };
      entries = entries';
      separate = shelve-Separate;
    };
    unused = ap (λ sp. sp.is_used) self;
    among =
        subst (λ sp. Among (pc.spans s) sp) (sym self)
          (record { from = omega arith; to = omega arith; size = omega arith });
    small = subst (λ sp. sp.npage < npage_lists) (sym self) m.small;
    listed = listed;
    first =
        set_ends_first pc.id_span_map (spans' s).page_id ((spans' s).page_id + (spans' s).npage - 1)
          s;
    last =
        set_ends_last pc.id_span_map (spans' s).page_id ((spans' s).page_id + (spans' s).npage - 1)
          s;
    before =
        Blocked-shelve (page_before (spans' s).page_id) (before_first start)
          (before_last start some_page)
          (subst (λ sp. Blocked pc s (page_before sp.page_id)) (sym self) before);
    behind =
        Blocked-shelve ((spans' s).page_id + (spans' s).npage) (omega (arith, some_page))
          (omega (arith, some_page))
          (subst (λ sp. Blocked pc s (sp.page_id + sp.npage)) (sym self) behind);
    kept = shelve_kept;
    others = λ u ne. sym (other_span u ne);
  }
