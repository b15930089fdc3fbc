-- ===== src/MemoryPool/PageCache/Release/Absorb.antt =====
-- One round of the loops of ReleaseSpanToPageCache, on a page cache in order.
use linux_os.Base.{
  ℕ, ◌+◌, ◌-◌, ◌<◌, ◌≤◌, ◌≡◌, ◌≢◌, ◌⊎◌, inl, inr, refl, sym, ap, subst, ◌∙◌, List, none, some, Bool,
  true, false, arith, NotIn, update,
}
use linux_os.MemoryPool.PageCache.{Span, PageCache, npage_lists, set_ends}
use linux_os.MemoryPool.PageCache.Lists.{
  All, All-without, InList, Distinct, not_of_size, lists_update, update_same,
}
use linux_os.MemoryPool.PageCache.Release.{Side, merged_page_id, page_beside, absorb}
use linux_os.MemoryPool.PageCache.Release.Erase.{Within, Within-NotIn, Erased, erase_span_lem}
use linux_os.MemoryPool.PageCache.Release.Pages.{
  merged_start, merged_span, merged_span-Among, merged_span-Covers,
}
use linux_os.MemoryPool.PageCache.Release.Order.{
  Entry, EntryOf, Merging, Separate, Live, Listed, Covers, Found, Among, SameStart, Wider,
}
use linux_os.MemoryPool.PageCache.Release.Map.{
  cleared_ends, cleared_ends_shrink, cleared_ends_other,
}

not_ends : {a b c : ℕ} → (a ≡ b) ⊎ (a ≡ c) → a ≢ b → a ≢ c → ⊥
not_ends (inl e) nb nc = nb e
not_ends (inr e) nb nc = nc e

-- No test has two results.
pub not_both : {b : Bool} → b ≡ true → b ≡ false → ⊥
not_both {b} h h' = ground (arith, h, h')

-- One round returns and keeps the order; `s` has then the pages of both.
module _ (side : Side) (pc : PageCache) (s id t : ℕ) (m : Merging pc s) (fd : Found pc s id t) where
  entry : (t ≢ s) × Entry pc id t
  entry = m.entries id t fd.mapped

  abbrev grown : ℕ → Span
  grown = update pc.spans s (record (pc.spans s) {
    page_id = merged_page_id side (pc.spans s) (pc.spans t);
    npage = (pc.spans s).npage + (pc.spans t).npage;
  })

  grown_other : (u : ℕ) → u ≢ s → pc.spans u ≡ grown u
  unfolding update
  grown_other u ne = ground (arith, ne)

  grown_entry : EntryOf pc.next_span pc.span_lists (grown t) id t
  grown_entry =
      subst (λ span. EntryOf pc.next_span pc.span_lists span id t) (grown_other t entry.0) entry.1

  grown_unused : (grown t).is_used ≡ false
  grown_unused = subst (λ span. span.is_used ≡ false) (grown_other t entry.0) fd.unused

  grown_start : 0 < (grown s).page_id
  grown_start =
      subst (λ span. 0 < span.page_id) (sym (update_same pc.spans s _))
        (merged_start side (pc.spans s) (pc.spans t) m.start entry.1.start)

  grown_npage : (grown s).npage ≡ (pc.spans s).npage + (pc.spans t).npage
  grown_npage = ap (λ span. span.npage) (update_same pc.spans s _)

  found_list :
      Listed pc t
      × ((id ≡ (pc.spans t).page_id) ⊎ (id ≡ (pc.spans t).page_id + (pc.spans t).npage - 1))
  found_list = elim entry.1.held [ inl used ↦ absurd (not_both used fd.unused) | inr held ↦ held ]

  of_other : (u q : ℕ) → u ≢ s → Covers (grown u) q → Covers (pc.spans u) q
  of_other u q ne c = subst (λ sp. Covers sp q) (sym (grown_other u ne)) c

  absorbed_list : Within t (pc.span_lists (grown t).npage)
  absorbed_list = elim grown_entry.held [
    | inl used ↦ absurd (not_both used grown_unused)
    | inr (here, ends) ↦ here
  ]

  module _ (rest : List ℕ) (er : Erased t (pc.span_lists (grown t).npage) rest) where
    abbrev shorter : ℕ → List ℕ
    shorter = update pc.span_lists (grown t).npage rest

    abbrev absorbed : PageCache
    absorbed = set_ends (record pc { spans = grown; span_lists = shorter }) t none

    absorbed_sized :
        (i : ℕ) → All (InList (record pc { spans = grown; span_lists = shorter }) i) (shorter i)
    absorbed_sized =
        lists_update (λ i xs. All (InList (record pc { spans = grown; span_lists = shorter }) i) xs)
          pc.span_lists (grown t).npage rest (λ i ne. all_grown i)
          (er.kept (InList (record pc { spans = grown; span_lists = shorter }) (grown t).npage)
            (all_grown (grown t).npage))
      where
        all_grown :
            (i : ℕ)
            → All (InList (record pc { spans = grown; span_lists = shorter }) i) (pc.span_lists i)
        all_grown i =
            All-without (InList pc i) (InList (record pc { spans = grown; span_lists = shorter }) i)
              s (pc.span_lists i) (m.apart i)
              (λ x ne h.
                subst (λ span. (span.npage ≡ i) × (span.is_used ≡ false) × (x < pc.next_span))
                  (grown_other x (λ e. ne (sym e))) h)
              (m.stocked.sized i)

    absorbed_entry :
        (p u : ℕ)
        → absorbed.id_span_map p ≡ some u
        → (u ≢ s) × EntryOf pc.next_span shorter (grown u) p u
    unfolding set_ends
    absorbed_entry p u h =
        let (not_first, not_last, old) =
          cleared_ends pc.id_span_map (grown t).page_id ((grown t).page_id + (grown t).npage - 1) p
            u h in
        let (ne, en) = m.entries p u old in
        (
          ne,
          entry_kept p u ne
              (subst (λ span. EntryOf pc.next_span pc.span_lists span p u) (grown_other u ne) en)
              not_first not_last,
        )
      where
        entry_kept :
            (p u : ℕ)
            → u ≢ s
            → EntryOf pc.next_span pc.span_lists (grown u) p u
            → p ≢ (grown t).page_id
            → p ≢ (grown t).page_id + (grown t).npage - 1
            → EntryOf pc.next_span shorter (grown u) p u
        entry_kept p u ne en not_first not_last = record {
          made = en.made;
          start = en.start;
          from = en.from;
          to = en.to;
          held = elim en.held [
            | inl used ↦ inl used
            | inr (here, ends) ↦
                let other : u ≢ t = λ e.
                  not_ends
                    (subst
                      (λ v. (p ≡ (grown v).page_id) ⊎ (p ≡ (grown v).page_id + (grown v).npage - 1))
                      e ends)
                    not_first not_last in
                inr (
                  lists_update (λ i xs. Within u (pc.span_lists i) → Within u xs) pc.span_lists
                      (grown t).npage rest (λ i ne h. h) (er.others u other) (grown u).npage here,
                  ends,
                )
          ];
        }

    out_list : (i : ℕ) → NotIn t (shorter i)
    out_list =
        lists_update (λ i xs. NotIn t xs) pc.span_lists (grown t).npage rest
          (λ i ne.
            not_of_size pc i t (pc.span_lists i)
              (λ h. ne (sym h ∙ ap (λ sp. sp.npage) (grown_other t entry.0))) (m.stocked.sized i))
          (er.distinct (m.stocked.distinct (grown t).npage)).1

    in_list : (u i : ℕ) → Within u (shorter i) → Within u (pc.span_lists i)
    in_list u =
        lists_update (λ i xs. Within u xs → Within u (pc.span_lists i)) pc.span_lists
          (grown t).npage rest (λ i ne h. h) (er.held u)

    was-Listed : (u : ℕ) → Within u (shorter (grown u).npage) → (u ≢ s) × (u ≢ t) × Listed pc u
    was-Listed u l =
        let old = in_list u (grown u).npage l in
        let ne = Within-NotIn u s (pc.span_lists (grown u).npage) old (m.apart (grown u).npage) in
        (
          ne,
          Within-NotIn u t (shorter (grown u).npage) l (out_list (grown u).npage),
          subst (λ sp. Within u (pc.span_lists sp.npage)) (sym (grown_other u ne)) old,
        )

    was-Live : (u : ℕ) → Live absorbed u → (u ≢ s) × (u ≢ t) × Live pc u
    unfolding set_ends
    was-Live u (inl l) = let (ns, nt, old) = was-Listed u l in (ns, nt, inl old)
    was-Live u (inr (used, p, h)) =
        let (nf, nl, old) =
          cleared_ends pc.id_span_map (grown t).page_id ((grown t).page_id + (grown t).npage - 1) p
            u h in
        let ne = (m.entries p u old).0 in
        (
          ne,
          (λ e. not_both (subst (λ v. (grown v).is_used ≡ true) e used) grown_unused),
          inr (subst (λ sp. sp.is_used ≡ true) (sym (grown_other u ne)) used, p, old),
        )

    -- A page of another live span keeps its entry.
    other_map :
        (q u : ℕ)
        → u ≢ t
        → Live pc u
        → Covers (pc.spans u) q
        → absorbed.id_span_map q ≡ pc.id_span_map q
    unfolding set_ends
    other_map q u nt live own =
        let away : (r : ℕ) → Covers (grown t) r → q ≢ r = λ r ct e. nt (
          m.separate.separate u t r live (inl found_list.0) (subst (Covers (pc.spans u)) e own)
            (of_other t r entry.0 ct)) in
        cleared_ends_other pc.id_span_map (grown t).page_id
          ((grown t).page_id + (grown t).npage - 1) q
          (away (grown t).page_id (omega arith, omega (arith, grown_entry.from, grown_entry.to)))
          (away ((grown t).page_id + (grown t).npage - 1) (
            omega (arith, grown_entry.from, grown_entry.to),
            omega (arith, grown_entry.from, grown_entry.to),
          ))

    absorbed_kept :
        (p u : ℕ)
        → pc.id_span_map p ≡ some u
        → (pc.spans u).is_used ≡ true
        → absorbed.id_span_map p ≡ some u
    absorbed_kept p u h used =
        let en = (m.entries p u h).1 in
        let nt : u ≢ t =
          λ e. not_both (subst (λ v. (pc.spans v).is_used ≡ true) e used) fd.unused in
        other_map p u nt (inr (used, p, h)) (en.from, en.to) ∙ h

    absorbed-Separate : Separate absorbed
    unfolding set_ends
    absorbed-Separate = record {
      whole = λ p q u h used c.
          let (ns, nt, live) = was-Live u (inr (used, p, h)) in
          let old =
            (cleared_ends pc.id_span_map (grown t).page_id ((grown t).page_id + (grown t).npage - 1)
              p u h).2 in
          let own = of_other u q ns c in
          other_map q u nt live own
          ∙ m.separate.whole p q u old
              (subst (λ sp. sp.is_used ≡ true) (sym (grown_other u ns)) used) own;
      separate = λ u v q lu lv cu cv.
          let (us, ut, live_u) = was-Live u lu in
          let (vs, vt, live_v) = was-Live v lv in
          m.separate.separate u v q live_u live_v (of_other u q us cu) (of_other v q vs cv);
      start = λ u l.
          let (ns, nt, old) = was-Listed u l in
          subst (λ sp. 0 < sp.page_id) (grown_other u ns) (m.separate.start u old);
    }

    module _ (beside : id ≡ page_beside side (pc.spans s)) where
      reached :
          Among (pc.spans s) (grown s)
          × SameStart side (pc.spans s) (grown s)
          × ((pc.spans s).npage < (grown s).npage)
      unfolding merged_span
      reached =
          subst
            (λ span.
              Among (pc.spans s) span
              × SameStart side (pc.spans s) span
              × ((pc.spans s).npage < span.npage))
            (sym (update_same pc.spans s _))
            (merged_span-Among side (pc.spans s) (pc.spans t) m.start
              (subst (λ p. (pc.spans t).page_id ≤ p) beside entry.1.from)
              (subst (λ p. p < (pc.spans t).page_id + (pc.spans t).npage) beside entry.1.to))

      beside_Covers : Covers (pc.spans t) (page_beside side (pc.spans s))
      beside_Covers = (
        subst (λ p. (pc.spans t).page_id ≤ p) beside entry.1.from,
        subst (λ p. p < (pc.spans t).page_id + (pc.spans t).npage) beside entry.1.to,
      )

      beside_grown : (u q : ℕ) → Live absorbed u → Covers (grown u) q → Covers (grown s) q → ⊥
      unfolding merged_span
      beside_grown u q l c cs =
          let (ns, nt, live) = was-Live u l in
          let own = of_other u q ns c in
          elim (merged_span-Covers (pc.spans s) (pc.spans t) m.start m.some_page
            (λ p. m.beside t p (inl found_list.0)) side beside_Covers
            (subst
              (λ p.
                (p ≡ (pc.spans t).page_id) ⊎ (p ≡ (pc.spans t).page_id + (pc.spans t).npage - 1))
              beside found_list.1)
            q (subst (λ sp. Covers sp q) (update_same pc.spans s _) cs)) [
              | inl other ↦ nt (m.separate.separate u t q live (inl found_list.0) own other)
              | inr same ↦ m.beside u q live own same
            ]

      absorbed-Merging : Merging absorbed s
      unfolding set_ends
      absorbed-Merging = record {
        stocked = record {
          sized = absorbed_sized;
          distinct =
              lists_update (λ i xs. Distinct xs) pc.span_lists (grown t).npage rest
                (λ i ne. m.stocked.distinct i) (er.distinct (m.stocked.distinct (grown t).npage)).0;
        };
        apart =
            lists_update (λ i xs. NotIn s xs) pc.span_lists (grown t).npage rest (λ i ne. m.apart i)
              (er.out s (m.apart (grown t).npage));
        made = m.made;
        start = grown_start;
        some_page = subst (λ n. 0 < n) (sym grown_npage) (omega (arith, m.some_page));
        small = subst (λ n. n < npage_lists) (sym grown_npage) fd.fits;
        entries = absorbed_entry;
        separate = absorbed-Separate;
        beside = beside_grown;
      }

      absorbed-Wider : Wider pc absorbed s
      unfolding set_ends
      absorbed-Wider = record {
        among = reached.0;
        shrunk =
            cleared_ends_shrink pc.id_span_map (grown t).page_id
              ((grown t).page_id + (grown t).npage - 1);
        others = λ u ne. sym (grown_other u ne);
        used = ap (λ span. span.is_used) (update_same pc.spans s _);
        kept = absorbed_kept;
      }

  pub absorb-Wider :
      id ≡ page_beside side (pc.spans s)
      → (pc' : PageCache) × (absorb side pc s t ≡ some pc')
        × Merging pc' s
        × Wider pc pc' s
        × SameStart side (pc.spans s) (pc'.spans s)
        × ((pc.spans s).npage < (pc'.spans s).npage)
  unfolding absorb set_ends
  absorb-Wider beside =
      let (rest, runs, er) = erase_span_lem t (pc.span_lists (grown t).npage) absorbed_list in
      let (among, start, more) = reached rest er beside in
      (
        absorbed rest er,
        rw (absorb, runs) refl,
        absorbed-Merging rest er beside,
        absorbed-Wider rest er beside,
        start,
        more,
      )
