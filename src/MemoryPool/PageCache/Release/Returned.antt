-- ===== src/MemoryPool/PageCache/Release/Returned.antt =====
-- ReleaseSpanToPageCache as a whole, on a page cache in order.
use linux_os.Base.{
  ℕ, zero, suc, ◌+◌, ◌-◌, ◌<◌, ◌≤◌, ◌≡◌, ◌≢◌, inl, inr, refl, sym, subst, ◌∙◌, List, [], ◌∷◌,
  Option, none, some, true, false, arith, ltb, leb, ◌&&◌, if◌then◌else◌, NotIn, update, Bool-cases,
}
use linux_os.MemoryPool.PageCache.{PageCache, npage_lists}
use linux_os.MemoryPool.PageCache.Lists.{All, InList}
use linux_os.MemoryPool.PageCache.Release.{
  forward, backward, clear_pages, page_before, release_span, shelve,
}
use linux_os.MemoryPool.PageCache.Release.Order.{
  Entry, Merging, Separate, Live, Blocked, InOrder, Returned,
}
use linux_os.MemoryPool.PageCache.Release.Merge.{
  Wider-trans, Among-trans, Blocked-Wider, merge-Blocked,
}
use linux_os.MemoryPool.PageCache.Release.Erase.{Within-NotIn}
use linux_os.MemoryPool.PageCache.Release.Absorb.{not_both}
use linux_os.MemoryPool.PageCache.Release.Shelve.{shelve-Returned}

-- The pages of the loop are mapped to nothing, and no others change.
clear_pages_lem :
    (n page_id : ℕ) (map : ℕ → Option ℕ) (p : ℕ)
    → clear_pages n page_id map p ≡ (if leb page_id p && ltb p (page_id + n) then none else map p)
unfolding clear_pages update
clear_pages_lem zero page_id map p = ground arith
clear_pages_lem (suc n) page_id map p = ground (arith, clear_pages_lem n page_id map p)

clear_pages-left :
    (n page_id : ℕ) (map : ℕ → Option ℕ) (p t : ℕ)
    → clear_pages n page_id map p ≡ some t
    → (map p ≡ some t) × ((page_id ≤ p) → (p < page_id + n) → ⊥)
clear_pages-left n page_id map p t h = elim (Bool-cases (leb page_id p && ltb p (page_id + n))) [
  | inl e ↦
      let gone : clear_pages n page_id map p ≡ none =
        clear_pages_lem n page_id map p ∙ rw (e) refl in
      absurd (none_some (sym gone ∙ h))
  | inr e ↦
      let same : clear_pages n page_id map p ≡ map p =
        clear_pages_lem n page_id map p ∙ rw (e) refl in
      (sym same ∙ h, λ from to. outside e from to)
]
  where
    none_some : none ≡ some t → ⊥
    none_some e = cc

    outside : leb page_id p && ltb p (page_id + n) ≡ false → page_id ≤ p → p < page_id + n → ⊥
    outside e from to = ground (arith, e, from, to)

clear_pages-kept :
    (n page_id : ℕ) (map : ℕ → Option ℕ) (p : ℕ)
    → (page_id ≤ p → p < page_id + n → ⊥)
    → clear_pages n page_id map p ≡ map p
clear_pages-kept n page_id map p outside =
    elim (Bool-cases (leb page_id p && ltb p (page_id + n))) [
      | inl e ↦ absurd (outside (ground (arith, e)) (ground (arith, e)))
      | inr e ↦ clear_pages_lem n page_id map p ∙ rw (e) refl
    ]

-- A span in use is in no list.
used_out :
    (pc : PageCache) (i s : ℕ) (xs : List ℕ)
    → (pc.spans s).is_used ≡ true
    → All (InList pc i) xs
    → NotIn s xs
used_out pc i s [] used h = tt
used_out pc i s (x ∷ xs) used (h, hs) = (differ, used_out pc i s xs used hs)
  where
    differ : s ≢ x
    differ e = not_both used (subst (λ t. (pc.spans t).is_used ≡ false) (sym e) h.1)

module _ (pc : PageCache) (s p : ℕ) (order : InOrder pc) (mapped : pc.id_span_map p ≡ some s)
    (used : (pc.spans s).is_used ≡ true) (small : (pc.spans s).npage < npage_lists) where
  abbrev cleared : PageCache
  cleared = record pc {
    id_span_map = clear_pages (pc.spans s).npage (pc.spans s).page_id pc.id_span_map;
  }

  own-Live : Live pc s
  own-Live = inr (used, p, mapped)

  was-Live : (u : ℕ) → Live cleared u → (u ≢ s) × Live pc u
  was-Live u (inl l) = (
    Within-NotIn u s (pc.span_lists (pc.spans u).npage) l (
        used_out pc (pc.spans u).npage s (pc.span_lists (pc.spans u).npage) used
          (order.stocked.sized (pc.spans u).npage)),
    inl l,
  )
  was-Live u (inr (in_use, q, h)) =
      let (old, outside) =
        clear_pages-left (pc.spans s).npage (pc.spans s).page_id pc.id_span_map q u h in
      let en = order.entries q u old in
      (
        (λ e. let own : Entry pc q s = subst (λ v. Entry pc q v) e en in outside own.from own.to),
        inr (in_use, q, old),
      )

  cleared-Separate : Separate cleared
  cleared-Separate = record {
    whole = λ q r u h in_use c.
        let (ne, live) = was-Live u (inr (in_use, q, h)) in
        let (old, outside) =
          clear_pages-left (pc.spans s).npage (pc.spans s).page_id pc.id_span_map q u h in
        clear_pages-kept (pc.spans s).npage (pc.spans s).page_id pc.id_span_map r
          (λ from to. ne (order.separate.separate u s r live own-Live c (from, to)))
        ∙ order.separate.whole q r u old in_use c;
    separate = λ u v q lu lv. order.separate.separate u v q (was-Live u lu).1 (was-Live v lv).1;
    start = order.separate.start;
  }

  cleared-Merging : Merging cleared s
  cleared-Merging =
      let entry = order.entries p s mapped in
      record {
        stocked = record { sized = order.stocked.sized; distinct = order.stocked.distinct };
        apart = λ i. used_out pc i s (pc.span_lists i) used (order.stocked.sized i);
        made = entry.made;
        start = entry.start;
        some_page = omega (arith, entry.from, entry.to);
        small = small;
        separate = cleared-Separate;
        beside = λ t q l c cs.
            let (ne, live) = was-Live t l in ne (order.separate.separate t s q live own-Live c cs);
        entries = λ q t h.
            let (old, outside) =
              clear_pages-left (pc.spans s).npage (pc.spans s).page_id pc.id_span_map q t h in
            let en = order.entries q t old in
            let other : t ≢ s = λ e.
              let own : Entry pc q s = subst (λ v. Entry pc q v) e en in outside own.from own.to in
            (
              other,
              record {
                made = en.made;
                start = en.start;
                from = en.from;
                to = en.to;
                held = en.held;
              },
            );
      }

  -- A used span of at most 128 pages, found by one of its pages in a page cache in order, can be given
  -- back: ReleaseSpanToPageCache returns, every list it takes a span from holds that span, nothing goes
  -- to the system, and the cache is in order again. The span then has all of its pages and at most 128,
  -- is in its list and in no use, and beside it is no free span that it could be merged with. The other
  -- spans in use are as they were, with their pages.
  pub release_span-Returned :
      (pc' : PageCache) × (release_span npage_lists pc s ≡ some (pc', none)) × Returned pc pc' s
  unfolding release_span
  release_span-Returned =
      let (merged, runs, m, w, start, before) =
        merge-Blocked backward npage_lists cleared s cleared-Merging (omega arith) in
      let (both, runs', m', w', start', behind) =
        merge-Blocked forward npage_lists merged s m (omega arith) in
      let fits : ltb (npage_lists - 1) (pc.spans s).npage ≡ false = ground (arith, small) in
      let before' =
        subst (λ n. Blocked both s (page_before n)) (sym start') (Blocked-Wider m w' before) in
      let r = shelve-Returned both s m' before' behind in
      (
        shelve both s,
        rw (fits, release_span, runs, runs') refl,
        record {
          order = r.order;
          unused = r.unused;
          among = Among-trans w.among (Among-trans w'.among r.among);
          small = r.small;
          listed = r.listed;
          first = r.first;
          last = r.last;
          before = r.before;
          behind = r.behind;
          kept = λ q t ne h in_use.
              let en = order.entries q t h in
              let here : clear_pages (pc.spans s).npage (pc.spans s).page_id pc.id_span_map q
                  ≡ some t =
                clear_pages-kept (pc.spans s).npage (pc.spans s).page_id pc.id_span_map q
                  (λ from to. ne (
                    order.separate.separate t s q (inr (in_use, q, h)) own-Live (en.from, en.to)
                      (from, to)))
                ∙ h in
              let w'' = Wider-trans (λ q t h. (cleared-Merging.entries q t h).0) w w' in
              let (there, same) =
                r.kept q t ne (w''.kept q t here in_use)
                  (subst (λ sp. sp.is_used ≡ true) (sym (w''.others t ne)) in_use) in
              (there, same ∙ w''.others t ne);
          others = λ u ne. r.others u ne ∙ w'.others u ne ∙ w.others u ne;
        },
      )
