-- ===== src/MemoryPool/PageCache/Release/Merge.antt =====
-- The loops of ReleaseSpanToPageCache that merge.
use linux_os.Base.{
  ℕ, zero, suc, ◌+◌, ◌≤◌, ◌≡◌, ◌≢◌, ◌⊎◌, inl, inr, refl, sym, subst, ◌∙◌, some, true, arith,
}
use linux_os.MemoryPool.PageCache.{Span, PageCache, npage_lists}
use linux_os.MemoryPool.PageCache.Release.{Side, backward, forward, merge, page_beside}
use linux_os.MemoryPool.PageCache.Release.Order.{Merging, Blocked, Among, SameStart, Wider}
use linux_os.MemoryPool.PageCache.Release.Map.{find_neighbour-cases}
use linux_os.MemoryPool.PageCache.Release.Absorb.{absorb-Wider}

Among-refl : (a : Span) → Among a a
Among-refl a = record { from = omega arith; to = omega arith; size = omega arith }

pub Among-trans : {a b c : Span} → Among a b → Among b c → Among a c
Among-trans h h' = record {
  from = omega (arith, h.from, h'.from);
  to = omega (arith, h.to, h'.to);
  size = omega (arith, h.size, h'.size);
}

SameStart-refl : (side : Side) (a : Span) → SameStart side a a
SameStart-refl backward a = tt
SameStart-refl forward a = refl

SameStart-trans :
    (side : Side) (a b c : Span) → SameStart side a b → SameStart side b c → SameStart side a c
SameStart-trans backward a b c h h' = tt
SameStart-trans forward a b c h h' = h' ∙ h

Wider-refl : (pc : PageCache) (s : ℕ) → Wider pc pc s
Wider-refl pc s = record {
  among = Among-refl (pc.spans s);
  shrunk = λ p. inr refl;
  others = λ u ne. refl;
  used = refl;
  kept = λ p t h used. h;
}

pub Wider-trans :
    {pc pc' pc'' : PageCache} {s : ℕ}
    → ((p t : ℕ) → pc.id_span_map p ≡ some t → t ≢ s)
    → Wider pc pc' s
    → Wider pc' pc'' s
    → Wider pc pc'' s
Wider-trans differ h h' = record {
  among = Among-trans h.among h'.among;
  shrunk = λ p. elim (h'.shrunk p) [
    | inl e ↦ inl e
    | inr e ↦ elim (h.shrunk p) [ inl e' ↦ inl (e ∙ e') | inr e' ↦ inr (e ∙ e') ]
  ];
  others = λ u ne. h'.others u ne ∙ h.others u ne;
  used = h'.used ∙ h.used;
  kept = λ p t e used.
      h'.kept p t (h.kept p t e used)
        (subst (λ sp. sp.is_used ≡ true) (sym (h.others t (differ p t e))) used);
}

-- A side on which nothing could be taken in stays so.
pub Blocked-Wider :
    {pc pc' : PageCache} {s id : ℕ}
    → Merging pc s
    → Wider pc pc' s
    → Blocked pc s id
    → Blocked pc' s id
Blocked-Wider {pc} {pc'} {s} {id} m w b = elim (w.shrunk id) [
  | inl e ↦ inl e
  | inr e ↦ elim b [
    | inl none_there ↦ inl (e ∙ none_there)
    | inr (t, there, busy) ↦
        let same : pc'.spans t ≡ pc.spans t = w.others t (m.entries id t there).0 in
        inr (
          t,
          e ∙ there,
          subst (λ span. (span.is_used ≡ true) ⊎ (npage_lists ≤ (pc'.spans s).npage + span.npage))
              (sym same) (still (pc.spans t) busy),
        )
  ]
]
  where
    still :
        (span : Span)
        → (span.is_used ≡ true) ⊎ (npage_lists ≤ (pc.spans s).npage + span.npage)
        → (span.is_used ≡ true) ⊎ (npage_lists ≤ (pc'.spans s).npage + span.npage)
    still span (inl used) = inl used
    still span (inr large) = inr (omega (arith, large, w.among.size))

-- The loop returns and stops where it should; the span has at least a page more after each round, so
-- 129 rounds are enough.
pub merge-Blocked :
    (side : Side) (f : ℕ) (pc : PageCache) (s : ℕ)
    → Merging pc s
    → npage_lists ≤ f + (pc.spans s).npage
    → (pc' : PageCache) × (merge side f pc s ≡ some pc')
      × Merging pc' s
      × Wider pc pc' s
      × SameStart side (pc.spans s) (pc'.spans s)
      × Blocked pc' s (page_beside side (pc'.spans s))
unfolding merge
merge-Blocked side zero pc s m enough = absurd (omega (arith, enough, m.small))
merge-Blocked side (suc f) pc s m enough =
    elim (find_neighbour-cases pc s (page_beside side (pc.spans s))) [
      | inl (stops, b) ↦
          (pc, rw (merge, stops) refl, m, Wider-refl pc s, SameStart-refl side (pc.spans s), b)
      | inr (t, finds, found) ↦
          let (next, runs, m', w, start, more) = absorb-Wider side pc s _ t m found refl in
          let (pc', ends, m'', w', start', b) =
            merge-Blocked side f next s m' (omega (arith, enough, more)) in
          (
            pc',
            rw (merge, finds, runs) ends,
            m'',
            Wider-trans (λ p u e. (m.entries p u e).0) w w',
            SameStart-trans side (pc.spans s) (next.spans s) (pc'.spans s) start start',
            b,
          )
    ]
