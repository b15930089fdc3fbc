-- ===== src/MemoryPool/PageCache/NewSpan/Lend.antt =====
-- A page cache with a span that is about to be handed out.
use linux_os.Base.{
  ℕ, ◌+◌, ◌<◌, ◌≤◌, ◌≡◌, ◌≢◌, ◌⊎◌, inl, inr, refl, sym, ap, subst, ◌∙◌, Option, some, true, false,
  arith, leb, ltb, ◌&&◌, update, Bool-cases,
}
use linux_os.MemoryPool.Memory.{Ptr}
use linux_os.MemoryPool.PageCache.{Span, PageCache, set_pages, map_pages, lend}
use linux_os.MemoryPool.PageCache.Lists.{
  All-without, InList, IsStocked, Apart, update_same, set_pages_lem,
}
use linux_os.MemoryPool.PageCache.Release.Erase.{Within, Within-NotIn}
use linux_os.MemoryPool.PageCache.Release.Order.{
  Entry, EntryOf, Separate, Live, Covers, InOrder, pairwise,
}

-- The span `s` is in no list and shares no page with the others; what is mapped at its pages does not
-- matter.
pub record Room (pc : PageCache) (s : ℕ) : Type 0 where
  pub stocked : IsStocked pc
  pub apart : Apart pc s
  pub made : s < pc.next_span
  pub start : 0 < (pc.spans s).page_id
  pub entries :
      (p t : ℕ) → pc.id_span_map p ≡ some t → (Covers (pc.spans s) p → ⊥) → (t ≢ s) × Entry pc p t
  pub separate : Separate pc
  pub beside : (t q : ℕ) → Live pc t → Covers (pc.spans t) q → Covers (pc.spans s) q → ⊥

set_pages_cases :
    (n page_id s : ℕ) (map : ℕ → Option ℕ) (p t : ℕ)
    → set_pages n page_id s map p ≡ some t
    → ((s ≡ t) × (page_id ≤ p) × (p < page_id + n))
      ⊎ ((page_id ≤ p → p < page_id + n → ⊥) × (map p ≡ some t))
set_pages_cases n page_id s map p t h = elim (Bool-cases (leb page_id p && ltb p (page_id + n))) [
  | inl e ↦
      let here : set_pages n page_id s map p ≡ some s =
        set_pages_lem n page_id s map p ∙ rw (e) refl in
      inl (some-injective (sym here ∙ h), ground (arith, e), ground (arith, e))
  | inr e ↦
      let same : set_pages n page_id s map p ≡ map p =
        set_pages_lem n page_id s map p ∙ rw (e) refl in
      inr ((λ from to. outside e from to), sym same ∙ h)
]
  where
    some-injective : {a b : ℕ} → some a ≡ some b → a ≡ b
    some-injective e = cc

    outside : leb page_id p && ltb p (page_id + n) ≡ false → page_id ≤ p → p < page_id + n → ⊥
    outside e from to = ground (arith, e, from, to)

set_pages_inside :
    (n page_id s : ℕ) (map : ℕ → Option ℕ) (p : ℕ)
    → page_id ≤ p
    → p < page_id + n
    → set_pages n page_id s map p ≡ some s
set_pages_inside n page_id s map p h h' = ground (arith, set_pages_lem n page_id s map p, h, h')

pub set_pages_outside :
    (n page_id s : ℕ) (map : ℕ → Option ℕ) (p : ℕ)
    → (page_id ≤ p → p < page_id + n → ⊥)
    → set_pages n page_id s map p ≡ map p
set_pages_outside n page_id s map p out = elim (Bool-cases (leb page_id p && ltb p (page_id + n))) [
  | inl e ↦ absurd (out (ground (arith, e)) (ground (arith, e)))
  | inr e ↦ set_pages_lem n page_id s map p ∙ rw (e) refl
]

-- With its pages mapped and marked as used, the cache is in order.
module _ (pc : PageCache) (s : ℕ) (r : Room pc s) (obj_size use_count : ℕ) (free_lists : Ptr) where
  abbrev span : Span
  span = record (pc.spans s) {
    free_lists = free_lists;
    use_count = use_count;
    obj_size = obj_size;
    is_used = true;
  }

  abbrev spans' : ℕ → Span
  spans' = update pc.spans s span

  abbrev map' : ℕ → Option ℕ
  map' = set_pages (pc.spans s).npage (pc.spans s).page_id s pc.id_span_map

  abbrev lent : PageCache
  lent = lend (map_pages pc s) s obj_size use_count free_lists

  self : spans' s ≡ span
  self = update_same pc.spans s span

  other_span : (u : ℕ) → u ≢ s → pc.spans u ≡ spans' u
  unfolding update
  other_span u ne = ground (arith, ne)

  own_Covers : (q : ℕ) → Covers (spans' s) q → Covers (pc.spans s) q
  own_Covers q c = subst (λ sp. Covers sp q) self c

  of_other : (u q : ℕ) → u ≢ s → Covers (spans' u) q → Covers (pc.spans u) q
  of_other u q ne c = subst (λ sp. Covers sp q) (sym (other_span u ne)) c

  map_cases :
      (p t : ℕ)
      → map' p ≡ some t
      → ((s ≡ t) × Covers (pc.spans s) p)
        ⊎ ((Covers (pc.spans s) p → ⊥) × (pc.id_span_map p ≡ some t))
  map_cases p t h =
      elim (set_pages_cases (pc.spans s).npage (pc.spans s).page_id s pc.id_span_map p t h) [
        | inl (same, from, to) ↦ inl (same, (from, to))
        | inr (out, old) ↦ inr ((λ c. out c.0 c.1), old)
      ]

  lent-Entry : (p t : ℕ) → lent.id_span_map p ≡ some t → Entry lent p t
  unfolding lend map_pages
  lent-Entry p t h = elim (map_cases p t h) [
    | inl (same, (from, to)) ↦ subst (Entry lent p) same (
        subst (λ sp. EntryOf pc.next_span pc.span_lists sp p s) (sym self)
          (record { made = r.made; start = r.start; from = from; to = to; held = inl refl }))
    | inr (out, old) ↦
        let (ne, en) = r.entries p t old out in
        subst (λ sp. EntryOf pc.next_span pc.span_lists sp p t) (other_span t ne) en
  ]

  was-Live : (u : ℕ) → u ≢ s → Live lent u → Live pc u
  unfolding lend map_pages
  was-Live u ne (inl l) =
      inl (subst (λ sp. Within u (pc.span_lists sp.npage)) (sym (other_span u ne)) l)
  was-Live u ne (inr (used, p, h)) = elim (map_cases p u h) [
    | inl (same, c) ↦ absurd (ne (sym same))
    | inr (out, old) ↦ inr (subst (λ sp. sp.is_used ≡ true) (sym (other_span u ne)) used, p, old)
  ]

  not-Listed : (u : ℕ) → Within u (pc.span_lists (spans' u).npage) → u ≢ s
  not-Listed u l = Within-NotIn u s (pc.span_lists (spans' u).npage) l (r.apart (spans' u).npage)

  lent-Separate : Separate lent
  unfolding lend map_pages
  lent-Separate = record {
    whole = λ p q u h used c. elim (map_cases p u h) [
      | inl (same, _) ↦
          let own = own_Covers q (subst (λ w. Covers (spans' w) q) (sym same) c) in
          set_pages_inside (pc.spans s).npage (pc.spans s).page_id s pc.id_span_map q own.0 own.1
          ∙ ap some same
      | inr (out, old) ↦
          let ne = (r.entries p u old out).0 in
          let own = of_other u q ne c in
          let used' : (pc.spans u).is_used ≡ true =
            subst (λ sp. sp.is_used ≡ true) (sym (other_span u ne)) used in
          set_pages_outside (pc.spans s).npage (pc.spans s).page_id s pc.id_span_map q
            (λ from to. r.beside u q (inr (used', p, old)) own (from, to))
          ∙ r.separate.whole p q u old used' own
    ];
    separate =
        pairwise pc.spans spans' (Live pc) (Live lent) s own_Covers (λ u q ne l. of_other u q ne)
          was-Live r.separate.separate r.beside;
    start = λ u l.
        let ne = not-Listed u l in
        subst (λ sp. 0 < sp.page_id) (other_span u ne)
          (r.separate.start u
            (subst (λ sp. Within u (pc.span_lists sp.npage)) (sym (other_span u ne)) l));
  }

  pub lend-InOrder : InOrder lent
  unfolding lend map_pages
  lend-InOrder = record {
    stocked = record {
      sized = λ i.
          All-without (InList pc i) (InList lent i) s (pc.span_lists i) (r.apart i)
            (λ x ne h.
              subst (λ sp. (sp.npage ≡ i) × (sp.is_used ≡ false) × (x < pc.next_span))
                (other_span x (λ e. ne (sym e))) h)
            (r.stocked.sized i);
      distinct = r.stocked.distinct;
    };
    entries = lent-Entry;
    separate = lent-Separate;
  }
