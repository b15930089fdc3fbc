-- ===== src/MemoryPool/PageCache/Release/Tests.antt =====
-- A span of two pages is given back next to a free page, and next to one in use.
use linux_os.Base.{
  false, ◌<◌, ℕ, ◌≡◌, ◌⊎◌, inl, inr, refl, sym, subst, ◌∙◌, List, [], ◌∷◌, Option, none, some, true,
  arith, ◌==◌, if◌then◌else◌, update, Bool-cases,
}
use mathlib.Core.Option
use linux_os.MemoryPool.PageCache.{PageCache, Span, fresh_span, npage_lists, set_ends, push_span}
use linux_os.MemoryPool.PageCache.Lists.{All, Distinct, InList}
use linux_os.MemoryPool.PageCache.Release.{
  release_span, merge, find_neighbour, absorb, shelve, clear_pages, erase_span,
}
use linux_os.MemoryPool.PageCache.Release.Order.{InOrder, Entry, Separate, Live, Covers, Returned}
use linux_os.MemoryPool.PageCache.Release.Erase.{Within}
use linux_os.MemoryPool.PageCache.Release.Absorb.{not_both}
use linux_os.MemoryPool.PageCache.Release.Returned.{release_span-Returned}

-- Span 0 is in use and has pages 10 and 11, span 1 is free and has page 12.
abbrev pages : ℕ → Option ℕ
pages p = if p == 12 then some 1 else if p == 11 then some 0 else if p == 10 then some 0 else none

abbrev spans : ℕ → Span
spans s = if s == 0 then record (fresh_span 10 2) { is_used = true } else fresh_span 12 1

abbrev lists : ℕ → List ℕ
lists i = if i == 1 then 1 ∷ [] else []

abbrev cache : PageCache
cache = record {
  span_lists = lists;
  id_span_map = pages;
  spans = spans;
  next_span = 2;
  allocations = 1;
}

pages_cases :
    (p t : ℕ) → pages p ≡ some t → ((p ≡ 12) × (1 ≡ t)) ⊎ (((p ≡ 10) ⊎ (p ≡ 11)) × (0 ≡ t))
pages_cases p t h = elim (Bool-cases (p == 12)) [
  | inl e ↦ inl (ground (arith, e), inside (sym (rw (e) refl) ∙ h))
  | inr e ↦ elim (Bool-cases (p == 11)) [
    | inl e' ↦ inr (inr (ground (arith, e')), inside (sym (rw (e, e') refl) ∙ h))
    | inr e' ↦ elim (Bool-cases (p == 10)) [
      | inl e'' ↦ inr (inl (ground (arith, e'')), inside (sym (rw (e, e', e'') refl) ∙ h))
      | inr e'' ↦ absurd (nothing (sym (rw (e, e', e'') refl) ∙ h))
    ]
  ]
]
  where
    inside : {a b : ℕ} → some a ≡ some b → a ≡ b
    inside e = cc

    nothing : none ≡ some t → ⊥
    nothing e = cc

Entry-used : (p : ℕ) → (p ≡ 10) ⊎ (p ≡ 11) → Entry cache p 0
Entry-used p h = record {
  made = omega arith;
  start = omega arith;
  from = elim h [ inl e ↦ omega (arith, e) | inr e ↦ omega (arith, e) ];
  to = elim h [ inl e ↦ omega (arith, e) | inr e ↦ omega (arith, e) ];
  held = inl refl;
}

Entry-free : (p : ℕ) → p ≡ 12 → Entry cache p 1
Entry-free p e = record {
  made = omega arith;
  start = omega arith;
  from = omega (arith, e);
  to = omega (arith, e);
  held = inr (inl refl, inl e);
}

lists_sized : (i : ℕ) → All (InList cache i) (lists i)
lists_sized i = elim (Bool-cases (i == 1)) [
  | inl e ↦
      subst (λ j. All (InList cache j) (lists j)) (sym (one i e)) ((refl, refl, omega arith), tt)
  | inr e ↦ rw (e) tt
]
  where
    one : (i : ℕ) → i == 1 ≡ true → i ≡ 1
    one i e = ground (arith, e)

lists-Distinct : (i : ℕ) → Distinct (lists i)
lists-Distinct i = elim (Bool-cases (i == 1)) [ inl e ↦ rw (e) (tt, tt) | inr e ↦ rw (e) tt ]

Listed-one : (t i : ℕ) → Within t (lists i) → t ≡ 1
Listed-one t i h = elim (Bool-cases (i == 1)) [
  | inl e ↦ let one : lists i ≡ 1 ∷ [] = rw (e) refl in in_one (subst (Within t) one h)
  | inr e ↦ let empty : lists i ≡ [] = rw (e) refl in absurd (subst (Within t) empty h)
]
  where
    in_one : Within t (1 ∷ []) → t ≡ 1
    in_one (inl same) = same
    in_one (inr later) = absurd later

Live-cases : (t : ℕ) → Live cache t → (t ≡ 1) ⊎ (t ≡ 0)
Live-cases t (inl l) = inl (Listed-one t (spans t).npage l)
Live-cases t (inr (used, p, h)) = elim (pages_cases p t h) [
  | inl (_, same) ↦ inl (sym same)
  | inr (_, same) ↦ inr (sym same)
]

used_zero : (t : ℕ) → (spans t).is_used ≡ true → t ≡ 0
used_zero t used = elim (Bool-cases (t == 0)) [
  | inl e ↦ ground (arith, e)
  | inr e ↦ let free : (spans t).is_used ≡ false = rw (e) refl in absurd (not_both used free)
]

pages_zero : (q : ℕ) → Covers (spans 0) q → pages q ≡ some 0
pages_zero q (from, to) = ground (arith, from, to)

cache-Separate : Separate cache
cache-Separate = record {
  whole = λ p q t h used c.
      let e = used_zero t used in
      subst (λ u. pages q ≡ some u) (sym e) (pages_zero q (subst (λ u. Covers (spans u) q) e c));
  separate = λ t u q lt lu ct cu. elim (Live-cases t lt) [
    | inl et ↦ elim (Live-cases u lu) [
      | inl eu ↦ et ∙ sym eu
      | inr eu ↦
          absurd (
            apart q (subst (λ v. Covers (spans v) q) et ct) (subst (λ v. Covers (spans v) q) eu cu))
    ]
    | inr et ↦ elim (Live-cases u lu) [
      | inl eu ↦
          absurd (
            apart q (subst (λ v. Covers (spans v) q) eu cu) (subst (λ v. Covers (spans v) q) et ct))
      | inr eu ↦ et ∙ sym eu
    ]
  ];
  start = λ t l.
      subst (λ v. 0 < (spans v).page_id) (sym (Listed-one t (spans t).npage l)) (omega arith);
}
  where
    apart : (q : ℕ) → Covers (spans 1) q → Covers (spans 0) q → ⊥
    apart q (from, _) (_, to) = omega (arith, from, to)

cache-InOrder : InOrder cache
cache-InOrder = record {
  stocked = record { sized = lists_sized; distinct = lists-Distinct };
  separate = cache-Separate;
  entries = λ p t h. elim (pages_cases p t h) [
    | inl (e, same) ↦ subst (Entry cache p) same (Entry-free p e)
    | inr (e, same) ↦ subst (Entry cache p) same (Entry-used p e)
  ];
}

release_span-Returned_example :
    (pc' : PageCache) × (release_span npage_lists cache 0 ≡ some (pc', none)) × Returned cache pc' 0
release_span-Returned_example =
    release_span-Returned cache 0 10 cache-InOrder refl refl (omega arith)

-- Both spans become one of three pages.
test_merged :
    Option.map {B = List ℕ × List ℕ × ℕ × ℕ}
      (λ (pc, freed). (pc.span_lists 1, pc.span_lists 3, (pc.spans 0).page_id, (pc.spans 0).npage))
      (release_span 2 cache 0)
    ≡ some ([], 0 ∷ [], 10, 3)
unfolding release_span merge find_neighbour absorb erase_span shelve clear_pages set_ends push_span
    update
test_merged = refl
