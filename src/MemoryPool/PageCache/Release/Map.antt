-- ===== src/MemoryPool/PageCache/Release/Map.antt =====
-- What taking pages out of the page map, and searching it, tell.
use linux_os.Base.{
  ℕ, ◌+◌, ◌-◌, ◌≤◌, ◌≡◌, ◌≢◌, ◌⊎◌, inl, inr, refl, sym, ◌∙◌, Option, none, some, Bool, true, false,
  arith, ltb, ◌==◌, ◌||◌, update, Bool-cases,
}
use linux_os.MemoryPool.PageCache.{PageCache, npage_lists}
use linux_os.MemoryPool.PageCache.Release.{find_neighbour}
use linux_os.MemoryPool.PageCache.Release.Order.{Found, Blocked}

pub option_cases : (o : Option ℕ) → (o ≡ none) ⊎ ((t : ℕ) × (o ≡ some t))
option_cases none = inl refl
option_cases (some t) = inr (t, refl)

pub find_neighbour-cases :
    (pc : PageCache) (s id : ℕ)
    → ((find_neighbour pc s id ≡ none) × Blocked pc s id)
      ⊎ ((t : ℕ) × (find_neighbour pc s id ≡ some t) × Found pc s id t)
unfolding find_neighbour
find_neighbour-cases pc s id = elim (option_cases (pc.id_span_map id)) [
  | inl e ↦ inl (rw (find_neighbour, e) refl, inl e)
  | inr (t, e) ↦
      elim (Bool-cases
        ((pc.spans t).is_used || ltb (npage_lists - 1) ((pc.spans s).npage + (pc.spans t).npage))) [
          | inl busy ↦ inl (
            rw (find_neighbour, e, busy) refl,
            inr (t, e, too_much (pc.spans t).is_used (pc.spans s).npage (pc.spans t).npage busy),
          )
          | inr free ↦ inr (
            t,
            rw (find_neighbour, e, free) refl,
            record { mapped = e; unused = ground (arith, free); fits = ground (arith, free) },
          )
        ]
]
  where
    too_much :
        (used : Bool) (a b : ℕ)
        → used || ltb (npage_lists - 1) (a + b) ≡ true
        → (used ≡ true) ⊎ (npage_lists ≤ a + b)
    too_much true a b h = inl refl
    too_much false a b h = inr (ground (arith, h))

-- Taking a page out of the map adds no entry.
pub cleared_page :
    (map : ℕ → Option ℕ) (page p u : ℕ)
    → update map page none p ≡ some u
    → (p ≢ page) × (map p ≡ some u)
unfolding update
cleared_page map page p u h = elim (Bool-cases (p == page)) [
  | inl e ↦
      let gone : update map page none p ≡ none = rw (e, update) refl in
      absurd (none_some (sym gone ∙ h))
  | inr e ↦
      let same : update map page none p ≡ map p = rw (e, update) refl in
      (ground (arith, e), sym same ∙ h)
]
  where
    none_some : none ≡ some u → ⊥
    none_some e = cc

cleared_shrink :
    (map : ℕ → Option ℕ) (page p : ℕ)
    → (update map page none p ≡ none) ⊎ (update map page none p ≡ map p)
unfolding update
cleared_shrink map page p = elim (Bool-cases (p == page)) [
  | inl e ↦ inl (rw (e, update) refl)
  | inr e ↦ inr (rw (e, update) refl)
]

pub cleared_ends_shrink :
    (map : ℕ → Option ℕ) (first last p : ℕ)
    → (update (update map first none) last none p ≡ none)
      ⊎ (update (update map first none) last none p ≡ map p)
cleared_ends_shrink map first last p = elim (cleared_shrink (update map first none) last p) [
  | inl e ↦ inl e
  | inr e ↦ elim (cleared_shrink map first p) [ inl e' ↦ inl (e ∙ e') | inr e' ↦ inr (e ∙ e') ]
]

pub cleared_ends :
    (map : ℕ → Option ℕ) (first last p u : ℕ)
    → update (update map first none) last none p ≡ some u
    → (p ≢ first) × (p ≢ last) × (map p ≡ some u)
cleared_ends map first last p u h =
    let (not_last, h') = cleared_page (update map first none) last p u h in
    let (not_first, old) = cleared_page map first p u h' in (not_first, not_last, old)

-- Mapping the ends of a span to it.
pub set_ends_cases :
    (map : ℕ → Option ℕ) (first last s p t : ℕ)
    → update (update map first (some s)) last (some s) p ≡ some t
    → ((s ≡ t) × ((p ≡ first) ⊎ (p ≡ last))) ⊎ (map p ≡ some t)
unfolding update
set_ends_cases map first last s p t h = elim (Bool-cases (p == last)) [
  | inl e ↦
      let at_last : update (update map first (some s)) last (some s) p ≡ some s =
        rw (e, update) refl in
      inl (some-injective (sym at_last ∙ h), inr (ground (arith, e)))
  | inr e ↦ elim (Bool-cases (p == first)) [
    | inl e' ↦
        let at_first : update (update map first (some s)) last (some s) p ≡ some s =
          rw (e, e', update) refl in
        inl (some-injective (sym at_first ∙ h), inl (ground (arith, e')))
    | inr e' ↦
        let old : update (update map first (some s)) last (some s) p ≡ map p =
          rw (e, e', update) refl in
        inr (sym old ∙ h)
  ]
]
  where
    some-injective : {a b : ℕ} → some a ≡ some b → a ≡ b
    some-injective e = cc

pub set_ends_other :
    (map : ℕ → Option ℕ) (first last s p : ℕ)
    → p ≢ first
    → p ≢ last
    → update (update map first (some s)) last (some s) p ≡ map p
unfolding update
set_ends_other map first last s p nf nl = ground (arith, nf, nl)

pub set_ends_first :
    (map : ℕ → Option ℕ) (first last s : ℕ)
    → update (update map first (some s)) last (some s) first ≡ some s
unfolding update
set_ends_first map first last s = ground arith

pub set_ends_last :
    (map : ℕ → Option ℕ) (first last s : ℕ)
    → update (update map first (some s)) last (some s) last ≡ some s
unfolding update
set_ends_last map first last s = ground arith

pub cleared_ends_other :
    (map : ℕ → Option ℕ) (first last p : ℕ)
    → p ≢ first
    → p ≢ last
    → update (update map first none) last none p ≡ map p
unfolding update
cleared_ends_other map first last p nf nl = ground (arith, nf, nl)
