-- ===== src/MemoryPool/PageCache/Release/Order.antt =====
-- The order of the page cache that ReleaseSpanToPageCache keeps.
use linux_os.Base.{
  ℕ, ◌+◌, ◌-◌, ◌<◌, ◌≤◌, ◌≡◌, ◌≢◌, ◌⊎◌, inl, inr, subst, List, none, some, true, false, arith, ◌==◌,
  Bool-cases,
}
use linux_os.MemoryPool.PageCache.{Span, PageCache, npage_lists}
use linux_os.MemoryPool.PageCache.Lists.{IsStocked, Apart}
use linux_os.MemoryPool.PageCache.Release.{Side, backward, forward, page_before}
use linux_os.MemoryPool.PageCache.Release.Erase.{Within}

-- Page `p` is mapped to span `t` rightly: it is one of its pages, and where the span is in no use, it
-- is the first or the last and the span is in its list.
pub record EntryOf (next_span : ℕ) (lists : ℕ → List ℕ) (span : Span) (p t : ℕ) : Type 0 where
  pub made : t < next_span
  pub start : 0 < span.page_id
  pub from : span.page_id ≤ p
  pub to : p < span.page_id + span.npage
  pub held :
      (span.is_used ≡ true)
      ⊎ (Within t (lists span.npage) × ((p ≡ span.page_id) ⊎ (p ≡ span.page_id + span.npage - 1)))

abbrev pub Entry : PageCache → ℕ → ℕ → Type 0
Entry pc p t = EntryOf pc.next_span pc.span_lists (pc.spans t) p t

abbrev pub Covers : Span → ℕ → Type 0
Covers span q = (span.page_id ≤ q) × (q < span.page_id + span.npage)

abbrev pub Listed : PageCache → ℕ → Type 0
Listed pc t = Within t (pc.span_lists (pc.spans t).npage)

-- A span in a list, or one in use to which a page is mapped.
abbrev pub Live : PageCache → ℕ → Type 0
Live pc t = Listed pc t ⊎ (((pc.spans t).is_used ≡ true) × (p : ℕ) × (pc.id_span_map p ≡ some t))

-- No two spans share a page, every page of a span in use is mapped to it, and no list has page 0.
pub record Separate (pc : PageCache) : Type 0 where
  pub whole :
      (p q t : ℕ)
      → pc.id_span_map p ≡ some t
      → (pc.spans t).is_used ≡ true
      → Covers (pc.spans t) q
      → pc.id_span_map q ≡ some t
  pub separate :
      (t u q : ℕ) → Live pc t → Live pc u → Covers (pc.spans t) q → Covers (pc.spans u) q → t ≡ u
  pub start : (t : ℕ) → Listed pc t → 0 < (pc.spans t).page_id

-- The cache while the span `s`, to which no page is mapped, takes in others.
pub record Merging (pc : PageCache) (s : ℕ) : Type 0 where
  pub stocked : IsStocked pc
  pub apart : Apart pc s
  pub made : s < pc.next_span
  pub start : 0 < (pc.spans s).page_id
  pub some_page : 0 < (pc.spans s).npage
  pub small : (pc.spans s).npage < npage_lists
  pub entries : (p t : ℕ) → pc.id_span_map p ≡ some t → (t ≢ s) × Entry pc p t
  pub separate : Separate pc
  pub beside : (t q : ℕ) → Live pc t → Covers (pc.spans t) q → Covers (pc.spans s) q → ⊥

-- An entry stays right where lists grow.
pub EntryOf-more :
    {n p t : ℕ} {lists lists' : ℕ → List ℕ} {span : Span}
    → ((i : ℕ) → Within t (lists i) → Within t (lists' i))
    → EntryOf n lists span p t
    → EntryOf n lists' span p t
EntryOf-more {span = span} f en = record {
  made = en.made;
  start = en.start;
  from = en.from;
  to = en.to;
  held = elim en.held [ inl used ↦ inl used | inr (here, ends) ↦ inr (f span.npage here, ends) ];
}

pub EntryOf-later :
    {n n' p t : ℕ} {lists : ℕ → List ℕ} {span : Span}
    → n ≤ n'
    → EntryOf n lists span p t
    → EntryOf n' lists span p t
EntryOf-later le en = record {
  made = omega (arith, le, en.made);
  start = en.start;
  from = en.from;
  to = en.to;
  held = en.held;
}

-- Where a span `s` joins others that share no page with each other or with it, no two share a page.
pub pairwise :
    (spans spans' : ℕ → Span) (In In' : ℕ → Type 0) (s : ℕ)
    → ((q : ℕ) → Covers (spans' s) q → Covers (spans s) q)
    → ((u q : ℕ) → u ≢ s → In' u → Covers (spans' u) q → Covers (spans u) q)
    → ((u : ℕ) → u ≢ s → In' u → In u)
    → ((u v q : ℕ) → In u → In v → Covers (spans u) q → Covers (spans v) q → u ≡ v)
    → ((u q : ℕ) → In u → Covers (spans u) q → Covers (spans s) q → ⊥)
    → (u v q : ℕ) → In' u
    → In' v
    → Covers (spans' u) q
    → Covers (spans' v) q
    → u ≡ v
pairwise spans spans' In In' s own other old separate beside u v q lu lv cu cv =
    elim (Bool-cases (u == s)) [
      | inl eu ↦ elim (Bool-cases (v == s)) [
        | inl ev ↦ ground (arith, eu, ev)
        | inr nv ↦
            let ne : v ≢ s = ground (arith, nv) in
            let same : u ≡ s = ground (arith, eu) in
            absurd (
              beside v q (old v ne lv) (other v q ne lv cv)
                (own q (subst (λ w. Covers (spans' w) q) same cu)))
      ]
      | inr nu ↦
          let ne : u ≢ s = ground (arith, nu) in
          elim (Bool-cases (v == s)) [
            | inl ev ↦
                let same : v ≡ s = ground (arith, ev) in
                absurd (
                  beside u q (old u ne lu) (other u q ne lu cu)
                    (own q (subst (λ w. Covers (spans' w) q) same cv)))
            | inr nv ↦
                let ne' : v ≢ s = ground (arith, nv) in
                separate u v q (old u ne lu) (old v ne' lv) (other u q ne lu cu)
                  (other v q ne' lv cv)
          ]
    ]

-- What the search beside a span finds.
pub record Found (pc : PageCache) (s id t : ℕ) : Type 0 where
  pub mapped : pc.id_span_map id ≡ some t
  pub unused : (pc.spans t).is_used ≡ false
  pub fits : (pc.spans s).npage + (pc.spans t).npage < npage_lists

-- No span beside `s` at page `id` that it could take in: none is mapped, it is in use, or both
-- together have too many pages.
abbrev pub Blocked : PageCache → ℕ → ℕ → Type 0
Blocked pc s id =
    (pc.id_span_map id ≡ none)
    ⊎ ((t : ℕ) × (pc.id_span_map id ≡ some t)
        × (((pc.spans t).is_used ≡ true) ⊎ (npage_lists ≤ (pc.spans s).npage + (pc.spans t).npage)))

-- The pages of `a` are among those of `b`.
pub record Among (a b : Span) : Type 0 where
  pub from : b.page_id ≤ a.page_id
  pub to : a.page_id + a.npage ≤ b.page_id + b.npage
  pub size : a.npage ≤ b.npage

-- `b` has the first page of `a`, where pages are taken in behind it.
abbrev pub SameStart : Side → Span → Span → Type 0
SameStart backward a b = Unit {0}
SameStart forward a b = b.page_id ≡ a.page_id

-- What a loop may change: `s` gets more pages, and some pages are mapped to nothing.
pub record Wider (pc pc' : PageCache) (s : ℕ) : Type 0 where
  pub among : Among (pc.spans s) (pc'.spans s)
  pub shrunk : (p : ℕ) → (pc'.id_span_map p ≡ none) ⊎ (pc'.id_span_map p ≡ pc.id_span_map p)
  pub others : (u : ℕ) → u ≢ s → pc'.spans u ≡ pc.spans u
  pub used : (pc'.spans s).is_used ≡ (pc.spans s).is_used
  pub kept :
      (p t : ℕ)
      → pc.id_span_map p ≡ some t
      → (pc.spans t).is_used ≡ true
      → pc'.id_span_map p ≡ some t

-- The lists and the page map are in order.
pub record InOrder (pc : PageCache) : Type 0 where
  pub stocked : IsStocked pc
  pub entries : (p t : ℕ) → pc.id_span_map p ≡ some t → Entry pc p t
  pub separate : Separate pc

-- What ReleaseSpanToPageCache promises: the cache is in order, and the span, in no use and in its list,
-- has all of its pages and at most 128, with its first and last page mapped to it; no span beside it
-- could be taken in. The other spans are as they were, those in use with their pages.
pub record Returned (pc pc' : PageCache) (s : ℕ) : Type 0 where
  pub order : InOrder pc'
  pub unused : (pc'.spans s).is_used ≡ false
  pub among : Among (pc.spans s) (pc'.spans s)
  pub small : (pc'.spans s).npage < npage_lists
  pub listed : Within s (pc'.span_lists (pc'.spans s).npage)
  pub first : pc'.id_span_map (pc'.spans s).page_id ≡ some s
  pub last : pc'.id_span_map ((pc'.spans s).page_id + (pc'.spans s).npage - 1) ≡ some s
  pub before : Blocked pc' s (page_before (pc'.spans s).page_id)
  pub behind : Blocked pc' s ((pc'.spans s).page_id + (pc'.spans s).npage)
  pub kept :
      (p t : ℕ)
      → t ≢ s
      → pc.id_span_map p ≡ some t
      → (pc.spans t).is_used ≡ true
      → (pc'.id_span_map p ≡ some t) × (pc'.spans t ≡ pc.spans t)
  pub others : (u : ℕ) → u ≢ s → pc'.spans u ≡ pc.spans u
