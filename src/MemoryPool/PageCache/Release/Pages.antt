-- ===== src/MemoryPool/PageCache/Release/Pages.antt =====
-- The pages of a span that takes in its neighbour.
use linux_os.Base.{ℕ, zero, suc, ◌+◌, ◌-◌, ◌<◌, ◌≤◌, ◌≡◌, ◌≢◌, ◌⊎◌, inl, inr, refl, arith}
use native.Mathlib.Decide.{dec_le, dec_lt}
use linux_os.MemoryPool.PageCache.{Span}
use linux_os.MemoryPool.PageCache.Release.{
  Side, backward, forward, merged_page_id, page_before, page_beside,
}
use linux_os.MemoryPool.PageCache.Release.Order.{Among, Covers, SameStart}

pub merged_start :
    (side : Side) (a b : Span) → 0 < a.page_id → 0 < b.page_id → 0 < merged_page_id side a b
merged_start backward a b h h' = h'
merged_start forward a b h h' = h

-- The loops take page `page_before n` for `n - 1`.
page_before_lem : (n : ℕ) → 0 < n → suc (page_before n) ≡ n
page_before_lem zero h = absurd (omega (arith, h))
page_before_lem (suc n) h = refl

unfoldable pub merged_span : Side → Span → Span → Span
merged_span side a b = record a { page_id = merged_page_id side a b; npage = a.npage + b.npage }

pub merged_span-Among :
    (side : Side) (a b : Span)
    → 0 < a.page_id
    → b.page_id ≤ page_beside side a
    → page_beside side a < b.page_id + b.npage
    → Among a (merged_span side a b)
      × SameStart side a (merged_span side a b)
      × (a.npage < a.npage + b.npage)
unfolding merged_span
merged_span-Among backward a b pos from to =
    let e = page_before_lem a.page_id pos in
    (
      record { from = omega (arith, e, from); to = omega (arith, e, to); size = omega arith },
      tt,
      omega (arith, from, to),
    )
merged_span-Among forward a b pos from to = (
  record { from = omega arith; to = omega arith; size = omega arith },
  refl,
  omega (arith, from, to),
)

-- A span at whose first or last page the search ends, and that shares no page with `a`, is next to it.
module _ (a b : Span) (start : 0 < a.page_id) (some_page : 0 < a.npage)
    (apart : (q : ℕ) → Covers b q → Covers a q → ⊥) where
  next_backward :
      Covers b (page_before a.page_id)
      → (page_before a.page_id ≡ b.page_id) ⊎ (page_before a.page_id ≡ b.page_id + b.npage - 1)
      → b.page_id + b.npage ≡ a.page_id
  next_backward (from, to) (inr last) =
      let e = page_before_lem a.page_id start in omega (arith, e, from, to, last)
  next_backward (from, to) (inl first) =
      let e = page_before_lem a.page_id start in
      elim (dec_le b.npage 1) [
        | yes one ↦ omega (arith, e, from, to, first)
        | no more ↦ absurd (
            apart a.page_id (omega (arith, e, first), omega (arith, e, first))
              (omega arith, omega (arith, some_page)))
      ]

  next_forward :
      Covers b (a.page_id + a.npage)
      → (a.page_id + a.npage ≡ b.page_id) ⊎ (a.page_id + a.npage ≡ b.page_id + b.npage - 1)
      → b.page_id ≡ a.page_id + a.npage
  next_forward (from, to) (inl first) = omega (arith, first)
  next_forward (from, to) (inr last) = elim (dec_le b.npage 1) [
    | yes one ↦ omega (arith, from, to, last)
    | no more ↦ absurd (
        apart (a.page_id + a.npage - 1) (omega (arith, last), omega (arith, last, some_page))
          (omega (arith, some_page), omega (arith, some_page)))
  ]

  pub merged_span-Covers :
      (side : Side)
      → Covers b (page_beside side a)
      → (page_beside side a ≡ b.page_id) ⊎ (page_beside side a ≡ b.page_id + b.npage - 1)
      → (q : ℕ) → Covers (merged_span side a b) q
      → Covers b q ⊎ Covers a q
  unfolding merged_span
  merged_span-Covers backward c ends q (from, to) =
      let e = next_backward c ends in
      elim (dec_lt q a.page_id) [
        | yes lt ↦ inl (from, omega (arith, e, lt))
        | no ge ↦ inr (omega arith, omega (arith, e, to))
      ]
  merged_span-Covers forward c ends q (from, to) =
      let e = next_forward c ends in
      elim (dec_lt q b.page_id) [
        | yes lt ↦ inr (from, omega (arith, e, lt))
        | no ge ↦ inl (omega arith, omega (arith, e, to))
      ]

pub before_first : {n : ℕ} → 0 < n → page_before n ≢ n
before_first {n = zero} h = absurd (omega (arith, h))
before_first {n = suc n} h = omega arith

pub before_last : {n k : ℕ} → 0 < n → 0 < k → page_before n ≢ n + k - 1
before_last {n = zero} {k = k} h h' = absurd (omega (arith, h))
before_last {n = suc n} {k = k} h h' = omega (arith, h')
