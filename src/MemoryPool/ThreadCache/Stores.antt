-- ===== src/MemoryPool/ThreadCache/Stores.antt =====
-- What a program may write into the blocks that it has.
use native.Mathlib.Nat.{mul-le-mul_right}
use linux_os.Base.{
  ℕ, suc, ◌+◌, ◌*◌, ◌/◌, ◌%◌, ◌≤◌, ◌≡◌, ◌≢◌, inl, inr, sym, subst, ◌∙◌, List, some, arith, ltb,
  Bool-cases,
}
use linux_os.MemoryPool.Memory.{Ptr, set_next, set_next-SameOutside}
use linux_os.MemoryPool.SizeClass.{page_size}
use linux_os.MemoryPool.PageCache.{page_to_span}
use linux_os.MemoryPool.PageCache.Release.Erase.{Within}
use linux_os.MemoryPool.CentralCache.Accounts.{OnSpan, OnGrid}
use linux_os.MemoryPool.ThreadCache.{ThreadCache}
use linux_os.MemoryPool.ThreadCache.Laws.{Ready, Lent, Balanced-links, Holds-frame}

-- The program writes the word `v` at address `a`.
abbrev pub stored : ThreadCache → Ptr → Ptr → ThreadCache
stored h a v = record h { central = record (h.central) { memory = set_next h.central.memory a v } }

-- The word at `a` lies in block `b`, and on a page of its span: the last block of a span may reach
-- beyond these.
pub record InBlock (h : ThreadCache) (b a : Ptr) : Type 0 where
  pub span : ℕ
  pub block_page : page_to_span h.central.pages (b / page_size) ≡ some span
  pub own_page : page_to_span h.central.pages (a / page_size) ≡ some span
  pub from : b ≤ a
  pub to : a + 8 ≤ b + (h.central.pages.spans span).obj_size
  pub aligned : a % 8 ≡ 0

-- No other block of the span begins inside a block.
one_block :
    (base size k k' b x : ℕ)
    → b ≡ base + k * size
    → x ≡ base + k' * size
    → b ≤ x
    → x + 8 ≤ b + size
    → x ≡ b
one_block base size k k' b x eb ex lo hi = elim (Bool-cases (ltb k k')) [
  | inl more ↦
      let le : suc k * size ≤ k' * size = mul-le-mul_right size (ground (arith, more)) in
      absurd (omega (arith, eb, ex, hi, le))
  | inr not_more ↦
      let le : k' * size ≤ k * size = mul-le-mul_right size (ground (arith, not_more)) in
      omega (arith, eb, ex, lo, le)
]

module _ (h : ThreadCache) (free out cached : ℕ → List Ptr) (r : Ready h free out cached)
    (b a : Ptr) (lent : Lent out cached b) (inside : InBlock h b a) where
  own_span : lent.0.0 ≡ inside.span
  unfolding page_to_span
  own_span =
      let (i, here) = r.balanced.listed lent.0.0 b lent.0.1 in
      some-injective
        (sym ((r.balanced.accounts i lent.0.0 here).out_on b lent.0.1) ∙ inside.block_page)
    where
      some-injective : {x y : ℕ} → some x ≡ some y → x ≡ y
      some-injective e = cc

  -- A block in hand that begins at the word is `b`.
  same_block :
      (t : ℕ) (x : Ptr)
      → OnSpan h.central.pages.id_span_map t x
      → OnGrid (h.central.pages.spans t) x
      → x ≡ a
      → (t ≡ lent.0.0) × (x ≡ b)
  unfolding page_to_span
  same_block t x on (k', ex) e =
      let (i, here) = r.balanced.listed lent.0.0 b lent.0.1 in
      let (k, eb) = (r.balanced.accounts i lent.0.0 here).out_grid b lent.0.1 in
      let at_a = subst (OnSpan h.central.pages.id_span_map t) e on in
      let same : t ≡ lent.0.0 = some-injective (sym at_a ∙ inside.own_page) ∙ sym own_span in
      let to =
        subst (λ s. a + 8 ≤ b + (h.central.pages.spans s).obj_size) (sym own_span) inside.to in
      let span = h.central.pages.spans lent.0.0 in
      let ex' =
        subst
          (λ s.
            x
            ≡ (h.central.pages.spans s).page_id * page_size
              + k' * (h.central.pages.spans s).obj_size)
          same ex in
      (
        same,
        one_block (span.page_id * page_size) span.obj_size k k' b x eb ex'
            (omega (arith, e, inside.from)) (omega (arith, e, to)),
      )
    where
      some-injective : {x y : ℕ} → some x ≡ some y → x ≡ y
      some-injective e = cc

  -- It is the link of no block that is free or in a list of the thread.
  pub stored-Ready : (v : Ptr) → Ready (stored h a v) free out cached
  stored-Ready v =
      let same : (x : Ptr) → x ≢ a → set_next h.central.memory a v x ≡ h.central.memory x =
        λ x ne. set_next-SameOutside h.central.memory a v x (ne, tt) in
      record {
        balanced = Balanced-links (set_next h.central.memory a v) r.balanced (λ i t there x f.
            same x (λ e.
              let acc = r.balanced.accounts i t there in
              let (span_eq, eq) = same_block t x (acc.free_on x f) (acc.free_grid x f) e in
              acc.apart b (subst (λ y. Within y (free t)) eq f)
                (subst (λ s. Within b (out s)) (sym span_eq) lent.0.1)));
        holds = λ j.
            Holds-frame
              (λ x w. same x (λ e.
                let (t, o, there) = r.own j x w in
                let acc = r.balanced.accounts j t there in
                let (_, eq) = same_block t x (acc.out_on x o) (acc.out_grid x o) e in
                lent.1 j (subst (λ y. Within y (cached j)) eq w)))
              (r.holds j);
        own = r.own;
        few = r.few;
        bounded = r.bounded;
      }
