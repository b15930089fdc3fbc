-- ===== src/MemoryPool/ThreadCache/Refill.antt =====
-- ThreadCache::FetchFromCentralCache, on an empty list.
use linux_os.Base.{
  ℕ, ◌<◌, ◌≤◌, ◌≡◌, ◌⊎◌, inl, inr, refl, sym, subst, ◌∙◌, List, [], ◌∷◌, ◌++◌, false, arith, length,
  NotIn, ◌==◌, update, Bool-cases,
}
use linux_os.MemoryPool.Memory.{Ptr, Memory, Chain}
use linux_os.MemoryPool.FreeList.{FreeList}
use linux_os.MemoryPool.FreeList.Laws.{Holds}
use linux_os.MemoryPool.Carve.{Taken}
use linux_os.MemoryPool.PageCache.Release.Erase.{Within}
use linux_os.MemoryPool.CentralCache.{CentralCache}
use linux_os.MemoryPool.CentralCache.Accounts.{
  NotIn-Within, Within-append, Within-left, Within-right,
}
use linux_os.MemoryPool.CentralCache.Take.{Fetched, at_self, at_other}
use linux_os.MemoryPool.ThreadCache.{ThreadCache}
use linux_os.MemoryPool.ThreadCache.Laws.{Ready, Allocated, Balanced-memory, Holds-frame}

-- The batch `b ∷ ys` has come: `b` is for the program, list `i`, which was empty, holds `ys`.
module _ (h : ThreadCache) (free out cached : ℕ → List Ptr) (r : Ready h free out cached) (i n : ℕ)
    (empty : cached i ≡ []) (taken : Taken) (c' : CentralCache)
    (got : Fetched h.central out i n taken c') (b : Ptr) (ys : List Ptr) (e : got.blocks ≡ b ∷ ys)
    (m : Memory) (same : (a : Ptr) → (Within a ys → ⊥) → m a ≡ c'.memory a) (lists : ℕ → FreeList)
    (others : (j : ℕ) → j == i ≡ false → lists j ≡ h.freelists j) (holds : Holds m (lists i) ys)
    (few : length ys < (lists i).max_size) (bounded : (lists i).max_size ≤ 513) where
  abbrev out' : ℕ → List Ptr
  out' = update out got.span (got.blocks ++ out got.span)

  abbrev cached' : ℕ → List Ptr
  cached' = update cached i ys

  abbrev refilled : ThreadCache
  refilled = record { central = record c' { memory = m }; freelists = lists }

  in_blocks : (a : Ptr) → Within a ys → Within a got.blocks
  in_blocks a w = subst (Within a) (sym e) (inr w)

  b_in : Within b got.blocks
  b_in = subst (Within b) (sym e) (inl refl)

  blocks_out : (a : Ptr) → Within a got.blocks → Within a (out' got.span)
  blocks_out a w =
      subst (Within a) (sym (at_self out got.span (got.blocks ++ out got.span)))
        (Within-left a got.blocks (out got.span) w)

  in_out : (t : ℕ) (a : Ptr) → Within a (out t) → Within a (out' t)
  in_out t a w = elim (Bool-cases (t == got.span)) [
    | inl eq ↦
        let at_span : got.span ≡ t = ground (arith, eq) in
        subst (λ u. Within a (out' u)) at_span
          (subst (Within a) (sym (at_self out got.span (got.blocks ++ out got.span))) (
            Within-right a got.blocks (out got.span)
              (subst (λ u. Within a (out u)) (sym at_span) w)))
    | inr ne ↦ subst (Within a) (sym (at_other out got.span (got.blocks ++ out got.span) t ne)) w
  ]

  of_out : (t : ℕ) (a : Ptr) → Within a (out' t) → Within a got.blocks ⊎ Within a (out t)
  of_out t a w = elim (Bool-cases (t == got.span)) [
    | inl eq ↦
        let at_span : t ≡ got.span = ground (arith, eq) in
        elim (Within-append a got.blocks (out got.span) (
          subst (Within a) (at_self out got.span (got.blocks ++ out got.span))
            (subst (λ u. Within a (out' u)) at_span w))) [
              | inl new ↦ inl new
              | inr old ↦ inr (subst (λ u. Within a (out u)) (sym at_span) old)
            ]
    | inr ne ↦ inr (subst (Within a) (at_other out got.span (got.blocks ++ out got.span) t ne) w)
  ]

  -- The blocks of the batch are in no list yet.
  not_cached : (j : ℕ) (a : Ptr) → Within a (cached j) → Within a got.blocks → ⊥
  not_cached j a w v = let (s, o, _) = r.own j a w in got.new a v s o

  of_cached :
      (j : ℕ) (a : Ptr) → Within a (cached' j) → ((j ≡ i) × Within a ys) ⊎ Within a (cached j)
  of_cached j a w = elim (Bool-cases (j == i)) [
    | inl eq ↦
        let at_i : j ≡ i = ground (arith, eq) in
        inl
          (at_i, subst (Within a) (at_self cached i ys) (subst (λ k. Within a (cached' k)) at_i w))
    | inr ne ↦ inr (subst (Within a) (at_other cached i ys j ne) w)
  ]

  in_cached : (j : ℕ) (a : Ptr) → Within a (cached j) → Within a (cached' j)
  in_cached j a w = elim (Bool-cases (j == i)) [
    | inl eq ↦
        let at_i : j ≡ i = ground (arith, eq) in
        absurd (subst (Within a) empty (subst (λ k. Within a (cached k)) at_i w))
    | inr ne ↦ subst (Within a) (sym (at_other cached i ys j ne)) w
  ]

  ys_cached : (a : Ptr) → Within a ys → Within a (cached' i)
  ys_cached a w = subst (Within a) (sym (at_self cached i ys)) w

  -- What was cached is as it was.
  old_link : (j : ℕ) (a : Ptr) → Within a (cached j) → m a ≡ h.central.memory a
  old_link j a w =
      let (s, o, _) = r.own j a w in same a (λ v. not_cached j a w (in_blocks a v)) ∙ got.same a s o

  by_list :
      (Q : ℕ → FreeList → List Ptr → Type 0)
      → Q i (lists i) ys
      → ((j : ℕ) → Q j (h.freelists j) (cached j))
      → (j : ℕ) → Q j (lists j) (cached' j)
  by_list Q own old j = elim (Bool-cases (j == i)) [
    | inl eq ↦
        let at_i : i ≡ j = ground (arith, eq) in
        subst (λ k. Q k (lists k) (cached' k)) at_i
          (subst (Q i (lists i)) (sym (at_self cached i ys)) own)
    | inr ne ↦
        subst (λ l. Q j l (cached' j)) (sym (others j ne))
          (subst (Q j (h.freelists j)) (sym (at_other cached i ys j ne)) (old j))
  ]

  not_b : NotIn b ys
  not_b = (subst (λ zs. Chain c'.memory taken.start zs) e got.chain).2

  pub refilled-Allocated : Allocated h out cached i b refilled
  refilled-Allocated = record {
    free' = got.free';
    out' = out';
    cached' = cached';
    ready = record {
      balanced =
          Balanced-memory m got.balanced
            (λ a never. same a (λ w. never got.span (blocks_out a (in_blocks a w))));
      holds = by_list (λ j l xs. Holds m l xs) holds (λ j. Holds-frame (old_link j) (r.holds j));
      own = λ j a w. elim (of_cached j a w) [
        | inl (at_i, v) ↦ (
          got.span,
          blocks_out a (in_blocks a v),
          subst (λ k. Within got.span (c'.span_lists k)) (sym at_i) got.listed,
        )
        | inr old ↦ let (s, o, there) = r.own j a old in (s, in_out s a o, got.kept j s there)
      ];
      few = by_list (λ j l xs. length xs < l.max_size) few r.few;
      bounded = by_list (λ j l xs. l.max_size ≤ 513) bounded r.bounded;
    };
    was_free = λ lent. got.new b b_in lent.0.0 lent.0.1;
    lent = (
      (got.span, blocks_out b b_in),
      λ j w. elim (of_cached j b w) [
        | inl (_, v) ↦ NotIn-Within b b ys not_b v refl
        | inr old ↦ not_cached j b old b_in
      ],
    );
    listed = got.listed;
    not_null = (subst (λ zs. Chain c'.memory taken.start zs) e got.chain).1;
    still = λ a lent. (
      (lent.0.0, in_out lent.0.0 a lent.0.1),
      λ j w. elim (of_cached j a w) [
        | inl (_, v) ↦ got.new a (in_blocks a v) lent.0.0 lent.0.1
        | inr old ↦ lent.1 j old
      ],
    );
    no_more = λ a lent. elim (of_out lent.0.0 a lent.0.1) [
      | inl new ↦ elim (subst (Within a) e new) [
        | inl ab ↦ inl ab
        | inr v ↦ absurd (lent.1 i (ys_cached a v))
      ]
      | inr old ↦ inr ((lent.0.0, old), λ j w. lent.1 j (in_cached j a w))
    ];
  }
