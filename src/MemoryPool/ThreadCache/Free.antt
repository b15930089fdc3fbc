-- ===== src/MemoryPool/ThreadCache/Free.antt =====
-- ThreadCache::DeAllocate and ThreadCache::ListTooLong.
use linux_os.Base.{
  ℕ, suc, ◌+◌, ◌<◌, ◌≤◌, ◌≡◌, ◌≢◌, ◌⊎◌, inl, inr, refl, sym, ap, subst, ◌∙◌, List, [], ◌∷◌, ◌++◌,
  Option, none, some, true, false, arith, length, length-append, append-nil, leb, ◌==◌, update,
  Bool-cases,
}
use linux_os.MemoryPool.Memory.{Ptr, null, Memory, Chain}
use linux_os.MemoryPool.SizeClass.{max_bytes, round_up, index}
use linux_os.MemoryPool.FreeList.{FreeList, push, pop_range}
use linux_os.MemoryPool.FreeList.Laws.{Holds, push-Holds, pop_range-Holds}
use linux_os.MemoryPool.PageCache.Release.Erase.{Within}
use linux_os.MemoryPool.CentralCache.{CentralCache, release_list_to_spans}
use linux_os.MemoryPool.CentralCache.Accounts.{not_within, Within-right}
use linux_os.MemoryPool.CentralCache.Back.{ListBack, OutOf, release_list_to_spans-ListBack}
use linux_os.MemoryPool.CentralCache.Take.{at_self, at_other}
use linux_os.MemoryPool.ThreadCache.{ThreadCache, list_too_long, deallocate}
use linux_os.MemoryPool.ThreadCache.Laws.{Ready, Lent, one_cache, Balanced-memory, Holds-frame}
use linux_os.MemoryPool.ThreadCache.Allocate.{both_update}
use linux_os.MemoryPool.ThreadCache.Keep.{freelist_at, freelist_other}

-- What a call of free promises: the block is not lent any more, and the others as before.
pub record Freed (out cached : ℕ → List Ptr) (b : Ptr) (h' : ThreadCache) : Type 0 where
  pub free' : ℕ → List Ptr
  pub out' : ℕ → List Ptr
  pub cached' : ℕ → List Ptr
  pub ready : Ready h' free' out' cached'
  pub not_lent : Lent out' cached' b → ⊥
  pub still : (a : Ptr) → a ≢ b → Lent out cached a → Lent out' cached' a
  pub no_more : (a : Ptr) → Lent out' cached' a → Lent out cached a

-- A list with an element has a last one.
last_block :
    (x : Ptr) (xs : List Ptr) → (front : List Ptr) × (last : Ptr) × (x ∷ xs ≡ front ++ last ∷ [])
last_block x [] = ([], x, refl)
last_block x (y ∷ ys) =
    let (front, last, e) = last_block y ys in (x ∷ front, last, ap (λ (zs : List Ptr). x ∷ zs) e)

-- The block `b` goes into list `i`.
module _ (h : ThreadCache) (free out cached : ℕ → List Ptr) (r : Ready h free out cached) (i : ℕ)
    (b : Ptr) (not_null : b ≢ null) (lent : Lent out cached b)
    (here : Within lent.0.0 (h.central.span_lists i)) where
  abbrev more : List Ptr
  more = b ∷ cached i

  not_b : (j : ℕ) (a : Ptr) → Within a (cached j) → a ≢ b
  not_b j a w e = lent.1 j (subst (λ p. Within p (cached j)) e w)

  more-OutOf : OutOf h.central out i more
  more-OutOf a w = elim w [
    | inl e ↦ (lent.0.0, subst (λ p. Within p (out lent.0.0)) (sym e) lent.0.1, here)
    | inr v ↦ r.own i a v
  ]

  not_more : (j : ℕ) (a : Ptr) → Within a (cached j) → j ≢ i → Within a more → ⊥
  not_more j a w ne v = elim v [
    | inl e ↦ not_b j a w e
    | inr in_list ↦ ne (one_cache r j i a w in_list)
  ]

  pub pushed :
      (l : FreeList) × (m : Memory) × (push (h.freelists i) b h.central.memory ≡ some (l, m))
      × Holds m l more
      × (l.max_size ≡ (h.freelists i).max_size)
      × ((a : Ptr) → a ≢ b → m a ≡ h.central.memory a)
  pushed =
      let (l, m, runs, holds, max_same, same) =
        push-Holds h.central.memory (h.freelists i) (cached i) b (r.holds i) not_null
          (not_within b (cached i) (lent.1 i)) (omega (arith, r.few i, r.bounded i)) in
      (l, m, runs, holds, max_same, λ a ne. same a (ne, tt))

  module _ (l : FreeList) (m : Memory) (holds : Holds m l more)
      (max_same : l.max_size ≡ (h.freelists i).max_size)
      (same : (a : Ptr) → a ≢ b → m a ≡ h.central.memory a) where
    abbrev pub with_block : ThreadCache
    with_block = record {
      central = record (h.central) { memory = m };
      freelists = update h.freelists i l;
    }

    abbrev cached1 : ℕ → List Ptr
    cached1 = update cached i more

    of_cached1 :
        (j : ℕ) (a : Ptr) → Within a (cached1 j) → ((j ≡ i) × (a ≡ b)) ⊎ Within a (cached j)
    of_cached1 j a w = elim (Bool-cases (j == i)) [
      | inl eq ↦
          let at_i : j ≡ i = ground (arith, eq) in
          elim (subst (Within a) (at_self cached i more)
            (subst (λ k. Within a (cached1 k)) at_i w)) [
              | inl e ↦ inl (at_i, e)
              | inr v ↦ inr (subst (λ k. Within a (cached k)) (sym at_i) v)
            ]
      | inr ne ↦ inr (subst (Within a) (at_other cached i more j ne) w)
    ]

    in_cached1 : (j : ℕ) (a : Ptr) → Within a (cached j) → Within a (cached1 j)
    in_cached1 j a w = elim (Bool-cases (j == i)) [
      | inl eq ↦
          let at_i : j ≡ i = ground (arith, eq) in
          subst (λ k. Within a (cached1 k)) (sym at_i)
            (subst (Within a) (sym (at_self cached i more))
              (inr (subst (λ k. Within a (cached k)) at_i w)))
      | inr ne ↦ subst (Within a) (sym (at_other cached i more j ne)) w
    ]

    -- The list has room for it.
    pub pushed-Freed : length more < l.max_size → Freed out cached b with_block
    pushed-Freed room = record {
      free' = free;
      out' = out;
      cached' = cached1;
      ready = record {
        balanced = Balanced-memory m r.balanced (λ a never.
            same a (λ e. never lent.0.0 (subst (λ p. Within p (out lent.0.0)) (sym e) lent.0.1)));
        holds =
            both_update (λ j k xs. Holds m k xs) h.freelists cached i l more
              (λ j ne. Holds-frame (λ a w. same a (not_b j a w)) (r.holds j)) holds;
        own = λ j a w. elim (of_cached1 j a w) [
          | inl (at_i, e) ↦
              subst (λ k. (s : ℕ) × Within a (out s) × Within s (h.central.span_lists k)) (sym at_i)
                (more-OutOf a (inl e))
          | inr old ↦ r.own j a old
        ];
        few =
            both_update (λ j k xs. length xs < k.max_size) h.freelists cached i l more
              (λ j ne. r.few j) room;
        bounded =
            both_update (λ j k xs. k.max_size ≤ 513) h.freelists cached i l more
              (λ j ne. r.bounded j) (omega (arith, max_same, r.bounded i));
      };
      not_lent = λ v. v.1 i (subst (Within b) (sym (at_self cached i more)) (inl refl));
      still = λ a ne v.
          (v.0, λ j w. elim (of_cached1 j a w) [ inl (_, e) ↦ ne e | inr old ↦ v.1 j old ]);
      no_more = λ a v. (v.0, λ j w. v.1 j (in_cached1 j a w));
    }

    -- It has none: all its blocks go back to their spans.
    module _ (k : FreeList) (n : Memory) (emptied : Holds n k [])
        (max_kept : k.max_size ≡ l.max_size)
        (same_out : (a : Ptr) → (Within a more → ⊥) → n a ≡ h.central.memory a) (c' : CentralCache)
        (back : ListBack (record (h.central) { memory = n }) out more c') where
      abbrev cached2 : ℕ → List Ptr
      cached2 = update cached i []

      abbrev pub without : ThreadCache
      without = record { central = c'; freelists = update (update h.freelists i l) i k }

      of_cached2 : (j : ℕ) (a : Ptr) → Within a (cached2 j) → Within a (cached j) × (j ≢ i)
      of_cached2 j a w = elim (Bool-cases (j == i)) [
        | inl eq ↦
            let at_i : j ≡ i = ground (arith, eq) in
            absurd
              (subst (Within a) (at_self cached i []) (subst (λ u. Within a (cached2 u)) at_i w))
        | inr ne ↦ (subst (Within a) (at_other cached i [] j ne) w, ground (arith, ne))
      ]

      in_cached2 :
          (j : ℕ) (a : Ptr) → (Within a more → ⊥) → Within a (cached j) → Within a (cached2 j)
      in_cached2 j a v w = elim (Bool-cases (j == i)) [
        | inl eq ↦
            let at_i : j ≡ i = ground (arith, eq) in
            absurd (v (inr (subst (λ u. Within a (cached u)) at_i w)))
        | inr ne ↦ subst (Within a) (sym (at_other cached i [] j ne)) w
      ]

      old_list : (j : ℕ) → j ≢ i → update h.freelists i l j ≡ h.freelists j
      old_list j ne = freelist_other h.freelists i l j (ground (arith, ne))

      -- A block of another list is still out of a span of its size.
      still_own : (j : ℕ) → j ≢ i → OutOf c' back.out' j (cached j)
      still_own j ne a w =
          let (s, o, there) = r.own j a w in
          let o' = back.stays s a o (not_more j a w ne) in
          let (u, now) = back.balanced.listed s a o' in
          (
            s,
            o',
            subst (λ v. Within s (c'.span_lists v))
                (r.balanced.one_list u j s (back.within u s now) there) now,
          )

      pub without-Freed : Freed out cached b without
      without-Freed = record {
        free' = back.free';
        out' = back.out';
        cached' = cached2;
        ready = record {
          balanced = back.balanced;
          holds =
              both_update (λ j u xs. Holds c'.memory u xs) (update h.freelists i l) cached i k []
                (λ j ne.
                  subst (λ u. Holds c'.memory u (cached j)) (sym (old_list j ne))
                    (Holds-frame
                      (λ a w. back.same a (not_more j a w ne) ∙ same_out a (not_more j a w ne))
                      (r.holds j)))
                (Holds-frame (λ a w. absurd w) emptied);
          own = λ j a w. let (old, ne) = of_cached2 j a w in still_own j ne a old;
          few =
              both_update (λ j u xs. length xs < u.max_size) (update h.freelists i l) cached i k []
                (λ j ne.
                  subst (λ u. length (cached j) < u.max_size) (sym (old_list j ne)) (r.few j))
                (omega (arith, r.few i, max_same, max_kept));
          bounded =
              both_update (λ j u xs. u.max_size ≤ 513) (update h.freelists i l) cached i k []
                (λ j ne. subst (λ u. u.max_size ≤ 513) (sym (old_list j ne)) (r.bounded j))
                (omega (arith, r.bounded i, max_same, max_kept));
        };
        not_lent = λ v. (back.gone v.0.0 b v.0.1).1 (inl refl);
        still = λ a ne v. (
          (v.0.0, back.stays v.0.0 a v.0.1 (λ w. elim w [ inl e ↦ ne e | inr old ↦ v.1 i old ])),
          λ j w. v.1 j (of_cached2 j a w).0,
        );
        no_more = λ a v.
            let (o, not_back) = back.gone v.0.0 a v.0.1 in
            ((v.0.0, o), λ j w. v.1 j (in_cached2 j a not_back w));
      }

runs_push :
    (h : ThreadCache) (b size i : ℕ) (l : FreeList) (m : Memory)
    → size ≤ 262144
    → index (round_up size) ≡ some i
    → push (h.freelists i) b h.central.memory ≡ some (l, m)
    → leb l.max_size l.size ≡ false
    → deallocate h b size
      ≡ some (record {
        central = record (h.central) { memory = m };
        freelists = update h.freelists i l;
      })
unfolding deallocate
runs_push h b size i l m fits at pushes room =
    let small : leb max_bytes size ≡ false = ground (arith, fits) in
    rw (deallocate, small, at, pushes, room) refl

runs_empty :
    (h : ThreadCache) (b size i : ℕ) (l : FreeList) (m : Memory) {result : Option ThreadCache}
    → size ≤ 262144
    → index (round_up size) ≡ some i
    → push (h.freelists i) b h.central.memory ≡ some (l, m)
    → leb l.max_size l.size ≡ true
    → list_too_long
        (record { central = record (h.central) { memory = m }; freelists = update h.freelists i l })
        i
        (round_up size)
      ≡ result
    → deallocate h b size ≡ result
unfolding deallocate
runs_empty h b size i l m fits at pushes full goes =
    let small : leb max_bytes size ≡ false = ground (arith, fits) in
    rw (deallocate, small, at, pushes, full) goes

runs_too_long :
    (central c' : CentralCache) (lists : ℕ → FreeList) (i size count : ℕ) (k : FreeList)
    (start last : Ptr) (n : Memory)
    → count ≡ (lists i).max_size
    → pop_range (lists i) count central.memory ≡ (start, last, k, n)
    → release_list_to_spans (suc count) (record central { memory = n }) start size ≡ some c'
    → list_too_long (record { central = central; freelists = lists }) i size
      ≡ some (record { central = c'; freelists = update lists i k })
unfolding list_too_long
runs_too_long central c' lists i size count k start last n many pops releases =
    let at = subst (λ z. pop_range (lists i) z central.memory ≡ (start, last, k, n)) many pops in
    let runs =
      subst
        (λ z. release_list_to_spans (suc z) (record central { memory = n }) start size ≡ some c')
        many releases in
    subst
      (λ (t : Ptr × Ptr × FreeList × Memory).
        ◌≡◌ {A = Option ThreadCache}
          (elim (release_list_to_spans (suc (lists i).max_size) (record central { memory = t.3 })
            t.0 size) [
              | none ↦ none
              | some c ↦ some (record { central = c; freelists = update lists i t.2 })
            ])
          (some (record { central = c'; freelists = update lists i k })))
      (sym at) (rw (runs) refl)

-- DeAllocate of a block of up to 256 KB that is lent to the program, out of a span in the list of
-- that size, on a thread cache in order: it returns, that block is lent no more, all others that were
-- lent still are and no others, and the thread cache, the central cache and the page cache are in order.
pub deallocate-Freed :
    (h : ThreadCache) (free out cached : ℕ → List Ptr) (size i : ℕ) (b : Ptr)
    → Ready h free out cached
    → size ≤ 262144
    → index (round_up size) ≡ some i
    → b ≢ null
    → (lent : Lent out cached b) → Within lent.0.0 (h.central.span_lists i)
    → (h' : ThreadCache) × (deallocate h b size ≡ some h') × Freed out cached b h'
deallocate-Freed h free out cached size i b r fits at ne lent here =
    let (l, m, pushes, holds, max_same, same) = pushed h free out cached r i b ne lent here in
    elim (Bool-cases (leb l.max_size l.size)) [
      | inr room ↦
          let less : length (b ∷ cached i) < l.max_size = ground (arith, room, holds.count) in
          (
            with_block h free out cached r i b ne lent here l m holds max_same same,
            runs_push h b size i l m fits at pushes room,
            pushed-Freed h free out cached r i b ne lent here l m holds max_same same less,
          )
      | inl full ↦
          let (front, last, e) = last_block b (cached i) in
          let more_or_equal : l.max_size ≤ l.size = ground (arith, full) in
          let len_e : length (b ∷ cached i) ≡ length (front ++ last ∷ []) =
            ap (λ (zs : List Ptr). length zs) e in
          let many : length front + 1 ≡ l.max_size = omega (
            arith,
            r.few i,
            max_same,
            more_or_equal,
            holds.count,
            len_e,
            length-append front (last ∷ []),
          ) in
          let (k, n, pops, chain, emptied, max_kept, outside) =
            pop_range-Holds m l front [] last
              (subst (Holds m l) (e ∙ sym (append-nil (front ++ last ∷ []))) holds) in
          let same_out : (a : Ptr) → (Within a (b ∷ cached i) → ⊥) → n a ≡ h.central.memory a =
            λ a v.
              outside a (
                (λ eq. v (subst (Within a) (sym e) (Within-right a front (last ∷ []) (inl eq)))),
                tt,
              )
              ∙ same a (λ eq. v (inl eq)) in
          let (c', releases, back) =
            release_list_to_spans-ListBack (record (h.central) { memory = n }) free out
              (round_up size) i l.freelist (b ∷ cached i)
              (Balanced-memory n r.balanced (λ a never. same_out a (λ w.
                let (s, o, _) = more-OutOf h free out cached r i b ne lent here a w in never s o)))
              at (subst (Chain n l.freelist) (sym e) chain)
              (more-OutOf h free out cached r i b ne lent here) in
          (
            without h free out cached r i b ne lent here l m holds max_same same k n emptied
                max_kept same_out c' back,
            runs_empty h b size i l m fits at pushes full (
                runs_too_long (record (h.central) { memory = m }) c' (update h.freelists i l) i
                  (round_up size) (length front + 1) k l.freelist last n
                  (many ∙ ap (λ (z : FreeList). z.max_size) (sym (freelist_at h.freelists i l)))
                  (subst (λ z. pop_range z (length front + 1) m ≡ (l.freelist, last, k, n))
                    (sym (freelist_at h.freelists i l)) pops)
                  (subst
                    (λ z.
                      release_list_to_spans (suc z) (record (h.central) { memory = n }) l.freelist
                        (round_up size)
                      ≡ some c')
                    (len_e ∙ length-append front (last ∷ [])) releases)),
            without-Freed h free out cached r i b ne lent here l m holds max_same same k n emptied
                max_kept same_out c' back,
          )
    ]
