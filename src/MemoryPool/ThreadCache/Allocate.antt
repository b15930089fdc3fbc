-- ===== src/MemoryPool/ThreadCache/Allocate.antt =====
-- ThreadCache::Allocate.
use linux_os.Base.{
  ℕ, ◌<◌, ◌≤◌, ◌≡◌, ◌≢◌, inl, inr, refl, sym, subst, List, ◌∷◌, arith, length, ◌==◌, update,
  Bool-cases,
}
use linux_os.MemoryPool.Memory.{Ptr}
use linux_os.MemoryPool.FreeList.{FreeList}
use linux_os.MemoryPool.FreeList.Laws.{Holds}
use linux_os.MemoryPool.PageCache.Release.Erase.{Within}
use linux_os.MemoryPool.CentralCache.Accounts.{NotIn-Within}
use linux_os.MemoryPool.CentralCache.Take.{at_self, at_other}
use linux_os.MemoryPool.ThreadCache.{ThreadCache}
use linux_os.MemoryPool.ThreadCache.Laws.{Ready, Allocated, one_cache}

-- What holds of every free list but one with its blocks, and of the new one with its own.
pub both_update :
    (Q : ℕ → FreeList → List Ptr → Type 0) (ls : ℕ → FreeList) (cs : ℕ → List Ptr) (i : ℕ)
    (l : FreeList) (xs : List Ptr)
    → ((j : ℕ) → j ≢ i → Q j (ls j) (cs j))
    → Q i l xs
    → (j : ℕ) → Q j (update ls i l j) (update cs i xs j)
unfolding update
both_update Q ls cs i l xs f h j = elim (Bool-cases (j == i)) [
  | inl e ↦ let same : i ≡ j = ground (arith, e) in rw (e, update) (subst (λ k. Q k l xs) same h)
  | inr e ↦ rw (e, update) (f j (ground (arith, e)))
]

-- A block from the list of its size.
module _ (h : ThreadCache) (free out cached : ℕ → List Ptr) (r : Ready h free out cached) (i : ℕ)
    (b : Ptr) (xs : List Ptr) (e : cached i ≡ b ∷ xs) where
  abbrev cached' : ℕ → List Ptr
  cached' = update cached i xs

  first_in : Within b (cached i)
  first_in = subst (Within b) (sym e) (inl refl)

  pub held : Holds h.central.memory (h.freelists i) (b ∷ xs)
  held = subst (Holds h.central.memory (h.freelists i)) e (r.holds i)

  fewer : (j : ℕ) (a : Ptr) → Within a (cached' j) → Within a (cached j) × (a ≢ b)
  fewer j a w = elim (Bool-cases (j == i)) [
    | inl same ↦
        let eq : j ≡ i = ground (arith, same) in
        let v = subst (Within a) (at_self cached i xs) (subst (λ k. Within a (cached' k)) eq w) in
        (
          subst (λ k. Within a (cached k)) (sym eq) (subst (Within a) (sym e) (inr v)),
          λ ab. NotIn-Within b a xs held.chain.2 v (sym ab),
        )
    | inr other ↦
        let v = subst (Within a) (at_other cached i xs j other) w in
        (
          v,
          λ ab.
              let same : i ≡ j =
                one_cache r i j b first_in (subst (λ p. Within p (cached j)) ab v) in
              ground (arith, same, other),
        )
  ]

  rest_in : (j : ℕ) (a : Ptr) → Within a (cached j) → a ≢ b → Within a (cached' j)
  rest_in j a w ne = elim (Bool-cases (j == i)) [
    | inl same ↦
        let eq : j ≡ i = ground (arith, same) in
        elim (subst (Within a) e (subst (λ k. Within a (cached k)) eq w)) [
          | inl ab ↦ absurd (ne ab)
          | inr v ↦
              subst (λ k. Within a (cached' k)) (sym eq)
                (subst (Within a) (sym (at_self cached i xs)) v)
        ]
    | inr other ↦ subst (Within a) (sym (at_other cached i xs j other)) w
  ]

  abbrev pub popped : FreeList → ThreadCache
  popped l = record h { freelists = update h.freelists i l }

  pub popped-Allocated :
      (l : FreeList)
      → Holds h.central.memory l xs
      → l.max_size ≡ (h.freelists i).max_size
      → Allocated h out cached i b (popped l)
  popped-Allocated l holds same =
      let (s, o, here) = r.own i b first_in in
      let few : length (b ∷ xs) < (h.freelists i).max_size =
        subst (λ ys. length ys < (h.freelists i).max_size) e (r.few i) in
      record {
        free' = free;
        out' = out;
        cached' = cached';
        ready = record {
          balanced = r.balanced;
          holds =
              both_update (λ j l xs. Holds h.central.memory l xs) h.freelists cached i l xs
                (λ j ne. r.holds j) holds;
          own = λ j a w. r.own j a (fewer j a w).0;
          few =
              both_update (λ j l xs. length xs < l.max_size) h.freelists cached i l xs
                (λ j ne. r.few j) (omega (arith, few, same));
          bounded =
              both_update (λ j l xs. l.max_size ≤ 513) h.freelists cached i l xs
                (λ j ne. r.bounded j) (omega (arith, same, r.bounded i));
        };
        was_free = λ lent. lent.1 i first_in;
        lent = ((s, o), λ j w. (fewer j b w).1 refl);
        listed = here;
        not_null = held.chain.1;
        still = λ a lent. (lent.0, λ j w. lent.1 j (fewer j a w).0);
        no_more = λ a lent. elim (Bool-cases (a == b)) [
          | inl ab ↦ inl (ground (arith, ab))
          | inr ab ↦
              let ne : a ≢ b = ground (arith, ab) in
              inr (lent.0, λ j w. lent.1 j (rest_in j a w ne))
        ];
      }
