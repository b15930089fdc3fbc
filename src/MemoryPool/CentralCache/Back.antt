-- ===== src/MemoryPool/CentralCache/Back.antt =====
-- CentralCache::ReleaseListToSpans.
use linux_os.Base.{
  ℕ, zero, suc, ◌<◌, ◌≡◌, ◌≢◌, ◌⊎◌, ap, inl, inr, refl, sym, subst, ◌∙◌, List, [], ◌∷◌, Option,
  some, false, arith, length, ◌==◌, update, Bool-cases,
}
use linux_os.MemoryPool.Memory.{Ptr, null, Chain}
use linux_os.MemoryPool.SizeClass.{index}
use linux_os.MemoryPool.PageCache.Release.Erase.{Within, erase_span_lem}
use linux_os.MemoryPool.CentralCache.{
  CentralCache, one_less, give_back, release_block, release_blocks, release_list_to_spans,
}
use linux_os.MemoryPool.CentralCache.Accounts.{Balanced, on_one_span, NotIn-Within, Seg-same}
use linux_os.MemoryPool.CentralCache.Put.{
  GivenBack, BlockBack, one_fewer, put, put-BlockBack, returned, gone, gone-BlockBack,
}
use linux_os.MemoryPool.CentralCache.Take.{at_self, at_other}

no_length : (xs : List Ptr) → length xs ≡ 0 → xs ≡ []
no_length [] h = refl
no_length (x ∷ xs) h = absurd (omega (arith, h))

-- A block that is out comes back to its span.
module _ (c : CentralCache) (free out : ℕ → List Ptr) (bal : Balanced c free out) (i s : ℕ)
    (here : Within s (c.span_lists i)) (b : Ptr) (not_null : b ≢ null)
    (is_out : Within b (out s)) where
  release_block-BlockBack :
      (c' : CentralCache) × (release_block c i b ≡ some c') × BlockBack c out s b c'
  unfolding release_block give_back
  release_block-BlockBack =
      let (left, _, er) = erase_span_lem b (out s) is_out in
      let on = (bal.accounts i s here).out_on b is_out in
      elim (Bool-cases (one_less (c.pages.spans s).use_count == 0)) [
        | inr busy ↦ (
          put c free out bal i s here b not_null is_out left er,
          rw (release_block, on, busy) refl,
          put-BlockBack c free out bal i s here b not_null is_out left er (λ none_left.
              let n = one_fewer c free out bal i s here b not_null is_out left er in
              let zero_left : length left ≡ 0 = ap (λ (zs : List Ptr). length zs) none_left in
              absurd (ground (arith, busy, n, zero_left))),
        )
        | inl idle ↦
            let (rest, erases, er') = erase_span_lem s (c.span_lists i) here in
            let none_out = no_length left (
              sym (one_fewer c free out bal i s here b not_null is_out left er)
              ∙ ground (arith, idle)) in
            (
              gone c free out bal i s here b not_null is_out left er none_out rest er',
              rw
                  (
                    release_block,
                    on,
                    idle,
                    give_back,
                    erases,
                    (returned c free out bal i s here b not_null is_out left er).1,
                  )
                  refl,
              gone-BlockBack c free out bal i s here b not_null is_out left er none_out rest er',
            )
      ]

-- The blocks `xs` have come back: these are out no more, all others as before, no span enters a list, and
-- each span of which the last block has come back is given back.
pub record ListBack (c : CentralCache) (out : ℕ → List Ptr) (xs : List Ptr) (c' : CentralCache)
    : Type 0 where
  pub free' : ℕ → List Ptr
  pub out' : ℕ → List Ptr
  pub balanced : Balanced c' free' out'
  pub gone : (t : ℕ) (a : Ptr) → Within a (out' t) → Within a (out t) × (Within a xs → ⊥)
  pub stays : (t : ℕ) (a : Ptr) → Within a (out t) → (Within a xs → ⊥) → Within a (out' t)
  pub same : (a : Ptr) → (Within a xs → ⊥) → c'.memory a ≡ c.memory a
  pub within : (j t : ℕ) → Within t (c'.span_lists j) → Within t (c.span_lists j)
  pub given : (t : ℕ) (a : Ptr) → Within a (out t) → Within a xs → out' t ≡ [] → GivenBack c' t
  pub unused : (t : ℕ) → (c.pages.spans t).is_used ≡ false → (c'.pages.spans t).is_used ≡ false

-- Each of the blocks is out, of a span in list `i`.
abbrev pub OutOf : CentralCache → (ℕ → List Ptr) → ℕ → List Ptr → Type 0
OutOf c out i xs = (b : Ptr) → Within b xs → (s : ℕ) × Within b (out s) × Within s (c.span_lists i)

within_cases : (a : Ptr) (xs : List Ptr) → Within a xs ⊎ (Within a xs → ⊥)
within_cases a [] = inr (λ w. w)
within_cases a (x ∷ xs) = elim (Bool-cases (a == x)) [
  | inl e ↦ inl (inl (ground (arith, e)))
  | inr e ↦ elim (within_cases a xs) [
    | inl later ↦ inl (inr later)
    | inr never ↦ inr (λ w. elim w [ inl same ↦ ground (arith, same, e) | inr later ↦ never later ])
  ]
]

empty_cases : (xs : List Ptr) → (xs ≡ []) ⊎ ((x : Ptr) × Within x xs)
empty_cases [] = inl refl
empty_cases (x ∷ xs) = inr (x, inl refl)

-- What one block changes, and then the others.
module _ (c : CentralCache) (free out : ℕ → List Ptr) (bal : Balanced c free out) (i s : ℕ)
    (here : Within s (c.span_lists i)) (x : Ptr) (is_out : Within x (out s)) (c1 : CentralCache)
    (back : BlockBack c out s x c1) where
  abbrev out1 : ℕ → List Ptr
  out1 = update out s back.left

  out1-gone : (t : ℕ) (a : Ptr) → Within a (out1 t) → Within a (out t) × (a ≢ x)
  out1-gone t a w = elim (Bool-cases (t == s)) [
    | inl same ↦
        let eq : t ≡ s = ground (arith, same) in
        let l = subst (Within a) (at_self out s back.left) (subst (λ u. Within a (out1 u)) eq w) in
        (
          subst (λ u. Within a (out u)) (sym eq) (back.erased.held a l),
          λ e.
              NotIn-Within x a back.left (back.erased.distinct (bal.accounts i s here).distinct).1 l
                (sym e),
        )
    | inr other ↦
        let o = subst (Within a) (at_other out s back.left t other) w in
        (
          o,
          λ e.
              let (j, there) = bal.listed t a o in
              let same : t ≡ s =
                on_one_span c.pages.id_span_map t s a x ((bal.accounts j t there).out_on a o)
                  ((bal.accounts i s here).out_on x is_out) e in
              ground (arith, same, other),
        )
  ]

  out1-stays : (t : ℕ) (a : Ptr) → Within a (out t) → a ≢ x → Within a (out1 t)
  out1-stays t a w ne = elim (Bool-cases (t == s)) [
    | inl same ↦
        let eq : t ≡ s = ground (arith, same) in
        subst (λ u. Within a (out1 u)) (sym eq)
          (subst (Within a) (sym (at_self out s back.left))
            (back.erased.others a ne (subst (λ u. Within a (out u)) eq w)))
    | inr other ↦ subst (Within a) (sym (at_other out s back.left t other)) w
  ]

  out1-OutOf :
      (xs : List Ptr) → OutOf c out i xs → ((a : Ptr) → Within a xs → a ≢ x) → OutOf c1 out1 i xs
  out1-OutOf xs own differ a w =
      let (t, o, there) = own a w in
      let o1 = out1-stays t a o (differ a w) in
      (
        t,
        o1,
        elim (back.kept i t there) [
          | inl still ↦ still
          | inr (same, none_left) ↦ absurd (
              subst (Within a) (at_self out s back.left ∙ none_left)
                (subst (λ u. Within a (out1 u)) same o1))
        ],
      )

  -- The span of `x`, if its last block comes back with `x` or one of the others.
  own-GivenBack :
      (xs : List Ptr) (c' : CentralCache) (rest : ListBack c1 out1 xs c')
      → rest.out' s ≡ []
      → GivenBack c' s
  own-GivenBack xs c' rest none_out = elim (empty_cases back.left) [
    | inl none_left ↦
        let (nowhere, idle) = back.given none_left in
        (λ j w. nowhere j (rest.within j s w), rest.unused s idle)
    | inr (y, in_left) ↦
        let y_out : Within y (out1 s) = subst (Within y) (sym (at_self out s back.left)) in_left in
        elim (within_cases y xs) [
          | inl later ↦ rest.given s y y_out later none_out
          | inr never ↦ absurd (subst (Within y) none_out (rest.stays s y y_out never))
        ]
  ]

  ListBack-given :
      (xs : List Ptr) (c' : CentralCache) (rest : ListBack c1 out1 xs c')
      → ((a : Ptr) → Within a xs → a ≢ x)
      → (t : ℕ) (a : Ptr) → Within a (out t)
      → Within a (x ∷ xs)
      → rest.out' t ≡ []
      → GivenBack c' t
  ListBack-given xs c' rest differ t a w (inr later) e =
      rest.given t a (out1-stays t a w (differ a later)) later e
  ListBack-given xs c' rest differ t a w (inl eq) e =
      let (j, there) = bal.listed t a w in
      let same : s ≡ t =
        on_one_span c.pages.id_span_map s t x a ((bal.accounts i s here).out_on x is_out)
          ((bal.accounts j t there).out_on a w) (sym eq) in
      subst (λ u. GivenBack c' u) same
        (own-GivenBack xs c' rest (subst (λ u. rest.out' u ≡ []) (sym same) e))

  ListBack-cons :
      (xs : List Ptr) (c' : CentralCache)
      → ((a : Ptr) → Within a xs → a ≢ x)
      → ListBack c1 out1 xs c'
      → ListBack c out (x ∷ xs) c'
  ListBack-cons xs c' differ rest = record {
    free' = rest.free';
    out' = rest.out';
    balanced = rest.balanced;
    gone = λ t a w.
        let (w1, not_xs) = rest.gone t a w in
        let (o, ne) = out1-gone t a w1 in
        (o, λ v. elim v [ inl e ↦ ne e | inr later ↦ not_xs later ]);
    stays = λ t a w v. rest.stays t a (out1-stays t a w (λ e. v (inl e))) (λ l. v (inr l));
    same = λ a v. rest.same a (λ l. v (inr l)) ∙ back.same a (λ e. v (inl e));
    within = λ j t w. back.within j t (rest.within j t w);
    given = ListBack-given xs c' rest differ;
    unused = λ t e. rest.unused t (back.unused t e);
  }

runs_on :
    (f : ℕ) (c c1 : CentralCache) (i : ℕ) (start x : Ptr) {r : Option CentralCache}
    → start ≡ x
    → x ≢ null
    → release_block c i x ≡ some c1
    → release_blocks f c1 i (c.memory x) ≡ r
    → release_blocks (suc f) c i start ≡ r
unfolding release_blocks
runs_on f c c1 i start x {r} at ne runs ends =
    let more : (x == null) ≡ false = ground (arith, ne) in
    subst (λ p. release_blocks (suc f) c i p ≡ r) (sym at) (rw (release_blocks, more, runs) ends)

pub release_blocks-ListBack :
    (f : ℕ) (c : CentralCache) (free out : ℕ → List Ptr) (i : ℕ) (start : Ptr) (xs : List Ptr)
    → Balanced c free out
    → Chain c.memory start xs
    → OutOf c out i xs
    → length xs < f
    → (c' : CentralCache) × (release_blocks f c i start ≡ some c') × ListBack c out xs c'
unfolding release_blocks
release_blocks-ListBack zero c free out i start xs bal chain own enough =
    absurd (omega (arith, enough))
release_blocks-ListBack (suc f) c free out i start [] bal chain own enough = (
  c,
  rw (chain) refl,
  record {
    free' = free;
    out' = out;
    balanced = bal;
    gone = λ t a w. (w, λ v. v);
    stays = λ t a w v. w;
    same = λ a v. refl;
    within = λ j t w. w;
    given = λ t a w v. absurd v;
    unused = λ t e. e;
  },
)
release_blocks-ListBack (suc f) c free out i start (x ∷ xs) bal (at, not_null, out_xs, chain) own
      enough =
    let (s, is_out, here) = own x (inl refl) in
    let (c1, runs, back) = release_block-BlockBack c free out bal i s here x not_null is_out in
    let differ : (a : Ptr) → Within a xs → a ≢ x = λ a w e. NotIn-Within x a xs out_xs w (sym e) in
    let (c', ends, rest) =
      release_blocks-ListBack f c1 back.free' (update out s back.left) i (c.memory x) xs
        back.balanced
        (Seg-same c.memory c1.memory (c.memory x) xs null (λ a w. back.same a (differ a w)) chain)
        (out1-OutOf c free out bal i s here x is_out c1 back xs (λ a w. own a (inr w)) differ)
        (omega (arith, enough)) in
    (
      c',
      runs_on f c c1 i start x at not_null runs ends,
      ListBack-cons c free out bal i s here x is_out c1 back xs c' differ rest,
    )

-- ReleaseListToSpans of a chain of blocks, each of which is out of a span in the list of their size, on
-- a central cache whose accounts are balanced: it returns, and the accounts are balanced again. Exactly
-- those blocks are out no more, no link but theirs is written, and every span of which the last block
-- has come back is in no list of the central cache and in no use in the page cache. As many rounds as there are blocks, and one, are enough.
pub release_list_to_spans-ListBack :
    (c : CentralCache) (free out : ℕ → List Ptr) (size i : ℕ) (start : Ptr) (xs : List Ptr)
    → Balanced c free out
    → index size ≡ some i
    → Chain c.memory start xs
    → OutOf c out i xs
    → (c' : CentralCache) × (release_list_to_spans (suc (length xs)) c start size ≡ some c')
      × ListBack c out xs c'
unfolding release_list_to_spans
release_list_to_spans-ListBack c free out size i start xs bal at chain own =
    let (c', runs, back) =
      release_blocks-ListBack (suc (length xs)) c free out i start xs bal chain own (omega arith) in
    (c', rw (release_list_to_spans, at) runs, back)
