-- ===== src/MemoryPool/PageCache/Release/Erase.antt =====
-- SpanList::Erase of a span that the list holds.
use linux_os.Base.{
  suc, ap, length, ℕ, subst, ◌≡◌, ◌≢◌, ◌⊎◌, inl, inr, refl, sym, ◌∙◌, List, [], ◌∷◌, some, arith,
  ◌==◌, NotIn, Bool-cases,
}
use linux_os.MemoryPool.PageCache.Lists.{All, Distinct}
use linux_os.MemoryPool.PageCache.Release.{erase_span}

-- The list holds the span.
abbrev pub Within : ℕ → List ℕ → Type 0
Within s [] = ⊥
Within s (x ∷ xs) = (s ≡ x) ⊎ Within s xs

-- `ys` is `xs` without `s`.
pub record Erased (s : ℕ) (xs ys : List ℕ) : Type 1 where
  pub kept : (P : ℕ → Type 0) → All P xs → All P ys
  pub distinct : Distinct xs → Distinct ys × NotIn s ys
  pub out : (a : ℕ) → NotIn a xs → NotIn a ys
  pub others : (u : ℕ) → u ≢ s → Within u xs → Within u ys
  pub held : (u : ℕ) → Within u ys → Within u xs
  pub fewer : length xs ≡ suc (length ys)

-- What is in a list is none of the spans that are not.
pub Within-NotIn : (u a : ℕ) (xs : List ℕ) → Within u xs → NotIn a xs → u ≢ a
Within-NotIn u a [] h out = absurd h
Within-NotIn u a (x ∷ xs) (inl e) out = λ same. out.0 (sym same ∙ e)
Within-NotIn u a (x ∷ xs) (inr later) out = Within-NotIn u a xs later out.1

Erased-front : (s x : ℕ) (xs : List ℕ) → x ≡ s → Erased s (x ∷ xs) xs
Erased-front s x xs e = record {
  kept = λ P h. h.1;
  distinct = λ d. (d.1, subst (λ a. NotIn a xs) e d.0);
  out = λ a h. h.1;
  others = λ u ne h. elim h [ inl same ↦ absurd (ne (same ∙ e)) | inr later ↦ later ];
  held = λ u h. inr h;
  fewer = refl;
}

Erased-later : (s x : ℕ) (xs ys : List ℕ) → x ≢ s → Erased s xs ys → Erased s (x ∷ xs) (x ∷ ys)
Erased-later s x xs ys ne er = record {
  kept = λ P h. (h.0, er.kept P h.1);
  distinct =
      λ d. let (left, gone) = er.distinct d.1 in ((er.out x d.0, left), ((λ e. ne (sym e)), gone));
  out = λ a h. (h.0, er.out a h.1);
  others = λ u nu h. elim h [ inl same ↦ inl same | inr later ↦ inr (er.others u nu later) ];
  held = λ u h. elim h [ inl same ↦ inl same | inr later ↦ inr (er.held u later) ];
  fewer = ap (λ (n : ℕ). suc n) er.fewer;
}

pub erase_span_lem :
    (s : ℕ) (xs : List ℕ)
    → Within s xs
    → (ys : List ℕ) × (erase_span s xs ≡ some ys) × Erased s xs ys
unfolding erase_span
erase_span_lem s [] h = absurd h
erase_span_lem s (x ∷ xs) h = elim (Bool-cases (x == s)) [
  | inl e ↦ (xs, rw (e, erase_span) refl, Erased-front s x xs (ground (arith, e)))
  | inr e ↦ elim h [
    | inl same ↦ absurd (ground (arith, e, same))
    | inr later ↦
        let (ys, runs, er) = erase_span_lem s xs later in
        (x ∷ ys, rw (e, erase_span, runs) refl, Erased-later s x xs ys (ground (arith, e)) er)
  ]
]
