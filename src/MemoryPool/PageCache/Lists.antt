-- ===== src/MemoryPool/PageCache/Lists.antt =====
-- What is true of the lists of free spans.
use linux_os.Base.{
  ℕ, zero, suc, ◌+◌, ◌<◌, ◌≡◌, ◌≢◌, sym, ap, ◌∙◌, List, [], ◌∷◌, Option, some, false, arith, ltb,
  leb, ◌==◌, ◌&&◌, if◌then◌else◌, NotIn, update, Bool-cases, subst, inl, inr,
}
use linux_os.MemoryPool.PageCache.{Span, PageCache, set_pages, push_span}

-- A span in list `i`: it has `i` pages, is in no use, and its name was given out.
abbrev pub InList : PageCache → ℕ → ℕ → Type 0
InList pc i s = ((pc.spans s).npage ≡ i) × ((pc.spans s).is_used ≡ false) × (s < pc.next_span)

abbrev pub All : (ℕ → Type 0) → List ℕ → Type 0
All P [] = Unit {0}
All P (x ∷ xs) = P x × All P xs

abbrev pub Distinct : List ℕ → Type 0
Distinct [] = Unit {0}
Distinct (x ∷ xs) = NotIn x xs × Distinct xs

-- Every list holds spans of its own size, each once.
pub record IsStocked (pc : PageCache) : Type 0 where
  pub sized : (i : ℕ) → All (InList pc i) (pc.span_lists i)
  pub distinct : (i : ℕ) → Distinct (pc.span_lists i)

-- A list keeps what is true of it under a change that leaves its spans alone.
pub All-map : (P Q : ℕ → Type 0) (xs : List ℕ) → ((x : ℕ) → P x → Q x) → All P xs → All Q xs
All-map P Q [] f h = tt
All-map P Q (x ∷ xs) f (h, hs) = (f x h, All-map P Q xs f hs)

pub All-without :
    (P Q : ℕ → Type 0) (s : ℕ) (xs : List ℕ)
    → NotIn s xs
    → ((x : ℕ) → s ≢ x → P x → Q x)
    → All P xs
    → All Q xs
All-without P Q s [] out f h = tt
All-without P Q s (x ∷ xs) (ne, out) f (h, hs) = (f x ne h, All-without P Q s xs out f hs)

-- A span of another size, or one whose name was not given out, is not in the list.
pub not_of_size :
    (pc : PageCache) (i s : ℕ) (xs : List ℕ)
    → (pc.spans s).npage ≢ i
    → All (InList pc i) xs
    → NotIn s xs
not_of_size pc i s [] ne h = tt
not_of_size pc i s (x ∷ xs) ne (h, hs) =
    ((λ e. ne (ap (λ t. (pc.spans t).npage) e ∙ h.0)), not_of_size pc i s xs ne hs)

pub not_made : (pc : PageCache) (i : ℕ) (xs : List ℕ) → All (InList pc i) xs → NotIn pc.next_span xs
not_made pc i [] h = tt
not_made pc i (x ∷ xs) (h, hs) = (omega (arith, h.2), not_made pc i xs hs)

-- The pages of the loop are mapped to the span, and no others change.
pub set_pages_lem :
    (n page_id s : ℕ) (map : ℕ → Option ℕ) (p : ℕ)
    → set_pages n page_id s map p ≡ (if leb page_id p && ltb p (page_id + n) then some s else map p)
unfolding set_pages update
set_pages_lem zero page_id s map p = ground arith
set_pages_lem (suc n) page_id s map p = ground (arith, set_pages_lem n page_id s map p)

pub update_same : (f : ℕ → Span) (s : ℕ) (v : Span) → update f s v s ≡ v
unfolding update
update_same f s v = ground arith

-- What holds of every list but one, and of the new contents of that one, holds after the change.
pub lists_update :
    (Q : ℕ → List ℕ → Type 0) (lists : ℕ → List ℕ) (k : ℕ) (xs : List ℕ)
    → ((i : ℕ) → i ≢ k → Q i (lists i))
    → Q k xs
    → (i : ℕ) → Q i (update lists k xs i)
unfolding update
lists_update Q lists k xs f h i = elim (Bool-cases (i == k)) [
  | inl e ↦
      let same : i ≡ k = ground (arith, e) in rw (e, update) (subst (λ j. Q j xs) (sym same) h)
  | inr e ↦ rw (e, update) (f i (ground (arith, e)))
]

abbrev pub Apart : PageCache → ℕ → Type 0
Apart pc s = (i : ℕ) → NotIn s (pc.span_lists i)

-- The front of a list is taken off: it is then in no list.
module _ (pc : PageCache) (st : IsStocked pc) (i s : ℕ) (rest : List ℕ)
    (e : pc.span_lists i ≡ s ∷ rest) where
  abbrev pub popped : PageCache
  popped = record pc { span_lists = update pc.span_lists i rest }

  front_sized : All (InList pc i) (s ∷ rest)
  front_sized = subst (All (InList pc i)) e (st.sized i)

  front-Distinct : Distinct (s ∷ rest)
  front-Distinct = subst Distinct e (st.distinct i)

  pub popped-InList : InList pc i s
  popped-InList = front_sized.0

  pub popped-IsStocked : IsStocked popped
  popped-IsStocked = record {
    sized =
        lists_update (λ j xs. All (InList pc j) xs) pc.span_lists i rest (λ j ne. st.sized j)
          front_sized.1;
    distinct =
        lists_update (λ j xs. Distinct xs) pc.span_lists i rest (λ j ne. st.distinct j)
          front-Distinct.1;
  }

  pub popped-Apart : Apart popped s
  popped-Apart =
      lists_update (λ j xs. NotIn s xs) pc.span_lists i rest
        (λ j ne.
          not_of_size pc j s (pc.span_lists j) (λ h. ne (sym (sym front_sized.0.0 ∙ h)))
            (st.sized j))
        front-Distinct.0

-- Spans that are in no list may change, and names may be given out.
pub change-IsStocked :
    (pc : PageCache) (s : ℕ) (spans : ℕ → Span)
    → IsStocked pc
    → Apart pc s
    → ((x : ℕ) → s ≢ x → x < pc.next_span → spans x ≡ pc.spans x)
    → IsStocked (record pc { spans = spans; next_span = suc pc.next_span })
change-IsStocked pc s spans st out same = record {
  sized = λ i.
      All-without (InList pc i)
        (InList (record pc { spans = spans; next_span = suc pc.next_span }) i) s (pc.span_lists i)
        (out i)
        (λ x ne (size, unused, made). (
          ap (λ t. t.npage) (same x ne made) ∙ size,
          ap (λ t. t.is_used) (same x ne made) ∙ unused,
          omega (arith, made),
        ))
        (st.sized i);
  distinct = st.distinct;
}

pub push_span-IsStocked :
    (pc : PageCache) (j s : ℕ)
    → IsStocked pc
    → Apart pc s
    → InList pc j s
    → IsStocked (push_span pc j s)
unfolding push_span
push_span-IsStocked pc j s st out fits = record {
  sized =
      lists_update (λ i xs. All (InList pc i) xs) pc.span_lists j (s ∷ pc.span_lists j)
        (λ i ne. st.sized i) (fits, st.sized j);
  distinct =
      lists_update (λ i xs. Distinct xs) pc.span_lists j (s ∷ pc.span_lists j)
        (λ i ne. st.distinct i) (out j, st.distinct j);
}

pub push_span-Apart : (pc : PageCache) (j s t : ℕ) → Apart pc t → t ≢ s → Apart (push_span pc j s) t
unfolding push_span
push_span-Apart pc j s t out ne =
    lists_update (λ i xs. NotIn t xs) pc.span_lists j (s ∷ pc.span_lists j) (λ i h. out i)
      (ne, out j)
