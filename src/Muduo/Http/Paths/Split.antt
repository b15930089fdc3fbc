-- ===== src/Muduo/Http/Paths/Split.antt =====
-- Util::Split at a separator of one byte.
use linux_os.Base.{
  subst, ℕ, zero, suc, ◌+◌, ◌<◌, ◌≡◌, ◌≢◌, inl, inr, refl, sym, List, [], ◌∷◌, ◌++◌, none, some,
  arith, length, take, drop, length-drop, NotIn, Option-cases,
}
use linux_os.Muduo.Http.Paths.{Text, find, starts_with, split_loop, split}

find-none : (c : ℕ) (xs : Text) → find (c ∷ []) xs ≡ none → NotIn c xs
unfolding find starts_with
find-none c [] h = tt
find-none c (x ∷ xs) h = ground (arith, find-none c xs)

-- Where the separator was found: the text comes apart there, and the part before has none.
record FoundAt (c : ℕ) (xs : Text) (pos : ℕ) : Type 0 where
  inside : pos < length xs
  split_at : xs ≡ take pos xs ++ c ∷ drop (pos + 1) xs
  before : NotIn c (take pos xs)

found-here : (c x : ℕ) (xs : Text) → c ≡ x → FoundAt c (x ∷ xs) 0
found-here c x xs e = record { inside = omega arith; split_at = ground (arith, e); before = tt }

found-later : (c x n : ℕ) (xs : Text) → c ≢ x → FoundAt c xs n → FoundAt c (x ∷ xs) (suc n)
found-later c x n xs ne f = record {
  inside = omega (arith, f.inside);
  split_at = ground (arith, f.split_at);
  before = (ne, f.before);
}

find-FoundAt : (c : ℕ) (xs : Text) (pos : ℕ) → find (c ∷ []) xs ≡ some pos → FoundAt c xs pos
unfolding find starts_with
find-FoundAt c [] pos h = cc
find-FoundAt c (x ∷ xs) zero h = found-here c x xs (ground arith)
find-FoundAt c (x ∷ xs) (suc n) h =
    found-later c x n xs (ground arith) (find-FoundAt c xs n (ground arith))

-- The parts of a text: what stands before each separator, and what stands behind the last one if
-- that is not empty.
pub data SplitsTo (c : ℕ) : Text → List Text → Type 0 where
  done : SplitsTo c [] []
  last : (x : ℕ) (xs : Text) → NotIn c (x ∷ xs) → SplitsTo c (x ∷ xs) ((x ∷ xs) ∷ [])
  next :
      (part rest : Text) (parts : List Text)
      → NotIn c part
      → SplitsTo c rest parts
      → SplitsTo c (part ++ c ∷ rest) (part ∷ parts)

abbrev Splits : ℕ → ℕ → Text → Type 0
Splits f c src =
    (parts : List Text) × (split_loop f src (c ∷ []) ≡ some parts) × SplitsTo c src parts

split_loop-last :
    (f c x : ℕ) (xs : Text) → find (c ∷ []) (x ∷ xs) ≡ none → Splits (suc f) c (x ∷ xs)
unfolding split_loop
split_loop-last f c x xs e = ((x ∷ xs) ∷ [], simp e, last x xs (find-none c (x ∷ xs) e))

split_loop-next :
    (f c x pos : ℕ) (xs : Text)
    → find (c ∷ []) (x ∷ xs) ≡ some pos
    → Splits f c (drop (pos + 1) (x ∷ xs))
    → Splits (suc f) c (x ∷ xs)
unfolding split_loop
split_loop-next f c x pos xs e (parts, runs, rest) =
    let at = find-FoundAt c (x ∷ xs) pos e in
    (
      take pos (x ∷ xs) ∷ parts,
      simp (e, runs),
      subst (λ s. SplitsTo c s (take pos (x ∷ xs) ∷ parts)) (sym at.split_at)
          (next (take pos (x ∷ xs)) (drop (pos + 1) (x ∷ xs)) parts at.before rest),
    )

split_loop-Splits : (f c : ℕ) (src : Text) → length src < f → Splits f c src
unfolding split_loop
split_loop-Splits zero c src h = absurd (omega (arith, h))
split_loop-Splits (suc f) c [] h = ([], refl, done)
split_loop-Splits (suc f) c (x ∷ xs) h = elim (Option-cases (find (c ∷ []) (x ∷ xs))) [
  | inl e ↦ split_loop-last f c x xs e
  | inr (pos, e) ↦ split_loop-next f c x pos xs e (
      split_loop-Splits f c (drop (pos + 1) (x ∷ xs))
        (omega (arith, h, length-drop (pos + 1) (x ∷ xs))))
]

-- Split at a separator of one byte ends, and gives the parts of the text.
pub split-SplitsTo :
    (c : ℕ) (src : Text)
    → (parts : List Text) × (split src (c ∷ []) ≡ some parts) × SplitsTo c src parts
unfolding split
split-SplitsTo c src = split_loop-Splits (length src + 1) c src (omega arith)
