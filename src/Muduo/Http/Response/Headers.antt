-- ===== src/Muduo/Http/Response/Headers.antt =====
-- The headers of a response that is sent.
use linux_os.Base.{◌≡◌, refl, ap, ◌∙◌, [], ◌∷◌, some, true, false, arith, Bool-cases, inl, inr}
use linux_os.Muduo.Http.Paths.{Text, text_eq, insert}
use linux_os.Muduo.Http.Message.{TextMap, lookup}

pub text_eq_eq : (xs ys : Text) → text_eq xs ys ≡ true → xs ≡ ys
unfolding text_eq
text_eq_eq [] [] h = refl
text_eq_eq [] (y ∷ ys) h = absurd (cc h)
text_eq_eq (x ∷ xs) [] h = absurd (cc h)
text_eq_eq (x ∷ xs) (y ∷ ys) h = ground (arith, h, text_eq_eq xs ys)

pub text_eq_refl : (xs : Text) → text_eq xs xs ≡ true
unfolding text_eq
text_eq_refl [] = refl
text_eq_refl (x ∷ xs) = ground (arith, text_eq_refl xs)

pub lookup-insert : (key val : Text) (m : TextMap) → lookup key (insert key val m) ≡ some val
unfolding lookup insert
lookup-insert key val [] = rw (text_eq_refl key)
lookup-insert key val ((k, v) ∷ m) = elim (Bool-cases (text_eq k key)) [
  | inl e ↦ rw (e, text_eq_refl key)
  | inr e ↦ rw (e, e, lookup-insert key val m)
]

pub lookup-insert_other :
    (key val other : Text) (m : TextMap)
    → text_eq key other ≡ false
    → lookup other (insert key val m) ≡ lookup other m
unfolding lookup insert
lookup-insert_other key val other [] ne = rw ne
lookup-insert_other key val other ((k, v) ∷ m) ne = elim (Bool-cases (text_eq k key)) [
  | inl e ↦
      let apart : text_eq k other ≡ false = ap (λ t. text_eq t other) (text_eq_eq k key e) ∙ ne in
      rw (e, ne, apart)
  | inr e ↦ rw (e, lookup-insert_other key val other m ne)
]
