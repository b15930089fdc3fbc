-- ===== src/Muduo/Http/Paths/Levels.antt =====
-- IsValidPath accepts exactly the paths that stay below their base directory.
use linux_os.Base.{
  ℕ, ◌≡◌, refl, List, [], ◌∷◌, ◌++◌, Option, none, some, Bool, true, false, ◌||◌, arith,
  if◌then◌else◌, length, Bool-cases, inl, inr,
}
use linux_os.Muduo.Http.Paths.{
  Text, is_empty, text_eq, valid_from, slash, ends_with_slash, index_html, build_file_path,
}

-- The directory that the parts lead to, as the stack of the names below the base, deepest first;
-- `none` if some part leads above the base.
unfoldable pub resolve : List Text → List Text → Option (List Text)
resolve dirs [] = some dirs
resolve dirs (e ∷ es) =
    let stay = resolve dirs es in
    let enter = resolve (e ∷ dirs) es in
    let leave : Option (List Text) = elim dirs [ [] ↦ none | d ∷ above ↦ resolve above es ] in
    if is_empty e || text_eq e (b'.' ∷ [])
    then stay
    else if text_eq e (b'.' ∷ b'.' ∷ [])
    then leave
    else enter

abbrev pub is_some {ℓ} : {A : Type ℓ} → Option A → Bool
is_some none = false
is_some (some a) = true

-- The counter of IsValidPath is the depth of the directory reached: from any directory, the parts
-- are accepted exactly when they resolve without leaving the base.
pub valid_from-resolve :
    (dirs es : List Text) → valid_from (length dirs) es ≡ is_some (resolve dirs es)
unfolding valid_from resolve
valid_from-resolve dirs [] = refl
valid_from-resolve [] (e ∷ es) =
    ground (arith, valid_from-resolve [] es, valid_from-resolve (e ∷ []) es)
valid_from-resolve (d ∷ dirs) (e ∷ es) = ground (
  arith,
  valid_from-resolve (d ∷ dirs) es,
  valid_from-resolve dirs es,
  valid_from-resolve (e ∷ d ∷ dirs) es,
)

ends_with_slash-append :
    (xs : Text) (c : ℕ) (ys : Text) → ends_with_slash (xs ++ c ∷ ys) ≡ ends_with_slash (c ∷ ys)
unfolding ends_with_slash
ends_with_slash-append [] c ys = refl
ends_with_slash-append (x ∷ []) c ys = refl
ends_with_slash-append (x ∷ y ∷ xs) c ys = ends_with_slash-append (y ∷ xs) c ys

-- The file for a path is the base directory with a text behind it that does not end in a slash: a
-- path that does gets the name of the index file.
pub build_file_path-under_base :
    (base_dir path : Text)
    → (file : Text) × (build_file_path base_dir path ≡ base_dir ++ file)
      × (ends_with_slash file ≡ false)
unfolding build_file_path
build_file_path-under_base base_dir path =
    let given : Text = (if is_empty path then slash else path) in
    let named : Text = (if text_eq given slash then slash ++ index_html else given) in
    elim (Bool-cases (ends_with_slash named)) [
      | inl e ↦ (named ++ index_html, rw e, ends_with_slash-append named b'i' _)
      | inr e ↦ (named, rw e, e)
    ]
