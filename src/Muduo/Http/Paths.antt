-- ===== src/Muduo/Http/Paths.antt =====
-- muduo/http/httpserver.hpp: Util::Split and Util::IsValidPath, and of HttpServer BuildFilePath and
-- MatchRoute. Split takes fuel; `none` is a loop that does not end, and for MatchRoute `false`.
pub mod Split
pub mod Levels
mod Tests
use linux_os.Base.{
  ℕ, zero, suc, ◌+◌, ◌-◌, List, [], ◌∷◌, ◌++◌, Option, none, some, Bool, true, false, not, ◌&&◌,
  ◌||◌, ltb, ◌==◌, if◌then◌else◌, length, take, drop,
}
use linux_os.Muduo.Http.UrlCode.{url_decode}

abbrev pub Text : Type 0
Text = List ℕ

abbrev pub is_empty {ℓ} : {A : Type ℓ} → List A → Bool
is_empty [] = true
is_empty (x ∷ xs) = false

unfoldable pub text_eq : Text → Text → Bool
text_eq [] [] = true
text_eq [] (y ∷ ys) = false
text_eq (x ∷ xs) [] = false
text_eq (x ∷ xs) (y ∷ ys) = x == y && text_eq xs ys

unfoldable pub starts_with : Text → Text → Bool
starts_with [] xs = true
starts_with (s ∷ sep) [] = false
starts_with (s ∷ sep) (x ∷ xs) = s == x && starts_with sep xs

-- `src.find(sep)`: where the separator first begins.
unfoldable pub find : Text → Text → Option ℕ
unfolding starts_with
find sep [] = if is_empty sep then some 0 else none
find sep (x ∷ xs) =
    let later = find sep xs in
    if starts_with sep (x ∷ xs)
    then some 0
    else elim later [ none ↦ none | some pos ↦ some (pos + 1) ]

-- The loop on the text from `offset` on.
unfoldable pub split_loop : ℕ → Text → Text → Option (List Text)
unfolding find
split_loop zero rest sep = none
split_loop (suc f) rest sep = if is_empty rest then some [] else elim (find sep rest) [
  | none ↦ some (rest ∷ [])
  | some pos ↦ elim (split_loop f (drop (pos + length sep) rest) sep) [
    | none ↦ none
    | some parts ↦ some (take pos rest ∷ parts)
  ]
]

unfoldable pub split : Text → Text → Option (List Text)
unfolding split_loop
split src sep = split_loop (length src + 1) src sep

abbrev pub slash : Text
slash = b'/' ∷ []

-- The loop over the parts; `--level` below 0 is a level of 0 before it.
unfoldable pub valid_from : ℕ → List Text → Bool
unfolding text_eq
valid_from level [] = true
valid_from level (e ∷ es) =
    let skipped = valid_from level es in
    let up = valid_from (level - 1) es in
    let down = valid_from (level + 1) es in
    if is_empty e || text_eq e (b'.' ∷ [])
    then skipped
    else if text_eq e (b'.' ∷ b'.' ∷ [])
    then (if level == 0 then false else up)
    else down

unfoldable pub is_valid_path : Text → Option Bool
unfolding split valid_from
is_valid_path path = elim (split path slash) [
  | none ↦ none
  | some subdir ↦ some (valid_from 0 subdir)
]

unfoldable pub ends_with_slash : Text → Bool
ends_with_slash [] = false
ends_with_slash (c ∷ []) = c == b'/'
ends_with_slash (c ∷ d ∷ cs) = ends_with_slash (d ∷ cs)

-- "index.html"
abbrev pub index_html : Text
index_html = b'i' ∷ b'n' ∷ b'd' ∷ b'e' ∷ b'x' ∷ b'.' ∷ b'h' ∷ b't' ∷ b'm' ∷ b'l' ∷ []

unfoldable pub build_file_path : Text → Text → Text
unfolding text_eq ends_with_slash
build_file_path base_dir path =
    let given = if is_empty path then slash else path in
    let normalized = if text_eq given slash then slash ++ index_html else given in
    base_dir ++ (if ends_with_slash normalized then normalized ++ index_html else normalized)

-- `pattern_segment.size() > 1 && pattern_segment[0] == ':'`
unfoldable pub is_parameter : Text → Bool
is_parameter [] = false
is_parameter (c ∷ cs) = ltb 1 (length (c ∷ cs)) && c == b':'

-- `matched[key] = value`
unfoldable pub insert : Text → Text → List (Text × Text) → List (Text × Text)
unfolding text_eq
insert key value [] = (key, value) ∷ []
insert key value ((k, v) ∷ m) =
    if text_eq k key then (key, value) ∷ m else (k, v) ∷ insert key value m

-- The loop over the segments, whose numbers are the same, with what it has matched.
unfoldable pub match_segments :
    List Text → List Text → List (Text × Text) → Option (List (Text × Text))
unfolding is_parameter insert text_eq
match_segments [] [] matched = some matched
match_segments [] (s ∷ path) matched = none
match_segments (p ∷ pattern) [] matched = none
match_segments (p ∷ pattern) (s ∷ path) matched =
    let bound = match_segments pattern path (insert (drop 1 p) (url_decode s false) matched) in
    let fixed = match_segments pattern path matched in
    if is_parameter p then bound else if text_eq p s then fixed else none

unfoldable pub match_route : Text → Text → Option (List (Text × Text))
unfolding split match_segments
match_route pattern path = elim (split pattern slash) [
  | none ↦ none
  | some pattern_segments ↦ elim (split path slash) [
    | none ↦ none
    | some path_segments ↦
        if length pattern_segments == length path_segments
        then match_segments pattern_segments path_segments []
        else none
  ]
]
