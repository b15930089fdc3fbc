-- ===== src/Muduo/Http/Paths/Tests.antt =====
-- Runs of the path functions, and the theorems on concrete paths.
use linux_os.Base.{◌≡◌, refl, List, [], ◌∷◌, some, true, false}
use linux_os.Muduo.Http.UrlCode.{url_decode}
use linux_os.Muduo.Http.Paths.{Text, split, slash, valid_from, is_valid_path, match_route}
use linux_os.Muduo.Http.Paths.Split.{SplitsTo, split-SplitsTo}
use linux_os.Muduo.Http.Paths.Levels.{resolve, is_some, valid_from-resolve}

-- "a/../b/"
abbrev sample_path : Text
sample_path = b'a' ∷ b'/' ∷ b'.' ∷ b'.' ∷ b'/' ∷ b'b' ∷ b'/' ∷ []

-- "../b"
abbrev climbing_path : Text
climbing_path = b'.' ∷ b'.' ∷ b'/' ∷ b'b' ∷ []

split-test : split sample_path slash ≡ some ((b'a' ∷ []) ∷ (b'.' ∷ b'.' ∷ []) ∷ (b'b' ∷ []) ∷ [])
unfolding split
split-test = refl

is_valid_path-test : is_valid_path sample_path ≡ some true
unfolding is_valid_path
is_valid_path-test = refl

is_valid_path-climbing_test : is_valid_path climbing_path ≡ some false
unfolding is_valid_path
is_valid_path-climbing_test = refl

-- "/:x/c" on "/a%2F/c": the parameter is decoded after the path is split.
match_route-test :
    match_route
      (b'/' ∷ b':' ∷ b'x' ∷ b'/' ∷ b'c' ∷ [])
      (b'/' ∷ b'a' ∷ b'%' ∷ b'2' ∷ b'F' ∷ b'/' ∷ b'c' ∷ [])
    ≡ some ((b'x' ∷ [], b'a' ∷ b'/' ∷ []) ∷ [])
unfolding match_route url_decode
match_route-test = refl

split-SplitsTo_example :
    (parts : List Text) × (split sample_path (b'/' ∷ []) ≡ some parts)
    × SplitsTo b'/' sample_path parts
split-SplitsTo_example = split-SplitsTo b'/' sample_path

valid_from-resolve_example :
    valid_from 1 ((b'.' ∷ b'.' ∷ []) ∷ (b'.' ∷ b'.' ∷ []) ∷ [])
    ≡ is_some (resolve ((b'a' ∷ []) ∷ []) ((b'.' ∷ b'.' ∷ []) ∷ (b'.' ∷ b'.' ∷ []) ∷ []))
valid_from-resolve_example =
    valid_from-resolve ((b'a' ∷ []) ∷ []) ((b'.' ∷ b'.' ∷ []) ∷ (b'.' ∷ b'.' ∷ []) ∷ [])
