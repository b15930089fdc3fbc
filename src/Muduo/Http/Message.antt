-- ===== src/Muduo/Http/Message.antt =====
-- muduo/http/httpserver.hpp, HttpRequest and HttpResponse. The hash maps are association lists with
-- one entry for each key; an `int` is an integer of 32 bits.
use linux_os.Base.{
  ℕ, zero, suc, ◌+◌, ◌-◌, ◌*◌, ◌^◌, List, [], ◌∷◌, Option, none, some, Bool, true, false, ◌&&◌,
  ◌||◌, ltb, leb, ◌==◌, if◌then◌else◌, ℤ, pos, negsuc,
}
use linux_os.Muduo.Http.Paths.{Text, text_eq, insert}

abbrev pub TextMap : Type 0
TextMap = List (Text × Text)

-- `find(key)`, as the entry's second part.
unfoldable pub lookup : Text → TextMap → Option Text
lookup key [] = none
lookup key ((k, v) ∷ m) = let rest = lookup key m in if text_eq k key then some v else rest

unfoldable pub has : Text → TextMap → Bool
unfolding lookup
has key m = elim (lookup key m) [ none ↦ false | some v ↦ true ]

unfoldable pub value_or_empty : Text → TextMap → Text
unfolding lookup
value_or_empty key m = elim (lookup key m) [ none ↦ [] | some v ↦ v ]

pub record HttpRequest : Type 0 where
  pub method : Text
  pub uri : Text
  pub path : Text
  pub query_string : Text
  pub http_version : Text
  pub body : Text
  pub params : TextMap
  pub path_params : TextMap
  pub req_headers : TextMap

-- A new request, and one after Reset.
unfoldable pub new_request : HttpRequest
new_request = record {
  method = [];
  uri = [];
  path = [];
  query_string = [];
  http_version = [];
  body = [];
  params = [];
  path_params = [];
  req_headers = [];
}

unfoldable pub set_headers : HttpRequest → Text → Text → HttpRequest
unfolding insert
set_headers r key val = record r { req_headers = insert key val r.req_headers }

unfoldable pub set_params : HttpRequest → Text → Text → HttpRequest
unfolding insert
set_params r key val = record r { params = insert key val r.params }

unfoldable pub set_path_param : HttpRequest → Text → Text → HttpRequest
unfolding insert
set_path_param r key val = record r { path_params = insert key val r.path_params }

-- The bytes that `isspace` accepts, in the C locale.
unfoldable pub is_space : ℕ → Bool
is_space c = c == b' ' || (leb 9 c && leb c 13)

unfoldable pub is_digit : ℕ → Bool
is_digit c = leb b'0' c && leb c b'9'

unfoldable pub skip_spaces : Text → Text
unfolding is_space
skip_spaces [] = []
skip_spaces (c ∷ cs) = let rest = skip_spaces cs in if is_space c then rest else c ∷ cs

-- The number that the leading digits spell, after `n`.
unfoldable pub digits : ℕ → Text → ℕ
unfolding is_digit
digits n [] = n
digits n (c ∷ cs) = let more = digits (n * 10 + (c - b'0')) cs in if is_digit c then more else n

-- A number without a sign, `none` without a digit.
unfoldable pub unsigned : Text → Option ℕ
unfolding is_digit digits
unsigned [] = none
unsigned (c ∷ cs) = if is_digit c then some (digits 0 (c ∷ cs)) else none

unfoldable pub negative : ℕ → ℤ
negative zero = pos 0
negative (suc n) = negsuc n

-- `std::stoi`; `none` is an exception.
unfoldable pub signed : Text → Option ℤ
unfolding unsigned negative
signed [] = none
signed (c ∷ cs) =
    if c == b'-'
    then elim (unsigned cs) [
      | none ↦ none
      | some n ↦ if leb n (2 ^ 31) then some (negative n) else none
    ]
    else elim (unsigned (if c == b'+' then cs else c ∷ cs)) [
      | none ↦ none
      | some n ↦ if ltb n (2 ^ 31) then some (pos n) else none
    ]

unfoldable pub stoi : Text → Option ℤ
unfolding skip_spaces signed
stoi str = signed (skip_spaces str)

-- "Content-Length"
abbrev pub content_length_key : Text
content_length_key =
    b'C' ∷ b'o' ∷ b'n' ∷ b't' ∷ b'e' ∷ b'n' ∷ b't' ∷ b'-' ∷ b'L' ∷ b'e' ∷ b'n' ∷ b'g' ∷ b't' ∷ b'h'
    ∷ []

-- "Connection"
abbrev pub connection_key : Text
connection_key = b'C' ∷ b'o' ∷ b'n' ∷ b'n' ∷ b'e' ∷ b'c' ∷ b't' ∷ b'i' ∷ b'o' ∷ b'n' ∷ []

-- "keep-alive"
abbrev pub keep_alive_text : Text
keep_alive_text = b'k' ∷ b'e' ∷ b'e' ∷ b'p' ∷ b'-' ∷ b'a' ∷ b'l' ∷ b'i' ∷ b'v' ∷ b'e' ∷ []

-- "HTTP/1.1"
abbrev pub http_1_1 : Text
http_1_1 = b'H' ∷ b'T' ∷ b'T' ∷ b'P' ∷ b'/' ∷ b'1' ∷ b'.' ∷ b'1' ∷ []

unfoldable pub content_length : HttpRequest → Option ℤ
unfolding has value_or_empty stoi
content_length r =
    if has content_length_key r.req_headers
    then stoi (value_or_empty content_length_key r.req_headers)
    else some (pos 0)

unfoldable pub is_keep_alive : HttpRequest → Bool
unfolding has value_or_empty text_eq
is_keep_alive r =
    if has connection_key r.req_headers
    then text_eq (value_or_empty connection_key r.req_headers) keep_alive_text
    else text_eq r.http_version http_1_1
