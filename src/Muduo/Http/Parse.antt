-- ===== src/Muduo/Http/Parse.antt =====
-- muduo/http/httpserver.hpp, the parsing functions of HttpContext: of the request line, of the query
-- and of a header line. They change the request that is given, here their result.
use linux_os.Base.{
  ℕ, zero, suc, ◌+◌, [], ◌∷◌, none, some, Bool, true, false, ◌||◌, ◌==◌, if◌then◌else◌, length,
  take, drop,
}
use linux_os.Muduo.Buffer.{memchr, newline}
use linux_os.Muduo.Http.UrlCode.{url_decode}
use linux_os.Muduo.Http.Paths.{Text, find, is_empty}
use linux_os.Muduo.Http.Message.{HttpRequest, set_headers, set_params}

-- `if (!s.empty() && s.back() == ch) s.pop_back();`
unfoldable pub pop_back_if : ℕ → Text → Text
pop_back_if ch [] = []
pop_back_if ch (x ∷ []) = if x == ch then [] else x ∷ []
pop_back_if ch (x ∷ y ∷ xs) = x ∷ pop_back_if ch (y ∷ xs)

unfoldable pub chomp : Text → Text
unfolding pop_back_if
chomp line = pop_back_if b'\r' (pop_back_if newline line)

-- One round of ParseQueryString, on the text between two ampersands.
unfoldable pub add_param : HttpRequest → Text → HttpRequest
unfolding set_params memchr url_decode
add_param r kv = if is_empty kv then r else elim (memchr b'=' kv) [
  | none ↦ set_params r (url_decode kv true) []
  | some eq_pos ↦
      set_params r (url_decode (take eq_pos kv) true) (url_decode (drop (eq_pos + 1) kv) true)
]

-- The loop on the query string from `start` on; without fuel it is left where it stands.
unfoldable pub parse_query_loop : ℕ → HttpRequest → Text → HttpRequest
unfolding memchr add_param
parse_query_loop zero r query = r
parse_query_loop (suc f) r query = elim (memchr b'&' query) [
  | none ↦ add_param r query
  | some end ↦ parse_query_loop f (add_param r (take end query)) (drop (end + 1) query)
]

unfoldable pub parse_query_string : HttpRequest → HttpRequest
unfolding parse_query_loop
parse_query_string r = parse_query_loop (length r.query_string + 1) r r.query_string

-- The path and the query of the request's uri.
unfoldable pub parse_uri : HttpRequest → HttpRequest
unfolding memchr parse_query_string
parse_uri r = elim (memchr b'?' r.uri) [
  | none ↦ record r { path = r.uri; query_string = [] }
  | some qpos ↦
      parse_query_string (record r { path = take qpos r.uri; query_string = drop (qpos + 1) r.uri })
]

-- The request may have changed also where the line is refused.
unfoldable pub parse_req_line : HttpRequest → Text → Bool × HttpRequest
unfolding chomp memchr parse_uri
parse_req_line r req_line =
    let line = chomp req_line in
    elim (memchr b' ' line) [
      | none ↦ (false, r)
      | some pos1 ↦ elim (memchr b' ' (drop (pos1 + 1) line)) [
        | none ↦ (false, r)
        | some gap ↦
            let r' : HttpRequest = record r {
              method = take pos1 line;
              uri = take gap (drop (pos1 + 1) line);
              http_version = drop (gap + 1) (drop (pos1 + 1) line);
            } in
            if is_empty r'.method || is_empty r'.uri || is_empty r'.http_version
            then (false, r')
            else (true, parse_uri r')
      ]
    ]

unfoldable pub parse_http_head : HttpRequest → Text → Bool × HttpRequest
unfolding chomp find set_headers
parse_http_head r line =
    let head = chomp line in
    elim (find (b':' ∷ b' ' ∷ []) head) [
      | none ↦ (false, r)
      | some at ↦ (true, set_headers r (take at head) (drop (at + 2) head))
    ]
