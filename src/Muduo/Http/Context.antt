-- ===== src/Muduo/Http/Context.antt =====
-- muduo/http/httpserver.hpp, HttpContext: the reader of requests, which takes what has arrived in a
-- connection's buffer. The assignments to the context are its new value.
pub mod Progress
pub mod Body
mod Tests
use linux_os.Base.{
  ℕ, zero, suc, ◌+◌, ◌-◌, List, [], ◌∷◌, ◌++◌, Option, none, some, Bool, true, false, ◌||◌, ltb,
  leb, ◌==◌, if◌then◌else◌, length, pos, negsuc,
}
use linux_os.Muduo.Buffer.{
  Buffer, readable_size, find_crlf, get_line_and_pop, read_and_pop, newline,
}
use linux_os.Muduo.Http.Paths.{Text, text_eq}
use linux_os.Muduo.Http.Message.{HttpRequest, new_request, content_length}
use linux_os.Muduo.Http.Parse.{parse_req_line, parse_http_head}

abbrev pub max_line : ℕ
max_line = 8192

pub data HttpRecvStatus : Type 0 where
  recv_req_line : HttpRecvStatus
  recv_req_head : HttpRecvStatus
  recv_req_body : HttpRecvStatus
  recv_req_over : HttpRecvStatus
  recv_req_error : HttpRecvStatus

pub record HttpContext : Type 0 where
  pub resp_code : ℕ
  pub status : HttpRecvStatus
  pub request : HttpRequest

-- How a call ends: it returns, throws an exception, or aborts by a failed `assert`. A loop that
-- has not ended when its fuel is used up counts as aborted.
pub data Run {ℓ} (A : Type ℓ) : Type ℓ where
  returned : A → Run A
  thrown : Run A
  aborted : Run A

-- A new context, and one after Reset.
unfoldable pub new_context : HttpContext
unfolding new_request
new_context = record { resp_code = 200; status = recv_req_line; request = new_request }

unfoldable pub fail_with : HttpContext → ℕ → HttpContext
fail_with c code = record c { resp_code = code; status = recv_req_error }

unfoldable pub at_line : HttpRecvStatus → Bool
at_line recv_req_line = true
at_line recv_req_head = false
at_line recv_req_body = false
at_line recv_req_over = false
at_line recv_req_error = false

unfoldable pub at_head : HttpRecvStatus → Bool
at_head recv_req_line = false
at_head recv_req_head = true
at_head recv_req_body = false
at_head recv_req_over = false
at_head recv_req_error = false

unfoldable pub at_body : HttpRecvStatus → Bool
at_body recv_req_line = false
at_body recv_req_head = false
at_body recv_req_body = true
at_body recv_req_over = false
at_body recv_req_error = false

-- What the reading functions leave: their result, the context and the buffer.
abbrev pub Reading : Type 0
Reading = Run (Bool × HttpContext × Buffer)

-- Where no line is complete: an error if it is too long already.
unfoldable pub wait_for_line : HttpContext → Buffer → Reading
unfolding fail_with readable_size
wait_for_line c b =
    if ltb max_line (readable_size b)
    then returned (false, fail_with c 414, b)
    else returned (true, c, b)

-- What RecvReqLine does with a line.
unfoldable pub take_req_line : HttpContext → Text → Bool × HttpContext
unfolding fail_with parse_req_line
take_req_line c req_line =
    let (ok, request) = parse_req_line c.request req_line in
    if ltb max_line (length req_line)
    then (false, fail_with c 414)
    else if ok
    then (true, record c { request = request; status = recv_req_head })
    else (false, fail_with (record c { request = request }) 400)

unfoldable pub receive_req_line : HttpContext → Buffer → Reading
unfolding at_line find_crlf wait_for_line get_line_and_pop take_req_line
receive_req_line c b =
    if at_line c.status
    then elim (find_crlf b) [
      | none ↦ wait_for_line c b
      | some i ↦ elim (get_line_and_pop b) [
        | none ↦ aborted
        | some (req_line, b') ↦ let (ok, c') = take_req_line c req_line in returned (ok, c', b')
      ]
    ]
    else returned (false, c, b)

-- Whether the loop of RecvReqHead goes on, or returns and what.
pub data Next : Type 0 where
  go_on : Next
  stop : Bool → Next

-- "\r\n" or "\n"
unfoldable pub is_blank : Text → Bool
unfolding text_eq
is_blank line = text_eq line (b'\r' ∷ newline ∷ []) || text_eq line (newline ∷ [])

-- What RecvReqHead does with a line.
unfoldable pub take_head_line : HttpContext → Text → Next × HttpContext
unfolding fail_with is_blank parse_http_head
take_head_line c line =
    let (ok, request) = parse_http_head c.request line in
    if ltb max_line (length line)
    then (stop false, fail_with c 414)
    else if is_blank line
    then (stop true, record c { status = recv_req_body })
    else if ok
    then (go_on, record c { request = request })
    else (stop false, fail_with c 400)

unfoldable pub receive_head_loop : ℕ → HttpContext → Buffer → Reading
unfolding find_crlf wait_for_line get_line_and_pop take_head_line
receive_head_loop zero c b = aborted
receive_head_loop (suc f) c b = elim (find_crlf b) [
  | none ↦ wait_for_line c b
  | some i ↦ elim (get_line_and_pop b) [
    | none ↦ aborted
    | some (line, b') ↦
        let (next, c') = take_head_line c line in
        elim next [ go_on ↦ receive_head_loop f c' b' | stop ok ↦ returned (ok, c', b') ]
  ]
]

unfoldable pub receive_req_head : HttpContext → Buffer → Reading
unfolding at_head receive_head_loop readable_size
receive_req_head c b =
    if at_head c.status then receive_head_loop (readable_size b + 1) c b else returned (false, c, b)

unfoldable pub over : HttpContext → HttpContext
over c = record c { status = recv_req_over }

unfoldable pub append_body : HttpContext → Text → HttpContext
append_body c bytes = record c { request = record c.request { body = c.request.body ++ bytes } }

-- The body of a request with a positive content length, of which `need_length` bytes are missing.
unfoldable pub take_body : HttpContext → Buffer → ℕ → Reading
unfolding over append_body readable_size read_and_pop
take_body c b need_length =
    let readable = readable_size b in
    if need_length == 0
    then returned (true, over c, b)
    else if leb need_length readable
    then elim (read_and_pop b need_length) [
      | none ↦ aborted
      | some (bytes, b') ↦ returned (true, over (append_body c bytes), b')
    ]
    else if ltb 0 readable
    then elim (read_and_pop b readable) [
      | none ↦ aborted
      | some (bytes, b') ↦ returned (true, append_body c bytes, b')
    ]
    else returned (true, c, b)

-- A negative content length leaves nothing to read. Body lengths fit in an `int`, since no body gets
-- longer than its content length.
unfoldable pub receive_http_body : HttpContext → Buffer → Reading
unfolding at_body content_length over take_body
receive_http_body c b =
    if at_body c.status
    then elim (content_length c.request) [
      | none ↦ thrown
      | some (pos zero) ↦ returned (true, over c, b)
      | some (pos (suc n)) ↦ take_body c b (suc n - length c.request.body)
      | some (negsuc n) ↦ returned (true, over c, b)
    ]
    else returned (false, c, b)

-- `if (!reading) return;`, and then the rest.
unfoldable pub and_then :
    Reading → (HttpContext → Buffer → Run (HttpContext × Buffer)) → Run (HttpContext × Buffer)
and_then (returned (true, c, b)) rest = rest c b
and_then (returned (false, c, b)) rest = returned (c, b)
and_then thrown rest = thrown
and_then aborted rest = aborted

unfoldable pub from_body : HttpContext → Buffer → Run (HttpContext × Buffer)
unfolding and_then receive_http_body
from_body c b = and_then (receive_http_body c b) (λ c' b'. returned (c', b'))

unfoldable pub from_head : HttpContext → Buffer → Run (HttpContext × Buffer)
unfolding and_then receive_req_head from_body
from_head c b = and_then (receive_req_head c b) from_body

-- The cases of the switch fall through to the next.
unfoldable pub receive_http_request : HttpContext → Buffer → Run (HttpContext × Buffer)
unfolding and_then receive_req_line from_head from_body
receive_http_request c b = elim c.status [
  | recv_req_line ↦ and_then (receive_req_line c b) from_head
  | recv_req_head ↦ from_head c b
  | recv_req_body ↦ from_body c b
  | recv_req_over ↦ returned (c, b)
  | recv_req_error ↦ returned (c, b)
]
