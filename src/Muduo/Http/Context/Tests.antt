-- ===== src/Muduo/Http/Context/Tests.antt =====
-- Runs of the reader of requests, and the theorems on concrete requests.
use linux_os.Base.{
  ℕ, ◌+◌, ◌≡◌, refl, List, [], ◌∷◌, Option, none, some, true, arith, length, pos, negsuc,
}
use linux_os.Muduo.Buffer.{Buffer}
use linux_os.Muduo.Buffer.Laws.{IsValid, contents}
use linux_os.Muduo.Http.Paths.{Text, text_eq}
use linux_os.Muduo.Http.Message.{HttpRequest, new_request, content_length, stoi}
use linux_os.Muduo.Http.Context.{
  HttpContext, recv_req_line, recv_req_body, recv_req_over, Run, returned, thrown, aborted,
  new_context, receive_http_body, receive_http_request,
}
use linux_os.Muduo.Http.Context.Progress.{Settles, BadFrom, receive_http_request-Settles}
use linux_os.Muduo.Http.Context.Body.{BodyRead, receive_http_body-BodyRead}

-- "GET / HTTP/1.1\n\n"
abbrev simple_request : List ℕ
simple_request =
    b'G' ∷ b'E' ∷ b'T' ∷ b' ' ∷ b'/' ∷ b' ' ∷ b'H' ∷ b'T' ∷ b'T' ∷ b'P' ∷ b'/' ∷ b'1' ∷ b'.' ∷ b'1'
    ∷ b'\n' ∷ b'\n' ∷ []

abbrev simple_buffer : Buffer
simple_buffer = record { buffer = simple_request; write_idx = length simple_request; read_idx = 0 }

-- What a run leaves of the request's line and body, if it returns with a complete request.
abbrev finished : Run (HttpContext × Buffer) → Option (Text × Text × Text × Text)
finished (returned (c, b)) = elim c.status [
  | recv_req_over ↦ some (c.request.method, c.request.path, c.request.http_version, c.request.body)
  | _ ↦ none
]
finished thrown = none
finished aborted = none

receive_http_request-test :
    finished (receive_http_request new_context simple_buffer)
    ≡ some (
      b'G' ∷ b'E' ∷ b'T' ∷ [],
      b'/' ∷ [],
      b'H' ∷ b'T' ∷ b'T' ∷ b'P' ∷ b'/' ∷ b'1' ∷ b'.' ∷ b'1' ∷ [],
      [],
    )
unfolding receive_http_request new_context
receive_http_request-test = refl

stoi-test : stoi (b' ' ∷ b'-' ∷ b'1' ∷ b'2' ∷ b'x' ∷ []) ≡ some (negsuc 11)
unfolding stoi
stoi-test = refl

simple_buffer-IsValid : IsValid simple_buffer
simple_buffer-IsValid = record { ordered = omega arith; inside = omega arith; small = omega arith }

receive_http_request-Settles_example :
    Settles
      (BadFrom recv_req_line new_request simple_buffer)
      (length (contents simple_buffer) + 1)
      (receive_http_request new_context simple_buffer)
unfolding new_context
receive_http_request-Settles_example =
    receive_http_request-Settles new_context simple_buffer refl simple_buffer-IsValid

-- A request of three bytes, of which one has come, and the next with a byte of another request.
abbrev half_request : HttpRequest
half_request = record new_request {
  body = b'a' ∷ [];
  req_headers =
      (
        b'C' ∷ b'o' ∷ b'n' ∷ b't' ∷ b'e' ∷ b'n' ∷ b't' ∷ b'-' ∷ b'L' ∷ b'e' ∷ b'n' ∷ b'g' ∷ b't'
            ∷ b'h' ∷ [],
        b'3' ∷ [],
      )
      ∷ [];
}

abbrev half_context : HttpContext
half_context = record { resp_code = 200; status = recv_req_body; request = half_request }

half_request-length : content_length half_request ≡ some (pos 3)
unfolding content_length new_request text_eq
half_request-length = refl

receive_http_body-BodyRead_example :
    (c' : HttpContext) × (b' : Buffer) × (receive_http_body half_context simple_buffer
      ≡ returned (true, c', b'))
    × BodyRead 3 half_context simple_buffer c' b'
unfolding new_request
receive_http_body-BodyRead_example =
    receive_http_body-BodyRead half_context simple_buffer 3 simple_buffer-IsValid refl
      half_request-length (omega arith)
