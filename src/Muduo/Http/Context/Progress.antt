-- ===== src/Muduo/Http/Context/Progress.antt =====
-- How far HttpContext reads: it stops only for an error, at the end of a request, or where more of
-- the request has to arrive.
use linux_os.Base.{
  ℕ, zero, suc, ◌+◌, ◌-◌, ◌<◌, ◌≤◌, ◌≡◌, ◌⊎◌, Bool, none, some, if◌then◌else◌, inl, inr, refl, sym,
  ap, true, false, arith, ltb, leb, ◌==◌, length, length-drop, subst, NotIn, Option-cases,
  Bool-cases, pos, negsuc,
}
use linux_os.Muduo.Buffer.{Buffer, newline, readable_size}
use linux_os.Muduo.Buffer.Laws.{IsValid, contents, readable_size-length}
use linux_os.Muduo.Buffer.Queue.{read_and_pop-contents}
use linux_os.Muduo.Buffer.Lines.{line_cases}
use linux_os.Muduo.Http.Paths.{Text}
use linux_os.Muduo.Http.Message.{
  HttpRequest, new_request, content_length, content_length_key, has, value_or_empty, stoi,
}
use linux_os.Muduo.Http.Parse.{parse_req_line, parse_http_head}
use linux_os.Muduo.Http.Context.{
  Reading, HttpContext, new_context, HttpRecvStatus, recv_req_line, recv_req_head, recv_req_body,
  recv_req_over, recv_req_error, Run, returned, thrown, aborted, max_line, fail_with, at_line,
  at_head, at_body, wait_for_line, take_req_line, receive_req_line, go_on, stop, is_blank,
  take_head_line, receive_head_loop, receive_req_head, over, append_body, take_body,
  receive_http_body, and_then, from_body, from_head, receive_http_request,
}

-- The buffer holds only the beginning of a line, and not too much of it.
pub record WantsLine (b : Buffer) : Type 0 where
  pub no_newline : NotIn newline (contents b)
  pub not_too_long : length (contents b) ≤ max_line

-- What is true of a context after a call, by its status. After a complete request fewer than
-- `bound` bytes are left.
abbrev pub IsSettled : ℕ → HttpRecvStatus → ℕ → Buffer → Type 0
IsSettled bound recv_req_line code b = (code ≡ 200) × WantsLine b
IsSettled bound recv_req_head code b = (code ≡ 200) × WantsLine b
IsSettled bound recv_req_body code b = (code ≡ 200) × (length (contents b) ≡ 0)
IsSettled bound recv_req_over code b = (code ≡ 200) × (length (contents b) < bound)
IsSettled bound recv_req_error code b = 400 ≤ code

-- The call does not abort, throws only where `Bad` holds, and leaves a valid buffer and a settled
-- context if it throws nothing.
abbrev pub Settles : Type 0 → ℕ → Run (HttpContext × Buffer) → Type 0
Settles Bad bound (returned (c, b)) = IsValid b × IsSettled bound c.status c.resp_code b
Settles Bad bound thrown = Bad
Settles Bad bound aborted = ⊥

-- The request has a Content-Length that is no number, or none that fits.
abbrev pub BadLength : HttpRequest → Type 0
BadLength r =
    (has content_length_key r.req_headers ≡ true)
    × (stoi (value_or_empty content_length_key r.req_headers) ≡ none)

content_length-BadLength : (r : HttpRequest) → content_length r ≡ none → BadLength r
unfolding content_length
content_length-BadLength r h = elim (Bool-cases (has content_length_key r.req_headers)) [
  | inl e ↦ (
    e,
    subst
        (λ (k : Bool).
          (if k then stoi (value_or_empty content_length_key r.req_headers) else some (pos 0))
          ≡ none)
        e h,
  )
  | inr e ↦ absurd (
      some_none (
        subst
          (λ (k : Bool).
            (if k then stoi (value_or_empty content_length_key r.req_headers) else some (pos 0))
            ≡ none)
          e h))
]
  where
    some_none : {A : Type 0} {a : A} → some a ≡ none → ⊥
    some_none e = cc

widen_status :
    (m n : ℕ) (status : HttpRecvStatus) (code : ℕ) (b : Buffer)
    → m ≤ n
    → IsSettled m status code b
    → IsSettled n status code b
widen_status m n recv_req_line code b h s = s
widen_status m n recv_req_head code b h s = s
widen_status m n recv_req_body code b h s = s
widen_status m n recv_req_over code b h s = (s.0, omega (arith, s.1, h))
widen_status m n recv_req_error code b h s = s

widen_run :
    {Bad Bad' : Type 0} (m n : ℕ) (run : Run (HttpContext × Buffer))
    → m ≤ n
    → (Bad → Bad')
    → Settles Bad m run
    → Settles Bad' n run
widen_run m n (returned (c, b)) h f (v, s) = (v, widen_status m n c.status c.resp_code b h s)
widen_run m n thrown h f s = f s
widen_run m n aborted h f s = s

-- A context without an error.
abbrev pub reading : HttpRecvStatus → HttpRequest → HttpContext
reading status request = record { resp_code = 200; status = status; request = request }

-- The run has read a complete head, whose Content-Length is bad.
abbrev pub ReadBad : Reading → Type 0
ReadBad run =
    (r : HttpRequest) × (b : Buffer) × (run ≡ returned (true, reading recv_req_body r, b))
    × BadLength r

abbrev pub BadHead : HttpRequest → Buffer → Type 0
BadHead r b = ReadBad (receive_req_head (reading recv_req_head r) b)

-- The run has read a request line, and the head behind it is such a one.
abbrev pub LineBad : Reading → Type 0
LineBad run =
    (r : HttpRequest) × (b : Buffer) × (run ≡ returned (true, reading recv_req_head r, b))
    × BadHead r b

abbrev pub BadLine : HttpRequest → Buffer → Type 0
BadLine r b = LineBad (receive_req_line (reading recv_req_line r) b)

head_read :
    (r : HttpRequest) (b : Buffer)
    → BadLength r
    → ReadBad (returned (true, reading recv_req_body r, b))
head_read r b bad = (r, b, refl, bad)

line_read :
    (r : HttpRequest) (b : Buffer)
    → BadHead r b
    → LineBad (returned (true, reading recv_req_head r, b))
line_read r b bad = (r, b, refl, bad)

-- The request that is being read turns out to have a bad Content-Length.
abbrev pub BadFrom : HttpRecvStatus → HttpRequest → Buffer → Type 0
BadFrom recv_req_line r b = BadLine r b
BadFrom recv_req_head r b = BadHead r b
BadFrom recv_req_body r b = BadLength r
BadFrom recv_req_over r b = ⊥
BadFrom recv_req_error r b = ⊥

abbrev failed : ℕ → HttpRequest → HttpContext
failed code request = record { resp_code = code; status = recv_req_error; request = request }

take_req_line-cases :
    (r : HttpRequest) (line : Text)
    → (r' : HttpRequest) × ((take_req_line (reading recv_req_line r) line
          ≡ (true, reading recv_req_head r'))
        ⊎ ((code : ℕ) × (400 ≤ code)
            × (take_req_line (reading recv_req_line r) line ≡ (false, failed code r'))))
unfolding take_req_line fail_with
take_req_line-cases r line = elim (Bool-cases (ltb max_line (length line))) [
  | inl e ↦ (r, inr (414, omega arith, rw e))
  | inr e ↦ (
    (parse_req_line r line).1,
    elim (Bool-cases (parse_req_line r line).0) [
      | inl ok ↦ inl (rw (e, ok))
      | inr bad ↦ inr (400, omega arith, rw (e, bad))
    ],
  )
]

take_head_line-cases :
    (r : HttpRequest) (line : Text)
    → (r' : HttpRequest) × ((take_head_line (reading recv_req_head r) line
          ≡ (go_on, reading recv_req_head r'))
        ⊎ (take_head_line (reading recv_req_head r) line ≡ (stop true, reading recv_req_body r'))
        ⊎ ((code : ℕ) × (400 ≤ code)
            × (take_head_line (reading recv_req_head r) line ≡ (stop false, failed code r'))))
unfolding take_head_line fail_with
take_head_line-cases r line = elim (Bool-cases (ltb max_line (length line))) [
  | inl e ↦ (r, inr (inr (414, omega arith, rw e)))
  | inr e ↦ elim (Bool-cases (is_blank line)) [
    | inl blank ↦ (r, inr (inl (rw (e, blank))))
    | inr more ↦ elim (Bool-cases (parse_http_head r line).0) [
      | inl ok ↦ ((parse_http_head r line).1, inl (rw (e, more, ok)))
      | inr bad ↦ (r, inr (inr (400, omega arith, rw (e, more, bad))))
    ]
  ]
]

module _ (b : Buffer) (v : IsValid b) where
  -- What is left of waiting for a line, in the two states that do.
  wait_for_line-line :
      (Bad : Type 0) (r : HttpRequest)
      → NotIn newline (contents b)
      → Settles Bad
          (length (contents b))
          (and_then (wait_for_line (reading recv_req_line r) b) from_head)
  unfolding wait_for_line and_then fail_with from_head receive_req_head at_head
  wait_for_line-line Bad r out = elim (Bool-cases (ltb max_line (readable_size b))) [
    | inl e ↦ rw e (v, omega arith)
    | inr e ↦ rw e (
      v,
      (
        refl,
        record { no_newline = out; not_too_long = ground (arith, e, readable_size-length b v) },
      ),
    )
  ]

  wait_for_line-head :
      (Bad : Type 0) (r : HttpRequest)
      → NotIn newline (contents b)
      → Settles Bad
          (length (contents b) + 1)
          (and_then (wait_for_line (reading recv_req_head r) b) from_body)
  unfolding wait_for_line and_then fail_with from_body receive_http_body at_body
  wait_for_line-head Bad r out = elim (Bool-cases (ltb max_line (readable_size b))) [
    | inl e ↦ rw e (v, omega arith)
    | inr e ↦ rw e (
      v,
      (
        refl,
        record { no_newline = out; not_too_long = ground (arith, e, readable_size-length b v) },
      ),
    )
  ]

  take_body-Settles :
      (Bad : Type 0) (r : HttpRequest) (n : ℕ)
      → Settles Bad
          (length (contents b) + 1)
          (and_then (take_body (reading recv_req_body r) b n) (λ c' b'. returned (c', b')))
  unfolding take_body and_then over append_body
  take_body-Settles Bad r zero = (v, (refl, omega arith))
  take_body-Settles Bad r (suc n) =
      let size = readable_size-length b v in
      let missing : (suc n == 0) ≡ false = ground arith in
      elim (Bool-cases (leb (suc n) (readable_size b))) [
        | inl e ↦
            let (b', taken, valid, rest) =
              read_and_pop-contents b (suc n) v (omega arith) (ground (arith, e, size)) in
            rw (missing, e, taken)
              (valid, (refl, omega (arith, ap length rest, length-drop (suc n) (contents b))))
        | inr e ↦ elim (Bool-cases (ltb 0 (readable_size b))) [
          | inl some_left ↦
              let (b', taken, valid, rest) =
                read_and_pop-contents b (readable_size b) v (ground (arith, some_left))
                  (omega (arith, size)) in
              rw (missing, e, some_left, taken)
                (
                  valid,
                  (
                    refl,
                    omega (arith, ap length rest, size, length-drop (readable_size b) (contents b)),
                  ),
                )
          | inr nothing ↦ rw (missing, e, nothing) (v, (refl, ground (arith, nothing, size)))
        ]
      ]

  from_body-Settles :
      (r : HttpRequest)
      → Settles (BadLength r) (length (contents b) + 1) (from_body (reading recv_req_body r) b)
  unfolding from_body receive_http_body at_body and_then over
  from_body-Settles r = elim (Option-cases (content_length r)) [
    | inl e ↦ rw e (content_length-BadLength r e)
    | inr (negsuc n, e) ↦ rw e (v, (refl, omega arith))
    | inr (pos zero, e) ↦ rw e (v, (refl, omega arith))
    | inr (pos (suc n), e) ↦ rw e (take_body-Settles _ r (suc n - length r.body))
  ]

-- The head, with enough fuel for the lines that the buffer can hold.
receive_head_loop-Settles :
    (f : ℕ) (r : HttpRequest) (b : Buffer)
    → IsValid b
    → length (contents b) < f
    → Settles
        (ReadBad (receive_head_loop f (reading recv_req_head r) b))
        (length (contents b) + 1)
        (and_then (receive_head_loop f (reading recv_req_head r) b) from_body)
unfolding receive_head_loop and_then
receive_head_loop-Settles zero r b v h = absurd (omega (arith, h))
receive_head_loop-Settles (suc f) r b v h = elim (line_cases b v) [
  | inl (nothing, out) ↦ rw (nothing, receive_head_loop) (wait_for_line-head b v _ r out)
  | inr (i, line, b', found, taken, valid, shorter) ↦
      let (r', kind) = take_head_line-cases r line in
      elim kind [
        | inl e ↦
            rw (found, taken, e, e, receive_head_loop)
              (widen_run {Bad = ReadBad (receive_head_loop f (reading recv_req_head r') b')}
                (length (contents b') + 1) (length (contents b) + 1)
                (and_then (receive_head_loop f (reading recv_req_head r') b') from_body)
                (omega (arith, shorter)) (λ bad. bad)
                (receive_head_loop-Settles f r' b' valid (omega (arith, shorter, h))))
        | inr (inl e) ↦
            rw (found, taken, e, e, receive_head_loop)
              (widen_run (length (contents b') + 1) (length (contents b) + 1)
                (from_body (reading recv_req_body r') b') (omega (arith, shorter)) (head_read r' b')
                (from_body-Settles b' valid r'))
        | inr (inr (code, bad, e)) ↦ rw (found, taken, e, e, receive_head_loop) (valid, bad)
      ]
]

from_head-Settles :
    (r : HttpRequest) (b : Buffer)
    → IsValid b
    → Settles (BadHead r b) (length (contents b) + 1) (from_head (reading recv_req_head r) b)
unfolding from_head receive_req_head at_head
from_head-Settles r b v =
    receive_head_loop-Settles (readable_size b + 1) r b v (omega (arith, readable_size-length b v))

-- A context that awaits a request line takes at least a byte for a complete request.
pub from_line-Settles :
    (r : HttpRequest) (b : Buffer)
    → IsValid b
    → Settles
        (BadLine r b)
        (length (contents b))
        (and_then (receive_req_line (reading recv_req_line r) b) from_head)
unfolding receive_req_line at_line and_then
from_line-Settles r b v = elim (line_cases b v) [
  | inl (nothing, out) ↦ rw nothing (wait_for_line-line b v _ r out)
  | inr (i, line, b', found, taken, valid, shorter) ↦
      let (r', kind) = take_req_line-cases r line in
      elim kind [
        | inl e ↦
            rw (found, taken, e)
              (widen_run (length (contents b') + 1) (length (contents b))
                (from_head (reading recv_req_head r') b') (omega (arith, shorter)) (line_read r' b')
                (from_head-Settles r' b' valid))
        | inr (code, bad, e) ↦ rw (found, taken, e) (valid, bad)
      ]
]

-- What is known of a context before a call: an error has a code of 400 or more, and without an
-- error the code is 200.
abbrev pub HasCode : HttpContext → Type 0
HasCode c = elim c.status [ recv_req_error ↦ 400 ≤ c.resp_code | _ ↦ c.resp_code ≡ 200 ]

abbrev context : ℕ → HttpRecvStatus → HttpRequest → HttpContext
context code status request = record { resp_code = code; status = status; request = request }

context-Settles :
    (status : HttpRecvStatus) (code : ℕ) (r : HttpRequest) (b : Buffer)
    → HasCode (context code status r)
    → IsValid b
    → Settles
        (BadFrom status r b)
        (length (contents b) + 1)
        (receive_http_request (context code status r) b)
unfolding receive_http_request
context-Settles recv_req_line code r b h v =
    subst
      (λ n.
        Settles (BadFrom recv_req_line r b) (length (contents b) + 1)
          (receive_http_request (context n recv_req_line r) b))
      (sym h)
      (widen_run {Bad = BadLine r b} (length (contents b)) (length (contents b) + 1)
        (and_then (receive_req_line (reading recv_req_line r) b) from_head) (omega arith)
        (λ bad. bad) (from_line-Settles r b v))
context-Settles recv_req_head code r b h v =
    subst
      (λ n.
        Settles (BadFrom recv_req_head r b) (length (contents b) + 1)
          (receive_http_request (context n recv_req_head r) b))
      (sym h) (from_head-Settles r b v)
context-Settles recv_req_body code r b h v =
    subst
      (λ n.
        Settles (BadFrom recv_req_body r b) (length (contents b) + 1)
          (receive_http_request (context n recv_req_body r) b))
      (sym h) (from_body-Settles b v r)
context-Settles recv_req_over code r b h v = (v, (h, omega arith))
context-Settles recv_req_error code r b h v = (v, h)

-- On a valid buffer, and from a context whose code fits its status, RecvHttpRequest aborts by no
-- assertion and its loops end. It throws only if the head of the request is complete, has a
-- Content-Length, and this is no number that fits. If it throws nothing, the buffer is valid, and either the request
-- is complete with code 200, with no byte added to the buffer, or it is refused with a code of 400 or more, or the code is 200 and
-- the buffer has nothing more to give: no complete line and at most 8192 bytes where a line is
-- awaited, no byte where the body is.
pub receive_http_request-Settles :
    (c : HttpContext) (b : Buffer)
    → HasCode c
    → IsValid b
    → Settles (BadFrom c.status c.request b) (length (contents b) + 1) (receive_http_request c b)
receive_http_request-Settles c b h v = context-Settles c.status c.resp_code c.request b h v

-- From a new context, a complete request has taken at least a byte off the buffer.
pub receive_http_request-new :
    (b : Buffer)
    → IsValid b
    → Settles
        (BadFrom recv_req_line new_request b)
        (length (contents b))
        (receive_http_request new_context b)
unfolding receive_http_request new_context
receive_http_request-new b v = from_line-Settles new_request b v
