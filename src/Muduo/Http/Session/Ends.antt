-- ===== src/Muduo/Http/Session/Ends.antt =====
-- OnMessage comes to an end, and what it leaves.
use linux_os.Base.{
  ℕ, zero, suc, ◌+◌, ◌<◌, ◌≡◌, ◌⊎◌, inl, inr, refl, sym, none, some, [], ◌∷◌, ◌++◌, Bool, true,
  false, arith, leb, ◌==◌, length, Bool-cases, subst,
}
use linux_os.Muduo.Buffer.{Buffer, clear, readable_size}
use linux_os.Muduo.Buffer.Laws.{IsValid, contents, readable_size-length}
use linux_os.Muduo.Http.Message.{HttpRequest}
use linux_os.Muduo.Http.Response.{keeps_alive, make_response}
use linux_os.Muduo.Http.Context.{
  HttpContext, HttpRecvStatus, recv_req_line, recv_req_head, recv_req_body, recv_req_over,
  recv_req_error, Run, returned, thrown, aborted, new_context, receive_http_request,
}
use linux_os.Muduo.Http.Context.Progress.{
  BadFrom, HasCode, IsSettled, Settles, receive_http_request-Settles, receive_http_request-new,
}
use linux_os.Muduo.Http.Server.{FileSystem, HttpServer}
use linux_os.Muduo.Http.Session.{
  Session, current_context, is_over, refuse, respond, answer, handle, then_handle, on_message_loop,
  on_message,
}

-- A connection on which a message can arrive.
pub record IsReady (s : Session) : Type 0 where
  pub code_fits : HasCode (current_context s)
  pub valid : IsValid s.buffer

-- The rounds of OnMessage come to a request with a bad Content-Length.
pub data Throws (files : FileSystem) (server : HttpServer) : Session → Type 0 where
  now :
      {s : Session}
      → BadFrom (current_context s).status (current_context s).request s.buffer
      → Throws files server s
  later :
      {s s' : Session} (c : HttpContext) (b : Buffer)
      → receive_http_request (current_context s) s.buffer ≡ returned (c, b)
      → handle files server c b s ≡ (true, s')
      → Throws files server s'
      → Throws files server s

-- The run ends, with a connection that is ready, or by an exception where `Bad` holds.
abbrev pub Ends : Type 0 → Run Session → Type 0
Ends Bad (returned s) = IsReady s
Ends Bad thrown = Bad
Ends Bad aborted = ⊥

widen-Ends : {Bad Bad' : Type 0} (run : Run Session) → (Bad → Bad') → Ends Bad run → Ends Bad' run
widen-Ends (returned s) f ready = ready
widen-Ends thrown f bad = f bad
widen-Ends aborted f h = h

code_by_status :
    (bound : ℕ) (status : HttpRecvStatus) (code : ℕ) (r : HttpRequest) (b : Buffer)
    → IsSettled bound status code b
    → HasCode (record { resp_code = code; status = status; request = r })
code_by_status bound recv_req_line code r b s = s.0
code_by_status bound recv_req_head code r b s = s.0
code_by_status bound recv_req_body code r b s = s.0
code_by_status bound recv_req_over code r b s = s.0
code_by_status bound recv_req_error code r b s = s

bytes_left :
    (bound : ℕ) (status : HttpRecvStatus) (code : ℕ) (b : Buffer)
    → is_over status ≡ true
    → IsSettled bound status code b
    → length (contents b) < bound
unfolding is_over
bytes_left bound recv_req_line code b h s = absurd (cc h)
bytes_left bound recv_req_head code b h s = absurd (cc h)
bytes_left bound recv_req_body code b h s = absurd (cc h)
bytes_left bound recv_req_over code b h s = s.1
bytes_left bound recv_req_error code b h s = absurd (cc h)

module _ (files : FileSystem) (server : HttpServer) (c : HttpContext) (b : Buffer)
    (s : Session) where
  -- A round ends with a connection that is ready, or goes on with a new context and what is left.
  abbrev Rounds : ℕ → Bool × Session → Type 0
  Rounds bound round =
      (s' : Session) × (((round ≡ (false, s')) × IsReady s')
        ⊎ ((round ≡ (true, s'))
            × (s'.context ≡ some new_context)
            × IsValid s'.buffer
            × (length (contents s'.buffer) < bound)))

  answer-Rounds :
      (bound : ℕ)
      → IsValid b
      → length (contents b) < bound
      → Rounds bound (answer files server c b s)
  unfolding answer new_context current_context
  answer-Rounds bound v h =
      let payload = (make_response c.request (respond files server c)).1 in
      let kept : Session = record s {
        context = some new_context;
        buffer = b;
        sent = s.sent ++ payload ∷ [];
      } in
      let shut : Session = record kept { is_shut = true } in
      elim (Bool-cases (keeps_alive (make_response c.request (respond files server c)).0)) [
        | inl keep ↦ elim (Bool-cases (readable_size b == 0)) [
          | inl e ↦ (kept, inl (rw (keep, e), record { code_fits = refl; valid = v }))
          | inr e ↦ (kept, inr (rw (keep, e), refl, v, h))
        ]
        | inr close ↦ elim (Bool-cases (readable_size b == 0)) [
          | inl e ↦ (shut, inl (rw (close, e), record { code_fits = refl; valid = v }))
          | inr e ↦ (shut, inr (rw (close, e), refl, v, h))
        ]
      ]

  handle-Rounds :
      (bound : ℕ)
      → IsValid b
      → IsSettled bound c.status c.resp_code b
      → Rounds bound (handle files server c b s)
  unfolding handle refuse current_context clear
  handle-Rounds bound v settled =
      let fits = code_by_status bound c.status c.resp_code c.request b settled in
      elim (Bool-cases (leb 400 c.resp_code)) [
        | inl e ↦ (
          refuse c b s,
          inl (
            rw e,
            record {
              code_fits = fits;
              valid = record { ordered = omega arith; inside = omega arith; small = v.small };
            },
          ),
        )
        | inr e ↦ elim (Bool-cases (is_over c.status)) [
          | inl done ↦
              rw (e, done)
                (answer-Rounds bound v (bytes_left bound c.status c.resp_code b done settled))
          | inr more ↦ (
            record s { context = some c; buffer = b },
            inl (rw (e, more), record { code_fits = fits; valid = v }),
          )
        ]
      ]

-- How a round goes on.
abbrev go_on_with : (Session → Run Session) → Bool × Session → Run Session
go_on_with next round = elim round.0 [ true ↦ next round.1 | false ↦ returned round.1 ]

then_handle-Ends :
    (files : FileSystem) (server : HttpServer) (s : Session) (next : Session → Run Session)
    (bound : ℕ) (run : Run (HttpContext × Buffer))
    → receive_http_request (current_context s) s.buffer ≡ run
    → Settles (BadFrom (current_context s).status (current_context s).request s.buffer) bound run
    → ((s' : Session)
        → s'.context ≡ some new_context
        → IsValid s'.buffer
        → length (contents s'.buffer) < bound
        → Ends (Throws files server s') (next s'))
    → Ends (Throws files server s) (then_handle next files server s run)
unfolding then_handle
then_handle-Ends files server s next bound (returned (c, b)) reads (v, settled) rest =
    let (s', round) = handle-Rounds files server c b s bound v settled in
    elim round [
      | inl (e, ready) ↦
          subst (λ round. Ends (Throws files server s) (go_on_with next round)) (sym e) ready
      | inr (e, fresh, valid, fewer) ↦
          subst (λ round. Ends (Throws files server s) (go_on_with next round)) (sym e)
            (widen-Ends (next s') (later c b reads e) (rest s' fresh valid fewer))
    ]
then_handle-Ends files server s next bound thrown reads h rest = now h
then_handle-Ends files server s next bound aborted reads h rest = h

-- The rounds that begin with a new context.
on_message_loop-Ends :
    (f : ℕ) (files : FileSystem) (server : HttpServer) (s : Session)
    → s.context ≡ some new_context
    → IsValid s.buffer
    → length (contents s.buffer) < f
    → Ends (Throws files server s) (on_message_loop f files server s)
unfolding on_message_loop current_context new_context
on_message_loop-Ends zero files server s fresh v h = absurd (omega (arith, h))
on_message_loop-Ends (suc f) files server s fresh v h =
    then_handle-Ends files server s (on_message_loop f files server) (length (contents s.buffer))
      (receive_http_request (current_context s) s.buffer) refl
      (subst
        (λ o.
          let c = elim o as (λ x. HttpContext) [ none ↦ new_context | some c ↦ c ] in
          Settles (BadFrom c.status c.request s.buffer) (length (contents s.buffer))
            (receive_http_request c s.buffer))
        (sym fresh) (receive_http_request-new s.buffer v))
      (λ s' fresh' valid fewer.
        on_message_loop-Ends f files server s' fresh' valid (omega (arith, fewer, h)))

-- OnMessage on a connection that is ready aborts by no assertion and ends, however many requests the
-- buffer holds, counting the calls that it makes of itself through ShutDown. It throws only where its
-- rounds come to a request with a Content-Length that is no number that fits. If it throws nothing, the
-- connection is ready for the next message.
pub on_message-Ends :
    (files : FileSystem) (server : HttpServer) (s : Session)
    → IsReady s
    → Ends (Throws files server s) (on_message files server s)
unfolding on_message on_message_loop
on_message-Ends files server s ready =
    let size = readable_size-length s.buffer ready.valid in
    let rounds : readable_size s.buffer + 2 ≡ suc (length (contents s.buffer) + 1) =
      omega (arith, size) in
    rw rounds (
      then_handle-Ends files server s
        (on_message_loop (length (contents s.buffer) + 1) files server)
        (length (contents s.buffer) + 1) (receive_http_request (current_context s) s.buffer) refl
        (receive_http_request-Settles (current_context s) s.buffer ready.code_fits ready.valid)
        (λ s' fresh valid fewer.
          on_message_loop-Ends (length (contents s.buffer) + 1) files server s' fresh valid fewer))
