-- ===== src/Muduo/Http/Context/Body.antt =====
-- RecvHttpBody moves bytes from the buffer to the body until the content length is reached.
use linux_os.Base.{
  ℕ, zero, suc, ◌+◌, ◌-◌, ◌≤◌, ◌≡◌, refl, ap, ◌∙◌, ◌++◌, append_assoc, some, true, arith, ltb, leb,
  ◌==◌, if◌then◌else◌, inl, inr, min, length, take, drop, length-take, length-append,
  take-append-drop, Bool-cases, pos,
}
use linux_os.Muduo.Buffer.{Buffer, readable_size}
use linux_os.Muduo.Buffer.Laws.{IsValid, contents, readable_size-length}
use linux_os.Muduo.Buffer.Queue.{read_and_pop-contents}
use linux_os.Muduo.Http.Message.{content_length}
use linux_os.Muduo.Http.Context.{
  HttpContext, recv_req_body, recv_req_over, returned, at_body, over, append_body, take_body,
  Reading, receive_http_body,
}

-- What a call does to a context that reads a body of `n` bytes, and to the buffer.
pub record BodyRead (n : ℕ) (c : HttpContext) (b : Buffer) (c' : HttpContext) (b' : Buffer)
    : Type 0 where
  pub valid : IsValid b'
  pub same_bytes : c'.request.body ++ contents b' ≡ c.request.body ++ contents b
  pub body_length : length c'.request.body ≡ min n (length c.request.body + length (contents b))
  pub ends : c'.status ≡ (if length c'.request.body == n then recv_req_over else recv_req_body)

abbrev Reads : ℕ → HttpContext → Buffer → Reading → Type 0
Reads n c b run =
    (c' : HttpContext) × (b' : Buffer) × (run ≡ returned (true, c', b')) × BodyRead n c b c' b'

module _ (c : HttpContext) (b : Buffer) (v : IsValid b) (e : c.status ≡ recv_req_body) where
  body_of : ℕ → ℕ
  body_of k = length (c.request.body ++ take k (contents b))

  body_moved :
      (k : ℕ) (b' : Buffer)
      → contents b' ≡ drop k (contents b)
      → (c.request.body ++ take k (contents b)) ++ contents b' ≡ c.request.body ++ contents b
  body_moved k b' h =
      append_assoc c.request.body (take k (contents b)) (contents b')
      ∙ ap (λ l. c.request.body ++ l)
          (ap (λ l. take k (contents b) ++ l) h ∙ take-append-drop k (contents b))

  body_measured :
      (k : ℕ)
      → k ≤ length (contents b)
      → length (c.request.body ++ take k (contents b)) ≡ length c.request.body + k
  body_measured k h =
      omega
        (arith, h, length-append c.request.body (take k (contents b)), length-take k (contents b))

  take_body-Reads :
      (n : ℕ) → length c.request.body ≤ n → Reads n c b (take_body c b (n - length c.request.body))
  unfolding take_body over append_body
  take_body-Reads n h =
      let need = n - length c.request.body in
      let size = readable_size-length b v in
      elim (Bool-cases (need == 0)) [
        | inl full ↦ (
          over c,
          b,
          rw full,
          record {
            valid = v;
            same_bytes = refl;
            body_length = ground (arith, full, h);
            ends = ground (arith, full, h);
          },
        )
        | inr missing ↦ elim (Bool-cases (leb need (readable_size b))) [
          | inl enough ↦
              let (b', taken, valid, rest) =
                read_and_pop-contents b need v (ground (arith, missing))
                  (ground (arith, enough, size)) in
              let measured = body_measured need (ground (arith, enough, size)) in
              (
                over (append_body c (take need (contents b))),
                b',
                rw (missing, enough, taken),
                record {
                  valid = valid;
                  same_bytes = body_moved need b' rest;
                  body_length = ground (arith, measured, h, enough, size);
                  ends = ground (arith, measured, h);
                },
              )
          | inr short ↦ elim (Bool-cases (ltb 0 (readable_size b))) [
            | inl any ↦
                let (b', taken, valid, rest) =
                  read_and_pop-contents b (readable_size b) v (ground (arith, any))
                    (omega (arith, size)) in
                let measured = body_measured (readable_size b) (omega (arith, size)) in
                (
                  append_body c (take (readable_size b) (contents b)),
                  b',
                  rw (missing, short, any, taken),
                  record {
                    valid = valid;
                    same_bytes = body_moved (readable_size b) b' rest;
                    body_length = ground (arith, measured, h, short, size);
                    ends = ground (arith, measured, h, short, e);
                  },
                )
            | inr nothing ↦ (
              c,
              b,
              rw (missing, short, nothing),
              record {
                valid = v;
                same_bytes = refl;
                body_length = ground (arith, nothing, size, missing);
                ends = ground (arith, missing, h, e);
              },
            )
          ]
        ]
      ]

-- A context that reads the body of a request whose Content-Length is a number `n`, and has read no
-- more than that, takes the bytes that are missing, or all that the buffer has: no byte is lost,
-- the body gets as long as it can up to `n`, and the request is over exactly when it is `n` long.
pub receive_http_body-BodyRead :
    (c : HttpContext) (b : Buffer) (n : ℕ)
    → IsValid b
    → c.status ≡ recv_req_body
    → content_length c.request ≡ some (pos n)
    → length c.request.body ≤ n
    → (c' : HttpContext) × (b' : Buffer) × (receive_http_body c b ≡ returned (true, c', b'))
      × BodyRead n c b c' b'
unfolding receive_http_body at_body over
receive_http_body-BodyRead c b zero v e h small = (
  over c,
  b,
  rw (e, h),
  record {
    valid = v;
    same_bytes = refl;
    body_length = omega (arith, small);
    ends = ground (arith, small);
  },
)
receive_http_body-BodyRead c b (suc n) v e h small =
    let (c', b', runs, read) = take_body-Reads c b v e (suc n) small in
    (c', b', rw (e, h) runs, read)
