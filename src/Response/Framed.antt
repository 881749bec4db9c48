-- ===== src/Response/Framed.antt =====
-- The bytes that the stream has taken, after any operations of a handler.
use fastcgi_container.Base.{
  Bool, if◌then◌else◌, ◌∷◌, List, codes, none, some, refl, ◌∙◌, inr, inl, some, Bool-cases, Option,
  ℕ, ◌≡◌, true, false, [], ◌++◌, append-nil, append_assoc, arith, Bytes,
}
use fastcgi_container.Response.{
  headers_already_sent, cleared, delete_cookie, redirect_back, set_content_encoding,
  set_content_type, error_page, new_response, has_body, attach, redirect_to_path, write, send_error,
  Request, ok, err, and_then, Cookie, store_header, Result, set_cookie, set_header, set_status,
  Response, emit, header_block, send_headers,
}
use fastcgi_container.Response.Run.{
  Operation, setting_status, setting_header, setting_cookie, deleting_cookie, redirecting,
  redirecting_back, typing, encoding, sending_error, sending_headers, writing, perform, after, run,
}

-- What a handler's calls have sent: whether the headers, and the body behind them.
pub record Sent : Type 0 where
  pub headers : Bool
  pub body : Bytes

abbrev pub nothing : Sent
nothing = record { headers = false; body = [] }

abbrev pub promise_error : ℕ → Bool → Bytes → Sent
promise_error status true body = record { headers = true; body = body }
promise_error status false body = record { headers = true; body = error_page status }

-- What a call adds: `write` its bytes, unless the method is HEAD, `sendError` its page where no
-- headers were sent before, and these calls and `sendHeaders` the headers; a setter adds nothing.
abbrev pub promise : Request → Operation → Sent → Sent
promise req (writing bytes) p = record {
  headers = true;
  body = if has_body req then p.body ++ bytes else p.body;
}
promise req sending_headers p = record { headers = true; body = p.body }
promise req (sending_error status) p = promise_error status p.headers p.body
promise req o p = p

abbrev pub promised : Request → List Operation → Sent → Sent
promised req [] p = p
promised req (o ∷ os) p = promised req os (promise req o p)

module _ (format_date : ℕ → Bytes) where
  -- Before the headers are sent the client has nothing; from then on it has the header block of the
  -- response as it is, and the body.
  abbrev pub FramedBy : Bool → Bytes → Response → Type 0
  FramedBy false body r =
      (r.attached ≡ true) × (r.headers_sent ≡ false) × (r.output ≡ []) × (body ≡ [])
  FramedBy true body r =
      (r.attached ≡ true)
      × (r.headers_sent ≡ true)
      × (r.output ≡ header_block format_date r.out_headers r.out_cookies ++ body)

  abbrev pub Framed : Sent → Response → Type 0
  Framed p r = FramedBy p.headers p.body r

  send_headers_again : (r : Response) → r.headers_sent ≡ true → send_headers format_date r ≡ r
  unfolding send_headers
  send_headers_again r h = ground arith

  send_headers-Framed :
      (sent : Bool) (body : Bytes) (r : Response)
      → FramedBy sent body r
      → FramedBy true body (send_headers format_date r)
  unfolding send_headers
  send_headers-Framed false body r (a, n, o, e) =
      rw e (ground arith, ground arith, rw append-nil (ground arith))
  send_headers-Framed true body r (a, n, o) = rw (send_headers_again r n) (a, n, o)

  pub headers_sent-send_headers : (r : Response) → (send_headers format_date r).headers_sent ≡ true
  unfolding send_headers
  headers_sent-send_headers r = ground arith

  emit-Framed :
      (bytes body : Bytes) (r : Response)
      → FramedBy true body r
      → FramedBy true (body ++ bytes) (emit bytes r)
  emit-Framed bytes body r (a, n, o) = (
    ground arith,
    ground arith,
    ground (arith, append_assoc (header_block format_date r.out_headers r.out_cookies) body bytes),
  )

  -- What the setters promise: without an exception nothing was sent before, nor is after.
  abbrev Sets : Response → Result → Type 0
  Sets r (err e) = Unit
  Sets r (ok q) =
      (r.headers_sent ≡ false)
      × (q.headers_sent ≡ false)
      × (q.attached ≡ r.attached)
      × (q.output ≡ r.output)

  Sets-and_then :
      (f : Response → Result) (r : Response) (m : Result)
      → ((q : Response) → Sets q (f q))
      → Sets r m
      → Sets r (and_then f m)
  Sets-and_then f r (err e) h s = tt
  Sets-and_then f r (ok q) h s =
      elim (f q) as (λ m. Sets q m → Sets r m) [
        | err e ↦ λ _. tt
        | ok p ↦ λ t. (s.0, t.1, t.2 ∙ s.2, t.3 ∙ s.3)
      ]
        (h q)

  set_status-Sets : (status : ℕ) (r : Response) → Sets r (set_status status r)
  unfolding set_status
  set_status-Sets status r = elim (Bool-cases r.headers_sent) [
    | inl e ↦ simp e tt
    | inr e ↦ simp e (refl, refl, refl, refl)
  ]

  set_cookie-Sets : (c : Cookie) (r : Response) → Sets r (set_cookie c r)
  unfolding set_cookie
  set_cookie-Sets c r = elim (Bool-cases r.headers_sent) [
    | inl e ↦ simp e tt
    | inr e ↦ simp e (refl, refl, refl, refl)
  ]

  store_header-Sets :
      (name : Option Bytes) (value : Bytes) (r : Response)
      → r.headers_sent ≡ false
      → Sets r (store_header name value r)
  store_header-Sets none value r e = tt
  store_header-Sets (some name) value r e = (e, e, refl, refl)

  set_header-Sets : (name value : Bytes) (r : Response) → Sets r (set_header name value r)
  unfolding set_header
  set_header-Sets name value r = elim (Bool-cases r.headers_sent) [
    | inl e ↦ simp e tt
    | inr e ↦ simp e (store_header-Sets _ value r e)
  ]

  redirect-Sets : (path : Bytes) (r : Response) → Sets r (redirect_to_path path r)
  unfolding redirect_to_path
  redirect-Sets path r =
      Sets-and_then (set_header (codes "Location") path) r (set_status 302 r)
        (set_header-Sets (codes "Location") path) (set_status-Sets 302 r)

  Sets-Framed :
      (sent : Bool) (body : Bytes) (r : Response) (m : Result)
      → FramedBy sent body r
      → Sets r m
      → FramedBy sent body (after r m)
  Sets-Framed sent body r (err e) h s = h
  Sets-Framed false body r (ok q) (a, n, o, e) s = (s.2 ∙ a, s.1, s.3 ∙ o, e)
  Sets-Framed true body r (ok q) (a, n, o) s = absurd (ground arith)

  pub send_error_unsent :
      (status : ℕ) (r : Response)
      → r.headers_sent ≡ false
      → send_error format_date status r
        ≡ ok (emit (error_page status) (send_headers format_date (cleared status r)))
  unfolding send_error
  send_error_unsent status r h = simp h refl

  pub send_error_sent :
      (status : ℕ) (r : Response)
      → r.headers_sent ≡ true
      → send_error format_date status r ≡ err headers_already_sent
  unfolding send_error
  send_error_sent status r h = simp h refl

  send_error-Framed :
      (status : ℕ) (sent : Bool) (body : Bytes) (r : Response)
      → FramedBy sent body r
      → Framed (promise_error status sent body) (after r (send_error format_date status r))
  send_error-Framed status false body r (a, n, o, e) = rw (send_error_unsent status r n) (
      emit-Framed (error_page status) [] _
        (send_headers-Framed false [] (cleared status r) (a, n, o, refl)))
  send_error-Framed status true body r (a, n, o) = rw (send_error_sent status r n) (a, n, o)

  write-Framed :
      (req : Request) (bytes : Bytes) (sent : Bool) (body : Bytes) (r : Response)
      → FramedBy sent body r
      → FramedBy true (if has_body req then body ++ bytes else body) (write format_date req bytes r)
  unfolding write
  write-Framed req bytes sent body r h = elim (Bool-cases (has_body req)) [
    | inl e ↦ rw e (emit-Framed bytes body _ (send_headers-Framed sent body r h))
    | inr e ↦ rw e (send_headers-Framed sent body r h)
  ]

  perform-Framed :
      (req : Request) (o : Operation) (p : Sent) (r : Response)
      → Framed p r
      → Framed (promise req o p) (after r (perform format_date req o r))
  unfolding perform set_content_type set_content_encoding redirect_back delete_cookie
  perform-Framed req (setting_status status) p r h =
      Sets-Framed p.headers p.body r _ h (set_status-Sets status r)
  perform-Framed req (setting_header name value) p r h =
      Sets-Framed p.headers p.body r _ h (set_header-Sets name value r)
  perform-Framed req (setting_cookie c) p r h =
      Sets-Framed p.headers p.body r _ h (set_cookie-Sets c r)
  perform-Framed req (deleting_cookie name) p r h =
      Sets-Framed p.headers p.body r _ h (set_cookie-Sets _ r)
  perform-Framed req (redirecting path) p r h =
      Sets-Framed p.headers p.body r _ h (redirect-Sets path r)
  perform-Framed req redirecting_back p r h = Sets-Framed p.headers p.body r _ h (redirect-Sets _ r)
  perform-Framed req (typing type) p r h =
      Sets-Framed p.headers p.body r _ h (set_header-Sets (codes "Content-type") type r)
  perform-Framed req (encoding value) p r h =
      Sets-Framed p.headers p.body r _ h (set_header-Sets (codes "Content-encoding") value r)
  perform-Framed req (sending_error status) p r h = send_error-Framed status p.headers p.body r h
  perform-Framed req sending_headers p r h = send_headers-Framed p.headers p.body r h
  perform-Framed req (writing bytes) p r h = write-Framed req bytes p.headers p.body r h

  run_from-Framed :
      (req : Request) (os : List Operation) (p : Sent) (r : Response)
      → Framed p r
      → Framed (promised req os p) (run format_date req os r)
  unfolding run
  run_from-Framed req [] p r h = h
  run_from-Framed req (o ∷ os) p r h = run_from-Framed req os _ _ (perform-Framed req o p r h)

  -- After any calls of a handler on a new response, exceptions included: the headers are sent exactly
  -- if one of the calls was `write`, `sendHeaders` or `sendError`. Until then the client has nothing,
  -- and from then on one header block, that of the headers and cookies which the response holds now,
  -- and behind it the body: the bytes of all calls of `write`, in order, or none of them for a HEAD
  -- request, behind the page of a `sendError` that came first.
  pub run-Framed :
      (req : Request) (os : List Operation)
      → Framed (promised req os nothing) (run format_date req os (attach new_response))
  unfolding attach new_response
  run-Framed req os = run_from-Framed req os _ _ (refl, refl, refl, refl)
