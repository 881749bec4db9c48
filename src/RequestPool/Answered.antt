-- ===== src/RequestPool/Answered.antt =====
-- The answers of `handleTask`.
use fastcgi_container.Base.{
  ◌++◌, codes, ℕ, ◌≡◌, ◌∙◌, inl, inr, true, Option, none, some, [], ◌∷◌, arith, ltb, Bool-cases,
  Bytes,
}
use fastcgi_container.RequestPool.{
  Component, Handler, State, Raised, dispatch_exception, http_exception, exception, Run, done,
  raised, Task, Finish, finished, dispatched, failed, sent, close, error_sent, answer_error,
  dispatch_to, after_restore, restored_for, handle_raised, finish_run, handle_task,
}
use fastcgi_container.DataBuffer.{DataBuffer}
use fastcgi_container.Request.Restore as Restore
use fastcgi_container.Response.{
  status_line, crlf, Response, Result, ok, err, emit, error_page, cleared, send_error, send_headers,
}
use fastcgi_container.Response.Framed.{
  headers_sent-send_headers, send_error_unsent, send_error_sent,
}

module _ (format_date : ℕ → Bytes) (max_string : ℕ) where
  -- All that the client gets with an error page.
  abbrev page : ℕ → Bytes
  page status =
      codes "Content-type: text/html"
      ++ (crlf
          ++ (codes "Status: " ++ (status_line status ++ (crlf ++ (crlf ++ error_page status)))))

  -- The headers went to the client.
  abbrev pub IsAnswered : Finish → Type 0
  IsAnswered (finished s) = s.response.headers_sent ≡ true
  IsAnswered (dispatched s) = Unit
  IsAnswered failed = Unit

  emit_sent : (bytes : Bytes) (r : Response) → (emit bytes r).headers_sent ≡ r.headers_sent
  emit_sent bytes r = ground arith

  send_error-IsAnswered :
      (status : ℕ) (s : State) (r : Response)
      → IsAnswered (sent s (send_error format_date status r))
  send_error-IsAnswered status s r = elim (Bool-cases r.headers_sent) [
    | inl e ↦ rw (send_error_sent format_date status r e) tt
    | inr e ↦ rw (send_error_unsent format_date status r e) (
        emit_sent (error_page status) (send_headers format_date (cleared status r))
        ∙ headers_sent-send_headers format_date (cleared status r))
  ]

  error_sent-IsAnswered :
      (status : ℕ) (s : State) (m : Result)
      → IsAnswered (error_sent format_date max_string status s m)
  error_sent-IsAnswered status s (ok r) = send_error-IsAnswered status s r
  error_sent-IsAnswered status s (err e) = tt

  dispatch_to-IsAnswered :
      (url : Bytes) (s : State) → IsAnswered (dispatch_to format_date max_string url s)
  dispatch_to-IsAnswered [] s = tt
  dispatch_to-IsAnswered (c ∷ url) s = tt

  restored_for-IsAnswered :
      (url : Bytes) (b : Option DataBuffer) (s : State)
      → IsAnswered (restored_for format_date max_string url b s)
  restored_for-IsAnswered url none s = dispatch_to-IsAnswered url s
  restored_for-IsAnswered url (some b) s =
      elim (Restore.restore max_string s.request b)
        as (λ m. IsAnswered (after_restore format_date max_string url s m)) [
          | Restore.ok q ↦
              dispatch_to-IsAnswered url
                (record s { request = q; response = record s.response { out_headers = [] } })
          | Restore.err e ↦ tt
        ]

  raised-IsAnswered :
      (t : Task) (e : Raised) (s : State) → IsAnswered (handle_raised format_date max_string t e s)
  unfolding handle_raised answer_error
  raised-IsAnswered t (http_exception status) s = error_sent-IsAnswered status s _
  raised-IsAnswered t exception s = error_sent-IsAnswered 500 s _
  raised-IsAnswered t (dispatch_exception type url buffer) s = elim (Bool-cases t.dispatches) [
    | inr e ↦ simp e tt
    | inl e ↦ elim (Bool-cases s.response.headers_sent) [
      | inl f ↦ simp (e, f) tt
      | inr f ↦ simp (e, f) (restored_for-IsAnswered url buffer _)
    ]
  ]

  run-IsAnswered : (t : Task) (m : Run) → IsAnswered (finish_run format_date max_string t m)
  unfolding close
  run-IsAnswered t (done s) = headers_sent-send_headers format_date _
  run-IsAnswered t (raised e s) = raised-IsAnswered t e s

  -- Whatever the filters and handlers of a task do, and whether it waited too long: where `handleTask`
  -- returns and did not hand the request to the dispatcher, the headers of a response were sent.
  pub handle_task-IsAnswered :
      (component : Component → Handler) (delay : ℕ) (t : Task) (s : State)
      → IsAnswered (handle_task format_date max_string component delay t s)
  unfolding handle_task
  handle_task-IsAnswered component delay t s = elim (Bool-cases (ltb t.elapsed delay)) [
    | inl e ↦ rw e (send_error-IsAnswered 503 s s.response)
    | inr e ↦ rw e (run-IsAnswered t _)
  ]

  -- The status of the page that answers an exception; a dispatch has none.
  abbrev pub page_status : Raised → Option ℕ
  page_status (dispatch_exception type url buffer) = none
  page_status (http_exception status) = some status
  page_status exception = some 500
