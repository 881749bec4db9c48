-- ===== src/Response/Late.antt =====
-- What the calls of a handler do once the headers are sent.
use fastcgi_container.Base.{ℕ, ◌≡◌, true, arith, if◌then◌else◌, Bytes}
use fastcgi_container.Request.State.{Request}
use fastcgi_container.Response.{
  Response, Result, ok, err, headers_already_sent, emit, send_headers, send_error, write, has_body,
  set_cookie, delete_cookie, set_status, set_header, redirect_to_path, redirect_back,
  set_content_type, set_content_encoding,
}
use fastcgi_container.Response.Run.{Operation, setting_status, sending_headers, writing, perform}

-- Bytes go behind what was sent, unless the method is HEAD; the headers are not sent again; all
-- else is refused.
abbrev pub late : Request → Operation → Response → Result
late req (writing bytes) r = ok (if has_body req then emit bytes r else r)
late req sending_headers r = ok r
late req o r = err headers_already_sent

module _ (format_date : ℕ → Bytes) where
  -- In a response whose headers are sent, every call of a handler does what `late` says: no call
  -- changes the status, a header or a cookie, and each that would throws.
  pub perform_sent :
      (req : Request) (o : Operation) (r : Response)
      → r.headers_sent ≡ true
      → perform format_date req o r ≡ late req o r
  unfolding perform set_content_type set_content_encoding redirect_back delete_cookie
      redirect_to_path set_status set_header set_cookie send_error send_headers write
  perform_sent req (writing bytes) r h = ground arith
  perform_sent req sending_headers r h = ground arith
  perform_sent req (setting_status status) r h = ground arith
  perform_sent req o r h = ground arith
