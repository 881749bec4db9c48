-- ===== src/Response/Run.antt =====
-- What a handler does to a response: calls one after the other, where an exception of one is caught
-- and leaves the response as the call left it.
use fastcgi_container.Base.{ℕ, List, [], ◌∷◌, Bytes}
use fastcgi_container.Cookie.{Cookie}
use fastcgi_container.Request.State.{Request}
use fastcgi_container.Response.{
  Response, Result, ok, err, send_headers, send_error, write, set_cookie, delete_cookie, set_status,
  set_header, redirect_to_path, redirect_back, set_content_type, set_content_encoding,
}

pub data Operation : Type 0 where
  setting_status : ℕ → Operation
  setting_header : Bytes → Bytes → Operation
  setting_cookie : Cookie → Operation
  deleting_cookie : Bytes → Operation
  redirecting : Bytes → Operation
  redirecting_back : Operation
  typing : Bytes → Operation
  encoding : Bytes → Operation
  sending_error : ℕ → Operation
  sending_headers : Operation
  writing : Bytes → Operation

-- The response after a call, whether it threw or not.
abbrev pub after : Response → Result → Response
after r (ok q) = q
after r (err e) = r

module _ (format_date : ℕ → Bytes) where
  unfoldable pub perform : Request → Operation → Response → Result
  perform req (setting_status status) r = set_status status r
  perform req (setting_header name value) r = set_header name value r
  perform req (setting_cookie c) r = set_cookie c r
  perform req (deleting_cookie name) r = delete_cookie name r
  perform req (redirecting path) r = redirect_to_path path r
  perform req redirecting_back r = redirect_back req r
  perform req (typing type) r = set_content_type type r
  perform req (encoding value) r = set_content_encoding value r
  perform req (sending_error status) r = send_error format_date status r
  perform req sending_headers r = ok (send_headers format_date r)
  perform req (writing bytes) r = ok (write format_date req bytes r)

  unfoldable pub run : Request → List Operation → Response → Response
  unfolding perform
  run req [] r = r
  run req (o ∷ os) r = run req os (after r (perform req o r))
