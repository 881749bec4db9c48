-- ===== src/Response.antt =====
-- The response half of `Request` in library/request.cpp: what a handler sets before the headers are
-- sent, and what goes to the FastCGI stream.
--
-- `RequestIOStream` takes every byte that is written; its bytes are the field `output`. The session
-- and the subject are not part of this record.
pub mod Run
pub mod Framed
pub mod Headers
pub mod Late
use fastcgi_container.Base.{
  ℕ, zero, suc, ◌+◌, ◌-◌, ◌*◌, ◌/◌, ◌%◌, ◌^◌, ◌≤◌, ◌<◌, ◌≡◌, refl, sym, ap, ◌∙◌, ◌≢◌, ◌↔◌, ◌⊎◌, inl,
  inr, Bool, true, false, not, ◌&&◌, ◌||◌, Option, none, some, List, [], ◌∷◌, ◌++◌, append-nil,
  append_assoc, arith, ltb, leb, ◌==◌, if◌then◌else◌, ==_iff, ==_refl, Bool-cases, Option-cases,
  table, table-entry, length, take, drop, length-append, length-take, length-drop, take-append-drop,
  take-append, drop-append, replicate, length-replicate, take_front, drop_front, take_all, all, All,
  Bytes, IsBytes, codes, equal, equal_iff, lex_less, char_key, le_bytes, le_value, sub64,
  le_value-le_bytes, sub64_le, decimal, is_space, is_alnum, is_upper, is_lower, is_digit, between,
  to_upper, to_lower,
}
use fastcgi_container.Cookie.{Cookie, new_cookie, to_string, put_cookie}
use fastcgi_container.Map.{Map, assign, get, insert, less_ci, less_string, entry}
use fastcgi_container.Parser.OutputNames.{normalize_output_header_name}
use fastcgi_container.Parser.Status.{status_to_string}
use fastcgi_container.Request.State.{Request}
use fastcgi_container.Url.{NamedValue}

pub record Response : Type 0 where
  pub headers_sent : Bool
  pub status : ℕ
  -- Whether `stream_` is set.
  pub attached : Bool
  pub out_headers : Map
  pub out_cookies : List Cookie
  pub output : Bytes

pub data Failure : Type 0 where
  headers_already_sent : Failure
  -- The fuel of a loop ran out.
  unfinished : Failure

-- The new response, or the exception of an operation that left the response as it was.
pub data Result : Type 0 where
  ok : Response → Result
  err : Failure → Result

-- `reset`, of these fields.
unfoldable pub new_response : Response
new_response = record {
  headers_sent = false;
  status = 200;
  attached = false;
  out_headers = [];
  out_cookies = [];
  output = [];
}

-- `attach`, of these fields.
unfoldable pub attach : Response → Response
attach r = record r { attached = true }

-- stream_->write, behind the test on `stream_`.
abbrev pub emit : Bytes → Response → Response
emit bytes r = if r.attached then record r { output = r.output ++ bytes } else r

abbrev pub crlf : Bytes
crlf = 13 ∷ 10 ∷ []

abbrev pub header_lines : Map → Bytes
header_lines [] = []
header_lines (e ∷ m) = e.name ++ (codes ": " ++ (e.value ++ (crlf ++ header_lines m)))

abbrev pub status_line : ℕ → Bytes
status_line status = decimal status ++ b' ' ∷ status_to_string status

-- What `sendError` writes behind the headers.
abbrev pub error_page : ℕ → Bytes
error_page status =
    codes "<html><body><h1>"
    ++ (decimal status ++ b' ' ∷ (status_to_string status ++ codes "</h1></body></html>"))

-- Whether the response to this request has a body.
abbrev pub has_body : Request → Bool
has_body req = not (equal (codes "HEAD") (get less_string req.vars (codes "REQUEST_METHOD")))

-- What `sendError` leaves of the headers and cookies.
abbrev pub cleared : ℕ → Response → Response
cleared status r = record r {
  out_cookies = [];
  out_headers = entry (codes "Content-type") (codes "text/html") ∷ [];
  status = status;
}

module _ (format_date : ℕ → Bytes) where
  abbrev pub cookie_lines : List Cookie → Bytes
  cookie_lines [] = []
  cookie_lines (c ∷ cs) =
      codes "Set-Cookie: " ++ (to_string format_date c ++ (crlf ++ cookie_lines cs))

  -- The bytes of the two loops and of the empty line.
  unfoldable pub header_block : Map → List Cookie → Bytes
  header_block headers cookies = header_lines headers ++ (cookie_lines cookies ++ crlf)

  -- `sendHeaders`, `sendHeadersInternal`
  unfoldable pub send_headers : Response → Response
  unfolding header_block assign
  send_headers r =
      if r.headers_sent
      then r
      else let headers = assign less_ci (codes "Status") (status_line r.status) r.out_headers in
        record (emit (header_block headers r.out_cookies) r) {
          out_headers = headers;
          headers_sent = true;
        }

  unfoldable pub send_error : ℕ → Response → Result
  send_error status r =
      if r.headers_sent
      then err headers_already_sent
      else ok (emit (error_page status) (send_headers (cleared status r)))

  -- The two overloads of `write` differ in where the bytes come from.
  unfoldable pub write : Request → Bytes → Response → Response
  unfolding send_headers get
  write req bytes r = let q = send_headers r in if has_body req then emit bytes q else q

unfoldable pub set_cookie : Cookie → Response → Result
unfolding put_cookie
set_cookie c r =
    if r.headers_sent
    then err headers_already_sent
    else ok (record r { out_cookies = put_cookie c r.out_cookies })

unfoldable pub delete_cookie : Bytes → Response → Result
unfolding set_cookie new_cookie
delete_cookie name r = set_cookie (record (new_cookie name []) { expires = 0 }) r

unfoldable pub set_status : ℕ → Response → Result
set_status status r =
    if r.headers_sent then err headers_already_sent else ok (record r { status = status })

-- out_headers_[name] = value, for the name that the loop gives.
abbrev pub store_header : Option Bytes → Bytes → Response → Result
store_header none value r = err unfinished
store_header (some name) value r =
    ok (record r { out_headers = assign less_ci name value r.out_headers })

unfoldable pub set_header : Bytes → Bytes → Response → Result
unfolding normalize_output_header_name assign
set_header name value r =
    if r.headers_sent
    then err headers_already_sent
    else store_header (normalize_output_header_name name) value r

-- `outputHeader`
unfoldable pub output_header : Bytes → Response → Bytes
unfolding get
output_header name r = get less_ci r.out_headers name

abbrev pub and_then : (Response → Result) → Result → Result
and_then f (ok r) = f r
and_then f (err e) = err e

unfoldable pub redirect_to_path : Bytes → Response → Result
unfolding set_status set_header
redirect_to_path path r = and_then (set_header (codes "Location") path) (set_status 302 r)

-- The header is looked up under its name in the protocol.
unfoldable pub redirect_back : Request → Response → Result
unfolding redirect_to_path get
redirect_back req r = redirect_to_path (get less_ci req.headers (codes "Referer")) r

unfoldable pub set_content_type : Bytes → Response → Result
unfolding set_header
set_content_type type r = set_header (codes "Content-type") type r

unfoldable pub set_content_encoding : Bytes → Response → Result
unfolding set_header
set_content_encoding encoding r = set_header (codes "Content-encoding") encoding r
