-- ===== src/Parser.antt =====
-- library/parser.cpp: how the FastCGI environment becomes headers, cookies and variables.
--
-- The loops run on fuel; `none` is a loop that still runs. An entry of the environment is the bytes
-- before its zero byte. The calls of the logger are left out.
pub mod Names
pub mod Status
pub mod Multipart
pub mod OutputNames
pub mod Ends
use fastcgi_container.Base.{
  ℕ, zero, suc, ◌+◌, ◌-◌, ◌*◌, ◌/◌, ◌%◌, ◌^◌, ◌≤◌, ◌<◌, ◌≡◌, refl, sym, ap, ◌∙◌, ◌≢◌, ◌↔◌, ◌⊎◌, inl,
  inr, Bool, true, false, not, ◌&&◌, ◌||◌, Option, none, some, List, [], ◌∷◌, ◌++◌, append-nil,
  append_assoc, arith, ltb, leb, ◌==◌, if◌then◌else◌, ==_iff, ==_refl, Bool-cases, Option-cases,
  table, table-entry, length, take, drop, length-append, length-take, length-drop, take-append-drop,
  take-append, drop-append, replicate, length-replicate, take_front, drop_front, take_all, all, All,
  Bytes, IsBytes, codes, equal, equal_iff, lex_less, char_key, le_bytes, le_value, sub64,
  le_value-le_bytes, sub64_le, is_space, is_alnum, is_upper, is_lower, is_digit, between, to_upper,
  to_lower,
}
use fastcgi_container.Map.{Map, assign, less_string, less_ci}
use fastcgi_container.Range.{Range, is_empty, trim, trimn, split, split_char, starts_with}
use fastcgi_container.Url.{urldecode}

infixl 5 ◌>>=◌
abbrev ◌>>=◌ {ℓ κ} : {A : Type ℓ} {B : Type κ} → Option A → (A → Option B) → Option B
none >>= f = none
some a >>= f = f a

-- What `parse` fills of a request.
pub record Fields : Type 0 where
  pub headers : Map
  pub cookies : Map
  pub vars : Map

-- The loop of `normalizeInputHeaderName`.
unfoldable pub dash_loop : ℕ → Range → Bytes → Option Bytes
unfolding split_char
dash_loop zero tmp res = none
dash_loop (suc fuel) tmp res =
    let s = split_char tmp b'_' in
    let rest =
      dash_loop fuel s.second (if s.found then res ++ s.first ++ b'-' ∷ [] else res ++ s.first) in
    if is_empty tmp then some res else rest

unfoldable pub normalize_input_header_name : Range → Option Bytes
unfolding dash_loop
normalize_input_header_name range = dash_loop (suc (length range)) range []

-- `addHeader`
unfoldable pub add_header : Range → Range → Fields → Option Fields
unfolding normalize_input_header_name assign
add_header key value req = do
  name ← normalize_input_header_name key
  some (record req { headers = assign less_ci name value req.headers })

-- `addCookie`
unfoldable pub add_cookie : Range → Fields → Fields
unfolding trim split_char urldecode assign
add_cookie range req =
    let s = split_char (trim range) b'=' in
    if is_empty s.first then req else record req {
      cookies = assign less_string (urldecode s.first) (urldecode s.second) req.cookies;
    }

-- The loop of `parseCookies`.
unfoldable pub cookie_loop : ℕ → Range → Fields → Option Fields
unfolding split trim add_cookie
cookie_loop zero tmp req = none
cookie_loop (suc fuel) tmp req =
    let s = split tmp (codes "; ") in
    let rest = cookie_loop fuel (trim s.second) (add_cookie s.first req) in
    if is_empty tmp then some req else rest

unfoldable pub parse_cookies : Range → Fields → Option Fields
unfolding cookie_loop trim
parse_cookies range req = cookie_loop (suc (length range)) (trim range) req

-- A header whose name loses the `HTTP_` in front.
unfoldable pub add_http_header : Range → Range → Fields → Option Fields
unfolding add_header trim trimn
add_http_header key value req = add_header (trimn (length (codes "HTTP_")) 0 key) (trim value) req

-- One entry of the environment.
unfoldable pub parse_entry : Range → Fields → Option Fields
unfolding split_char add_header add_http_header parse_cookies trim assign
parse_entry line req =
    let s = split_char line b'=' in
    if equal (codes "HTTP_COOKIE") s.first
    then (parse_cookies s.second req >>= λ q. add_http_header s.first s.second q)
    else if equal (codes "CONTENT_TYPE") s.first
    then add_header s.first (trim s.second) req
    else if equal (codes "CONTENT_LENGTH") s.first
    then add_header s.first (trim s.second) req
    else if starts_with s.first (codes "HTTP_")
    then add_http_header s.first s.second req
    else some (record req { vars = assign less_string s.first s.second req.vars })

unfoldable pub parse_env : List Range → Fields → Option Fields
unfolding parse_entry
parse_env [] req = some req
parse_env (line ∷ env) req = parse_entry line req >>= parse_env env
