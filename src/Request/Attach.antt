-- ===== src/Request/Attach.antt =====
-- `Request::attach` of library/request.cpp without a request cache, or for a body below the size
-- from which the cache takes it, and `StringUtils::parse` of a buffer. `read n` are the bytes that
-- the stream gives when it is asked for `n`.
pub mod Forms
pub mod Intake
use fastcgi_container.Base.{
  ℕ, zero, suc, ◌+◌, ◌-◌, ◌*◌, ◌/◌, ◌%◌, ◌^◌, ◌≤◌, ◌<◌, ◌≡◌, refl, sym, ap, ◌∙◌, ◌≢◌, ◌↔◌, ◌⊎◌, inl,
  inr, Bool, true, false, not, ◌&&◌, ◌||◌, Option, none, some, List, [], ◌∷◌, ◌++◌, append-nil,
  append_assoc, arith, ltb, leb, ◌==◌, if◌then◌else◌, ==_iff, ==_refl, Bool-cases, Option-cases,
  table, table-entry, length, take, drop, length-append, length-take, length-drop, take-append-drop,
  take-append, drop-append, replicate, length-replicate, take_front, drop_front, take_all, all, All,
  All-append, Bytes, IsBytes, codes, equal, equal_iff, lex_less, char_key, le_bytes, le_value,
  sub64, le_value-le_bytes, sub64_le, decimal, is_space, is_alnum, is_upper, is_lower, is_digit,
  between, to_upper, to_lower,
}
use fastcgi_container.DataBuffer.{DataBuffer, create, resize, segments, copy_to}
use fastcgi_container.DataBuffer.Search.{empty, split, Cut}
use fastcgi_container.Map.{less_string, get}
use fastcgi_container.Url.{NamedValue, parse, urldecode_chunks}
use fastcgi_container.Parser.{Fields, parse_env}
use fastcgi_container.Parser.Multipart.{
  Parsed, done, malformed, out_of_range, endless, ◌>>=◌, checked, begins_ci, get_boundary,
  parse_multipart,
}
use fastcgi_container.Request.State.{Request}
use fastcgi_container.Request.Numbers.{content_length}
use fastcgi_container.Request.Lookups.{query_string, request_method, content_type}

-- One round of the loop of `parse`, on `head`.
unfoldable pub push_buffer : DataBuffer → List NamedValue → Parsed (List NamedValue)
push_buffer head v = checked (split (codes "=") head) >>= λ pair.
    if empty pair.first
    then done v
    else checked (segments pair.first) >>= λ name. checked (segments pair.second) >>= λ value.
        done (v ++ record { name = urldecode_chunks name; value = urldecode_chunks value } ∷ [])

unfoldable pub parse_buffer : ℕ → DataBuffer → List NamedValue → Parsed (List NamedValue)
parse_buffer zero tmp v = endless
parse_buffer (suc fuel) tmp v = elim (empty tmp) [
  | true ↦ done v
  | false ↦ checked (split (codes "&") tmp) >>= λ cut.
      push_buffer cut.first v >>= λ v'. parse_buffer fuel cut.second v'
]

-- How `attach` ends; `bad_length` is the exception for a length that is no number, `long_body` the
-- std::length_error of `resize`, to which a negative length leads, and `short_body` the exception for
-- too few bytes.
pub data Attached : Type 0 where
  ready : Request → Attached
  bad_length long_body short_body malformed_body out_of_body stuck : Attached

abbrev pub attached : Parsed Request → Attached
attached (done r) = ready r
attached malformed = malformed_body
attached out_of_range = out_of_body
attached endless = stuck

-- strcasecmp with a text.
abbrev pub equal_ci : Bytes → Bytes → Bool
equal_ci s t = length s == length t && begins_ci s t

unfoldable pub disable_post_params : Request → Bool
unfolding get
disable_post_params r =
    let disable = get less_string r.vars (codes "DISABLE_POST_PARAMS") in
    if equal disable []
    then false
    else equal_ci (codes "yes") disable
      || (equal_ci (codes "true") disable || equal_ci (codes "1") disable)

-- What `Parser::parse` fills, in a request.
abbrev pub with_fields : Request → Fields → Request
with_fields r f = record r { headers = f.headers; cookies = f.cookies; vars = f.vars }

abbrev pub with_args : Request → Parsed (List NamedValue) → Parsed Request
with_args r p = p >>= λ v. done (record r { args = v })

abbrev pub lifted {ℓ} : {A : Type ℓ} → Option A → Parsed A
lifted none = endless
lifted (some a) = done a

-- The body of `size` bytes, filled by the stream; `none` where it gives another number of bytes.
abbrev pub read_body : (ℕ → Bytes) → ℕ → Option DataBuffer
read_body read size =
    let body = resize size (create []) in
    let bytes = if empty body then [] else read size in
    if length bytes == size
    then some (record body { storage = copy_to body.storage body.begin bytes })
    else none

-- The parameters that stand in the body.
unfoldable pub parse_body : Request → Parsed Request
unfolding content_type disable_post_params
parse_body r =
    let type = content_type r in
    let fuel = suc (r.body.end - r.body.begin) in
    if begins_ci (codes "multipart/form-data") type
    then (get_boundary type >>= λ boundary.
        if equal boundary [] then done r else parse_multipart fuel boundary r.body r)
    else if not (begins_ci (codes "text/plain") type)
        && (not (begins_ci (codes "application/octet-stream") type) && not (disable_post_params r))
    then with_args r (parse_buffer fuel r.body r.args)
    else done r

-- The query first, unless it is empty, then the body.
abbrev pub parse_parameters : Request → Parsed Request
parse_parameters r =
    (if equal (query_string r) []
      then done r
      else with_args r (lifted (parse (query_string r) r.args)))
    >>= parse_body

abbrev pub attach_read : Request → Option DataBuffer → Attached
attach_read r none = short_body
attach_read r (some body) = attached (parse_parameters (record r { body = body }))

-- `max_size` is what std::vector<char>::max_size() gives.
abbrev pub attach_body : ℕ → (ℕ → Bytes) → Request → Attached
attach_body max_size read r = elim (content_length r) [
  | none ↦ bad_length
  | some size ↦ if ltb max_size size then long_body else attach_read r (read_body read size)
]

abbrev pub has_body : Request → Bool
has_body r = equal (codes "POST") (request_method r) || equal (codes "PUT") (request_method r)

abbrev pub attach_parsed : ℕ → (ℕ → Bytes) → Request → Attached
attach_parsed max_size read r =
    if has_body r
    then attach_body max_size read r
    else attached (with_args r (lifted (parse (query_string r) r.args)))

unfoldable pub attach : ℕ → (ℕ → Bytes) → List Bytes → Request → Attached
attach max_size read env r =
    elim (parse_env env (record { headers = r.headers; cookies = r.cookies; vars = r.vars })) [
      | none ↦ stuck
      | some f ↦ attach_parsed max_size read (with_fields r f)
    ]
