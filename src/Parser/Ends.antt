-- ===== src/Parser/Ends.antt =====
-- The loops of the parser over the environment and over names.
use fastcgi_container.Base.{
  Bytes, ℕ, zero, suc, ◌+◌, ◌≤◌, ◌<◌, ◌≡◌, refl, ap, inl, inr, some, List, [], ◌∷◌, ◌++◌, arith,
  ◌==◌, Bool-cases, length, length-append, length-drop, codes, equal,
}
use fastcgi_container.Range.{
  find_char, Range, trimn, trim, find, do_split, split, split_char, starts_with,
}
use fastcgi_container.Range.Trim.{trim_iff}
use fastcgi_container.Parser.{
  Fields, add_header, add_cookie, cookie_loop, parse_cookies, add_http_header, parse_entry,
  parse_env,
}
use fastcgi_container.Parser.OutputNames.{capital_loop, normalize_output_header_name}
use fastcgi_container.Parser.Names.{normalize-dash}

pub length-trim : (r : Range) → length (trim r) ≤ length r
length-trim r =
    let t = (trim_iff r (trim r)).1 refl in
    omega (
      arith,
      ap length t.whole,
      length-append t.front (trim r ++ t.back),
      length-append (trim r) t.back,
    )

pub length-do_split :
    (c : ℕ) (r : Range) (e n : ℕ) → length (do_split (c ∷ r) e (suc n)).second ≤ length r
length-do_split c r e n = elim (Bool-cases (e == length (c ∷ r))) [
  | inl h ↦ rw h (omega arith)
  | inr h ↦ rw h (omega (arith, length-drop (e + suc n) (c ∷ r)))
]

cookie_loop-ends :
    (fuel : ℕ) (r : Range) (req : Fields)
    → length r < fuel
    → (q : Fields) × (cookie_loop fuel r req ≡ some q)
unfolding cookie_loop split
cookie_loop-ends zero r req h = absurd (omega arith)
cookie_loop-ends (suc fuel) [] req h = (req, refl)
cookie_loop-ends (suc fuel) (c ∷ r) req h =
    let s = split (c ∷ r) (codes "; ") in
    cookie_loop-ends fuel (trim s.second) (add_cookie s.first req)
      (omega (arith, length-trim s.second, length-do_split c r (find (c ∷ r) (codes "; ")) 1))

parse_cookies-ends : (r : Range) (req : Fields) → (q : Fields) × (parse_cookies r req ≡ some q)
unfolding parse_cookies
parse_cookies-ends r req =
    cookie_loop-ends (suc (length r)) (trim r) req (omega (arith, length-trim r))

add_header-ends : (k v : Range) (req : Fields) → (q : Fields) × (add_header k v req ≡ some q)
unfolding add_header
add_header-ends k v req = rw normalize-dash (_, refl)

add_http_header-ends :
    (k v : Range) (req : Fields) → (q : Fields) × (add_http_header k v req ≡ some q)
unfolding add_http_header
add_http_header-ends k v req = add_header-ends (trimn (length (codes "HTTP_")) 0 k) (trim v) req

parse_entry-ends : (line : Range) (req : Fields) → (q : Fields) × (parse_entry line req ≡ some q)
unfolding parse_entry
parse_entry-ends line req =
    let k = (split_char line b'=').first in
    let v = (split_char line b'=').second in
    elim (Bool-cases (equal (codes "HTTP_COOKIE") k)) [
      | inl e ↦ let (q, h) = parse_cookies-ends v req in rw (e, h) (add_http_header-ends k v q)
      | inr e ↦ elim (Bool-cases (equal (codes "CONTENT_TYPE") k)) [
        | inl f ↦ rw (e, f) (add_header-ends k (trim v) req)
        | inr f ↦ elim (Bool-cases (equal (codes "CONTENT_LENGTH") k)) [
          | inl g ↦ rw (e, f, g) (add_header-ends k (trim v) req)
          | inr g ↦ elim (Bool-cases (starts_with k (codes "HTTP_"))) [
            | inl s ↦ rw (e, f, g, s) (add_http_header-ends k v req)
            | inr s ↦ rw (e, f, g, s) (_, refl)
          ]
        ]
      ]
    ]

-- `parse` ends for every environment and request, its loops over names and cookies included.
pub parse_env-ends : (env : List Range) (req : Fields) → (q : Fields) × (parse_env env req ≡ some q)
unfolding parse_env
parse_env-ends [] req = (req, refl)
parse_env-ends (line ∷ env) req =
    let (q, h) = parse_entry-ends line req in rw h (parse_env-ends env q)

capital_loop-ends :
    (fuel : ℕ) (r : Range) (res : Bytes)
    → length r < fuel
    → (q : Bytes) × (capital_loop fuel r res ≡ some q)
unfolding capital_loop split_char
capital_loop-ends zero r res h = absurd (omega arith)
capital_loop-ends (suc fuel) [] res h = (res, refl)
capital_loop-ends (suc fuel) (c ∷ r) res h =
    let s = split_char (c ∷ r) b'-' in
    capital_loop-ends fuel (trim s.second) _
      (omega (arith, length-trim s.second, length-do_split c r (find_char b'-' (c ∷ r)) 0))

-- `normalizeOutputHeaderName` ends for every name.
pub normalize_output-ends :
    (name : Range) → (q : Bytes) × (normalize_output_header_name name ≡ some q)
unfolding normalize_output_header_name
normalize_output-ends name =
    capital_loop-ends (suc (length name)) (trim name) [] (omega (arith, length-trim name))
