-- ===== src/Url.antt =====
-- `StringUtils::urlencode`, `urldecode` and `parse` of library/util.cpp, on ranges.
pub mod RoundTrip
pub mod Query
use Prim.Native.Nat.{bit_and}
use fastcgi_container.Base.{
  ℕ, zero, suc, ◌+◌, ◌-◌, ◌*◌, ◌/◌, ◌%◌, Bool, ◌||◌, List, [], ◌∷◌, ◌++◌, Option, none, some, Bytes,
  length, ltb, ◌==◌, if◌then◌else◌, is_alnum, between,
}
use fastcgi_container.Range.{Range, Split, is_empty, split_char}

-- The case labels behind the test `isalnum`.
abbrev pub is_mark : ℕ → Bool
is_mark c =
    c == b'-'
    || c == b'_'
    || c == b'.'
    || c == b'!'
    || c == b'~'
    || c == b'*'
    || c == b'('
    || c == b')'
    || c == b'\''

-- A value below 16 as a digit.
abbrev pub hex_digit : ℕ → ℕ
hex_digit d = if ltb 9 d then d + (b'A' - 10) else d + b'0'

-- What one round of the loop appends.
unfoldable pub encode_symbol : ℕ → Bytes
encode_symbol c =
    if is_alnum c
    then c ∷ []
    else if is_mark c
    then c ∷ []
    else b'%' ∷ hex_digit (c % 256 / 16) ∷ hex_digit (c % 16) ∷ []

unfoldable pub urlencode : Range → Bytes
unfolding encode_symbol
urlencode [] = []
urlencode (c ∷ r) = encode_symbol c ++ urlencode r

-- A digit's value modulo 256, which is all that the cast to `char` keeps of the sum. A byte from 128
-- on is a negative `char`, so it is not `>= 'A'`.
abbrev hex_value : ℕ → ℕ
hex_value f = if between b'A' 127 f then bit_and f 0xDF + 10 - b'A' else (f + (256 - b'0')) % 256

abbrev decode_pair : ℕ → ℕ → ℕ
decode_pair f s = (hex_value f * 16 + hex_value s) % 256

-- A byte that starts no escape. A `%` with fewer than two bytes behind it stands for itself.
abbrev decode_single : ℕ → ℕ
decode_single c = if c == b'+' then b' ' else c

-- What the loop appends to `result`.
unfoldable pub urldecode : Range → Bytes
urldecode [] = []
urldecode (c ∷ []) = decode_single c ∷ []
urldecode (c ∷ f ∷ []) = decode_single c ∷ urldecode (f ∷ [])
urldecode (c ∷ f ∷ s ∷ r) =
    let escaped = decode_pair f s ∷ urldecode r in
    let single = decode_single c ∷ urldecode (f ∷ s ∷ r) in if c == b'%' then escaped else single

-- The overload for a `DataBuffer` decodes one chunk after the other.
unfoldable pub urldecode_chunks : List Range → Bytes
unfolding urldecode
urldecode_chunks [] = []
urldecode_chunks (chunk ∷ chunks) = urldecode chunk ++ urldecode_chunks chunks

pub record NamedValue : Type 0 where
  pub name : Bytes
  pub value : Bytes

-- One round of the loop of `parse`, on `head`.
unfoldable pub push_pair : Range → List NamedValue → List NamedValue
unfolding urldecode split_char
push_pair head v =
    let pair = split_char head b'=' in
    if is_empty pair.first
    then v
    else v ++ record { name = urldecode pair.first; value = urldecode pair.second } ∷ []

-- The loop, on fuel; `none` is a loop that still runs.
unfoldable pub parse_loop : ℕ → Range → List NamedValue → Option (List NamedValue)
unfolding push_pair split_char
parse_loop zero tmp v = none
parse_loop (suc fuel) tmp v =
    let parts = split_char tmp b'&' in
    let rest = parse_loop fuel parts.second (push_pair parts.first v) in
    if is_empty tmp then some v else rest

unfoldable pub parse : Range → List NamedValue → Option (List NamedValue)
unfolding parse_loop
parse range v = parse_loop (suc (length range)) range v
