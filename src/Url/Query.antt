-- ===== src/Url/Query.antt =====
-- `StringUtils::parse` against a description of the query by its pieces, and the round trip with a
-- client that encodes its pairs.
use fastcgi_container.Base.{
  ℕ, zero, suc, ◌/◌, ◌%◌, ◌<◌, ◌≡◌, refl, ap, ◌≢◌, ◌⊎◌, inl, inr, Bool, true, false, not, ◌&&◌,
  ◌||◌, some, List, [], ◌∷◌, ◌++◌, append-nil, append_assoc, arith, ◌==◌, if◌then◌else◌, ==_iff,
  Bool-cases, length, All, Bytes, IsBytes, is_alnum,
}
use fastcgi_container.Range.{Range, is_empty}
use fastcgi_container.Range.Cut.{cut, free_of, cut-append, split_char-cut, length-cut}
use fastcgi_container.Range.Pieces.{pieces, pieces-cut, pieces-append, pieces_free}
use fastcgi_container.Url.{
  NamedValue, urlencode, urldecode, encode_symbol, push_pair, parse_loop, parse, is_mark, hex_digit,
}
use fastcgi_container.Url.RoundTrip.{urldecode-urlencode}

-- What one piece of a query adds: nothing, if no name stands before its first `=`.
pub pair_of : Range → List NamedValue
pair_of head =
    let pair = cut b'=' head in
    if is_empty pair.first
    then []
    else record { name = urldecode pair.first; value = urldecode pair.second } ∷ []

abbrev pub pairs_of : List Range → List NamedValue
pairs_of [] = []
pairs_of (p ∷ ps) = pair_of p ++ pairs_of ps

push_pair-pair_of : (head : Range) (v : List NamedValue) → push_pair head v ≡ v ++ pair_of head
unfolding push_pair pair_of
push_pair-pair_of head v = rw split_char-cut (ground (arith, append-nil v))

pub parse_loop-pieces :
    (fuel : ℕ) (r : Range) (v : List NamedValue)
    → length r < fuel
    → parse_loop fuel r v ≡ some (v ++ pairs_of (pieces b'&' r))
unfolding parse_loop
parse_loop-pieces zero r v h = elim h [ ]
parse_loop-pieces (suc fuel) [] v h = unfold pieces in rw append-nil refl
parse_loop-pieces (suc fuel) (c ∷ r) v h =
    rw
      (
        split_char-cut (c ∷ r) b'&',
        push_pair-pair_of (cut b'&' (c ∷ r)).first v,
        parse_loop-pieces fuel (cut b'&' (c ∷ r)).second (v ++ pair_of (cut b'&' (c ∷ r)).first)
            (omega (arith, length-cut b'&' c r)),
        pieces-cut b'&' c r,
        append_assoc v (pair_of (cut b'&' (c ∷ r)).first)
            (pairs_of (pieces b'&' (cut b'&' (c ∷ r)).second)),
      )
      refl

-- `parse` ends, and appends to `v` the decoded pair of each piece between `&`s, in order; a piece
-- with no name is left out, and one with no `=` has the empty value.
pub parse-pieces :
    (r : Range) (v : List NamedValue) → parse r v ≡ some (v ++ pairs_of (pieces b'&' r))
unfolding parse
parse-pieces r v = parse_loop-pieces (suc (length r)) r v (omega arith)

-- A byte with a meaning in a query.
abbrev is_reserved : ℕ → Bool
is_reserved ch = not (is_alnum ch || is_mark ch) && not (ch == b'%')

free_of-append : (ch : ℕ) (a b : Range) → free_of ch (a ++ b) ≡ (free_of ch a && free_of ch b)
free_of-append ch [] b = refl
free_of-append ch (c ∷ a) b = ground (arith, free_of-append ch a b)

eq_by_test : (p : ℕ → Bool) (c ch : ℕ) → p c ≡ true → p ch ≡ false → (c == ch) ≡ false
eq_by_test p c ch h k = elim (Bool-cases (c == ch)) [
  | inl e ↦ cc (h, k, ap p ((==_iff c ch).0 e))
  | inr e ↦ e
]

abbrev is_plain : ℕ → Bool
is_plain c = is_alnum c || is_mark c

is_alnum-hex_digit : (d : ℕ) → d < 16 → is_plain (hex_digit d) ≡ true
is_alnum-hex_digit d h = ground arith

encode_symbol_cases :
    (c : ℕ)
    → ((encode_symbol c ≡ c ∷ []) × (is_plain c ≡ true))
      ⊎ (encode_symbol c ≡ b'%' ∷ hex_digit (c % 256 / 16) ∷ hex_digit (c % 16) ∷ [])
unfolding encode_symbol
encode_symbol_cases c = elim (Bool-cases (is_alnum c)) [
  | inl e ↦ inl (rw e, rw e)
  | inr e ↦ elim (Bool-cases (is_mark c)) [
    | inl k ↦ inl (rw (e, k), rw (e, k))
    | inr k ↦ inr (rw (e, k))
  ]
]

reserved_parts : (a b : Bool) → (not a && not b) ≡ true → (a ≡ false) × (b ≡ false)
reserved_parts a b h = ground arith

free_of_one : (ch c : ℕ) → is_plain ch ≡ false → is_plain c ≡ true → not (c == ch) ≡ true
free_of_one ch c h k = rw (eq_by_test is_plain c ch k h) refl

free_of-encode_symbol : (ch c : ℕ) → is_reserved ch ≡ true → free_of ch (encode_symbol c) ≡ true
free_of-encode_symbol ch c h =
    let (plain, percent) = reserved_parts (is_plain ch) (ch == b'%') h in
    elim (encode_symbol_cases c) [
      | inl (e, k) ↦ rw (e, free_of_one ch c plain k) refl
      | inr e ↦
          rw
            (
              e,
              free_of_one ch (hex_digit (c % 256 / 16)) plain
                  (is_alnum-hex_digit (c % 256 / 16) (omega arith)),
              free_of_one ch (hex_digit (c % 16)) plain (is_alnum-hex_digit (c % 16) (omega arith)),
            )
            (ground arith)
    ]

-- No byte but letters, digits, marks and `%` comes out of `urlencode`.
pub free_of-urlencode :
    (ch : ℕ) (s : Range) → is_reserved ch ≡ true → free_of ch (urlencode s) ≡ true
unfolding urlencode
free_of-urlencode ch [] h = refl
free_of-urlencode ch (c ∷ s) h =
    rw (free_of-append ch (encode_symbol c) (urlencode s), free_of-encode_symbol ch c h)
      (free_of-urlencode ch s h)

-- A pair as a client writes it, and pairs joined by `&`.
pub format_pair : NamedValue → Bytes
format_pair p = urlencode p.name ++ b'=' ∷ urlencode p.value

abbrev pub format : List NamedValue → Bytes
format [] = []
format (p ∷ []) = format_pair p
format (p ∷ q ∷ ps) = format_pair p ++ b'&' ∷ format (q ∷ ps)

abbrev pub IsPair : NamedValue → Type 0
IsPair p = IsBytes p.name × IsBytes p.value × (p.name ≢ [])

free_of-format_pair : (p : NamedValue) → free_of b'&' (format_pair p) ≡ true
unfolding format_pair
free_of-format_pair p =
    rw
      (
        free_of-append b'&' (urlencode p.name) (b'=' ∷ urlencode p.value),
        free_of-urlencode b'&' p.name refl,
      )
      (free_of-urlencode b'&' p.value refl)

is_empty-urlencode : (s : Range) → s ≢ [] → is_empty (urlencode s) ≡ false
unfolding urlencode encode_symbol
is_empty-urlencode [] h = absurd (h refl)
is_empty-urlencode (c ∷ s) h = ground arith

pair_of-format_pair : (p : NamedValue) → IsPair p → pair_of (format_pair p) ≡ p ∷ []
unfolding pair_of format_pair
pair_of-format_pair p h =
    rw
      (
        cut-append b'=' (urlencode p.name) (urlencode p.value) (free_of-urlencode b'=' p.name refl),
        is_empty-urlencode p.name h.2,
        urldecode-urlencode p.name h.0,
        urldecode-urlencode p.value h.1,
      )
      refl

pieces_middle :
    (d : ℕ) (a : Range) (c : ℕ) (b : Range)
    → free_of d (a ++ c ∷ b) ≡ true
    → pieces d (a ++ c ∷ b) ≡ (a ++ c ∷ b) ∷ []
pieces_middle d [] c b h = pieces_free d c b h
pieces_middle d (e ∷ a) c b h = pieces_free d e (a ++ c ∷ b) h

pieces-format_pair : (p : NamedValue) → pieces b'&' (format_pair p) ≡ format_pair p ∷ []
unfolding format_pair
pieces-format_pair p =
    pieces_middle b'&' (urlencode p.name) b'=' (urlencode p.value)
      (unfold format_pair in free_of-format_pair p)

pairs_of-format : (ps : List NamedValue) → All IsPair ps → pairs_of (pieces b'&' (format ps)) ≡ ps
pairs_of-format [] h = unfold pieces in refl
pairs_of-format (p ∷ []) h = rw (pieces-format_pair p, pair_of-format_pair p h.0) refl
pairs_of-format (p ∷ q ∷ ps) h =
    rw
      (
        pieces-append b'&' (format_pair p) (format (q ∷ ps)) (free_of-format_pair p),
        pair_of-format_pair p h.0,
        pairs_of-format (q ∷ ps) h.1,
      )
      refl

-- `parse` reads back every list of pairs with names that are not empty, whatever bytes the names and
-- the values hold, from the query in which a client encodes them, joined by `=` and `&`.
pub parse-format : (ps : List NamedValue) → All IsPair ps → parse (format ps) [] ≡ some ps
parse-format ps h = rw parse-pieces (ap some (pairs_of-format ps h))
