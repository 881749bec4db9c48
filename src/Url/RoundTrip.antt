-- ===== src/Url/RoundTrip.antt =====
-- Encoding and decoding of byte strings, and the bytes of an encoded text.
use fastcgi_container.Base.{
  table-entry, table, ℕ, ◌/◌, ◌%◌, ◌<◌, ◌≡◌, refl, ap, ◌∙◌, ◌≢◌, inl, inr, true, ◌||◌, [], ◌∷◌,
  ◌++◌, arith, ◌==◌, ==_iff, Bool-cases, IsBytes, is_alnum,
}
use fastcgi_container.Range.{Range}
use fastcgi_container.Url.{encode_symbol, urlencode, urldecode, decode_pair, hex_digit, is_mark}

abbrev rebuilt : ℕ → ℕ
rebuilt c = decode_pair (hex_digit (c % 256 / 16)) (hex_digit (c % 16))

rebuilt_byte : table (λ c. rebuilt c == c) 256 ≡ true
rebuilt_byte = refl

rebuilt_lem : (c : ℕ) → c < 256 → rebuilt c ≡ c
rebuilt_lem c h = (==_iff (rebuilt c) c).0 (table-entry (λ c. rebuilt c == c) rebuilt_byte h)

urldecode_single : (c : ℕ) (r : Range) → c ≢ b'+' → c ≢ b'%' → urldecode (c ∷ r) ≡ c ∷ urldecode r
unfolding urldecode
urldecode_single c [] h k = ground arith
urldecode_single c (f ∷ []) h k = ground arith
urldecode_single c (f ∷ s ∷ r) h k = ground arith

urldecode_escape :
    (f s : ℕ) (r : Range) → urldecode (b'%' ∷ f ∷ s ∷ r) ≡ decode_pair f s ∷ urldecode r
unfolding urldecode
urldecode_escape f s r = refl

urldecode-encode_symbol :
    (c : ℕ) (r : Range) → c < 256 → urldecode (encode_symbol c ++ r) ≡ c ∷ urldecode r
unfolding encode_symbol
urldecode-encode_symbol c r h = elim (Bool-cases (is_alnum c || is_mark c)) [
  | inl e ↦ ground (arith, urldecode_single c r)
  | inr e ↦
      ground
        (arith, urldecode_escape (hex_digit (c % 256 / 16)) (hex_digit (c % 16)) r, rebuilt_lem c h)
]

-- Decoding an encoded byte string gives the byte string back.
pub urldecode-urlencode : (s : Range) → IsBytes s → urldecode (urlencode s) ≡ s
unfolding urlencode
urldecode-urlencode [] h = unfold urldecode in refl
urldecode-urlencode (c ∷ s) h =
    urldecode-encode_symbol c (urlencode s) h.0 ∙ ap (◌∷◌ c) (urldecode-urlencode s h.1)
