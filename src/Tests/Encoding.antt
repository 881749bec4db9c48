-- ===== src/Tests/Encoding.antt =====
-- Runs of base64_encode and base64_decode, and the theorems about them at concrete arguments.
use fastcgi_container.Base.{
  List, ◌+◌, ◌*◌, ◌/◌, ◌≤◌, ◌≡◌, refl, [], ◌∷◌, none, some, arith, Bytes, codes, length,
}
use fastcgi_container.Text.{split_string}
use fastcgi_container.Text.Pieces.{joined, split_string-joined}
use fastcgi_container.Base64.{
  base64_encode, base64_decode, encode_loop, decode_loop, symbol, sextet,
}
use fastcgi_container.Base64.RoundTrip.{then_decode, base64_decode-base64_encode}
use fastcgi_container.Base64.Length.{size, length-base64_encode}

abbrev secret : Bytes
secret = codes "user:p"

abbrev short : Bytes
short = 255 ∷ 0 ∷ []

encoded : base64_encode secret ≡ some (codes "dXNlcjpw")
unfolding base64_encode encode_loop
encoded = unfold symbol in refl

padded : base64_encode short ≡ some (codes "/wA=")
unfolding base64_encode encode_loop
padded = unfold symbol in refl

spaced : base64_decode (codes "dX Nl") ≡ some (codes "use")
unfolding base64_decode
spaced = unfold decode_loop in unfold sextet in refl

refused : base64_decode (codes "dX-l") ≡ none
unfolding base64_decode
refused = unfold decode_loop in unfold sextet in refl

base64_decode-base64_encode_example : then_decode (base64_encode short) ≡ some short
base64_decode-base64_encode_example =
    base64_decode-base64_encode short (omega arith, (omega arith, tt)) (omega arith)

length-base64_encode_example :
    (length (encode_loop 0 0 short) ≤ (length short + 2) / 3 * 4)
    × (size (base64_encode short) ≡ (length short + 2) / 3 * 4)
length-base64_encode_example = length-base64_encode short (omega arith)

abbrev words : List Bytes
words = codes "Basic" ∷ codes "dXNlcjpw" ∷ []

split_string-joined_example : split_string (joined b' ' words) b' ' ≡ words
split_string-joined_example = split_string-joined b' ' words (omega arith) (omega arith)
