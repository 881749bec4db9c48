-- ===== src/Base64/Length.antt =====
-- The size of the text that base64_encode makes.
use fastcgi_container.Base.{
  ℕ, ◌+◌, ◌*◌, ◌/◌, ◌%◌, ◌^◌, ◌≤◌, ◌≡◌, refl, false, [], ◌∷◌, Option, none, some, arith, Bytes,
  length, drop, replicate, ltb, length-append, length-drop, length-replicate,
}
use fastcgi_container.Base64.{encode_loop, base64_encode, max_size}

-- The symbols that the loop writes, for each number of bits that it holds at the start.
record IsWritten (r : Bytes) : Type 0 where
  none_held : (acc : ℕ) → length (encode_loop acc 0 r) ≡ (8 * length r + 5) / 6
  two_held : (acc : ℕ) → length (encode_loop acc 2 r) ≡ (8 * length r + 7) / 6
  four_held : (acc : ℕ) → length (encode_loop acc 4 r) ≡ (8 * length r + 9) / 6

written_lem : (r : Bytes) → IsWritten r
unfolding encode_loop
written_lem [] = record { none_held = λ acc. refl; two_held = λ acc. refl; four_held = λ acc. refl }
written_lem (c ∷ r) =
    let w = written_lem r in
    record {
      none_held = λ acc. omega (arith, w.two_held (acc * 256 % 2 ^ 32 + c % 256));
      two_held = λ acc. omega (arith, w.four_held (acc * 256 % 2 ^ 32 + c % 256));
      four_held = λ acc. omega (arith, w.none_held (acc * 256 % 2 ^ 32 + c % 256));
    }

-- The length of a text, 0 where encoding threw an exception.
abbrev pub size : Option Bytes → ℕ
size none = 0
size (some text) = length text

pub length-encode_loop : (b : Bytes) → length (encode_loop 0 0 b) ≤ (length b + 2) / 3 * 4
length-encode_loop b = omega (arith, (written_lem b).none_held 0)

-- For a byte string that is not too large, the text of `base64_encode` has four symbols, `=` among
-- them, for each three bytes begun: the loop writes none behind the string that it was given.
pub length-base64_encode :
    (b : Bytes)
    → length b ≤ max_size
    → (length (encode_loop 0 0 b) ≤ (length b + 2) / 3 * 4)
      × (size (base64_encode b) ≡ (length b + 2) / 3 * 4)
unfolding base64_encode
length-base64_encode b k =
    let small : ltb max_size (length b) ≡ false = ground arith in
    let text = encode_loop 0 0 b in
    let room = (length b + 2) / 3 * 4 in
    let e = length-append {A = ℕ} text (drop (length text) (replicate room b'=')) in
    let d = length-drop {A = ℕ} (length text) (replicate room b'=') in
    let n = length-replicate {A = ℕ} room b'=' in
    let fits = length-encode_loop b in (fits, simp small (omega (arith, e, d, n, fits)))
