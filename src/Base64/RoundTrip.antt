-- ===== src/Base64/RoundTrip.antt =====
-- Decoding of what base64_encode makes.
use fastcgi_container.Base.{
  ℕ, zero, suc, ◌+◌, ◌-◌, ◌*◌, ◌/◌, ◌%◌, ◌^◌, ◌<◌, ◌≤◌, ◌≡◌, refl, ap, ◌∙◌, Bool, true, false, [],
  ◌∷◌, ◌++◌, Option, none, some, arith, ◌==◌, Bytes, IsBytes, length, drop, replicate, not, table,
  table-entry, ◌&&◌, ltb,
}
use fastcgi_container.Base64.{
  symbol, sextet, ahead, encode_loop, decode_loop, base64_encode, base64_decode, is_skipped,
  is_illegal, max_size,
}

abbrev reads_back : ℕ → Bool
reads_back v = not (is_skipped (symbol v)) && not (is_illegal (symbol v)) && sextet (symbol v) == v

symbol_reads : table reads_back 64 ≡ true
unfolding symbol sextet
symbol_reads = refl

symbol_lem :
    (v : ℕ)
    → v < 64
    → (is_skipped (symbol v) ≡ false) × (is_illegal (symbol v) ≡ false) × (sextet (symbol v) ≡ v)
symbol_lem v h = ground (arith, table-entry {c = v} reads_back symbol_reads h)

-- The word behind a symbol.
abbrev word : ℕ → ℕ → ℕ
word acc v = acc * 64 % 2 ^ 32 + v

-- One symbol, for each number of bits that the decoder holds.
module _ (acc v : ℕ) (r : Bytes) (h : v < 64) where
  decode_first : decode_loop acc 0 (symbol v ∷ r) ≡ ahead [] (decode_loop (word acc v) 6 r)
  unfolding decode_loop
  decode_first = let s = symbol_lem v h in simp (s.0, s.1) (simp s.2 refl)

  decode_second :
      decode_loop acc 6 (symbol v ∷ r)
      ≡ ahead (word acc v / 16 % 256 ∷ []) (decode_loop (word acc v) 4 r)
  unfolding decode_loop
  decode_second = let s = symbol_lem v h in simp (s.0, s.1) (simp s.2 refl)

  decode_third :
      decode_loop acc 4 (symbol v ∷ r)
      ≡ ahead (word acc v / 4 % 256 ∷ []) (decode_loop (word acc v) 2 r)
  unfolding decode_loop
  decode_third = let s = symbol_lem v h in simp (s.0, s.1) (simp s.2 refl)

  decode_fourth :
      decode_loop acc 2 (symbol v ∷ r)
      ≡ ahead (word acc v / 1 % 256 ∷ []) (decode_loop (word acc v) 0 r)
  unfolding decode_loop
  decode_fourth = let s = symbol_lem v h in simp (s.0, s.1) (simp s.2 refl)

decode_pad : (n acc bits : ℕ) → decode_loop acc bits (replicate n b'=') ≡ some []
unfolding decode_loop
decode_pad zero acc bits = refl
decode_pad (suc n) acc bits = decode_pad n acc bits

glue :
    {x y : ℕ} {d : Option Bytes} {bs : Bytes}
    → d ≡ some bs
    → x ≡ y
    → ahead (x ∷ []) d ≡ some (y ∷ bs)
glue {y = y} {bs = bs} h e = rw (h, e) refl

-- The encoder's word behind a byte.
abbrev put : ℕ → ℕ → ℕ
put acc c = acc * 256 % 2 ^ 32 + c % 256

put_lem : (acc c : ℕ) (bs : Bytes) → c < 256 → some (put acc c % 256 ∷ bs) ≡ some (c ∷ bs)
put_lem acc c bs h = ap (λ x. some (x ∷ bs)) (omega arith)

-- The decoder behind the symbols of the bytes so far, with the bits that it still holds.
record IsRead (pad : ℕ) (bs : Bytes) : Type 0 where
  whole : (a acc : ℕ) → decode_loop a 0 (encode_loop acc 0 bs ++ replicate pad b'=') ≡ some bs
  six_held :
      (a acc : ℕ)
      → a % 64 ≡ acc / 4 % 64
      → decode_loop a 6 (encode_loop acc 2 bs ++ replicate pad b'=') ≡ some (acc % 256 ∷ bs)
  four_held :
      (a acc : ℕ)
      → a % 16 ≡ acc / 16 % 16
      → decode_loop a 4 (encode_loop acc 4 bs ++ replicate pad b'=') ≡ some (acc % 256 ∷ bs)

ended : (pad : ℕ) → IsRead pad []
unfolding encode_loop
ended pad = record {
  whole = λ a acc. decode_pad pad a 0;
  six_held = λ a acc h.
      let v = acc * 2 ^ 4 % 2 ^ 32 % 64 in
      decode_second a v (replicate pad b'=') (omega arith)
      ∙ glue (decode_pad pad (word a v) 4) (omega arith);
  four_held = λ a acc h.
      let v = acc * 2 ^ 2 % 2 ^ 32 % 64 in
      decode_third a v (replicate pad b'=') (omega arith)
      ∙ glue (decode_pad pad (word a v) 2) (omega arith);
}

more : (pad c : ℕ) (bs : Bytes) → c < 256 → IsRead pad bs → IsRead pad (c ∷ bs)
unfolding encode_loop
more pad c bs b r = record {
  whole = λ a acc.
      let p = put acc c in
      let v = p / 4 % 64 in
      decode_first a v (encode_loop p 2 bs ++ replicate pad b'=') (omega arith)
      ∙ ap (ahead []) (r.six_held (word a v) p (omega arith))
      ∙ put_lem acc c bs b;
  six_held = λ a acc h.
      let p = put acc c in
      let v = p / 16 % 64 in
      decode_second a v (encode_loop p 4 bs ++ replicate pad b'=') (omega arith)
      ∙ glue (r.four_held (word a v) p (omega arith) ∙ put_lem acc c bs b) (omega arith);
  four_held = λ a acc h.
      let p = put acc c in
      let v = p / 64 % 64 in
      let u = p / 1 % 64 in
      let t = encode_loop p 0 bs ++ replicate pad b'=' in
      decode_third a v (symbol u ∷ t) (omega arith)
      ∙ glue
          (decode_fourth (word a v) u t (omega arith)
            ∙ glue (r.whole (word (word a v) u) p) (omega arith))
          (omega arith);
}

read_lem : (pad : ℕ) (bs : Bytes) → IsBytes bs → IsRead pad bs
read_lem pad [] h = ended pad
read_lem pad (c ∷ bs) h = more pad c bs h.0 (read_lem pad bs h.1)

drop-replicate : (k n c : ℕ) → drop k (replicate n c) ≡ replicate (n - k) c
drop-replicate zero n c = let e : n ≡ n - 0 = omega arith in ap (λ m. replicate m c) e
drop-replicate (suc k) zero c = let e : 0 ≡ 0 - suc k = omega arith in ap (λ m. replicate m c) e
drop-replicate (suc k) (suc n) c =
    let e : n - k ≡ suc n - suc k = omega arith in drop-replicate k n c ∙ ap (λ m. replicate m c) e

-- The text that is decoded, where encoding threw no exception.
abbrev pub then_decode : Option Bytes → Option Bytes
then_decode none = none
then_decode (some text) = base64_decode text

-- For a byte string that is not too large for `base64_encode`, encoding returns a text, and decoding
-- that text returns the byte string.
pub base64_decode-base64_encode :
    (b : Bytes) → IsBytes b → length b ≤ max_size → then_decode (base64_encode b) ≡ some b
unfolding base64_encode base64_decode
base64_decode-base64_encode b h k =
    let small : ltb max_size (length b) ≡ false = ground arith in
    let room = (length b + 2) / 3 * 4 in
    let used = length (encode_loop 0 0 b) in
    rw (small, drop-replicate used room b'=') ((read_lem (room - used) b h).whole 0 0)
