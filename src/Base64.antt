-- ===== src/Base64.antt =====
-- `HashUtils::base64_encode` and `base64_decode` of library/util.cpp with their tables. The
-- accumulator is an `unsigned int` of 32 bits; `|` of a word whose low bits a shift cleared and a
-- number of no more bits is their sum. An exception is `none`.
pub mod RoundTrip
pub mod Length
use Prim.Native.Nat.{◌/◌, ◌^◌}
use fastcgi_container.Base.{
  Bool, ℕ, zero, suc, ◌+◌, ◌-◌, ◌*◌, ◌%◌, List, [], ◌∷◌, ◌++◌, Option, none, some, Bytes, length,
  drop, replicate, codes, leb, ltb, ◌==◌, ◌||◌, if◌then◌else◌, is_space,
}

abbrev pub b64_table : Bytes
b64_table = codes "ABCDEFGHIJKLMNOPQRSTUVWXYZabcdefghijklmnopqrstuvwxyz0123456789+/"

-- The entries behind the first 40, which are all 64.
abbrev reverse_rows : List ℕ
reverse_rows =
    64 ∷ 64 ∷ 64 ∷ 62 ∷ 64 ∷ 64 ∷ 64 ∷ 63 ∷ []
    ++ 52 ∷ 53 ∷ 54 ∷ 55 ∷ 56 ∷ 57 ∷ 58 ∷ 59 ∷ 60 ∷ 61 ∷ 64 ∷ 64 ∷ 64 ∷ 64 ∷ 64 ∷ 64 ∷ []
    ++ 64 ∷ 0 ∷ 1 ∷ 2 ∷ 3 ∷ 4 ∷ 5 ∷ 6 ∷ 7 ∷ 8 ∷ 9 ∷ 10 ∷ 11 ∷ 12 ∷ 13 ∷ 14 ∷ []
    ++ 15 ∷ 16 ∷ 17 ∷ 18 ∷ 19 ∷ 20 ∷ 21 ∷ 22 ∷ 23 ∷ 24 ∷ 25 ∷ 64 ∷ 64 ∷ 64 ∷ 64 ∷ 64 ∷ []
    ++ 64 ∷ 26 ∷ 27 ∷ 28 ∷ 29 ∷ 30 ∷ 31 ∷ 32 ∷ 33 ∷ 34 ∷ 35 ∷ 36 ∷ 37 ∷ 38 ∷ 39 ∷ 40 ∷ []
    ++ 41 ∷ 42 ∷ 43 ∷ 44 ∷ 45 ∷ 46 ∷ 47 ∷ 48 ∷ 49 ∷ 50 ∷ 51 ∷ 64 ∷ 64 ∷ 64 ∷ 64 ∷ 64 ∷ []

abbrev pub reverse_table : List ℕ
reverse_table = replicate 40 64 ++ reverse_rows

-- An entry of a table; the code reads none out of range.
abbrev entry : List ℕ → ℕ → ℕ
entry [] i = 64
entry (x ∷ xs) zero = x
entry (x ∷ xs) (suc i) = entry xs i

unfoldable pub symbol : ℕ → ℕ
symbol v = entry b64_table v

unfoldable pub sextet : ℕ → ℕ
sextet c = entry reverse_table c

-- The inner loop, on fuel: the symbols it writes and the bits that are left. A round takes six
-- bits, so as much fuel as there are bits is enough.
abbrev pub emit : ℕ → ℕ → ℕ → Bytes × ℕ
emit zero acc bits = ([], bits)
emit (suc fuel) acc bits =
    let rest = emit fuel acc (bits - 6) in
    if leb 6 bits then (symbol (acc / 2 ^ (bits - 6) % 64) ∷ rest.0, rest.1) else ([], bits)

-- The trailing bits.
abbrev pub emit_last : ℕ → ℕ → Bytes
emit_last acc bits = if ltb 0 bits then symbol (acc * 2 ^ (6 - bits) % 2 ^ 32 % 64) ∷ [] else []

-- The symbols written over the bytes of `bindata`.
unfoldable pub encode_loop : ℕ → ℕ → Bytes → Bytes
encode_loop acc bits [] = emit_last acc bits
encode_loop acc bits (c ∷ r) =
    let next = acc * 256 % 2 ^ 32 + c % 256 in
    let written = emit (bits + 8) next (bits + 8) in written.0 ++ encode_loop next written.1 r

abbrev pub max_size : ℕ
max_size = (2 ^ 64 - 1) / 4 * 3

-- The result is made of `=` first, then written over from its start.
unfoldable pub base64_encode : Bytes → Option Bytes
base64_encode bindata =
    if ltb max_size (length bindata)
    then none
    else (let retval = replicate ((length bindata + 2) / 3 * 4) b'=' in
        let written = encode_loop 0 0 bindata in some (written ++ drop (length written) retval))

-- A byte that the decoder passes over.
abbrev pub is_skipped : ℕ → Bool
is_skipped c = is_space c || c == b'='

-- A byte outside the alphabet; from 128 on it is a negative `char`.
abbrev pub is_illegal : ℕ → Bool
is_illegal c = ltb 127 c || ltb 63 (sextet c)

-- The accumulator and the number of bits behind a symbol, and the byte that it completes.
abbrev pub take_in : ℕ → ℕ → ℕ → Bytes × (ℕ × ℕ)
take_in acc bits c =
    let next = acc * 64 % 2 ^ 32 + sextet c in
    if leb 8 (bits + 6)
    then (next / 2 ^ (bits - 2) % 256 ∷ [], (next, bits - 2))
    else ([], (next, bits + 6))

-- Bytes of the result in front of those that are still to come.
abbrev pub ahead : Bytes → Option Bytes → Option Bytes
ahead out none = none
ahead out (some rest) = some (out ++ rest)

unfoldable pub decode_loop : ℕ → ℕ → Bytes → Option Bytes
decode_loop acc bits [] = some []
decode_loop acc bits (c ∷ r) =
    let t = take_in acc bits c in
    let passed = decode_loop acc bits r in
    let rest = decode_loop t.1.0 t.1.1 r in
    if is_skipped c then passed else if is_illegal c then none else ahead t.0 rest

unfoldable pub base64_decode : Bytes → Option Bytes
base64_decode ascdata = decode_loop 0 0 ascdata
