-- ===== src/Base/Text.antt =====
-- Byte strings: `std::string` and the bytes behind a `const char*`.
use Prim.Native.Char.{code}
use Prim.Native.Nat.{ℕ, zero, suc, ◌+◌, ◌-◌, ◌*◌, ◌/◌, ◌%◌, ◌^◌, ◌<◌, ◌≤◌}
use Prim.Native.String.{String}
use mathlib.Core.Path.{◌≡◌}
use mathlib.Core.Logic.{◌↔◌}
use mathlib.Core.Bool.{Bool, true, false, ◌&&◌}
use mathlib.Core.List.{List, [], ◌∷◌}
use native.Mathlib.Omega.{arith}
use fastcgi_container.Base.Lists.{All}
use fastcgi_container.Base.Tests.{◌==◌, ltb, if◌then◌else◌}

abbrev pub Bytes : Type 0
Bytes = List ℕ

abbrev pub IsBytes : Bytes → Type 0
IsBytes = All (λ c. c < 256)

-- The code points of a text: its bytes, where it is ASCII.
abbrev pub codes : String → Bytes
codes String.[] = []
codes (String.◌∷◌ c s) = code c ∷ codes s

-- `==` of two byte strings.
abbrev pub equal : Bytes → Bytes → Bool
equal [] [] = true
equal (x ∷ xs) (y ∷ ys) = x == y && equal xs ys
equal _ _ = false

pub equal_iff : (a b : Bytes) → (equal a b ≡ true) ↔ (a ≡ b)
equal_iff (x ∷ a) (y ∷ b) = ground (arith, equal_iff a b)
equal_iff _ _ = ground arith

-- Lexicographic order of the keys of the bytes.
abbrev pub lex_less : (ℕ → ℕ) → Bytes → Bytes → Bool
lex_less key a [] = false
lex_less key [] (d ∷ b) = true
lex_less key (c ∷ a) (d ∷ b) =
    let rest = lex_less key a b in
    if ltb (key c) (key d) then true else if ltb (key d) (key c) then false else rest

-- The order of `char`, which is signed: bytes from 128 on come first.
abbrev pub char_key : ℕ → ℕ
char_key c = (c + 128) % 256

-- An unsigned number in `k` bytes, the lowest first, and back.
abbrev pub le_bytes : ℕ → ℕ → Bytes
le_bytes zero v = []
le_bytes (suc k) v = v % 256 ∷ le_bytes k (v / 256)

abbrev pub le_value : Bytes → ℕ
le_value [] = 0
le_value (c ∷ cs) = c + 256 * le_value cs

-- A difference of two 64-bit numbers.
abbrev pub sub64 : ℕ → ℕ → ℕ
sub64 a b = (a + 2 ^ 64 - b) % 2 ^ 64

pub le_value-le_bytes : (v : ℕ) → v < 2 ^ 64 → le_value (le_bytes 8 v) ≡ v
le_value-le_bytes v h = omega arith

pub sub64_le : (a b : ℕ) → a < 2 ^ 64 → b ≤ a → sub64 a b ≡ a - b
sub64_le a b h k = omega arith

-- A number in decimal digits, as std::to_string and streams print it; a number has at most as many
-- digits as its value, or one.
abbrev decimal_loop : ℕ → ℕ → Bytes → Bytes
decimal_loop zero n acc = acc
decimal_loop (suc fuel) n acc =
    let rest = decimal_loop fuel (n / 10) ((b'0' + n % 10) ∷ acc) in
    if ltb n 10 then (b'0' + n) ∷ acc else rest

unfoldable pub decimal : ℕ → Bytes
decimal n = decimal_loop (suc n) n []
