-- ===== src/Text.antt =====
-- Pieces of texts: `split`, `replaceAll` and `hasExt` of page-compiler/utils.cpp; library/util.cpp has
-- the same `split`, less its first test. A `const char*` ends at its first NUL.
pub mod Pieces
use fastcgi_container.Base.{
  ℕ, zero, suc, ◌-◌, Bool, true, false, not, ◌&&◌, List, [], ◌∷◌, ◌++◌, leb, ◌==◌, if◌then◌else◌,
  length, drop, Bytes, equal,
}

-- The longest start of a text all of whose bytes pass the test, and the rest.
abbrev pub span : (ℕ → Bool) → Bytes → Bytes × Bytes
span test [] = ([], [])
span test (c ∷ r) =
    let (taken, rest) = span test r in if test c then (c ∷ taken, rest) else ([], c ∷ r)

-- `c_str()`, up to its NUL.
abbrev pub c_string : Bytes → Bytes
c_string s = (span (λ c. not (c == 0)) s).0

-- The rounds of the loop; each but the last passes a byte.
unfoldable pub pieces : ℕ → ℕ → Bytes → List Bytes
pieces zero c s = []
pieces (suc fuel) c [] = [] ∷ []
pieces (suc fuel) c (d ∷ r) = elim (d == c) [
  | true ↦ pieces fuel c r
  | false ↦
      (span (λ e. not (e == c)) (d ∷ r)).0
      ∷ elim (span (λ e. not (e == c)) (d ∷ r)).1 [ [] ↦ [] | e ∷ behind ↦ pieces fuel c behind ]
]

unfoldable pub split : Bytes → ℕ → List Bytes
unfolding pieces
split str c = let s = c_string str in pieces (suc (length s)) c s

-- StringUtils::split
unfoldable pub split_string : Bytes → ℕ → List Bytes
unfolding split
split_string [] c = []
split_string (d ∷ r) c = split (d ∷ r) c

-- Whether a text starts with another.
abbrev pub begins : Bytes → Bytes → Bool
begins [] s = true
begins (c ∷ t) [] = false
begins (c ∷ t) (d ∷ s) = d == c && begins t s

-- The search goes on behind each replacement. The texts to replace are not empty; a round takes at
-- least a byte.
unfoldable pub replace_all : ℕ → Bytes → Bytes → Bytes → Bytes
replace_all zero to_replace replace_with s = s
replace_all (suc fuel) to_replace replace_with [] = []
replace_all (suc fuel) to_replace replace_with (c ∷ r) = elim (begins to_replace (c ∷ r)) [
  | true ↦
      replace_with ++ replace_all fuel to_replace replace_with (drop (length to_replace) (c ∷ r))
  | false ↦ c ∷ replace_all fuel to_replace replace_with r
]

unfoldable pub has_ext : Bytes → Bytes → Bool
has_ext s ext = leb (length ext) (length s) && equal (drop (length s - length ext) s) ext
