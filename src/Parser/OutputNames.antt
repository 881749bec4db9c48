-- ===== src/Parser/OutputNames.antt =====
-- `Parser::normalizeOutputHeaderName`.
use fastcgi_container.Base.{
  ℕ, zero, suc, Option, none, some, [], ◌∷◌, ◌++◌, if◌then◌else◌, length, Bytes, to_upper,
}
use fastcgi_container.Range.{Range, is_empty, trim, split_char}

-- The first byte in upper case, and the rest as it is.
abbrev pub capitalize : Range → Bytes
capitalize [] = []
capitalize (c ∷ r) = to_upper c ∷ r

-- The loop; `none` is a loop that still runs.
unfoldable pub capital_loop : ℕ → Range → Bytes → Option Bytes
unfolding split_char trim
capital_loop zero range res = none
capital_loop (suc fuel) range res =
    let s = split_char range b'-' in
    let next = trim s.second in
    let name = res ++ capitalize s.first in
    let rest = capital_loop fuel next (if is_empty next then name else name ++ b'-' ∷ []) in
    if is_empty range then some res else rest

unfoldable pub normalize_output_header_name : Range → Option Bytes
unfolding capital_loop trim
normalize_output_header_name name = capital_loop (suc (length name)) (trim name) []
