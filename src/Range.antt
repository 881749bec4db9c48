-- ===== src/Range.antt =====
-- include/fastcgi3/range.h: `Range`, a pair of pointers into memory that nobody writes to while the
-- range is used. A range is modelled by the bytes between its pointers, and a pointer into it by its
-- offset from `begin()`, so `end()` is the length.
pub mod Cut
pub mod Pieces
pub mod Search
pub mod Trim
use mathlib.Core.List.{reverse}
use fastcgi_container.Base.{
  ℕ, zero, suc, ◌+◌, ◌-◌, ◌*◌, ◌/◌, ◌%◌, ◌^◌, ◌≤◌, ◌<◌, ◌≡◌, refl, sym, ap, ◌∙◌, ◌≢◌, ◌↔◌, ◌⊎◌, inl,
  inr, Bool, true, false, not, ◌&&◌, ◌||◌, Option, none, some, List, [], ◌∷◌, ◌++◌, append-nil,
  append_assoc, arith, ltb, leb, ◌==◌, if◌then◌else◌, ==_iff, ==_refl, Bool-cases, Option-cases,
  length, take, drop, length-append, length-take, length-drop, take-append-drop, take-append,
  drop-append, replicate, length-replicate, take_front, drop_front, take_all, all, All, Bytes,
  IsBytes, codes, equal, equal_iff, lex_less, char_key, le_bytes, le_value, sub64,
  le_value-le_bytes, sub64_le, is_space, is_alnum, is_upper, is_lower, is_digit, between, to_upper,
  to_lower,
}

abbrev pub Range : Type 0
Range = Bytes

abbrev pub is_empty : Range → Bool
is_empty [] = true
is_empty (c ∷ r) = false

-- The loop of `trim` that moves `begin` forward.
unfoldable pub skip_space : Range → Range
skip_space [] = []
skip_space (c ∷ r) = if is_space c then skip_space r else c ∷ r

-- The second loop of `trim` moves `end` back, so it reads the range from behind.
unfoldable pub trim : Range → Range
unfolding skip_space
trim r = reverse (skip_space (reverse (skip_space r)))

-- The counts are `int` in the source, and no call gives a negative one.
unfoldable pub trimn : ℕ → ℕ → Range → Range
trimn b e r = let rest = drop b r in take (length rest - e) rest

-- std::find: the offset of the first `ch`, or the length.
unfoldable pub find_char : ℕ → Range → ℕ
find_char ch [] = 0
find_char ch (c ∷ r) = let rest = find_char ch r in if c == ch then 0 else suc rest

-- memcmp(begin_, range.begin(), range.size()) == 0, behind the test on the sizes.
abbrev pub starts_with : Range → Range → Bool
starts_with r [] = true
starts_with [] (p ∷ prefix) = false
starts_with (c ∷ r) (p ∷ prefix) = c == p && starts_with r prefix

unfoldable pub ends_with : Range → Range → Bool
ends_with r suffix =
    if leb (length suffix) (length r)
    then equal (drop (length r - length suffix) r) suffix
    else false

-- std::search: the offset of the first occurrence, or the length.
unfoldable pub search_range : Range → Range → ℕ
search_range r [] = 0
search_range [] (p ∷ sub) = 0
search_range (c ∷ r) (p ∷ sub) =
    let rest = search_range r (p ∷ sub) in if starts_with (c ∷ r) (p ∷ sub) then 0 else suc rest

unfoldable pub find : Range → Range → ℕ
unfolding find_char search_range
find r (p ∷ []) = find_char p r
find r sub = search_range r sub

-- What `split` writes to `first` and `second`, and what it returns.
pub record Split : Type 0 where
  pub first : Range
  pub second : Range
  pub found : Bool

abbrev pub do_split : Range → ℕ → ℕ → Split
do_split r e size =
    if e == length r
    then record { first = take e r; second = []; found = false }
    else record { first = take e r; second = drop (e + size) r; found = true }

unfoldable pub split : Range → Range → Split
unfolding find
split r delim = do_split r (find r delim) (length delim)

unfoldable pub split_char : Range → ℕ → Split
unfolding find_char
split_char r delim = do_split r (find_char delim r) 1

-- std::lexicographical_compare.
unfoldable pub less : Range → Range → Bool
less = lex_less char_key
