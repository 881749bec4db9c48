-- ===== src/Range/Cut.antt =====
-- `split` at a character, described by the pieces.
use Prim.Native.Nat.add
use fastcgi_container.Base.{
  ℕ, suc, Bool, true, false, not, [], ◌∷◌, ◌++◌, ◌≡◌, refl, ap, ◌∙◌, inl, inr, ◌↔◌, arith, all,
  length, ◌≤◌, ◌==◌, Bool-cases, if◌then◌else◌,
}
use fastcgi_container.Range.{Range, Split, find_char, do_split, split_char}

-- `ch` is not among the bytes of `r`.
abbrev pub free_of : ℕ → Range → Bool
free_of ch = all (λ c. not (c == ch))

abbrev cut_cons : ℕ → Split → Split
cut_cons c s = record s { first = c ∷ s.first }

-- The split by recursion on the bytes, with no offsets.
unfoldable pub cut : ℕ → Range → Split
cut ch [] = record { first = []; second = []; found = false }
cut ch (c ∷ r) =
    let rest = cut ch r in
    if c == ch then record { first = []; second = r; found = true } else cut_cons c rest

do_split_cons :
    (c : ℕ) (r : Range) (e : ℕ) → do_split (c ∷ r) (suc e) 1 ≡ cut_cons c (do_split r e 1)
do_split_cons c r e = rw (add.suc e 1) (ground arith)

pub split_char-cut : (r : Range) (ch : ℕ) → split_char r ch ≡ cut ch r
unfolding split_char cut
split_char-cut [] ch = refl
split_char-cut (c ∷ r) ch = elim (Bool-cases (c == ch)) [
  | inl e ↦ rw e (ground arith)
  | inr e ↦ rw e (do_split_cons c r (find_char ch r) ∙ ap (cut_cons c) (split_char-cut r ch))
]

-- `s` is how `split(ch, first, second)` has to take `r` apart.
pub record IsSplit (ch : ℕ) (r : Range) (s : Split) : Type 0 where
  pub whole : r ≡ (if s.found then s.first ++ ch ∷ s.second else s.first)
  pub clean : free_of ch s.first ≡ true
  pub unfound : s.found ≡ false → s.second ≡ []

cut-IsSplit : (ch : ℕ) (r : Range) → IsSplit ch r (cut ch r)
unfolding cut
cut-IsSplit ch [] = record { whole = refl; clean = refl; unfound = λ _. refl }
cut-IsSplit ch (c ∷ r) = ground (arith, cut-IsSplit ch r)

pub cut-append :
    (ch : ℕ) (a b : Range)
    → free_of ch a ≡ true
    → cut ch (a ++ ch ∷ b) ≡ record { first = a; second = b; found = true }
unfolding cut
cut-append ch [] b h = ground arith
cut-append ch (c ∷ a) b h = ground (arith, cut-append ch a b)

pub cut_free :
    (ch : ℕ) (a : Range)
    → free_of ch a ≡ true
    → cut ch a ≡ record { first = a; second = []; found = false }
unfolding cut
cut_free ch [] h = refl
cut_free ch (c ∷ a) h = ground (arith, cut_free ch a)

IsSplit-cut : (ch : ℕ) (r : Range) (s : Split) → IsSplit ch r s → s ≡ cut ch r
IsSplit-cut ch r s h = elim (Bool-cases s.found) [
  | inl e ↦ ground (arith, cut-append ch s.first s.second)
  | inr e ↦ ground (arith, cut_free ch s.first)
]

-- A result `s` has these three properties exactly if it is what `split` at the character `ch` gives
-- for the range `r`: the range is the first piece, the delimiter and the second piece, or the first
-- piece alone where nothing was found; the delimiter does not occur in the first piece; and the
-- second piece is empty where nothing was found.
pub split_char_iff : (r : Range) (ch : ℕ) (s : Split) → IsSplit ch r s ↔ (s ≡ split_char r ch)
split_char_iff r ch s = rw split_char-cut (IsSplit-cut ch r s, λ e. rw e (cut-IsSplit ch r))

pub length-cut : (ch c : ℕ) (r : Range) → length (cut ch (c ∷ r)).second ≤ length r
unfolding cut
length-cut ch c [] = ground arith
length-cut ch c (d ∷ r) = ground (arith, length-cut ch d r)
