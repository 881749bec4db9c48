-- ===== src/Range/Pieces.antt =====
-- The pieces between delimiters, as the loops `while (!tmp.empty()) { tmp.split(d, head, tail); …;
-- tmp = tail; }` visit them: an empty piece at the very end is not visited.
use fastcgi_container.Base.{ℕ, ◌≡◌, true, List, [], ◌∷◌, ◌++◌, arith, ◌==◌, if◌then◌else◌}
use fastcgi_container.Range.{Range}
use fastcgi_container.Range.Cut.{cut, free_of}

abbrev cons_first : ℕ → List Range → List Range
cons_first c [] = (c ∷ []) ∷ []
cons_first c (p ∷ ps) = (c ∷ p) ∷ ps

-- By recursion on the bytes.
unfoldable pub pieces : ℕ → Range → List Range
pieces d [] = []
pieces d (c ∷ r) = let rest = pieces d r in if c == d then [] ∷ rest else cons_first c rest

-- One round of such a loop.
pub pieces-cut :
    (d c : ℕ) (r : Range)
    → pieces d (c ∷ r) ≡ (cut d (c ∷ r)).first ∷ pieces d (cut d (c ∷ r)).second
unfolding pieces cut
pieces-cut d c [] = ground arith
pieces-cut d c (e ∷ r) = ground (arith, pieces-cut d e r)

pub pieces-append :
    (d : ℕ) (a b : Range) → free_of d a ≡ true → pieces d (a ++ d ∷ b) ≡ a ∷ pieces d b
unfolding pieces
pieces-append d [] b h = ground arith
pieces-append d (c ∷ a) b h = ground (arith, pieces-append d a b)

pub pieces_free : (d c : ℕ) (a : Range) → free_of d (c ∷ a) ≡ true → pieces d (c ∷ a) ≡ (c ∷ a) ∷ []
unfolding pieces
pieces_free d c [] h = ground arith
pieces_free d c (e ∷ a) h = ground (arith, pieces_free d e a)
