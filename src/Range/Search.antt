-- ===== src/Range/Search.antt =====
-- Where `Range::find` may point to.
use fastcgi_container.Base.{ℕ, ◌+◌, ◌≤◌, ◌<◌, ◌≡◌, refl, ◌⊎◌, inl, true, [], ◌∷◌, arith, length}
use fastcgi_container.Range.{Range, find_char, starts_with, search_range, find}

pub length-starts_with : (r p : Range) → starts_with r p ≡ true → length p ≤ length r
length-starts_with r [] h = omega arith
length-starts_with [] (p ∷ ps) h = cc
length-starts_with (c ∷ r) (p ∷ ps) h = ground (arith, length-starts_with r ps)

-- An offset is that of the end, or it leaves room for what is searched.
abbrev pub Fits : ℕ → Range → Range → Type 0
Fits i r sub = (i ≡ length r) ⊎ (i + length sub ≤ length r)

search_range-Fits : (r sub : Range) (p : ℕ) → Fits (search_range r (p ∷ sub)) r (p ∷ sub)
unfolding search_range
search_range-Fits [] sub p = inl refl
search_range-Fits (c ∷ r) sub p =
    ground (arith, search_range-Fits r sub p, length-starts_with (c ∷ r) (p ∷ sub))

find_char-Fits : (r : Range) (p : ℕ) → Fits (find_char p r) r (p ∷ [])
unfolding find_char
find_char-Fits [] p = inl refl
find_char-Fits (c ∷ r) p = ground (arith, find_char-Fits r p)

pub find-Fits : (r sub : Range) → 0 < length sub → Fits (find r sub) r sub
unfolding find
find-Fits r [] h = absurd (omega arith)
find-Fits r (p ∷ []) h = find_char-Fits r p
find-Fits r (p ∷ q ∷ sub) h = search_range-Fits r (q ∷ sub) p
