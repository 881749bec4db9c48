-- ===== src/Parser/Names.antt =====
-- What the names of the headers become.
use mathlib.Core.List.{map}
use fastcgi_container.Base.{
  ℕ, zero, suc, ◌<◌, ◌≡◌, refl, sym, ap, inl, inr, some, [], ◌∷◌, ◌++◌, append-nil, append_assoc,
  arith, ◌==◌, if◌then◌else◌, Bool-cases, length, Bytes,
}
use fastcgi_container.Range.{Range}
use fastcgi_container.Range.Cut.{cut, split_char-cut, length-cut}
use fastcgi_container.Parser.{dash_loop, normalize_input_header_name}

abbrev pub dash : ℕ → ℕ
dash c = if c == b'_' then b'-' else c

-- A round's share of the name, and what the rest adds.
dash-cut :
    (r : Range)
    → (if (cut b'_' r).found then (cut b'_' r).first ++ b'-' ∷ [] else (cut b'_' r).first)
        ++ map dash (cut b'_' r).second
      ≡ map dash r
unfolding cut
dash-cut [] = refl
dash-cut (c ∷ r) = elim (Bool-cases (c == b'_')) [
  | inl e ↦ rw e refl
  | inr e ↦ ground (arith, dash-cut r)
]

dash_loop_lem :
    (fuel : ℕ) (r : Range) (res : Bytes)
    → length r < fuel
    → dash_loop fuel r res ≡ some (res ++ map dash r)
unfolding dash_loop
dash_loop_lem zero r res h = absurd (omega arith)
dash_loop_lem (suc fuel) [] res h = ap some (sym (append-nil res))
dash_loop_lem (suc fuel) (c ∷ r) res h =
    rw
      (
        split_char-cut (c ∷ r) b'_',
        dash_loop_lem fuel (cut b'_' (c ∷ r)).second _ (omega (arith, length-cut b'_' c r)),
        ← dash-cut (c ∷ r),
      )
      (elim (Bool-cases (cut b'_' (c ∷ r)).found) [
        | inl e ↦ simp (e, append_assoc) refl
        | inr e ↦ simp (e, append_assoc) refl
      ])

-- `normalizeInputHeaderName` ends for every range, and gives its bytes with a dash for each
-- underscore.
pub normalize-dash : (r : Range) → normalize_input_header_name r ≡ some (map dash r)
unfolding normalize_input_header_name
normalize-dash r = dash_loop_lem (suc (length r)) r [] (omega arith)
