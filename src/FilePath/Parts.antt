-- ===== src/FilePath/Parts.antt =====
-- The parts of a path.
use fastcgi_container.Base.{
  ℕ, suc, ◌-◌, ◌≤◌, ◌≡◌, refl, sym, ap, ◌∙◌, ◌⊎◌, inl, inr, Bool, true, false, [], ◌∷◌, ◌++◌, arith,
  Bool-cases, length, take, Bytes,
}
use fastcgi_container.FilePath.{is_separator, any, behind_last, basename, path_to_file}

behind_last-le : (test : ℕ → Bool) (s : Bytes) → length (behind_last test s) ≤ length s
behind_last-le test [] = omega arith
behind_last-le test (c ∷ r) = ground (arith, behind_last-le test r)

-- What stands in front of the end, and the end.
take-behind_last :
    (test : ℕ → Bool) (s : Bytes)
    → take (length s - length (behind_last test s)) s ++ behind_last test s ≡ s
take-behind_last test [] = refl
take-behind_last test (c ∷ r) = elim (Bool-cases (any test r)) [
  | inl a ↦
      let k = length (behind_last test r) in
      let e : suc (length r) - k ≡ suc (length r - k) = omega (arith, behind_last-le test r) in
      rw (a, e) (ap (◌∷◌ c) (take-behind_last test r))
  | inr a ↦ elim (Bool-cases (test c)) [
    | inl b ↦ let e : suc (length r) - length r ≡ 1 = omega arith in rw (a, b, e) refl
    | inr b ↦ let e : suc (length r) - suc (length r) ≡ 0 = omega arith in rw (a, b, e) refl
  ]
]

-- The bytes of an end of which none passes the test.
any-behind_last : (test : ℕ → Bool) (s : Bytes) → any test (behind_last test s) ≡ false
any-behind_last test [] = refl
any-behind_last test (c ∷ r) = ground (arith, any-behind_last test r)

-- The last byte of a text passes the test.
abbrev pub EndsWith : (ℕ → Bool) → Bytes → Type 0
EndsWith test s = (front : Bytes) × (c : ℕ) × (s ≡ front ++ c ∷ []) × (test c ≡ true)

-- What stands in front of the end is nothing, or ends with a byte that passes the test.
front-EndsWith :
    (test : ℕ → Bool) (s : Bytes)
    → (take (length s - length (behind_last test s)) s ≡ [])
      ⊎ EndsWith test (take (length s - length (behind_last test s)) s)
front-EndsWith test [] = inl refl
front-EndsWith test (c ∷ r) = elim (Bool-cases (any test r)) [
  | inl a ↦
      let k = length (behind_last test r) in
      let e : suc (length r) - k ≡ suc (length r - k) = omega (arith, behind_last-le test r) in
      elim (front-EndsWith test r) [
        | inl n ↦
            let whole : behind_last test r ≡ r =
              ap (λ v. v ++ behind_last test r) (sym n) ∙ take-behind_last test r in
            let quiet : any test r ≡ false = ap (any test) (sym whole) ∙ any-behind_last test r in
            cc
        | inr (front, d, f, t) ↦ rw (a, e) (inr (c ∷ front, d, ap (◌∷◌ c) f, t))
      ]
  | inr a ↦ elim (Bool-cases (test c)) [
    | inl b ↦
        let e : suc (length r) - length r ≡ 1 = omega arith in rw (a, b, e) (inr ([], c, refl, b))
    | inr b ↦ let e : suc (length r) - suc (length r) ≡ 0 = omega arith in rw (a, b, e) (inl refl)
  ]
]

-- A path is its directory and its base name. There is no separator in the base name, and the
-- directory is empty or ends with one.
pub path_to_file-basename :
    (path : Bytes)
    → (path_to_file path ++ basename path ≡ path)
      × (any is_separator (basename path) ≡ false)
      × ((path_to_file path ≡ []) ⊎ EndsWith is_separator (path_to_file path))
unfolding path_to_file basename
path_to_file-basename path = (
  take-behind_last is_separator path,
  any-behind_last is_separator path,
  front-EndsWith is_separator path,
)
