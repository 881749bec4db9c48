-- ===== src/Parser/Multipart/Parts.antt =====
-- The headers of a part of a multipart body, and the line breaks around the part.
use fastcgi_container.Base.{
  ℕ, zero, suc, ◌-◌, ◌^◌, ◌≤◌, ◌<◌, ◌≡◌, refl, inl, inr, Bool, true, false, not, ◌&&◌, [], arith,
  ltb, if◌then◌else◌, Bool-cases, length, Bytes, codes,
}
use mathlib.Core.List.{reverse}
use fastcgi_container.DataBuffer.{DataBuffer, size, create, to_string, segments}
use fastcgi_container.DataBuffer.Holds.{size_ordered}
use fastcgi_container.DataBuffer.Search.{empty, Cut, ends_with_by}
use fastcgi_container.DataBuffer.Affixes.{ends_with-Shows, agree}
use fastcgi_container.Parser.Multipart.{
  Parsed, checked, Names, no_names, parse_headers, drop_end, drop_start, trim_part,
}
use fastcgi_container.Parser.Multipart.Within.{
  Ensures, bind-Ensures, checked-Ensures, Within, Within-bounds, starts_with-Ensures, trimn-Within,
}
use fastcgi_container.Parser.Multipart.Settled.{
  Any, AreReadable, Ensures-if, parse_line-Ensures, IsHeader, header_line-Ensures,
}

module _ (st : Bytes) (small : length st < 2 ^ 64) where
  positive : (b : DataBuffer) → Within st b → empty b ≡ false → 0 < size b
  unfolding size
  positive b v e = ground (arith, Within-bounds v)

  -- Each header that is taken leaves fewer bytes.
  pub parse_headers-Ensures :
      (fuel : ℕ) (part headers : DataBuffer) (n : Names)
      → Within st part
      → Within st headers
      → AreReadable n
      → size headers < fuel
      → Ensures AreReadable (parse_headers fuel part headers n)
  unfolding parse_headers
  parse_headers-Ensures zero part headers n p v r l = absurd (omega arith)
  parse_headers-Ensures (suc fuel) part headers n p v r l = elim (Bool-cases (empty headers)) [
    | inl e ↦ rw (e, parse_headers) r
    | inr e ↦
        let some_bytes = positive headers v e in
        rw (e, parse_headers)
          (bind-Ensures (IsHeader st small (size headers - 1)) AreReadable _ _
            (header_line-Ensures st small (size headers) (size headers - 1) part headers p v e
              (omega arith) (omega (arith, some_bytes)))
            λ m h.
              bind-Ensures AreReadable AreReadable _ _
                (parse_line-Ensures st small (suc (size m.0)) m.0 n h.header r (omega arith))
                λ n' r'.
                  parse_headers-Ensures fuel part m.1 n' p h.rest r'
                    (omega (arith, h.fewer, some_bytes)))
  ]

  -- A part with no name yet.
  pub no_names-AreReadable : AreReadable no_names
  unfolding create to_string segments
  no_names-AreReadable = (([], refl), ([], refl), ([], refl))

  -- What ends with a text is at least as long.
  ends_with-Ensures :
      {b : DataBuffer}
      → Within st b
      → (key : ℕ → ℕ) (q : Bytes)
      → Ensures (λ t. t ≡ true → length q ≤ size b) (checked (ends_with_by key q b))
  unfolding ends_with_by
  ends_with-Ensures {b} v key q = elim (Bool-cases (ltb (size b) (length q))) [
    | inl e ↦ rw e (λ p. ground (arith, p))
    | inr e ↦
        checked-Ensures _ _ (agree key (reverse q) (reverse v.bytes))
          (ends_with-Shows v.shown key q) (λ p. ground arith)
  ]

  -- What a test ensures helps the branch behind it.
  whichever :
      {A : Type 0} (P : A → Type 0) (t : Bool) (x y : Parsed A)
      → (t ≡ true → Ensures P x)
      → Ensures P y
      → Ensures P (if t then x else y)
  whichever P true x y h k = h refl
  whichever P false x y h k = k

  drop_end-Ensures : (b : DataBuffer) → Within st b → Ensures (Within st) (drop_end b)
  drop_end-Ensures b v =
      let n = Within-bounds v in
      let m = size_ordered b n.0 in
      bind-Ensures (λ t. t ≡ true → 2 ≤ size b) (Within st) _ _
        (ends_with-Ensures v (λ c. c) (codes "\r\n"))
        λ a h.
          whichever (Within st) a _ _ (λ t. trimn-Within v 0 2 small (λ _. omega (arith, h t, m)))
            (bind-Ensures (λ t. t ≡ true → 1 ≤ size b) (Within st) _ _
              (ends_with-Ensures v (λ c. c) (codes "\n"))
              λ c k.
                whichever (Within st) c _ _
                  (λ t. trimn-Within v 0 1 small (λ _. omega (arith, k t, m))) tt)

  drop_start-Ensures : (b : DataBuffer) → Within st b → Ensures (Within st) (drop_start b)
  drop_start-Ensures b v =
      bind-Ensures Any (Within st) _ _ (starts_with-Ensures v (λ c. c) (codes "\r\n")) λ a _.
        Ensures-if st small (Within st) a _ _ (trimn-Within v 2 0 small (λ _. omega arith)) (
          bind-Ensures Any (Within st) _ _ (starts_with-Ensures v (λ c. c) (codes "\n")) λ c _.
            Ensures-if st small (Within st) c _ _ (trimn-Within v 1 0 small (λ _. omega arith)) tt)

  pub trim_part-Ensures : (cut : Cut) → Within st cut.first → Ensures (Within st) (trim_part cut)
  trim_part-Ensures cut v =
      Ensures-if st small (Within st) (cut.found && not (empty cut.first)) _ _
        (bind-Ensures (Within st) (Within st) _ _ (drop_end-Ensures cut.first v) drop_start-Ensures)
        v
