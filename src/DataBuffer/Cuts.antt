-- ===== src/DataBuffer/Cuts.antt =====
-- `DataBuffer::split`, and `Range::split` on the bytes of the window.
use fastcgi_container.Base.{
  ◌-◌, ◌⊎◌, sym, ltb, ltb→lt, take-append-drop, length-take, take, drop, ℕ, ◌+◌, ◌≤◌, ◌<◌, ◌≡◌,
  refl, sym, ap, inl, inr, true, false, some, [], arith, ltb, ◌==◌, ==_iff, ==_refl, Bool-cases,
  length, take, drop, length-take, take-append-drop, take_all, Bytes,
}
use fastcgi_container.Range.{Split, do_split}
use fastcgi_container.Range
use fastcgi_container.Range.Search.{Fits, find-Fits}
use fastcgi_container.DataBuffer.{size, DataBuffer}
use fastcgi_container.DataBuffer.Search
use fastcgi_container.DataBuffer.Search.{
  empty, check_index, string_find, find, uncut, cut_at, Cut, split,
}
use fastcgi_container.DataBuffer.Shows.{
  Shows, size-Shows, inside-Shows, window, back-Shows, front-Shows, moved, nothing-Shows,
}

-- The pieces of a buffer show those of a range.
pub record CutShows (st : Bytes) (c : Cut) (s : Split) : Type 0 where
  pub first : Shows st c.first s.first
  pub second : Shows st c.second s.second
  pub found : c.found ≡ s.found

-- The second piece lies behind the first, or is empty.
abbrev pub IsOrdered : DataBuffer → Cut → Type 0
IsOrdered b c =
    (c.first.begin ≡ b.begin) × ((c.first.end ≤ c.second.begin) ⊎ (c.second.begin ≡ c.second.end))

cut_at-IsOrdered : (delim : Bytes) (b : DataBuffer) (i : ℕ) → IsOrdered b (cut_at delim b i)
cut_at-IsOrdered delim b i = elim (Bool-cases (i == size b)) [
  | inl e ↦ rw e (refl, inr refl)
  | inr e ↦ rw e (refl, inl (omega arith))
]

uncut-CutShows :
    {st : Bytes} {b : DataBuffer} {w : Bytes}
    → Shows st b w
    → CutShows st (uncut b) (record { first = w; second = []; found = false })
uncut-CutShows {st} s = record { first = s; second = rw s.same (nothing-Shows st); found = refl }

cut_at-CutShows :
    {st : Bytes} {b : DataBuffer} {w : Bytes} (delim : Bytes) (i : ℕ)
    → Shows st b w
    → Fits i w delim
    → 0 < length delim
    → CutShows st (cut_at delim b i) (do_split w i (length delim))
cut_at-CutShows {st} {b} {w} delim i s f d = elim (Bool-cases (i == length w)) [
  | inl e ↦
      let n : i ≡ length w = (==_iff i (length w)).0 e in
      rw (e, size-Shows s, e, take_all i w (omega arith)) (uncut-CutShows s)
  | inr e ↦
      let k = i + length delim in
      let fits : k ≤ length w = ground arith in
      rw (size-Shows s, e)
        (record {
          first =
              moved b.begin (b.begin + i)
                (front-Shows s (take i w) (drop i w) (sym (take-append-drop i w))) refl
                (omega (arith, length-take i w));
          second =
              moved (b.begin + i + length delim) b.end
                (back-Shows s (take k w) (drop k w) (sym (take-append-drop k w)))
                (omega (arith, length-take k w)) refl;
          found = refl;
        })
]

-- Where the text is longer than the window, the range has no place for it either.
find_long :
    (w delim : Bytes) → 0 < length delim → length w < length delim → Range.find w delim ≡ length w
find_long w delim d l = ground (arith, find-Fits w delim d)

string_find-Shows :
    {st : Bytes} {b : DataBuffer} {w : Bytes} (delim : Bytes)
    → Shows st b w
    → 0 < length delim
    → string_find b.storage b.begin b.end delim ≡ b.begin + Range.find w delim
unfolding string_find
string_find-Shows {st} {b} {w} delim s d =
    let gap : b.end - b.begin ≡ length w = omega (arith, s.begins, s.ends) in
    elim (Bool-cases (ltb (length w) (length delim))) [
      | inl e ↦ rw (gap, e, find_long w delim d (ltb→lt _ _ e)) (omega (arith, s.begins, s.ends))
      | inr e ↦ rw (window s, gap, e) refl
    ]

find-Shows :
    {st : Bytes} {b : DataBuffer} {w : Bytes} (delim : Bytes)
    → Shows st b w
    → 0 < length delim
    → empty b ≡ false
    → find b.begin delim b ≡ some (Range.find w delim)
unfolding find
find-Shows {st} {b} {w} delim s d e =
    let inside : check_index b.begin b ≡ true = ground (arith, s.begins, s.ends) in
    rw (inside, inside-Shows s, string_find-Shows delim s d) (ap some (omega arith))

-- On a window, `split` throws nothing, and what it gives is what `Range::split` gives for the bytes of
-- the window.
pub split-Shows :
    {st : Bytes} {b : DataBuffer} {w : Bytes} (delim : Bytes)
    → Shows st b w
    → 0 < length delim
    → (c : Cut) × (split delim b ≡ some c) × CutShows st c (Range.split w delim) × IsOrdered b c
unfolding split Range.split
split-Shows {st} {b} {w} delim s d = elim (Bool-cases (empty b)) [
  | inl e ↦
      let none_long : length w ≡ 0 = ground (arith, size-Shows s, s.begins, s.ends) in
      (
        uncut b,
        rw (e, Search.split) refl,
        rw
            (
              find_long w delim d (omega (arith, none_long)),
              ==_refl (length w),
              take_all (length w) w (omega arith),
            )
            (uncut-CutShows s),
        (refl, inr refl),
      )
  | inr e ↦ (
    cut_at delim b (Range.find w delim),
    rw (e, find-Shows delim s d e, Search.split) refl,
    cut_at-CutShows delim (Range.find w delim) s (find-Fits w delim d) d,
    cut_at-IsOrdered delim b (Range.find w delim),
  )
]
