-- ===== src/DataBuffer/Affixes.antt =====
-- `startsWith`, `endsWith`, `trim` and `trimn` of a buffer, on the bytes of its window.
use mathlib.Core.List.{reverse, reverse-cons, reverse-reverse}
use Prim.Native.Nat.{max}
use fastcgi_container.Base.{
  ltb→lt, leb→le, ℕ, suc, ◌+◌, ◌-◌, ◌^◌, ◌≤◌, ◌<◌, ◌≡◌, refl, sym, ap, ◌∙◌, inl, inr, Bool, true,
  false, ◌&&◌, some, [], ◌∷◌, ◌++◌, append-nil, append_assoc, arith, ltb, leb, ◌==◌, Bool-cases,
  length, take, drop, length-append, length-take, length-drop, take-append-drop, drop_front, Bytes,
  sub64, sub64_le,
}
use fastcgi_container.Range.{skip_space}
use fastcgi_container.Range
use fastcgi_container.Range.Trim.{lead, lead-skip_space, trim-append}
use fastcgi_container.DataBuffer.{DataBuffer, size}
use fastcgi_container.DataBuffer.Holds.{nil_of_length}
use fastcgi_container.DataBuffer.Search.{
  empty, check_index, at, trim_buffer, trimn, starts_from, starts_with_by, ends_from, ends_with_by,
}
use fastcgi_container.DataBuffer.Shows.{Shows, size-Shows, window, back-Shows, front-Shows, moved}

-- Whether a text starts with another, by the keys of the bytes.
abbrev pub agree : (ℕ → ℕ) → Bytes → Bytes → Bool
agree key [] y = true
agree key (c ∷ p) [] = false
agree key (c ∷ p) (d ∷ y) = key c == key d && agree key p y

agree_long : (key : ℕ → ℕ) (p y : Bytes) → length y < length p → agree key p y ≡ false
agree_long key [] y h = absurd (omega arith)
agree_long key (c ∷ p) [] h = refl
agree_long key (c ∷ p) (d ∷ y) h = ground (arith, agree_long key p y)

length-reverse : (w : Bytes) → length (reverse w) ≡ length w
length-reverse [] = refl
length-reverse (c ∷ w) =
    ap length (reverse-cons c w)
    ∙ omega (arith, length-append (reverse w) (c ∷ []), length-reverse w)

module _ {st : Bytes} {b : DataBuffer} {w : Bytes} (s : Shows st b w) where
  at-Shows :
      (x : Bytes) (c : ℕ) (y : Bytes) (i : ℕ) → w ≡ x ++ c ∷ y → i ≡ length x → at i b ≡ some c
  unfolding at
  at-Shows x c y i e h =
      let n : length w ≡ length x + suc (length y) =
        omega (arith, ap (length {A = ℕ}) e, length-append x (c ∷ y)) in
      let inside : check_index (b.begin + i) b ≡ true = ground (arith, s.begins, s.ends) in
      let whole : b.storage ≡ (s.before ++ x) ++ (c ∷ y ++ s.after) =
        s.same ∙ s.stored ∙ ap (λ v. s.before ++ (v ++ s.after)) e ∙ simp append_assoc refl in
      let at_x : b.begin + i ≡ length (s.before ++ x) =
        omega (arith, s.begins, length-append s.before x) in
      rw (inside, whole, drop_front (b.begin + i) (s.before ++ x) (c ∷ y ++ s.after) at_x) refl

  starts_from-Shows :
      (key : ℕ → ℕ) (p x y : Bytes) (i : ℕ)
      → w ≡ x ++ y
      → i ≡ length x
      → length p ≤ length y
      → starts_from key p i b ≡ some (agree key p y)
  unfolding starts_from
  starts_from-Shows key [] x y i e h l = refl
  starts_from-Shows key (c ∷ p) x [] i e h l = absurd (omega arith)
  starts_from-Shows key (c ∷ p) x (d ∷ y) i e h l = elim (Bool-cases (key c == key d)) [
    | inl k ↦
        rw (at-Shows x d y i e h, starts_from, k)
          (starts_from-Shows key p (x ++ d ∷ []) y (i + 1) (e ∙ sym (append_assoc x (d ∷ []) y))
            (omega (arith, length-append x (d ∷ []))) (omega arith))
    | inr k ↦ rw (at-Shows x d y i e h, starts_from, k) refl
  ]

  pub starts_with-Shows : (key : ℕ → ℕ) (p : Bytes) → starts_with_by key p b ≡ some (agree key p w)
  unfolding starts_with_by
  starts_with-Shows key p = elim (Bool-cases (ltb (length w) (length p))) [
    | inl e ↦ rw (size-Shows s, e, agree_long key p w (ltb→lt _ _ e)) refl
    | inr e ↦ rw (size-Shows s, e) (starts_from-Shows key p [] w 0 refl refl (ground arith))
  ]

  ends_from-Shows :
      (key : ℕ → ℕ) (q ry z : Bytes) (i : ℕ)
      → w ≡ reverse ry ++ z
      → i ≡ length z + 1
      → length q ≤ length ry
      → ends_from key q i b ≡ some (agree key q ry)
  unfolding ends_from
  ends_from-Shows key [] ry z i e h l = refl
  ends_from-Shows key (c ∷ q) [] z i e h l = absurd (omega arith)
  ends_from-Shows key (c ∷ q) (d ∷ ry) z i e h l =
      let e' : w ≡ reverse ry ++ d ∷ z =
        e ∙ ap (λ v. v ++ z) (reverse-cons d ry) ∙ append_assoc (reverse ry) (d ∷ []) z in
      let n : size b - i ≡ length (reverse ry) =
        omega (arith, size-Shows s, ap (length {A = ℕ}) e', length-append (reverse ry) (d ∷ z)) in
      elim (Bool-cases (key c == key d)) [
        | inl k ↦
            rw (at-Shows (reverse ry) d z (size b - i) e' n, ends_from, k)
              (ends_from-Shows key q ry (d ∷ z) (i + 1) e' (omega arith) (omega arith))
        | inr k ↦ rw (at-Shows (reverse ry) d z (size b - i) e' n, ends_from, k) refl
      ]

  pub ends_with-Shows :
      (key : ℕ → ℕ) (q : Bytes) → ends_with_by key q b ≡ some (agree key (reverse q) (reverse w))
  unfolding ends_with_by
  ends_with-Shows key q = elim (Bool-cases (ltb (length w) (length q))) [
    | inl e ↦
        let longer : length (reverse w) < length (reverse q) =
          omega (arith, length-reverse w, length-reverse q, ltb→lt _ _ e) in
        rw (size-Shows s, e, agree_long key (reverse q) (reverse w) longer) refl
    | inr e ↦
        rw (size-Shows s, e)
          (ends_from-Shows key (reverse q) (reverse w) [] 1
            (sym (reverse-reverse w) ∙ sym (append-nil (reverse (reverse w)))) (omega arith)
            (ground (arith, length-reverse w, length-reverse q)))
  ]

  -- A window with some bytes left out at its ends.
  inner :
      (x y z : Bytes) (begin end : ℕ)
      → w ≡ x ++ (y ++ z)
      → begin ≡ b.begin + length x
      → end ≡ b.begin + length x + length y
      → Shows st (record { storage = b.storage; begin = begin; end = end }) y
  inner x y z begin end e h k =
      moved begin end (front-Shows (back-Shows s x (y ++ z) e) y z refl) h k

  trimmed :
      Shows st
        (record {
          storage = b.storage;
          begin = b.begin + (length w - length (skip_space w));
          end = b.begin + (length w - length (skip_space w)) + length (Range.trim w);
        })
        (Range.trim w)
  trimmed =
      let n = length-append (lead w) (skip_space w) in
      let e = ap (length {A = ℕ}) (lead-skip_space w) in
      inner (lead w) (Range.trim w) (reverse (lead (reverse (skip_space w)))) _ _
        (sym (lead-skip_space w) ∙ ap (λ v. lead w ++ v) (trim-append w)) (omega (arith, n, e))
        (omega (arith, n, e))

  pub trim-Shows : Shows st (trim_buffer b) (Range.trim w)
  unfolding trim_buffer
  trim-Shows = elim (Bool-cases (empty b)) [
    | inl e ↦
        let nothing : w ≡ [] = nil_of_length w (ground (arith, s.begins, s.ends)) in
        let same : Range.trim w ≡ w = rw nothing (unfold Range.trim in refl) in rw (e, same) s
    | inr e ↦ rw (e, window s) trimmed
  ]

  trimn_rest : (front back : ℕ) → length w ≤ front → Range.trimn front back w ≡ []
  unfolding Range.trimn
  trimn_rest front back h = nil_of_length _ (
      omega (arith, length-take (length (drop front w) - back) (drop front w), length-drop front w))

  cut_ends :
      (front back : ℕ)
      → b.end < 2 ^ 64
      → back ≤ b.end
      → b.begin + front < b.end
      → Shows st
          (record {
            storage = b.storage;
            begin = b.begin + front;
            end = max (sub64 b.end back) (b.begin + front);
          })
          (Range.trimn front back w)
  unfolding Range.trimn
  cut_ends front back h k l =
      let rest = drop front w in
      let m = length rest - back in
      let t = length-take front w in
      let d = length-drop front w in
      let u = length-take m rest in
      inner (take front w) (take m rest) (drop m rest) _ _
        (sym (take-append-drop front w)
          ∙ ap (λ v. take front w ++ v) (sym (take-append-drop m rest)))
        (omega (arith, t, s.begins, s.ends))
        (omega (arith, t, d, u, s.begins, s.ends, sub64_le b.end back h k))

  -- The counts have to be small.
  pub trimn-Shows :
      (front back : ℕ)
      → b.end < 2 ^ 64
      → back ≤ b.end
      → Shows st (trimn front back b) (Range.trimn front back w)
  unfolding trimn
  trimn-Shows front back h k = elim (Bool-cases (empty b)) [
    | inl z ↦
        let none_shown : length w ≡ 0 = ground (arith, s.begins, s.ends) in
        let nothing : w ≡ [] = nil_of_length w (omega (arith, none_shown)) in
        rw (z, trimn_rest front back (omega (arith, none_shown)), ← nothing) s
    | inr z ↦ elim (Bool-cases (leb b.end (b.begin + front))) [
      | inl e ↦
          rw (z, e, trimn_rest front back (omega (arith, leb→le _ _ e, s.begins, s.ends)))
            (inner w [] [] b.end b.end (sym (append-nil w)) (omega (arith, s.begins, s.ends))
              (omega (arith, s.begins, s.ends)))
      | inr e ↦ rw (z, e) (cut_ends front back h k (ground arith))
    ]
  ]
