-- ===== src/DataBuffer/Shows.antt =====
-- Windows on a storage, the bytes that they show, and the texts that are read from them.
use fastcgi_container.Base.{
  ℕ, ◌+◌, ◌-◌, ◌≡◌, refl, ap, ◌∙◌, inl, inr, true, some, [], ◌++◌, append-nil, append_assoc, arith,
  leb, ◌==◌, Bool-cases, length, length-append, take-append, drop_front, Bytes,
}
use fastcgi_container.DataBuffer.{
  DataBuffer, size, contents, chunks, is_inside, segments, appended, to_string,
}
use fastcgi_container.DataBuffer.Holds.{nil_of_length}
use fastcgi_container.DataBuffer.Search.{between_of}

-- The window of `b` on the storage `st` holds `w`.
pub record Shows (st : Bytes) (b : DataBuffer) (w : Bytes) : Type 0 where
  pub before : Bytes
  pub after : Bytes
  pub same : b.storage ≡ st
  pub stored : st ≡ before ++ (w ++ after)
  pub begins : b.begin ≡ length before
  pub ends : b.end ≡ length before + length w

module _ {st : Bytes} {b : DataBuffer} {w : Bytes} (s : Shows st b w) where
  pub size-Shows : size b ≡ length w
  unfolding size
  size-Shows = ground (arith, s.begins, s.ends)

  pub window : between_of b.storage b.begin b.end ≡ w
  window =
      let e : b.end - b.begin ≡ length w = omega (arith, s.begins, s.ends) in
      rw (e, s.same, s.stored, drop_front b.begin s.before (w ++ s.after) s.begins)
        (take-append w s.after)

  pub contents-Shows : contents b ≡ w
  unfolding contents
  contents-Shows = window

  appended-chunks : appended (chunks b) ≡ w
  unfolding chunks
  appended-chunks = elim (Bool-cases (b.begin == b.end)) [
    | inl e ↦
        let gap : length w ≡ 0 = ground (arith, s.begins, s.ends) in
        rw (e, nil_of_length w (omega (arith, gap))) refl
    | inr e ↦ rw (e, contents-Shows) (append-nil w)
  ]

  pub inside-Shows : is_inside b ≡ true
  inside-Shows =
      let n = length-append s.before (w ++ s.after) in
      let m = length-append w s.after in
      let e = ap (length {A = ℕ}) (s.same ∙ s.stored) in
      let low : leb b.begin b.end ≡ true = ground (arith, s.begins, s.ends) in
      let high : leb b.end (length b.storage) ≡ true = ground (arith, s.begins, s.ends, n, m, e) in
      rw (low, high) refl

  -- Nothing of a window lies outside of the storage.
  pub segments-Shows : segments b ≡ some (chunks b)
  unfolding segments
  segments-Shows = ground (arith, inside-Shows)

  pub to_string-Shows : to_string b ≡ some w
  unfolding to_string
  to_string-Shows = rw (segments-Shows, to_string) (ap some appended-chunks)

  -- The part of the window behind its first bytes, and that in front.
  pub back-Shows : (x y : Bytes) → w ≡ x ++ y → Shows st (record b { begin = b.begin + length x }) y
  back-Shows x y e = record {
    before = s.before ++ x;
    after = s.after;
    same = s.same;
    stored = s.stored ∙ ap (λ v. s.before ++ (v ++ s.after)) e ∙ simp append_assoc refl;
    begins = omega (arith, s.begins, length-append s.before x);
    ends =
        omega (arith, s.ends, length-append s.before x, length-append x y, ap (length {A = ℕ}) e);
  }

  pub front-Shows : (x y : Bytes) → w ≡ x ++ y → Shows st (record b { end = b.begin + length x }) x
  front-Shows x y e = record {
    before = s.before;
    after = y ++ s.after;
    same = s.same;
    stored = s.stored ∙ ap (λ v. s.before ++ (v ++ s.after)) e ∙ simp append_assoc refl;
    begins = s.begins;
    ends = omega (arith, s.begins);
  }

-- The same window, written otherwise.
pub moved :
    {st : Bytes} {b : DataBuffer} {w : Bytes} (begin end : ℕ)
    → Shows st b w
    → begin ≡ b.begin
    → end ≡ b.end
    → Shows st (record { storage = b.storage; begin = begin; end = end }) w
moved begin end s h k = record {
  before = s.before;
  after = s.after;
  same = s.same;
  stored = s.stored;
  begins = omega (arith, s.begins, h);
  ends = omega (arith, s.ends, k);
}

-- Any window at the start with no bytes shows none.
pub nothing-Shows : (st : Bytes) → Shows st (record { storage = st; begin = 0; end = 0 }) []
nothing-Shows st = record {
  before = [];
  after = st;
  same = refl;
  stored = refl;
  begins = refl;
  ends = refl;
}
