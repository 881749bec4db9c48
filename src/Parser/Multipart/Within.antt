-- ===== src/Parser/Multipart/Within.antt =====
-- Windows on the storage of a body, and what the operations of buffers make of them.
use fastcgi_container.Base.{
  refl, ◌∙◌, take-append-drop, sym, take, ◌-◌, drop, ltb, ◌^◌, [], ℕ, ◌+◌, ◌≤◌, ◌<◌, ◌≡◌, ap, inl,
  inr, Bool, false, Option, some, ◌++◌, arith, ◌==◌, Bool-cases, length, length-append, length-take,
  length-drop, Bytes,
}
use fastcgi_container.Range.{Split, do_split}
use fastcgi_container.Range
use fastcgi_container.DataBuffer.{view, DataBuffer, size, to_string}
use fastcgi_container.DataBuffer.Search.{trimn, empty, split, Cut, trim_buffer, starts_with_by}
use fastcgi_container.DataBuffer.Shows.{nothing-Shows, to_string-Shows, Shows, size-Shows}
use fastcgi_container.DataBuffer.Cuts.{IsOrdered, split-Shows}
use fastcgi_container.DataBuffer.Affixes.{trimn-Shows, agree, starts_with-Shows, trim-Shows}
use fastcgi_container.Parser.Multipart.{
  Parsed, done, malformed, out_of_range, endless, ◌>>=◌, checked,
}

-- A call returns what has the property, or throws `malformed`.
abbrev pub Ensures {ℓ} : {A : Type ℓ} → (A → Type 0) → Parsed A → Type 0
Ensures P (done a) = P a
Ensures P malformed = Unit
Ensures P out_of_range = ⊥
Ensures P endless = ⊥

pub bind-Ensures {ℓ κ} :
    {A : Type ℓ} {B : Type κ} (P : A → Type 0) (Q : B → Type 0) (m : Parsed A) (f : A → Parsed B)
    → Ensures P m
    → ((a : A) → P a → Ensures Q (f a))
    → Ensures Q (m >>= f)
bind-Ensures P Q (done a) f h k = k a h
bind-Ensures P Q malformed f h k = tt
bind-Ensures P Q out_of_range f h k = elim h [ ]
bind-Ensures P Q endless f h k = elim h [ ]

pub checked-Ensures {ℓ} :
    {A : Type ℓ} (P : A → Type 0) (o : Option A) (a : A) → o ≡ some a → P a → Ensures P (checked o)
checked-Ensures P o a e h = rw e h

-- `b` is a window on the storage.
pub record Within (st : Bytes) (b : DataBuffer) : Type 0 where
  pub bytes : Bytes
  pub shown : Shows st b bytes

-- Any two positions in order are the ends of a window.
pub window-Within :
    {st : Bytes} (begin end : ℕ)
    → begin ≤ end
    → end ≤ length st
    → Within st (record { storage = st; begin = begin; end = end })
window-Within {st} begin end h k =
    let rest = drop begin st in
    let m = end - begin in
    let t = length-take begin st in
    record {
      bytes = take m rest;
      shown = record {
        before = take begin st;
        after = drop m rest;
        same = refl;
        stored =
            sym
              (ap (λ v. take begin st ++ v) (take-append-drop m rest) ∙ take-append-drop begin st);
        begins = omega (arith, t);
        ends = omega (arith, t, length-take m rest, length-drop begin st);
      };
    }

module _ {st : Bytes} {b : DataBuffer} (v : Within st b) where
  pub Within-bounds : (b.begin ≤ b.end) × (b.end ≤ length st) × (b.storage ≡ st)
  Within-bounds =
      let s = v.shown in
      let e = ap (length {A = ℕ}) s.stored in
      let n = length-append s.before (v.bytes ++ s.after) in
      let m = length-append v.bytes s.after in
      (omega (arith, s.begins, s.ends), omega (arith, s.ends, e, n, m), s.same)

  -- What a cut at a text that is not empty may give.
  pub record IsCut (c : Cut) : Type 0 where
    pub first : Within st c.first
    pub second : Within st c.second
    pub ordered : IsOrdered b c
    pub smaller : empty b ≡ false → size c.second < size b
    pub within_first : size c.first ≤ size b

  split_sizes :
      (w delim : Bytes)
      → 0 < length delim
      → (length (Range.split w delim).first ≤ length w)
        × (0 < length w → length (Range.split w delim).second < length w)
  unfolding Range.split
  split_sizes w delim d =
      let i = Range.find w delim in
      elim (Bool-cases (i == length w)) [
        | inl e ↦ rw e (omega (arith, length-take i w), λ p. p)
        | inr e ↦
            rw e
              (omega (arith, length-take i w), λ p. omega (arith, length-drop (i + length delim) w))
      ]

  pub split-IsCut : (delim : Bytes) → 0 < length delim → Ensures IsCut (checked (split delim b))
  split-IsCut delim d =
      let (c, e, h, o) = split-Shows delim v.shown d in
      let n = split_sizes v.bytes delim d in
      checked-Ensures IsCut (split delim b) c e (record {
        first = record { bytes = _; shown = h.first };
        second = record { bytes = _; shown = h.second };
        ordered = o;
        smaller = λ k.
            let positive : 0 < length v.bytes = ground (arith, v.shown.begins, v.shown.ends) in
            omega (arith, size-Shows h.second, size-Shows v.shown, n.1 positive);
        within_first = omega (arith, size-Shows h.first, size-Shows v.shown, n.0);
      })

  pub starts_with-Ensures :
      (key : ℕ → ℕ) (p : Bytes)
      → Ensures (λ (r : Bool). Unit {0}) (checked (starts_with_by key p b))
  starts_with-Ensures key p =
      checked-Ensures (λ (r : Bool). Unit {0}) _ (agree key p v.bytes)
        (starts_with-Shows v.shown key p) tt

  pub trim_buffer-Within : Within st (trim_buffer b)
  trim_buffer-Within = record { bytes = Range.trim v.bytes; shown = trim-Shows v.shown }

  -- The counts that `parseLine` and `parseMultipart` use.
  pub trimn-Within :
      (front back : ℕ)
      → length st < 2 ^ 64
      → (empty b ≡ false → back ≤ b.end)
      → Within st (trimn front back b)
  unfolding trimn
  trimn-Within front back h k = elim (Bool-cases (empty b)) [
    | inl e ↦ rw e v
    | inr e ↦
        let n = Within-bounds in
        record {
          bytes = Range.trimn front back v.bytes;
          shown = trimn-Shows v.shown front back (omega (arith, n)) (k e);
        }
  ]

  pub view-Within :
      (begin end : ℕ)
      → begin ≤ end
      → end ≤ length st
      → Ensures (λ l. Within st l × (l.begin ≡ begin)) (checked (view b begin end))
  unfolding view
  view-Within begin end h k =
      let e = Within-bounds.2 in
      let fits : ltb (length st) end ≡ false = ground arith in
      rw (e, fits) (window-Within begin end h k, refl)

-- The text of the buffer can be read.
abbrev pub Readable : DataBuffer → Type 0
Readable b = (t : Bytes) × (to_string b ≡ some t)

pub Within-Readable : {st : Bytes} {b : DataBuffer} → Within st b → Readable b
Within-Readable v = (v.bytes, to_string-Shows v.shown)

pub to_string-Ensures :
    (b : DataBuffer) → Readable b → Ensures (λ (t : Bytes). Unit {0}) (checked (to_string b))
to_string-Ensures b (t, e) = checked-Ensures (λ (t : Bytes). Unit {0}) (to_string b) t e tt

pub nothing-Within : (st : Bytes) → Within st (record { storage = st; begin = 0; end = 0 })
nothing-Within st = record { bytes = []; shown = nothing-Shows st }
