-- ===== src/Request/Reads.antt =====
-- What the functions of `Restore` read from a stored form.
use mathlib.Core.List.{map}
use mathlib.Core.List.{map}
use fastcgi_container.Base.{
  ℕ, zero, suc, ◌+◌, ◌-◌, ◌%◌, ◌^◌, ◌≤◌, ◌<◌, ◌≡◌, refl, sym, ap, ◌∙◌, Bool, true, false, List, [],
  ◌∷◌, ◌++◌, append-nil, append_assoc, arith, ltb, if◌then◌else◌, length, length-append, replicate,
  Bytes, le_value, le_value-le_bytes,
}
use fastcgi_container.DataBuffer.{DataBuffer, size, read}
use fastcgi_container.Map.{insert_by, entry}
use fastcgi_container.Map.Order.{IsOrdered, insert_last, IsLast-head}
use fastcgi_container.DataBuffer.Holds.{Holds, size-Holds, read-Holds}
use fastcgi_container.Map.{entry, insert_by}
use fastcgi_container.Map.Order.{IsOrdered, insert_last, IsLast-head}
use fastcgi_container.Request.Restore.{
  parse_group, ParseError, push_arg, restored_value, length_error, field_loop, Outcome, ok, err,
  ParseError, Read, parse_int, parse_string, parse_pair, field_loop, parse_group, push_arg,
  restored_value,
}
use fastcgi_container.Request.Writes.{int_bytes, length-int_bytes, string_bytes, pair_bytes, flat}
use fastcgi_container.Url.{NamedValue}

-- A part that was read joins what lies before the position.
pub advance :
    {b : DataBuffer} {pre done post : Bytes} (x rest : Bytes)
    → Holds b pre done (x ++ rest) post
    → Holds b pre (done ++ x) rest post
advance {pre = pre} {done = done} {post = post} x rest h = record {
  stored = h.stored ∙ simp append_assoc;
  begins = h.begins;
  ends = omega (arith, h.ends, length-append x rest, length-append done x);
}

-- The same position, divided otherwise.
pub regroup :
    {b : DataBuffer} {pre done post : Bytes} (x y rest : Bytes)
    → Holds b pre done ((x ++ y) ++ rest) post
    → Holds b pre done (x ++ (y ++ rest)) post
regroup x y rest h = rw append_assoc at h

int_value : (v : ℕ) → v < 2 ^ 64 → le_value (int_bytes v) ≡ v
unfolding int_bytes
int_value v small = le_value-le_bytes v small

pub parse_int-Holds :
    {b : DataBuffer} {pre done post : Bytes} (v : ℕ) (rest : Bytes)
    → v < 2 ^ 64
    → Holds b pre done (int_bytes v ++ rest) post
    → parse_int b (length done) ≡ (length (done ++ int_bytes v), v)
unfolding parse_int
parse_int-Holds {b} {done = done} v rest small h =
    let got : read b (length done) 8 ≡ int_bytes v =
      ap (read b (length done)) (sym (length-int_bytes v)) ∙ read-Holds (int_bytes v) rest h in
    rw (got, length-append done (int_bytes v))
      (ap (λ k. (length done + length (int_bytes v), k)) (int_value v small))

-- The test of the length, and the end of the string.
string_read :
    (max_string : ℕ) (p : ℕ) (s : Bytes)
    → length s ≤ max_string
    → ◌≡◌ {A = Outcome (Read Bytes)}
        (if ltb max_string (length s)
          then err length_error
          else ok (record { pos = p + length s; value = s ++ replicate (length s - length s) 0 }))
        (ok (record { pos = p + length s; value = s }))
string_read max_string p s fits =
    let gap : length s - length s ≡ 0 = omega arith in
    let test : ltb max_string (length s) ≡ false = ground arith in rw (test, gap, append-nil s) refl

module _ (max_string : ℕ) where
  pub parse_string-Holds :
      {b : DataBuffer} {pre done post : Bytes} (s rest : Bytes)
      → length s < 2 ^ 64
      → length s ≤ max_string
      → Holds b pre done (string_bytes s ++ rest) post
      → parse_string max_string b (length done)
        ≡ ok (record { pos = length (done ++ string_bytes s); value = s })
  unfolding parse_string string_bytes
  parse_string-Holds {b} {done = done} s rest small fits h =
      let h1 = regroup (int_bytes (length s)) s rest h in
      let h2 = advance (int_bytes (length s)) (s ++ rest) h1 in
      rw
        (
          parse_int-Holds (length s) (s ++ rest) small h1,
          read-Holds s rest h2,
          ← append_assoc done (int_bytes (length s)) s,
          length-append (done ++ int_bytes (length s)) s,
        )
        (string_read max_string (length (done ++ int_bytes (length s))) s fits)

  -- A string that a length in eight bytes and a `std::string` can hold.
  abbrev pub Fits : Bytes → Type 0
  Fits s = (length s < 2 ^ 64) × (length s ≤ max_string)

  abbrev pub FitsPair : NamedValue → Type 0
  FitsPair e = Fits e.name × Fits e.value

-- `item` reads a part `x` of the buffer to the value `a`.
pub record Reads {A : Type 0} (item : DataBuffer → ℕ → Outcome (Read A)) (x : Bytes) (a : A)
    : Type 0 where
  pub reads :
      (b : DataBuffer) (pre done rest post : Bytes)
      → Holds b pre done (x ++ rest) post
      → item b (length done) ≡ ok (record { pos = length (done ++ x); value = a })

pub parse_pair-Reads :
    (max_string : ℕ) (e : NamedValue)
    → FitsPair max_string e
    → Reads (parse_pair max_string) (pair_bytes e) e
unfolding parse_pair pair_bytes
parse_pair-Reads max_string e fits = record {
  reads = λ b pre done rest post h.
      let n = string_bytes e.name in
      let v = string_bytes e.value in
      let h1 = regroup n v rest h in
      let h2 = advance n (v ++ rest) h1 in
      rw
        (
          parse_string-Holds max_string e.name (v ++ rest) fits.0.0 fits.0.1 h1,
          parse_string-Holds max_string e.value rest fits.1.0 fits.1.1 h2,
          append_assoc done n v,
        )
        refl;
}

-- What a loop makes of the entries.
abbrev pub add_all : {A S : Type 0} → (A → S → S) → S → List A → S
add_all add s [] = s
add_all add s (a ∷ xs) = add_all add (add a s) xs

-- Entries `xs` whose parts `enc` are read to the values `val`.
module _ {X A S : Type 0} (item : DataBuffer → ℕ → Outcome (Read A)) (add : A → S → S)
    (enc : X → Bytes) (val : X → A) where
  abbrev pub ReadsAll : List X → Type 0
  ReadsAll [] = Unit
  ReadsAll (x ∷ xs) = Reads item (enc x) (val x) × (0 < length (enc x)) × ReadsAll xs

  pub field_loop-Holds :
      (xs : List X) (fuel : ℕ) (b : DataBuffer) (pre done rest post : Bytes) (s : S)
      → ReadsAll xs
      → length (flat enc xs) < fuel
      → Holds b pre done (flat enc xs ++ rest) post
      → field_loop item add fuel b (length done) (length done + length (flat enc xs)) s
        ≡ ok (record { pos = length (done ++ flat enc xs); value = add_all add s (map val xs) })
  unfolding field_loop
  field_loop-Holds xs zero b pre done rest post s r f h = elim f [ ]
  field_loop-Holds [] (suc fuel) b pre done rest post s r f h =
      let stop : ltb (length done) (length done + 0) ≡ false = ground arith in
      rw (stop, append-nil done) refl
  field_loop-Holds (x ∷ xs) (suc fuel) b pre done rest post s r f h =
      let h1 = regroup (enc x) (flat enc xs) rest h in
      let h2 = advance (enc x) (flat enc xs ++ rest) h1 in
      let len = length-append (enc x) (flat enc xs) in
      let more : ltb (length done) (length done + length (enc x ++ flat enc xs)) ≡ true =
        ground (arith, len) in
      let end : length done + length (enc x ++ flat enc xs)
          ≡ length (done ++ enc x) + length (flat enc xs) =
        omega (arith, len, length-append done (enc x)) in
      rw (more, r.0.reads b pre done (flat enc xs ++ rest) post h1, end)
        (field_loop-Holds xs fuel b pre (done ++ enc x) rest post (add (val x) s) r.2
            (omega (arith, len)) h2
          ∙ rw (append_assoc done (enc x) (flat enc xs)) refl)

  -- A group: the size in front, and the entries.
  pub parse_group-Holds :
      (bad : ParseError) (xs : List X) (b : DataBuffer) (pre done rest post : Bytes) (s : S) (n : ℕ)
      → ReadsAll xs
      → n ≡ length (flat enc xs)
      → b.end < 2 ^ 64
      → Holds b pre done ((int_bytes n ++ flat enc xs) ++ rest) post
      → parse_group item add bad b (length done) s
        ≡ ok (record {
          pos = length (done ++ (int_bytes n ++ flat enc xs));
          value = add_all add s (map val xs);
        })
  unfolding parse_group
  parse_group-Holds bad xs b pre done rest post s n r e small h =
      let body = flat enc xs in
      let h1 = regroup (int_bytes n) body rest h in
      let h2 = advance (int_bytes n) (body ++ rest) h1 in
      let p = length (done ++ int_bytes n) in
      let len = length-append body rest in
      let wrap : (p + n) % 2 ^ 64 ≡ p + length body = omega (arith, e, h2.ends, len) in
      let room = size-Holds (body ++ rest) h2 in
      let fits : ltb (size b) (p + length body) ≡ false = ground (arith, room, len) in
      rw (parse_int-Holds n (body ++ rest) (omega (arith, e, h2.ends, len)) h1, wrap, fits)
        (field_loop-Holds xs (suc (size b)) b pre (done ++ int_bytes n) rest post s r
            (omega (arith, room, len)) h2
          ∙ rw (append_assoc done (int_bytes n) body) refl)

-- Entries in order are inserted one behind the other.
pub add_all-insert :
    {A : Type 0} (less : Bytes → Bytes → Bool) (key : A → Bytes) (m xs : List A)
    → IsOrdered less key (m ++ xs)
    → add_all (insert_by less key) m xs ≡ m ++ xs
add_all-insert less key m [] h = sym (append-nil m)
add_all-insert less key m (x ∷ xs) h =
    rw (insert_last less key x m (IsLast-head less key m x xs h)) (
      add_all-insert less key (m ++ x ∷ []) xs (rw (append_assoc m (x ∷ []) xs) h)
      ∙ append_assoc m (x ∷ []) xs)

pub restored_arg : NamedValue → NamedValue
restored_arg e = entry e.name (restored_value e.value)

pub add_all-push_arg : (v xs : List NamedValue) → add_all push_arg v xs ≡ v ++ map restored_arg xs
unfolding push_arg restored_arg
add_all-push_arg v [] = sym (append-nil v)
add_all-push_arg v (x ∷ xs) =
    add_all-push_arg (v ++ restored_arg x ∷ []) xs
    ∙ append_assoc v (restored_arg x ∷ []) (map restored_arg xs)

pub map_self {ℓ} : {A : Type ℓ} (xs : List A) → map (λ x. x) xs ≡ xs
map_self [] = refl
map_self (x ∷ xs) = ap (◌∷◌ x) (map_self xs)
