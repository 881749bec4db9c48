-- ===== src/Request/Windows.antt =====
-- The body and the files of a restored request: windows on the buffer that it was read from.
use mathlib.Core.Path.{ap₂}
use fastcgi_container.Base.{
  ℕ, zero, suc, ◌+◌, ◌-◌, ◌%◌, ◌^◌, ◌≤◌, ◌<◌, ◌≡◌, refl, sym, ap, ◌∙◌, ◌≢◌, false, some, List, [],
  ◌∷◌, ◌++◌, append_assoc, arith, ltb, length, take, drop, length-append, Bytes, equal, sub64,
  sub64_le,
}
use fastcgi_container.DataBuffer.{DataBuffer, size, view, contents}
use fastcgi_container.DataBuffer.Holds.{Holds, size-Holds, size_ordered, copied}
use fastcgi_container.Request.State.{File}
use fastcgi_container.Request.Restore.{ok, parse_file, parse_body}
use fastcgi_container.Request.Reads.{
  regroup, advance, parse_int-Holds, parse_string-Holds, Fits, Reads,
}
use fastcgi_container.Request.Stored.{IsWindow, length-contents}
use fastcgi_container.Request.Restore.{parse_file}
use fastcgi_container.Request.Reads.{parse_string-Holds, Fits, Reads}
use fastcgi_container.Request.Writes.{
  string_bytes, file_bytes, drop_twice, int_bytes, string_bytes, buffer_bytes, file_bytes,
  drop_twice,
}

view_within :
    (b : DataBuffer) (begin end : ℕ)
    → end ≤ length b.storage
    → view b begin end ≡ some (record { storage = b.storage; begin = begin; end = end })
unfolding view
view_within b begin end h =
    let test : ltb (length b.storage) end ≡ false = ground arith in rw test refl

pub stored_length :
    {b : DataBuffer} {pre done rest post : Bytes}
    → Holds b pre done rest post
    → length b.storage ≡ length pre + length done + length rest + length post
stored_length {pre = pre} {done = done} {rest = rest} {post = post} h = omega (
  arith,
  ap length h.stored,
  length-append (pre ++ done) (rest ++ post),
  length-append pre done,
  length-append rest post,
)

-- The body, where it is stored behind `before`.
unfoldable pub stored_body : DataBuffer → DataBuffer → Bytes → DataBuffer
stored_body b body before = record {
  storage = b.storage;
  begin = length before + b.begin;
  end = length before + b.begin + size body;
}

pub parse_body-Holds :
    {b : DataBuffer} {pre done post : Bytes} (body : DataBuffer) (rest : Bytes)
    → IsWindow body
    → b.end < 2 ^ 64
    → Holds b pre done (buffer_bytes body ++ rest) post
    → parse_body b (length done)
      ≡ ok (record {
        pos = length (done ++ buffer_bytes body);
        value = stored_body b body (done ++ int_bytes (size body));
      })
unfolding parse_body buffer_bytes stored_body
parse_body-Holds {b} {pre = pre} {done = done} {post = post} body rest w small h =
    let i = int_bytes (size body) in
    let c = contents body in
    let h1 = regroup i c rest h in
    let h2 = advance i (c ++ rest) h1 in
    let len = length-append c rest in
    let cut = length-contents body w in
    let p = length (done ++ i) in
    let n = size body in
    let wrap : (p + n) % 2 ^ 64 ≡ p + n = omega (arith, h2.ends, len, cut) in
    let wrap1 : (p + b.begin) % 2 ^ 64 ≡ p + b.begin =
      omega (arith, h2.ends, h2.begins, len, cut) in
    let wrap2 : (p + n + b.begin) % 2 ^ 64 ≡ p + b.begin + n =
      omega (arith, h2.ends, h2.begins, len, cut) in
    let fits : ltb (size b) (p + n) ≡ false = ground (arith, size-Holds (c ++ rest) h2, len, cut) in
    rw
      (
        parse_int-Holds n (c ++ rest) (omega (arith, h2.ends, len, cut)) h1,
        wrap,
        fits,
        wrap1,
        wrap2,
        view_within b (p + b.begin) (p + b.begin + n)
            (omega (arith, stored_length h2, len, cut, h2.begins)),
      )
      (ap (λ (k : ℕ). ok (record { pos = k; value = stored_body b body (done ++ i) }))
        (omega (arith, length-append done (i ++ c), length-append i c, length-append done i, cut)))

-- The restored body has the bytes of the stored one.
pub contents-stored_body :
    {b : DataBuffer} {pre done post : Bytes} (body : DataBuffer) (rest : Bytes)
    → IsWindow body
    → Holds b pre done (contents body ++ rest) post
    → contents (stored_body b body done) ≡ contents body
unfolding stored_body
contents-stored_body {b} {done = done} body rest w h =
    let gap : length done + b.begin + size body - (length done + b.begin) ≡ length (contents body) =
      omega (arith, length-contents body w) in
    unfold contents in rw gap (copied (contents body) rest h)

take-nil {ℓ} : {A : Type ℓ} (n : ℕ) → take {A = A} n [] ≡ []
take-nil zero = refl
take-nil (suc n) = refl

take-drop_part {ℓ} :
    {A : Type ℓ} (len off sz : ℕ) (xs : List A)
    → off + len ≤ sz
    → take len (drop off (take sz xs)) ≡ take len (drop off xs)
take-drop_part zero off sz xs h = refl
take-drop_part (suc len) off sz [] h = ap (λ z. take (suc len) (drop off z)) (take-nil sz)
take-drop_part (suc len) zero zero (x ∷ xs) h = absurd (omega arith)
take-drop_part (suc len) zero (suc sz) (x ∷ xs) h =
    ap (◌∷◌ x) (take-drop_part len zero sz xs (omega arith))
take-drop_part (suc len) (suc off) zero (x ∷ xs) h = absurd (omega arith)
take-drop_part (suc len) (suc off) (suc sz) (x ∷ xs) h =
    take-drop_part (suc len) off sz xs (omega arith)

-- A file whose content lies in the body.
pub record IsPart (body : DataBuffer) (f : File) : Type 0 where
  pub shared : f.content.storage ≡ body.storage
  pub starts : body.begin ≤ f.content.begin
  pub ordered : f.content.begin ≤ f.content.end
  pub ends : f.content.end ≤ body.end
  pub named : f.remote_name ≢ []

IsPart-ordered : {body : DataBuffer} {f : File} → IsPart body f → body.begin ≤ body.end
IsPart-ordered part = omega (arith, part.starts, part.ordered, part.ends)

-- Windows of one size are as far from end to end.
same_gap :
    (new body : DataBuffer)
    → new.begin ≤ new.end
    → body.begin ≤ body.end
    → size new ≡ size body
    → new.end - new.begin ≡ body.end - body.begin
same_gap new body h k e = omega (arith, size_ordered new h, size_ordered body k, e)

-- The file over the restored body.
unfoldable pub moved : DataBuffer → DataBuffer → File → File
moved new body f = record f {
  content = record {
    storage = new.storage;
    begin = f.content.begin - body.begin + new.begin;
    end = f.content.end - body.begin + new.begin;
  };
}

contents_part :
    (st : Bytes) (bg off len sz : ℕ)
    → off + len ≤ sz
    → take len (drop off (take sz (drop bg st))) ≡ take len (drop (bg + off) st)
contents_part st bg off len sz h =
    take-drop_part len off sz (drop bg st) h ∙ ap (take len) (drop_twice bg off (bg + off) st refl)

-- The content of the moved file, if the bodies have the same bytes.
pub contents-moved :
    (new body : DataBuffer) (f : File)
    → IsPart body f
    → new.begin ≤ new.end
    → size new ≡ size body
    → contents new ≡ contents body
    → contents (moved new body f).content ≡ contents f.content
unfolding moved contents
contents-moved new body f part o same_size same =
    let gap = same_gap new body o (IsPart-ordered part) same_size in
    let off = f.content.begin - body.begin in
    let len = f.content.end - f.content.begin in
    let e1 : f.content.end - body.begin + new.begin - (off + new.begin) ≡ len =
      omega (arith, part.starts, part.ordered) in
    let e2 : off + new.begin ≡ new.begin + off = omega arith in
    let e3 : body.begin + off ≡ f.content.begin = omega (arith, part.starts) in
    let fit : off + len ≤ body.end - body.begin =
      omega (arith, part.starts, part.ordered, part.ends) in
    ap₂ (λ a k. take a (drop k new.storage)) e1 e2
    ∙ sym (
        contents_part new.storage new.begin off len (new.end - new.begin) (omega (arith, fit, gap)))
    ∙ ap (λ z. take len (drop off z)) same
    ∙ contents_part body.storage body.begin off len (body.end - body.begin) fit
    ∙ ap₂ (λ k st. take len (drop k st)) e3 (sym part.shared)

module _ (new body : DataBuffer) (f : File) (part : IsPart body f)
    (same_size : size new ≡ size body) (w : IsWindow new) (small : new.end < 2 ^ 64)
    (small_body : body.end < 2 ^ 64) where
  gap : new.end - new.begin ≡ body.end - body.begin
  gap = same_gap new body w.ordered (IsPart-ordered part) same_size

  offset : sub64 f.content.begin body.begin ≡ f.content.begin - body.begin
  offset =
      sub64_le f.content.begin body.begin (omega (arith, part.ordered, part.ends, small_body))
        part.starts

  span : sub64 f.content.end f.content.begin ≡ f.content.end - f.content.begin
  span = sub64_le f.content.end f.content.begin (omega (arith, part.ends, small_body)) part.ordered

  window_begin :
      (sub64 f.content.begin body.begin + new.begin) % 2 ^ 64
      ≡ f.content.begin - body.begin + new.begin
  window_begin =
      rw offset (omega (arith, part.starts, part.ordered, part.ends, gap, w.ordered, small))

  window_end :
      (sub64 f.content.begin body.begin + sub64 f.content.end f.content.begin + new.begin) % 2 ^ 64
      ≡ f.content.end - body.begin + new.begin
  window_end =
      rw (offset, span) (omega (arith, part.starts, part.ordered, part.ends, gap, w.ordered, small))

five_parts :
    (d n r t o l : Bytes) → ((((d ++ n) ++ r) ++ t) ++ o) ++ l ≡ d ++ (n ++ (r ++ (t ++ (o ++ l))))
five_parts d n r t o l = simp append_assoc

equal_nil : (x : Bytes) → x ≢ [] → equal x [] ≡ false
equal_nil [] h = absurd (h refl)
equal_nil (c ∷ x) h = refl

pub parse_file-Reads :
    (max_string : ℕ) (new body : DataBuffer) (f : File)
    → IsPart body f
    → size new ≡ size body
    → IsWindow new
    → new.end < 2 ^ 64
    → body.end < 2 ^ 64
    → Fits max_string f.name × Fits max_string f.remote_name × Fits max_string f.type
    → Reads (parse_file max_string new) (file_bytes body f) (moved new body f)
unfolding parse_file file_bytes moved
parse_file-Reads max_string new body f part same_size w small small_body fits = record {
  reads = λ b pre done rest post h.
      let n = string_bytes f.name in
      let r = string_bytes f.remote_name in
      let t = string_bytes f.type in
      let off = sub64 f.content.begin body.begin in
      let len = sub64 f.content.end f.content.begin in
      let o = int_bytes off in
      let l = int_bytes len in
      let h1 = regroup n (r ++ (t ++ (o ++ l))) rest h in
      let k1 = advance n ((r ++ (t ++ (o ++ l))) ++ rest) h1 in
      let h2 = regroup r (t ++ (o ++ l)) rest k1 in
      let k2 = advance r ((t ++ (o ++ l)) ++ rest) h2 in
      let h3 = regroup t (o ++ l) rest k2 in
      let k3 = advance t ((o ++ l) ++ rest) h3 in
      let h4 = regroup o l rest k3 in
      let k4 = advance o (l ++ rest) h4 in
      rw
        (
          parse_string-Holds max_string f.name ((r ++ (t ++ (o ++ l))) ++ rest) fits.0.0 fits.0.1
              h1,
          parse_string-Holds max_string f.remote_name ((t ++ (o ++ l)) ++ rest) fits.1.0 fits.1.1
              h2,
          parse_string-Holds max_string f.type ((o ++ l) ++ rest) fits.2.0 fits.2.1 h3,
          parse_int-Holds off (l ++ rest) (omega arith) h4,
          parse_int-Holds len rest (omega arith) k4,
          window_begin new body f part same_size w small small_body,
          window_end new body f part same_size w small small_body,
          view_within new (f.content.begin - body.begin + new.begin)
              (f.content.end - body.begin + new.begin)
              (omega (
                arith,
                part.starts,
                part.ordered,
                part.ends,
                same_gap new body w.ordered (IsPart-ordered part) same_size,
                w.within,
                w.ordered,
              )),
          equal_nil f.remote_name part.named,
        )
        (ap (λ z. ok (record { pos = length z; value = moved new body f }))
          (five_parts done n r t o l));
}
