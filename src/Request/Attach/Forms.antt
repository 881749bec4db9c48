-- ===== src/Request/Attach/Forms.antt =====
-- `StringUtils::parse` of a buffer, and of a range.
use fastcgi_container.Base.{
  ℕ, zero, suc, ◌≡◌, refl, inl, inr, some, List, [], ◌∷◌, append-nil, arith, Bool-cases, Bytes,
}
use fastcgi_container.DataBuffer.{DataBuffer, chunks}
use fastcgi_container.DataBuffer.Search.{empty, split, Cut}
use fastcgi_container.DataBuffer.Shows.{Shows, contents-Shows, segments-Shows}
use fastcgi_container.DataBuffer.Cuts.{CutShows, split-Shows}
use fastcgi_container.Range.{Range, is_empty, split_char}
use fastcgi_container.Range
use fastcgi_container.Url.{NamedValue, parse_loop, push_pair, urldecode, urldecode_chunks}
use fastcgi_container.Parser.Multipart.{done}
use fastcgi_container.Request.Attach.{push_buffer, parse_buffer, lifted}

-- A buffer is empty where its window is.
pub empty-Shows : {st : Bytes} {b : DataBuffer} (w : Bytes) → Shows st b w → empty b ≡ is_empty w
empty-Shows [] s = ground (arith, s.begins, s.ends)
empty-Shows (c ∷ w) s = ground (arith, s.begins, s.ends)

urldecode-Shows :
    {st : Bytes} {b : DataBuffer} (w : Bytes)
    → Shows st b w
    → urldecode_chunks (chunks b) ≡ urldecode w
unfolding urldecode_chunks chunks urldecode
urldecode-Shows [] s = rw (empty-Shows [] s) refl
urldecode-Shows (c ∷ w) s =
    rw (empty-Shows (c ∷ w) s, contents-Shows s) (append-nil (urldecode (c ∷ w)))

-- `split` at a character, as the model of the buffers writes it.
split-split_char : (c : ℕ) (w : Bytes) → Range.split w (c ∷ []) ≡ split_char w c
unfolding Range.split split_char Range.find
split-split_char c w = refl

char-Shows :
    {st : Bytes} {b : DataBuffer} {w : Bytes} (c : ℕ)
    → Shows st b w
    → (k : Cut) × (split (c ∷ []) b ≡ some k) × CutShows st k (split_char w c)
char-Shows {st} {b} {w} c s =
    let (k, e, h, o) = split-Shows (c ∷ []) s (omega arith) in (k, e, rw (← split-split_char c w) h)

push_buffer-Shows :
    {st : Bytes} {b : DataBuffer} (w : Bytes) (v : List NamedValue)
    → Shows st b w
    → push_buffer b v ≡ done (push_pair w v)
unfolding push_buffer push_pair
push_buffer-Shows w v s =
    let (k, e, h) = char-Shows b'=' s in
    let first = (split_char w b'=').first in
    let second = (split_char w b'=').second in
    elim (Bool-cases (is_empty first)) [
      | inl n ↦ rw (e, empty-Shows first h.first, n) refl
      | inr n ↦
          rw
            (
              e,
              empty-Shows first h.first,
              n,
              segments-Shows h.first,
              segments-Shows h.second,
              urldecode-Shows first h.first,
              urldecode-Shows second h.second,
            )
            refl
    ]

-- On a buffer that is a window on its storage, `parse` does in every round what it does on the
-- range of the window's bytes: it ends in as many rounds, throws nothing and appends the same
-- parameters.
pub parse_buffer-Shows :
    (fuel : ℕ) {st : Bytes} {b : DataBuffer} {w : Bytes} (v : List NamedValue)
    → Shows st b w
    → parse_buffer fuel b v ≡ lifted (parse_loop fuel w v)
unfolding parse_buffer parse_loop
parse_buffer-Shows zero v s = refl
parse_buffer-Shows (suc fuel) {st} {b} {w} v s =
    let (k, e, h) = char-Shows b'&' s in
    elim (Bool-cases (is_empty w)) [
      | inl n ↦ rw (parse_buffer, empty-Shows w s, n) refl
      | inr n ↦
          rw
            (
              parse_buffer,
              empty-Shows w s,
              n,
              e,
              push_buffer-Shows (split_char w b'&').first v h.first,
            )
            (parse_buffer-Shows fuel (push_pair (split_char w b'&').first v) h.second)
    ]
