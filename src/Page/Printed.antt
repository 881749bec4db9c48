-- ===== src/Page/Printed.antt =====
-- The code that the page reader makes of a text: statements `responseStream << "..." ;` read as a C++
-- compiler does, up to the escapes that the page compiler writes. `writeContent` then deletes the
-- statements that print nothing or a line break alone (`_removeEmptyString`); this file is about the
-- code before that.
use fastcgi_container.Base.{
  true, ℕ, ◌≡◌, refl, ap, ◌∙◌, ◌≢◌, inl, inr, false, Option, none, some, [], ◌∷◌, ◌++◌,
  append_assoc, arith, ◌==◌, if◌then◌else◌, ==_iff, Bool-cases, All, Bytes, codes, equal,
}
use fastcgi_container.Page.{Page, empty_page, write_handler}
use fastcgi_container.Page.Reader.{Result, ok, PageReader}
use fastcgi_container.Page.Parse.{parse, markup_begin, markup_end, escaped}
use fastcgi_container.Page.Sections.{literal}
use fastcgi_container.Page.Rounds.{is_quiet}
use fastcgi_container.Page.Compiled.{parse-source}

-- Where the reading is: the bytes that have to come in front of the next literal, within a literal,
-- or behind a backslash there.
pub data Mode : Type 0 where
  expecting : Bytes → Mode
  within behind_backslash : Mode

-- The byte that an escape stands for.
abbrev pub unescaped : ℕ → Option ℕ
unescaped c =
    if c == b'n'
    then some b'\n'
    else if c == b't'
    then some b'\t'
    else if c == b'"'
    then some b'"'
    else none

abbrev pub then_print : Option ℕ → Option Bytes → Option Bytes
then_print (some c) (some r) = some (c ∷ r)
then_print _ _ = none

-- What statements print. They may end where one could start. A line break may not stand in a
-- literal, and a backslash there starts an escape.
unfoldable pub printed : Mode → Bytes → Option Bytes
printed (expecting e) [] = if equal e markup_begin then some [] else none
printed within [] = none
printed behind_backslash [] = none
printed (expecting []) (c ∷ r) = none
printed (expecting (e ∷ [])) (c ∷ r) = if c == e then printed within r else none
printed (expecting (e ∷ es)) (c ∷ r) = if c == e then printed (expecting es) r else none
printed within (c ∷ r) =
    let ended = printed (expecting (codes ";\n" ++ markup_begin)) r in
    let escape = printed behind_backslash r in
    let more = printed within r in
    if c == b'"'
    then ended
    else if c == b'\\'
    then escape
    else if c == b'\n'
    then none
    else then_print (some c) more
printed behind_backslash (c ∷ r) = then_print (unescaped c) (printed within r)

-- A text without its carriage returns.
abbrev pub without_returns : Bytes → Bytes
without_returns [] = []
without_returns (c ∷ t) = if c == b'\r' then without_returns t else c ∷ without_returns t

-- The tests of `escaped`, as tests of the byte.
abbrev escape_of : ℕ → Bytes → Bytes
escape_of c t =
    if c == b'\n'
    then codes "\\n" ++ (markup_end ++ (markup_begin ++ t))
    else if c == b'\t'
    then codes "\\t" ++ t
    else if c == b'"'
    then codes "\\\"" ++ t
    else if c == b'\r'
    then t
    else c ∷ t

escaped-append : (c : ℕ) (t : Bytes) → escaped (c ∷ []) ++ t ≡ escape_of c t
escaped-append c t = ground arith

printed-escape_of :
    (c : ℕ) (t : Bytes) (out : Bytes)
    → c ≢ b'\\'
    → printed within t ≡ some out
    → printed within (escape_of c t) ≡ some (if c == b'\r' then out else c ∷ out)
unfolding printed
printed-escape_of c t out h e =
    let slash : (c == b'\\') ≡ false = ground arith in
    elim (Bool-cases (c == b'\n')) [
      | inl k ↦ rw ((==_iff c b'\n').0 k) (rw e refl)
      | inr n ↦ elim (Bool-cases (c == b'\t')) [
        | inl k ↦ rw ((==_iff c b'\t').0 k) (rw e refl)
        | inr tab ↦ elim (Bool-cases (c == b'"')) [
          | inl k ↦ rw ((==_iff c b'"').0 k) (rw e refl)
          | inr q ↦ elim (Bool-cases (c == b'\r')) [
            | inl k ↦ rw ((==_iff c b'\r').0 k) e
            | inr r ↦ simp (n, tab, q, r, slash, e) refl
          ]
        ]
      ]
    ]

printed-literal :
    (t : Bytes)
    → All (λ c. c ≢ b'\\') t
    → printed within (literal t ++ markup_end) ≡ some (without_returns t)
printed-literal [] h = unfold printed in refl
printed-literal (c ∷ t) h =
    ap (printed within) (
      append_assoc (escaped (c ∷ [])) (literal t) markup_end
      ∙ escaped-append c (literal t ++ markup_end))
    ∙ printed-escape_of c (literal t ++ markup_end) (without_returns t) h.0 (printed-literal t h.1)

-- The code of any text without a backslash prints the text without its carriage returns.
pub printed-text :
    (t : Bytes)
    → All (λ c. c ≢ b'\\') t
    → printed (expecting markup_begin) (markup_begin ++ (literal t ++ markup_end))
      ≡ some (without_returns t)
printed-text t h = unfold printed in printed-literal t h

module _ (include : Bytes → Page → Result Page) (reader : PageReader) where
  -- A page that is a text with no tag and no backslash is read without an exception, and the code
  -- which the reader collects for its handler prints the text without its carriage returns. That is
  -- the code in front of `writeContent`, which takes statements out of it.
  pub parse-printed :
      (t : Bytes)
      → is_quiet t [] ≡ true
      → All (λ c. c ≢ b'\\') t
      → (q : Page) × (parse include reader t empty_page ≡ ok q)
        × (printed (expecting markup_begin) q.handler ≡ some (without_returns t))
  parse-printed t h k = (
    write_handler (markup_begin ++ (literal t ++ markup_end)) empty_page,
    parse-source include reader t [] empty_page h,
    printed-text t k,
  )
