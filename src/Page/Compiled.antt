-- ===== src/Page/Compiled.antt =====
-- `PageReader::parse` on pages of texts and tags.
use fastcgi_container.Base.{
  suc, ◌≡◌, refl, ap, ◌∙◌, true, List, [], ◌∷◌, ◌++◌, append-nil, append_assoc, arith, length,
  length-append, Bytes, codes,
}
use fastcgi_container.Page.{Page, write_handler}
use fastcgi_container.Page.Token.{next_token}
use fastcgi_container.Page.Reader.{Result, ok, PageReader}
use fastcgi_container.Page.Parse.{
  ParsingState, markup, Scan, step, parse, markup_begin, markup_end, expr_begin, expr_end,
}
use fastcgi_container.Page.Rounds.{
  is_quiet, is_quiet-head, Yields, end-Yields, token-Yields, told, quiet-Yields,
}
use fastcgi_container.Page.Sections.{
  Tag, code, expression, declaration, member, prelude, comment, tag_mark, tag_text, state_of,
  Section, source, fits, IsSeparated, literal, tag_code, handler_code, collect, collected,
}

next_token-tag :
    (t : Tag) (b r : Bytes)
    → fits t b ≡ true
    → next_token (tag_text t ++ (b ++ (codes "%>" ++ r))) ≡ (tag_text t, b ++ (codes "%>" ++ r))
unfolding next_token
next_token-tag code (c ∷ b) r h = ground arith
next_token-tag code [] r h = cc
next_token-tag declaration (c ∷ b) r h = ground arith
next_token-tag declaration [] r h = refl
next_token-tag expression b r h = refl
next_token-tag member b r h = refl
next_token-tag prelude b r h = refl
next_token-tag comment b r h = refl

abbrev scan : Page → Bytes → ParsingState → Scan
scan p a st = record { page = p; attrs = a; state = st }

told-markup :
    (t : Bytes) (p : Page) (a : Bytes)
    → told t (scan p a markup) ≡ scan (write_handler (literal t) p) a markup
told-markup [] p a = simp append-nil refl
told-markup (c ∷ t) p a = simp (told-markup t, append_assoc) refl

-- What a body writes, and what stands before and behind it.
abbrev fill : Tag → Bytes → Page → Page
fill code b p = write_handler b p
fill expression b p = write_handler b p
fill t b p = collect t b p

abbrev before : Tag → Bytes
before expression = markup_end ++ expr_begin
before _ = markup_end

abbrev behind : Tag → Bytes
behind expression = expr_end ++ markup_begin
behind _ = markup_begin

told-fill :
    (tag : Tag) (b : Bytes) (p : Page) (a : Bytes)
    → told b (scan p a (state_of tag)) ≡ scan (fill tag b p) a (state_of tag)
told-fill code [] p a = simp append-nil refl
told-fill expression [] p a = simp append-nil refl
told-fill declaration [] p a = simp append-nil refl
told-fill member [] p a = simp append-nil refl
told-fill prelude [] p a = simp append-nil refl
told-fill comment [] p a = refl
told-fill code (c ∷ b) p a = simp (told-fill code b, append_assoc) refl
told-fill expression (c ∷ b) p a = simp (told-fill expression b, append_assoc) refl
told-fill declaration (c ∷ b) p a = simp (told-fill declaration b, append_assoc) refl
told-fill member (c ∷ b) p a = simp (told-fill member b, append_assoc) refl
told-fill prelude (c ∷ b) p a = simp (told-fill prelude b, append_assoc) refl
told-fill comment (c ∷ b) p a = told-fill comment b p a

tag_page :
    (tag : Tag) (b : Bytes) (p : Page)
    → write_handler (behind tag) (fill tag b (write_handler (before tag) p))
      ≡ collect tag b (write_handler (markup_end ++ (tag_code tag b ++ markup_begin)) p)
tag_page code b p = simp append_assoc refl
tag_page expression b p = simp append_assoc refl
tag_page declaration b p = simp append_assoc refl
tag_page member b p = simp append_assoc refl
tag_page prelude b p = simp append_assoc refl
tag_page comment b p = simp append_assoc refl

collect-write :
    (tag : Tag) (b h : Bytes) (p : Page)
    → write_handler h (collect tag b p) ≡ collect tag b (write_handler h p)
collect-write code b h p = refl
collect-write _ b h p = refl

collected-write :
    (ss : List Section) (h : Bytes) (p : Page)
    → write_handler h (collected ss p) ≡ collected ss (write_handler h p)
collected-write [] h p = refl
collected-write (s ∷ ss) h p =
    collected-write ss h (collect s.tag s.body p)
    ∙ ap (collected ss) (collect-write s.tag s.body h p)

joined :
    (t : Bytes) (s : Section) (p : Page) (more : Bytes)
    → write_handler more (
        collect s.tag s.body (
          write_handler
            (markup_end ++ (tag_code s.tag s.body ++ markup_begin))
            (write_handler (literal t) p)))
      ≡ collect s.tag s.body (
          write_handler
            (literal t ++ (markup_end ++ (tag_code s.tag s.body ++ (markup_begin ++ more))))
            p)
joined t s p more =
    collect-write s.tag s.body more _ ∙ ap (collect s.tag s.body) (simp append_assoc refl)

module _ (include : Bytes → Page → Result Page) (reader : PageReader) where
  step-open :
      (tag : Tag) (p : Page) (a : Bytes)
      → step include reader (tag_text tag) (scan p a markup)
        ≡ ok (scan (write_handler (before tag) p) a (state_of tag))
  unfolding step
  step-open expression p a = simp append_assoc refl
  step-open _ p a = refl

  step-close :
      (tag : Tag) (p : Page) (a : Bytes)
      → step include reader (codes "%>") (scan p a (state_of tag))
        ≡ ok (scan (write_handler (behind tag) p) a markup)
  unfolding step
  step-close expression p a = simp append_assoc refl
  step-close _ p a = refl

  section-Yields :
      (tag : Tag) (b r : Bytes) (p : Page) (a : Bytes) (m : Result Scan)
      → is_quiet b (codes "%>") ≡ true
      → fits tag b ≡ true
      → Yields include reader r
          (scan (write_handler (behind tag) (fill tag b (write_handler (before tag) p))) a markup)
          m
      → Yields include reader (tag_text tag ++ (b ++ (codes "%>" ++ r))) (scan p a markup) m
  unfolding next_token
  section-Yields tag b r p a m q f y =
      let p' = write_handler (before tag) p in
      let s' = scan (fill tag b p') a (state_of tag) in
      let n = length-append (tag_mark tag) (b ++ (codes "%>" ++ r)) in
      let closed =
        token-Yields include reader (codes "%>" ++ r) s' b'%' (codes ">") r
          (scan (write_handler (behind tag) (fill tag b p')) a markup) m refl (omega arith)
          (step-close tag (fill tag b p') a) y in
      token-Yields include reader (tag_text tag ++ (b ++ (codes "%>" ++ r))) (scan p a markup) b'<'
        (b'%' ∷ tag_mark tag) (b ++ (codes "%>" ++ r)) (scan p' a (state_of tag)) m
        (next_token-tag tag b r f) (omega (arith, n)) (step-open tag p a)
        (quiet-Yields include reader b (codes "%>" ++ r) (scan p' a (state_of tag)) m
          (is_quiet-head b b'%' (b'>' ∷ r) (codes ">") ∙ q) (rw (told-fill tag b p' a) closed))

  page-Yields :
      (t : Bytes) (ss : List Section) (p : Page) (a : Bytes)
      → IsSeparated t ss
      → Yields include reader
          (source t ss)
          (scan p a markup)
          (ok (scan (collected ss (write_handler (handler_code t ss) p)) a markup))
  page-Yields t [] p a h =
      let y =
        quiet-Yields include reader t [] (scan p a markup)
          (ok (scan (write_handler (literal t) p) a markup)) h
          (rw (told-markup t p a) (end-Yields include reader _)) in
      rw append-nil at y
  page-Yields t (s ∷ ss) p a h =
      let r = source s.text ss in
      let q = write_handler (literal t) p in
      let rest = tag_mark s.tag ++ (s.body ++ (codes "%>" ++ r)) in
      let written = write_handler (markup_end ++ (tag_code s.tag s.body ++ markup_begin)) q in
      quiet-Yields include reader t (b'<' ∷ b'%' ∷ rest) (scan p a markup) _
        (is_quiet-head t b'<' (b'%' ∷ rest) [] ∙ h.0)
        (rw (told-markup t p a) (
          section-Yields s.tag s.body r q a _ h.1 h.2 (
            rw (tag_page s.tag s.body q) λ fuel l.
              page-Yields s.text ss (collect s.tag s.body written) a h.3 fuel l
              ∙ ap (λ z. ok (scan (collected ss z) a markup))
                  (joined t s p (handler_code s.text ss)))))

  -- Where no tag starts within a text or a body and each body fits its tag, `parse` on a page of
  -- texts and tags returns: the handler gets the code of the sections, in order, between the code
  -- that prints the texts, and the bodies of `<%!`, `<%!!` and `<%%` go to their places, in order.
  pub parse-source :
      (t : Bytes) (ss : List Section) (p : Page)
      → IsSeparated t ss
      → parse include reader (source t ss) p
        ≡ ok (collected ss (write_handler (markup_begin ++ (handler_code t ss ++ markup_end)) p))
  unfolding parse
  parse-source t ss p h =
      let q = write_handler markup_begin p in
      rw (page-Yields t ss q [] h (suc (length (source t ss))) (omega arith), parse)
        (ap ok (
          collected-write ss markup_end (write_handler (handler_code t ss) q)
          ∙ ap (collected ss) (simp append_assoc refl)))
