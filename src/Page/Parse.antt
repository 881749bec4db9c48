-- ===== src/Page/Parse.antt =====
-- `PageReader::parse` and `include` of page-compiler/page_reader.cpp: the translation of a page to
-- code. The files that it includes are the argument `files`; they stay the same while it runs.
use fastcgi_container.Base.{
  ℕ, zero, suc, Bool, false, true, [], ◌∷◌, ◌++◌, Option, none, some, if◌then◌else◌, Bytes, length,
  codes, equal,
}
use fastcgi_container.FilePath.{path_to_file}
use fastcgi_container.Page.{
  Page, write_handler, write_pre_handler, write_methods, write_functions, write_header_decls,
  write_impl_decls,
}
use fastcgi_container.Page.Token.{next_token}
use fastcgi_container.Page.Reader.{
  Result, ok, thrown, endless, ◌>>=◌, PageReader, new_reader, where_text, parse_attributes,
}

pub data ParsingState : Type 0 where
  markup implementation_declaration header_declaration methods functions : ParsingState
  pre_handler block expression comment attribute : ParsingState

-- MARKUP_BEGIN, MARKUP_END, EXPR_BEGIN and EXPR_END
abbrev pub markup_begin : Bytes
markup_begin = codes "\tresponseStream << \""

abbrev pub markup_end : Bytes
markup_end = codes "\";\n"

abbrev pub expr_begin : Bytes
expr_begin = codes "\tresponseStream << ("

abbrev pub expr_end : Bytes
expr_end = codes ");\n"

-- The page, the text of a directive and the state of the loop.
pub record Scan : Type 0 where
  pub page : Page
  pub attrs : Bytes
  pub state : ParsingState

abbrev pub on_page : (Page → Page) → Scan → Scan
on_page f s = record s { page = f s.page }

-- The state that an opening token leads to from markup.
abbrev pub opened : Bytes → Option ParsingState
opened t =
    if equal t (codes "<%")
    then some block
    else if equal t (codes "<%%")
    then some pre_handler
    else if equal t (codes "<%!")
    then some functions
    else if equal t (codes "<%!!")
    then some methods
    else if equal t (codes "<%--")
    then some comment
    else if equal t (codes "<%@")
    then some attribute
    else if equal t (codes "<%=")
    then some expression
    else none

-- What is written, or reset, behind the end of the markup.
abbrev pub enter : ParsingState → Scan → Scan
enter attribute s = record s { attrs = []; state = attribute }
enter expression s = record (on_page (write_handler expr_begin) s) { state = expression }
enter state s = record s { state = state }

abbrev pub open_tag : ParsingState → ParsingState → Bytes → Scan → Scan
open_tag markup next t s = enter next (on_page (write_handler markup_end) s)
open_tag other next t s = on_page (write_handler t) s

-- A byte of markup in a literal of the code.
abbrev pub escaped : Bytes → Bytes
escaped t =
    if equal t (codes "\n")
    then codes "\\n" ++ (markup_end ++ markup_begin)
    else if equal t (codes "\t")
    then codes "\\t"
    else if equal t (codes "\"")
    then codes "\\\""
    else if equal t (codes "\r")
    then []
    else t

-- Any other token.
abbrev pub plain_token : ParsingState → Bytes → Scan → Scan
plain_token markup t s = on_page (write_handler (escaped t)) s
plain_token implementation_declaration t s = on_page (write_impl_decls t) s
plain_token functions t s = on_page (write_functions t) s
plain_token header_declaration t s = on_page (write_header_decls t) s
plain_token methods t s = on_page (write_methods t) s
plain_token pre_handler t s = on_page (write_pre_handler t) s
plain_token block t s = on_page (write_handler t) s
plain_token expression t s = on_page (write_handler t) s
plain_token comment t s = s
plain_token attribute t s = record s { attrs = s.attrs ++ t }

abbrev pub is_markup : ParsingState → Bool
is_markup markup = true
is_markup _ = false

-- Back in markup.
abbrev pub resume : Scan → Scan
resume s = record (on_page (write_handler markup_begin) s) { state = markup }

module _ (include : Bytes → Page → Result Page) (reader : PageReader) where
  abbrev pub close_tag : ParsingState → Bytes → Scan → Result Scan
  close_tag expression t s = ok (resume (on_page (write_handler expr_end) s))
  close_tag attribute t s = parse_attributes include reader s.attrs s.page >>= λ p.
      ok (resume (record s { page = p; attrs = [] }))
  close_tag markup t s = ok (on_page (write_handler t) s)
  close_tag other t s = ok (resume s)

  -- One round of the loop.
  unfoldable pub step : Bytes → Scan → Result Scan
  unfolding parse_attributes
  step t s = elim (opened t) [
    | some next ↦ ok (open_tag s.state next t s)
    | none ↦ if equal t (codes "%>") then close_tag s.state t s else ok (plain_token s.state t s)
  ]

  -- A round takes at least a byte.
  unfoldable pub parse_loop : ℕ → Bytes → Scan → Result Scan
  unfolding next_token step
  parse_loop zero input s = endless
  parse_loop (suc fuel) input s =
      let next = next_token input in
      elim next.0 [ [] ↦ ok s | c ∷ t ↦ step (c ∷ t) s >>= λ s'. parse_loop fuel next.1 s' ]

  abbrev pub finish : Scan → Result Page
  finish s =
      if is_markup s.state
      then ok (write_handler markup_end s.page)
      else thrown (codes "unclosed meta or code block: " ++ where_text reader)

  unfoldable pub parse : Bytes → Page → Result Page
  unfolding parse_loop
  parse input p =
      parse_loop (suc (length input)) input
        (record { page = write_handler markup_begin p; attrs = []; state = markup })
      >>= λ s. finish s

module _ (files : Bytes → Option Bytes) where
  -- The fuel is the depth to which pages may include one another.
  unfoldable pub include : ℕ → PageReader → Bytes → Page → Result Page
  unfolding parse path_to_file
  include zero reader path p = endless
  include (suc depth) reader path p =
      let full = path_to_file reader.position.path ++ (codes "/" ++ path) in
      let q = write_handler (codes "\t// begin include " ++ (full ++ codes "\n")) p in
      let child = new_reader full (reader.position ∷ reader.parents) in
      elim (files full) [
        | none ↦ thrown (
            codes "could not open file  "
            ++ (full ++ (codes " for inclusion " ++ where_text reader)))
        | some text ↦ parse (include depth child) child text q >>= λ r.
            ok (write_handler (codes "\t// end include " ++ (full ++ codes "\n")) r)
      ]

  -- A page that no other includes.
  unfoldable pub parse_page : ℕ → Bytes → Bytes → Page → Result Page
  unfolding parse include
  parse_page depth path input p =
      let reader = new_reader path [] in parse (include depth reader) reader input p
