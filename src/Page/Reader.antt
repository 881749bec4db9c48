-- ===== src/Page/Reader.antt =====
-- `PageReader` of page-compiler/page_reader.cpp: the attributes that a directive
-- `<%@ %>` holds. An exception, a string there, is its text; the page compiler gives up the page then.
use fastcgi_container.Base.{
  refl, ◌≡◌, ℕ, zero, suc, List, [], ◌∷◌, ◌++◌, not, ◌==◌, if◌then◌else◌, Bytes, length, codes,
  equal, is_space, is_alnum, decimal,
}
use fastcgi_container.Text.{span}
use fastcgi_container.Page.{
  Page, write_handler, write_header_decls, write_impl_decls, has_attribute, set_attribute,
}

-- `endless` stands for pages that include one another deeper than the fuel.
pub data Result {ℓ} (A : Type ℓ) : Type ℓ where
  ok : A → Result A
  thrown : Bytes → Result A
  endless : Result A

infixl 5 ◌>>=◌
abbrev pub ◌>>=◌ {ℓ κ} : {A : Type ℓ} {B : Type κ} → Result A → (A → Result B) → Result B
ok a >>= f = f a
thrown text >>= f = thrown text
endless >>= f = endless

-- A bind returns only past its first call.
pub bind_returned {ℓ} :
    {A B : Type ℓ} {b : B} (k : A → Result B) (first : Result A)
    → (first >>= k) ≡ ok b
    → (a : A) × (k a ≡ ok b) × (first ≡ ok a)
bind_returned k endless h = cc
bind_returned k (thrown text) h = cc
bind_returned k (ok a) h = (a, h, refl)

-- What a reader keeps: its path, its line, and those of the pages that include it, from the inside.
pub record Position : Type 0 where
  pub path : Bytes
  pub line : ℕ

pub record PageReader : Type 0 where
  pub position : Position
  pub parents : List Position

abbrev pub new_reader : Bytes → List Position → PageReader
new_reader path parents = record { position = record { path = path; line = 0 }; parents = parents }

abbrev pub place : Position → Bytes
place p = p.path ++ (codes "', line " ++ decimal p.line)

abbrev pub included_from : List Position → Bytes
included_from [] = []
included_from (p ∷ ps) = codes "\n\tincluded from file '" ++ (place p ++ included_from ps)

unfoldable pub where_text : PageReader → Bytes
where_text r = codes "in file '" ++ (place r.position ++ included_from r.parents)

-- A loop that skips spaces.
abbrev pub skip_spaces : Bytes → Bytes
skip_spaces r = (span is_space r).1

-- `include` is what `PageReader::include` does with a path.
module _ (include : Bytes → Page → Result Page) where
  unfoldable pub handle_attribute : Bytes → Bytes → Page → Result Page
  unfolding has_attribute set_attribute
  handle_attribute name value p =
      if equal name (codes "include.page")
      then include value p
      else if equal name (codes "include.path")
      then ok (write_handler (codes "\tresponse->includePath(\"" ++ (value ++ codes "\");")) p)
      else if equal name (codes "include.component")
      then ok (write_handler (codes "\tresponse->includeComponent(\"" ++ (value ++ codes "\");")) p)
      else if equal name (codes "header.include")
      then ok (write_header_decls (codes "#include \"" ++ (value ++ codes "\"\n")) p)
      else if equal name (codes "header.sinclude")
      then ok (write_header_decls (codes "#include <" ++ (value ++ codes ">\n")) p)
      else if equal name (codes "impl.include")
      then ok (write_impl_decls (codes "#include \"" ++ (value ++ codes "\"\n")) p)
      else if equal name (codes "impl.sinclude")
      then ok (write_impl_decls (codes "#include <" ++ (value ++ codes ">\n")) p)
      else if has_attribute name p
      then ok p
      else ok (set_attribute name value p)

  module _ (reader : PageReader) where
    -- A value up to its quote, and what stands behind the quote.
    abbrev pub quoted : ℕ → Bytes → Bytes → Result (Bytes × Bytes)
    quoted quote complaint r =
        let (value, rest) = span (λ c. not (c == quote)) r in
        elim rest [ [] ↦ thrown (complaint ++ where_text reader) | q ∷ behind ↦ ok (value, behind) ]

    -- Behind the `=`.
    abbrev pub attribute_value : Bytes → Result (Bytes × Bytes)
    attribute_value [] =
        thrown (codes "bad attribute syntax: '\"' or ''' expected" ++ where_text reader)
    attribute_value (q ∷ r) =
        if q == b'"'
        then quoted b'"' (codes "bad attribute syntax: '\"' expected ") r
        else if q == b'\''
        then quoted b'\'' (codes "bad attribute syntax: ''' expected ") r
        else thrown (codes "bad attribute syntax: '\"' or ''' expected" ++ where_text reader)

    abbrev pub behind_equals : Bytes → Result Bytes
    behind_equals [] = thrown (codes "bad attribute syntax: '=' expected " ++ where_text reader)
    behind_equals (c ∷ r) =
        if c == b'='
        then ok (skip_spaces r)
        else thrown (codes "bad attribute syntax: '=' expected " ++ where_text reader)

    -- A round takes at least the `=` and two quotes.
    unfoldable pub attributes_loop : ℕ → Bytes → Bytes → Page → Result Page
    unfolding handle_attribute
    attributes_loop zero base input p = endless
    attributes_loop (suc fuel) base [] p = ok p
    attributes_loop (suc fuel) base (c ∷ r) p = do
      let (label, rest) = span is_alnum (c ∷ r)
      from_value ← behind_equals (skip_spaces rest)
      (value, behind) ← attribute_value from_value
      q ← handle_attribute (base ++ (codes "." ++ label)) value p
      attributes_loop fuel base (skip_spaces behind) q

    unfoldable pub parse_attributes : Bytes → Page → Result Page
    unfolding attributes_loop
    parse_attributes attrs p =
        let (base, rest) = span is_alnum (skip_spaces attrs) in
        let input = skip_spaces rest in attributes_loop (suc (length input)) base input p
