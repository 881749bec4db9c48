-- ===== src/Page/Sections.antt =====
-- Pages of texts and tags, and the code for each, in the terms of the page's author.
use fastcgi_container.Base.{
  ◌≡◌, Bool, true, false, not, ◌&&◌, List, [], ◌∷◌, ◌++◌, ◌==◌, Bytes, codes,
}
use fastcgi_container.Page.{Page, write_pre_handler, write_methods, write_functions}
use fastcgi_container.Page.Parse
use fastcgi_container.Page.Parse.{
  ParsingState, escaped, markup_begin, markup_end, expr_begin, expr_end,
}
use fastcgi_container.Page.Rounds.{is_quiet}

-- The tags with code; a directive is no such tag.
pub data Tag : Type 0 where
  code expression declaration member prelude comment : Tag

abbrev pub tag_mark : Tag → Bytes
tag_mark code = []
tag_mark expression = codes "="
tag_mark declaration = codes "!"
tag_mark member = codes "!!"
tag_mark prelude = codes "%"
tag_mark comment = codes "--"

abbrev pub tag_text : Tag → Bytes
tag_text t = codes "<%" ++ tag_mark t

abbrev pub state_of : Tag → ParsingState
state_of code = Parse.block
state_of expression = Parse.expression
state_of declaration = Parse.functions
state_of member = Parse.methods
state_of prelude = Parse.pre_handler
state_of comment = Parse.comment

-- A tag, what it holds, and the text behind it.
pub record Section : Type 0 where
  pub tag : Tag
  pub body : Bytes
  pub text : Bytes

abbrev pub source : Bytes → List Section → Bytes
source t [] = t
source t (s ∷ ss) = t ++ (tag_text s.tag ++ (s.body ++ (codes "%>" ++ source s.text ss)))

-- No byte of the body would be taken for a part of the tag.
abbrev pub fits : Tag → Bytes → Bool
fits code [] = false
fits code (c ∷ b) =
    not (c == b'%')
    && (not (c == b'@') && (not (c == b'=') && (not (c == b'!') && not (c == b'-'))))
fits declaration (c ∷ b) = not (c == b'!')
fits _ b = true

-- No tag starts within a text or a body, and each body fits its tag.
abbrev pub IsSeparated : Bytes → List Section → Type 0
IsSeparated t [] = is_quiet t [] ≡ true
IsSeparated t (s ∷ ss) =
    (is_quiet t (codes "<") ≡ true)
    × (is_quiet s.body (codes "%>") ≡ true)
    × (fits s.tag s.body ≡ true)
    × IsSeparated s.text ss

-- A text in literals of the code.
abbrev pub literal : Bytes → Bytes
literal [] = []
literal (c ∷ t) = escaped (c ∷ []) ++ literal t

abbrev pub tag_code : Tag → Bytes → Bytes
tag_code code b = b
tag_code expression b = expr_begin ++ (b ++ expr_end)
tag_code _ b = []

-- The handler's code between the first MARKUP_BEGIN and the last MARKUP_END.
abbrev pub handler_code : Bytes → List Section → Bytes
handler_code t [] = literal t
handler_code t (s ∷ ss) =
    literal t ++ (markup_end ++ (tag_code s.tag s.body ++ (markup_begin ++ handler_code s.text ss)))

-- What a tag adds elsewhere.
abbrev pub collect : Tag → Bytes → Page → Page
collect declaration b p = write_functions b p
collect member b p = write_methods b p
collect prelude b p = write_pre_handler b p
collect _ b p = p

abbrev pub collected : List Section → Page → Page
collected [] p = p
collected (s ∷ ss) p = collected ss (collect s.tag s.body p)
