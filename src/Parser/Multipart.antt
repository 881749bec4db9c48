-- ===== src/Parser/Multipart.antt =====
-- The multipart bodies of library/parser.cpp, over the search in buffers. `malformed` is its
-- exception. `out_of_range` is the exception of a buffer that is asked for a position outside of its
-- window, or a text that is read from positions which are no window on the storage; `endless` is a
-- loop that still runs when its fuel is used up.
pub mod Within
pub mod Settled
pub mod Parts
pub mod Bodies
use fastcgi_container.Base.{
  ℕ, zero, suc, Bool, true, false, not, ◌&&◌, ◌||◌, Option, none, some, [], ◌∷◌, ◌++◌, ltb, ◌==◌,
  if◌then◌else◌, length, Bytes, codes, to_lower,
}
use fastcgi_container.Range
use fastcgi_container.Range.{Range, is_empty, split_char}
use fastcgi_container.Map.{less_string, insert_by}
use fastcgi_container.DataBuffer.{DataBuffer, size, to_string, view}
use fastcgi_container.DataBuffer.Search.{
  nil, empty, split, Cut, trim_buffer, trimn, starts_with, starts_with_ci, starts_with_by,
  ends_with_by, ends_with,
}
use fastcgi_container.Request.State.{File, Request}

pub data Parsed {ℓ} (A : Type ℓ) : Type ℓ where
  done : A → Parsed A
  out_of_range malformed endless : Parsed A

infixl 5 ◌>>=◌
abbrev pub ◌>>=◌ {ℓ κ} : {A : Type ℓ} {B : Type κ} → Parsed A → (A → Parsed B) → Parsed B
done a >>= f = f a
out_of_range >>= f = out_of_range
malformed >>= f = malformed
endless >>= f = endless

abbrev pub checked {ℓ} : {A : Type ℓ} → Option A → Parsed A
checked none = out_of_range
checked (some a) = done a

-- strncasecmp with the whole of a text, on the bytes of a range in front of a NUL.
abbrev pub begins_ci : Bytes → Range → Bool
begins_ci [] r = true
begins_ci (c ∷ t) [] = false
begins_ci (c ∷ t) (d ∷ r) = to_lower c == to_lower d && begins_ci t r

-- The value between its quotes; `malformed` is "incomplete boundary quotation".
abbrev pub unquoted : Range → Parsed Range
unquoted value =
    if Range.starts_with value (codes "\"")
    then (if ltb (length value) 2 || not (Range.ends_with value (codes "\""))
        then malformed
        else done (Range.trimn 1 1 value))
    else done value

unfoldable pub get_boundary : Range → Parsed Bytes
unfolding split_char Range.trim Range.trimn Range.ends_with
get_boundary range =
    let tail = Range.trim (split_char range b';').second in
    if begins_ci (codes "boundary") tail
    then (unquoted (Range.trim (split_char tail b'=').second) >>= λ boundary.
        done (codes "--" ++ boundary))
    else done []

-- The variables of `parsePart` that `parseLine` writes.
pub record Names : Type 0 where
  pub name : DataBuffer
  pub filename : DataBuffer
  pub type : DataBuffer

abbrev pub no_names : Names
no_names = record { name = nil; filename = nil; type = nil }

-- `LABEL.size() == key.size() && key.startsWith(LABEL)`
abbrev pub is_label : (DataBuffer → Option Bool) → Bytes → DataBuffer → Option Bool
is_label starts label key = if length label == size key then starts key else some false

abbrev pub assign_name : DataBuffer → DataBuffer → Names → Parsed Names
assign_name key value n =
    checked (is_label (starts_with (codes "name")) (codes "name") key) >>= λ is_name.
    if is_name
    then done (record n { name = trimn 1 1 value })
    else checked (is_label (starts_with (codes "filename")) (codes "filename") key) >>= λ is_file.
        if is_file
        then done (record n { filename = trimn 1 1 value })
        else checked (is_label (starts_with_ci (codes "CONTENT_TYPE")) (codes "CONTENT_TYPE") key)
          >>= λ is_type. if is_type then done (record n { type = trim_buffer value }) else done n

-- A round takes at least a byte, or the whole line.
unfoldable pub parse_line : ℕ → DataBuffer → Names → Parsed Names
parse_line zero line n = endless
parse_line (suc fuel) line n = elim (empty line) [
  | true ↦ done n
  | false ↦ checked (split (codes ";") line) >>= λ cut.
      checked (split (codes "=") cut.first) >>= λ pair.
      assign_name pair.first pair.second n >>= λ n'. parse_line fuel (trim_buffer cut.second) n'
]

-- A line up to one end of a line, or else to the other.
abbrev pub split_either : Bytes → Bytes → DataBuffer → Parsed Cut
split_either delim other b =
    checked (split delim b) >>= λ cut. if cut.found then done cut else checked (split other b)

abbrev pub is_continued : DataBuffer → Parsed Bool
is_continued line = checked (starts_with (codes " ") line) >>= λ space.
    if space then done true else checked (starts_with (codes "\t") line)

-- The inner loop of `parsePart`: a header with the lines that continue it, and what is left.
unfoldable pub header_line :
    ℕ → DataBuffer → DataBuffer → Bool → DataBuffer → Parsed (DataBuffer × DataBuffer)
header_line zero part line found tail = endless
header_line (suc fuel) part line found tail = elim (empty tail) [
  | true ↦ done (line, tail)
  | false ↦ split_either (codes "\r\n") (codes "\n") tail >>= λ cut.
      is_continued cut.first >>= λ more. elim more [
        | true ↦ checked (view part line.begin cut.first.end) >>= λ longer.
            header_line fuel part longer true cut.second
        | false ↦ elim found [
          | true ↦ done (line, tail)
          | false ↦ header_line fuel part cut.first true cut.second
        ]
      ]
]

unfoldable pub parse_headers : ℕ → DataBuffer → DataBuffer → Names → Parsed Names
parse_headers zero part headers n = endless
parse_headers (suc fuel) part headers n = elim (empty headers) [
  | true ↦ done n
  | false ↦ header_line (suc (size headers)) part nil false headers >>= λ (line, tail).
      parse_line (suc (size line)) line n >>= λ n'. parse_headers fuel part tail n'
]

-- What a part adds to the request; a file with that name stays.
abbrev pub store_arg : DataBuffer → Bytes → Request → Parsed Request
store_arg content name req = checked (to_string content) >>= λ value.
    done (record req { args = req.args ++ record { name = name; value = value } ∷ [] })

abbrev pub store_file : DataBuffer → Names → Bytes → Request → Parsed Request
store_file content n name req = checked (to_string n.filename) >>= λ filename.
    checked (to_string n.type) >>= λ type. done (record req {
      files =
          insert_by less_string (λ (f : File). f.name)
            (record { name = name; remote_name = filename; type = type; content = content })
            req.files;
    })

abbrev pub store_part : DataBuffer → Names → Request → Parsed Request
store_part content n req =
    if empty n.name
    then done req
    else checked (to_string n.name) >>= λ name.
        if empty n.filename then store_arg content name req else store_file content n name req

unfoldable pub parse_part : DataBuffer → Request → Parsed Request
parse_part part req = do
  cut ← split_either (codes "\r\n\r\n") (codes "\n\n") part
  n ← parse_headers (suc (size cut.first)) part cut.first no_names
  store_part cut.second n req

-- The line break at the end of a part, and that at its start.
abbrev pub drop_end : DataBuffer → Parsed DataBuffer
drop_end head = checked (ends_with (codes "\r\n") head) >>= λ crlf.
    if crlf
    then done (trimn 0 2 head)
    else checked (ends_with (codes "\n") head) >>= λ lf.
        if lf then done (trimn 0 1 head) else malformed

abbrev pub drop_start : DataBuffer → Parsed DataBuffer
drop_start head = checked (starts_with (codes "\r\n") head) >>= λ crlf.
    if crlf
    then done (trimn 2 0 head)
    else checked (starts_with (codes "\n") head) >>= λ lf.
        if lf then done (trimn 1 0 head) else malformed

abbrev pub trim_part : Cut → Parsed DataBuffer
trim_part cut =
    if cut.found && not (empty cut.first)
    then (drop_end cut.first >>= λ head. drop_start head)
    else done cut.first

abbrev pub part_or_none : DataBuffer → Request → Parsed Request
part_or_none head req = if empty head then done req else parse_part head req

unfoldable pub parse_multipart : ℕ → Bytes → DataBuffer → Request → Parsed Request
parse_multipart zero boundary body req = endless
parse_multipart (suc fuel) boundary body req = elim (empty body) [
  | true ↦ done req
  | false ↦ checked (split boundary body) >>= λ cut. trim_part cut >>= λ head.
      part_or_none head req >>= λ req'. checked (starts_with (codes "--") cut.second) >>= λ last.
      elim last [ true ↦ done req' | false ↦ parse_multipart fuel boundary cut.second req' ]
]
