-- ===== src/Request/Restore.antt =====
-- `Request::restore` and its helpers: it clears the maps and lists of the request and reads them back.
-- It clears the headers of the response too, which are not part of this record (see RequestPool).
use fastcgi_container.Base.{
  ℕ, zero, suc, ◌+◌, ◌-◌, ◌%◌, ◌^◌, Bool, false, ◌||◌, Option, none, some, List, [], ◌∷◌, ◌++◌, ltb,
  ◌==◌, if◌then◌else◌, length, replicate, Bytes, equal, le_value,
}
use fastcgi_container.Request.State.{Request, File}
use fastcgi_container.DataBuffer.{view, size, DataBuffer, read}
use fastcgi_container.Map.{insert_by, Map, insert, less_string, less_ci, entry}
use fastcgi_container.Url.{urlencode, NamedValue}

pub data ParseError : Type 0 where
  bad_headers bad_cookies bad_vars bad_body bad_files bad_args : ParseError
  -- `File` refuses an empty name; std::out_of_range of `DataBuffer`; std::length_error of `resize`.
  nameless_file out_of_range length_error : ParseError
  -- The fuel of a loop ran out.
  unfinished : ParseError

pub data Outcome {ℓ} (A : Type ℓ) : Type ℓ where
  ok : A → Outcome A
  err : ParseError → Outcome A

infixl 5 ◌>>=◌
abbrev pub ◌>>=◌ {ℓ κ} : {A : Type ℓ} {B : Type κ} → Outcome A → (A → Outcome B) → Outcome B
ok a >>= f = f a
err e >>= f = err e

-- The position behind what was read, and the number; a number that is cut off has high bytes 0.
unfoldable pub parse_int : DataBuffer → ℕ → ℕ × ℕ
parse_int b pos = let x = read b pos 8 in (pos + length x, le_value x)

-- What one entry of a group is read to, with the position behind it.
pub record Read {ℓ} (A : Type ℓ) : Type ℓ where
  pub pos : ℕ
  pub value : A

-- The loop `while (pos < pos_end)` that the functions below share: `item` reads an entry, and `add`
-- is what is done with it.
module _ {A S : Type 0} (item : DataBuffer → ℕ → Outcome (Read A)) (add : A → S → S) where
  unfoldable pub field_loop : ℕ → DataBuffer → ℕ → ℕ → S → Outcome (Read S)
  field_loop zero b pos pos_end s = err unfinished
  field_loop (suc fuel) b pos pos_end s =
      let rest = item b pos >>= λ e. field_loop fuel b e.pos pos_end (add e.value s) in
      if ltb pos pos_end then rest else ok (record { pos = pos; value = s })

  -- The size in front of the entries, its check, and the loop.
  unfoldable pub parse_group : ParseError → DataBuffer → ℕ → S → Outcome (Read S)
  parse_group bad b pos s =
      let (p, field_size) = parse_int b pos in
      let pos_end = (p + field_size) % 2 ^ 64 in
      if ltb (size b) pos_end then err bad else field_loop (suc (size b)) b p pos_end s

-- DataBuffer(buffer, begin, end) throws.
abbrev pub or_out_of_range : Option DataBuffer → Outcome DataBuffer
or_out_of_range none = err out_of_range
or_out_of_range (some b) = ok b

-- File(filename, type, content)
abbrev pub make_file : Bytes → Bytes → Bytes → DataBuffer → ℕ → Outcome (Read File)
make_file name remote_name type content pos =
    if equal remote_name []
    then err nameless_file
    else ok (record {
      pos = pos;
      value = record { name = name; remote_name = remote_name; type = type; content = content };
    })

-- files_.insert(std::make_pair(name, file))
abbrev pub insert_file : File → List File → List File
insert_file = insert_by less_string (λ f. f.name)

-- The line breaks and the zero byte for which `parseArgs` encodes a value.
abbrev pub is_break : ℕ → Bool
is_break c = c == 13 || c == 10 || c == 0

abbrev pub has_break : Bytes → Bool
has_break [] = false
has_break (c ∷ v) = is_break c || has_break v

unfoldable pub restored_value : Bytes → Bytes
restored_value v = if has_break v then urlencode v else v

-- args_.push_back(…)
unfoldable pub push_arg : NamedValue → List NamedValue → List NamedValue
push_arg e v = v ++ entry e.name (restored_value e.value) ∷ []

-- The body is a window on the buffer that is read.
unfoldable pub parse_body : DataBuffer → ℕ → Outcome (Read DataBuffer)
parse_body b pos =
    let (p, field_size) = parse_int b pos in
    let pos_end = (p + field_size) % 2 ^ 64 in
    if ltb (size b) pos_end
    then err bad_body
    else or_out_of_range (view b ((p + b.begin) % 2 ^ 64) ((pos_end + b.begin) % 2 ^ 64))
      >>= λ body. ok (record { pos = pos_end; value = body })

-- `max_string` is std::string::max_size().
module _ (max_string : ℕ) where
  unfoldable pub parse_string : DataBuffer → ℕ → Outcome (Read Bytes)
  parse_string b pos =
      let (p, len) = parse_int b pos in
      let x = read b p len in
      if ltb max_string len
      then err length_error
      else ok (record { pos = p + length x; value = x ++ replicate (len - length x) 0 })

  unfoldable pub parse_pair : DataBuffer → ℕ → Outcome (Read NamedValue)
  parse_pair b pos = do
    name ← parse_string b pos
    value ← parse_string b name.pos
    ok (record { pos = value.pos; value = entry name.value value.value })

  unfoldable pub parse_headers : DataBuffer → ℕ → Map → Outcome (Read Map)
  parse_headers = parse_group parse_pair (insert less_ci) bad_headers

  unfoldable pub parse_cookies : DataBuffer → ℕ → Map → Outcome (Read Map)
  parse_cookies = parse_group parse_pair (insert less_string) bad_cookies

  unfoldable pub parse_vars : DataBuffer → ℕ → Map → Outcome (Read Map)
  parse_vars = parse_group parse_pair (insert less_string) bad_vars

  unfoldable pub parse_file : DataBuffer → DataBuffer → ℕ → Outcome (Read File)
  parse_file body b pos = do
    name ← parse_string b pos
    remote_name ← parse_string b name.pos
    type ← parse_string b remote_name.pos
    let (p, offset) = parse_int b type.pos
    let (q, len) = parse_int b p
    content ←
        or_out_of_range
          (view body ((offset + body.begin) % 2 ^ 64) ((offset + len + body.begin) % 2 ^ 64))
    make_file name.value remote_name.value type.value content q

  unfoldable pub parse_files : DataBuffer → DataBuffer → ℕ → List File → Outcome (Read (List File))
  parse_files body = parse_group (parse_file body) insert_file bad_files

  unfoldable pub parse_args : DataBuffer → ℕ → List NamedValue → Outcome (Read (List NamedValue))
  parse_args = parse_group parse_pair push_arg bad_args

  unfoldable pub parse : Request → DataBuffer → Outcome Request
  parse r b = do
    headers ← parse_headers b 0 r.headers
    cookies ← parse_cookies b headers.pos r.cookies
    vars ← parse_vars b cookies.pos r.vars
    body ← parse_body b vars.pos
    files ← parse_files body.value b body.pos r.files
    args ← parse_args b files.pos r.args
    ok (record {
      headers = headers.value;
      cookies = cookies.value;
      vars = vars.value;
      body = body.value;
      files = files.value;
      args = args.value;
    })

  unfoldable pub restore : Request → DataBuffer → Outcome Request
  restore r b = parse (record r { args = []; vars = []; files = []; cookies = []; headers = [] }) b
