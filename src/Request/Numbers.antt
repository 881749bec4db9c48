-- ===== src/Request/Numbers.antt =====
-- The accessors of `Request` that read a number, through std::stoi.
use fastcgi_container.Base.{
  ℕ, ◌+◌, ◌-◌, ◌*◌, ◌%◌, ◌^◌, Bool, true, false, Option, none, some, [], ◌∷◌, ltb, leb, ◌==◌,
  if◌then◌else◌, Bytes, codes, equal, is_digit,
}
use fastcgi_container.Map.{get, less_ci, less_string}
use fastcgi_container.Range.{skip_space}
use fastcgi_container.Request.State.{Request}

-- What std::stoi gives: an `int`, as its sign and its magnitude, or an exception.
pub data Stoi : Type 0 where
  number : Bool → ℕ → Stoi
  invalid_argument out_of_range : Stoi

-- The number in the digits in front.
abbrev pub digits_value : Bytes → ℕ → ℕ
digits_value [] n = n
digits_value (c ∷ s) n =
    let rest = digits_value s (n * 10 + (c - b'0')) in if is_digit c then rest else n

abbrev pub starts_digit : Bytes → Bool
starts_digit [] = false
starts_digit (c ∷ s) = is_digit c

abbrev pub in_range : Bool → ℕ → Stoi
in_range true n = if leb n (2 ^ 31) then number true n else out_of_range
in_range false n = if ltb n (2 ^ 31) then number false n else out_of_range

abbrev pub digits : Bool → Bytes → Stoi
digits negative s =
    if starts_digit s then in_range negative (digits_value s 0) else invalid_argument

abbrev pub signed : Bytes → Stoi
signed [] = invalid_argument
signed (c ∷ s) =
    if c == b'-' then digits true s else if c == b'+' then digits false s else digits false (c ∷ s)

unfoldable pub stoi : Bytes → Stoi
unfolding skip_space
stoi s = signed (skip_space s)

-- An `int` as an unsigned number of `bits` bits.
abbrev pub unsigned : ℕ → Bool → ℕ → ℕ
unsigned bits true n = (2 ^ bits - n % 2 ^ bits) % 2 ^ bits
unsigned bits false n = n % 2 ^ bits

abbrev pub port_of : Stoi → Option ℕ
port_of (number negative n) = some (unsigned 16 negative n)
port_of invalid_argument = none
port_of out_of_range = none

-- `none` is an exception.
unfoldable pub server_port : Request → Option ℕ
unfolding stoi get
server_port r =
    let res = get less_string r.vars (codes "SERVER_PORT") in
    if equal res [] then some 80 else port_of (stoi res)

abbrev pub length_of : Stoi → Option ℕ
length_of (number negative n) = some (unsigned 64 negative n)
length_of invalid_argument = some 0
length_of out_of_range = none

-- The length as the 64 bits that `attach` takes; `none` is the exception that is not caught.
unfoldable pub content_length : Request → Option ℕ
unfolding stoi get
content_length r =
    let header = get less_ci r.headers (codes "content-length") in
    if equal header [] then some 0 else length_of (stoi header)
