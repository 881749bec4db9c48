-- ===== src/DataBuffer/Search.antt =====
-- The part of library/data_buffer.cpp that searches and cuts buffers, over the storage of
-- library/string_buffer.cpp. `none` is the exception std::out_of_range. A buffer with no storage is
-- an empty one here: each operation that a multipart body needs treats the two alike.
use Prim.Native.Nat.{max}
use mathlib.Core.List.{reverse}
use fastcgi_container.Base.{
  ℕ, ◌+◌, ◌-◌, Bool, true, false, ◌&&◌, ◌||◌, Option, none, some, [], ◌∷◌, ltb, leb, ◌==◌,
  if◌then◌else◌, length, take, drop, Bytes, sub64, to_lower,
}
use fastcgi_container.Range.{skip_space, trim}
use fastcgi_container.Range
use fastcgi_container.DataBuffer.{DataBuffer, size, create, is_inside}

-- DataBuffer()
abbrev pub nil : DataBuffer
nil = create []

abbrev pub empty : DataBuffer → Bool
empty b = b.begin == b.end

-- The bytes from one position of a storage to another.
abbrev pub between_of : Bytes → ℕ → ℕ → Bytes
between_of st begin end = take (end - begin) (drop begin st)

-- StringBuffer::find, for a `begin` that is not behind `end`, as `checkIndex` makes sure.
unfoldable pub string_find : Bytes → ℕ → ℕ → Bytes → ℕ
unfolding Range.find
string_find st begin end sub =
    if ltb (end - begin) (length sub) then end else begin + Range.find (between_of st begin end) sub

-- checkIndex, as whether it returns
abbrev pub check_index : ℕ → DataBuffer → Bool
check_index index b =
    (index == 0 && (b.begin == 0 && b.end == 0)) || (leb b.begin index && ltb index b.end)

-- `none` too where the search would read behind the storage.
unfoldable pub find : ℕ → Bytes → DataBuffer → Option ℕ
unfolding string_find
find pos sub b =
    if check_index pos b && is_inside b
    then some (string_find b.storage pos b.end sub - b.begin)
    else none

-- The first element of a part of the storage; std::vector::at throws where there is none.
abbrev pub first_of : Bytes → Option ℕ
first_of [] = none
first_of (c ∷ r) = some c

unfoldable pub at : ℕ → DataBuffer → Option ℕ
at pos b = if check_index (b.begin + pos) b then first_of (drop (b.begin + pos) b.storage) else none

unfoldable pub trim_buffer : DataBuffer → DataBuffer
trim_buffer b =
    let window = between_of b.storage b.begin b.end in
    let from = b.begin + (length window - length (skip_space window)) in
    if empty b then b else record b { begin = from; end = from + length (trim window) }

unfoldable pub trimn : ℕ → ℕ → DataBuffer → DataBuffer
trimn front back b =
    if empty b
    then b
    else if leb b.end (b.begin + front)
    then record b { begin = b.end }
    else record b { begin = b.begin + front; end = max (sub64 b.end back) (b.begin + front) }

pub record Cut : Type 0 where
  pub first : DataBuffer
  pub second : DataBuffer
  pub found : Bool

-- Where nothing is found.
abbrev pub uncut : DataBuffer → Cut
uncut b = record { first = b; second = record b { begin = 0; end = 0 }; found = false }

abbrev pub cut_at : Bytes → DataBuffer → ℕ → Cut
cut_at delim b res = if res == size b then uncut b else record {
  first = record b { end = b.begin + res };
  second = record b { begin = b.begin + res + length delim };
  found = true;
}

-- Both overloads of `split`; that of a character takes it for a text of one byte.
unfoldable pub split : Bytes → DataBuffer → Option Cut
unfolding find
split delim b =
    if empty b
    then some (uncut b)
    else elim (find b.begin delim b) [ none ↦ none | some res ↦ some (cut_at delim b res) ]

-- The loops of startsWith and startsWithCI from the position `i`; `key` is `tolower` in the second.
unfoldable pub starts_from : (ℕ → ℕ) → Bytes → ℕ → DataBuffer → Option Bool
unfolding at
starts_from key [] i b = some true
starts_from key (c ∷ prefix) i b = elim (at i b) [
  | none ↦ none
  | some d ↦ elim (key c == key d) [ true ↦ starts_from key prefix (i + 1) b | false ↦ some false ]
]

unfoldable pub starts_with_by : (ℕ → ℕ) → Bytes → DataBuffer → Option Bool
unfolding starts_from
starts_with_by key prefix b =
    if ltb (size b) (length prefix) then some false else starts_from key prefix 0 b

abbrev pub starts_with : Bytes → DataBuffer → Option Bool
starts_with = starts_with_by (λ c. c)

abbrev pub starts_with_ci : Bytes → DataBuffer → Option Bool
starts_with_ci = starts_with_by to_lower

-- The loops of endsWith and endsWithCI, on the suffix from behind; `i` counts from the end.
unfoldable pub ends_from : (ℕ → ℕ) → Bytes → ℕ → DataBuffer → Option Bool
unfolding at
ends_from key [] i b = some true
ends_from key (c ∷ suffix) i b = elim (at (size b - i) b) [
  | none ↦ none
  | some d ↦ elim (key c == key d) [ true ↦ ends_from key suffix (i + 1) b | false ↦ some false ]
]

unfoldable pub ends_with_by : (ℕ → ℕ) → Bytes → DataBuffer → Option Bool
unfolding ends_from
ends_with_by key suffix b =
    if ltb (size b) (length suffix) then some false else ends_from key (reverse suffix) 1 b

abbrev pub ends_with : Bytes → DataBuffer → Option Bool
ends_with = ends_with_by (λ c. c)
