-- ===== src/DataBuffer.antt =====
-- `DataBuffer` of library/data_buffer.cpp over the storage of library/string_buffer.cpp.
--
-- A buffer is a window, `begin` to `end`, on a storage that its copies share. The storage is a
-- component here: an operation that writes returns the buffer with the new storage, and no two
-- buffers with one storage are alive where it is written. A buffer with no storage is not modelled
-- here.
pub mod Holds
pub mod Search
pub mod Shows
pub mod Cuts
pub mod Affixes
use Prim.Native.Nat.{min, max}
use fastcgi_container.Base.{
  ℕ, zero, suc, ◌+◌, ◌-◌, ◌*◌, ◌/◌, ◌%◌, ◌^◌, ◌≤◌, ◌<◌, ◌≡◌, refl, sym, ap, ◌∙◌, ◌≢◌, ◌↔◌, ◌⊎◌, inl,
  inr, Bool, true, false, not, ◌&&◌, ◌||◌, Option, none, some, List, [], ◌∷◌, ◌++◌, append-nil,
  append_assoc, arith, ltb, leb, ◌==◌, if◌then◌else◌, ==_iff, ==_refl, Bool-cases, Option-cases,
  length, take, drop, length-append, length-take, length-drop, take-append-drop, take-append,
  drop-append, replicate, length-replicate, take_front, drop_front, take_all, all, All, Bytes,
  IsBytes, codes, equal, equal_iff, lex_less, char_key, le_bytes, le_value, sub64,
  le_value-le_bytes, sub64_le, is_space, is_alnum, is_upper, is_lower, is_digit, between, to_upper,
  to_lower,
}

pub record DataBuffer : Type 0 where
  pub storage : Bytes
  pub begin : ℕ
  pub end : ℕ

pub data BufferError : Type 0 where
  out_of_range : BufferError

-- std::vector<char>::resize.
abbrev pub resize_vector : ℕ → Bytes → Bytes
resize_vector n st = take n st ++ replicate (n - length st) 0

-- memcpy to the storage at `pos`.
abbrev pub copy_to : Bytes → ℕ → Bytes → Bytes
copy_to st pos bytes = take pos st ++ (bytes ++ drop (pos + length bytes) st)

-- memcpy from the storage.
abbrev pub copy_from : Bytes → ℕ → ℕ → Bytes
copy_from st pos len = take len (drop pos st)

-- DataBuffer::create(data, size)
unfoldable pub create : Bytes → DataBuffer
create bytes = record { storage = bytes; begin = 0; end = length bytes }

-- DataBuffer(buffer, begin, end), which does not compare `begin` with `end`; `none` is the exception
-- std::out_of_range.
unfoldable pub view : DataBuffer → ℕ → ℕ → Option DataBuffer
view b begin end =
    if ltb (length b.storage) end
    then none
    else some (record { storage = b.storage; begin = begin; end = end })

-- The difference is one of 64-bit numbers.
unfoldable pub size : DataBuffer → ℕ
size b = if leb b.begin b.end then b.end - b.begin else b.end + 2 ^ 64 - b.begin

unfoldable pub resize : ℕ → DataBuffer → DataBuffer
resize n b = record {
  storage = resize_vector (b.begin + n) b.storage;
  begin = b.begin;
  end = b.begin + n;
}

-- The bytes that `read` copies out; their number is what it returns.
unfoldable pub read : DataBuffer → ℕ → ℕ → Bytes
read b pos len =
    if leb (size b) pos then [] else copy_from b.storage (pos + b.begin) (min (size b - pos) len)

-- `write` returns the number of bytes written beside the buffer.
unfoldable pub write : DataBuffer → ℕ → Bytes → DataBuffer × ℕ
write b pos bytes =
    if leb (size b) pos
    then (b, 0)
    else let n = min (size b - pos) (length bytes) in
      (record b { storage = copy_to b.storage (pos + b.begin) (take n bytes) }, n)

-- The bytes of a window on its storage.
unfoldable pub contents : DataBuffer → Bytes
contents b = take (b.end - b.begin) (drop b.begin b.storage)

-- The segments that the iterator visits in a window on its storage; a StringBuffer's is the rest of
-- the storage, cut at `end`.
unfoldable pub chunks : DataBuffer → List Bytes
unfolding contents
chunks b = if b.begin == b.end then [] else contents b ∷ []

abbrev pub is_inside : DataBuffer → Bool
is_inside b = leb b.begin b.end && leb b.end (length b.storage)

-- The same for any positions: `none` where they are no window on the storage, and the iterator reads
-- behind the storage or never gets to `end`.
unfoldable pub segments : DataBuffer → Option (List Bytes)
unfolding chunks
segments b = if b.begin == b.end || is_inside b then some (chunks b) else none

abbrev pub appended : List Bytes → Bytes
appended [] = []
appended (c ∷ cs) = c ++ appended cs

-- `toString`. Where `begin` lies behind `end`, `reserve` throws for the size; that is `none` too.
unfoldable pub to_string : DataBuffer → Option Bytes
unfolding segments
to_string b = elim (segments b) [ none ↦ none | some cs ↦ some (appended cs) ]
