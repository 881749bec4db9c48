-- ===== src/Page/Token.antt =====
-- `PageReader::nextToken` of page-compiler/page_reader.cpp. The stream is the bytes to come.
use fastcgi_container.Base.{
  Bool, false, [], ◌∷◌, ◌++◌, ℕ, ◌||◌, ◌&&◌, ◌==◌, if◌then◌else◌, Bytes, drop, codes,
}

-- `istr.peek() == c`
abbrev pub starts : ℕ → Bytes → Bool
starts c [] = false
starts c (d ∷ r) = d == c

-- Behind `<%!` and `<%-`, whose last byte may be doubled.
abbrev pub doubled : ℕ → Bytes → Bytes × Bytes
doubled c r = if starts c r then (codes "<%" ++ c ∷ c ∷ [], drop 1 r) else (codes "<%" ++ c ∷ [], r)

-- Behind `<%`.
abbrev pub opening : Bytes → Bytes × Bytes
opening [] = (codes "<%", [])
opening (c ∷ r) =
    if c == b'%' || c == b'@' || c == b'='
    then (codes "<%" ++ c ∷ [], r)
    else if c == b'!'
    then doubled b'!' r
    else if c == b'-'
    then doubled b'-' r
    else (codes "<%", c ∷ r)

-- The token and what is left; no token at the end of the stream.
unfoldable pub next_token : Bytes → Bytes × Bytes
next_token [] = ([], [])
next_token (c ∷ r) =
    if c == b'<' && starts b'%' r
    then opening (drop 1 r)
    else if c == b'%' && starts b'>' r
    then (codes "%>", drop 1 r)
    else (c ∷ [], r)
