-- ===== src/FilePath.antt =====
-- The functions on paths of page-compiler/utils.cpp, which library/util.cpp has too, as members of
-- FileSystemUtils.
pub mod Parts
use fastcgi_container.Base.{
  ℕ, ◌-◌, Bool, false, [], ◌∷◌, ◌||◌, ◌==◌, if◌then◌else◌, Bytes, length, take,
}

-- MatchPathSeparator
abbrev pub is_separator : ℕ → Bool
is_separator c = c == b'\\' || c == b'/'

-- Whether a byte passes the test.
abbrev pub any : (ℕ → Bool) → Bytes → Bool
any test [] = false
any test (c ∷ r) = test c || any test r

-- What stands behind the last byte that passes the test; all, if none does.
abbrev pub behind_last : (ℕ → Bool) → Bytes → Bytes
behind_last test [] = []
behind_last test (c ∷ r) = if any test r then behind_last test r else if test c then r else c ∷ r

unfoldable pub basename : Bytes → Bytes
basename path = behind_last is_separator path

-- `filename` up to its last dot.
unfoldable pub remove_extension : Bytes → Bytes
remove_extension filename =
    if any (λ c. c == b'.') filename
    then take (length filename - length (behind_last (λ c. c == b'.') filename) - 1) filename
    else filename

unfoldable pub path_to_file : Bytes → Bytes
unfolding basename
path_to_file path = take (length path - length (basename path)) path
