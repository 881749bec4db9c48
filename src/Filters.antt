-- ===== src/Filters.antt =====
-- library/request_filter.cpp: the tests that select requests for handlers, filters and constraints.
use fastcgi_container.Base.{
  ℕ, Bool, false, ◌&&◌, Option, none, some, [], ltb, if◌then◌else◌, length, drop, Bytes, codes,
  equal, decimal,
}
use fastcgi_container.Range.{starts_with}
use fastcgi_container.Request.Lookups.{
  script_name, server_addr, has_header, get_header, has_arg, get_arg,
}
use fastcgi_container.Request.Lookups
use fastcgi_container.Request.Numbers.{server_port}
use fastcgi_container.Request.State.{Request}

-- The classes below `RequestFilter`, each with its regular expression, which stands last.
pub data Filter : Type 0 where
  url : Bytes → Bytes → Filter
  host port address referer : Bytes → Filter
  param : Bytes → Bytes → Filter

-- `regex_match` is std::regex_match of a text, first, with an expression.
module _ (regex_match : Bytes → Bytes → Bool) where
  -- `RegexFilter::check`; an empty expression stands for `.*`.
  unfoldable pub check_regex : Bytes → Bytes → Bool
  check_regex regex value = regex_match value (if equal regex [] then codes ".*" else regex)

  -- `UrlFilter::checkUrl`. The prefix is found at position 0 where the text starts with it.
  unfoldable pub check_url : Bytes → Bytes → Bytes → Bool
  unfolding check_regex
  check_url prefix regex text =
      if ltb 0 (length prefix) && starts_with text prefix
      then check_regex regex (drop (length prefix) text)
      else check_regex regex text

  -- std::to_string of the port; `none` is the exception of `getServerPort`.
  abbrev pub check_port : Bytes → Option ℕ → Option Bool
  check_port regex none = none
  check_port regex (some p) = some (check_regex regex (decimal p))

  -- `check`; `none` is an exception.
  unfoldable pub check : Filter → Request → Option Bool
  unfolding check_url check_regex
  check (url prefix regex) r = some (check_url prefix regex (script_name r))
  check (host regex) r = some (check_regex regex (Lookups.host r))
  check (port regex) r = check_port regex (server_port r)
  check (address regex) r = some (check_regex regex (server_addr r))
  check (referer regex) r = some (
      if has_header (codes "Referer") r
      then check_regex regex (get_header (codes "Referer") r)
      else false)
  check (param name regex) r =
      some (if has_arg name r then check_regex regex (get_arg name r) else false)
