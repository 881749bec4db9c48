-- ===== src/Cookie.antt =====
-- library/cookie.cpp: `Cookie`, which owns a `CookieData`. A copy is a value of its own, so the two
-- classes are one record. `expires` counts seconds from 1970 and is not negative.
use fastcgi_container.Base.{
  ℕ, ◌-◌, ◌^◌, Bool, false, List, [], ◌∷◌, ◌++◌, ◌==◌, if◌then◌else◌, Bytes, codes,
}
use fastcgi_container.Map.{less_string}
use fastcgi_container.Url.{urlencode}

pub record Cookie : Type 0 where
  pub secure : Bool
  pub http_only : Bool
  pub encode : Bool
  pub expires : ℕ
  pub name : Bytes
  pub value : Bytes
  pub path : Bytes
  pub domain : Bytes

unfoldable pub new_cookie : Bytes → Bytes → Cookie
new_cookie name value = record {
  secure = false;
  http_only = false;
  encode = false;
  expires = 0;
  name = name;
  value = value;
  path = codes "/";
  domain = [];
}

-- MAX_EXPIRES_TIME
abbrev pub max_expires_time : ℕ
max_expires_time = 2 ^ 31 - 1

unfoldable pub is_permanent : Cookie → Bool
is_permanent c = c.expires == max_expires_time

unfoldable pub set_permanent : Bool → Cookie → Cookie
set_permanent value c = record c { expires = if value then max_expires_time else 0 }

-- An attribute of the text, if its value is there.
abbrev pub attribute : Bytes → Bytes → Bytes
attribute label [] = []
attribute label (c ∷ v) = label ++ c ∷ v

abbrev pub flag : Bytes → Bool → Bytes
flag label set = if set then label else []

-- The text of the value.
unfoldable pub cookie_value : Cookie → Bytes
unfolding urlencode
cookie_value c = if c.encode then urlencode c.value else c.value

-- `format_date` is HttpDateUtils::format, which calls `gmtime_r` and `strftime`.
module _ (format_date : ℕ → Bytes) where
  -- What stands behind the name and the value.
  unfoldable pub attributes : Cookie → Bytes
  attributes c =
      attribute (codes "; domain=") c.domain
      ++ (attribute (codes "; path=") c.path
          ++ ((if c.expires == 0 then [] else codes "; expires=" ++ format_date c.expires)
              ++ (flag (codes "; secure") c.secure ++ flag (codes "; HttpOnly") c.http_only)))

  unfoldable pub to_string : Cookie → Bytes
  unfolding attributes cookie_value
  to_string c = c.name ++ b'=' ∷ (cookie_value c ++ attributes c)

-- The order of cookies: by name.
unfoldable pub cookie_less : Cookie → Cookie → Bool
cookie_less a b = less_string a.name b.name

-- out_cookies_.insert(cookie), and the assignment to the cookie that is there already.
unfoldable pub put_cookie : Cookie → List Cookie → List Cookie
unfolding cookie_less
put_cookie c [] = c ∷ []
put_cookie c (d ∷ cs) =
    let rest = put_cookie c cs in
    if cookie_less c d then c ∷ d ∷ cs else if cookie_less d c then d ∷ rest else c ∷ cs
