-- ===== src/Request/Lookups.antt =====
-- What a handler reads from a request: the accessors of `Request` in library/request.cpp, on the
-- fields of Request/State. A name that is not there gives the empty string.
use mathlib.Core.List.{map}
use fastcgi_container.Base.{
  ℕ, Bool, true, false, ◌||◌, Option, none, some, List, [], ◌∷◌, ◌++◌, if◌then◌else◌, length, Bytes,
  codes, equal,
}
use fastcgi_container.DataBuffer.{DataBuffer, view}
use fastcgi_container.Map.{Map, get, has, insert_by, less_string, less_ci}
use fastcgi_container.Request.State.{Request, File}
use fastcgi_container.Url.{NamedValue}

abbrev pub env : Bytes → Request → Bytes
env name r = get less_string r.vars name

abbrev pub header : Bytes → Request → Bytes
header name r = get less_ci r.headers name

unfoldable pub env_variable : Bytes → Request → Bytes
unfolding get
env_variable name r = env name r

unfoldable pub role : Request → Bytes
unfolding get
role r = env (codes "FCGI_ROLE") r

unfoldable pub host : Request → Bytes
unfolding get
host r = header (codes "host") r

unfoldable pub server_addr : Request → Bytes
unfolding get
server_addr r = env (codes "SERVER_ADDR") r

unfoldable pub path_info : Request → Bytes
unfolding get
path_info r = env (codes "PATH_INFO") r

unfoldable pub path_translated : Request → Bytes
unfolding get
path_translated r = env (codes "PATH_TRANSLATED") r

unfoldable pub script_name : Request → Bytes
unfolding get
script_name r = env (codes "SCRIPT_NAME") r

unfoldable pub script_filename : Request → Bytes
unfolding get
script_filename r = env (codes "SCRIPT_FILENAME") r

unfoldable pub document_root : Request → Bytes
unfolding get
document_root r = env (codes "DOCUMENT_ROOT") r

unfoldable pub remote_user : Request → Bytes
unfolding get
remote_user r = env (codes "REMOTE_USER") r

unfoldable pub remote_password : Request → Bytes
unfolding get
remote_password r = env (codes "REMOTE_PASSWD") r

unfoldable pub remote_addr : Request → Bytes
unfolding get
remote_addr r = env (codes "REMOTE_ADDR") r

unfoldable pub query_string : Request → Bytes
unfolding get
query_string r = env (codes "QUERY_STRING") r

unfoldable pub request_method : Request → Bytes
unfolding get
request_method r = env (codes "REQUEST_METHOD") r

unfoldable pub request_id : Request → Bytes
unfolding get
request_id r = env (codes "REQUEST_ID") r

unfoldable pub content_type : Request → Bytes
unfolding get
content_type r = header (codes "content-type") r

unfoldable pub uri : Request → Bytes
unfolding script_name path_info query_string
uri r =
    let res = script_name r ++ path_info r in
    if equal (query_string r) [] then res else res ++ b'?' ∷ query_string r

unfoldable pub is_secure : Request → Bool
unfolding get
is_secure r = equal (codes "on") (env (codes "HTTPS") r)

unfoldable pub url : Request → Bytes
unfolding is_secure host uri
url r = (if is_secure r then codes "https://" else codes "http://") ++ (host r ++ uri r)

unfoldable pub count_args : Request → ℕ
count_args r = length r.args

-- The loop of `hasArg`.
abbrev pub any_named : Bytes → List NamedValue → Bool
any_named name [] = false
any_named name (a ∷ args) = equal a.name name || any_named name args

unfoldable pub has_arg : Bytes → Request → Bool
has_arg name r = any_named name r.args

-- The loop of the first `getArg`.
abbrev pub first_named : Bytes → List NamedValue → Bytes
first_named name [] = []
first_named name (a ∷ args) = if equal a.name name then a.value else first_named name args

unfoldable pub get_arg : Bytes → Request → Bytes
get_arg name r = first_named name r.args

-- The loop of the second `getArg`.
abbrev pub all_named : Bytes → List NamedValue → List Bytes
all_named name [] = []
all_named name (a ∷ args) =
    if equal a.name name then a.value ∷ all_named name args else all_named name args

unfoldable pub get_args : Bytes → Request → List Bytes
get_args name r = all_named name r.args

-- The names in a std::set.
abbrev pub name_set : List NamedValue → List Bytes → List Bytes
name_set [] names = names
name_set (a ∷ args) names = name_set args (insert_by less_string (λ n. n) a.name names)

unfoldable pub arg_names : Request → List Bytes
unfolding insert_by
arg_names r = name_set r.args []

unfoldable pub count_headers : Request → ℕ
count_headers r = length r.headers

unfoldable pub has_header : Bytes → Request → Bool
unfolding has
has_header name r = has less_ci r.headers name

unfoldable pub get_header : Bytes → Request → Bytes
unfolding get
get_header name r = header name r

-- Parser::keys
abbrev pub keys : Map → List Bytes
keys m = map (λ e. e.name) m

unfoldable pub header_names : Request → List Bytes
header_names r = keys r.headers

unfoldable pub count_cookie : Request → ℕ
count_cookie r = length r.cookies

unfoldable pub has_cookie : Bytes → Request → Bool
unfolding has
has_cookie name r = has less_string r.cookies name

unfoldable pub get_cookie : Bytes → Request → Bytes
unfolding get
get_cookie name r = get less_string r.cookies name

unfoldable pub cookie_names : Request → List Bytes
cookie_names r = keys r.cookies

unfoldable pub count_remote_files : Request → ℕ
count_remote_files r = length r.files

-- files_.find(name)
abbrev pub find_file : Bytes → List File → Option File
find_file name [] = none
find_file name (f ∷ fs) =
    let rest = find_file name fs in
    if less_string name f.name then none else if less_string f.name name then rest else some f

unfoldable pub has_remote_file : Bytes → Request → Bool
has_remote_file name r = elim (find_file name r.files) [ none ↦ false | some f ↦ true ]

unfoldable pub remote_files : Request → List Bytes
remote_files r = map (λ f. f.name) r.files

unfoldable pub remote_file_name : Bytes → Request → Bytes
remote_file_name name r = elim (find_file name r.files) [ none ↦ [] | some f ↦ f.remote_name ]

unfoldable pub remote_file_type : Bytes → Request → Bytes
remote_file_type name r = elim (find_file name r.files) [ none ↦ [] | some f ↦ f.type ]

-- A file that is not there is the empty window at the start of the body's storage.
unfoldable pub remote_file : Bytes → Request → Option DataBuffer
unfolding view
remote_file name r = elim (find_file name r.files) [
  | none ↦ view r.body 0 0
  | some f ↦ some f.content
]

unfoldable pub request_body : Request → DataBuffer
request_body r = r.body
