-- ===== src/Tests/Serving.antt =====
-- Runs of responses, tasks, authenticators and handler sets, and their theorems at concrete data.
use fastcgi_container.Base.{
  decimal, ℕ, zero, suc, ◌≡◌, refl, ◌⊎◌, Bool, true, false, ◌||◌, Option, none, some, List, [], ◌∷◌,
  ◌++◌, if◌then◌else◌, length, Bytes, codes, equal,
}
use fastcgi_container.Cookie.{new_cookie, to_string}
use fastcgi_container.Filters.{url, host}
use fastcgi_container.Handlers.{Description, find_uri_handler}
use fastcgi_container.Handlers.Found.{FirstOf, find_uri_handler-FirstOf}
use fastcgi_container.Map.{entry, get}
use fastcgi_container.Parser.Ends.{normalize_output-ends}
use fastcgi_container.Parser.OutputNames.{normalize_output_header_name}
use fastcgi_container.Request.Lookups.{get_arg, get_args, has_arg, url as request_url}
use fastcgi_container.Request.LookedUp.{first, is_some, arg_lookups}
use fastcgi_container.Request.State.{Request}
use fastcgi_container.RequestPool as Pool
use fastcgi_container.RequestPool.Chain.{nested, run_filters-nested}
use fastcgi_container.RequestPool.Answered.{IsAnswered, handle_task-IsAnswered}
use fastcgi_container.Parser.Status.{status_to_string}
use fastcgi_container.Response.{
  write, set_status, set_cookie, send_headers, header_block, Response, ok, new_response, attach,
  send_error, error_page, status_line, crlf, set_header, output_header,
}
use fastcgi_container.Response.Framed.{Framed, promised, nothing, run-Framed}
use fastcgi_container.Response.Headers.{output_header-set_header, send_error_output}
use fastcgi_container.Response.Late.{late, perform_sent}
use fastcgi_container.Response.Run.{
  Operation, setting_status, setting_header, setting_cookie, sending_error, writing, perform, run,
}
use fastcgi_container.Security.{
  is_anonymous, anonymous_subject, has_principal, Subject, set_principals,
}
use fastcgi_container.Security.Authenticator.{
  is_authenticated, is_authorized, set_request_subject, Client, Outcome, returned, thrown,
  unauthorized, forbidden, applies, Constraint, get_subject, is_required, do_filter,
}
use fastcgi_container.Security.Guard.{authenticated, do_filter_guards, do_filter_clears}
use fastcgi_container.Security.Principals.{IsExtended, set_principals-IsExtended}

-- A formatter of dates with one date, and a hash that is the length.
abbrev date : ℕ → Bytes
date seconds = codes "Thu, 01 Jan 1970 00:00:00 GMT"

abbrev hash : Bytes → ℕ
hash s = length s

-- Matching where an expression stands for itself, or for every text.
abbrev matches : Bytes → Bytes → Bool
matches text regex = equal regex (codes ".*") || equal text regex

abbrev asked : Request
asked = record {
  headers = entry (codes "host") (codes "h") ∷ [];
  cookies = [];
  vars =
      entry (codes "QUERY_STRING") (codes "a=1")
      ∷ entry (codes "REQUEST_METHOD") (codes "GET")
      ∷ entry (codes "SCRIPT_NAME") (codes "/app/x")
      ∷ [];
  body = record { storage = []; begin = 0; end = 0 };
  files = [];
  args = entry (codes "a") (codes "1") ∷ entry (codes "b") [] ∷ entry (codes "a") (codes "2") ∷ [];
}

full_url : request_url asked ≡ codes "http://h/app/x?a=1"
unfolding request_url
full_url = refl

arg_lookups_example :
    (get_arg (codes "a") asked ≡ first (get_args (codes "a") asked))
    × (has_arg (codes "a") asked ≡ is_some (get_args (codes "a") asked))
arg_lookups_example = arg_lookups (codes "a") asked

fresh : Response
unfolding attach new_response
fresh = attach new_response

-- Headers, a body, and what comes too late.
abbrev calls : List Operation
calls =
    setting_status 404
    ∷ setting_header (codes "x-powered-by") (codes "me")
    ∷ setting_cookie (new_cookie (codes "id") (codes "7"))
    ∷ writing (codes "gone")
    ∷ setting_status 200
    ∷ sending_error 500
    ∷ []

written :
    (run date asked calls fresh).output
    ≡ codes "Status: 404 Not found\r\nX-Powered-By: me\r\nSet-Cookie: id=7; path=/\r\n\r\ngone"
unfolding run perform fresh set_status set_header set_cookie new_cookie to_string write send_headers
    decimal status_to_string header_block send_error
written = refl

run-Framed_example :
    Framed date (promised asked calls nothing) (run date asked calls (attach new_response))
run-Framed_example = run-Framed date asked calls

promised_bytes : (promised asked calls nothing).body ≡ codes "gone"
unfolding get
promised_bytes = refl

abbrev over : Response
over = record {
  headers_sent = true;
  status = 200;
  attached = true;
  out_headers = [];
  out_cookies = [];
  output = codes "x";
}

perform_sent_example :
    perform date asked (setting_status 500) over ≡ late asked (setting_status 500) over
perform_sent_example = perform_sent date asked (setting_status 500) over refl

abbrev open_response : Response
open_response = record over { headers_sent = false; output = [] }

normalize_output-ends_example : (q : Bytes) × (normalize_output_header_name (codes "x-y") ≡ some q)
normalize_output-ends_example = normalize_output-ends (codes "x-y")

abbrev stored : Response
stored = record open_response { out_headers = entry (codes "X-Y") (codes "1") ∷ [] }

normalized : normalize_output_header_name (codes "x-y") ≡ some (codes "X-Y")
unfolding normalize_output_header_name
normalized = refl

set_stored : set_header (codes "x-y") (codes "1") open_response ≡ ok stored
unfolding set_header
set_stored = refl

output_header-set_header_example : output_header (codes "x-Y") stored ≡ codes "1"
output_header-set_header_example =
    output_header-set_header (codes "x-y") (codes "X-Y") (codes "x-Y") (codes "1") open_response
      stored normalized refl set_stored

send_error_output_example :
    (q : Response) × (send_error date 404 open_response ≡ ok q)
    × (q.headers_sent ≡ true)
    × (q.output
        ≡ codes "Content-type: text/html"
          ++ (crlf
              ++ (codes "Status: " ++ (status_line 404 ++ (crlf ++ (crlf ++ error_page 404))))))
send_error_output_example = send_error_output date 404 open_response refl refl refl

-- A handler that writes, one that throws, and a filter around them.
abbrev component : Pool.Component → Pool.Handler
component zero s = Pool.done (record s { text = s.text ++ codes "hi" })
component (suc n) s = Pool.raised (Pool.http_exception 403) s

abbrev greet : Pool.Handler
greet = component 0

abbrev bracket : Pool.Filter
bracket next s =
    Pool.then_run (λ t. Pool.done (record t { text = t.text ++ codes "]" }))
      (next (record s { text = s.text ++ codes "[" }))

abbrev state : List Pool.Component → Pool.State
state hs = record {
  request = asked;
  response = open_response;
  processed = false;
  text = [];
  handlers = hs;
}

-- A task whose handlers are looked for when the filters have run, and not found.
abbrev task : Pool.Task
task = record {
  filters = bracket ∷ bracket ∷ [];
  future_handlers = some (λ s. Pool.found_handlers none);
  dispatches = false;
  elapsed = 9;
}

abbrev output_of : Pool.Finish → Bytes
output_of (Pool.finished s) = s.response.output
output_of _ = []

greeted :
    output_of (Pool.handle_task date 1000 component 5 task (state (0 ∷ [])))
    ≡ codes "Status: 200 OK\r\n\r\n[[hi]]"
unfolding Pool.handle_task write send_headers decimal status_to_string
greeted = refl

refused :
    output_of (Pool.handle_task date 1000 component 5 task (state (1 ∷ [])))
    ≡ codes
        "Content-type: text/html\r\nStatus: 403 Forbidden\r\n\r\n<html><body><h1>403 Forbidden</h1></body></html>"
unfolding Pool.handle_task send_error send_headers decimal status_to_string
refused = refl

run_filters-nested_example :
    Pool.run_filters (bracket ∷ bracket ∷ []) greet ≡ nested (bracket ∷ bracket ∷ []) greet
run_filters-nested_example = run_filters-nested (bracket ∷ bracket ∷ []) greet

handle_task-IsAnswered_example :
    IsAnswered date 1000 (Pool.handle_task date 1000 component 5 task (state (1 ∷ [])))
handle_task-IsAnswered_example = handle_task-IsAnswered date 1000 component 5 task (state (1 ∷ []))

abbrev admin : Constraint
admin = record { regex = codes "/x"; url_prefix = codes "/app"; role = codes "admin" }

abbrev admins : List Constraint
admins = admin ∷ []

abbrev person : Bytes → Subject
person name = record { principals = record { name = name } ∷ []; read_only = false }

abbrev client : Option Subject → Client
client s = record {
  subject = s;
  has_session = false;
  session_subject = none;
  id_changes = 0;
  processed = false;
}

abbrev log_in : Client → Outcome Bool
log_in c = returned false c

abbrev mark : Client → Outcome (Unit {0})
mark c = returned tt (record c { processed = true })

-- The same for a client with the role, and another thing for all else.
abbrev mark_admin : Client → Outcome (Unit {0})
mark_admin c =
    if has_principal hash (codes "admin") (get_subject c) then mark c else thrown forbidden c

applied : applies matches hash asked admin ≡ true
unfolding applies
applied = refl

let_in :
    do_filter matches hash admins log_in asked mark (client (some (person (codes "root!"))))
    ≡ returned tt (record (client none) { processed = true })
unfolding do_filter is_authenticated is_anonymous is_authorized set_request_subject
    anonymous_subject
let_in = refl

turned_away :
    do_filter matches hash admins log_in asked mark (client (some (person (codes "me"))))
    ≡ thrown unauthorized (client none)
unfolding do_filter is_authenticated is_anonymous is_authorized set_request_subject
    anonymous_subject
turned_away = refl

do_filter_guards_example :
    do_filter matches hash admins log_in asked mark (client (some (person (codes "me"))))
    ≡ do_filter matches hash admins log_in asked mark_admin (client (some (person (codes "me"))))
do_filter_guards_example =
    do_filter_guards matches hash admins log_in asked mark mark_admin
      (client (some (person (codes "me")))) (λ d h. rw (h.0 applied) refl)

required : is_required matches hash admins asked ≡ true
unfolding is_required
required = refl

do_filter_clears_example :
    ((client none).subject ≡ none)
    ⊎ ((authenticated matches hash log_in (client (some (person (codes "root!"))))
          ≡ returned false (record (client none) { processed = true }))
        × ((record (client none) { processed = true }).processed ≡ true))
do_filter_clears_example =
    do_filter_clears matches hash admins log_in asked mark (client (some (person (codes "root!"))))
      (record (client none) { processed = true }) required let_in

set_principals-IsExtended_example :
    IsExtended hash
      (record { name = codes "a" } ∷ record { name = codes "bc" } ∷ [])
      (person (codes "abc"))
      (set_principals hash
        (record { name = codes "a" } ∷ record { name = codes "bc" } ∷ [])
        (person (codes "abc")))
set_principals-IsExtended_example =
    set_principals-IsExtended hash (record { name = codes "a" } ∷ record { name = codes "bc" } ∷ [])
      (person (codes "abc")) (refl, tt)

abbrev descriptions : List (Description ℕ)
descriptions =
    record {
      selectors = record { kind = codes "url"; filter = url [] (codes "/other") } ∷ [];
      handlers = 1 ∷ [];
      pool_name = [];
      id = [];
    }
    ∷ record {
      selectors =
          record { kind = codes "url"; filter = url (codes "/app") (codes "/x") }
          ∷ record { kind = codes "host"; filter = host [] }
          ∷ [];
      handlers = 2 ∷ [];
      pool_name = [];
      id = [];
    }
    ∷ []

find_uri_handler-FirstOf_example :
    FirstOf matches asked descriptions (find_uri_handler matches descriptions asked)
find_uri_handler-FirstOf_example = find_uri_handler-FirstOf matches descriptions asked
