-- ===== src/Tests.antt =====
-- Runs of the model on small data, and the theorems at concrete arguments.
pub mod Serving
pub mod Encoding
pub mod Pages
pub mod Uploads
mod Intake
mod Dispatching
use fastcgi_container.Base.{
  false, ℕ, ◌≡◌, refl, ap, ◌≢◌, ◌↔◌, true, some, List, [], ◌∷◌, ◌++◌, arith, length, Bytes, codes,
}
use fastcgi_container.Range.{split_char, Range, Split, trim}
use fastcgi_container.Range.Cut.{IsSplit, split_char_iff}
use fastcgi_container.Range.Trim.{IsTrimmed, trim_iff}
use fastcgi_container.ThreadPool.{
  Event, add_task, start, enter, handled, Effect, silent, accepted, not_started, queue_full, taken,
  handling, run, create,
}
use fastcgi_container.ThreadPool.Tallied.{IsConsistent}
use fastcgi_container.ThreadPool.Invariant.{run-IsConsistent}
use mathlib.Core.List.{map}
use fastcgi_container.Parser.{Fields, parse_env, normalize_input_header_name}
use fastcgi_container.Parser.Ends.{parse_env-ends}
use fastcgi_container.Parser.Names.{dash, normalize-dash}
use fastcgi_container.Url.{NamedValue, urlencode, urldecode, urldecode_chunks, parse}
use fastcgi_container.Url.RoundTrip.{urldecode-urlencode}
use fastcgi_container.Url.Query.{pairs_of, parse-pieces, format, parse-format}
use fastcgi_container.Range.Pieces.{pieces}
use fastcgi_container.DataBuffer.{size, DataBuffer}
use fastcgi_container.Map.{entry}
use fastcgi_container.Request.State.{Request}
use fastcgi_container.Request.Serialize.{serialize}
use fastcgi_container.Request.Restore.{restore, ok}
use fastcgi_container.Request.Entries.{IsStorable}
use fastcgi_container.Request.RoundTrip.{IsRestored, restore-serialize}

-- "a=b=c"
abbrev equation : Range
equation = codes "a=b=c"

abbrev equation_split : Split
equation_split = record { first = codes "a"; second = codes "b=c"; found = true }

split_char_iff_example :
    IsSplit b'=' equation equation_split ↔ (equation_split ≡ split_char equation b'=')
split_char_iff_example = split_char_iff equation b'=' equation_split

abbrev padded : Range
padded = codes "  no store "

trim_iff_example : IsTrimmed padded (codes "no store") ↔ (codes "no store" ≡ trim padded)
trim_iff_example = trim_iff padded (codes "no store")

trimmed : trim padded ≡ codes "no store"
unfolding trim
trimmed = refl

abbrev sentence : Range
sentence = codes "a b&c=100%"

encoded : urlencode sentence ≡ codes "a%20b%26c%3D100%25"
unfolding urlencode
encoded = refl

urldecode-urlencode_example : urldecode (urlencode sentence) ≡ sentence
urldecode-urlencode_example = urldecode-urlencode sentence (omega arith)

-- An escape that a chunk's end cuts in two is not decoded.
cut_escape :
    (urldecode (codes "a%20b") ≡ codes "a b")
    × (urldecode_chunks (codes "a%2" ∷ codes "0b" ∷ []) ≡ codes "a%20b")
unfolding urldecode_chunks
cut_escape = (refl, refl)

abbrev query : Range
query = codes "a=1&=2&b&c=x%3Dy"

parsed :
    parse query []
    ≡ some (
        entry (codes "a") (codes "1") ∷ entry (codes "b") [] ∷ entry (codes "c") (codes "x=y") ∷ [])
unfolding parse
parsed = refl

parse-pieces_example : parse query [] ≡ some ([] ++ pairs_of (pieces b'&' query))
parse-pieces_example = parse-pieces query []

abbrev pairs : List NamedValue
pairs = entry (codes "a&b") (codes "1=2") ∷ entry (codes "c") [] ∷ []

named : (c : ℕ) (s : Bytes) → (c ∷ s) ≢ []
named c s e = omega (arith, ap length e)

parse-format_example : parse (format pairs) [] ≡ some pairs
parse-format_example =
    parse-format pairs
      ((omega arith, omega arith, named b'a' (codes "&b")), ((omega arith, tt, named b'c' []), tt))

abbrev pub upload : DataBuffer
upload = record { storage = codes "xxfile"; begin = 0; end = 6 }

-- A request with a header, an uploaded file and an argument with a line break.
abbrev pub sent : Request
sent = record {
  headers = entry (codes "HOST") (codes "h") ∷ entry (codes "Via") [] ∷ [];
  cookies = [];
  vars = entry (codes "v") (codes "1") ∷ [];
  body = upload;
  files =
      record {
        name = codes "f";
        remote_name = codes "f.txt";
        type = codes "text";
        content = record { storage = codes "xxfile"; begin = 2; end = 6 };
      }
      ∷ [];
  args = entry (codes "a") (codes "1\n2") ∷ entry (codes "b") (codes "3 4") ∷ [];
}

abbrev pub empty_request : Request
empty_request = record {
  headers = [];
  cookies = [];
  vars = [];
  body = upload;
  files = [];
  args = [];
}

-- A buffer that holds something before its window.
abbrev pub target : DataBuffer
target = record { storage = codes "old"; begin = 2; end = 3 }

pub sent-IsStorable : IsStorable 1000 sent
sent-IsStorable = record {
  body_window = record { ordered = omega arith; within = omega arith };
  body_small = omega arith;
  headers_ordered = (((refl, refl), tt), (tt, tt));
  cookies_ordered = tt;
  vars_ordered = (tt, tt);
  files_ordered = (tt, tt);
  headers_fit = omega arith;
  cookies_fit = tt;
  vars_fit = omega arith;
  files_fit = (
    (
      record {
        shared = refl;
        starts = omega arith;
        ordered = omega arith;
        ends = omega arith;
        named = named b'f' (codes ".txt");
      },
      omega arith,
    ),
    tt,
  );
  args_fit = omega arith;
}

restore-serialize_example :
    (q : Request) × (restore 1000 empty_request (serialize sent target) ≡ ok q) × IsRestored sent q
unfolding size
restore-serialize_example =
    restore-serialize 1000 sent empty_request target sent-IsStorable (omega arith)

-- Two threads, a queue of two; the third task waits until a thread takes the first, and the first
-- ends with an exception.
abbrev schedule : List (Event ℕ)
schedule =
    add_task 7
    ∷ start
    ∷ enter 0
    ∷ add_task 7
    ∷ add_task 8
    ∷ add_task 9
    ∷ enter 0
    ∷ add_task 9
    ∷ enter 1
    ∷ handled 0 false
    ∷ enter 0
    ∷ []

abbrev effects : List (Effect ℕ)
effects =
    not_started
    ∷ silent
    ∷ silent
    ∷ accepted 7
    ∷ accepted 8
    ∷ queue_full
    ∷ taken 7
    ∷ accepted 9
    ∷ taken 8
    ∷ silent
    ∷ taken 9
    ∷ []

pool_run : run schedule (create 2 2) ≡ (
  record {
    started = true;
    threads_number = 2;
    queue_length = 2;
    busy = 2;
    good = 0;
    bad = 1;
    tasks = [];
    threads = handling 9 ∷ handling 8 ∷ [];
  },
  effects,
)
unfolding run create
pool_run = refl

run-IsConsistent_example : IsConsistent (run schedule (create 2 2)).0 (run schedule (create 2 2)).1
run-IsConsistent_example = run-IsConsistent 2 2 schedule

abbrev no_fields : Fields
no_fields = record { headers = []; cookies = []; vars = [] }

abbrev env : List Range
env =
    codes "HTTP_COOKIE=a=1; b=x%20y"
    ∷ codes "HTTP_USER_AGENT= m "
    ∷ codes "CONTENT_LENGTH=3"
    ∷ codes "PATH_INFO=/p"
    ∷ []

environment :
    parse_env env no_fields
    ≡ some (record {
      headers =
          entry (codes "CONTENT-LENGTH") (codes "3")
          ∷ entry (codes "COOKIE") (codes "a=1; b=x%20y")
          ∷ entry (codes "USER-AGENT") (codes "m")
          ∷ [];
      cookies = entry (codes "a") (codes "1") ∷ entry (codes "b") (codes "x y") ∷ [];
      vars = entry (codes "PATH_INFO") (codes "/p") ∷ [];
    })
unfolding parse_env
environment = refl

normalize-dash_example :
    normalize_input_header_name (codes "USER_AGENT") ≡ some (map dash (codes "USER_AGENT"))
normalize-dash_example = normalize-dash (codes "USER_AGENT")

parse_env-ends_example : (q : Fields) × (parse_env env no_fields ≡ some q)
parse_env-ends_example = parse_env-ends env no_fields
