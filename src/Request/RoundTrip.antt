-- ===== src/Request/RoundTrip.antt =====
-- `serialize`, and `restore` behind it.
use mathlib.Core.List.{map}
use fastcgi_container.Base.{
  ◌≤◌, ℕ, ◌+◌, ◌^◌, ◌<◌, ◌≡◌, refl, ◌∙◌, List, [], ◌∷◌, ◌++◌, append-nil, arith, take, length-take,
  All, Bytes,
}
use fastcgi_container.DataBuffer.{DataBuffer, size, contents, resize_vector}
use fastcgi_container.DataBuffer.Holds.{Holds}
use fastcgi_container.Request.State.{Request, File}
use fastcgi_container.Request.Serialize.{serialize}
use fastcgi_container.Request.Restore.{restore, ok}
use fastcgi_container.Request.Reads.{restored_arg, advance}
use fastcgi_container.Request.Stored.{
  length-stored_bytes, stored_size, serialize-Holds, IsWindow, stored_bytes,
}
use fastcgi_container.Request.Windows.{contents-stored_body, contents-moved, stored_body, moved}
use fastcgi_container.Request.Writes.{int_bytes, group_bytes, buffer_bytes, files_bytes}
use fastcgi_container.Request.Entries.{IsStorable, FitsFile}
use fastcgi_container.Request.ReadBack.{
  stored_body-ordered, restored, restore-Holds, body_inside, size-stored_body,
}

abbrev pub SameFiles : List File → List File → Type 0
SameFiles [] [] = Unit
SameFiles (f ∷ fs) (g ∷ gs) =
    (f.name ≡ g.name)
    × (f.remote_name ≡ g.remote_name)
    × (f.type ≡ g.type)
    × (contents f.content ≡ contents g.content)
    × SameFiles fs gs
SameFiles _ _ = ⊥

-- `q` is the request `r` over another buffer, but for the argument values that are encoded.
pub record IsRestored (r q : Request) : Type 0 where
  pub headers : q.headers ≡ r.headers
  pub cookies : q.cookies ≡ r.cookies
  pub vars : q.vars ≡ r.vars
  pub body : contents q.body ≡ contents r.body
  pub files : SameFiles q.files r.files
  pub args : q.args ≡ map restored_arg r.args

SameFiles-moved :
    (max_string : ℕ) (new body : DataBuffer) (fs : List File)
    → new.begin ≤ new.end
    → size new ≡ size body
    → contents new ≡ contents body
    → All (FitsFile max_string body) fs
    → SameFiles (map (moved new body) fs) fs
unfolding moved
SameFiles-moved max_string new body [] o same bytes h = tt
SameFiles-moved max_string new body (f ∷ fs) o same bytes h = (
  refl,
  refl,
  refl,
  contents-moved new body f h.0.0 o same bytes,
  SameFiles-moved max_string new body fs o same bytes h.1,
)

from_start : {b : DataBuffer} {pre x : Bytes} → Holds b pre x [] [] → Holds b pre [] x []
from_start {pre = pre} {x = x} h = record {
  stored = h.stored ∙ simp append-nil;
  begins = h.begins;
  ends = omega (arith, h.ends);
}

-- What lies in front of the body's bytes.
abbrev before_body : Request → Bytes
before_body r =
    ((group_bytes r.headers ++ group_bytes r.cookies) ++ group_bytes r.vars)
    ++ int_bytes (size r.body)

body_stored :
    (r : Request) (b : DataBuffer) {pre : Bytes}
    → Holds b pre [] (stored_bytes r) []
    → Holds b pre (before_body r) (contents r.body ++ (files_bytes r ++ group_bytes r.args)) []
body_stored r b {pre} h =
    let fa = files_bytes r ++ group_bytes r.args in
    let rest = buffer_bytes r.body ++ fa in
    body_inside b pre _ fa r.body (
      advance (group_bytes r.vars) rest (
        advance (group_bytes r.cookies) (group_bytes r.vars ++ rest) (
          advance (group_bytes r.headers) (group_bytes r.cookies ++ (group_bytes r.vars ++ rest))
            h)))

restored-IsRestored :
    (max_string : ℕ) (r : Request)
    → IsStorable max_string r
    → (b : DataBuffer) (rest : Bytes) {pre : Bytes}
    → Holds b pre (before_body r) (contents r.body ++ rest) []
    → IsRestored r (restored r b (before_body r))
unfolding restored
restored-IsRestored max_string r s b rest {pre} h =
    let same = contents-stored_body r.body rest s.body_window h in
    record {
      headers = refl;
      cookies = refl;
      vars = refl;
      body = same;
      files =
          SameFiles-moved max_string (stored_body b r.body (before_body r)) r.body r.files
            (stored_body-ordered b r.body (before_body r))
            (size-stored_body b r.body pre (before_body r) rest [] s.body_window h) same
            s.files_fit;
      args = refl;
    }

serialize_end :
    (r : Request) (b : DataBuffer)
    → IsWindow r.body
    → b.begin + stored_size r < 2 ^ 64
    → (serialize r b).end < 2 ^ 64
serialize_end r b w small =
    let st = resize_vector (b.begin + stored_size r) b.storage in
    let h = serialize-Holds r b w (omega (arith, small)) in
    omega (arith, h.ends, length-take b.begin st, length-stored_bytes r w, small)

-- For a request whose body and files are windows that fit, whose maps are in order and whose strings
-- fit a `std::string`, and for a buffer with room below 2 ^ 64: what `serialize` writes to the buffer,
-- `restore` reads back without an exception, into whatever request, and the result has the same
-- headers, cookies and variables, the same body bytes, and the same files with the same bytes; an
-- argument value that holds a carriage return, a newline or a zero byte comes back URL-encoded, and
-- every other argument as it was.
pub restore-serialize :
    (max_string : ℕ) (r old : Request) (b : DataBuffer)
    → IsStorable max_string r
    → b.begin + stored_size r < 2 ^ 64
    → (q : Request) × (restore max_string old (serialize r b) ≡ ok q) × IsRestored r q
restore-serialize max_string r old b s small =
    let stored = from_start (serialize-Holds r b s.body_window (omega (arith, small))) in
    let new = serialize r b in
    let end : new.end < 2 ^ 64 = serialize_end r b s.body_window small in
    let before = before_body r in
    (
      restored r new before,
      restore-Holds max_string r s new
          (take b.begin (resize_vector (b.begin + stored_size r) b.storage)) end old stored,
      restored-IsRestored max_string r s new (files_bytes r ++ group_bytes r.args)
          (body_stored r new stored),
    )
