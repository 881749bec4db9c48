-- ===== src/Request/Entries.antt =====
-- Reading the entries of the stored groups: pairs and files.
use mathlib.Core.List.{map}
use fastcgi_container.Base.{
  ℕ, ◌^◌, ◌<◌, ◌≡◌, refl, sym, ◌∙◌, List, [], ◌∷◌, ◌++◌, arith, length, length-append, All, Bytes,
}
use fastcgi_container.DataBuffer.{DataBuffer, size}
use fastcgi_container.DataBuffer.Holds.{Holds}
use fastcgi_container.Map.{less_string, less_ci}
use fastcgi_container.Map.Order.{IsOrdered, Before}
use fastcgi_container.Request.State.{Request, File}
use fastcgi_container.Request.Serialize.{pairs_size}
use fastcgi_container.Request.Restore.{ok, ParseError, parse_pair, parse_file, parse_group}
use fastcgi_container.Request.Reads.{
  Fits, FitsPair, ReadsAll, parse_pair-Reads, parse_group-Holds, add_all, map_self,
}
use fastcgi_container.Request.Stored.{IsWindow, length-pairs, length-file_bytes}
use fastcgi_container.Request.Windows.{IsPart, moved, parse_file-Reads}
use fastcgi_container.Request.Writes.{
  pair_bytes, group_bytes, file_bytes, string_bytes, length-string_bytes,
}
use fastcgi_container.Url.{NamedValue}

pair_bytes_pos : (e : NamedValue) → 0 < length (pair_bytes e)
unfolding pair_bytes
pair_bytes_pos e =
    omega (
      arith,
      length-append (string_bytes e.name) (string_bytes e.value),
      length-string_bytes e.name,
    )

file_bytes_pos : (body : DataBuffer) (f : File) → 0 < length (file_bytes body f)
file_bytes_pos body f = omega (arith, length-file_bytes body f)

module _ (max_string : ℕ) where
  abbrev pub FitsFile : DataBuffer → File → Type 0
  FitsFile body f =
      IsPart body f
      × (Fits max_string f.name × Fits max_string f.remote_name × Fits max_string f.type)

  -- A request as the program builds it, and small enough to be stored.
  pub record IsStorable (r : Request) : Type 0 where
    pub body_window : IsWindow r.body
    pub body_small : r.body.end < 2 ^ 64
    pub headers_ordered : IsOrdered less_ci (λ e. e.name) r.headers
    pub cookies_ordered : IsOrdered less_string (λ e. e.name) r.cookies
    pub vars_ordered : IsOrdered less_string (λ e. e.name) r.vars
    pub files_ordered : IsOrdered less_string (λ f. f.name) r.files
    pub headers_fit : All (FitsPair max_string) r.headers
    pub cookies_fit : All (FitsPair max_string) r.cookies
    pub vars_fit : All (FitsPair max_string) r.vars
    pub files_fit : All (FitsFile r.body) r.files
    pub args_fit : All (FitsPair max_string) r.args

  pairs-ReadsAll :
      {S : Type 0} (add : NamedValue → S → S) (m : List NamedValue)
      → All (FitsPair max_string) m
      → ReadsAll (parse_pair max_string) add pair_bytes (λ e. e) m
  pairs-ReadsAll add [] h = tt
  pairs-ReadsAll add (e ∷ m) h =
      (parse_pair-Reads max_string e h.0, pair_bytes_pos e, pairs-ReadsAll add m h.1)

  pub pairs-Holds :
      {S : Type 0} (add : NamedValue → S → S) (bad : ParseError) (m : List NamedValue) (s : S)
      (b : DataBuffer) (pre done rest post : Bytes)
      → All (FitsPair max_string) m
      → b.end < 2 ^ 64
      → Holds b pre done (group_bytes m ++ rest) post
      → parse_group (parse_pair max_string) add bad b (length done) s
        ≡ ok (record { pos = length (done ++ group_bytes m); value = add_all add s m })
  unfolding group_bytes
  pairs-Holds add bad m s b pre done rest post fits small h =
      parse_group-Holds (parse_pair max_string) add pair_bytes (λ e. e) bad m b pre done rest post s
        (pairs_size m) (pairs-ReadsAll add m fits) (sym (length-pairs m)) small h
      ∙ rw (map_self m) refl

  pub files-ReadsAll :
      {S : Type 0} (add : File → S → S) (new body : DataBuffer) (fs : List File)
      → size new ≡ size body
      → IsWindow new
      → new.end < 2 ^ 64
      → body.end < 2 ^ 64
      → All (FitsFile body) fs
      → ReadsAll (parse_file max_string new) add (file_bytes body) (moved new body) fs
  files-ReadsAll add new body [] same w small small_body h = tt
  files-ReadsAll add new body (f ∷ fs) same w small small_body h = (
    parse_file-Reads max_string new body f h.0.0 same w small small_body h.0.1,
    file_bytes_pos body f,
    files-ReadsAll add new body fs same w small small_body h.1,
  )

All-moved :
    (new body : DataBuffer) (f : File) (fs : List File)
    → All (Before less_string (λ f. f.name) f) fs
    → All (Before less_string (λ f. f.name) (moved new body f)) (map (moved new body) fs)
unfolding moved
All-moved new body f [] h = tt
All-moved new body f (g ∷ fs) h = (h.0, All-moved new body f fs h.1)

-- Moving the files leaves their names, so their order.
pub IsOrdered-moved :
    (new body : DataBuffer) (fs : List File)
    → IsOrdered less_string (λ f. f.name) fs
    → IsOrdered less_string (λ f. f.name) (map (moved new body) fs)
IsOrdered-moved new body [] h = tt
IsOrdered-moved new body (f ∷ fs) h = (All-moved new body f fs h.0, IsOrdered-moved new body fs h.1)
