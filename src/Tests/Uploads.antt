-- ===== src/Tests/Uploads.antt =====
-- Runs of the parser of multipart bodies, and the theorems about it at concrete arguments.
use fastcgi_container.Base.{◌≡◌, refl, some, [], ◌∷◌, arith, Bytes, codes}
use fastcgi_container.Range
use fastcgi_container.DataBuffer.Shows.{Shows}
use fastcgi_container.DataBuffer.Cuts.{CutShows, IsOrdered, split-Shows}
use fastcgi_container.DataBuffer.Affixes.{trim-Shows}
use fastcgi_container.Map.{insert_by}
use fastcgi_container.DataBuffer.{DataBuffer, create, size, to_string, view}
use fastcgi_container.DataBuffer.Search.{
  Cut, split, trim_buffer, trimn, starts_with_by, ends_with_by,
}
use fastcgi_container.Request.State.{Request}
use fastcgi_container.Parser.Multipart.Within.{Within}
use fastcgi_container.Parser.Multipart.{
  done, get_boundary, parse_multipart, parse_part, parse_headers, parse_line, header_line,
}

abbrev no_request : Request
no_request = record {
  headers = [];
  cookies = [];
  vars = [];
  body = create [];
  files = [];
  args = [];
}

abbrev form : DataBuffer
form = create (
    codes
      "--B\r\nContent-Disposition: form-data; name=\"a\"\r\n\r\n1\r\n--B\r\nX: y; name=\"b\"\r\n\r\n2 3\r\n--B--\r\n")

boundary_of : get_boundary (codes "multipart/form-data; boundary=\"B\"") ≡ done (codes "--B")
unfolding get_boundary
boundary_of = refl

form_args :
    parse_multipart 99 (codes "--B") form no_request
    ≡ done (record no_request {
      args =
          record { name = codes "a"; value = codes "1" }
          ∷ record { name = codes "b"; value = codes "2 3" }
          ∷ [];
    })
unfolding parse_multipart create parse_part parse_headers header_line parse_line split view
    Range.trim trim_buffer trimn starts_with_by ends_with_by to_string insert_by size
form_args = refl

abbrev upload : Bytes
upload = codes "--B\r\nX: y; name=\"f\"; filename=\"n\"\r\n\r\n1\r\n--B--"

-- The line of a part's header, as a window on the whole body.
abbrev line : DataBuffer
line = record { storage = upload; begin = 5; end = 33 }

line_Shows : Shows upload line (codes "X: y; name=\"f\"; filename=\"n\"")
line_Shows = record {
  before = codes "--B\r\n";
  after = codes "\r\n\r\n1\r\n--B--";
  same = refl;
  stored = refl;
  begins = refl;
  ends = refl;
}

split-Shows_example :
    (c : Cut) × (split (codes ";") line ≡ some c)
    × CutShows upload c (Range.split (codes "X: y; name=\"f\"; filename=\"n\"") (codes ";"))
    × IsOrdered line c
split-Shows_example = split-Shows (codes ";") line_Shows (omega arith)

trim-Shows_example :
    Shows upload (trim_buffer line) (Range.trim (codes "X: y; name=\"f\"; filename=\"n\""))
trim-Shows_example = trim-Shows line_Shows
