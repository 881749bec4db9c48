-- ===== src/Tests/Intake.antt =====
-- The intake of requests at concrete arguments.
use fastcgi_container.Base.{ℕ, ◌-◌, ◌^◌, ◌≡◌, refl, List, [], ◌∷◌, Bytes, codes}
use fastcgi_container.DataBuffer.{DataBuffer}
use fastcgi_container.DataBuffer.Shows.{Shows}
use fastcgi_container.Url.{parse_loop}
use fastcgi_container.Request.State.{Request}
use fastcgi_container.Request.Attach.{lifted, parse_buffer}
use fastcgi_container.Request.Attach.Forms.{parse_buffer-Shows}

abbrev new_request : Request
new_request = record {
  headers = [];
  cookies = [];
  vars = [];
  body = record { storage = []; begin = 0; end = 0 };
  files = [];
  args = [];
}

-- A form of five bytes.
abbrev posted : ℕ → Bytes
posted n = codes "a=%31"

abbrev environment : List Bytes
environment = codes "REQUEST_METHOD=POST" ∷ codes "CONTENT_LENGTH=5" ∷ []

-- The largest body that a signed 64-bit size allows.
abbrev max_size : ℕ
max_size = 2 ^ 63 - 1

-- The form as a window behind two bytes.
abbrev window : DataBuffer
window = record { storage = codes "\r\na=%31"; begin = 2; end = 7 }

window_Shows : Shows (codes "\r\na=%31") window (codes "a=%31")
window_Shows = record {
  before = codes "\r\n";
  after = [];
  same = refl;
  stored = refl;
  begins = refl;
  ends = refl;
}

parse_buffer-Shows_example : parse_buffer 6 window [] ≡ lifted (parse_loop 6 (codes "a=%31") [])
parse_buffer-Shows_example = parse_buffer-Shows 6 [] window_Shows
