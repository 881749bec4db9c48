-- ===== src/Request/Attach/Intake.antt =====
-- How `attach` ends: its loops over the environment, the query and the body.
use fastcgi_container.Base.{◌^◌, ◌<◌, length}
use fastcgi_container.Range
use fastcgi_container.Parser.Multipart.Within.{Within}
use fastcgi_container.Request.State.{Request}
use fastcgi_container.Request.Attach.{
  Attached, ready, bad_length, long_body, short_body, malformed_body, out_of_body, stuck,
}

-- A request, or an exception that tells of what the client sent.
abbrev pub IsSettled : Attached → Type 0
IsSettled (ready r) = Unit
IsSettled bad_length = Unit
IsSettled long_body = Unit
IsSettled short_body = Unit
IsSettled malformed_body = Unit
IsSettled out_of_body = ⊥
IsSettled stuck = ⊥

-- A request whose body is a window on its storage.
abbrev IsWhole : Request → Type 0
IsWhole r = (length r.body.storage < 2 ^ 64) × Within r.body.storage r.body
