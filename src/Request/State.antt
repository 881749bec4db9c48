-- ===== src/Request/State.antt =====
-- The fields of `Request`, and `File`.
use fastcgi_container.Base.{List, Bytes}
use fastcgi_container.DataBuffer.{DataBuffer}
use fastcgi_container.Map.{Map}
use fastcgi_container.Url.{NamedValue}

-- File, with the name under which `files_` holds it.
pub record File : Type 0 where
  pub name : Bytes
  pub remote_name : Bytes
  pub type : Bytes
  pub content : DataBuffer

-- What a request was sent with.
pub record Request : Type 0 where
  pub headers : Map
  pub cookies : Map
  pub vars : Map
  pub body : DataBuffer
  pub files : List File
  pub args : List NamedValue
