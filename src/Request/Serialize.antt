-- ===== src/Request/Serialize.antt =====
-- `Request::serialize` and its helpers: the request's parts one behind the other, each number in
-- eight bytes, the lowest first, and each string behind its length.
use fastcgi_container.Base.{ℕ, ◌+◌, ◌*◌, ◌%◌, ◌^◌, List, [], ◌∷◌, length, Bytes, le_bytes, sub64}
use fastcgi_container.DataBuffer.{DataBuffer, size, resize, write, chunks}
use fastcgi_container.Request.State.{Request, File}
use fastcgi_container.Url.{NamedValue}

-- The buffer and the position that the functions return.
pub record Out : Type 0 where
  pub buffer : DataBuffer
  pub pos : ℕ

-- pos += buffer.write(pos, …)
unfoldable pub put : Bytes → Out → Out
put bytes o = let (b, n) = write o.buffer o.pos bytes in record { buffer = b; pos = o.pos + n }

unfoldable pub serialize_int : ℕ → Out → Out
serialize_int val o = put (le_bytes 8 val) o

unfoldable pub serialize_string : Bytes → Out → Out
serialize_string val o = put val (serialize_int (length val) o)

-- The loops over headers, cookies, variables and arguments.
unfoldable pub serialize_pairs : List NamedValue → Out → Out
serialize_pairs [] o = o
serialize_pairs (e ∷ m) o = serialize_pairs m (serialize_string e.value (serialize_string e.name o))

-- The number of bytes that the loop writes.
abbrev pub pairs_size : List NamedValue → ℕ
pairs_size [] = 0
pairs_size (e ∷ m) = length e.name + length e.value + 2 * 8 + pairs_size m

-- A group of pairs behind its size.
unfoldable pub serialize_group : List NamedValue → Out → Out
serialize_group m o = serialize_pairs m (serialize_int (pairs_size m) o)

unfoldable pub serialize_env : Request → DataBuffer → ℕ → Out
serialize_env r b add_size =
    let total =
      add_size + pairs_size r.headers + pairs_size r.cookies + pairs_size r.vars + 3 * 8 in
    serialize_group r.vars (
      serialize_group r.cookies
        (serialize_group r.headers (record { buffer = resize (total % 2 ^ 64) b; pos = 0 })))

abbrev pub put_chunks : List Bytes → Out → Out
put_chunks [] o = o
put_chunks (c ∷ cs) o = put_chunks cs (put c o)

unfoldable pub serialize_buffer : DataBuffer → Out → Out
serialize_buffer src o = put_chunks (chunks src) (serialize_int (size src) o)

abbrev pub files_size : List File → ℕ
files_size [] = 0
files_size (f ∷ fs) =
    8 + length f.name + 8 + length f.remote_name + 8 + length f.type + 2 * 8 + files_size fs

unfoldable pub serialize_file : DataBuffer → File → Out → Out
serialize_file body f o = serialize_int (sub64 f.content.end f.content.begin) (
    serialize_int (sub64 f.content.begin body.begin)
      (serialize_string f.type (serialize_string f.remote_name (serialize_string f.name o))))

abbrev pub serialize_file_list : DataBuffer → List File → Out → Out
serialize_file_list body [] o = o
serialize_file_list body (f ∷ fs) o = serialize_file_list body fs (serialize_file body f o)

unfoldable pub serialize_files : Request → Out → Out
serialize_files r o = serialize_file_list r.body r.files (serialize_int (files_size r.files) o)

unfoldable pub serialize_args : Request → Out → Out
serialize_args r o = serialize_group r.args o

unfoldable pub serialize : Request → DataBuffer → DataBuffer
serialize r b =
    let add_size = 8 + size r.body + 8 + files_size r.files + 8 + pairs_size r.args in
    (serialize_args r
      (serialize_files r (serialize_buffer r.body (serialize_env r b add_size)))).buffer
