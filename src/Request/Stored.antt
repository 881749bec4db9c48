-- ===== src/Request/Stored.antt =====
-- The stored form of a request, and `serialize`.
use mathlib.Core.Path.{subst}
use fastcgi_container.Base.{
  ℕ, ◌+◌, ◌-◌, ◌*◌, ◌%◌, ◌^◌, ◌≤◌, ◌<◌, ◌≡◌, refl, sym, List, [], ◌∷◌, ◌++◌, append-nil, arith,
  length, take, drop, length-append, length-take, length-drop, take-append-drop, replicate,
  length-replicate, Bytes, sub64,
}
use fastcgi_container.DataBuffer.{DataBuffer, size, contents, resize, resize_vector}
use fastcgi_container.DataBuffer.Holds.{Holds, nil_of_length, size_ordered}
use fastcgi_container.Request.State.{Request, File}
use fastcgi_container.Request.Serialize.{
  Out, serialize_group, serialize_env, serialize_buffer, serialize_files, serialize_args, serialize,
  pairs_size, files_size,
}
use fastcgi_container.Request.Writes.{
  int_bytes, length-int_bytes, length-string_bytes, HasRoom, Emits, Emits-append,
  serialize_group-Emits, serialize_buffer-Emits, serialize_files-Emits, flat, pair_bytes,
  group_bytes, buffer_bytes, file_bytes, files_bytes, string_bytes, int_bytes, length-int_bytes,
  length-string_bytes,
}
use fastcgi_container.Url.{NamedValue}

-- The window lies in the storage.
pub record IsWindow (b : DataBuffer) : Type 0 where
  pub ordered : b.begin ≤ b.end
  pub within : b.end ≤ length b.storage

abbrev pub stored_bytes : Request → Bytes
stored_bytes r =
    group_bytes r.headers
    ++ (group_bytes r.cookies
        ++ (group_bytes r.vars ++ (buffer_bytes r.body ++ (files_bytes r ++ group_bytes r.args))))

abbrev pub stored_size : Request → ℕ
stored_size r =
    8
    + size r.body
    + 8
    + files_size r.files
    + 8
    + pairs_size r.args
    + pairs_size r.headers
    + pairs_size r.cookies
    + pairs_size r.vars
    + 3 * 8

pub length-pairs : (m : List NamedValue) → length (flat pair_bytes m) ≡ pairs_size m
unfolding pair_bytes
length-pairs [] = refl
length-pairs (e ∷ m) = omega (
  arith,
  length-append (pair_bytes e) (flat pair_bytes m),
  length-append (string_bytes e.name) (string_bytes e.value),
  length-string_bytes e.name,
  length-string_bytes e.value,
  length-pairs m,
)

length-group_bytes : (m : List NamedValue) → length (group_bytes m) ≡ 8 + pairs_size m
unfolding group_bytes
length-group_bytes m = omega (
  arith,
  length-append (int_bytes (pairs_size m)) (flat pair_bytes m),
  length-int_bytes (pairs_size m),
  length-pairs m,
)

pub length-file_bytes :
    (body : DataBuffer) (f : File)
    → length (file_bytes body f)
      ≡ 8 + length f.name + 8 + length f.remote_name + 8 + length f.type + 16
unfolding file_bytes
length-file_bytes body f =
    let a = int_bytes (sub64 f.content.begin body.begin) in
    let b = int_bytes (sub64 f.content.end f.content.begin) in
    let t = string_bytes f.type in
    let r = string_bytes f.remote_name in
    omega (
      arith,
      length-append (string_bytes f.name) (r ++ (t ++ (a ++ b))),
      length-append r (t ++ (a ++ b)),
      length-append t (a ++ b),
      length-append a b,
      length-string_bytes f.name,
      length-string_bytes f.remote_name,
      length-string_bytes f.type,
      length-int_bytes (sub64 f.content.begin body.begin),
      length-int_bytes (sub64 f.content.end f.content.begin),
    )

pub length-files :
    (body : DataBuffer) (fs : List File) → length (flat (file_bytes body) fs) ≡ files_size fs
length-files body [] = refl
length-files body (f ∷ fs) = omega (
  arith,
  length-append (file_bytes body f) (flat (file_bytes body) fs),
  length-file_bytes body f,
  length-files body fs,
)

pub length-contents : (b : DataBuffer) → IsWindow b → length (contents b) ≡ size b
unfolding contents
length-contents b w = omega (
  arith,
  length-take (b.end - b.begin) (drop b.begin b.storage),
  length-drop b.begin b.storage,
  size_ordered b w.ordered,
  w.ordered,
  w.within,
)

pub length-stored_bytes : (r : Request) → IsWindow r.body → length (stored_bytes r) ≡ stored_size r
unfolding buffer_bytes files_bytes
length-stored_bytes r w =
    let h = group_bytes r.headers in
    let c = group_bytes r.cookies in
    let v = group_bytes r.vars in
    let b = buffer_bytes r.body in
    let f = files_bytes r in
    let a = group_bytes r.args in
    omega (
      arith,
      length-append h (c ++ (v ++ (b ++ (f ++ a)))),
      length-append c (v ++ (b ++ (f ++ a))),
      length-append v (b ++ (f ++ a)),
      length-append b (f ++ a),
      length-append f a,
      length-append (int_bytes (size r.body)) (contents r.body),
      length-append (int_bytes (files_size r.files)) (flat (file_bytes r.body) r.files),
      length-int_bytes (size r.body),
      length-int_bytes (files_size r.files),
      length-contents r.body w,
      length-files r.body r.files,
      length-group_bytes r.headers,
      length-group_bytes r.cookies,
      length-group_bytes r.vars,
      length-group_bytes r.args,
    )

-- All that `serialize` does behind `resize`.
abbrev chain : Request → Out → Out
chain r o = serialize_group r.args (
    serialize_files r (
      serialize_buffer r.body
        (serialize_group r.vars (serialize_group r.cookies (serialize_group r.headers o)))))

writes : (r : Request) → Emits (chain r) (stored_bytes r)
writes r = Emits-append (serialize_group-Emits r.headers) (
    Emits-append (serialize_group-Emits r.cookies) (
      Emits-append (serialize_group-Emits r.vars) (
        Emits-append (serialize_buffer-Emits r.body)
          (Emits-append (serialize_files-Emits r) (serialize_group-Emits r.args)))))

length-resize_vector : (n : ℕ) (st : Bytes) → length (resize_vector n st) ≡ n
length-resize_vector n st = omega (
  arith,
  length-append (take n st) (replicate (n - length st) 0),
  length-take n st,
  length-replicate {0} {A = ℕ} (n - length st) 0,
)

resize-HasRoom :
    (n : ℕ) (b : DataBuffer)
    → let st = resize_vector (b.begin + n) b.storage in
      HasRoom (record { buffer = resize n b; pos = 0 }) (take b.begin st) [] (drop b.begin st) []
unfolding resize
resize-HasRoom n b =
    let st = resize_vector (b.begin + n) b.storage in
    let len : length st ≡ b.begin + n = length-resize_vector (b.begin + n) b.storage in
    record {
      holds = record {
        stored =
            rw (append-nil (take b.begin st), append-nil (drop b.begin st))
              (sym (take-append-drop b.begin st));
        begins = omega (arith, length-take b.begin st, len);
        ends = omega (arith, length-take b.begin st, length-drop b.begin st, len);
      };
      at = refl;
    }

-- `serialize` leaves in the window exactly the stored form of the request.
pub serialize-Holds :
    (r : Request) (b : DataBuffer)
    → IsWindow r.body
    → stored_size r < 2 ^ 64
    → let pre = take b.begin (resize_vector (b.begin + stored_size r) b.storage) in
      Holds (serialize r b) pre (stored_bytes r) [] []
unfolding serialize serialize_env serialize_args
serialize-Holds r b w small =
    let n = stored_size r in
    let st = resize_vector (b.begin + n) b.storage in
    let rest = drop b.begin st in
    let kept : n % 2 ^ 64 ≡ n = omega arith in
    let len : length (stored_bytes r) ≡ n = length-stored_bytes r w in
    let room : length rest ≡ n =
      omega (arith, length-drop b.begin st, length-resize_vector (b.begin + n) b.storage) in
    let out =
      (writes r).emit (record { buffer = resize n b; pos = 0 }) (take b.begin st) [] rest []
        (resize-HasRoom n b) (omega (arith, len, room)) in
    let full : drop (length (stored_bytes r)) rest ≡ [] =
      nil_of_length (drop (length (stored_bytes r)) rest)
        (omega (arith, length-drop (length (stored_bytes r)) rest, len, room)) in
    subst
      (λ k.
        Holds (chain r (record { buffer = resize k b; pos = 0 })).buffer (take b.begin st)
          (stored_bytes r) [] [])
      (sym kept) (rw full at out.holds)
