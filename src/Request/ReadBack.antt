-- ===== src/Request/ReadBack.antt =====
-- `restore` on a buffer that holds the stored form of a request.
use mathlib.Core.List.{map}
use fastcgi_container.Base.{
  ℕ, ◌+◌, ◌^◌, ◌≤◌, ◌<◌, ◌≡◌, refl, sym, ◌∙◌, Bool, [], ◌++◌, append-nil, arith, length,
  length-append, Bytes,
}
use fastcgi_container.DataBuffer.{DataBuffer, size, contents}
use fastcgi_container.DataBuffer.Holds.{Holds, size_ordered}
use fastcgi_container.Map.{Map, insert, less_string, less_ci}
use fastcgi_container.Map.Order.{IsOrdered}
use fastcgi_container.Request.State.{Request}
use fastcgi_container.Request.Serialize.{files_size}
use fastcgi_container.Request.Restore.{
  restore, ok, bad_headers, bad_cookies, bad_vars, bad_files, bad_args, parse_file, parse_headers,
  parse_cookies, parse_vars, parse_files, parse_args, parse, push_arg, insert_file,
}
use fastcgi_container.Request.Reads.{
  parse_group-Holds, add_all, add_all-insert, add_all-push_arg, restored_arg, advance, regroup,
}
use fastcgi_container.Request.Stored.{IsWindow, stored_bytes, length-files, length-contents}
use fastcgi_container.Request.Windows.{stored_length, stored_body, moved, parse_body-Holds}
use fastcgi_container.Request.Writes.{int_bytes, group_bytes, buffer_bytes, file_bytes, files_bytes}
use fastcgi_container.Request.Entries.{pairs-Holds, files-ReadsAll, IsOrdered-moved, IsStorable}

-- What `restore` gives for a request that was stored in `b` with `before` in front of the body's
-- bytes.
unfoldable pub restored : Request → DataBuffer → Bytes → Request
restored r b before =
    let body = stored_body b r.body before in
    record {
      headers = r.headers;
      cookies = r.cookies;
      vars = r.vars;
      body = body;
      files = map (moved body r.body) r.files;
      args = map restored_arg r.args;
    }

insert_all :
    (less : Bytes → Bytes → Bool) (m : Map)
    → IsOrdered less (λ e. e.name) m
    → add_all (insert less) [] m ≡ m
unfolding insert
insert_all less m h = add_all-insert less (λ e. e.name) [] m h

pub stored_body-ordered :
    (b body : DataBuffer) (before : Bytes)
    → (stored_body b body before).begin ≤ (stored_body b body before).end
unfolding stored_body
stored_body-ordered b body before = omega arith

-- The restored body is a window like the stored one.
module _ (b body : DataBuffer) (pre done rest post : Bytes) (w : IsWindow body)
    (h : Holds b pre done (contents body ++ rest) post) where
  pub size-stored_body : size (stored_body b body done) ≡ size body
  unfolding stored_body
  size-stored_body =
      let at = length done + b.begin in
      let n =
        size_ordered (record { storage = b.storage; begin = at; end = at + size body })
          (omega arith) in
      omega (arith, n)

  stored_body-IsWindow : IsWindow (stored_body b body done)
  unfolding stored_body
  stored_body-IsWindow = record {
    ordered = omega arith;
    within = omega (
      arith,
      stored_length h,
      h.begins,
      length-append (contents body) rest,
      length-contents body w,
    );
  }

  stored_body_end : (stored_body b body done).end ≤ b.end
  unfolding stored_body
  stored_body_end =
      omega (arith, h.begins, h.ends, length-append (contents body) rest, length-contents body w)

pub body_inside :
    (b : DataBuffer) (pre done rest : Bytes) (body : DataBuffer)
    → Holds b pre done (buffer_bytes body ++ rest) []
    → Holds b pre (done ++ int_bytes (size body)) (contents body ++ rest) []
unfolding buffer_bytes
body_inside b pre done rest body h =
    advance (int_bytes (size body)) (contents body ++ rest)
      (regroup (int_bytes (size body)) (contents body) rest h)

module _ (max_string : ℕ) (r : Request) (s : IsStorable max_string r) (b : DataBuffer) (pre : Bytes)
    (small : b.end < 2 ^ 64) where
  files-Holds :
      (new : DataBuffer) (done rest post : Bytes)
      → size new ≡ size r.body
      → IsWindow new
      → new.end < 2 ^ 64
      → Holds b pre done (files_bytes r ++ rest) post
      → parse_files max_string new b (length done) []
        ≡ ok (record {
          pos = length (done ++ files_bytes r);
          value = map (moved new r.body) r.files;
        })
  unfolding parse_files files_bytes
  files-Holds new done rest post same w end h =
      parse_group-Holds (parse_file max_string new) insert_file (file_bytes r.body)
        (moved new r.body) bad_files r.files b pre done rest post [] (files_size r.files)
        (files-ReadsAll max_string insert_file new r.body r.files same w end s.body_small
          s.files_fit)
        (sym (length-files r.body r.files)) small h
      ∙ rw
          (add_all-insert less_string (λ f. f.name) [] (map (moved new r.body) r.files)
            (IsOrdered-moved new r.body r.files s.files_ordered))
          refl

  pub restore-Holds :
      (old : Request)
      → Holds b pre [] (stored_bytes r) []
      → restore max_string old b
        ≡ ok (
            restored r b (
              ((group_bytes r.headers ++ group_bytes r.cookies) ++ group_bytes r.vars)
              ++ int_bytes (size r.body)))
  unfolding restore parse restored parse_headers parse_cookies parse_vars parse_args
  restore-Holds old h0 =
      let h = group_bytes r.headers in
      let c = group_bytes r.cookies in
      let v = group_bytes r.vars in
      let i = int_bytes (size r.body) in
      let f = files_bytes r in
      let a = group_bytes r.args in
      let d = (h ++ c) ++ v in
      let fa = f ++ a in
      let h1 = advance h (c ++ (v ++ (buffer_bytes r.body ++ fa))) h0 in
      let h2 = advance c (v ++ (buffer_bytes r.body ++ fa)) h1 in
      let h3 = advance v (buffer_bytes r.body ++ fa) h2 in
      let h4 = advance (buffer_bytes r.body) fa h3 in
      let h5 = advance f a h4 in
      let last : Holds b pre ((d ++ buffer_bytes r.body) ++ f) (a ++ []) [] = rw append-nil h5 in
      let inside = body_inside b pre d fa r.body h3 in
      let new = stored_body b r.body (d ++ i) in
      rw
        (
          pairs-Holds max_string (insert less_ci) bad_headers r.headers [] b pre []
              (c ++ (v ++ (buffer_bytes r.body ++ fa))) [] s.headers_fit small h0,
          insert_all less_ci r.headers s.headers_ordered,
          pairs-Holds max_string (insert less_string) bad_cookies r.cookies [] b pre h
              (v ++ (buffer_bytes r.body ++ fa)) [] s.cookies_fit small h1,
          insert_all less_string r.cookies s.cookies_ordered,
          pairs-Holds max_string (insert less_string) bad_vars r.vars [] b pre (h ++ c)
              (buffer_bytes r.body ++ fa) [] s.vars_fit small h2,
          insert_all less_string r.vars s.vars_ordered,
          parse_body-Holds r.body fa s.body_window small h3,
          files-Holds new (d ++ buffer_bytes r.body) a []
              (size-stored_body b r.body pre (d ++ i) fa [] s.body_window inside)
              (stored_body-IsWindow b r.body pre (d ++ i) fa [] s.body_window inside)
              (omega
                (arith, stored_body_end b r.body pre (d ++ i) fa [] s.body_window inside, small))
              h4,
          pairs-Holds max_string push_arg bad_args r.args [] b pre ((d ++ buffer_bytes r.body) ++ f)
              [] [] s.args_fit small last,
          add_all-push_arg [] r.args,
        )
        refl
