-- ===== src/Request/Writes.antt =====
-- The byte strings that the functions of `Serialize` write.
use fastcgi_container.Base.{
  ℕ, zero, suc, ◌+◌, ◌-◌, ◌≤◌, ◌≡◌, refl, sym, ◌∙◌, ◌⊎◌, inl, inr, true, List, [], ◌∷◌, ◌++◌,
  append-nil, append_assoc, arith, ◌==◌, Bool-cases, length, drop, length-append, length-drop,
  Bytes, le_bytes, sub64,
}
use fastcgi_container.DataBuffer.{DataBuffer, size, chunks, contents}
use fastcgi_container.DataBuffer.Holds.{Holds, write-Holds}
use fastcgi_container.Request.State.{Request, File}
use fastcgi_container.Request.Serialize.{
  Out, put, serialize_int, serialize_string, serialize_pairs, serialize_group, put_chunks,
  serialize_buffer, serialize_file, serialize_file_list, serialize_files, pairs_size, files_size,
}
use fastcgi_container.Url.{NamedValue}

-- The buffer is written up to the position; `room` bytes are left.
pub record HasRoom (o : Out) (pre done rest post : Bytes) : Type 0 where
  pub holds : Holds o.buffer pre done rest post
  pub at : o.pos ≡ length done

-- With room for `x`, the function `f` writes `x` and moves the position behind it.
pub record Emits (f : Out → Out) (x : Bytes) : Type 0 where
  pub emit :
      (o : Out) (pre done rest post : Bytes)
      → HasRoom o pre done rest post
      → length x ≤ length rest
      → HasRoom (f o) pre (done ++ x) (drop (length x) rest) post

put_lem :
    (x : Bytes) (b : DataBuffer) (pos : ℕ) (pre done rest post : Bytes)
    → Holds b pre done rest post
    → pos ≡ length done
    → length x ≤ length rest
    → HasRoom (put x (record { buffer = b; pos = pos })) pre (done ++ x) (drop (length x) rest) post
unfolding put
put_lem x b pos pre done rest post h at fits =
    let (holds, count) = write-Holds x rest h fits in
    rw at (record { holds = holds; at = omega (arith, count, length-append done x) })

pub put-Emits : (x : Bytes) → Emits (put x) x
put-Emits x = record {
  emit =
      λ o pre done rest post h fits. put_lem x o.buffer o.pos pre done rest post h.holds h.at fits;
}

drop-nil {ℓ} : {A : Type ℓ} (n : ℕ) → drop {A = A} n [] ≡ []
drop-nil zero = refl
drop-nil (suc n) = refl

pub drop_twice {ℓ} :
    {A : Type ℓ} (n m k : ℕ) (xs : List A) → k ≡ n + m → drop m (drop n xs) ≡ drop k xs
drop_twice zero m k xs h = let same : k ≡ m = omega arith in rw same refl
drop_twice (suc n) m k [] h = drop-nil m ∙ sym (drop-nil k)
drop_twice (suc n) m zero (x ∷ xs) h = absurd (omega arith)
drop_twice (suc n) m (suc k) (x ∷ xs) h = drop_twice n m k xs (omega arith)

pub Emits-nil : (f : Out → Out) → ((o : Out) → f o ≡ o) → Emits f []
Emits-nil f same = record { emit = λ o pre done rest post h fits. rw (same o, append-nil done) h }

pub Emits-append :
    {f g : Out → Out} {x y : Bytes} → Emits f x → Emits g y → Emits (λ o. g (f o)) (x ++ y)
Emits-append {f} {g} {x} {y} ef eg = record {
  emit = λ o pre done rest post h fits.
      let first = ef.emit o pre done rest post h (omega (arith, length-append x y)) in
      let both =
        eg.emit (f o) pre (done ++ x) (drop (length x) rest) post first
          (omega (arith, length-append x y, length-drop (length x) rest)) in
      rw
        (
          append_assoc done x y,
          drop_twice (length x) (length y) (length (x ++ y)) rest (length-append x y),
        )
        at both;
}

-- The byte strings, in the order of the code.
unfoldable pub int_bytes : ℕ → Bytes
int_bytes = le_bytes 8

unfoldable pub string_bytes : Bytes → Bytes
string_bytes s = int_bytes (length s) ++ s

unfoldable pub pair_bytes : NamedValue → Bytes
pair_bytes e = string_bytes e.name ++ string_bytes e.value

abbrev pub flat {ℓ} : {A : Type ℓ} → (A → Bytes) → List A → Bytes
flat f [] = []
flat f (x ∷ xs) = f x ++ flat f xs

unfoldable pub group_bytes : List NamedValue → Bytes
group_bytes m = int_bytes (pairs_size m) ++ flat pair_bytes m

unfoldable pub buffer_bytes : DataBuffer → Bytes
buffer_bytes b = int_bytes (size b) ++ contents b

unfoldable pub file_bytes : DataBuffer → File → Bytes
file_bytes body f =
    string_bytes f.name
    ++ (string_bytes f.remote_name
        ++ (string_bytes f.type
            ++ (int_bytes (sub64 f.content.begin body.begin)
                ++ int_bytes (sub64 f.content.end f.content.begin))))

unfoldable pub files_bytes : Request → Bytes
files_bytes r = int_bytes (files_size r.files) ++ flat (file_bytes r.body) r.files

pub length-int_bytes : (v : ℕ) → length (int_bytes v) ≡ 8
unfolding int_bytes
length-int_bytes v = refl

pub length-string_bytes : (s : Bytes) → length (string_bytes s) ≡ 8 + length s
unfolding string_bytes
length-string_bytes s =
    omega (arith, length-append (int_bytes (length s)) s, length-int_bytes (length s))

pub serialize_int-Emits : (v : ℕ) → Emits (serialize_int v) (int_bytes v)
unfolding int_bytes serialize_int
serialize_int-Emits v = put-Emits (int_bytes v)

pub serialize_string-Emits : (s : Bytes) → Emits (serialize_string s) (string_bytes s)
unfolding string_bytes serialize_string
serialize_string-Emits s = Emits-append (serialize_int-Emits (length s)) (put-Emits s)

pair-Emits :
    (e : NamedValue)
    → Emits (λ o. serialize_string e.value (serialize_string e.name o)) (pair_bytes e)
unfolding pair_bytes
pair-Emits e = Emits-append (serialize_string-Emits e.name) (serialize_string-Emits e.value)

serialize_pairs-Emits : (m : List NamedValue) → Emits (serialize_pairs m) (flat pair_bytes m)
unfolding serialize_pairs
serialize_pairs-Emits [] = Emits-nil (serialize_pairs []) (λ o. refl)
serialize_pairs-Emits (e ∷ m) = Emits-append (pair-Emits e) (serialize_pairs-Emits m)

pub serialize_group-Emits : (m : List NamedValue) → Emits (serialize_group m) (group_bytes m)
unfolding group_bytes serialize_group
serialize_group-Emits m =
    Emits-append (serialize_int-Emits (pairs_size m)) (serialize_pairs-Emits m)

contents_empty : (b : DataBuffer) → (b.begin == b.end) ≡ true → contents b ≡ []
unfolding contents
contents_empty b h = let gap : b.end - b.begin ≡ 0 = ground arith in rw gap refl

chunks_cases :
    (b : DataBuffer) → ((chunks b ≡ []) × (contents b ≡ [])) ⊎ (chunks b ≡ contents b ∷ [])
unfolding chunks
chunks_cases b = elim (Bool-cases (b.begin == b.end)) [
  | inl e ↦ inl (rw e refl, contents_empty b e)
  | inr e ↦ inr (rw e refl)
]

put_chunks-Emits : (b : DataBuffer) → Emits (put_chunks (chunks b)) (contents b)
put_chunks-Emits b = elim (chunks_cases b) [
  | inl (e, k) ↦ rw (e, k) (Emits-nil (put_chunks []) (λ o. refl))
  | inr e ↦ rw e (put-Emits (contents b))
]

pub serialize_buffer-Emits : (b : DataBuffer) → Emits (serialize_buffer b) (buffer_bytes b)
unfolding buffer_bytes serialize_buffer
serialize_buffer-Emits b = Emits-append (serialize_int-Emits (size b)) (put_chunks-Emits b)

serialize_file-Emits :
    (body : DataBuffer) (f : File) → Emits (serialize_file body f) (file_bytes body f)
unfolding file_bytes serialize_file
serialize_file-Emits body f = Emits-append (serialize_string-Emits f.name) (
    Emits-append (serialize_string-Emits f.remote_name) (
      Emits-append (serialize_string-Emits f.type) (
        Emits-append (serialize_int-Emits (sub64 f.content.begin body.begin))
          (serialize_int-Emits (sub64 f.content.end f.content.begin)))))

serialize_file_list-Emits :
    (body : DataBuffer) (fs : List File)
    → Emits (serialize_file_list body fs) (flat (file_bytes body) fs)
serialize_file_list-Emits body [] = Emits-nil (λ o. o) (λ o. refl)
serialize_file_list-Emits body (f ∷ fs) =
    Emits-append (serialize_file-Emits body f) (serialize_file_list-Emits body fs)

pub serialize_files-Emits : (r : Request) → Emits (serialize_files r) (files_bytes r)
unfolding files_bytes serialize_files
serialize_files-Emits r =
    Emits-append (serialize_int-Emits (files_size r.files))
      (serialize_file_list-Emits r.body r.files)
