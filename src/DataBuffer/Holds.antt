-- ===== src/DataBuffer/Holds.antt =====
-- Reading and writing a buffer at a position that divides its window in two.
use Prim.Native.Nat.{min}
use fastcgi_container.Base.{
  ℕ, zero, suc, ◌+◌, ◌-◌, ◌≤◌, ◌≡◌, refl, inl, inr, List, [], ◌∷◌, ◌++◌, append-nil, append_assoc,
  arith, leb, Bool-cases, length, drop, length-append, length-drop, take-append, take_front,
  drop_front, take_all, Bytes, leb→le,
}
use fastcgi_container.DataBuffer.{DataBuffer, size, read, write, copy_to, copy_from}

-- The window of `b` holds `done` and `rest`; `pre` and `post` lie outside of it.
pub record Holds (b : DataBuffer) (pre done rest post : Bytes) : Type 0 where
  pub stored : b.storage ≡ (pre ++ done) ++ (rest ++ post)
  pub begins : b.begin ≡ length pre
  pub ends : b.end ≡ length pre + length done + length rest

-- Between positions in order nothing wraps round.
pub size_ordered : (b : DataBuffer) → b.begin ≤ b.end → size b ≡ b.end - b.begin
unfolding size
size_ordered b h = ground arith

pub nil_of_length {ℓ} : {A : Type ℓ} (xs : List A) → length xs ≤ 0 → xs ≡ []
nil_of_length [] h = refl
nil_of_length (x ∷ xs) h = absurd (omega arith)

drop-drop {ℓ} :
    {A : Type ℓ} (xs ys : List A) (n : ℕ) (k : ℕ)
    → k ≡ length xs + n
    → drop k (xs ++ ys) ≡ drop n ys
drop-drop [] ys n k h = (let same : k ≡ n = omega arith in rw same refl)
drop-drop (x ∷ xs) ys n zero h = absurd (omega arith)
drop-drop (x ∷ xs) ys n (suc k) h = drop-drop xs ys n k (omega arith)

drop_part {ℓ} :
    {A : Type ℓ} (xs ys : List A) (n : ℕ) → n ≤ length xs → drop n (xs ++ ys) ≡ drop n xs ++ ys
drop_part xs ys zero h = refl
drop_part [] ys (suc n) h = absurd (omega arith)
drop_part (x ∷ xs) ys (suc n) h = drop_part xs ys n (omega arith)

module _ {b : DataBuffer} {pre done post : Bytes} where
  pub size-Holds : (rest : Bytes) → Holds b pre done rest post → size b ≡ length done + length rest
  unfolding size
  size-Holds rest h = ground (arith, h.begins, h.ends)

  pub copied :
      (x rest : Bytes)
      → Holds b pre done (x ++ rest) post
      → copy_from b.storage (length done + b.begin) (length x) ≡ x
  copied x rest h =
      rw
        (
          h.stored,
          drop_front (length done + b.begin) (pre ++ done) ((x ++ rest) ++ post)
              (omega (arith, h.begins, length-append pre done)),
          append_assoc x rest post,
        )
        (take-append x (rest ++ post))

  pub read-Holds :
      (x rest : Bytes) → Holds b pre done (x ++ rest) post → read b (length done) (length x) ≡ x
  unfolding read
  read-Holds x rest h = elim (Bool-cases (leb (size b) (length done))) [
    | inl e ↦
        rw
          (
            e,
            nil_of_length x (
                omega (
                  arith,
                  h.begins,
                  h.ends,
                  length-append x rest,
                  size-Holds (x ++ rest) h,
                  leb→le (size b) (length done) e,
                )),
          )
          refl
    | inr e ↦
        let few : min (size b - length done) (length x) ≡ length x =
          omega (arith, size-Holds (x ++ rest) h, length-append x rest) in
        rw (e, few) (copied x rest h)
  ]

  written :
      (x rest : Bytes)
      → Holds b pre done rest post
      → length x ≤ length rest
      → Holds
          (record b { storage = copy_to b.storage (length done + b.begin) x })
          pre
          (done ++ x)
          (drop (length x) rest)
          post
  written x rest h fits =
      let at : length done + b.begin ≡ length (pre ++ done) =
        omega (arith, h.begins, length-append pre done) in
      record {
        stored =
            rw
              (
                h.stored,
                take_front (length done + b.begin) (pre ++ done) (rest ++ post) at,
                drop-drop (pre ++ done) (rest ++ post) (length x) (length done + b.begin + length x)
                    (omega (arith, at)),
                drop_part rest post (length x) fits,
              )
              (simp append_assoc);
        begins = h.begins;
        ends = omega (arith, h.ends, length-append done x, length-drop (length x) rest);
      }

  pub write-Holds :
      (x rest : Bytes)
      → Holds b pre done rest post
      → length x ≤ length rest
      → Holds (write b (length done) x).0 pre (done ++ x) (drop (length x) rest) post
        × ((write b (length done) x).1 ≡ length x)
  unfolding write
  write-Holds x rest h fits = elim (Bool-cases (leb (size b) (length done))) [
    | inl e ↦
        let none_left : x ≡ [] =
          nil_of_length x (omega (arith, size-Holds rest h, leb→le (size b) (length done) e)) in
        rw (e, none_left) (rw append-nil h, refl)
    | inr e ↦
        let few : min (size b - length done) (length x) ≡ length x =
          omega (arith, size-Holds rest h) in
        rw (e, few, take_all (length x) x (omega arith)) (written x rest h fits, refl)
  ]
