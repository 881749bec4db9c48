-- ===== src/Parser/Multipart/Bodies.antt =====
-- The parts and the whole of a multipart body.
use fastcgi_container.Base.{
  ℕ, zero, suc, ◌^◌, ◌<◌, inl, inr, Bool, true, false, List, [], ◌∷◌, All, arith, Bool-cases,
  length, Bytes, codes,
}
use fastcgi_container.DataBuffer.{DataBuffer, size}
use fastcgi_container.DataBuffer.Search.{empty}
use fastcgi_container.Request.State.{File, Request}
use fastcgi_container.Map.{insert_by, less_string}
use fastcgi_container.Parser.Multipart.{
  store_part, done, Names, no_names, parse_part, parse_multipart, part_or_none,
}
use fastcgi_container.Parser.Multipart.Within.{
  Ensures, bind-Ensures, Within, IsCut, split-IsCut, starts_with-Ensures, Within-Readable,
  to_string-Ensures,
}
use fastcgi_container.Parser.Multipart.Settled.{Any, AreReadable, Ensures-if, split_either-IsCut}
use fastcgi_container.Parser.Multipart.Parts.{
  parse_headers-Ensures, no_names-AreReadable, trim_part-Ensures,
}

-- What holds of all entries and of a new one.
All-insert_by {ℓ} :
    {A : Type ℓ} (less : Bytes → Bytes → Bool) (key : A → Bytes) (P : A → Type 0) (x : A)
    (xs : List A)
    → All P xs
    → P x
    → All P (insert_by less key x xs)
unfolding insert_by
All-insert_by less key P x [] h p = (p, tt)
All-insert_by less key P x (y ∷ xs) h p = elim (Bool-cases (less (key x) (key y))) [
  | inl e ↦ rw e (p, h)
  | inr e ↦ elim (Bool-cases (less (key y) (key x))) [
    | inl f ↦ rw (e, f) (h.0, All-insert_by less key P x xs h.1 p)
    | inr f ↦ rw (e, f) h
  ]
]

module _ (st : Bytes) (small : length st < 2 ^ 64) where
  -- `P` is what holds of the files, if it holds of each that has a window on the body.
  module _ (P : File → Type 0) (within : (f : File) → Within st f.content → P f) where
    abbrev pub Kept : Request → Type 0
    Kept r = All P r.files

    store_part-Ensures :
        (content : DataBuffer) (n : Names) (req : Request)
        → Within st content
        → AreReadable n
        → Kept req
        → Ensures Kept (store_part content n req)
    store_part-Ensures content n req v r h = Ensures-if st small Kept (empty n.name) _ _ h (
        bind-Ensures Any Kept _ _ (to_string-Ensures n.name r.0) λ name _.
          Ensures-if st small Kept (empty n.filename) _ _
            (bind-Ensures Any Kept _ _ (to_string-Ensures content (Within-Readable v)) λ value _. h)
            (bind-Ensures Any Kept _ _ (to_string-Ensures n.filename r.1) λ filename _.
              bind-Ensures Any Kept _ _ (to_string-Ensures n.type r.2) λ type _.
                All-insert_by less_string (λ (f : File). f.name) P _ req.files h (within _ v)))

    parse_part-Ensures :
        (part : DataBuffer) (req : Request)
        → Within st part
        → Kept req
        → Ensures Kept (parse_part part req)
    unfolding parse_part
    parse_part-Ensures part req v h =
        bind-Ensures (IsCut v) Kept _ _
          (split_either-IsCut st small (codes "\r\n\r\n") (codes "\n\n") part v (omega arith)
            (omega arith))
          λ cut k.
            bind-Ensures AreReadable Kept _ _
              (parse_headers-Ensures st small (suc (size cut.first)) part cut.first no_names v
                k.first (no_names-AreReadable st small) (omega arith))
              λ n r. store_part-Ensures cut.second n req k.second r h

    part_or_none-Ensures :
        (head : DataBuffer) (req : Request)
        → Within st head
        → Kept req
        → Ensures Kept (part_or_none head req)
    part_or_none-Ensures head req v h =
        Ensures-if st small Kept (empty head) _ _ h (parse_part-Ensures head req v h)

    pub multipart_loop :
        (fuel : ℕ) (boundary : Bytes) (body : DataBuffer) (req : Request)
        → 0 < length boundary
        → Within st body
        → Kept req
        → size body < fuel
        → Ensures Kept (parse_multipart fuel boundary body req)
    unfolding parse_multipart
    multipart_loop zero boundary body req d v h l = absurd (omega arith)
    multipart_loop (suc fuel) boundary body req d v h l = elim (Bool-cases (empty body)) [
      | inl e ↦ rw (e, parse_multipart) h
      | inr e ↦
          rw (e, parse_multipart)
            (bind-Ensures (IsCut v) Kept _ _ (split-IsCut v boundary d) λ cut k.
              bind-Ensures (Within st) Kept _ _ (trim_part-Ensures st small cut k.first) λ head w.
                bind-Ensures Kept Kept _ _ (part_or_none-Ensures head req w h) λ req' h'.
                  bind-Ensures Any Kept _ _ (starts_with-Ensures k.second (λ c. c) (codes "--"))
                    λ last _.
                      elim last
                        as (λ t. Ensures Kept (elim t [
                          | true ↦ done req'
                          | false ↦ parse_multipart fuel boundary cut.second req'
                        ])) [
                          | true ↦ h'
                          | false ↦
                              multipart_loop fuel boundary cut.second req' d k.second h'
                                (omega (arith, k.smaller e))
                        ])
    ]
