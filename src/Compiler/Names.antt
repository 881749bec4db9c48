-- ===== src/Compiler/Names.antt =====
-- The names of the files of some classes.
use mathlib.Core.List.{append_cancel_left, append_cancel_right, reverse, reverse-append}
use fastcgi_container.Base.{
  ℕ, refl, ◌≡◌, sym, ap, ◌∙◌, ◌≢◌, List, [], ◌∷◌, ◌++◌, arith, All, All-append, Bytes, codes,
}
use fastcgi_container.Compiler.{Options, Written, impl_name, header_name}

-- No name stands twice.
abbrev pub IsDistinct : List Bytes → Type 0
IsDistinct [] = Unit
IsDistinct (f ∷ fs) = All (λ g. f ≢ g) fs × IsDistinct fs

pub IsDistinct-append :
    (fs : List Bytes) (g : Bytes) → IsDistinct fs → All (λ f. f ≢ g) fs → IsDistinct (fs ++ g ∷ [])
IsDistinct-append [] g h k = (tt, tt)
IsDistinct-append (f ∷ fs) g h k =
    (All-append (λ g'. f ≢ g') fs g h.0 k.0, IsDistinct-append fs g h.1 k.1)

abbrev first_byte : Bytes → ℕ
first_byte [] = 0
first_byte (c ∷ r) = c

module _ (options : Options) (remove_empty : Bytes → Bytes) where
  abbrev pub names_of : List Written → List Bytes
  names_of [] = []
  names_of (w ∷ ws) = w.file_name ∷ names_of ws

  -- The source files of some classes, and all their files, in order.
  abbrev pub sources_of : List Bytes → List Bytes
  sources_of [] = []
  sources_of (c ∷ cs) = impl_name options remove_empty c ∷ sources_of cs

  abbrev pub files_of : List Bytes → List Bytes
  files_of [] = []
  files_of (c ∷ cs) =
      impl_name options remove_empty c ∷ header_name options remove_empty c ∷ files_of cs

  pub names_of-append : (ws us : List Written) → names_of (ws ++ us) ≡ names_of ws ++ names_of us
  names_of-append [] us = refl
  names_of-append (w ∷ ws) us = ap (◌∷◌ w.file_name) (names_of-append ws us)

  pub sources_of-append :
      (cs : List Bytes) (c : Bytes)
      → sources_of (cs ++ c ∷ []) ≡ sources_of cs ++ impl_name options remove_empty c ∷ []
  sources_of-append [] c = refl
  sources_of-append (d ∷ cs) c =
      ap (◌∷◌ (impl_name options remove_empty d)) (sources_of-append cs c)

  pub files_of-append :
      (cs : List Bytes) (c : Bytes)
      → files_of (cs ++ c ∷ [])
        ≡ files_of cs ++ impl_name options remove_empty c ∷ header_name options remove_empty c ∷ []
  files_of-append [] c = refl
  files_of-append (d ∷ cs) c =
      ap (λ fs. impl_name options remove_empty d ∷ header_name options remove_empty d ∷ fs)
        (files_of-append cs c)

  impl_name-ne :
      (a b : Bytes) → a ≢ b → impl_name options remove_empty a ≢ impl_name options remove_empty b
  impl_name-ne a b n e =
      n (append_cancel_right a b (codes ".cpp") (append_cancel_left options.output_path _ _ e))

  header_name-ne :
      (a b : Bytes)
      → a ≢ b
      → header_name options remove_empty a ≢ header_name options remove_empty b
  header_name-ne a b n e =
      n (append_cancel_right a b (codes ".h") (append_cancel_left options.output_path _ _ e))

  -- Their last bytes differ.
  impl_name-ne-header_name :
      (a b : Bytes) → impl_name options remove_empty a ≢ header_name options remove_empty b
  impl_name-ne-header_name a b e =
      let same : a ++ codes ".cpp" ≡ b ++ codes ".h" =
        append_cancel_left options.output_path _ _ e in
      let ends : reverse (codes ".cpp") ++ reverse a ≡ reverse (codes ".h") ++ reverse b =
        sym (reverse-append a (codes ".cpp")) ∙ ap reverse same ∙ reverse-append b (codes ".h") in
      absurd (omega (arith, ap first_byte ends))

  others-ne :
      (c : Bytes) (cs : List Bytes)
      → All (λ d. c ≢ d) cs
      → All (λ f. impl_name options remove_empty c ≢ f) (files_of cs)
        × All (λ f. header_name options remove_empty c ≢ f) (files_of cs)
  others-ne c [] h = (tt, tt)
  others-ne c (d ∷ cs) h =
      let rest = others-ne c cs h.1 in
      (
        (impl_name-ne c d h.0, (impl_name-ne-header_name c d, rest.0)),
        (λ e. impl_name-ne-header_name d c (sym e), (header_name-ne c d h.0, rest.1)),
      )

  pub files_of-IsDistinct : (cs : List Bytes) → IsDistinct cs → IsDistinct (files_of cs)
  files_of-IsDistinct [] h = tt
  files_of-IsDistinct (c ∷ cs) h =
      let others = others-ne c cs h.0 in
      ((impl_name-ne-header_name c c, others.0), (others.1, files_of-IsDistinct cs h.1))
