-- ===== src/Compiler/Sources.antt =====
-- The files that a run over pages writes.
use fastcgi_container.Base.{
  inr, Bool, inl, equal, Bool-cases, ℕ, refl, Option, ◌≡◌, sym, ap, ◌∙◌, ◌≢◌, true, false, List, [],
  ◌∷◌, ◌++◌, All, All-append, Bytes,
}
use fastcgi_container.Map.{Map, less_string, assign, has}
use fastcgi_container.Map.Kept.{has-assign_self, has-assign_kept}
use fastcgi_container.Page.{Page}
use fastcgi_container.Page.Reader.{ok, bind_returned}
use fastcgi_container.Page.Files.{write_components_config, write_handlers_config}
use fastcgi_container.Compiler.{
  compile_class, compile_pages, parse, compile, Options, Compiler, new_compiler, impl_name,
  header_name, write,
}
use fastcgi_container.Compiler.Names.{
  IsDistinct, IsDistinct-append, names_of, sources_of, files_of, names_of-append, sources_of-append,
  files_of-append, files_of-IsDistinct,
}

ok_inj {ℓ} : {A : Type ℓ} {a b : A} → ok a ≡ ok b → a ≡ b
ok_inj e = cc

module _ (options : Options) (remove_empty : Bytes → Bytes) where
  -- What is written are the files of different classes that are recorded.
  pub record IsOwned (s : Compiler) : Type 0 where
    pub written_for : List Bytes
    pub known : All (λ c. has less_string s.classes c ≡ true) written_for
    pub distinct : IsDistinct written_for
    pub sources : s.src_files ≡ sources_of options remove_empty written_for
    pub files : names_of options remove_empty s.written ≡ files_of options remove_empty written_for

  known-assign :
      (m : Map) (k v : Bytes) (cs : List Bytes)
      → All (λ c. has less_string m c ≡ true) cs
      → All (λ c. has less_string (assign less_string k v m) c ≡ true) cs
  known-assign m k v [] h = tt
  known-assign m k v (c ∷ cs) h = (has-assign_kept c k v m h.0, known-assign m k v cs h.1)

  known-ne :
      (m : Map) (clazz : Bytes) (cs : List Bytes)
      → has less_string m clazz ≡ false
      → All (λ c. has less_string m c ≡ true) cs
      → All (λ c. c ≢ clazz) cs
  known-ne m clazz [] n h = tt
  known-ne m clazz (c ∷ cs) n h = (
    λ e. let b : true ≡ false = sym h.0 ∙ ap (has less_string m) e ∙ n in cc,
    known-ne m clazz cs n h.1,
  )

  write-files :
      (page : Page) (clazz : Bytes) (s t : Compiler)
      → write options remove_empty page clazz s ≡ ok t
      → (t.src_files ≡ s.src_files ++ impl_name options remove_empty clazz ∷ [])
        × (t.classes ≡ s.classes)
        × (names_of options remove_empty t.written
            ≡ names_of options remove_empty s.written
              ++ impl_name options remove_empty clazz ∷ header_name options remove_empty clazz ∷ [])
  unfolding write
  write-files page clazz s t e =
      let (a, ea, ha) =
        bind_returned _
          (write_components_config clazz page options.module_name options.logger_name s.components)
          e in
      let (b, eb, hb) =
        bind_returned _ (write_handlers_config clazz page options.thread_pool_name s.filters) ea in
      let all = ok_inj eb in
      (
        ap (λ (u : Compiler). u.src_files) (sym all),
        ap (λ (u : Compiler). u.classes) (sym all),
        ap (λ (u : Compiler). names_of options remove_empty u.written) (sym all)
            ∙ names_of-append options remove_empty s.written _,
      )

  write-IsOwned :
      (page : Page) (path clazz : Bytes) (s t : Compiler)
      → IsOwned s
      → has less_string s.classes clazz ≡ false
      → write options remove_empty page clazz
          (record s { classes = assign less_string clazz path s.classes })
        ≡ ok t
      → IsOwned t
  write-IsOwned page path clazz s t v n e =
      let m = assign less_string clazz path s.classes in
      let cs = v.written_for in
      let (sources, classes, files) = write-files page clazz (record s { classes = m }) t e in
      record {
        written_for = cs ++ clazz ∷ [];
        known = rw classes (
            All-append (λ c. has less_string m c ≡ true) cs clazz
              (known-assign s.classes clazz path cs v.known)
              (has-assign_self clazz path s.classes));
        distinct = IsDistinct-append cs clazz v.distinct (known-ne s.classes clazz cs n v.known);
        sources =
            sources
            ∙ ap (λ fs. fs ++ impl_name options remove_empty clazz ∷ []) v.sources
            ∙ sym (sources_of-append options remove_empty cs clazz);
        files =
            files
            ∙ ap
                (λ fs.
                  fs
                  ++ impl_name options remove_empty clazz
                    ∷ header_name options remove_empty clazz
                    ∷ [])
                v.files
            ∙ sym (files_of-append options remove_empty cs clazz);
      }

  module _ (files : Bytes → Option Bytes) (depth : ℕ) where
    class-IsOwned :
        (path : Bytes) (page : Page) (clazz : Bytes) (s t : Compiler) (known : Bool)
        → has less_string s.classes clazz ≡ known
        → IsOwned s
        → compile_class options remove_empty files depth path page clazz s ≡ ok t
        → IsOwned t
    class-IsOwned path page clazz s t true k v e = let e' = rw k at e in cc
    class-IsOwned path page clazz s t false k v e =
        let e' = rw k at e in write-IsOwned page path clazz s t v k e'

    compile-IsOwned :
        (path : Bytes) (s t : Compiler)
        → IsOwned s
        → compile options remove_empty files depth path s ≡ ok t
        → IsOwned t
    unfolding compile
    compile-IsOwned path s t v e =
        let ((page, clazz), ea, ha) =
          bind_returned _ (parse options remove_empty files depth path) e in
        elim (Bool-cases (equal clazz [])) [
          | inl k ↦ let same : ok s ≡ ok t = rw k at ea in let e' : s ≡ t = cc in rw (← e') v
          | inr k ↦
              let e' = rw k at ea in
              class-IsOwned path page clazz s t (has less_string s.classes clazz) refl v e'
        ]

    pages-IsOwned :
        (paths : List Bytes) (s t : Compiler)
        → IsOwned s
        → compile_pages options remove_empty files depth paths s ≡ ok t
        → IsOwned t
    unfolding compile_pages
    pages-IsOwned [] s t v e = let e' : s ≡ t = cc in rw (← e') v
    pages-IsOwned (path ∷ paths) s t v e =
        let (m, em, hm) = bind_returned _ (compile options remove_empty files depth path s) e in
        pages-IsOwned paths m t (compile-IsOwned path s m v hm) em

    -- Where the page compiler compiles all pages without an exception, the files written for them are
    -- the source file and the header of one class after another, of different classes that are
    -- recorded, and the list of sources is that of their source files; no name is written twice.
    pub compile_pages-IsOwned :
        (paths : List Bytes) (t : Compiler)
        → compile_pages options remove_empty files depth paths new_compiler ≡ ok t
        → IsOwned t × IsDistinct (names_of options remove_empty t.written)
    compile_pages-IsOwned paths t e =
        let start : IsOwned new_compiler = record {
          written_for = [];
          known = tt;
          distinct = tt;
          sources = refl;
          files = refl;
        } in
        let v = pages-IsOwned paths new_compiler t start e in
        (v, rw v.files (files_of-IsDistinct options remove_empty v.written_for v.distinct))
