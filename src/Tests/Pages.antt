-- ===== src/Tests/Pages.antt =====
-- Runs of the page compiler, and the theorems about it at concrete arguments.
use fastcgi_container.Base.{
  ◌≡◌, ◌⊎◌, Bool, true, false, refl, false, Option, none, some, List, [], ◌∷◌, ◌++◌, arith,
  if◌then◌else◌, Bytes, codes, equal, decimal,
}
use fastcgi_container.FilePath.{is_separator, any, basename, path_to_file}
use fastcgi_container.FilePath.Parts.{EndsWith, path_to_file-basename}
use fastcgi_container.Page.{Page, empty_page, write_handler}
use fastcgi_container.Page.Reader.{Result, ok, thrown, endless, PageReader, new_reader, where_text}
use fastcgi_container.Page.Parse.{parse, parse_page, markup_begin, markup_end}
use fastcgi_container.Page.Sections.{Section, code, prelude, source, handler_code, collected}
use fastcgi_container.Page.Compiled.{parse-source}
use fastcgi_container.Page.Printed.{printed, expecting, without_returns, parse-printed}
use fastcgi_container.Compiler.{Options, Compiler, new_compiler, compile_pages}
use fastcgi_container.Compiler.Names.{IsDistinct, names_of}
use fastcgi_container.Compiler.Sources.{IsOwned, compile_pages-IsOwned}

abbrev no_files : Bytes → Option Bytes
no_files path = none

hello :
    parse_page no_files 1 (codes "a.html") (codes "Hi <%= name %>!\n") empty_page
    ≡ ok (record empty_page {
      handler =
          codes
            "\tresponseStream << \"Hi \";\n\tresponseStream << ( name );\n\tresponseStream << \"!\\n\";\n\tresponseStream << \"\";\n";
    })
unfolding parse_page
hello = refl

unclosed :
    parse_page no_files 1 (codes "a.html") (codes "<% x") empty_page
    ≡ thrown (codes "unclosed meta or code block: in file 'a.html', line 0")
unfolding parse_page decimal
unclosed = unfold where_text in refl

abbrev plain_reader : PageReader
plain_reader = new_reader (codes "a.html") []

abbrev no_include : Bytes → Page → Result Page
no_include path p = endless

abbrev greeting : List Section
greeting =
    record { tag = code; body = codes " f(); "; text = codes "<b>" }
    ∷ record { tag = prelude; body = codes "int x;"; text = codes "\"" }
    ∷ []

parse-source_example :
    parse no_include plain_reader (source (codes "Hi ") greeting) empty_page
    ≡ ok (
        collected greeting (
          write_handler
            (markup_begin ++ (handler_code (codes "Hi ") greeting ++ markup_end))
            empty_page))
parse-source_example =
    parse-source no_include plain_reader (codes "Hi ") greeting empty_page
      (refl, refl, refl, (refl, refl, refl, refl))

parse-printed_example :
    (q : Page) × (parse no_include plain_reader (codes "a\t\"b\"\r\n") empty_page ≡ ok q)
    × (printed (expecting markup_begin) q.handler ≡ some (without_returns (codes "a\t\"b\"\r\n")))
parse-printed_example =
    parse-printed no_include plain_reader (codes "a\t\"b\"\r\n") refl (omega arith)

path_to_file-basename_example :
    (path_to_file (codes "/a/b.c") ++ basename (codes "/a/b.c") ≡ codes "/a/b.c")
    × (any is_separator (basename (codes "/a/b.c")) ≡ false)
    × ((path_to_file (codes "/a/b.c") ≡ []) ⊎ EndsWith is_separator (path_to_file (codes "/a/b.c")))
path_to_file-basename_example = path_to_file-basename (codes "/a/b.c")

abbrev two_pages : Bytes → Option Bytes
two_pages path =
    if equal path (codes "a")
    then some (codes "<%@ page class=\"A\" %>x")
    else some (codes "<%@ page class='B' %>y")

abbrev options : Options
options = record {
  output_path = codes "out/";
  module_name = codes "m";
  thread_pool_name = codes "p";
  logger_name = [];
}

abbrev result : Result Compiler → Compiler
result (ok s) = s
result other = new_compiler

abbrev compiled : Result Compiler
compiled = compile_pages options (λ t. t) two_pages 1 (codes "a" ∷ codes "b" ∷ []) new_compiler

abbrev is_ok : Result Compiler → Bool
is_ok (ok s) = true
is_ok other = false

returned : (m : Result Compiler) → is_ok m ≡ true → m ≡ ok (result m)
returned (ok s) h = refl
returned (thrown text) h = cc
returned endless h = cc

compile_pages-IsOwned_example :
    IsOwned options (λ t. t) (result compiled)
    × IsDistinct (names_of options (λ t. t) (result compiled).written)
unfolding compile_pages
compile_pages-IsOwned_example =
    compile_pages-IsOwned options (λ t. t) two_pages 1 (codes "a" ∷ codes "b" ∷ [])
      (result compiled) (returned compiled refl)

compiled_files : (result compiled).src_files ≡ codes "out/A.cpp" ∷ codes "out/B.cpp" ∷ []
unfolding compile_pages
compiled_files = refl

component_entry :
    (result compiled).components_config
    ≡ codes
        "\t<component name=\"A\" type=\"m:A\">\n\t</component>\n\t<component name=\"B\" type=\"m:B\">\n\t</component>\n"
unfolding compile_pages
component_entry = refl
