-- ===== src/Compiler.antt =====
-- page-compiler/main.cpp: the page compiler's run over its pages. `files` holds the pages; the
-- options of the command line are a record, and what goes to the console is left out.
pub mod Names
pub mod Sources
use fastcgi_container.Base.{
  ℕ, zero, suc, ◌+◌, ◌-◌, ◌*◌, ◌/◌, ◌%◌, ◌^◌, ◌≤◌, ◌<◌, ◌≡◌, refl, sym, ap, ◌∙◌, ◌≢◌, ◌↔◌, ◌⊎◌, inl,
  inr, Bool, true, false, not, ◌&&◌, ◌||◌, Option, none, some, List, [], ◌∷◌, ◌++◌, append-nil,
  append_assoc, arith, ltb, leb, ◌==◌, if◌then◌else◌, ==_iff, ==_refl, Bool-cases, Option-cases,
  table, table-entry, length, take, drop, length-append, length-take, length-drop, take-append-drop,
  take-append, drop-append, replicate, length-replicate, take_front, drop_front, take_all, all, All,
  Bytes, IsBytes, codes, equal, equal_iff, lex_less, char_key, le_bytes, le_value, sub64,
  le_value-le_bytes, sub64_le, decimal, is_space, is_alnum, is_upper, is_lower, is_digit, between,
  to_upper, to_lower,
}
use fastcgi_container.FilePath.{basename}
use fastcgi_container.Map.{Map, less_string, assign, has, get}
use fastcgi_container.Page.{Page, empty_page, has_attribute, get_attribute}
use fastcgi_container.Page.Reader.{Result, ok, thrown, endless, ◌>>=◌}
use fastcgi_container.Page.Parse.{parse_page}
use fastcgi_container.Page.Writer.{concat, write_header}
use fastcgi_container.Page.Files.{
  write_impl, write_factory, write_components_config, write_handlers_config,
}

pub record Options : Type 0 where
  pub output_path : Bytes
  pub module_name : Bytes
  pub thread_pool_name : Bytes
  pub logger_name : Bytes

-- A file that is written: its name and its text.
pub record Written : Type 0 where
  pub file_name : Bytes
  pub text : Bytes

-- The global variables, and the files.
pub record Compiler : Type 0 where
  pub classes : Map
  pub components : Map
  pub filters : Map
  pub factory_includes : Bytes
  pub factory : Bytes
  pub components_config : Bytes
  pub handlers_config : Bytes
  pub src_files : List Bytes
  pub written : List Written

abbrev pub new_compiler : Compiler
new_compiler = record {
  classes = [];
  components = [];
  filters = [];
  factory_includes = [];
  factory = [];
  components_config = [];
  handlers_config = [];
  src_files = [];
  written = [];
}

abbrev pub class_attribute : Bytes
class_attribute = codes "page.class"

module _ (options : Options) (remove_empty : Bytes → Bytes) where
  abbrev pub impl_name : Bytes → Bytes
  impl_name clazz = options.output_path ++ (clazz ++ codes ".cpp")

  abbrev pub header_name : Bytes → Bytes
  header_name clazz = options.output_path ++ (clazz ++ codes ".h")

  -- The files and the texts for a class; the configuration may throw.
  unfoldable pub write : Page → Bytes → Compiler → Result Compiler
  unfolding basename write_impl write_header write_factory write_components_config
      write_handlers_config
  write page clazz s =
      let header = header_name clazz in
      let factory = write_factory clazz page (basename header) in
      write_components_config clazz page options.module_name options.logger_name s.components
      >>= λ (entry, components).
          write_handlers_config clazz page options.thread_pool_name s.filters
          >>= λ (handler, filters). ok (record s {
            components = components;
            filters = filters;
            factory_includes = s.factory_includes ++ factory.0;
            factory = s.factory ++ factory.1;
            components_config = s.components_config ++ entry;
            handlers_config = s.handlers_config ++ handler;
            src_files = s.src_files ++ impl_name clazz ∷ [];
            written =
                s.written
                ++ record {
                  file_name = impl_name clazz;
                  text = write_impl clazz remove_empty page (basename header);
                }
                  ∷ record { file_name = header; text = write_header clazz page header }
                  ∷ [];
          })

  module _ (files : Bytes → Option Bytes) (depth : ℕ) where
    -- A file that does not open is an empty stream.
    abbrev pub content : Option Bytes → Bytes
    content none = []
    content (some text) = text

    -- The page, and the name of its class, or the empty text.
    unfoldable pub parse : Bytes → Result (Page × Bytes)
    unfolding parse_page has_attribute get_attribute
    parse path = parse_page files depth path (content (files path)) empty_page >>= λ page.
        ok (page, get_attribute class_attribute [] page)

    abbrev pub compile_class : Bytes → Page → Bytes → Compiler → Result Compiler
    compile_class path page clazz s =
        if has less_string s.classes clazz
        then thrown (
            concat (
              codes "duplicate class name "
              ∷ clazz
              ∷ codes " defined in file "
              ∷ path
              ∷ codes "; previously defined in "
              ∷ get less_string s.classes clazz
              ∷ []))
        else write page clazz (record s { classes = assign less_string clazz path s.classes })

    unfoldable pub compile : Bytes → Compiler → Result Compiler
    unfolding parse write has get assign
    compile path s = parse path >>= λ (page, clazz).
        if equal clazz [] then ok s else compile_class path page clazz s

    unfoldable pub compile_pages : List Bytes → Compiler → Result Compiler
    unfolding compile
    compile_pages [] s = ok s
    compile_pages (path ∷ paths) s = compile path s >>= λ s'. compile_pages paths s'

  unfoldable pub factory_files : Compiler → List Written
  factory_files s =
      record {
        file_name = options.output_path ++ codes "cpsp_pages.hpp";
        text = concat (
            codes "// Automatically generated file: don't edit\n\n"
            ∷ codes "#ifndef INCLUDE_AUTO_CPSP_PAGES_HPP_\n"
            ∷ codes "#define INCLUDE_AUTO_CPSP_PAGES_HPP_\n"
            ∷ s.factory_includes
            ∷ codes "#endif /* INCLUDE_AUTO_CPSP_PAGES_HPP_ */\n"
            ∷ []);
      }
      ∷ record {
        file_name = options.output_path ++ codes "cpsp_factory.inc";
        text = codes "// Automatically generated file: don't edit\n\n" ++ s.factory;
      }
      ∷ []

  abbrev pub config_file : Bytes → Bytes → Bytes → Written
  config_file name tag text = record {
    file_name = options.output_path ++ name;
    text = concat (
        codes "<?xml version=\"1.0\" ?>\n\n"
        ∷ codes "<!-- Automatically generated file: don't edit -->\n\n<"
        ∷ tag
        ∷ codes ">\n"
        ∷ text
        ∷ codes "</"
        ∷ tag
        ∷ codes ">\n"
        ∷ []);
  }

  unfoldable pub config_files : Compiler → List Written
  config_files s =
      config_file (codes "components.xml") (codes "components") s.components_config
      ∷ config_file (codes "handlers.xml") (codes "handlers") s.handlers_config
      ∷ []

  abbrev pub source_lines : List Bytes → Bytes
  source_lines [] = []
  source_lines (src ∷ srcs) = concat (codes "\t" ∷ src ∷ codes " \\\n" ∷ source_lines srcs ∷ [])

  unfoldable pub make_file : Compiler → Written
  make_file s = record {
    file_name = options.output_path ++ codes "Makefile.am";
    text = concat (
        codes "pkglib_LTLIBRARIES = "
        ∷ options.module_name
        ∷ codes ".la\n\n"
        ∷ options.module_name
        ∷ codes "_la_LDFLAGS = -module\n"
        ∷ options.module_name
        ∷ codes "_la_SOURCES = \\\n"
        ∷ source_lines s.src_files
        ∷ codes "\tfactory.cpp\n\n"
        ∷ []);
  }
