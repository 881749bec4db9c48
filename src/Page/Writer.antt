-- ===== src/Page/Writer.antt =====
-- `CodeWriter` of page-compiler/code_writer.cpp: the texts that it writes for a page. `clazz` is the
-- name of the class; `remove_empty` is the std::regex_replace by `_removeEmptyString`.
use mathlib.Core.List.{map}
use fastcgi_container.Base.{List, [], ◌∷◌, ◌++◌, length, Bytes, codes}
use fastcgi_container.Text.{split, replace_all}
use fastcgi_container.FilePath.{basename}
use fastcgi_container.Page.{Page, get_attribute}

abbrev pub concat : List Bytes → Bytes
concat [] = []
concat (t ∷ ts) = t ++ concat ts

-- A part of the text that stands only behind what is not empty.
abbrev pub unless_empty : Bytes → Bytes → Bytes
unless_empty [] text = []
unless_empty (c ∷ r) text = text

unfoldable pub guard : Bytes → Bytes
unfolding basename replace_all
guard header_file_name =
    let name = basename header_file_name in
    replace_all (length name) (codes ".") (codes "_") name ++ codes "_INCLUDED"

unfoldable pub begin_guard : Bytes → Bytes
unfolding guard
begin_guard file =
    concat (codes "#ifndef " ∷ guard file ∷ codes "\n#define " ∷ guard file ∷ codes "\n\n\n" ∷ [])

unfoldable pub end_guard : Bytes → Bytes
unfolding guard
end_guard file = concat (codes "\n\n#endif // " ∷ guard file ∷ codes "\n" ∷ [])

-- The attribute's value, or the empty text.
abbrev pub attribute_of : Page → Bytes → Bytes
attribute_of page name = get_attribute name [] page

unfoldable pub begin_namespace : Page → Bytes
unfolding get_attribute split
begin_namespace page =
    let ns = attribute_of page (codes "page.namespace") in
    unless_empty ns (
      concat (map (λ n. concat (codes "namespace " ∷ n ∷ codes " {\n" ∷ [])) (split ns b':'))
      ++ codes "\n\n")

unfoldable pub end_namespace : Page → Bytes
unfolding get_attribute split
end_namespace page =
    let ns = attribute_of page (codes "page.namespace") in
    unless_empty ns (
      concat (
        codes "\n\n"
        ∷ concat (map (λ n. codes "} ") (split ns b':'))
        ∷ codes "// namespace "
        ∷ ns
        ∷ codes "\n"
        ∷ []))

unfoldable pub write_header_includes : Bytes
write_header_includes = concat (
    codes "#include \"fastcgi3/component.h\"\n"
    ∷ codes "#include \"fastcgi3/http_request.h\"\n"
    ∷ codes "#include \"fastcgi3/http_response.h\"\n"
    ∷ codes "#include \"fastcgi3/http_servlet.h\"\n"
    ∷ [])

unfoldable pub write_impl_includes : Bytes
write_impl_includes = concat (
    codes "#include <iostream>\n"
    ∷ codes "#include <stdexcept>\n"
    ∷ codes "#include \"fastcgi3/logger.h\"\n"
    ∷ codes "#include \"fastcgi3/config.h\"\n"
    ∷ codes "#include \"fastcgi3/except.h\"\n"
    ∷ codes "#include \"fastcgi3/stream.h\"\n"
    ∷ codes "#include \"fastcgi3/handler.h\"\n"
    ∷ codes "#include \"fastcgi3/request.h\"\n"
    ∷ codes "#include \"fastcgi3/component.h\"\n"
    ∷ codes "#include \"fastcgi3/component_factory.h\"\n"
    ∷ codes "#include \"fastcgi3/http_request.h\"\n"
    ∷ codes "#include \"fastcgi3/http_response.h\"\n"
    ∷ codes "#include \"fastcgi3/http_servlet.h\"\n"
    ∷ [])

unfoldable pub write_handler_members : Page → Bytes
write_handler_members page =
    unless_empty page.methods (concat (codes "\nprivate:\n" ∷ page.methods ∷ codes "\n\n" ∷ []))

unfoldable pub write_response : Page → Bytes
unfolding get_attribute
write_response page =
    let lang = attribute_of page (codes "page.contentLanguage") in
    concat (
      codes "\tresponse->setContentType(\""
      ∷ get_attribute (codes "page.contentType") (codes "text/html") page
      ∷ codes "\");\n"
      ∷ unless_empty lang (
          concat (
            codes "\tif (request->hasHeader(\"Accept-Language\")) {\n"
            ∷ codes "\t\tresponse->setHeader(\"Content-Language\", \""
            ∷ lang
            ∷ codes "\");\n\t}"
            ∷ []))
      ∷ codes "\n"
      ∷ [])

abbrev pub base_class : Page → Bytes
base_class page = get_attribute (codes "page.baseClass") (codes "fastcgi::Servlet") page

abbrev pub ctor_argument : Page → Bytes
ctor_argument page =
    get_attribute (codes "page.ctorArg")
      (codes "std::shared_ptr<fastcgi::ComponentContext> context") page

module _ (clazz : Bytes) where
  unfoldable pub handler_class : Page → Bytes → Bytes → Bytes
  unfolding get_attribute write_handler_members
  handler_class page base ctor_arg =
      let exported = attribute_of page (codes "page.export") in
      concat (
        codes "class "
        ∷ unless_empty exported (exported ++ codes " ")
        ∷ clazz
        ∷ codes ": public "
        ∷ base
        ∷ codes " {\npublic:\n"
        ∷ unless_empty ctor_arg
            (concat (codes "\t" ∷ clazz ∷ codes "(" ∷ ctor_arg ∷ codes ");\n\n" ∷ []))
        ∷ codes "\tvoid handleRequest(fastcgi::HttpRequest* request, "
        ∷ codes "fastcgi::HttpResponse* response) override;\n"
        ∷ write_handler_members page
        ∷ unless_empty (attribute_of page (codes "page.path"))
            (codes "\n\tstatic const std::string PATH;\n")
        ∷ codes "};\n"
        ∷ [])

  unfoldable pub write_handler_class : Page → Bytes
  unfolding handler_class
  write_handler_class page = handler_class page (base_class page) (ctor_argument page)

  unfoldable pub write_header : Page → Bytes → Bytes
  unfolding begin_guard write_header_includes begin_namespace write_handler_class end_namespace
      end_guard
  write_header page file = concat (
      begin_guard file
      ∷ write_header_includes
      ∷ codes "\n\n#undef CPSP_CLASS_NAME\n#define CPSP_CLASS_NAME "
      ∷ clazz
      ∷ codes "\n\n"
      ∷ unless_empty page.header_decls (page.header_decls ++ codes "\n\n")
      ∷ begin_namespace page
      ∷ write_handler_class page
      ∷ end_namespace page
      ∷ end_guard file
      ∷ [])
