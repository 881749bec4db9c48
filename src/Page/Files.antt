-- ===== src/Page/Files.antt =====
-- The rest of `CodeWriter` of page-compiler/code_writer.cpp: the implementation file, the factory and
-- the entries of the configuration. `clazz` is the name of the class; `remove_empty` is the
-- std::regex_replace by `_removeEmptyString`. `_components` and `_filters` are static members: the
-- two maps pass from page to page.
use fastcgi_container.Base.{◌||◌, [], ◌∷◌, ◌++◌, if◌then◌else◌, Bytes, codes, equal}
use fastcgi_container.Map.{Map, less_string, assign, has, get}
use fastcgi_container.Page.{Page, has_attribute, get_attribute}
use fastcgi_container.Page.Reader.{Result, ok, thrown}
use fastcgi_container.Page.Writer.{
  concat, unless_empty, attribute_of, write_impl_includes, begin_namespace, end_namespace,
  write_response, base_class, ctor_argument,
}

module _ (clazz : Bytes) where
  unfoldable pub write_constructor : Page → Bytes
  unfolding get_attribute
  write_constructor page = concat (
      clazz
      ∷ codes "::"
      ∷ clazz
      ∷ codes "("
      ∷ ctor_argument page
      ∷ codes "):\n\t "
      ∷ base_class page
      ∷ codes "(context) {\n}\n\n\n"
      ∷ [])

  module _ (remove_empty : Bytes → Bytes) where
    abbrev pub write_content : Page → Bytes
    write_content page =
        codes "\tfastcgi::HttpResponseStream responseStream(response);\n"
        ++ remove_empty page.handler

    unfoldable pub write_page_handler : Page → Bytes
    unfolding write_response has_attribute get_attribute
    write_page_handler page = concat (
        codes "void\n"
        ∷ clazz
        ∷ codes "::handleRequest(fastcgi::HttpRequest* request, "
        ∷ codes "fastcgi::HttpResponse* response) {\n"
        ∷ write_response page
        ∷ (if has_attribute (codes "page.precondition") page
            then (concat (
                codes "\tif (!("
                ∷ attribute_of page (codes "page.precondition")
                ∷ codes ")) return;\n\n"
                ∷ []))
            else [])
        ∷ page.pre_handler
        ∷ write_content page
        ∷ codes "}\n"
        ∷ [])

    unfoldable pub write_impl : Page → Bytes → Bytes
    unfolding write_impl_includes begin_namespace write_constructor write_page_handler end_namespace
    write_impl page file =
        let path = attribute_of page (codes "page.path") in
        concat (
          codes "#include \""
          ∷ file
          ∷ codes "\"\n"
          ∷ write_impl_includes
          ∷ codes "\n"
          ∷ unless_empty page.impl_decls (page.impl_decls ++ codes "\n\n")
          ∷ unless_empty page.functions (page.functions ++ codes "\n\n")
          ∷ begin_namespace page
          ∷ unless_empty path (
              concat (
                codes "\tconst std::string "
                ∷ clazz
                ∷ codes "::PATH(\""
                ∷ path
                ∷ codes "\");\n\n\n"
                ∷ []))
          ∷ write_constructor page
          ∷ write_page_handler page
          ∷ end_namespace page
          ∷ [])

  abbrev pub component_name : Page → Bytes
  component_name page = get_attribute (codes "component.name") clazz page

  -- What is added to the includes and to the text.
  unfoldable pub write_factory : Page → Bytes → Bytes × Bytes
  unfolding begin_namespace end_namespace get_attribute
  write_factory page file =
      let name = component_name page in
      (
        unless_empty name (concat (codes "#include \"" ∷ file ∷ codes "\"\n" ∷ [])),
        unless_empty name (
            concat (
              begin_namespace page
              ∷ codes "FCGIDAEMON_ADD_DEFAULT_FACTORY(\""
              ∷ name
              ∷ codes "\", "
              ∷ clazz
              ∷ codes ")\n"
              ∷ end_namespace page
              ∷ [])),
      )

  -- The text of an entry, and the map behind it.
  unfoldable pub write_components_config : Page → Bytes → Bytes → Map → Result (Bytes × Map)
  unfolding get_attribute has get assign
  write_components_config page module_name logger_name components =
      let name = component_name page in
      let key = module_name ++ (codes ":" ++ name) in
      if equal name []
      then ok ([], components)
      else if has less_string components key
      then thrown (
          concat (
            codes "duplicate component name "
            ∷ key
            ∷ codes " for class "
            ∷ clazz
            ∷ codes "; previously defined for class "
            ∷ get less_string components key
            ∷ []))
      else ok (
        concat (
            codes "\t<component name=\""
            ∷ name
            ∷ codes "\" type=\""
            ∷ key
            ∷ codes "\">\n"
            ∷ unless_empty logger_name
                (concat (codes "\t\t<logger>" ∷ logger_name ∷ codes "</logger>\n" ∷ []))
            ∷ codes "\t</component>\n"
            ∷ []),
        assign less_string key clazz components,
      )

  -- A selector, if the page has the attribute and it is not empty.
  abbrev pub selector : Page → Bytes → Bytes → Bytes
  selector page attribute label =
      let value = attribute_of page attribute in
      unless_empty value (concat (label ∷ codes "=\"" ∷ value ∷ codes "\" " ∷ []))

  unfoldable pub handler_filter : Page → Bytes
  unfolding get_attribute
  handler_filter page =
      let url = get_attribute (codes "component.url") (codes "/" ++ component_name page) page in
      concat (
        unless_empty url (concat (codes "url=\"" ∷ url ∷ codes "\" " ∷ []))
        ∷ selector page (codes "component.host") (codes "host")
        ∷ selector page (codes "component.port") (codes "port")
        ∷ selector page (codes "component.address") (codes "address")
        ∷ selector page (codes "component.referer") (codes "referer")
        ∷ [])

  unfoldable pub write_handlers_config : Page → Bytes → Map → Result (Bytes × Map)
  unfolding handler_filter get_attribute has get assign
  write_handlers_config page pool_name filters =
      let name = component_name page in
      let filter = handler_filter page in
      if equal name [] || equal filter []
      then ok ([], filters)
      else if has less_string filters filter
      then thrown (
          concat (
            codes "duplicate filter "
            ∷ filter
            ∷ codes " for component "
            ∷ name
            ∷ codes "; previously defined for component "
            ∷ get less_string filters filter
            ∷ []))
      else ok (
        concat (
            codes "\t<handler "
            ∷ filter
            ∷ codes " pool=\""
            ∷ pool_name
            ∷ codes "\">\n\t\t<component name=\""
            ∷ name
            ∷ codes "\"/>\n\t</handler>\n"
            ∷ []),
        assign less_string filter name filters,
      )
