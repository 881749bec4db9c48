-- ===== src/Page.antt =====
-- `Page` of page-compiler/page.h and page.cpp: the code that the page compiler collects from a page.
-- The attributes are those of AttributesHolder, all strings, with no listeners.
pub mod Token
pub mod Reader
pub mod Parse
pub mod Rounds
pub mod Sections
pub mod Compiled
pub mod Printed
pub mod Writer
pub mod Files
use mathlib.Core.List.{map}
use fastcgi_container.Base.{Bool, [], ◌++◌, ◌||◌, if◌then◌else◌, Bytes, codes, equal, to_lower}
use fastcgi_container.Map.{Map, less_string, assign, get, has}

pub record Page : Type 0 where
  pub header_decls : Bytes
  pub impl_decls : Bytes
  pub handler : Bytes
  pub pre_handler : Bytes
  pub methods : Bytes
  pub functions : Bytes
  pub attributes : Map

abbrev pub empty_page : Page
empty_page = record {
  header_decls = [];
  impl_decls = [];
  handler = [];
  pre_handler = [];
  methods = [];
  functions = [];
  attributes = [];
}

-- `page.handler() << text`, and so on.
abbrev pub write_handler : Bytes → Page → Page
write_handler text p = record p { handler = p.handler ++ text }

abbrev pub write_pre_handler : Bytes → Page → Page
write_pre_handler text p = record p { pre_handler = p.pre_handler ++ text }

abbrev pub write_methods : Bytes → Page → Page
write_methods text p = record p { methods = p.methods ++ text }

abbrev pub write_functions : Bytes → Page → Page
write_functions text p = record p { functions = p.functions ++ text }

abbrev pub write_header_decls : Bytes → Page → Page
write_header_decls text p = record p { header_decls = p.header_decls ++ text }

abbrev pub write_impl_decls : Bytes → Page → Page
write_impl_decls text p = record p { impl_decls = p.impl_decls ++ text }

-- AttributesHolder::hasAttribute, setAttribute and getAttribute with a default value.
unfoldable pub has_attribute : Bytes → Page → Bool
unfolding has
has_attribute name p = has less_string p.attributes name

unfoldable pub set_attribute : Bytes → Bytes → Page → Page
unfolding assign
set_attribute name value p = record p { attributes = assign less_string name value p.attributes }

unfoldable pub get_attribute : Bytes → Bytes → Page → Bytes
unfolding has_attribute get
get_attribute name default p =
    if has_attribute name p then get less_string p.attributes name else default

unfoldable pub get_bool : Bytes → Bool → Page → Bool
unfolding has_attribute get
get_bool property default p =
    let value = map to_lower (get less_string p.attributes property) in
    if has_attribute property p
    then equal value (codes "true") || equal value (codes "yes") || equal value (codes "on")
    else default
