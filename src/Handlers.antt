-- ===== src/Handlers.antt =====
-- library/handlerset.cpp: which handlers and filters a request goes to. `init`, which reads the
-- descriptions from the configuration, is not modelled.
pub mod Found
use fastcgi_container.Base.{
  ℕ, zero, suc, ◌+◌, ◌-◌, ◌*◌, ◌/◌, ◌%◌, ◌^◌, ◌≤◌, ◌<◌, ◌≡◌, refl, sym, ap, ◌∙◌, ◌≢◌, ◌↔◌, ◌⊎◌, inl,
  inr, Bool, true, false, not, ◌&&◌, ◌||◌, Option, none, some, List, [], ◌∷◌, ◌++◌, append-nil,
  append_assoc, arith, ltb, leb, ◌==◌, if◌then◌else◌, ==_iff, ==_refl, Bool-cases, Option-cases,
  table, table-entry, length, take, drop, length-append, length-take, length-drop, take-append-drop,
  take-append, drop-append, replicate, length-replicate, take_front, drop_front, take_all, all, All,
  Bytes, IsBytes, codes, equal, equal_iff, lex_less, char_key, le_bytes, le_value, sub64,
  le_value-le_bytes, sub64_le, decimal, is_space, is_alnum, is_upper, is_lower, is_digit, between,
  to_upper, to_lower,
}
use fastcgi_container.Filters.{Filter, url, check, check_url}
use fastcgi_container.Request.State.{Request}

-- An entry of `SelectorArray`.
pub record Selector : Type 0 where
  pub kind : Bytes
  pub filter : Filter

-- `HandlerDescription` and `FilterDescription`, with handlers or filters of the type `H`.
pub record Description {ℓ} (H : Type ℓ) : Type ℓ where
  pub selectors : List Selector
  pub handlers : List H
  pub pool_name : Bytes
  pub id : Bytes

abbrev pub is_kind : Bytes → Bool
is_kind kind =
    equal kind (codes "url")
    || equal kind (codes "host")
    || equal kind (codes "address")
    || equal kind (codes "port")
    || equal kind (codes "referer")
    || equal kind (codes "param")

-- What follows a test that may throw.
abbrev pub after_check : Option Bool → Option Bool → Option Bool
after_check none rest = none
after_check (some true) rest = rest
after_check (some false) rest = some false

module _ (regex_match : Bytes → Bytes → Bool) where
  -- The loop over the selectors: `matched` behind it. `none` is an exception of a test.
  unfoldable pub matched : List Selector → Request → Option Bool
  unfolding check
  matched [] r = some true
  matched (f ∷ fs) r =
      let rest = matched fs r in
      if is_kind f.kind then after_check (check regex_match f.filter r) rest else rest

  -- `checkUrl` of a filter that is registered as "url".
  abbrev pub check_uri : Filter → Bytes → Bool
  check_uri (url prefix regex) text = check_url regex_match prefix regex text
  check_uri f text = false

  abbrev pub any_uri : List Selector → Bytes → Bool
  any_uri [] text = false
  any_uri (f ∷ fs) text = equal f.kind (codes "url") && check_uri f.filter text || any_uri fs text

  module _ {ℓ} {H : Type ℓ} where
    -- What the outer loop does with the result of the inner one.
    abbrev pub found_or :
        Description H
        → Option Bool
        → Option (Option (Description H))
        → Option (Option (Description H))
    found_or d none rest = none
    found_or d (some true) rest = some (some d)
    found_or d (some false) rest = rest

    -- `findURIHandler` for a request; `some none` is the null pointer.
    unfoldable pub find_uri_handler :
        List (Description H) → Request → Option (Option (Description H))
    find_uri_handler [] r = some none
    find_uri_handler (d ∷ ds) r =
        let rest = find_uri_handler ds r in found_or d (matched d.selectors r) rest

    -- `findURIHandler` for a path.
    unfoldable pub find_by_uri : List (Description H) → Bytes → Option (Description H)
    unfolding check_url
    find_by_uri [] text = none
    find_by_uri (d ∷ ds) text =
        let rest = find_by_uri ds text in if any_uri d.selectors text then some d else rest

    abbrev pub add_matched : Description H → Option Bool → Option (List H) → Option (List H)
    add_matched d none rest = none
    add_matched d (some true) none = none
    add_matched d (some true) (some v) = some (d.handlers ++ v)
    add_matched d (some false) rest = rest

    -- `findURIFilters`
    unfoldable pub find_uri_filters : List (Description H) → Request → Option (List H)
    find_uri_filters [] r = some []
    find_uri_filters (d ∷ ds) r =
        let rest = find_uri_filters ds r in add_matched d (matched d.selectors r) rest
