-- ===== src/Map.antt =====
-- `std::map` with strings for keys and values, as the list of its entries in the order of the keys.
-- VarMap and HeaderMap of include/fastcgi3/request.h differ in that order.
pub mod Order
pub mod Found
pub mod Kept
use mathlib.Core.List.{map}
use fastcgi_container.Base.{
  ℕ, zero, suc, ◌+◌, ◌-◌, ◌*◌, ◌/◌, ◌%◌, ◌^◌, ◌≤◌, ◌<◌, ◌≡◌, refl, sym, ap, ◌∙◌, ◌≢◌, ◌↔◌, ◌⊎◌, inl,
  inr, Bool, true, false, not, ◌&&◌, ◌||◌, Option, none, some, List, [], ◌∷◌, ◌++◌, append-nil,
  append_assoc, arith, ltb, leb, ◌==◌, if◌then◌else◌, ==_iff, ==_refl, Bool-cases, Option-cases,
  length, take, drop, length-append, length-take, length-drop, take-append-drop, take-append,
  drop-append, replicate, length-replicate, take_front, drop_front, take_all, all, All, Bytes,
  IsBytes, codes, equal, equal_iff, lex_less, char_key, le_bytes, le_value, sub64,
  le_value-le_bytes, sub64_le, is_space, is_alnum, is_upper, is_lower, is_digit, between, to_upper,
  to_lower,
}
use fastcgi_container.Url.{NamedValue}

abbrev pub Map : Type 0
Map = List NamedValue

abbrev pub entry : Bytes → Bytes → NamedValue
entry k v = record { name = k; value = v }

-- std::less<std::string>
abbrev pub less_string : Bytes → Bytes → Bool
less_string = lex_less (λ c. c)

-- StringCILess
abbrev pub less_ci : Bytes → Bytes → Bool
less_ci = lex_less (λ c. char_key (to_lower c))

-- m.insert(a), for entries of any type; an entry with that key stays.
unfoldable pub insert_by {ℓ} :
    {A : Type ℓ} → (Bytes → Bytes → Bool) → (A → Bytes) → A → List A → List A
insert_by less key a [] = a ∷ []
insert_by less key a (e ∷ m) =
    let rest = insert_by less key a m in
    if less (key a) (key e) then a ∷ e ∷ m else if less (key e) (key a) then e ∷ rest else e ∷ m

module _ (less : Bytes → Bytes → Bool) where
  unfoldable pub insert : NamedValue → Map → Map
  unfolding insert_by
  insert e m = insert_by less (λ e. e.name) e m

  -- m[k] = v
  unfoldable pub assign : Bytes → Bytes → Map → Map
  assign k v [] = entry k v ∷ []
  assign k v (e ∷ m) =
      let rest = assign k v m in
      if less k e.name
      then entry k v ∷ e ∷ m
      else if less e.name k
      then e ∷ rest
      else entry e.name v ∷ m

  -- m.find(k)
  unfoldable pub find : Bytes → Map → Option Bytes
  find k [] = none
  find k (e ∷ m) =
      let rest = find k m in
      if less k e.name then none else if less e.name k then rest else some e.value

  -- Parser::get and Parser::has
  unfoldable pub get : Map → Bytes → Bytes
  unfolding find
  get m k = elim (find k m) [ none ↦ [] | some v ↦ v ]

  unfoldable pub has : Map → Bytes → Bool
  unfolding find
  has m k = elim (find k m) [ none ↦ false | some v ↦ true ]
