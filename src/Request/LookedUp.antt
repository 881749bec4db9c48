-- ===== src/Request/LookedUp.antt =====
-- The three ways to ask for an argument of a request.
use fastcgi_container.Base.{
  ◌≡◌, refl, inl, inr, Bool, true, false, List, [], ◌∷◌, Bool-cases, Bytes, equal,
}
use fastcgi_container.Request.State.{Request}
use fastcgi_container.Request.Lookups.{
  any_named, first_named, all_named, has_arg, get_arg, get_args,
}
use fastcgi_container.Url.{NamedValue}

-- The first of some values, or the empty string.
abbrev pub first : List Bytes → Bytes
first [] = []
first (v ∷ vs) = v

abbrev pub is_some : List Bytes → Bool
is_some [] = false
is_some (v ∷ vs) = true

named :
    (name : Bytes) (args : List NamedValue)
    → (first_named name args ≡ first (all_named name args))
      × (any_named name args ≡ is_some (all_named name args))
named name [] = (refl, refl)
named name (a ∷ args) = elim (Bool-cases (equal a.name name)) [
  | inl e ↦ rw e (refl, refl)
  | inr e ↦ rw e (named name args)
]

-- The three ways to ask for an argument agree: `getArg` gives the first of the values under the name,
-- or the empty string where there is none, and `hasArg` says whether there is one.
pub arg_lookups :
    (name : Bytes) (r : Request)
    → (get_arg name r ≡ first (get_args name r)) × (has_arg name r ≡ is_some (get_args name r))
unfolding get_arg get_args has_arg
arg_lookups name r = named name r.args
