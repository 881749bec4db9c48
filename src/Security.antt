-- ===== src/Security.antt =====
-- library/security_principal.cpp and library/security_subject.cpp: who a request comes from.
--
-- A `Subject` is shared by pointers, but is changed only while it is built, so it is a value here.
pub mod Principals
pub mod Authenticator
pub mod Guard
use fastcgi_container.Base.{
  ℕ, zero, suc, ◌+◌, ◌-◌, ◌*◌, ◌/◌, ◌%◌, ◌^◌, ◌≤◌, ◌<◌, ◌≡◌, refl, sym, ap, ◌∙◌, ◌≢◌, ◌↔◌, ◌⊎◌, inl,
  inr, Bool, true, false, not, ◌&&◌, ◌||◌, Option, none, some, List, [], ◌∷◌, ◌++◌, append-nil,
  append_assoc, arith, ltb, leb, ◌==◌, if◌then◌else◌, ==_iff, ==_refl, Bool-cases, Option-cases,
  table, table-entry, length, take, drop, length-append, length-take, length-drop, take-append-drop,
  take-append, drop-append, replicate, length-replicate, take_front, drop_front, take_all, all, All,
  Bytes, IsBytes, codes, equal, equal_iff, lex_less, char_key, le_bytes, le_value, sub64,
  le_value-le_bytes, sub64_le, decimal, is_space, is_alnum, is_upper, is_lower, is_digit, between,
  to_upper, to_lower,
}

pub record Principal : Type 0 where
  pub name : Bytes

pub record Subject : Type 0 where
  pub principals : List Principal
  pub read_only : Bool

pub data SubjectError : Type 0 where
  duplicate_principal read_only_subject : SubjectError

abbrev pub anonymous : Bytes
anonymous = codes "Anonymous"

-- `Subject::isAnonymous`
abbrev pub any_anonymous : List Principal → Bool
any_anonymous [] = false
any_anonymous (p ∷ ps) = equal p.name anonymous || any_anonymous ps

unfoldable pub is_anonymous : Subject → Bool
is_anonymous s = any_anonymous s.principals

unfoldable pub new_subject : Subject
new_subject = record { principals = []; read_only = false }

unfoldable pub set_read_only : Subject → Subject
set_read_only s = record s { read_only = true }

-- `getAnonymousSubject`: what its first call builds, and each later call finds.
unfoldable pub anonymous_subject : Subject
anonymous_subject = record { principals = record { name = anonymous } ∷ []; read_only = true }

-- `hash` is std::hash<std::string>.
module _ (hash : Bytes → ℕ) where
  unfoldable pub hash_code : Principal → ℕ
  hash_code p = hash p.name

  abbrev pub any_code : ℕ → List Principal → Bool
  any_code code [] = false
  any_code code (p ∷ ps) = code == hash_code p || any_code code ps

  unfoldable pub has_code : ℕ → Subject → Bool
  unfolding hash_code
  has_code code s = any_code code s.principals

  unfoldable pub has_principal : Bytes → Subject → Bool
  unfolding has_code
  has_principal name s = has_code (hash name) s

  -- The subject after a call, and its exception.
  unfoldable pub set_principal : Principal → Subject → Subject × Option SubjectError
  unfolding has_code
  set_principal p s =
      if s.read_only
      then (s, some read_only_subject)
      else if has_code (hash_code p) s
      then (s, some duplicate_principal)
      else (record s { principals = s.principals ++ p ∷ [] }, none)

  -- The loop of `setPrincipals`; an exception leaves the principals that were added before it.
  unfoldable pub add_principals : List Principal → Subject → Subject × Option SubjectError
  unfolding has_code
  add_principals [] s = (s, none)
  add_principals (p ∷ ps) s =
      let rest = add_principals ps (record s { principals = s.principals ++ p ∷ [] }) in
      if has_code (hash_code p) s then (s, some duplicate_principal) else rest

  unfoldable pub set_principals : List Principal → Subject → Subject × Option SubjectError
  unfolding add_principals
  set_principals ps s = if s.read_only then (s, some read_only_subject) else add_principals ps s
