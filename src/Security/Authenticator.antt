-- ===== src/Security/Authenticator.antt =====
-- library/security_authenticator.cpp: the filter that lets a request pass to the next filter or the
-- handlers, with `setSubject` and `getSubject` of library/request.cpp and library/session.cpp.
use fastcgi_container.Base.{
  ℕ, ◌+◌, Bool, true, false, not, ◌&&◌, ◌||◌, Option, none, some, List, [], ◌∷◌, if◌then◌else◌,
  Bytes,
}
use fastcgi_container.Filters.{check_url}
use fastcgi_container.Request.Lookups.{script_name}
use fastcgi_container.Request.State.{Request}
use fastcgi_container.Security.{Subject, is_anonymous, anonymous_subject, has_principal}

-- What a request and its session know of the client. `has_session` says whether `getSession` gives a
-- session; `id_changes` counts the calls of `changeSessionId`.
pub record Client : Type 0 where
  pub subject : Option Subject
  pub has_session : Bool
  pub session_subject : Option Subject
  pub id_changes : ℕ
  pub processed : Bool

pub data Refusal : Type 0 where
  unauthorized forbidden : Refusal
  -- `Request::setSubject` throws for a second subject.
  subject_assigned : Refusal
  -- What a login or the next filter throws.
  other : ℕ → Refusal

-- The state after a call, and its value or its exception.
pub data Outcome {ℓ} (A : Type ℓ) : Type ℓ where
  returned : A → Client → Outcome A
  thrown : Refusal → Client → Outcome A

infixl 5 ◌>>=◌
abbrev pub ◌>>=◌ {ℓ κ} :
    {A : Type ℓ} {B : Type κ} → Outcome A → (A → Client → Outcome B) → Outcome B
returned a c >>= f = f a c
thrown e c >>= f = thrown e c

abbrev pub or_anonymous : Option Subject → Subject
or_anonymous none = anonymous_subject
or_anonymous (some s) = s

-- `Request::getSubject`, `Session::getSubject`
abbrev pub get_subject : Client → Subject
get_subject c = or_anonymous c.subject

abbrev pub session_subject : Client → Subject
session_subject c = or_anonymous c.session_subject

abbrev pub is_assigned : Option Subject → Bool
is_assigned none = false
is_assigned (some s) = true

-- `Request::setSubject`
unfoldable pub set_request_subject : Subject → Client → Outcome (Unit {0})
unfolding is_anonymous
set_request_subject s c =
    if is_anonymous s
    then returned tt (record c { subject = none })
    else if is_assigned c.subject
    then thrown subject_assigned c
    else returned tt (record c { subject = some s })

-- `Request::isUserInRole`
unfoldable pub is_user_in_role : (Bytes → ℕ) → Bytes → Client → Bool
is_user_in_role hash role c = has_principal hash role (get_subject c)

-- `changeSessionIdOnAuthentication_` is the first argument.
unfoldable pub set_subject : Bool → Subject → Client → Outcome (Unit {0})
set_subject change s c = set_request_subject s (
    if c.has_session
    then record c {
      session_subject = some s;
      id_changes = if not (is_anonymous s) && change then c.id_changes + 1 else c.id_changes;
    }
    else c)

-- `isAuthenticated`
unfoldable pub is_authenticated : Client → Outcome Bool
is_authenticated c =
    if is_anonymous (get_subject c)
    then if c.has_session && not (is_anonymous (session_subject c))
      then (set_request_subject (session_subject c) c >>= λ u d.
          returned (not (is_anonymous (session_subject c))) d)
      else returned (not (is_anonymous (get_subject c))) c
    else returned true c

-- `doLogin`, for the realm's answer.
unfoldable pub do_login : Bool → Option Subject → Client → Outcome Bool
do_login change none c = returned false c
do_login change (some s) c = set_subject change s c >>= λ u d. returned (not (is_anonymous s)) d

-- `SecurityConstraint`
pub record Constraint : Type 0 where
  pub regex : Bytes
  pub url_prefix : Bytes
  pub role : Bytes

module _ (regex_match : Bytes → Bytes → Bool) (hash : Bytes → ℕ) where
  unfoldable pub applies : Request → Constraint → Bool
  unfolding check_url script_name
  applies req k = check_url regex_match k.url_prefix k.regex (script_name req)

  -- `isAuthenticationRequired`
  unfoldable pub is_required : List Constraint → Request → Bool
  unfolding applies
  is_required [] req = false
  is_required (k ∷ ks) req = applies req k || is_required ks req

  -- `isAuthorized`
  unfoldable pub is_authorized : List Constraint → Request → Subject → Bool
  unfolding applies has_principal
  is_authorized [] req s = true
  is_authorized (k ∷ ks) req s =
      if applies req k && not (has_principal hash k.role s) then false else is_authorized ks req s

  -- Behind the test of `isAuthenticated` and `authenticate`.
  abbrev pub admit :
      List Constraint → Request → (Client → Outcome (Unit {0})) → Bool → Client → Outcome (Unit {0})
  admit ks req next false c = if c.processed then returned tt c else thrown forbidden c
  admit ks req next true c =
      if is_authorized ks req (get_subject c)
      then (next c >>= λ u d. set_request_subject anonymous_subject d)
      else (set_request_subject anonymous_subject c >>= λ u d. thrown unauthorized d)

  -- isAuthenticated(request) || authenticate(request)
  abbrev pub or_authenticate : (Client → Outcome Bool) → Bool → Client → Outcome Bool
  or_authenticate authenticate true c = returned true c
  or_authenticate authenticate false c = authenticate c

  -- `doFilter`. `authenticate` is the method of the class below.
  unfoldable pub do_filter :
      List Constraint
      → (Client → Outcome Bool)
      → Request
      → (Client → Outcome (Unit {0}))
      → Client
      → Outcome (Unit {0})
  unfolding is_required
  do_filter ks authenticate req next c =
      if is_required ks req
      then (is_authenticated c >>= or_authenticate authenticate >>= admit ks req next)
      else next c
