-- ===== src/Security/Guard.antt =====
-- What the filter of an authenticator keeps from the filters and handlers behind it.
use fastcgi_container.Base.{
  ℕ, ◌≡◌, refl, ◌⊎◌, inl, inr, Bool, true, false, none, List, [], ◌∷◌, arith, Bool-cases, All,
  Bytes,
}
use fastcgi_container.Request.State.{Request}
use fastcgi_container.Security.{anonymous_subject, has_principal, Subject}
use fastcgi_container.Security.Authenticator.{
  Client, Outcome, returned, thrown, ◌>>=◌, Constraint, get_subject, unauthorized, is_authenticated,
  or_authenticate, set_request_subject, applies, is_required, is_authorized, admit, do_filter,
}

module _ (regex_match : Bytes → Bytes → Bool) (hash : Bytes → ℕ) where
  -- The subject has the role of every constraint that applies to the request.
  abbrev pub IsAllowed : List Constraint → Request → Subject → Type 0
  IsAllowed ks req s =
      All (λ k. applies regex_match hash req k ≡ true → has_principal hash k.role s ≡ true) ks

  required-IsAllowed :
      (ks : List Constraint) (req : Request) (s : Subject)
      → is_required regex_match hash ks req ≡ false
      → IsAllowed ks req s
  unfolding is_required
  required-IsAllowed [] req s h = tt
  required-IsAllowed (k ∷ ks) req s h = elim (Bool-cases (applies regex_match hash req k)) [
    | inl e ↦ absurd (ground arith)
    | inr e ↦ (λ a. absurd (ground arith), required-IsAllowed ks req s (ground arith))
  ]

  authorized-IsAllowed :
      (ks : List Constraint) (req : Request) (s : Subject)
      → is_authorized regex_match hash ks req s ≡ true
      → IsAllowed ks req s
  unfolding is_authorized
  authorized-IsAllowed [] req s h = tt
  authorized-IsAllowed (k ∷ ks) req s h =
      (λ a. ground arith, authorized-IsAllowed ks req s (ground arith))

  admit_same :
      (ks : List Constraint) (req : Request) (next other : Client → Outcome (Unit {0}))
      → ((d : Client) → IsAllowed ks req (get_subject d) → next d ≡ other d)
      → (passed : Bool) (c : Client)
      → admit regex_match hash ks req next passed c ≡ admit regex_match hash ks req other passed c
  admit_same ks req next other same false c = refl
  admit_same ks req next other same true c =
      elim (Bool-cases (is_authorized regex_match hash ks req (get_subject c))) [
        | inl e ↦ rw (e, same c (authorized-IsAllowed ks req (get_subject c) e)) refl
        | inr e ↦ rw e refl
      ]

  bind_same {ℓ} :
      {A : Type ℓ} (m : Outcome A) (f g : A → Client → Outcome (Unit {0}))
      → ((a : A) (c : Client) → f a c ≡ g a c)
      → (m >>= f) ≡ (m >>= g)
  bind_same (returned a c) f g h = h a c
  bind_same (thrown e c) f g h = refl

  -- What the next filter would do with a client whose subject lacks a role, of a constraint that
  -- applies to the request, makes no difference: `doFilter` gives the same for any two that agree on
  -- the clients with all those roles. So it calls the next filter for no other client.
  pub do_filter_guards :
      (ks : List Constraint) (authenticate : Client → Outcome Bool) (req : Request)
      (next other : Client → Outcome (Unit {0})) (c : Client)
      → ((d : Client) → IsAllowed ks req (get_subject d) → next d ≡ other d)
      → do_filter regex_match hash ks authenticate req next c
        ≡ do_filter regex_match hash ks authenticate req other c
  unfolding do_filter
  do_filter_guards ks authenticate req next other c same =
      elim (Bool-cases (is_required regex_match hash ks req)) [
        | inl e ↦ rw e (bind_same _ _ _ (admit_same ks req next other same))
        | inr e ↦ rw e (same c (required-IsAllowed ks req (get_subject c) e))
      ]

  -- Who the client is: known to the session or the request, or by a login.
  abbrev pub authenticated : (Client → Outcome Bool) → Client → Outcome Bool
  authenticated authenticate c =
      is_authenticated c >>= or_authenticate regex_match hash authenticate

  -- No subject is left where no exception was thrown, or `m` is an authentication that failed and
  -- left the request processed.
  abbrev IsCleared : Outcome Bool → Outcome (Unit {0}) → Type 0
  IsCleared m (thrown e d) = Unit
  IsCleared m (returned a d) = (d.subject ≡ none) ⊎ ((m ≡ returned false d) × (d.processed ≡ true))

  next-IsCleared :
      (m : Outcome Bool) (n : Outcome (Unit {0}))
      → IsCleared m (n >>= λ u d. set_request_subject anonymous_subject d)
  unfolding set_request_subject anonymous_subject
  next-IsCleared m (returned a c) = inl refl
  next-IsCleared m (thrown e c) = tt

  refused-IsCleared :
      (m : Outcome Bool) (n : Outcome (Unit {0})) → IsCleared m (n >>= λ u d. thrown unauthorized d)
  refused-IsCleared m (returned a c) = tt
  refused-IsCleared m (thrown e c) = tt

  admit-IsCleared :
      (ks : List Constraint) (req : Request) (next : Client → Outcome (Unit {0})) (m : Outcome Bool)
      → IsCleared m (m >>= admit regex_match hash ks req next)
  admit-IsCleared ks req next (thrown e c) = tt
  admit-IsCleared ks req next (returned false c) = elim (Bool-cases c.processed) [
    | inl e ↦ simp e (inr (refl, refl))
    | inr e ↦ simp e tt
  ]
  admit-IsCleared ks req next (returned true c) =
      elim (Bool-cases (is_authorized regex_match hash ks req (get_subject c))) [
        | inl e ↦ rw e (next-IsCleared _ (next c))
        | inr e ↦ rw e (refused-IsCleared _ (set_request_subject anonymous_subject c))
      ]

  -- A request that needed an authentication and is handled without an exception is left with no
  -- subject; or its authentication ended without a login and left the request as processed.
  pub do_filter_clears :
      (ks : List Constraint) (authenticate : Client → Outcome Bool) (req : Request)
      (next : Client → Outcome (Unit {0})) (c d : Client)
      → is_required regex_match hash ks req ≡ true
      → do_filter regex_match hash ks authenticate req next c ≡ returned tt d
      → (d.subject ≡ none)
        ⊎ ((authenticated authenticate c ≡ returned false d) × (d.processed ≡ true))
  unfolding do_filter
  do_filter_clears ks authenticate req next c d need h =
      let m = authenticated authenticate c in
      let cleared : IsCleared m (do_filter regex_match hash ks authenticate req next c) =
        rw need (admit-IsCleared ks req next m) in
      rw h at cleared
