-- ===== src/Security/Principals.antt =====
-- The principals of a subject, which `setPrincipals` and `addPrincipals` extend.
use fastcgi_container.Base.{
  ℕ, ◌≡◌, refl, sym, ◌∙◌, inl, inr, false, ◌||◌, Option, none, List, [], ◌∷◌, ◌++◌, append-nil,
  append_assoc, arith, Bool-cases, Bytes,
}
use fastcgi_container.Security.{
  Principal, Subject, SubjectError, hash_code, any_code, has_code, add_principals, set_principals,
}

module _ (hash : Bytes → ℕ) where
  abbrev pub IsDistinct : List Principal → Type 0
  IsDistinct [] = Unit
  IsDistinct (p ∷ ps) = (any_code hash (hash_code hash p) ps ≡ false) × IsDistinct ps

  any_code-append :
      (code : ℕ) (ps qs : List Principal)
      → any_code hash code (ps ++ qs) ≡ (any_code hash code ps || any_code hash code qs)
  any_code-append code [] qs = refl
  any_code-append code (p ∷ ps) qs = ground (arith, any_code-append code ps qs)

  IsDistinct-append :
      (ps : List Principal) (p : Principal)
      → IsDistinct ps
      → any_code hash (hash_code hash p) ps ≡ false
      → IsDistinct (ps ++ p ∷ [])
  IsDistinct-append [] p h k = (refl, tt)
  IsDistinct-append (q ∷ ps) p h k = (
    ground (arith, any_code-append (hash_code hash q) ps (p ∷ [])),
    IsDistinct-append ps p h.1 (ground arith),
  )

  -- What a call that sets principals may do: without an exception it adds all of them at the end.
  pub record IsExtended (ps : List Principal) (s : Subject) (m : Subject × Option SubjectError)
      : Type 0 where
    pub distinct : IsDistinct m.0.principals
    pub added : m.1 ≡ none → m.0.principals ≡ s.principals ++ ps
    pub kept : m.0.read_only ≡ s.read_only

  add_principals-IsExtended :
      (ps : List Principal) (s : Subject)
      → IsDistinct s.principals
      → IsExtended ps s (add_principals hash ps s)
  unfolding add_principals has_code
  add_principals-IsExtended [] s h = record {
    distinct = h;
    added = λ e. sym (append-nil s.principals);
    kept = refl;
  }
  add_principals-IsExtended (p ∷ ps) s h = elim (Bool-cases (has_code hash (hash_code hash p) s)) [
    | inl e ↦ rw e (record { distinct = h; added = λ f. absurd (ground arith); kept = refl })
    | inr e ↦
        let t = record s { principals = s.principals ++ p ∷ [] } in
        let r = add_principals-IsExtended ps t (IsDistinct-append s.principals p h e) in
        rw e (record {
          distinct = r.distinct;
          added = λ f. r.added f ∙ append_assoc s.principals (p ∷ []) ps;
          kept = r.kept;
        })
  ]

  -- For a subject whose principals have different hash codes: after `setPrincipals`, with an exception
  -- or without, they still have; without one, the given principals stand behind the old ones, in
  -- order.
  pub set_principals-IsExtended :
      (ps : List Principal) (s : Subject)
      → IsDistinct s.principals
      → IsExtended ps s (set_principals hash ps s)
  unfolding set_principals
  set_principals-IsExtended ps s h = elim (Bool-cases s.read_only) [
    | inl e ↦ simp e (record { distinct = h; added = λ f. absurd (ground arith); kept = refl })
    | inr e ↦ simp e (add_principals-IsExtended ps s h)
  ]
