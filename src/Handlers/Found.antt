-- ===== src/Handlers/Found.antt =====
-- Which handlers `findURIHandler` finds.
use fastcgi_container.Base.{
  ◌++◌, ap, Option, Option-cases, sym, ◌∙◌, ◌≢◌, ◌≡◌, refl, inl, inr, Bool, true, false, none, some,
  List, [], ◌∷◌, arith, Bool-cases, All, Bytes,
}
use fastcgi_container.Filters.{check}
use fastcgi_container.Request.State.{Request}
use fastcgi_container.Handlers.{
  found_or, Description, find_uri_handler, Selector, is_kind, after_check, matched,
}

module _ (regex_match : Bytes → Bytes → Bool) where
  -- Every selector of a known kind lets the request pass.
  abbrev pub IsPassed : List Selector → Request → Type 0
  IsPassed fs r = All (λ f. is_kind f.kind ≡ true → check regex_match f.filter r ≡ some true) fs

  matched-IsPassed :
      (fs : List Selector) (r : Request) → matched regex_match fs r ≡ some true → IsPassed fs r
  unfolding matched
  matched-IsPassed [] r h = tt
  matched-IsPassed (f ∷ fs) r h = elim (Bool-cases (is_kind f.kind)) [
    | inr e ↦ (λ k. absurd (ground arith), matched-IsPassed fs r (ground arith))
    | inl e ↦
        elim (check regex_match f.filter r)
            as (λ c.
              after_check c (matched regex_match fs r) ≡ some true
              → (is_kind f.kind ≡ true → c ≡ some true) × IsPassed fs r) [
                | none ↦ λ k. cc
                | some b ↦
                    elim b
                      as (λ b.
                        after_check (some b) (matched regex_match fs r) ≡ some true
                        → (is_kind f.kind ≡ true → some b ≡ some true) × IsPassed fs r) [
                          | true ↦ λ k. (λ _. refl, matched-IsPassed fs r k)
                          | false ↦ λ k. cc
                        ]
              ]
          (rw e at h)
  ]

  -- A selector of a known kind whose test gives `o`, behind selectors that let the request pass.
  abbrev pub StopsAt : Option Bool → List Selector → Request → Type 0
  StopsAt o fs r =
      (before : List Selector) × (f : Selector) × (after : List Selector) × (fs
        ≡ before ++ f ∷ after)
      × IsPassed before r
      × (is_kind f.kind ≡ true)
      × (check regex_match f.filter r ≡ o)

  StopsAt-cons :
      (o : Option Bool) (f : Selector) (fs : List Selector) (r : Request)
      → (is_kind f.kind ≡ true → check regex_match f.filter r ≡ some true)
      → StopsAt o fs r
      → StopsAt o (f ∷ fs) r
  StopsAt-cons o f fs r p (before, g, after, same, passed, known, e) =
      (f ∷ before, g, after, ap (◌∷◌ f) same, (p, passed), known, e)

  matched-StopsAt :
      (o : Option Bool) (fs : List Selector) (r : Request)
      → o ≢ some true
      → matched regex_match fs r ≡ o
      → StopsAt o fs r
  unfolding matched
  matched-StopsAt o [] r n h = absurd (n (sym h))
  matched-StopsAt o (f ∷ fs) r n h = elim (Bool-cases (is_kind f.kind)) [
    | inr e ↦
        let h' : matched regex_match fs r ≡ o = ground arith in
        StopsAt-cons o f fs r (λ k. absurd (ground arith)) (matched-StopsAt o fs r n h')
    | inl e ↦ elim (Option-cases (check regex_match f.filter r)) [
      | inl c ↦ ([], f, fs, refl, tt, e, c ∙ rw (e, c) at h)
      | inr (true, c) ↦ StopsAt-cons o f fs r (λ _. c) (matched-StopsAt o fs r n (rw (e, c) at h))
      | inr (false, c) ↦ ([], f, fs, refl, tt, e, c ∙ rw (e, c) at h)
    ]
  ]

  module _ {ℓ} {H : Type ℓ} where
    -- A selector lets the request not pass, or its test throws.
    abbrev pub Fails : Request → Description H → Type 0
    Fails r d = StopsAt (some false) d.selectors r

    abbrev pub Throws : Request → Description H → Type 0
    Throws r d = StopsAt none d.selectors r

    -- What a result of the search says of the descriptions.
    abbrev pub FirstOf : Request → List (Description H) → Option (Option (Description H)) → Type ℓ
    FirstOf r ds none =
        (before : List (Description H)) × (d : Description H) × (after : List (Description H)) × (ds
          ≡ before ++ d ∷ after)
        × All (Fails r) before
        × Throws r d
    FirstOf r ds (some none) = All (Fails r) ds × Unit {ℓ}
    FirstOf r ds (some (some d)) =
        (before : List (Description H)) × (after : List (Description H)) × (ds
          ≡ before ++ d ∷ after)
        × All (Fails r) before
        × IsPassed d.selectors r

    FirstOf-cons :
        (r : Request) (d : Description H) (ds : List (Description H))
        (m : Option (Option (Description H)))
        → Fails r d
        → FirstOf r ds m
        → FirstOf r (d ∷ ds) m
    FirstOf-cons r d ds none h (before, e, after, same, fail, k) =
        (d ∷ before, e, after, ap (◌∷◌ d) same, (h, fail), k)
    FirstOf-cons r d ds (some none) h k = ((h, k.0), tt)
    FirstOf-cons r d ds (some (some e)) h (before, after, same, fail, k) =
        (d ∷ before, after, ap (◌∷◌ d) same, (h, fail), k)

    found_or-FirstOf :
        (r : Request) (d : Description H) (ds : List (Description H))
        (rest : Option (Option (Description H))) (m : Option Bool)
        → matched regex_match d.selectors r ≡ m
        → FirstOf r ds rest
        → FirstOf r (d ∷ ds) (found_or regex_match d m rest)
    found_or-FirstOf r d ds rest none e k =
        ([], d, ds, refl, tt, matched-StopsAt none d.selectors r (λ p. cc) e)
    found_or-FirstOf r d ds rest (some true) e k =
        ([], ds, refl, tt, matched-IsPassed d.selectors r e)
    found_or-FirstOf r d ds rest (some false) e k =
        FirstOf-cons r d ds rest (matched-StopsAt (some false) d.selectors r (λ p. cc) e) k

    -- `findURIHandler` gives the first description whose selectors of known kinds all let the request
    -- pass: in each description before it a selector of a known kind does not. It gives none where
    -- that is so in every description, and throws where a test throws, behind selectors that let the
    -- request pass and behind descriptions that do not.
    pub find_uri_handler-FirstOf :
        (ds : List (Description H)) (r : Request) → FirstOf r ds (find_uri_handler regex_match ds r)
    unfolding find_uri_handler
    find_uri_handler-FirstOf [] r = (tt, tt)
    find_uri_handler-FirstOf (d ∷ ds) r =
        found_or-FirstOf r d ds (find_uri_handler regex_match ds r)
          (matched regex_match d.selectors r) refl (find_uri_handler-FirstOf ds r)
