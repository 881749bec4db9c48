-- ===== src/RequestPool/Chain.antt =====
-- The vector of functions that call one another by index, and filters nested around the handlers.
use fastcgi_container.Base.{
  ℕ, suc, ◌≡◌, refl, ap, ◌∙◌, true, false, List, [], ◌∷◌, ◌++◌, append_assoc, arith, ltb,
  if◌then◌else◌, length, drop, length-append, drop-append,
}
use fastcgi_container.RequestPool.{Handler, Filter, filter_at, run_filters}

-- Each filter with what comes next, from the last one on.
abbrev pub nested : List Filter → Handler → Handler
nested [] handlers = handlers
nested (f ∷ fs) handlers = f (nested fs handlers)

filter_at_step :
    (fuel k : ℕ) (fs rest : List Filter) (f : Filter) (handlers : Handler)
    → drop k fs ≡ f ∷ rest
    → filter_at (suc fuel) fs k handlers
      ≡ f (if ltb (suc k) (length fs) then filter_at fuel fs (suc k) handlers else handlers)
unfolding filter_at
filter_at_step fuel k fs rest f handlers h = rw (h, filter_at) refl

filter_at-nested :
    (rest before : List Filter) (f : Filter) (handlers : Handler)
    → filter_at (suc (length rest)) (before ++ f ∷ rest) (length before) handlers
      ≡ nested (f ∷ rest) handlers
filter_at-nested [] before f handlers =
    let last : ltb (suc (length before)) (length (before ++ f ∷ [])) ≡ false =
      ground (arith, length-append before (f ∷ [])) in
    filter_at_step 0 (length before) (before ++ f ∷ []) [] f handlers (drop-append before (f ∷ []))
    ∙ rw last refl
filter_at-nested (g ∷ rest) before f handlers =
    let more : ltb (suc (length before)) (length (before ++ f ∷ g ∷ rest)) ≡ true =
      ground (arith, length-append before (f ∷ g ∷ rest)) in
    let here : length (before ++ f ∷ []) ≡ suc (length before) =
      omega (arith, length-append before (f ∷ [])) in
    filter_at_step (suc (length rest)) (length before) (before ++ f ∷ g ∷ rest) (g ∷ rest) f
      handlers (drop-append before (f ∷ g ∷ rest))
    ∙ rw more (
        ap f (
          rw (append_assoc before (f ∷ []) (g ∷ rest), here) at
            (filter_at-nested rest (before ++ f ∷ []) g handlers)))

-- The filters run in their order, each around all that come behind it, and the handlers innermost.
pub run_filters-nested :
    (filters : List Filter) (handlers : Handler)
    → run_filters filters handlers ≡ nested filters handlers
unfolding run_filters
run_filters-nested [] handlers = refl
run_filters-nested (f ∷ fs) handlers =
    let some_left : ltb 0 (suc (length fs)) ≡ true = ground arith in
    rw some_left (filter_at-nested fs [] f handlers)
