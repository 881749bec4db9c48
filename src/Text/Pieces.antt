-- ===== src/Text/Pieces.antt =====
-- `split` on words that are joined by a separator.
use fastcgi_container.Base.{
  ℕ, zero, suc, ◌<◌, ◌≡◌, refl, ap, ◌∙◌, ◌≢◌, false, not, List, [], ◌∷◌, ◌++◌, arith, ◌==◌, ==_refl,
  length, length-append, All, Bytes,
}
use fastcgi_container.Text.{span, c_string, pieces, split, split_string}

-- Neither the separator nor a NUL.
abbrev pub IsWord : ℕ → Bytes → Type 0
IsWord c = All (λ x. (x ≢ c) × (x ≢ 0))

span_word : (c : ℕ) (w r : Bytes) → IsWord c w → span (λ e. not (e == c)) (w ++ c ∷ r) ≡ (w, c ∷ r)
span_word c [] r h = rw (==_refl c) refl
span_word c (d ∷ w) r h =
    let n : (d == c) ≡ false = ground arith in rw (n, span_word c w r h.1) refl

span_end : (c : ℕ) (w : Bytes) → IsWord c w → span (λ e. not (e == c)) w ≡ (w, [])
span_end c [] h = refl
span_end c (d ∷ w) h = let n : (d == c) ≡ false = ground arith in rw (n, span_end c w h.1) refl

c_string_lem : (s : Bytes) → All (λ x. x ≢ 0) s → c_string s ≡ s
c_string_lem [] h = refl
c_string_lem (d ∷ s) h = ground (arith, c_string_lem s)

pieces_last :
    (fuel c d : ℕ) (w : Bytes) → IsWord c (d ∷ w) → pieces (suc fuel) c (d ∷ w) ≡ (d ∷ w) ∷ []
unfolding pieces
pieces_last fuel c d w h = ground (arith, span_end c w)

pieces_word :
    (fuel c d : ℕ) (w r : Bytes)
    → IsWord c (d ∷ w)
    → pieces (suc fuel) c (d ∷ w ++ c ∷ r) ≡ (d ∷ w) ∷ pieces fuel c r
unfolding pieces
pieces_word fuel c d w r h = ground (arith, span_word c w r)

-- Words with the separator between them.
abbrev pub joined : ℕ → List Bytes → Bytes
joined c [] = []
joined c (w ∷ []) = w
joined c (w ∷ v ∷ ws) = w ++ c ∷ joined c (v ∷ ws)

abbrev pub AreWords : ℕ → List Bytes → Type 0
AreWords c [] = Unit
AreWords c (w ∷ ws) = (0 < length w) × IsWord c w × AreWords c ws

IsWord-nul : (c : ℕ) (w : Bytes) → IsWord c w → All (λ x. x ≢ 0) w
IsWord-nul c [] h = tt
IsWord-nul c (x ∷ w) h = (h.0.1, IsWord-nul c w h.1)

nul-append : (w v : Bytes) → All (λ x. x ≢ 0) w → All (λ x. x ≢ 0) v → All (λ x. x ≢ 0) (w ++ v)
nul-append [] v h k = k
nul-append (x ∷ w) v h k = (h.0, nul-append w v h.1 k)

joined-nul : (c : ℕ) (ws : List Bytes) → c ≢ 0 → AreWords c ws → All (λ x. x ≢ 0) (joined c ws)
joined-nul c [] z h = tt
joined-nul c (w ∷ []) z h = IsWord-nul c w h.1
joined-nul c (w ∷ v ∷ ws) z h =
    nul-append w (c ∷ joined c (v ∷ ws)) (IsWord-nul c w h.1) (z, joined-nul c (v ∷ ws) z h.2)

pieces-joined :
    (fuel c : ℕ) (w : Bytes) (ws : List Bytes)
    → AreWords c (w ∷ ws)
    → length (joined c (w ∷ ws)) < fuel
    → pieces fuel c (joined c (w ∷ ws)) ≡ w ∷ ws
pieces-joined zero c w ws h l = absurd (omega arith)
pieces-joined (suc fuel) c [] ws h l = absurd (omega arith)
pieces-joined (suc fuel) c (d ∷ w) [] h l = pieces_last fuel c d w h.1
pieces-joined (suc fuel) c (d ∷ w) (v ∷ ws) h l =
    pieces_word fuel c d w (joined c (v ∷ ws)) h.1
    ∙ ap (◌∷◌ (d ∷ w)) (
        pieces-joined fuel c v ws h.2
          (omega (arith, length-append (d ∷ w) (c ∷ joined c (v ∷ ws)))))

split-joined :
    (c : ℕ) (w : Bytes) (ws : List Bytes)
    → c ≢ 0
    → AreWords c (w ∷ ws)
    → split (joined c (w ∷ ws)) c ≡ w ∷ ws
unfolding split
split-joined c w ws z h =
    let text = joined c (w ∷ ws) in
    ap (λ t. pieces (suc (length t)) c t) (c_string_lem text (joined-nul c (w ∷ ws) z h))
    ∙ pieces-joined (suc (length text)) c w ws h (omega arith)

-- Words that are not empty and hold neither the separator nor a NUL, joined by the separator, are
-- what `StringUtils::split` cuts the text into.
pub split_string-joined :
    (c : ℕ) (ws : List Bytes) → c ≢ 0 → AreWords c ws → split_string (joined c ws) c ≡ ws
unfolding split_string
split_string-joined c [] z h = refl
split_string-joined c ([] ∷ ws) z h = absurd (omega arith)
split_string-joined c ((d ∷ w) ∷ []) z h = split-joined c (d ∷ w) [] z h
split_string-joined c ((d ∷ w) ∷ v ∷ ws) z h = split-joined c (d ∷ w) (v ∷ ws) z h
