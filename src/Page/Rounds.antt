-- ===== src/Page/Rounds.antt =====
-- The rounds of the loop of `PageReader::parse`, without its fuel.
use fastcgi_container.Base.{
  ap, ◌∙◌, ℕ, zero, suc, ◌<◌, ◌≡◌, refl, Bool, true, not, ◌&&◌, [], ◌∷◌, ◌++◌, arith, ◌==◌, length,
  Bytes,
}
use fastcgi_container.Page.{Page}
use fastcgi_container.Page.Token.{starts, next_token}
use fastcgi_container.Page.Reader.{Result, ok, ◌>>=◌, PageReader}
use fastcgi_container.Page.Parse.{Scan, plain_token, step, parse_loop}

-- No tag stands at the byte `c` in front of `r`.
abbrev pub is_free : ℕ → Bytes → Bool
is_free c r = not (c == b'<' && starts b'%' r) && not (c == b'%' && starts b'>' r)

-- No tag starts in `t` where `rest` follows.
abbrev pub is_quiet : Bytes → Bytes → Bool
is_quiet [] rest = true
is_quiet (c ∷ t) rest = is_free c (t ++ rest) && is_quiet t rest

-- Only the first byte behind it matters.
pub is_quiet-head : (t : Bytes) (x : ℕ) (r r' : Bytes) → is_quiet t (x ∷ r) ≡ is_quiet t (x ∷ r')
is_quiet-head [] x r r' = refl
is_quiet-head (c ∷ []) x r r' = refl
is_quiet-head (c ∷ d ∷ t) x r r' = rw (is_quiet-head (d ∷ t) x r r')

pub next_token-free : (c : ℕ) (r : Bytes) → is_free c r ≡ true → next_token (c ∷ r) ≡ (c ∷ [], r)
unfolding next_token
next_token-free c r h = ground arith

-- The rounds on bytes with no tag.
abbrev pub told : Bytes → Scan → Scan
told [] s = s
told (c ∷ t) s = told t (plain_token s.state (c ∷ []) s)

module _ (include : Bytes → Page → Result Page) (reader : PageReader) where
  -- With more fuel than bytes, the loop gives `m`.
  abbrev pub Yields : Bytes → Scan → Result Scan → Type 0
  Yields input s m = (fuel : ℕ) → length input < fuel → parse_loop include reader fuel input s ≡ m

  pub end-Yields : (s : Scan) → Yields [] s (ok s)
  unfolding parse_loop
  end-Yields s zero h = absurd (omega arith)
  end-Yields s (suc fuel) h = refl

  -- A round at a token and the bytes behind it.
  abbrev round : ℕ → Scan → Bytes × Bytes → Result Scan
  round fuel s next = elim next.0 [
    | [] ↦ ok s
    | c ∷ t ↦ step include reader (c ∷ t) s >>= λ s'. parse_loop include reader fuel next.1 s'
  ]

  parse_loop-round :
      (fuel : ℕ) (input : Bytes) (s : Scan)
      → parse_loop include reader (suc fuel) input s ≡ round fuel s (next_token input)
  unfolding parse_loop
  parse_loop-round fuel input s = refl

  pub token-Yields :
      (input : Bytes) (s : Scan) (c : ℕ) (t rest : Bytes) (s' : Scan) (m : Result Scan)
      → next_token input ≡ (c ∷ t, rest)
      → length rest < length input
      → step include reader (c ∷ t) s ≡ ok s'
      → Yields rest s' m
      → Yields input s m
  token-Yields input s c t rest s' m n l e y zero h = absurd (omega arith)
  token-Yields input s c t rest s' m n l e y (suc fuel) h =
      parse_loop-round fuel input s
      ∙ ap (round fuel s) n
      ∙ ap (λ r. r >>= λ s''. parse_loop include reader fuel rest s'') e
      ∙ y fuel (omega arith)

  pub step-single :
      (c : ℕ) (s : Scan) → step include reader (c ∷ []) s ≡ ok (plain_token s.state (c ∷ []) s)
  unfolding step
  step-single c s = ground arith

  pub quiet-Yields :
      (t rest : Bytes) (s : Scan) (m : Result Scan)
      → is_quiet t rest ≡ true
      → Yields rest (told t s) m
      → Yields (t ++ rest) s m
  quiet-Yields [] rest s m h y = y
  quiet-Yields (c ∷ t) rest s m h y =
      token-Yields (c ∷ t ++ rest) s c [] (t ++ rest) _ m
        (next_token-free c (t ++ rest) (ground arith)) (omega arith) (step-single c s)
        (quiet-Yields t rest (plain_token s.state (c ∷ []) s) m (ground arith) y)
