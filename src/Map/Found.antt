-- ===== src/Map/Found.antt =====
-- Look-ups behind an insertion, under keys that the order takes for one another.
use mathlib.Core.List.{map}
use fastcgi_container.Base.{ℕ, ◌≡◌, refl, sym, false, some, [], ◌∷◌, arith, Bytes, lex_less}
use fastcgi_container.Map.{Map, assign, find, get}

pub lex_less_irrefl : (key : ℕ → ℕ) (a : Bytes) → lex_less key a a ≡ false
lex_less_irrefl key [] = refl
lex_less_irrefl key (c ∷ a) = ground (arith, lex_less_irrefl key a)

-- The order sees the keys of the bytes only.
pub lex_less-map :
    (key : ℕ → ℕ) (a b : Bytes) → lex_less key a b ≡ lex_less (λ c. c) (map key a) (map key b)
lex_less-map key [] [] = refl
lex_less-map key (c ∷ a) [] = refl
lex_less-map key [] (d ∷ b) = refl
lex_less-map key (c ∷ a) (d ∷ b) = rw (lex_less-map key a b) refl

module _ (key : ℕ → ℕ) (j k : Bytes) (same : map key j ≡ map key k) where
  less_left : (a : Bytes) → lex_less key j a ≡ lex_less key k a
  less_left a = rw (lex_less-map key j a, same) (sym (lex_less-map key k a))

  less_right : (a : Bytes) → lex_less key a j ≡ lex_less key a k
  less_right a = rw (lex_less-map key a j, same) (sym (lex_less-map key a k))

  pub find-assign :
      (v : Bytes) (m : Map) → find (lex_less key) j (assign (lex_less key) k v m) ≡ some v
  unfolding find assign
  find-assign v [] = rw (less_left k, less_right k, lex_less_irrefl key k) refl
  find-assign v (e ∷ m) = ground (
    arith,
    less_left e.name,
    less_right e.name,
    less_left k,
    less_right k,
    lex_less_irrefl key k,
    find-assign v m,
  )

  -- What `m[k] = v` stores is found under every key whose bytes have the same keys in the order.
  pub get-assign : (v : Bytes) (m : Map) → get (lex_less key) (assign (lex_less key) k v m) j ≡ v
  unfolding get
  get-assign v m = rw (find-assign v m, get) refl
