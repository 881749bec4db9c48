-- ===== src/Map/Kept.antt =====
-- Entries of a map when another one is stored.
use fastcgi_container.Base.{ℕ, ◌≡◌, refl, true, [], ◌∷◌, arith, Bytes, lex_less}
use fastcgi_container.Map.{Map, less_string, assign, find, has}
use fastcgi_container.Map.Found.{find-assign}

pub lex_less_trans :
    (key : ℕ → ℕ) (a b c : Bytes)
    → lex_less key a b ≡ true
    → lex_less key b c ≡ true
    → lex_less key a c ≡ true
lex_less_trans key [] b [] h k = ground arith
lex_less_trans key [] b (z ∷ c) h k = refl
lex_less_trans key (x ∷ a) [] c h k = cc
lex_less_trans key (x ∷ a) (y ∷ b) [] h k = cc
lex_less_trans key (x ∷ a) (y ∷ b) (z ∷ c) h k = ground (arith, lex_less_trans key a b c)

pub has-assign_kept :
    (k j v : Bytes) (m : Map)
    → has less_string m k ≡ true
    → has less_string (assign less_string j v m) k ≡ true
unfolding has find assign
has-assign_kept k j v [] h = cc
has-assign_kept k j v (e ∷ m) h =
    ground (arith, lex_less_trans (λ c. c) k j e.name, has-assign_kept k j v m)

pub has-assign_self : (k v : Bytes) (m : Map) → has less_string (assign less_string k v m) k ≡ true
unfolding has
has-assign_self k v m = rw (find-assign (λ c. c) k k refl v m, has) refl
