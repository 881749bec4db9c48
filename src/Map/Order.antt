-- ===== src/Map/Order.antt =====
-- Maps as lists of entries in strict order, and insertion.
use fastcgi_container.Base.{
  ◌≡◌, refl, Bool, true, false, List, [], ◌∷◌, ◌++◌, arith, All, Bytes, All_middle,
}
use fastcgi_container.Map.{insert_by}

module _ {ℓ} {A : Type ℓ} (less : Bytes → Bytes → Bool) (key : A → Bytes) where
  abbrev pub Before : A → A → Type 0
  Before a b = (less (key a) (key b) ≡ true) × (less (key b) (key a) ≡ false)

  -- The keys ascend strictly.
  abbrev pub IsOrdered : List A → Type 0
  IsOrdered [] = Unit
  IsOrdered (e ∷ m) = All (Before e) m × IsOrdered m

  -- `a` comes behind all entries of `m`.
  abbrev pub IsLast : List A → A → Type 0
  IsLast [] a = Unit
  IsLast (e ∷ m) a = Before e a × IsLast m a

  pub insert_last : (a : A) (m : List A) → IsLast m a → insert_by less key a m ≡ m ++ a ∷ []
  unfolding insert_by
  insert_last a [] h = refl
  insert_last a (e ∷ m) h = ground (arith, insert_last a m h.1)

  pub IsLast-head : (m : List A) (e : A) (rest : List A) → IsOrdered (m ++ e ∷ rest) → IsLast m e
  IsLast-head [] e rest h = tt
  IsLast-head (d ∷ m) e rest h = (All_middle (Before d) m e rest h.0, IsLast-head m e rest h.1)
