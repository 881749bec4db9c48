-- ===== src/Range/Trim.antt =====
-- `trim`, described by the spaces at both ends.
use mathlib.Core.List.{reverse-cons, reverse, reverse-append, reverse-reverse}
use fastcgi_container.Base.{
  ◌&&◌, Bool, true, not, [], ◌∷◌, ◌++◌, ◌≡◌, refl, sym, ap, ◌∙◌, ◌↔◌, arith, all, if◌then◌else◌,
  is_space,
}
use fastcgi_container.Range.{Range, skip_space, trim}

-- The spaces that `skip_space` drops.
pub lead : Range → Range
lead [] = []
lead (c ∷ r) = let rest = lead r in if is_space c then c ∷ rest else []

pub lead-skip_space : (r : Range) → lead r ++ skip_space r ≡ r
unfolding lead skip_space
lead-skip_space [] = refl
lead-skip_space (c ∷ r) = ground (arith, lead-skip_space r)

all-lead : (r : Range) → all is_space (lead r) ≡ true
unfolding lead
all-lead [] = refl
all-lead (c ∷ r) = ground (arith, all-lead r)

-- No space in front.
abbrev pub no_lead : Range → Bool
no_lead [] = true
no_lead (c ∷ r) = not (is_space c)

no_lead-skip_space : (r : Range) → no_lead (skip_space r) ≡ true
unfolding skip_space
no_lead-skip_space [] = refl
no_lead-skip_space (c ∷ r) = ground (arith, no_lead-skip_space r)

skip_space_self : (r : Range) → no_lead r ≡ true → skip_space r ≡ r
unfolding skip_space
skip_space_self [] h = refl
skip_space_self (c ∷ r) h = ground arith

all_space-append : (a b : Range) → all is_space (a ++ b) ≡ (all is_space a && all is_space b)
all_space-append [] b = refl
all_space-append (c ∷ a) b = ground (arith, all_space-append a b)

all_space-reverse : (a : Range) → all is_space a ≡ true → all is_space (reverse a) ≡ true
all_space-reverse [] h = refl
all_space-reverse (c ∷ a) h =
    rw (reverse-cons c a, all_space-append (reverse a) (c ∷ []))
      (ground (arith, all_space-reverse a))

no_lead_prefix : (a b : Range) → no_lead (a ++ b) ≡ true → no_lead a ≡ true
no_lead_prefix [] b h = refl
no_lead_prefix (c ∷ a) b h = h

skip_space-append : (a b : Range) → all is_space a ≡ true → skip_space (a ++ b) ≡ skip_space b
unfolding skip_space
skip_space-append [] b h = refl
skip_space-append (c ∷ a) b h = ground (arith, skip_space-append a b)

-- `t` is the range `r` without its spaces in front and behind.
pub record IsTrimmed (r t : Range) : Type 0 where
  pub front : Range
  pub back : Range
  pub whole : r ≡ front ++ (t ++ back)
  pub front_space : all is_space front ≡ true
  pub back_space : all is_space back ≡ true
  pub begins : no_lead t ≡ true
  pub ends : no_lead (reverse t) ≡ true

pub trim-append : (r : Range) → skip_space r ≡ trim r ++ reverse (lead (reverse (skip_space r)))
unfolding trim
trim-append r =
    sym (reverse-reverse (skip_space r))
    ∙ ap reverse (sym (lead-skip_space (reverse (skip_space r))))
    ∙ reverse-append (lead (reverse (skip_space r))) (skip_space (reverse (skip_space r)))

trim-IsTrimmed : (r : Range) → IsTrimmed r (trim r)
trim-IsTrimmed r = record {
  front = lead r;
  back = reverse (lead (reverse (skip_space r)));
  whole = rw (← trim-append r) (sym (lead-skip_space r));
  front_space = all-lead r;
  back_space =
      all_space-reverse (lead (reverse (skip_space r))) (all-lead (reverse (skip_space r)));
  begins =
      no_lead_prefix (trim r) (reverse (lead (reverse (skip_space r))))
        (rw trim-append at (no_lead-skip_space r));
  ends = unfold trim in rw reverse-reverse (no_lead-skip_space (reverse (skip_space r)));
}

skip_space-all : (a : Range) → all is_space a ≡ true → skip_space a ≡ []
unfolding skip_space
skip_space-all [] h = refl
skip_space-all (c ∷ a) h = ground (arith, skip_space-all a)

trim_spaced :
    (f t b : Range)
    → all is_space f ≡ true
    → all is_space b ≡ true
    → no_lead t ≡ true
    → no_lead (reverse t) ≡ true
    → trim (f ++ (t ++ b)) ≡ t
unfolding trim
trim_spaced f [] b hf hb ht he =
    rw (skip_space-all (f ++ b) (rw (all_space-append f b, hf) hb)) refl
trim_spaced f (c ∷ t) b hf hb ht he =
    rw
      (
        skip_space-append f (c ∷ (t ++ b)) hf,
        skip_space_self (c ∷ (t ++ b)) ht,
        reverse-append (c ∷ t) b,
        skip_space-append (reverse b) (reverse (c ∷ t)) (all_space-reverse b hb),
        skip_space_self (reverse (c ∷ t)) he,
      )
      (reverse-reverse (c ∷ t))

IsTrimmed-trim : (r t : Range) → IsTrimmed r t → t ≡ trim r
IsTrimmed-trim r t h =
    rw h.whole (sym (trim_spaced h.front t h.back h.front_space h.back_space h.begins h.ends))

-- A range `t` is `r` with spaces taken off both ends, and neither begins nor ends with a space,
-- exactly if it is what `trim` gives for `r`.
pub trim_iff : (r t : Range) → IsTrimmed r t ↔ (t ≡ trim r)
trim_iff r t = (IsTrimmed-trim r t, λ e. rw e (trim-IsTrimmed r))
