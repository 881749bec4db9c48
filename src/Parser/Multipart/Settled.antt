-- ===== src/Parser/Multipart/Settled.antt =====
-- The loops over the headers of a part: that they end, and the windows that they take.
use fastcgi_container.Base.{
  ℕ, zero, suc, ◌^◌, ◌≤◌, ◌<◌, ◌≡◌, ◌⊎◌, inl, inr, Bool, true, false, Option, none, some, arith,
  ◌==◌, if◌then◌else◌, Bool-cases, length, Bytes, codes, to_lower,
}
use fastcgi_container.DataBuffer.{DataBuffer, size, view, create}
use fastcgi_container.DataBuffer.Search.{nil, empty, Cut, trim_buffer, trimn, starts_with_by}
use fastcgi_container.DataBuffer.Shows.{size-Shows}
use fastcgi_container.DataBuffer.Affixes.{trim-Shows}
use fastcgi_container.Parser.Ends.{length-trim}
use fastcgi_container.Parser.Multipart.{
  Parsed, done, ◌>>=◌, checked, Names, is_label, assign_name, parse_line, split_either,
  is_continued, header_line,
}
use fastcgi_container.Parser.Multipart.Within.{
  Ensures, bind-Ensures, Within, Within-bounds, IsCut, split-IsCut, starts_with-Ensures,
  trim_buffer-Within, trimn-Within, view-Within, Readable, Within-Readable,
}

abbrev pub Any {ℓ} : {A : Type ℓ} → A → Type 0
Any a = Unit

-- The texts that `parsePart` reads out.
abbrev pub AreReadable : Names → Type 0
AreReadable n = Readable n.name × Readable n.filename × Readable n.type

-- What holds of a value holds of the weaker property.
bind_checked :
    {A : Type 0} (P Q : A → Type 0) (o : Option A)
    → Ensures P (checked o)
    → ((a : A) → P a → Q a)
    → Ensures Q (checked o)
bind_checked P Q none h k = h
bind_checked P Q (some a) h k = k a h

module _ (st : Bytes) (small : length st < 2 ^ 64) where
  -- One line after another, of fewer bytes each.
  is_label-Ensures :
      (key : ℕ → ℕ) (label : Bytes) (b : DataBuffer)
      → Within st b
      → Ensures (Any {A = Bool}) (checked (is_label (starts_with_by key label) label b))
  is_label-Ensures key label b v = elim (Bool-cases (length label == size b)) [
    | inl e ↦ rw e (starts_with-Ensures v key label)
    | inr e ↦ rw e tt
  ]

  pub Ensures-if :
      {A : Type 0} (P : A → Type 0) (t : Bool) (x y : Parsed A)
      → Ensures P x
      → Ensures P y
      → Ensures P (if t then x else y)
  Ensures-if P true x y h k = h
  Ensures-if P false x y h k = k

  -- The value between its quotes, or without spaces.
  quoted-Readable : (value : DataBuffer) → Within st value → Readable (trimn 1 1 value)
  quoted-Readable value v =
      let n = Within-bounds v in Within-Readable (trimn-Within v 1 1 small (λ e. ground (arith, n)))

  assign_name-Ensures :
      (key value : DataBuffer) (n : Names)
      → Within st key
      → Within st value
      → AreReadable n
      → Ensures AreReadable (assign_name key value n)
  assign_name-Ensures key value n v w h =
      let q = quoted-Readable value w in
      bind-Ensures Any AreReadable _ _ (is_label-Ensures (λ c. c) (codes "name") key v) λ a _.
        Ensures-if AreReadable a _ _ (q, h.1, h.2)
          (bind-Ensures Any AreReadable _ _ (is_label-Ensures (λ c. c) (codes "filename") key v)
            λ b _.
              Ensures-if AreReadable b _ _ (h.0, q, h.2)
                (bind-Ensures Any AreReadable _ _
                  (is_label-Ensures to_lower (codes "CONTENT_TYPE") key v)
                  λ c _.
                    Ensures-if AreReadable c _ _ (h.0, h.1, Within-Readable (trim_buffer-Within w))
                      h))

  trim_size : (b : DataBuffer) → Within st b → size (trim_buffer b) ≤ size b
  trim_size b v =
      omega (arith, size-Shows (trim-Shows v.shown), size-Shows v.shown, length-trim v.bytes)

  pub parse_line-Ensures :
      (fuel : ℕ) (line : DataBuffer) (n : Names)
      → Within st line
      → AreReadable n
      → size line < fuel
      → Ensures AreReadable (parse_line fuel line n)
  unfolding parse_line
  parse_line-Ensures zero line n v h l = absurd (omega arith)
  parse_line-Ensures (suc fuel) line n v h l = elim (Bool-cases (empty line)) [
    | inl e ↦ rw (e, parse_line) h
    | inr e ↦
        rw (e, parse_line)
          (bind-Ensures (IsCut v) AreReadable _ _ (split-IsCut v (codes ";") (omega arith)) λ c k.
            bind-Ensures (IsCut k.first) AreReadable _ _
              (split-IsCut k.first (codes "=") (omega arith))
              λ p q.
                bind-Ensures AreReadable AreReadable _ _
                  (assign_name-Ensures p.first p.second n q.first q.second h)
                  λ n' h'.
                    parse_line-Ensures fuel (trim_buffer c.second) n' (trim_buffer-Within k.second)
                      h' (omega (arith, trim_size c.second k.second, k.smaller e)))
  ]

  pub split_either-IsCut :
      (delim other : Bytes) (b : DataBuffer) (v : Within st b)
      → 0 < length delim
      → 0 < length other
      → Ensures (IsCut v) (split_either delim other b)
  split_either-IsCut delim other b v h k =
      bind-Ensures (IsCut v) (IsCut v) _ _ (split-IsCut v delim h)
        λ c i. Ensures-if (IsCut v) c.found _ _ i (split-IsCut v other k)

  is_continued-Ensures : (b : DataBuffer) → Within st b → Ensures (Any {A = Bool}) (is_continued b)
  is_continued-Ensures b v =
      bind-Ensures Any Any _ _ (starts_with-Ensures v (λ c. c) (codes " "))
        λ a _. Ensures-if Any a _ _ tt (starts_with-Ensures v (λ c. c) (codes "\t"))

  -- A header that was found, and what is left behind it, of at most `n` bytes.
  pub record IsHeader (n : ℕ) (m : DataBuffer × DataBuffer) : Type 0 where
    pub header : Within st m.0
    pub rest : Within st m.1
    pub fewer : size m.1 ≤ n

  -- Where the line that goes on starts.
  record GoesOn (line tail : DataBuffer) : Type 0 where
    line_Within : Within st line
    behind : (line.begin ≤ tail.begin) ⊎ (tail.begin ≡ tail.end)

  -- The line with one more behind it.
  view-GoesOn :
      (part line tail : DataBuffer) (c : Cut)
      → Within st part
      → (v : Within st tail) → IsCut v c
      → empty tail ≡ false
      → (line.begin ≤ tail.begin) ⊎ (tail.begin ≡ tail.end)
      → Ensures (λ l. GoesOn l c.second) (checked (view part line.begin c.first.end))
  view-GoesOn part line tail c p v k e g =
      let n = Within-bounds k.first in
      let o = k.ordered in
      let begins : line.begin ≤ tail.begin = ground arith in
      bind_checked (λ l. Within st l × (l.begin ≡ line.begin)) (λ l. GoesOn l c.second)
        (view part line.begin c.first.end)
        (view-Within p line.begin c.first.end (omega (arith, n, o.0, begins)) n.1)
        λ l w. record { line_Within = w.0; behind = ground (arith, n, w.1) }

  continued-Ensures :
      (fuel n : ℕ) (part line tail : DataBuffer)
      → Within st part
      → Within st tail
      → GoesOn line tail
      → size tail < fuel
      → size tail ≤ n
      → Ensures (IsHeader n) (header_line fuel part line true tail)
  unfolding header_line
  continued-Ensures zero n part line tail p v g l m = absurd (omega arith)
  continued-Ensures (suc fuel) n part line tail p v g l m = elim (Bool-cases (empty tail)) [
    | inl e ↦ rw (e, header_line) (record { header = g.line_Within; rest = v; fewer = m })
    | inr e ↦
        rw (e, header_line)
          (bind-Ensures (IsCut v) (IsHeader n) _ _
            (split_either-IsCut (codes "\r\n") (codes "\n") tail v (omega arith) (omega arith))
            λ c k.
              bind-Ensures Any (IsHeader n) _ _ (is_continued-Ensures c.first k.first) λ more _.
                elim more
                  as (λ t. Ensures (IsHeader n) (elim t [
                    | true ↦ checked (view part line.begin c.first.end) >>= λ longer.
                        header_line fuel part longer true c.second
                    | false ↦ done (line, tail)
                  ])) [
                    | true ↦
                        bind-Ensures (λ l'. GoesOn l' c.second) (IsHeader n) _ _
                          (view-GoesOn part line tail c p v k e g.behind)
                          λ longer g'.
                            continued-Ensures fuel n part longer c.second p k.second g'
                              (omega (arith, k.smaller e)) (omega (arith, k.smaller e))
                    | false ↦ record { header = g.line_Within; rest = v; fewer = m }
                  ])
  ]

  pub header_line-Ensures :
      (fuel n : ℕ) (part tail : DataBuffer)
      → Within st part
      → Within st tail
      → empty tail ≡ false
      → size tail < suc fuel
      → size tail ≤ suc n
      → Ensures (IsHeader n) (header_line (suc fuel) part nil false tail)
  unfolding header_line create
  header_line-Ensures fuel n part tail p v e l m =
      rw (e, header_line)
        (bind-Ensures (IsCut v) (IsHeader n) _ _
          (split_either-IsCut (codes "\r\n") (codes "\n") tail v (omega arith) (omega arith))
          λ c k. bind-Ensures Any (IsHeader n) _ _ (is_continued-Ensures c.first k.first) λ more _.
            elim more
              as (λ t. Ensures (IsHeader n) (elim t [
                | true ↦ checked (view part nil.begin c.first.end) >>= λ longer.
                    header_line fuel part longer true c.second
                | false ↦ header_line fuel part c.first true c.second
              ])) [
                | true ↦
                    bind-Ensures (λ l'. GoesOn l' c.second) (IsHeader n) _ _
                      (view-GoesOn part nil tail c p v k e (inl (omega arith)))
                      λ longer g'.
                        continued-Ensures fuel n part longer c.second p k.second g'
                          (omega (arith, k.smaller e)) (omega (arith, k.smaller e))
                | false ↦
                    continued-Ensures fuel n part c.first c.second p k.second
                      (record {
                        line_Within = k.first;
                        behind = ground (arith, k.ordered, Within-bounds k.first);
                      })
                      (omega (arith, k.smaller e)) (omega (arith, k.smaller e))
              ])
