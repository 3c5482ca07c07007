-- ===== src/Sql/Quoting/RoundTrip.antt =====
-- sql.ts: quoted text, read by the rules of SQL Server, is the text that was quoted.
use grafana_pi_app.Prelude.{
  ℕ, zero, suc, ◌≤◌, ◌<◌, ◌≡◌, ◌≢◌, refl, ap, subst, ◌∙◌, arith, Bool, true, false, ◌||◌, Option,
  none, some, List, [], ◌∷◌, ◌++◌, Text, codes, length, includes, ◌==◌, ==_iff, if◌then◌else◌, map,
  All, append_assoc, length-append, Bool-cases, inl, inr,
}
use grafana_pi_app.Paths.{split}
use grafana_pi_app.Sql.Types.{ok}
use grafana_pi_app.Sql.Quoting.{
  dollar, quote, close, doubled, join_by, quoted, dollar_char, literal, identifier,
}

abbrev pub begins : ℕ → Text → Bool
begins c [] = false
begins c (x ∷ s) = x == c

abbrev keep_unit : ℕ → Option (Text × Text) → Option (Text × Text)
keep_unit c none = none
keep_unit c (some (s, rest)) = some (c ∷ s, rest)

-- The text up to a delimiter that is not doubled, and what follows it.
pub read_until : ℕ → Text → Option (Text × Text)
read_until c [] = none
read_until c (x ∷ []) = if x == c then some ([], []) else none
read_until c (x ∷ y ∷ s) =
    let after = read_until c s in
    let next = read_until c (y ∷ s) in
    if x == c then (if y == c then keep_unit c after else some ([], y ∷ s)) else keep_unit x next

read_until-other :
    (c x : ℕ) (t : Text) (r : Text × Text)
    → (x == c) ≡ false
    → read_until c t ≡ some r
    → read_until c (x ∷ t) ≡ some (x ∷ r.0, r.1)
unfolding read_until
read_until-other c x [] r h e = cc
read_until-other c x (y ∷ t) r h e = rw (h, e) refl

read_until-pair :
    (c x : ℕ) (t : Text) (r : Text × Text)
    → (x == c) ≡ true
    → read_until c t ≡ some r
    → read_until c (x ∷ x ∷ t) ≡ some (x ∷ r.0, r.1)
unfolding read_until
read_until-pair c x t r h e = rw (h, e) (ground arith)

pub read_until-doubled :
    (c : ℕ) (s rest : Text)
    → begins c rest ≡ false
    → read_until c (doubled c s ++ c ∷ rest) ≡ some (s, rest)
unfolding doubled
read_until-doubled c [] [] h = unfold read_until in ground arith
read_until-doubled c [] (y ∷ rest) h = unfold read_until in ground arith
read_until-doubled c (x ∷ s) rest h = elim (Bool-cases (x == c)) [
  | inl e ↦ rw e (read_until-pair c x _ (s, rest) e (read_until-doubled c s rest h))
  | inr e ↦ rw e (read_until-other c x _ (s, rest) e (read_until-doubled c s rest h))
]

pub includes-append : (c : ℕ) (s t : Text) → includes c (s ++ t) ≡ includes c s || includes c t
includes-append c [] t = refl
includes-append c (x ∷ s) t = ground (arith, includes-append c s t)

includes-doubled : (d c : ℕ) (s : Text) → includes d (doubled c s) ≡ includes d s
unfolding doubled
includes-doubled d c [] = refl
includes-doubled d c (x ∷ s) = ground (arith, includes-doubled d c s)

-- A bracketed identifier.
pub read_identifier : Text → Option (Text × Text)
read_identifier [] = none
read_identifier (x ∷ s) = if x == b'[' then read_until close s else none

identifier-inv :
    (name written : Text)
    → identifier name ≡ ok written
    → (includes dollar name ≡ false) × (written ≡ b'[' ∷ (doubled close name ++ close ∷ []))
unfolding identifier
identifier-inv name written e = ground arith

-- An identifier that the module writes is read back as the name, whatever the name contains, and
-- what follows it is left.
pub read_identifier-identifier :
    (name written rest : Text)
    → identifier name ≡ ok written
    → begins close rest ≡ false
    → read_identifier (written ++ rest) ≡ some (name, rest)
unfolding read_identifier
read_identifier-identifier name written rest e h =
    rw ((identifier-inv name written e).1, append_assoc) (read_until-doubled close name rest h)

pub identifier-no_dollar :
    (name written : Text) → identifier name ≡ ok written → includes dollar written ≡ false
identifier-no_dollar name written e =
    let (plain, w) = identifier-inv name written e in
    rw w (
      rw
        (
          includes-append dollar (doubled close name) (close ∷ []),
          includes-doubled dollar close name,
          plain,
        )
        refl)

abbrev without_prefix : Text → Text → Option Text
without_prefix [] s = some s
without_prefix (p ∷ ps) [] = none
without_prefix (p ∷ ps) (x ∷ s) = if x == p then without_prefix ps s else none

-- A string: N'...' with each quote doubled, and more of it after ` + NCHAR(36) + `. The fuel bounds
-- the number of parts.
read_parts : ℕ → Text → Option (Text × Text)
read_parts zero s = none
read_parts (suc fuel) s = elim (without_prefix (codes "N'") s) [
  | none ↦ none
  | some body ↦ elim (read_until quote body) [
    | none ↦ none
    | some (part, rest) ↦ elim (without_prefix dollar_char rest) [
      | none ↦ some (part, rest)
      | some more ↦ elim (read_parts fuel more) [
        | none ↦ none
        | some (others, end) ↦ some (part ++ dollar ∷ others, end)
      ]
    ]
  ]
]

pub read_literal : Text → Option (Text × Text)
unfolding read_parts
read_literal s = read_parts (length s) s

-- What may follow a literal without becoming a part of it.
abbrev pub Ends : Text → Type 0
Ends rest = (begins quote rest ≡ false) × (without_prefix dollar_char rest ≡ none)

module _ (fuel : ℕ) (s body part rest : Text) (opened : without_prefix (codes "N'") s ≡ some body)
    (closed : read_until quote body ≡ some (part, rest)) where
  read_parts_last :
      without_prefix dollar_char rest ≡ none → read_parts (suc fuel) s ≡ some (part, rest)
  unfolding read_parts
  read_parts_last e = rw (opened, closed, e) refl

  read_parts_more :
      (more others end : Text)
      → without_prefix dollar_char rest ≡ some more
      → read_parts fuel more ≡ some (others, end)
      → read_parts (suc fuel) s ≡ some (part ++ dollar ∷ others, end)
  unfolding read_parts
  read_parts_more more others end e k = rw (opened, closed, e, k) refl

read_until-body :
    (p rest : Text)
    → begins quote rest ≡ false
    → read_until quote ((doubled quote p ++ codes "'") ++ rest) ≡ some (p, rest)
read_until-body p rest h = rw append_assoc (read_until-doubled quote p rest h)

read_parts-join_by :
    (fuel : ℕ) (p : Text) (ps : List Text) (rest : Text)
    → Ends rest
    → length ps < fuel
    → read_parts fuel (join_by dollar_char (map quoted (p ∷ ps)) ++ rest)
      ≡ some (join_by (dollar ∷ []) (p ∷ ps), rest)
unfolding join_by quoted
read_parts-join_by zero p ps rest h lt = elim lt [ ]
read_parts-join_by (suc fuel) p [] rest h lt =
    read_parts_last fuel _ _ p rest refl (read_until-body p rest h.0) h.1
read_parts-join_by (suc fuel) p (q ∷ ps) rest h lt =
    let more = join_by dollar_char (map quoted (q ∷ ps)) ++ rest in
    rw (append_assoc (quoted p) (dollar_char ++ join_by dollar_char (map quoted (q ∷ ps))) rest) (
      read_parts_more fuel _ _ p (dollar_char ++ more) refl
        (read_until-body p (dollar_char ++ more) refl) more _ rest refl
        (read_parts-join_by fuel q ps rest h (omega arith)))

-- `split` of a text with one more unit in front.
split_step :
    (c x : ℕ) (s : Text)
    → (p : Text) × (ps : List Text) × (split c s ≡ p ∷ ps)
      × (split c (x ∷ s) ≡ (if x == c then [] ∷ p ∷ ps else (x ∷ p) ∷ ps))
unfolding split
split_step c x [] = ([], [], refl, ground arith)
split_step c x (y ∷ s) =
    let (p, ps, before, e) = split_step c y s in
    elim (Bool-cases (y == c)) [
      | inl h ↦ ([], p ∷ ps, ground (arith, h, before), ground (arith, h, before))
      | inr h ↦ (y ∷ p, ps, ground (arith, h, before), ground (arith, h, before))
    ]

join_by-cons :
    (x : ℕ) (p : Text) (ps : List Text) (separator : Text)
    → join_by separator ((x ∷ p) ∷ ps) ≡ x ∷ join_by separator (p ∷ ps)
unfolding join_by
join_by-cons x p [] separator = refl
join_by-cons x p (q ∷ ps) separator = refl

join_by-empty :
    (separator p : Text) (ps : List Text)
    → join_by separator ([] ∷ p ∷ ps) ≡ separator ++ join_by separator (p ∷ ps)
unfolding join_by
join_by-empty separator p ps = refl

join_by-split : (c : ℕ) (s : Text) → join_by (c ∷ []) (split c s) ≡ s
join_by-split c [] = unfold join_by split in refl
join_by-split c (x ∷ s) =
    let (p, ps, before, e) = split_step c x s in
    let back : join_by (c ∷ []) (p ∷ ps) ≡ s = rw (← before) (join_by-split c s) in
    elim (Bool-cases (x == c)) [
      | inl h ↦ rw (e, h) (join_by-empty (c ∷ []) p ps ∙ ground (arith, back, h, ==_iff x c))
      | inr h ↦ rw (e, h) (join_by-cons x p ps (c ∷ []) ∙ ap (λ (l : Text). x ∷ l) back)
    ]

includes-split : (c : ℕ) (s : Text) → All (λ p. includes c p ≡ false) (split c s)
includes-split c [] = unfold split in (refl, tt)
includes-split c (x ∷ s) =
    let (p, ps, before, e) = split_step c x s in
    let parts : All (λ p. includes c p ≡ false) (p ∷ ps) =
      subst (All (λ p. includes c p ≡ false)) before (includes-split c s) in
    elim (Bool-cases (x == c)) [
      | inl h ↦ rw (e, h) (refl, parts)
      | inr h ↦ rw (e, h) (ground (arith, parts.0, h), parts.1)
    ]

pub includes-join_by :
    (c : ℕ) (separator : Text) (ps : List Text)
    → includes c separator ≡ false
    → All (λ p. includes c p ≡ false) ps
    → includes c (join_by separator ps) ≡ false
unfolding join_by
includes-join_by c separator [] e h = refl
includes-join_by c separator (p ∷ []) e h = h.0
includes-join_by c separator (p ∷ q ∷ ps) e h =
    rw
      (
        includes-append c p (separator ++ join_by separator (q ∷ ps)),
        h.0,
        includes-append c separator (join_by separator (q ∷ ps)),
        e,
      )
      (includes-join_by c separator (q ∷ ps) e h.1)

includes-quoted : (p : Text) → includes dollar p ≡ false → includes dollar (quoted p) ≡ false
unfolding quoted
includes-quoted p h =
    rw (includes-append dollar (doubled quote p) (codes "'"), includes-doubled dollar quote p, h)
      refl

All-quoted :
    (ps : List Text)
    → All (λ p. includes dollar p ≡ false) ps
    → All (λ p. includes dollar p ≡ false) (map quoted ps)
All-quoted [] h = tt
All-quoted (p ∷ ps) h = (includes-quoted p h.0, All-quoted ps h.1)

-- No literal contains a `$`, so the data source proxy finds no macro to expand in it.
pub literal-no_dollar : (value : Text) → includes dollar (literal value) ≡ false
unfolding literal
literal-no_dollar value =
    includes-join_by dollar dollar_char (map quoted (split dollar value)) refl
      (All-quoted (split dollar value) (includes-split dollar value))

length-quoted : (p : Text) → 0 < length (quoted p)
unfolding quoted
length-quoted p = omega arith

length-join_by :
    (separator : Text) (ps : List Text) → length ps ≤ length (join_by separator (map quoted ps))
unfolding join_by
length-join_by separator [] = omega arith
length-join_by separator (p ∷ []) = omega (arith, length-quoted p)
length-join_by separator (p ∷ q ∷ ps) =
    let rest = join_by separator (map quoted (q ∷ ps)) in
    omega (
      arith,
      length-quoted p,
      length-append (quoted p) (separator ++ rest),
      length-append separator rest,
      length-join_by separator (q ∷ ps),
    )

-- A literal that the module writes is read back as the value, whatever the value contains, and what
-- follows it is left.
pub read_literal-literal :
    (value rest : Text) → Ends rest → read_literal (literal value ++ rest) ≡ some (value, rest)
unfolding literal read_literal
read_literal-literal value rest h =
    go (split dollar value) (join_by-split dollar value)
      (λ e. let (p, ps, before, _) = split_step dollar 0 value in cc)
  where
    go :
        (parts : List Text)
        → join_by (dollar ∷ []) parts ≡ value
        → (parts ≢ [])
        → read_parts
            (length (join_by dollar_char (map quoted parts) ++ rest))
            (join_by dollar_char (map quoted parts) ++ rest)
          ≡ some (value, rest)
    go [] e n = absurd (n refl)
    go (p ∷ ps) e n = rw (← e) (
        read_parts-join_by _ p ps rest h (
          omega (
            arith,
            length-append (join_by dollar_char (map quoted (p ∷ ps))) rest,
            length-join_by dollar_char (p ∷ ps),
          )))
