-- ===== src/Sql/Queries/Macros.antt =====
-- sql.ts: the only macro in the conditions of a query is the time filter that the module writes.
use grafana_pi_app.Prelude.{
  ◌≡◌, refl, subst, arith, Bool, true, false, ◌||◌, Option, none, some, ◌∷◌, ◌++◌, Text, codes,
  text_eq, Bool-cases, inl, inr, if◌then◌else◌,
}
use grafana_pi_app.Paths.{trim}
use grafana_pi_app.Sql.Types.{
  Column, Result, ok, err, ◌>>=◌, bind-ok, ok-inj, is_numeric, is_string, is_time, type_bit,
  type_time, type_guid, PolicyError, bad_filter, not_a_number,
}
use grafana_pi_app.Sql.Quoting.{dollar, identifier, literal}
use grafana_pi_app.Sql.Quoting.RoundTrip.{identifier-no_dollar, literal-no_dollar, includes-append}
use grafana_pi_app.Sql.Patterns.{is_number, is_guid}
use grafana_pi_app.Sql.Patterns.Numbers.{NoMacro, is_number-NoMacro}
use grafana_pi_app.Sql.Literals.{typed_literal, bit_value, or_error, quoted_or_error}
use grafana_pi_app.Sql.Filters.{
  FilterOp, le, ge, ne, not_contains, eq, lt, gt, contains, filter_match, compile_filter, compared,
  comparison, op_text, like_pattern, is_contains,
}

-- Both branches of a test keep the property.
if-NoMacro :
    (b : Bool) (x y : Result Text) (s : Text)
    → (x ≡ ok s → NoMacro s)
    → (y ≡ ok s → NoMacro s)
    → (if b then x else y) ≡ ok s
    → NoMacro s
if-NoMacro true x y s f g h = f h
if-NoMacro false x y s f g h = g h

or_error-NoMacro :
    (e : PolicyError) (o : Option Text) (s : Text)
    → ((t : Text) → o ≡ some t → NoMacro t)
    → or_error e o ≡ ok s
    → NoMacro s
or_error-NoMacro e none s h k = absurd (cc)
or_error-NoMacro e (some t) s h k = subst NoMacro (ok-inj t s k) (h t refl)

quoted_or_error-NoMacro :
    (e : PolicyError) (o : Option Text) (s : Text) → quoted_or_error e o ≡ ok s → NoMacro s
quoted_or_error-NoMacro e none s k = absurd (cc)
quoted_or_error-NoMacro e (some t) s k =
    subst NoMacro (ok-inj (literal t) s k) (literal-no_dollar t)

bit_value-NoMacro : (key t : Text) → bit_value key ≡ some t → NoMacro t
unfolding bit_value
bit_value-NoMacro key t h = ground (arith, h)

literal_ok-NoMacro : (value s : Text) → ok (literal value) ≡ ok s → NoMacro s
literal_ok-NoMacro value s h = subst NoMacro (ok-inj (literal value) s h) (literal-no_dollar value)

number_literal-NoMacro :
    (c : Column) (value s : Text)
    → (if is_number value then ok value else err (not_a_number c.name value)) ≡ ok s
    → NoMacro s
number_literal-NoMacro c value s h = elim (Bool-cases (is_number value)) [
  | inl e ↦ subst NoMacro (ok-inj value s (rw e at h)) (is_number-NoMacro value e)
  | inr e ↦ absurd (ground (arith, h, e))
]

typed_literal-NoMacro :
    (utc : Text → Option Text) (lower : Text → Text) (c : Column) (value s : Text)
    → typed_literal utc lower c value ≡ ok s
    → NoMacro s
unfolding typed_literal
typed_literal-NoMacro utc lower c value s =
    if-NoMacro (is_numeric c.kind) _ _ s (number_literal-NoMacro c value s) (
      if-NoMacro (text_eq c.kind type_bit) _ _ s
        (or_error-NoMacro _ _ s (bit_value-NoMacro (lower value)))
        (if-NoMacro (is_time c.kind || text_eq c.kind type_time) _ _ s
          (quoted_or_error-NoMacro _ _ s)
          (if-NoMacro (text_eq c.kind type_guid) _ _ s
            (if-NoMacro (is_guid value) _ _ s (literal_ok-NoMacro value s) (λ e. absurd (cc)))
            (if-NoMacro (is_string c.kind) _ _ s (literal_ok-NoMacro value s) (λ e. absurd (cc))))))

op_text-NoMacro : (op : FilterOp) → NoMacro (op_text op)
op_text-NoMacro le = refl
op_text-NoMacro ge = refl
op_text-NoMacro ne = refl
op_text-NoMacro not_contains = refl
op_text-NoMacro eq = refl
op_text-NoMacro lt = refl
op_text-NoMacro gt = refl
op_text-NoMacro contains = refl

pub append-NoMacro : (s t : Text) → NoMacro s → NoMacro t → NoMacro (s ++ t)
append-NoMacro s t h k = rw (includes-append dollar s t, h) k

comparison-NoMacro :
    (ref : Text) (op : FilterOp) (value s : Text)
    → NoMacro ref
    → NoMacro value
    → ok (comparison ref op value) ≡ ok s
    → NoMacro s
comparison-NoMacro ref op value s n k h =
    subst NoMacro (ok-inj _ s h)
      (append-NoMacro ref _ n (append-NoMacro (op_text op) (b' ' ∷ value) (op_text-NoMacro op) k))

compared-NoMacro :
    (utc : Text → Option Text) (lower : Text → Text) (target : Column) (ref : Text) (op : FilterOp)
    (value s : Text)
    → NoMacro ref
    → compared utc lower target ref op value ≡ ok s
    → NoMacro s
unfolding compared
compared-NoMacro utc lower target ref op value s n =
    if-NoMacro (is_contains op) _ _ s
      (if-NoMacro (is_string target.kind) _ _ s
        (comparison-NoMacro ref op _ s n (literal-no_dollar (like_pattern value)))
        (λ e. absurd (cc)))
      (λ h.
        let (typed, e, k) = bind-ok (typed_literal utc lower target value) _ h in
        comparison-NoMacro ref op typed s n (typed_literal-NoMacro utc lower target value typed e)
          k)

pub compile_filter-NoMacro :
    (utc : Text → Option Text) (lower : Text → Text) (column : Text → Text → Result Column)
    (filter s : Text)
    → compile_filter utc lower column filter ≡ ok s
    → NoMacro s
unfolding compile_filter
compile_filter-NoMacro utc lower column filter s h = go (filter_match filter) h
  where
    go :
        (m : Option (Text × FilterOp × Text))
        → (elim m [
          | none ↦ err (bad_filter filter)
          | some (name, op, raw_value) ↦ column name (codes "--where") >>= λ target.
              identifier target.name >>= λ ref. compared utc lower target ref op (trim raw_value)
        ])
          ≡ ok s
        → NoMacro s
    go none e = absurd (cc)
    go (some (name, op, raw_value)) e =
        let (target, h1, k1) = bind-ok (column name (codes "--where")) _ e in
        let (ref, h2, k2) = bind-ok (identifier target.name) _ k1 in
        compared-NoMacro utc lower target ref op (trim raw_value) s
          (identifier-no_dollar target.name ref h2) k2
