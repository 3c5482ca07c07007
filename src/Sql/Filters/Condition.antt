-- ===== src/Sql/Filters/Condition.antt =====
-- sql.ts: a compiled filter is one comparison of one column with one value.
use grafana_pi_app.Prelude.{
  IsIn, ◌≡◌, refl, sym, subst, ◌∙◌, ◌⊎◌, inl, inr, Bool, true, false, ◌||◌, Option, none, some,
  List, [], ◌∷◌, ◌++◌, Text, codes, text_eq, text_eq_sound, append-nil, if◌then◌else◌,
}
use grafana_pi_app.Paths.{trim}
use grafana_pi_app.Sql.Types.{
  Column, PolicyError, bad_filter, ok, err, ◌>>=◌, bind-ok, ok-inj, is_numeric, is_string, is_time,
  type_bit, type_time, type_guid,
}
use grafana_pi_app.Sql.Quoting.{literal, identifier}
use grafana_pi_app.Sql.Quoting.RoundTrip.{
  read_literal, read_literal-literal, read_identifier, read_identifier-identifier,
}
use grafana_pi_app.Sql.Patterns.{is_number, is_guid}
use grafana_pi_app.Sql.Literals.{typed_literal, bit_value, or_error, quoted_or_error}
use grafana_pi_app.Sql.Policy.{find_column}
use grafana_pi_app.Sql.Queries.Visible.{find_column-IsIn}
use grafana_pi_app.Sql.Filters.{
  FilterOp, filter_match, compile_filter, compared, comparison, is_contains, like_pattern,
}

-- A number, or one string literal with nothing after it.
abbrev pub IsValue : Text → Type 0
IsValue s = (is_number s ≡ true) ⊎ ((value : Text) × (read_literal s ≡ some (value, [])))

-- The two values of a bit column that pass by the prototype of an object literal.
abbrev pub IsInherited : (Text → Text) → Column → Text → Type 0
IsInherited lower c value =
    (c.kind ≡ type_bit) × ((lower value ≡ codes "constructor") ⊎ (lower value ≡ codes "__proto__"))

literal-IsValue : (value s : Text) → ok (literal value) ≡ ok s → IsValue s
literal-IsValue value s h = inr (
  value,
  subst (λ t. read_literal t ≡ some (value, [])) (append-nil (literal value) ∙ ok-inj _ s h)
      (read_literal-literal value [] (refl, refl)),
)

quoted_or_error-IsValue :
    (e : PolicyError) (o : Option Text) (s : Text) → quoted_or_error e o ≡ ok s → IsValue s
quoted_or_error-IsValue e none s h = absurd (cc)
quoted_or_error-IsValue e (some t) s h = literal-IsValue t s h

-- A property that both branches of a test give.
if_cases :
    {T : Type 0} (P : Type 0) (b : Bool) (x y t : T)
    → (b ≡ true → x ≡ t → P)
    → (y ≡ t → P)
    → (if b then x else y) ≡ t
    → P
if_cases P true x y t f g h = f refl h
if_cases P false x y t f g h = g h

some-inj : (a b : Text) → some a ≡ some b → a ≡ b
some-inj a b h = cc

is_number-bits : (is_number (codes "0") ≡ true) × (is_number (codes "1") ≡ true)
unfolding is_number
is_number-bits = (refl, refl)

bit_value-cases :
    (key s : Text)
    → bit_value key ≡ some s
    → (is_number s ≡ true) ⊎ ((key ≡ codes "constructor") ⊎ (key ≡ codes "__proto__"))
unfolding bit_value
bit_value-cases key s =
    let P = (is_number s ≡ true) ⊎ ((key ≡ codes "constructor") ⊎ (key ≡ codes "__proto__")) in
    if_cases P (text_eq key (codes "0") || text_eq key (codes "false")) _ _ (some s)
      (λ _ h. inl (subst (λ t. is_number t ≡ true) (some-inj _ s h) is_number-bits.0))
      (if_cases P (text_eq key (codes "1") || text_eq key (codes "true")) _ _ (some s)
        (λ _ h. inl (subst (λ t. is_number t ≡ true) (some-inj _ s h) is_number-bits.1))
        (if_cases P (text_eq key (codes "constructor")) _ _ (some s)
          (λ e _. inr (inl (text_eq_sound key (codes "constructor") e)))
          (if_cases P (text_eq key (codes "__proto__")) _ _ (some s)
            (λ e _. inr (inr (text_eq_sound key (codes "__proto__") e))) (λ e. absurd (cc)))))

or_error-ok : (e : PolicyError) (o : Option Text) (s : Text) → or_error e o ≡ ok s → o ≡ some s
or_error-ok e none s h = absurd (cc)
or_error-ok e (some t) s h = cc

module _ (utc : Text → Option Text) (lower : Text → Text) where
  inherited :
      (c : Column) (value s : Text)
      → c.kind ≡ type_bit
      → (is_number s ≡ true)
        ⊎ ((lower value ≡ codes "constructor") ⊎ (lower value ≡ codes "__proto__"))
      → IsValue s ⊎ IsInherited lower c value
  inherited c value s e (inl n) = inl (inl n)
  inherited c value s e (inr names) = inr (e, names)

  -- The text that stands for a value is a number or one string literal, but for the two values of a
  -- bit column that the object literal inherits.
  pub typed_literal-IsValue :
      (c : Column) (value s : Text)
      → typed_literal utc lower c value ≡ ok s
      → IsValue s ⊎ IsInherited lower c value
  unfolding typed_literal
  typed_literal-IsValue c value s =
      let P = IsValue s ⊎ IsInherited lower c value in
      if_cases P (is_numeric c.kind) _ _ (ok s)
        (λ _.
          if_cases P (is_number value) _ _ (ok s)
            (λ e h. inl (inl (subst (λ t. is_number t ≡ true) (ok-inj value s h) e)))
            (λ e. absurd (cc)))
        (if_cases P (text_eq c.kind type_bit) _ _ (ok s)
          (λ e h.
            inherited c value s (text_eq_sound c.kind type_bit e)
              (bit_value-cases (lower value) s (or_error-ok _ (bit_value (lower value)) s h)))
          (if_cases P (is_time c.kind || text_eq c.kind type_time) _ _ (ok s)
            (λ _ h. inl (quoted_or_error-IsValue _ _ s h))
            (if_cases P (text_eq c.kind type_guid) _ _ (ok s)
              (λ _.
                if_cases P (is_guid value) _ _ (ok s) (λ _ h. inl (literal-IsValue value s h))
                  (λ e. absurd (cc)))
              (if_cases P (is_string c.kind) _ _ (ok s) (λ _ h. inl (literal-IsValue value s h))
                (λ e. absurd (cc))))))

  -- The parts of a condition: a column of the table, an operator, and what stands for the value.
  pub record IsCondition (cs : List Column) (filter s : Text) : Type 0 where
    pub name : Text
    pub op : FilterOp
    pub raw_value : Text
    pub parsed : filter_match filter ≡ some (name, op, raw_value)
    pub target : Column
    pub named : lower target.name ≡ lower (trim name)
    pub exists : IsIn target cs
    pub ref : Text
    pub refers : read_identifier (ref ++ b' ' ∷ []) ≡ some (target.name, b' ' ∷ [])
    pub written : Text
    pub is_value : IsValue written ⊎ IsInherited lower target (trim raw_value)
    pub built : s ≡ comparison ref op written

  compared-built :
      (target : Column) (ref : Text) (op : FilterOp) (value s : Text)
      → compared utc lower target ref op value ≡ ok s
      → (written : Text) × (s ≡ comparison ref op written)
        × (IsValue written ⊎ IsInherited lower target value)
  unfolding compared
  compared-built target ref op value s =
      let P =
        (written : Text) × (s ≡ comparison ref op written)
        × (IsValue written ⊎ IsInherited lower target value) in
      if_cases P (is_contains op) _ _ (ok s)
        (λ _.
          if_cases P (is_string target.kind) _ _ (ok s)
            (λ _ h. (
              literal (like_pattern value),
              sym (ok-inj _ s h),
              inl (literal-IsValue (like_pattern value) _ refl),
            ))
            (λ e. absurd (cc)))
        (λ h.
          let (typed, e, k) = bind-ok (typed_literal utc lower target value) _ h in
          (typed, sym (ok-inj _ s k), typed_literal-IsValue target value typed e))

  -- A compiled filter is one comparison: of the column of the table that the filter names, whose name
  -- its identifier reads back as, with a number or one string literal, but for the two values of a bit column that the
  -- object literal inherits.
  pub compile_filter-IsCondition :
      (cs : List Column) (table filter s : Text)
      → compile_filter utc lower (find_column lower cs table) filter ≡ ok s
      → IsCondition cs filter s
  unfolding compile_filter
  compile_filter-IsCondition cs table filter s h = go (filter_match filter) refl h
    where
      go :
          (m : Option (Text × FilterOp × Text))
          → filter_match filter ≡ m
          → (elim m [
            | none ↦ err (bad_filter filter)
            | some (name, op, raw_value) ↦
                find_column lower cs table name (codes "--where") >>= λ target.
                identifier target.name >>= λ ref. compared utc lower target ref op (trim raw_value)
          ])
            ≡ ok s
          → IsCondition cs filter s
      go none p e = absurd (cc)
      go (some (name, op, raw_value)) p e =
          let (target, h1, k1) = bind-ok (find_column lower cs table name (codes "--where")) _ e in
          let (ref, h2, k2) = bind-ok (identifier target.name) _ k1 in
          let (written, b, v) = compared-built target ref op (trim raw_value) s k2 in
          record {
            target = target;
            name = name;
            raw_value = raw_value;
            parsed = p;
            named = (find_column-IsIn lower cs table name (codes "--where") target h1).1;
            exists = (find_column-IsIn lower cs table name (codes "--where") target h1).0;
            ref = ref;
            refers = read_identifier-identifier target.name ref (b' ' ∷ []) h2 refl;
            op = op;
            written = written;
            is_value = v;
            built = b;
          }
