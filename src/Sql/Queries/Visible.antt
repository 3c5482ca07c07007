-- ===== src/Sql/Queries/Visible.antt =====
-- sql.ts: the columns that `rows` returns and orders by are those that may be shown.
use grafana_pi_app.Prelude.{
  IsIn, IsIn-cons, All-IsIn, ◌≡◌, refl, subst, arith, ◌⊎◌, inl, inr, Bool, true, false, List, [],
  ◌∷◌, ◌++◌, Text, any, filter, map, text_eq, text_eq_sound, All, Bool-cases, Option-cases,
  if◌then◌else◌,
}
use grafana_pi_app.Paths.{trim}
use grafana_pi_app.Sql.Types.{
  ColumnInfo, Column, Datasource, Target, Result, ok, bind-ok, each-All, is_string,
  has_visible_type,
}
use grafana_pi_app.Sql.Policy.{
  CatalogRow, Resolved, first, qualified_match, is_listed, describe_column, describe_columns,
  columns, resolve_table, find_column, column_info,
}
use grafana_pi_app.Sql.Policy.Access.{first-IsIn}
use grafana_pi_app.Sql.Queries.{selected_columns, requested_column}

pub any-IsIn {ℓ} :
    {A : Type ℓ} (test : A → Bool) (items : List A)
    → any test items ≡ true
    → (x : A) × IsIn x items × (test x ≡ true)
any-IsIn test [] h = absurd (cc)
any-IsIn test (y ∷ items) h = elim (Bool-cases (test y)) [
  | inl e ↦ (y, ([], items, refl), e)
  | inr e ↦
      let (x, inside, passes) = any-IsIn test items (ground (arith, h, e)) in
      (x, IsIn-cons inside, passes)
]

module _ (lower : Text → Text) where
  -- The type is not a string's and not binary, or it is a string column that the policy lists.
  abbrev pub IsShareable : Datasource → Text → Column → Type 0
  IsShareable ds table c =
      (has_visible_type c.kind ≡ true)
      ⊎ ((is_string c.kind ≡ true)
          × (entry : Text) × IsIn entry ds.visible_columns
          × (qualified_match lower entry (table ++ b'.' ∷ c.name) ≡ true))

  describe_column-IsShareable :
      (table : Text) (ds : Datasource) (row : ColumnInfo)
      → (describe_column lower table ds.visible_columns row).visible ≡ true
      → IsShareable ds table (describe_column lower table ds.visible_columns row)
  unfolding describe_column is_listed
  describe_column-IsShareable table ds row h =
      elim (Bool-cases (has_visible_type (lower row.kind))) [
        | inl e ↦ inl e
        | inr e ↦
            let entries = ds.visible_columns in
            let (entry, inside, fits) =
              any-IsIn (λ entry. qualified_match lower entry (table ++ b'.' ∷ row.name)) entries
                (ground (arith, h, e)) in
            inr (ground (arith, h, e), entry, inside, fits)
      ]

  abbrev pub AllShareable : Datasource → Text → List Column → Type 0
  AllShareable ds table cs = All (λ (c : Column). c.visible ≡ true → IsShareable ds table c) cs

  describe_columns-IsShareable :
      (table : Text) (ds : Datasource) (infos : List ColumnInfo)
      → AllShareable ds table (describe_columns lower table infos ds.visible_columns)
  unfolding describe_columns
  describe_columns-IsShareable table ds [] = tt
  describe_columns-IsShareable table ds (row ∷ infos) =
      (describe_column-IsShareable table ds row, describe_columns-IsShareable table ds infos)

  pub find_column-IsIn :
      (cs : List Column) (table name option : Text) (c : Column)
      → find_column lower cs table name option ≡ ok c
      → IsIn c cs × (lower c.name ≡ lower (trim name))
  unfolding find_column
  find_column-IsIn cs table name option c h =
      elim (Option-cases (first (λ (c : Column). text_eq (lower c.name) (lower (trim name))) cs)) [
        | inl e ↦ absurd (ground (arith, h, e))
        | inr (d, e) ↦
            let same : d ≡ c = ground (arith, h, e) in
            let (inside, fits) =
              first-IsIn (λ (c : Column). text_eq (lower c.name) (lower (trim name))) cs d e in
            subst (λ (x : Column). IsIn x cs × (lower x.name ≡ lower (trim name))) same
              (inside, text_eq_sound (lower d.name) (lower (trim name)) fits)
      ]

  pub columns-IsShareable :
      (upper : Text → Text) (available : List Datasource)
      (catalog : Text → Text → Result (List CatalogRow)) (target : Target) (resolved : Resolved)
      → columns lower upper available catalog target ≡ ok resolved
      → AllShareable resolved.datasource resolved.table resolved.columns
  unfolding columns
  columns-IsShareable upper available catalog target resolved h =
      let (found, at, more) = bind-ok (resolve_table lower upper available catalog target) _ h in
      let (infos, read, e) = bind-ok (catalog found.datasource.uid _) _ more in
      let same : record {
        datasource = found.datasource;
        table = found.table;
        columns =
            describe_columns lower found.table (map column_info infos)
              found.datasource.visible_columns;
      }
          ≡ resolved =
        cc in
      subst (λ (r : Resolved). AllShareable r.datasource r.table r.columns) same
        (describe_columns-IsShareable found.table found.datasource (map column_info infos))

  -- A column of the resolved table that may be shown.
  abbrev pub IsShown : Resolved → Column → Type 0
  IsShown resolved c =
      IsIn c resolved.columns
      × (c.visible ≡ true)
      × IsShareable resolved.datasource resolved.table c

  module _ (resolved : Resolved)
      (shareable : AllShareable resolved.datasource resolved.table resolved.columns) where
    pub shown : (c : Column) → IsIn c resolved.columns → c.visible ≡ true → IsShown resolved c
    shown c inside visible = (
      inside,
      visible,
      All-IsIn (λ (c : Column). c.visible ≡ true → IsShareable resolved.datasource resolved.table c)
          resolved.columns c shareable inside visible,
    )

    requested_column-IsShown :
        (name : Text) (c : Column)
        → requested_column lower resolved name ≡ ok c
        → IsShown resolved c
    unfolding requested_column
    requested_column-IsShown name c h =
        let (d, found, e) =
          bind-ok (find_column lower resolved.columns resolved.table name _) _ h in
        elim (Bool-cases d.visible) [
          | inl v ↦
              let same : d ≡ c = ground (arith, e, v) in
              subst (IsShown resolved) same
                (shown d (find_column-IsIn resolved.columns resolved.table name _ d found).0 v)
          | inr v ↦ absurd (ground (arith, e, v))
        ]

    All-visible_columns :
        (cs : List Column)
        → ((c : Column) → IsIn c cs → IsIn c resolved.columns)
        → All (IsShown resolved) (filter (λ (c : Column). c.visible) cs)
    All-visible_columns [] h = tt
    All-visible_columns (c ∷ cs) h =
        let rest = All-visible_columns cs (λ d inside. h d (IsIn-cons inside)) in
        go c.visible refl rest
      where
        go :
            (v : Bool)
            → c.visible ≡ v
            → All (IsShown resolved) (filter (λ (c : Column). c.visible) cs)
            → All (IsShown resolved) (
                if v
                then c ∷ filter (λ (c : Column). c.visible) cs
                else filter (λ (c : Column). c.visible) cs)
        go true e rest = (shown c (h c ([], cs, refl)) e, rest)
        go false e rest = rest

    pub selected_columns-IsShown :
        (names : List Text) (cs : List Column)
        → selected_columns lower resolved names ≡ ok cs
        → All (IsShown resolved) cs
    unfolding selected_columns
    selected_columns-IsShown [] cs h =
        let same : filter (λ (c : Column). c.visible) resolved.columns ≡ cs = cc in
        subst (All (IsShown resolved)) same
          (All-visible_columns resolved.columns (λ c inside. inside))
    selected_columns-IsShown (name ∷ names) cs h =
        each-All (IsShown resolved) (requested_column lower resolved) (name ∷ names) cs
          requested_column-IsShown h
