-- ===== src/Sql/Policy/Access.antt =====
-- sql.ts: the datasource and the table that a command gets to.
use grafana_pi_app.Prelude.{
  IsIn, IsIn-cons, All-IsIn, ◌≡◌, refl, sym, ap, subst, ◌∙◌, arith, ◌<◌, ◌⊎◌, inl, inr, Bool, true,
  false, ◌&&◌, Option, none, some, List, [], ◌∷◌, ◌++◌, Text, codes, filter, map, length, text_eq,
  text_eq_iff, text_eq_sound, All, Bool-cases,
}
use grafana_pi_app.Paths.{trim}
use grafana_pi_app.Sql.Types.{
  PolicyEntry, DatasourceSettings, Datasource, Table, Target, table_not_available, table_ambiguous,
  Result, ok, err,
}
use grafana_pi_app.Sql.Policy.{
  CatalogRow, Found, first, given, has_uid, datasource_or_error, choose_datasource,
  accepts_datasource, sql_datasource, sql_datasources, resolve_datasource, is_allowed,
  qualified_match, allowed_tables, matching_tables, table_of, table_names, only_match,
  resolve_table, tables_sql,
}

module _ {ℓ} {A : Type ℓ} (test : A → Bool) where
  -- The item is in the list and passes the test, and no other item of the list does.
  pub record OnlyOne (x : A) (items : List A) : Type ℓ where
    pub before : List A
    pub after : List A
    pub found : items ≡ before ++ x ∷ after
    pub passes : test x ≡ true
    pub none_before : All (λ y. test y ≡ false) before
    pub none_after : All (λ y. test y ≡ false) after

  pub filter-nil : (items : List A) → filter test items ≡ [] → All (λ y. test y ≡ false) items
  filter-nil [] h = tt
  filter-nil (y ∷ items) h = elim (Bool-cases (test y)) [
    | inl e ↦ absurd (ground (arith, h, e))
    | inr e ↦ (e, filter-nil items (ground (arith, h, e)))
  ]

  pub filter-OnlyOne : (x : A) (items : List A) → filter test items ≡ x ∷ [] → OnlyOne x items
  filter-OnlyOne x [] h = absurd (cc)
  filter-OnlyOne x (y ∷ items) h = elim (Bool-cases (test y)) [
    | inl e ↦
        let same : y ≡ x = ground (arith, h, e) in
        record {
          before = [];
          after = items;
          found = ap (λ z. z ∷ items) same;
          passes = rw (← same) e;
          none_before = tt;
          none_after = filter-nil items (ground (arith, h, e));
        }
    | inr e ↦
        let rest = filter-OnlyOne x items (ground (arith, h, e)) in
        record {
          before = y ∷ rest.before;
          after = rest.after;
          found = ap (λ l. y ∷ l) rest.found;
          passes = rest.passes;
          none_before = (e, rest.none_before);
          none_after = rest.none_after;
        }
  ]

filter-filter :
    {A : Type 0} (f g : A → Bool) (items : List A)
    → filter f (filter g items) ≡ filter (λ x. g x && f x) items
filter-filter f g [] = refl
filter-filter f g (x ∷ items) = ground (arith, filter-filter f g items)

module _ (lower upper : Text → Text) where
  -- The policy allows the table and the request names it.
  abbrev pub is_acceptable : Datasource → Text → Table → Bool
  is_acceptable ds requested t =
      is_allowed lower ds.tables t.name && qualified_match lower requested t.name

  abbrev pub IsResolution : Datasource → Text → List Table → Result Found → Type 0
  IsResolution ds requested tables (ok found) =
      (found.datasource ≡ ds)
      × (t : Table) × (t.name ≡ found.table)
      × OnlyOne (is_acceptable ds requested) t tables
  IsResolution ds requested tables (err (table_not_available name)) =
      (name ≡ requested) × All (λ (t : Table). is_acceptable ds requested t ≡ false) tables
  IsResolution ds requested tables (err (table_ambiguous name names)) =
      (name ≡ requested)
      × (names ≡ table_names (filter (is_acceptable ds requested) tables))
      × (1 < length names)
  IsResolution ds requested tables (err other) = ⊥

  only_match-IsResolution :
      (ds : Datasource) (requested : Text) (tables matches : List Table)
      → filter (is_acceptable ds requested) tables ≡ matches
      → IsResolution ds requested tables (only_match ds requested matches)
  only_match-IsResolution ds requested tables [] h =
      (refl, filter-nil (is_acceptable ds requested) tables h)
  only_match-IsResolution ds requested tables (t ∷ []) h =
      (refl, t, refl, filter-OnlyOne (is_acceptable ds requested) t tables h)
  only_match-IsResolution ds requested tables (t ∷ u ∷ others) h =
      (refl, ap table_names (sym h), omega arith)

  -- With the datasource chosen and its catalog read, exactly one table that the policy allows and
  -- the request names is resolved; none at all is "not available", and several are "ambiguous" and
  -- named. No other error occurs.
  pub resolve_table-IsResolution :
      (available : List Datasource) (catalog : Text → Text → Result (List CatalogRow))
      (target : Target) (ds : Datasource) (rows : List CatalogRow)
      → resolve_datasource available target.datasource ≡ ok ds
      → catalog ds.uid tables_sql ≡ ok rows
      → IsResolution ds
          (trim target.table)
          (map (table_of upper) rows)
          (resolve_table lower upper available catalog target)
  unfolding resolve_table
  resolve_table-IsResolution available catalog target ds rows chosen read =
      rw (chosen, read)
        (only_match-IsResolution ds (trim target.table) (map (table_of upper) rows) _ (
          unfold allowed_tables matching_tables in
          sym (
            filter-filter (λ (t : Table). qualified_match lower (trim target.table) t.name)
              (λ (t : Table). is_allowed lower ds.tables t.name) (map (table_of upper) rows))))

pub first-IsIn {ℓ} :
    {A : Type ℓ} (test : A → Bool) (items : List A) (x : A)
    → first test items ≡ some x
    → IsIn x items × (test x ≡ true)
unfolding first
first-IsIn test [] x h = absurd (cc)
first-IsIn test (y ∷ items) x h = elim (Bool-cases (test y)) [
  | inl e ↦
      let same : y ≡ x = ground (arith, h, e) in
      (([], items, ap (λ z. z ∷ items) same), rw (← same) e)
  | inr e ↦
      let (inside, passes) = first-IsIn test items x (ground (arith, h, e)) in
      (IsIn-cons inside, passes)
]

-- The datasource is built from an entry of the policy and a Grafana datasource of the entry's UID
-- that is an SQL Server.
pub record IsGranted (policy : List PolicyEntry) (settings : List DatasourceSettings)
    (ds : Datasource) : Type 0 where
  pub entry : PolicyEntry
  pub source : DatasourceSettings
  pub in_policy : IsIn entry policy
  pub exists : IsIn source settings
  pub same_uid : entry.uid ≡ some source.uid
  pub is_mssql : source.kind ≡ codes "mssql"
  pub built : ds ≡ sql_datasource entry source

IsGranted-cons :
    (entry : PolicyEntry) (policy : List PolicyEntry) (settings : List DatasourceSettings)
    (found : List Datasource)
    → All (IsGranted policy settings) found
    → All (IsGranted (entry ∷ policy) settings) found
IsGranted-cons entry policy settings [] h = tt
IsGranted-cons entry policy settings (ds ∷ found) (g, h) = (
  record {
    entry = g.entry;
    source = g.source;
    in_policy = IsIn-cons g.in_policy;
    exists = g.exists;
    same_uid = g.same_uid;
    is_mssql = g.is_mssql;
    built = g.built;
  },
  IsGranted-cons entry policy settings found h,
)

has_uid_sound :
    (uid : Option Text) (s : DatasourceSettings)
    → has_uid uid s ≡ true
    → (uid ≡ some s.uid) × (s.kind ≡ codes "mssql")
has_uid_sound none s h = cc
has_uid_sound (some uid) s h =
    ground (arith, h, text_eq_iff s.uid uid, text_eq_iff s.kind (codes "mssql"))

sql_datasources-IsGranted :
    (policy : List PolicyEntry) (settings : List DatasourceSettings)
    → All (IsGranted policy settings) (sql_datasources policy settings)
unfolding sql_datasources
sql_datasources-IsGranted [] settings = tt
sql_datasources-IsGranted (entry ∷ policy) settings =
    go (first (has_uid entry.uid) settings) refl
      (IsGranted-cons entry policy settings _ (sql_datasources-IsGranted policy settings))
  where
    go :
        (found : Option DatasourceSettings)
        → first (has_uid entry.uid) settings ≡ found
        → All (IsGranted (entry ∷ policy) settings) (sql_datasources policy settings)
        → All (IsGranted (entry ∷ policy) settings) (elim found [
          | none ↦ sql_datasources policy settings
          | some s ↦ sql_datasource entry s ∷ sql_datasources policy settings
        ])
    go none e others = others
    go (some s) e others =
        let (inside, fits) = first-IsIn (has_uid entry.uid) settings s e in
        let (same, mssql) = has_uid_sound entry.uid s fits in
        (
          record {
            entry = entry;
            source = s;
            in_policy = ([], policy, refl);
            exists = inside;
            same_uid = same;
            is_mssql = mssql;
            built = refl;
          },
          others,
        )

datasource_or_error-ok :
    (requested : Option Text) (found : Option Datasource) (ds : Datasource)
    → datasource_or_error requested found ≡ ok ds
    → found ≡ some ds
datasource_or_error-ok requested none ds h = absurd (cc)
datasource_or_error-ok requested (some d) ds h = cc

choose_datasource-some :
    (available : List Datasource) (name : Text)
    → first (accepts_datasource name) available ≡ choose_datasource available (some name)
choose_datasource-some [] name = refl
choose_datasource-some (d ∷ available) name = refl

accepted :
    (available : List Datasource) (name : Text) (ds : Datasource)
    → choose_datasource available (some name) ≡ some ds
    → (ds.uid ≡ name) ⊎ (ds.name ≡ name)
accepted available name ds h =
    let fits =
      (first-IsIn (accepts_datasource name) available ds
        (choose_datasource-some available name ∙ h)).1 in
    elim (Bool-cases (text_eq ds.uid name)) [
      | inl e ↦ inl (text_eq_sound ds.uid name e)
      | inr e ↦ inr (text_eq_sound ds.name name (ground (arith, fits, e)))
    ]

choose_datasource-IsIn :
    (available : List Datasource) (requested : Option Text) (ds : Datasource)
    → choose_datasource available requested ≡ some ds
    → IsIn ds available
choose_datasource-IsIn [] none ds h = absurd (cc)
choose_datasource-IsIn (d ∷ available) none ds h = ([], available, ap (λ z. z ∷ available) (cc))
choose_datasource-IsIn available (some name) ds h =
    (first-IsIn (accepts_datasource name) available ds
      (choose_datasource-some available name ∙ h)).0

-- A datasource that a command gets is one that the policy grants, and it is the one asked for, by its
-- UID or its name, if one is asked for.
pub resolve_datasource-IsGranted :
    (policy : List PolicyEntry) (settings : List DatasourceSettings) (requested : Option Text)
    (ds : Datasource)
    → resolve_datasource (sql_datasources policy settings) requested ≡ ok ds
    → IsGranted policy settings ds
      × ((name : Text) → given requested ≡ some name → (ds.uid ≡ name) ⊎ (ds.name ≡ name))
unfolding resolve_datasource
resolve_datasource-IsGranted policy settings requested ds h =
    let available = sql_datasources policy settings in
    let chosen = datasource_or_error-ok (given requested) _ ds h in
    (
      All-IsIn (IsGranted policy settings) available ds (sql_datasources-IsGranted policy settings)
          (choose_datasource-IsIn available (given requested) ds chosen),
      λ name e.
          accepted available name ds
            (subst (λ r. choose_datasource available r ≡ some ds) e chosen),
    )
