-- ===== src/Sql/Policy.antt =====
-- sql.ts: which datasources, tables and columns the assistant may use. `lower` is `toLowerCase`,
-- which needs the Unicode tables, and `catalog` the decoded rows that the transport returns for one
-- query of INFORMATION_SCHEMA: three texts a row.
pub mod Access
use grafana_pi_app.Prelude.{
  ℕ, ◌+◌, Bool, true, false, ◌&&◌, ◌||◌, Option, none, some, List, [], ◌∷◌, ◌++◌, Text, codes, drop,
  any, filter, map, text_eq, has, if◌then◌else◌,
}
use grafana_pi_app.Paths.{trim}
use grafana_pi_app.Sql.Types.{
  PolicyEntry, DatasourceSettings, Datasource, Query, TableType, base_table, view, Table,
  ColumnInfo, Column, Target, PolicyError, datasource_not_available, table_ambiguous,
  table_not_available, no_such_column, Result, ok, err, ◌>>=◌, is_string, is_time, has_visible_type,
}
use grafana_pi_app.Sql.Quoting.{literal, index_of, split_table}

-- A text that JavaScript takes for true.
abbrev pub given : Option Text → Option Text
given none = none
given (some []) = none
given (some (c ∷ s)) = some (c ∷ s)

-- `find`
unfoldable pub first {ℓ} : {A : Type ℓ} → (A → Bool) → List A → Option A
first test [] = none
first test (x ∷ xs) = let rest = first test xs in if test x then some x else rest

abbrev or_empty : Option (List Text) → List Text
or_empty none = []
or_empty (some texts) = texts

abbrev is_not_empty : Text → Bool
is_not_empty [] = false
is_not_empty (c ∷ s) = true

-- `.map((text) => text.trim()).filter(Boolean)`
unfoldable pub trimmed : List Text → List Text
trimmed texts = filter is_not_empty (map trim texts)

abbrev has_uid : Option Text → DatasourceSettings → Bool
has_uid none settings = false
has_uid (some uid) settings = text_eq settings.uid uid && text_eq settings.kind (codes "mssql")

unfoldable pub sql_datasource : PolicyEntry → DatasourceSettings → Datasource
unfolding trimmed
sql_datasource entry settings = record {
  uid = settings.uid;
  name = settings.name;
  database = given settings.database;
  tables = trimmed (or_empty entry.tables);
  visible_columns = trimmed (or_empty entry.visible_columns);
}

unfoldable pub sql_datasources : List PolicyEntry → List DatasourceSettings → List Datasource
unfolding sql_datasource first text_eq
sql_datasources [] available = []
sql_datasources (entry ∷ policy) available =
    let others = sql_datasources policy available in
    elim (first (has_uid entry.uid) available) [
      | none ↦ others
      | some settings ↦ sql_datasource entry settings ∷ others
    ]

abbrev accepts_datasource : Text → Datasource → Bool
accepts_datasource requested ds = text_eq ds.uid requested || text_eq ds.name requested

abbrev datasource_or_error : Option Text → Option Datasource → Result Datasource
datasource_or_error requested none = err (datasource_not_available requested)
datasource_or_error requested (some datasource) = ok datasource

abbrev choose_datasource : List Datasource → Option Text → Option Datasource
choose_datasource [] none = none
choose_datasource (ds ∷ _) none = some ds
choose_datasource available (some requested) = first (accepts_datasource requested) available

unfoldable pub resolve_datasource : List Datasource → Option Text → Result Datasource
unfolding first text_eq
resolve_datasource available requested =
    datasource_or_error (given requested) (choose_datasource available (given requested))

-- `right.slice(right.indexOf('.') + 1)`
unfoldable pub after_dot : Text → Text
unfolding index_of
after_dot text = elim (index_of b'.' text) [ none ↦ text | some i ↦ drop (i + 1) text ]

abbrev pub tables_sql : Text
tables_sql =
    codes "SELECT TABLE_SCHEMA AS s, TABLE_NAME AS t, TABLE_TYPE AS k "
    ++ codes "FROM INFORMATION_SCHEMA.TABLES ORDER BY TABLE_SCHEMA, TABLE_NAME"

abbrev pub columns_sql : Text → Text → Text
columns_sql schema name =
    codes "SELECT COLUMN_NAME AS c, DATA_TYPE AS t, IS_NULLABLE AS n "
    ++ (codes "FROM INFORMATION_SCHEMA.COLUMNS WHERE TABLE_SCHEMA = "
        ++ (literal schema
            ++ (codes " AND TABLE_NAME = "
                ++ (literal name ++ codes " ORDER BY ORDINAL_POSITION"))))

-- A row of an answer of INFORMATION_SCHEMA, each field by `String`.
pub record CatalogRow : Type 0 where
  pub first_field : Text
  pub second_field : Text
  pub third_field : Text

-- The tables, the columns and a column's description by one datasource's answers.
pub record Found : Type 0 where
  pub datasource : Datasource
  pub table : Text

pub record Resolved : Type 0 where
  pub datasource : Datasource
  pub table : Text
  pub columns : List Column

abbrev pub table_names : List Table → List Text
table_names tables = map (λ (t : Table). t.name) tables

abbrev pub only_match : Datasource → Text → List Table → Result Found
only_match ds requested [] = err (table_not_available requested)
only_match ds requested (t ∷ []) = ok (record { datasource = ds; table = t.name })
only_match ds requested (t ∷ u ∷ others) =
    err (table_ambiguous requested (table_names (t ∷ u ∷ others)))

unfoldable pub column_info : CatalogRow → ColumnInfo
column_info row = record {
  name = row.first_field;
  kind = row.second_field;
  nullable = text_eq row.third_field (codes "YES");
}

module _ (lower : Text → Text) where
  unfoldable pub qualified_match : Text → Text → Bool
  unfolding after_dot text_eq
  qualified_match entry qualified =
      text_eq (lower entry) (lower qualified) || text_eq (after_dot (lower qualified)) (lower entry)

  unfoldable pub is_listed : List Text → Text → Bool
  unfolding qualified_match
  is_listed entries qualified = any (λ entry. qualified_match entry qualified) entries

  unfoldable pub describe_column : Text → List Text → ColumnInfo → Column
  describe_column table visible_columns row =
      let kind = lower row.kind in
      record {
        name = row.name;
        kind = kind;
        nullable = row.nullable;
        visible =
            has_visible_type kind
            || (is_string kind && is_listed visible_columns (table ++ b'.' ∷ row.name));
        time = is_time kind;
      }

  unfoldable pub describe_columns : Text → List ColumnInfo → List Text → List Column
  describe_columns table rows visible_columns = map (describe_column table visible_columns) rows

  abbrev pub is_allowed : List Text → Text → Bool
  is_allowed [] name = true
  is_allowed (entry ∷ entries) name = is_listed (entry ∷ entries) name

  unfoldable pub matching_tables : Text → List Table → List Table
  unfolding qualified_match
  matching_tables requested tables = filter (λ (t : Table). qualified_match requested t.name) tables

  unfoldable pub find_column : List Column → Text → Text → Text → Result Column
  unfolding first text_eq trim
  find_column columns table name option =
      elim (first (λ (c : Column). text_eq (lower c.name) (lower (trim name))) columns) [
        | none ↦ err (no_such_column option name table)
        | some column ↦ ok column
      ]

-- Case-insensitive in the type of the table alone.
unfoldable pub table_of : (Text → Text) → CatalogRow → Table
unfolding text_eq
table_of upper row = record {
  name = row.first_field ++ b'.' ∷ row.second_field;
  kind = if text_eq (upper row.third_field) (codes "VIEW") then view else base_table;
}

module _ (lower upper : Text → Text) where
  unfoldable pub allowed_tables : Datasource → List CatalogRow → List Table
  unfolding table_of is_listed
  allowed_tables ds rows =
      filter (λ (t : Table). is_allowed lower ds.tables t.name) (map (table_of upper) rows)

  module _ (available : List Datasource) (catalog : Text → Text → Result (List CatalogRow)) where
    unfoldable pub resolve_table : Target → Result Found
    resolve_table target = do
      ds ← resolve_datasource available target.datasource
      rows ← catalog ds.uid tables_sql
      only_match ds (trim target.table)
          (matching_tables lower (trim target.table) (allowed_tables ds rows))

    unfoldable pub columns : Target → Result Resolved
    unfolding resolve_table describe_columns split_table column_info
    columns target = do
      found ← resolve_table target
      rows ←
          catalog found.datasource.uid
            (columns_sql (split_table found.table).0 (split_table found.table).1)
      ok (record {
        datasource = found.datasource;
        table = found.table;
        columns =
            describe_columns lower found.table (map column_info rows)
              found.datasource.visible_columns;
      })
