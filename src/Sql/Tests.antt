-- ===== src/Sql/Tests.antt =====
-- sql.ts on a small catalog.
use grafana_pi_app.Prelude.{
  ℕ, ◌≡◌, refl, ◌⊎◌, true, false, Option, none, some, List, [], ◌∷◌, ◌++◌, Text, codes, text_eq,
  has, map, starts_with, if◌then◌else◌, lower_unit,
}
use grafana_pi_app.Paths.{trim, trim_start, is_space, split}
use grafana_pi_app.Sql.Types.{
  PolicyEntry, DatasourceSettings, Datasource, QueryParams, CountParams, RowsParams, Target, Column,
  Result, ok, err, each, is_numeric, is_time, is_string, has_visible_type,
}
use grafana_pi_app.Sql.Quoting.{
  literal, identifier, doubled, join_by, quoted, index_of, split_table, table_identifier,
}
use grafana_pi_app.Sql.Quoting.RoundTrip.{
  read_literal, read_identifier, read_literal-literal, read_identifier-identifier,
}
use grafana_pi_app.Sql.Policy.{
  CatalogRow, first, trimmed, sql_datasource, sql_datasources, resolve_datasource, after_dot,
  tables_sql, table_of, column_info, qualified_match, is_listed, describe_column, describe_columns,
  allowed_tables, matching_tables, resolve_table, columns, find_column,
}
use grafana_pi_app.Sql.Policy.Access.{
  IsResolution, IsGranted, resolve_table-IsResolution, resolve_datasource-IsGranted,
}
use grafana_pi_app.Sql.Patterns.{
  interval_match, is_digit, exactly, span, digits, one_of, fraction_part, is_number, date_match,
  is_time_value, decimal, time_part, zone_part, seconds_part, math_scan, math_step,
}
use grafana_pi_app.Sql.Literals.{
  seconds_text, bucket_expression, typed_literal, bit_value, check_time, request_time, grafana_time,
  space_to_t, all_digits, has_zone,
}
use grafana_pi_app.Sql.Filters.{
  is_name_unit, read_op, filter_name, filter_match, escaped, like_pattern, compared, compile_filter,
}
use grafana_pi_app.Sql.Filters.Condition.{IsCondition, compile_filter-IsCondition}
use grafana_pi_app.Sql.Filters.Contains.{like, contains_text, like-like_pattern}
use grafana_pi_app.Sql.Queries.{
  Prepared, Plan, count, bucket, group_column, prepare, rows, null_condition, time_filter,
  time_condition, request_range, group_key, requested_column, selected_columns, order_column,
}
use grafana_pi_app.Sql.Queries.Rows.{IsRestricted, rows-IsRestricted}
use grafana_pi_app.Sql.Queries.Counts.{IsGrouped, count-IsGrouped}
use grafana_pi_app.Sql.Queries.Commands.{IsSafe, count-IsSafe, rows-IsSafe}

sql : Unit {0}
unfolding text_eq has starts_with trim trim_start is_space split each is_numeric is_time is_string
    has_visible_type literal identifier doubled join_by quoted index_of split_table table_identifier
    first trimmed sql_datasource sql_datasources resolve_datasource after_dot table_of column_info
    qualified_match is_listed describe_column describe_columns allowed_tables matching_tables
    resolve_table columns find_column is_digit exactly span digits one_of fraction_part is_number
    date_match is_time_value decimal time_part zone_part seconds_part math_scan math_step
    typed_literal bit_value check_time request_time grafana_time space_to_t all_digits has_zone
    is_name_unit read_op filter_name filter_match escaped like_pattern compared compile_filter
    prepare rows null_condition time_filter time_condition request_range group_key requested_column
    selected_columns order_column
sql = tt

abbrev same : Text → Text
same s = s

abbrev lower_text : Text → Text
lower_text s = map lower_unit s

abbrev no_date : Text → Option Text
no_date s = none

abbrev entry : PolicyEntry
entry = record {
  uid = some (codes "ds");
  tables = some (codes "dbo.Jobs" ∷ []);
  visible_columns = some (codes "Jobs.State" ∷ []);
}

abbrev settings : DatasourceSettings
settings = record {
  uid = codes "ds";
  name = codes "Jobs DB";
  kind = codes "mssql";
  database = none;
}

abbrev row : Text → Text → Text → CatalogRow
row a b c = record { first_field = a; second_field = b; third_field = c }

abbrev table_rows : List CatalogRow
table_rows =
    row (codes "dbo") (codes "Jobs") (codes "BASE TABLE")
    ∷ row (codes "dbo") (codes "Users") (codes "BASE TABLE")
    ∷ []

abbrev column_rows : List CatalogRow
column_rows =
    row (codes "Id") (codes "int") (codes "NO")
    ∷ row (codes "State") (codes "nvarchar") (codes "YES")
    ∷ row (codes "Owner") (codes "nvarchar") (codes "YES")
    ∷ row (codes "At") (codes "datetime2") (codes "NO")
    ∷ []

-- The catalog of one datasource, whose tables have the same columns.
abbrev catalog : Text → Text → Result (List CatalogRow)
catalog uid query = if text_eq query tables_sql then ok table_rows else ok column_rows

abbrev target : Target
target = record { datasource = some (codes "ds"); table = codes " Jobs " }

abbrev query : QueryParams
query = record {
  target = target;
  where_ = codes "Owner ~ a_$b" ∷ codes "Id>=7" ∷ [];
  is_null = codes "State" ∷ [];
  not_null = [];
  time = some (codes "At");
  start = none;
  end = none;
}

abbrev available : List Datasource
available = sql_datasources (entry ∷ []) (settings ∷ [])

abbrev request : RowsParams
request = record {
  query = query;
  columns = [];
  order = some (codes "Id");
  ascending = true;
  limit = 20;
}

abbrev source : Text
source =
    codes "FROM [dbo].[Jobs] WHERE [Owner] LIKE N'%a[_]' + NCHAR(36) + N'b%' AND [Id] >= 7 "
    ++ codes "AND [State] IS NULL AND $__timeFilter([At])"

abbrev source_of : Result Prepared → Text
source_of (ok q) = q.source
source_of (err e) = []

abbrev plan_of : Result Plan → Plan
plan_of (ok p) = p
plan_of (err e) = record { uid = []; queries = []; range = none; returned = []; hidden = 0 }

source_test : source_of (prepare same same no_date no_date available catalog query) ≡ source
unfolding sql
source_test = refl

abbrev planned : Plan
planned = plan_of (rows same same no_date no_date available catalog request)

planned_test :
    (planned.returned ≡ codes "Id" ∷ codes "State" ∷ codes "At" ∷ []) × (planned.hidden ≡ 1)
unfolding sql
planned_test = (refl, refl)

read_literal-literal_example :
    read_literal (literal (codes "it's $5") ++ codes " AND") ≡ some (codes "it's $5", codes " AND")
read_literal-literal_example = read_literal-literal (codes "it's $5") (codes " AND") (refl, refl)

read_identifier-identifier_example :
    read_identifier (codes "[a]]b]" ++ codes " = 1") ≡ some (codes "a]b", codes " = 1")
unfolding sql
read_identifier-identifier_example =
    read_identifier-identifier (codes "a]b") (codes "[a]]b]") (codes " = 1") refl refl

like-like_pattern_example :
    like (like_pattern (codes "50%_[")) (codes "a 50%_[x")
    ≡ contains_text (codes "50%_[") (codes "a 50%_[x")
like-like_pattern_example = like-like_pattern (codes "50%_[") (codes "a 50%_[x")

abbrev granted : Datasource
granted = sql_datasource entry settings

resolve_table-IsResolution_example :
    IsResolution same same granted
      (codes "Jobs")
      (map (table_of same) table_rows)
      (resolve_table same same available catalog target)
unfolding sql
resolve_table-IsResolution_example =
    resolve_table-IsResolution same same available catalog target granted table_rows refl refl

resolve_datasource-IsGranted_example :
    IsGranted (entry ∷ []) (settings ∷ []) granted
    × ((name : Text) → some (codes "ds") ≡ some name → (granted.uid ≡ name) ⊎ (granted.name ≡ name))
unfolding sql
resolve_datasource-IsGranted_example =
    resolve_datasource-IsGranted (entry ∷ []) (settings ∷ []) (some (codes "ds")) granted refl

rows-IsRestricted_example : IsRestricted same same no_date no_date available catalog request planned
unfolding sql
rows-IsRestricted_example =
    rows-IsRestricted same same no_date no_date available catalog request planned refl

abbrev state_column : Column
state_column = record {
  name = codes "State";
  kind = codes "nvarchar";
  nullable = true;
  visible = true;
  time = false;
}

compile_filter-IsCondition_example :
    IsCondition no_date same
      (state_column ∷ [])
      (codes "State != open")
      (codes "[State] <> N'open'")
unfolding sql
compile_filter-IsCondition_example =
    compile_filter-IsCondition no_date same (state_column ∷ []) (codes "dbo.Jobs")
      (codes "State != open") (codes "[State] <> N'open'") refl

-- The value `constructor` of a bit column is no value but a text that SQL Server refuses.
bit_constructor :
    typed_literal no_date same (record state_column { kind = codes "bit" }) (codes "constructor")
    ≡ ok (codes "function Object() { [native code] }")
unfolding sql
bit_constructor = refl

-- The intervals of the tests are small.
abbrev never_large : Text → ℕ → Text
never_large count u = codes "Infinity"

abbrev grouped : CountParams
grouped = record {
  query = query;
  by = some (codes "state");
  top = none;
  interval = some (codes "5m");
}

abbrev counted : Plan
counted = plan_of (count lower_text same no_date no_date available catalog never_large grouped)

count-IsGrouped_example :
    IsGrouped lower_text same no_date no_date available catalog never_large grouped counted
unfolding sql count bucket bucket_expression seconds_text interval_match group_column
count-IsGrouped_example =
    count-IsGrouped lower_text same no_date no_date available catalog never_large grouped counted
      refl

count-IsSafe_example :
    IsSafe lower_text same no_date no_date available catalog grouped.query counted
unfolding sql count bucket bucket_expression seconds_text interval_match group_column
count-IsSafe_example =
    count-IsSafe lower_text same no_date no_date available catalog never_large (λ count u. refl)
      grouped counted refl

rows-IsSafe_example : IsSafe same same no_date no_date available catalog request.query planned
unfolding sql
rows-IsSafe_example = rows-IsSafe same same no_date no_date available catalog request planned refl
