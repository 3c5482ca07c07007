-- ===== src/Sql/Queries.antt =====
-- sql.ts: the queries of `count` and `rows`, up to the call of `run`. What is made of the answers is
-- not modelled.
pub mod Visible
pub mod Counts
pub mod Expansion
pub mod Commands
pub mod Macros
pub mod Rows
pub mod Steps
use grafana_pi_app.Prelude.{
  ℕ, ◌-◌, Bool, true, false, not, Option, none, some, List, [], ◌∷◌, ◌++◌, Text, codes, length, map,
  filter, if◌then◌else◌,
}
use grafana_pi_app.Sql.Types.{
  Query, Range, Datasource, Column, QueryParams, CountParams, RowsParams, PolicyError,
  not_a_time_column, interval_needs_time, by_not_visible, column_not_visible, no_visible_columns,
  order_not_visible, Result, ok, err, ◌>>=◌, each,
}
use grafana_pi_app.Sql.Quoting.{identifier, table_identifier, join_by}
use grafana_pi_app.Sql.Policy.{CatalogRow, Resolved, columns, find_column, given}
use grafana_pi_app.Sql.Patterns.{decimal}
use grafana_pi_app.Sql.Literals.{bucket_expression, check_time, request_time}
use grafana_pi_app.Sql.Filters.{compile_filter}

pub record TimeFilter : Type 0 where
  pub column : Column
  pub start : Text
  pub end : Text

pub record Prepared : Type 0 where
  pub resolved : Resolved
  pub source : Text
  pub time : Option TimeFilter
  pub range : Option Range

-- The queries that are run, at which datasource and over which range; the columns that `rows`
-- returns, and how many it does not.
pub record Plan : Type 0 where
  pub uid : Text
  pub queries : List Query
  pub range : Option Range
  pub returned : List Text
  pub hidden : ℕ

abbrev pub time_filter_sql : Text → Text
time_filter_sql column = codes "$__timeFilter(" ++ (column ++ codes ")")

abbrev pub where_sql : List Text → Text
where_sql [] = []
where_sql (c ∷ cs) = codes " WHERE " ++ join_by (codes " AND ") (c ∷ cs)

abbrev pub from_sql : Text → List Text → Text
from_sql table conditions = codes "FROM " ++ (table ++ where_sql conditions)

abbrev or_text : Text → Option Text → Text
or_text other none = other
or_text other (some s) = s

unfoldable pub null_condition : (Text → Text → Result Column) → Text → Text → Text → Result Text
null_condition column option suffix name =
    column name option >>= λ c. identifier c.name >>= λ ref. ok (ref ++ suffix)

unfoldable pub time_filter :
    (Text → Text → Result Column) → QueryParams → Option Text → Result (Option TimeFilter)
time_filter column params none = ok none
time_filter column params (some name) = column name (codes "--time") >>= λ c.
    if c.time
    then (check_time (codes "from") (or_text (codes "now-1h") params.start) >>= λ start.
        check_time (codes "to") (or_text (codes "now") params.end) >>= λ end.
        ok (some (record { column = c; start = start; end = end })))
    else err (not_a_time_column c.name c.kind)

unfoldable pub time_condition : Option TimeFilter → Result (List Text)
time_condition none = ok []
time_condition (some time) = identifier time.column.name >>= λ ref. ok (time_filter_sql ref ∷ [])

module _ (parse : Text → Option Text) where
  unfoldable pub request_range : Option TimeFilter → Result (Option Range)
  request_range none = ok none
  request_range (some time) = request_time parse time.start >>= λ start.
      request_time parse time.end >>= λ end. ok (some (record { start = start; end = end }))

abbrev pub total_query : Text → Query
total_query source = record {
  ref_id = codes "total";
  raw_sql = codes "SELECT COUNT_BIG(*) AS total " ++ source;
}

unfoldable pub bucket : (Text → ℕ → Text) → Option TimeFilter → Option Text → Result (Option Text)
bucket large time none = ok none
bucket large none (some interval) = err interval_needs_time
bucket large (some time) (some interval) =
    bucket_expression large time.column.name interval >>= λ sql. ok (some sql)

unfoldable pub group_key : Option Column → Result (Option Text)
group_key none = ok none
group_key (some c) = identifier c.name >>= λ key. ok (some key)

abbrev pub groups_sql : ℕ → Text → Text → Text
groups_sql top key source =
    codes "SELECT TOP ("
    ++ (decimal top
        ++ (codes ") "
            ++ (key
                ++ (codes " AS k, COUNT_BIG(*) AS c "
                    ++ (source ++ (codes " GROUP BY " ++ (key ++ codes " ORDER BY c DESC")))))))

abbrev pub group_queries : ℕ → Option Text → Text → List Query
group_queries top none source = []
group_queries top (some key) source =
    record { ref_id = codes "groups"; raw_sql = groups_sql top key source } ∷ []

abbrev pub series_sql : Option Text → Text → Text → Text
series_sql none buckets source =
    codes "SELECT "
    ++ (buckets
        ++ (codes " AS b, COUNT_BIG(*) AS c "
            ++ (source ++ (codes " GROUP BY " ++ (buckets ++ codes " ORDER BY b")))))
series_sql (some key) buckets source =
    codes "SELECT "
    ++ (key
        ++ (codes " AS k, "
            ++ (buckets
                ++ (codes " AS b, COUNT_BIG(*) AS c "
                    ++ (source
                        ++ (codes " GROUP BY "
                            ++ (key ++ (codes ", " ++ (buckets ++ codes " ORDER BY b")))))))))

abbrev pub series_queries : Option Text → Option Text → Text → List Query
series_queries key none source = []
series_queries key (some buckets) source =
    record { ref_id = codes "series"; raw_sql = series_sql key buckets source } ∷ []

abbrev pub or_ten : Option ℕ → ℕ
or_ten none = 10
or_ten (some n) = n

abbrev visible_columns : List Column → List Column
visible_columns cs = filter (λ (c : Column). c.visible) cs

abbrev pub some_columns : Text → List Column → Result (List Column)
some_columns table [] = err (no_visible_columns table)
some_columns table (c ∷ cs) = ok (c ∷ cs)

abbrev pub time_column : Option TimeFilter → Option Column
time_column none = none
time_column (some time) = some time.column

abbrev pub visible_order : Option Column → Result (Option Column)
visible_order none = ok none
visible_order (some c) = if c.visible then ok (some c) else err (order_not_visible c.name)

abbrev pub order_sql : Option Text → Bool → Text
order_sql none ascending = []
order_sql (some ref) ascending =
    codes " ORDER BY " ++ (ref ++ (if ascending then codes " ASC" else codes " DESC"))

abbrev pub rows_sql : ℕ → List Text → Text → Text → Text
rows_sql limit refs source order =
    codes "SELECT TOP ("
    ++ (decimal limit ++ (codes ") " ++ (join_by (codes ", ") refs ++ (b' ' ∷ (source ++ order)))))

abbrev column_names : List Column → List Text
column_names cs = map (λ (c : Column). c.name) cs

module _ (lower : Text → Text) where
  unfoldable pub group_column : Resolved → Option Text → Result (Option Column)
  group_column resolved none = ok none
  group_column resolved (some by) =
      find_column lower resolved.columns resolved.table by (codes "--by") >>= λ c.
      if c.visible then ok (some c) else err (by_not_visible c.name)

  unfoldable pub requested_column : Resolved → Text → Result Column
  requested_column resolved name =
      find_column lower resolved.columns resolved.table name (codes "--columns") >>= λ c.
      if c.visible then ok c else err (column_not_visible c.name)

  unfoldable pub selected_columns : Resolved → List Text → Result (List Column)
  selected_columns resolved [] = ok (visible_columns resolved.columns)
  selected_columns resolved (name ∷ names) = each (requested_column resolved) (name ∷ names)

  unfoldable pub order_column : Prepared → Option Text → Result (Option Column)
  order_column query none = ok (time_column query.time)
  order_column query (some name) =
      find_column lower query.resolved.columns query.resolved.table name (codes "--order") >>= λ c.
      ok (some c)

module _ (lower upper : Text → Text) (utc parse : Text → Option Text) (available : List Datasource)
    (catalog : Text → Text → Result (List CatalogRow)) where
  unfoldable pub prepare : QueryParams → Result Prepared
  prepare params = do
    resolved ← columns lower upper available catalog params.target
    let column = find_column lower resolved.columns resolved.table
    filters ← each (compile_filter utc lower column) params.where_
    nulls ← each (null_condition column (codes "--null") (codes " IS NULL")) params.is_null
    not_nulls ←
        each (null_condition column (codes "--not-null") (codes " IS NOT NULL")) params.not_null
    time ← time_filter column params (given params.time)
    times ← time_condition time
    table ← table_identifier resolved.table
    range ← request_range parse time
    ok (record {
      resolved = resolved;
      source = from_sql table (filters ++ (nulls ++ (not_nulls ++ times)));
      time = time;
      range = range;
    })

  unfoldable pub count : (Text → ℕ → Text) → CountParams → Result Plan
  count large params = do
    query ← prepare params.query
    buckets ← bucket large query.time (given params.interval)
    by ← group_column lower query.resolved (given params.by)
    key ← group_key by
    ok (record {
      uid = query.resolved.datasource.uid;
      queries =
          total_query query.source
          ∷ (group_queries (or_ten params.top) key query.source
              ++ series_queries key buckets query.source);
      range = query.range;
      returned = [];
      hidden = 0;
    })

  unfoldable pub rows : RowsParams → Result Plan
  rows params = do
    query ← prepare params.query
    requested ← selected_columns lower query.resolved params.columns
    selected ← some_columns query.resolved.table requested
    found ← order_column lower query (given params.order)
    order ← visible_order found
    order_ref ← group_key order
    refs ← each (λ (c : Column). identifier c.name) selected
    ok (record {
      uid = query.resolved.datasource.uid;
      queries =
          total_query query.source
          ∷ record {
            ref_id = codes "rows";
            raw_sql =
                rows_sql params.limit refs query.source (order_sql order_ref params.ascending);
          }
          ∷ [];
      range = query.range;
      returned = column_names selected;
      hidden = length query.resolved.columns - length selected;
    })
