-- ===== src/Sql/Queries/Steps.antt =====
-- sql.ts: what a preparation that passed has done.
use grafana_pi_app.Prelude.{
  IsIn, ◌≡◌, refl, ap, subst, arith, true, Option, none, some, List, ◌++◌, Text, codes, Bool-cases,
  inl, inr,
}
use grafana_pi_app.Sql.Types.{Column, Datasource, QueryParams, Result, ok, each, bind-ok, ok-inj}
use grafana_pi_app.Sql.Quoting.{table_identifier}
use grafana_pi_app.Sql.Policy.{CatalogRow, Resolved, given, columns, find_column}
use grafana_pi_app.Sql.Literals.{check_time}
use grafana_pi_app.Sql.Filters.{compile_filter}
use grafana_pi_app.Sql.Queries.{
  Prepared, TimeFilter, prepare, null_condition, time_filter, time_condition, request_range,
  from_sql,
}
use grafana_pi_app.Sql.Queries.Visible.{find_column-IsIn}

abbrev pub column_by : (Text → Text) → Resolved → Text → Text → Result Column
column_by lower resolved = find_column lower resolved.columns resolved.table

module _ (lower upper : Text → Text) (utc parse : Text → Option Text) (available : List Datasource)
    (catalog : Text → Text → Result (List CatalogRow)) where
  pub record IsPrepared (params : QueryParams) (q : Prepared) : Type 0 where
    pub filters : List Text
    pub nulls : List Text
    pub not_nulls : List Text
    pub times : List Text
    pub table : Text
    pub resolves : columns lower upper available catalog params.target ≡ ok q.resolved
    pub filtered :
        each (compile_filter utc lower (column_by lower q.resolved)) params.where_ ≡ ok filters
    pub nulled :
        each
          (null_condition (column_by lower q.resolved) (codes "--null") (codes " IS NULL"))
          params.is_null
        ≡ ok nulls
    pub not_nulled :
        each
          (null_condition (column_by lower q.resolved) (codes "--not-null") (codes " IS NOT NULL"))
          params.not_null
        ≡ ok not_nulls
    pub timed : time_filter (column_by lower q.resolved) params (given params.time) ≡ ok q.time
    pub conditioned : time_condition q.time ≡ ok times
    pub named : table_identifier q.resolved.table ≡ ok table
    pub ranged : request_range parse q.time ≡ ok q.range
    pub built : q.source ≡ from_sql table (filters ++ (nulls ++ (not_nulls ++ times)))

  pub prepare-IsPrepared :
      (params : QueryParams) (q : Prepared)
      → prepare lower upper utc parse available catalog params ≡ ok q
      → IsPrepared params q
  unfolding prepare
  prepare-IsPrepared params q h =
      let (resolved, h1, k1) = bind-ok (columns lower upper available catalog params.target) _ h in
      let (filters, h2, k2) = bind-ok (each (compile_filter utc lower _) params.where_) _ k1 in
      let (nulls, h3, k3) =
        bind-ok (each (null_condition _ (codes "--null") _) params.is_null) _ k2 in
      let (not_nulls, h4, k4) =
        bind-ok (each (null_condition _ (codes "--not-null") _) params.not_null) _ k3 in
      let (time, h5, k5) = bind-ok (time_filter _ params (given params.time)) _ k4 in
      let (times, h6, k6) = bind-ok (time_condition time) _ k5 in
      let (table, h7, k7) = bind-ok (table_identifier resolved.table) _ k6 in
      let (range, h8, k8) = bind-ok (request_range parse time) _ k7 in
      subst (IsPrepared params) (ok-inj _ q k8) (record {
        filters = filters;
        nulls = nulls;
        not_nulls = not_nulls;
        times = times;
        table = table;
        resolves = h1;
        filtered = h2;
        nulled = h3;
        not_nulled = h4;
        timed = h5;
        conditioned = h6;
        named = h7;
        ranged = h8;
        built = refl;
      })

abbrev column_or : Column → Option TimeFilter → Column
column_or c none = c
column_or c (some t) = t.column

-- The column of a time filter is a date/time column of the table.
pub time_filter-IsTime :
    (lower : Text → Text) (resolved : Resolved) (params : QueryParams) (name : Option Text)
    (t : TimeFilter)
    → time_filter (column_by lower resolved) params name ≡ ok (some t)
    → IsIn t.column resolved.columns × (t.column.time ≡ true)
unfolding time_filter
time_filter-IsTime lower resolved params none t h = absurd (cc)
time_filter-IsTime lower resolved params (some name) t h =
    let (c, found, e) = bind-ok (find_column lower resolved.columns resolved.table name _) _ h in
    elim (Bool-cases c.time) [
      | inl v ↦
          let (start, h1, k1) = bind-ok (check_time (codes "from") _) _ (rw v at e) in
          let (end, h2, k2) = bind-ok (check_time (codes "to") _) _ k1 in
          let same : c ≡ t.column = ap (λ o. column_or c o) (ok-inj _ (some t) k2) in
          subst (λ (c : Column). IsIn c resolved.columns × (c.time ≡ true)) same
            ((find_column-IsIn lower resolved.columns resolved.table name _ c found).0, v)
      | inr v ↦ absurd (ground (arith, e, v))
    ]
