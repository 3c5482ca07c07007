-- ===== src/Sql/Queries/Expansion.antt =====
-- sql.ts: what Grafana can expand in the text that every query of a command ends in.
use grafana_pi_app.Prelude.{
  ◌≡◌, refl, sym, ap, subst, ◌∙◌, Option, none, some, List, [], ◌∷◌, ◌++◌, Text, codes, All,
  All-append, append_assoc, append-nil,
}
use grafana_pi_app.Sql.Types.{
  Column, Datasource, QueryParams, Result, ok, bind-ok, ok-inj, each-All,
}
use grafana_pi_app.Sql.Quoting.{dollar, identifier, join_by, table_identifier, split_table}
use grafana_pi_app.Sql.Quoting.RoundTrip.{identifier-no_dollar, includes-join_by}
use grafana_pi_app.Sql.Policy.{CatalogRow}
use grafana_pi_app.Sql.Patterns.Numbers.{NoMacro}
use grafana_pi_app.Sql.Filters.{compile_filter}
use grafana_pi_app.Sql.Queries.{
  Prepared, TimeFilter, prepare, null_condition, time_condition, time_filter_sql, where_sql,
  from_sql,
}
use grafana_pi_app.Sql.Queries.Macros.{append-NoMacro, compile_filter-NoMacro}
use grafana_pi_app.Sql.Queries.Steps.{column_by, prepare-IsPrepared}
use grafana_pi_app.Sql.Queries.Rows.{Names, identifier-Names}

null_condition-NoMacro :
    (column : Text → Text → Result Column) (option suffix name s : Text)
    → NoMacro suffix
    → null_condition column option suffix name ≡ ok s
    → NoMacro s
unfolding null_condition
null_condition-NoMacro column option suffix name s n h =
    let (c, found, more) = bind-ok (column name option) _ h in
    let (ref, e, end) = bind-ok (identifier c.name) _ more in
    subst NoMacro (ok-inj _ s end) (append-NoMacro ref suffix (identifier-no_dollar c.name ref e) n)

table_identifier-NoMacro : (table s : Text) → table_identifier table ≡ ok s → NoMacro s
unfolding table_identifier
table_identifier-NoMacro table s h =
    let (schema, e, more) = bind-ok (identifier (split_table table).0) _ h in
    let (name, f, end) = bind-ok (identifier (split_table table).1) _ more in
    subst NoMacro (ok-inj _ s end) (
      append-NoMacro schema (b'.' ∷ name) (identifier-no_dollar (split_table table).0 schema e)
        (identifier-no_dollar (split_table table).1 name f))

where_sql-NoMacro :
    (conditions : List Text) → All NoMacro conditions → NoMacro (where_sql conditions)
where_sql-NoMacro [] h = refl
where_sql-NoMacro (c ∷ cs) h =
    append-NoMacro (codes " WHERE ") (join_by (codes " AND ") (c ∷ cs)) refl
      (includes-join_by dollar (codes " AND ") (c ∷ cs) refl h)

join_by-last :
    (conditions : List Text) (last : Text)
    → All NoMacro conditions
    → (before : Text) × (join_by (codes " AND ") (conditions ++ last ∷ []) ≡ before ++ last)
      × NoMacro before
unfolding join_by
join_by-last [] last h = ([], refl, refl)
join_by-last (c ∷ []) last h =
    (c ++ codes " AND ", sym (append_assoc c (codes " AND ") last), append-NoMacro c _ h.0 refl)
join_by-last (c ∷ d ∷ cs) last h =
    let (before, e, n) = join_by-last (d ∷ cs) last h.1 in
    (
      c ++ (codes " AND " ++ before),
      ap (λ t. c ++ (codes " AND " ++ t)) e ∙ sym (append_assoc c (codes " AND " ++ before) last),
      append-NoMacro c _ h.0 (append-NoMacro (codes " AND ") before refl n),
    )

-- Without a time filter there is no `$`; with one, the only `$` is that of the macro, which names the
-- filter's column and ends the text.
abbrev pub Expands : Text → Option TimeFilter → Type 0
Expands source none = NoMacro source
Expands source (some t) =
    (before : Text) × (ref : Text) × (source ≡ before ++ time_filter_sql ref)
    × NoMacro before
    × NoMacro ref
    × Names ref t.column

where_sql-append :
    (conditions : List Text) (last : Text)
    → where_sql (conditions ++ last ∷ [])
      ≡ codes " WHERE " ++ join_by (codes " AND ") (conditions ++ last ∷ [])
where_sql-append [] last = refl
where_sql-append (c ∷ cs) last = refl

where_sql-last :
    (conditions : List Text) (last : Text)
    → All NoMacro conditions
    → (before : Text) × (where_sql (conditions ++ last ∷ []) ≡ before ++ last) × NoMacro before
where_sql-last conditions last h =
    let (before, e, n) = join_by-last conditions last h in
    (
      codes " WHERE " ++ before,
      where_sql-append conditions last ∙ ap (λ t. codes " WHERE " ++ t) e,
      append-NoMacro (codes " WHERE ") before refl n,
    )

from_sql-Expands :
    (table : Text) (conditions times : List Text) (time : Option TimeFilter)
    → NoMacro table
    → All NoMacro conditions
    → time_condition time ≡ ok times
    → Expands (from_sql table (conditions ++ times)) time
unfolding time_condition
from_sql-Expands table conditions times none n h e =
    subst (λ ts. NoMacro (from_sql table (conditions ++ ts))) (ok-inj [] times e)
      (append-NoMacro (codes "FROM ") (table ++ where_sql (conditions ++ [])) refl (
        append-NoMacro table (where_sql (conditions ++ [])) n
          (rw (append-nil conditions) (where_sql-NoMacro conditions h))))
from_sql-Expands table conditions times (some t) n h e =
    let (ref, f, end) = bind-ok (identifier t.column.name) _ e in
    let (before, g, k) = where_sql-last conditions (time_filter_sql ref) h in
    (
      codes "FROM " ++ (table ++ before),
      ref,
      ap (λ ts. from_sql table (conditions ++ ts)) (sym (ok-inj _ times end))
          ∙ ap (λ s. codes "FROM " ++ (table ++ s)) g
          ∙ sym (append_assoc (codes "FROM " ++ table) before (time_filter_sql ref)),
      append-NoMacro (codes "FROM ") (table ++ before) refl (append-NoMacro table before n k),
      identifier-no_dollar t.column.name ref f,
      identifier-Names t.column ref f,
    )

same_order :
    (table : Text) (a b c d : List Text)
    → from_sql table ((a ++ (b ++ c)) ++ d) ≡ from_sql table (a ++ (b ++ (c ++ d)))
same_order table a b c d =
    ap (from_sql table) (append_assoc a (b ++ c) d ∙ ap (λ l. a ++ l) (append_assoc b c d))

module _ (lower upper : Text → Text) (utc parse : Text → Option Text) (available : List Datasource)
    (catalog : Text → Text → Result (List CatalogRow)) where
  -- Whatever names and values a command has, Grafana finds in the tail of its queries no macro to
  -- expand but the time filter that the module writes itself.
  pub prepare-Expands :
      (params : QueryParams) (q : Prepared)
      → prepare lower upper utc parse available catalog params ≡ ok q
      → Expands q.source q.time
  prepare-Expands params q h =
      let p = prepare-IsPrepared lower upper utc parse available catalog params q h in
      let column = column_by lower q.resolved in
      let filters : All NoMacro p.filters =
        each-All NoMacro (compile_filter utc lower column) params.where_ p.filters
          (compile_filter-NoMacro utc lower column) p.filtered in
      let nulls : All NoMacro p.nulls =
        each-All NoMacro (null_condition column (codes "--null") (codes " IS NULL")) params.is_null
          p.nulls
          (λ name s. null_condition-NoMacro column (codes "--null") (codes " IS NULL") name s refl)
          p.nulled in
      let not_nulls : All NoMacro p.not_nulls =
        each-All NoMacro (null_condition column (codes "--not-null") (codes " IS NOT NULL"))
          params.not_null p.not_nulls
          (λ name s.
            null_condition-NoMacro column (codes "--not-null") (codes " IS NOT NULL") name s refl)
          p.not_nulled in
      let others = All-append NoMacro p.nulls p.not_nulls nulls not_nulls in
      let all = All-append NoMacro p.filters (p.nulls ++ p.not_nulls) filters others in
      subst (λ s. Expands s q.time)
        (same_order p.table p.filters p.nulls p.not_nulls p.times ∙ sym p.built)
        (from_sql-Expands p.table (p.filters ++ (p.nulls ++ p.not_nulls)) p.times q.time
          (table_identifier-NoMacro q.resolved.table p.table p.named) all p.conditioned)
