-- ===== src/Sql/Queries/Counts.antt =====
-- sql.ts: what the queries of `count` group by.
use grafana_pi_app.Sql.Quoting.{join_by}
use grafana_pi_app.Sql.Patterns.{decimal}
use grafana_pi_app.Sql.Types.{Query}
use grafana_pi_app.Prelude.{
  codes, [], ℕ, append_assoc, ◌≡◌, refl, subst, arith, Option, none, some, List, ◌∷◌, ◌++◌, Text,
  Bool-cases, inl, inr,
}
use grafana_pi_app.Sql.Types.{Column, Datasource, CountParams, Result, ok, bind-ok, ok-inj}
use grafana_pi_app.Sql.Policy.{CatalogRow, Resolved, given, find_column}
use grafana_pi_app.Sql.Queries.{
  Prepared, Plan, prepare, bucket, group_column, group_key, group_queries, series_queries, or_ten,
  count,
}
use grafana_pi_app.Sql.Queries.Visible.{
  IsShown, AllShareable, shown, columns-IsShareable, find_column-IsIn,
}
use grafana_pi_app.Sql.Queries.Steps.{prepare-IsPrepared}
use grafana_pi_app.Sql.Queries.Rows.{Holds, IsOrder, group_key-IsOrder}

-- A grouping query, from the items that it selects and the expressions that it groups by.
abbrev pub select_sql : Text → List Text → Text → List Text → Text → Text
select_sql top items source groups order =
    codes "SELECT "
    ++ (top
        ++ (join_by (codes ", ") items
            ++ (codes " "
                ++ (source
                    ++ (codes " GROUP BY "
                        ++ (join_by (codes ", ") groups ++ (codes " ORDER BY " ++ order)))))))

abbrev pub counted : Text
counted = codes "COUNT_BIG(*) AS c"

abbrev pub as_key : Text → Text
as_key key = key ++ codes " AS k"

abbrev pub as_bucket : Text → Text
as_bucket buckets = buckets ++ codes " AS b"

abbrev pub top_rows : ℕ → Text
top_rows top = codes "TOP (" ++ (decimal top ++ codes ") ")

abbrev pub grouped : ℕ → Option Text → Text → List Query
grouped top none source = []
grouped top (some key) source =
    record {
      ref_id = codes "groups";
      raw_sql =
          select_sql (top_rows top) (as_key key ∷ counted ∷ []) source (key ∷ []) (codes "c DESC");
    }
    ∷ []

abbrev pub bucketed_by : Option Text → Option Text → Text → List Query
bucketed_by key none source = []
bucketed_by none (some b) source =
    record {
      ref_id = codes "series";
      raw_sql = select_sql [] (as_bucket b ∷ counted ∷ []) source (b ∷ []) (codes "b");
    }
    ∷ []
bucketed_by (some key) (some b) source =
    record {
      ref_id = codes "series";
      raw_sql =
          select_sql [] (as_key key ∷ as_bucket b ∷ counted ∷ []) source (key ∷ b ∷ []) (codes "b");
    }
    ∷ []

group_queries-grouped :
    (top : ℕ) (key : Option Text) (source : Text)
    → group_queries top key source ≡ grouped top key source
unfolding join_by
group_queries-grouped top none source = refl
group_queries-grouped top (some key) source =
    rw (append_assoc (decimal top), append_assoc key, append_assoc key) refl

series_queries-bucketed_by :
    (key buckets : Option Text) (source : Text)
    → series_queries key buckets source ≡ bucketed_by key buckets source
unfolding join_by
series_queries-bucketed_by none none source = refl
series_queries-bucketed_by (some key) none source = refl
series_queries-bucketed_by none (some b) source = rw (append_assoc b, append_assoc b) refl
series_queries-bucketed_by (some key) (some b) source =
    rw (append_assoc key, append_assoc key, append_assoc key, append_assoc b, append_assoc b) refl

module _ (lower upper : Text → Text) (utc parse : Text → Option Text) (available : List Datasource)
    (catalog : Text → Text → Result (List CatalogRow)) where
  -- The queries, by the items that they select: the column that they group by, the buckets of the time
  -- filter and the counts.
  pub record IsGrouped (large : Text → ℕ → Text) (params : CountParams) (plan : Plan) : Type 0 where
    pub query : Prepared
    pub prepared : prepare lower upper utc parse available catalog params.query ≡ ok query
    pub by : Option Column
    pub key : Option Text
    pub buckets : Option Text
    pub by_shown : IsOrder (IsShown lower query.resolved) key by
    pub bucketed : bucket large query.time (given params.interval) ≡ ok buckets
    pub queries :
        plan.queries
        ≡ record {
          ref_id = codes "total";
          raw_sql = codes "SELECT COUNT_BIG(*) AS total " ++ query.source;
        }
          ∷ (grouped (or_ten params.top) key query.source ++ bucketed_by key buckets query.source)
    pub at : plan.uid ≡ query.resolved.datasource.uid

  group_column-IsShown :
      (resolved : Resolved) (name : Option Text) (by : Option Column)
      → AllShareable lower resolved.datasource resolved.table resolved.columns
      → group_column lower resolved name ≡ ok by
      → Holds (IsShown lower resolved) by
  unfolding group_column
  group_column-IsShown resolved none by shareable h =
      subst (Holds (IsShown lower resolved)) (ok-inj none by h) tt
  group_column-IsShown resolved (some name) by shareable h =
      let (c, found, e) = bind-ok (find_column lower resolved.columns resolved.table name _) _ h in
      elim (Bool-cases c.visible) [
        | inl v ↦
            subst (Holds (IsShown lower resolved)) (ok-inj (some c) by (ground (arith, e, v))) (
              shown lower resolved shareable c
                (find_column-IsIn lower resolved.columns resolved.table name _ c found).0 v)
        | inr v ↦ absurd (ground (arith, e, v))
      ]

  -- `count` groups only by a column that exists in the table and may be shown, whose name the key in
  -- the queries reads back as. Beside a count of all rows, its queries select exactly that key, the time
  -- buckets and the counts, from the source that was prepared.
  pub count-IsGrouped :
      (large : Text → ℕ → Text) (params : CountParams) (plan : Plan)
      → count lower upper utc parse available catalog large params ≡ ok plan
      → IsGrouped large params plan
  unfolding count
  count-IsGrouped large params plan h =
      let (query, h1, k1) =
        bind-ok (prepare lower upper utc parse available catalog params.query) _ h in
      let (buckets, h2, k2) = bind-ok (bucket large query.time (given params.interval)) _ k1 in
      let (by, h3, k3) = bind-ok (group_column lower query.resolved (given params.by)) _ k2 in
      let (key, h4, k4) = bind-ok (group_key by) _ k3 in
      let p = prepare-IsPrepared lower upper utc parse available catalog params.query query h1 in
      let shareable =
        columns-IsShareable lower upper available catalog params.query.target query.resolved
          p.resolves in
      subst (IsGrouped large params) (ok-inj _ plan k4) (record {
        query = query;
        prepared = h1;
        by = by;
        key = key;
        buckets = buckets;
        by_shown =
            group_key-IsOrder (IsShown lower query.resolved) by key h4
              (group_column-IsShown query.resolved (given params.by) by shareable h3);
        bucketed = h2;
        queries =
            rw
              (
                ← group_queries-grouped (or_ten params.top) key query.source,
                ← series_queries-bucketed_by key buckets query.source,
              )
              refl;
        at = refl;
      })
