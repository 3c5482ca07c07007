-- ===== src/Sql/Queries/Commands.antt =====
-- sql.ts: what Grafana can expand in the queries of `count` and `rows`.
use grafana_pi_app.Prelude.{
  ℕ, zero, suc, ◌*◌, ◌/◌, ◌≡◌, refl, sym, ap, subst, ◌∙◌, arith, Bool, true, false, Option, none,
  some, List, [], ◌++◌, Text, codes, All, append_assoc, append-nil, ltb, leb, Bool-cases, inl, inr,
}
use grafana_pi_app.Sql.Types.{
  bad_interval, Column, Query, Datasource, QueryParams, ◌>>=◌, CountParams, RowsParams, Result, ok,
  err, bind-ok, ok-inj, each, each-All,
}
use grafana_pi_app.Sql.Quoting.{dollar, identifier, join_by}
use grafana_pi_app.Sql.Quoting.RoundTrip.{identifier-no_dollar, includes-join_by}
use grafana_pi_app.Sql.Policy.{CatalogRow, given}
use grafana_pi_app.Sql.Patterns.{decimal, decimal_from, interval_match, number_of}
use grafana_pi_app.Sql.Patterns.Numbers.{NoMacro}
use grafana_pi_app.Sql.Literals.{bucket_expression, bucket_sql, seconds_text, unit_seconds}
use grafana_pi_app.Sql.Queries.{
  Prepared, TimeFilter, Plan, prepare, count, rows, bucket, group_key, group_column,
  selected_columns, some_columns, order_column, visible_order, time_filter_sql, groups_sql,
  group_queries, series_sql, series_queries, total_query, rows_sql, order_sql, or_ten,
}
use grafana_pi_app.Sql.Queries.Macros.{append-NoMacro}
use grafana_pi_app.Sql.Queries.Expansion.{Expands, prepare-Expands}
use grafana_pi_app.Sql.Queries.Rows.{Names}

-- Without a time filter there is no `$`; with one, the only `$` is that of the macro, which names the
-- filter's column.
abbrev pub IsExpanded : Option TimeFilter → Text → Type 0
IsExpanded none text = NoMacro text
IsExpanded (some t) text =
    (before : Text) × (ref : Text) × (after : Text) × (text
      ≡ before ++ (time_filter_sql ref ++ after))
    × NoMacro before
    × NoMacro ref
    × NoMacro after
    × Names ref t.column

Expands-IsExpanded :
    (time : Option TimeFilter) (source : Text) → Expands source time → IsExpanded time source
Expands-IsExpanded none source h = h
Expands-IsExpanded (some t) source (before, ref, e, b, r, n) = (
  before,
  ref,
  [],
  e ∙ ap (λ f. before ++ f) (sym (append-nil (time_filter_sql ref))),
  b,
  r,
  refl,
  n,
)

prepend-IsExpanded :
    (time : Option TimeFilter) (text other : Text)
    → NoMacro text
    → IsExpanded time other
    → IsExpanded time (text ++ other)
prepend-IsExpanded none text other n h = append-NoMacro text other n h
prepend-IsExpanded (some t) text other n (before, ref, after, e, b, r, a, names) = (
  text ++ before,
  ref,
  after,
  ap (λ s. text ++ s) e ∙ sym (append_assoc text before (time_filter_sql ref ++ after)),
  append-NoMacro text before n b,
  r,
  a,
  names,
)

append-IsExpanded :
    (time : Option TimeFilter) (other text : Text)
    → NoMacro text
    → IsExpanded time other
    → IsExpanded time (other ++ text)
append-IsExpanded none other text n h = append-NoMacro other text h n
append-IsExpanded (some t) other text n (before, ref, after, e, b, r, a, names) = (
  before,
  ref,
  after ++ text,
  ap (λ s. s ++ text) e
      ∙ append_assoc before (time_filter_sql ref ++ after) text
      ∙ ap (λ s. before ++ s) (append_assoc (time_filter_sql ref) after text),
  b,
  r,
  append-NoMacro after text a n,
  names,
)

decimal_from-NoMacro :
    (fuel n : ℕ) (after : Text) → NoMacro after → NoMacro (decimal_from fuel n after)
unfolding decimal_from
decimal_from-NoMacro zero n after h = h
decimal_from-NoMacro (suc fuel) n after h = elim (Bool-cases (ltb n 10)) [
  | inl e ↦ rw e (ground (arith, h))
  | inr e ↦ rw e (decimal_from-NoMacro fuel (n / 10) _ (ground (arith, h)))
]

decimal-NoMacro : (n : ℕ) → NoMacro (decimal n)
unfolding decimal
decimal-NoMacro n = decimal_from-NoMacro (suc n) n [] refl

group_key-NoMacro : (c : Option Column) (key : Text) → group_key c ≡ ok (some key) → NoMacro key
unfolding group_key
group_key-NoMacro none key h = absurd (cc)
group_key-NoMacro (some c) key h =
    let (ref, e, more) = bind-ok (identifier c.name) _ h in
    let same : some ref ≡ some key = ok-inj _ _ more in
    let text : ref ≡ key = cc in subst NoMacro text (identifier-no_dollar c.name ref e)

abbrev pub AllExpanded : Option TimeFilter → List Query → Type 0
AllExpanded time queries = All (λ (q : Query). IsExpanded time q.raw_sql) queries

module _ (time : Option TimeFilter) (source : Text) (h : Expands source time) where
  tail-IsExpanded : (after : Text) → NoMacro after → IsExpanded time (source ++ after)
  tail-IsExpanded after n = append-IsExpanded time source after n (Expands-IsExpanded time source h)

  total_query-IsExpanded : IsExpanded time (total_query source).raw_sql
  total_query-IsExpanded =
      prepend-IsExpanded time (codes "SELECT COUNT_BIG(*) AS total ") source refl
        (Expands-IsExpanded time source h)

  groups_sql-IsExpanded :
      (top : ℕ) (key : Text) → NoMacro key → IsExpanded time (groups_sql top key source)
  groups_sql-IsExpanded top key n = prepend-IsExpanded time (codes "SELECT TOP (") _ refl (
      prepend-IsExpanded time (decimal top) _ (decimal-NoMacro top) (
        prepend-IsExpanded time (codes ") ") _ refl (
          prepend-IsExpanded time key _ n (
            prepend-IsExpanded time (codes " AS k, COUNT_BIG(*) AS c ") _ refl (
              tail-IsExpanded _ (
                append-NoMacro (codes " GROUP BY ") (key ++ codes " ORDER BY c DESC") refl
                  (append-NoMacro key (codes " ORDER BY c DESC") n refl)))))))

  by_buckets :
      (buckets : Text)
      → NoMacro buckets
      → NoMacro (codes " GROUP BY " ++ (buckets ++ codes " ORDER BY b"))
  by_buckets buckets b =
      append-NoMacro (codes " GROUP BY ") (buckets ++ codes " ORDER BY b") refl
        (append-NoMacro buckets (codes " ORDER BY b") b refl)

  series_sql-IsExpanded :
      (key : Option Text) (buckets : Text)
      → ((k : Text) → key ≡ some k → NoMacro k)
      → NoMacro buckets
      → IsExpanded time (series_sql key buckets source)
  series_sql-IsExpanded none buckets n b = prepend-IsExpanded time (codes "SELECT ") _ refl (
      prepend-IsExpanded time buckets _ b (
        prepend-IsExpanded time (codes " AS b, COUNT_BIG(*) AS c ") _ refl
          (tail-IsExpanded _ (by_buckets buckets b))))
  series_sql-IsExpanded (some key) buckets n b = prepend-IsExpanded time (codes "SELECT ") _ refl (
      prepend-IsExpanded time key _ (n key refl) (
        prepend-IsExpanded time (codes " AS k, ") _ refl (
          prepend-IsExpanded time buckets _ b (
            prepend-IsExpanded time (codes " AS b, COUNT_BIG(*) AS c ") _ refl (
              tail-IsExpanded _ (
                append-NoMacro (codes " GROUP BY ")
                  (key ++ (codes ", " ++ (buckets ++ codes " ORDER BY b"))) refl
                  (append-NoMacro key (codes ", " ++ (buckets ++ codes " ORDER BY b")) (n key refl)
                    (append-NoMacro (codes ", ") (buckets ++ codes " ORDER BY b") refl
                      (append-NoMacro buckets (codes " ORDER BY b") b refl)))))))))

  group_queries-AllExpanded :
      (top : ℕ) (key : Option Text) (others : List Query)
      → ((k : Text) → key ≡ some k → NoMacro k)
      → AllExpanded time others
      → AllExpanded time (group_queries top key source ++ others)
  group_queries-AllExpanded top none others n k = k
  group_queries-AllExpanded top (some key) others n k =
      (groups_sql-IsExpanded top key (n key refl), k)

  series_queries-AllExpanded :
      (key buckets : Option Text)
      → ((k : Text) → key ≡ some k → NoMacro k)
      → ((b : Text) → buckets ≡ some b → NoMacro b)
      → AllExpanded time (series_queries key buckets source)
  series_queries-AllExpanded key none n b = tt
  series_queries-AllExpanded key (some buckets) n b =
      (series_sql-IsExpanded key buckets n (b buckets refl), tt)

  rows_sql-IsExpanded :
      (limit : ℕ) (refs : List Text) (order : Text)
      → All NoMacro refs
      → NoMacro order
      → IsExpanded time (rows_sql limit refs source order)
  rows_sql-IsExpanded limit refs order r n = prepend-IsExpanded time (codes "SELECT TOP (") _ refl (
      prepend-IsExpanded time (decimal limit) _ (decimal-NoMacro limit) (
        prepend-IsExpanded time (codes ") ") _ refl (
          prepend-IsExpanded time (join_by (codes ", ") refs) _
            (includes-join_by dollar (codes ", ") refs refl r)
            (prepend-IsExpanded time (codes " ") _ refl (tail-IsExpanded order n)))))

order_sql-NoMacro :
    (ref : Option Text) (ascending : Bool)
    → ((k : Text) → ref ≡ some k → NoMacro k)
    → NoMacro (order_sql ref ascending)
order_sql-NoMacro none ascending n = refl
order_sql-NoMacro (some ref) true n =
    append-NoMacro (codes " ORDER BY ") (ref ++ codes " ASC") refl
      (append-NoMacro ref (codes " ASC") (n ref refl) refl)
order_sql-NoMacro (some ref) false n =
    append-NoMacro (codes " ORDER BY ") (ref ++ codes " DESC") refl
      (append-NoMacro ref (codes " DESC") (n ref refl) refl)

refs-NoMacro :
    (cs : List Column) (refs : List Text)
    → each (λ (c : Column). identifier c.name) cs ≡ ok refs
    → All NoMacro refs
refs-NoMacro cs refs h =
    each-All NoMacro (λ (c : Column). identifier c.name) cs refs
      (λ c ref. identifier-no_dollar c.name ref) h

module _ (large : Text → ℕ → Text)
    (large_law : (count : Text) (u : ℕ) → NoMacro (large count u)) where
  seconds_text-NoMacro : (count : Text) (u : ℕ) → NoMacro (seconds_text large count u)
  unfolding seconds_text
  seconds_text-NoMacro count u =
      elim (Bool-cases (leb (number_of 0 count * unit_seconds u) 9007199254740992)) [
        | inl e ↦ rw e (decimal-NoMacro (number_of 0 count * unit_seconds u))
        | inr e ↦ rw e (large_law count u)
      ]

  bucket_sql-NoMacro :
      (name seconds : Text) → NoMacro name → NoMacro seconds → NoMacro (bucket_sql name seconds)
  bucket_sql-NoMacro name seconds n s =
      let last = append-NoMacro seconds (codes ")") s refl in
      let times = append-NoMacro (codes " * ") (seconds ++ codes ")") refl last in
      let both = append-NoMacro seconds (codes " * " ++ (seconds ++ codes ")")) s times in
      let over =
        append-NoMacro (codes ") / ") (seconds ++ (codes " * " ++ (seconds ++ codes ")"))) refl
          both in
      append-NoMacro (codes "(DATEDIFF_BIG(second, '19700101', ")
        (name ++ (codes ") / " ++ (seconds ++ (codes " * " ++ (seconds ++ codes ")"))))) refl
        (append-NoMacro name (codes ") / " ++ (seconds ++ (codes " * " ++ (seconds ++ codes ")"))))
          n over)

  bucket_expression-NoMacro :
      (column interval s : Text) → bucket_expression large column interval ≡ ok s → NoMacro s
  unfolding bucket_expression
  bucket_expression-NoMacro column interval s h = go (interval_match interval) h
    where
      go :
          (m : Option (Text × ℕ))
          → (elim m as (λ o. Result Text) [
            | none ↦ err (bad_interval interval)
            | some (count, u) ↦
                identifier column >>= λ name. ok (bucket_sql name (seconds_text large count u))
          ])
            ≡ ok s
          → NoMacro s
      go none e = absurd (cc)
      go (some (count, u)) e =
          let (name, f, more) = bind-ok (identifier column) _ e in
          subst NoMacro (ok-inj _ s more) (
            bucket_sql-NoMacro name (seconds_text large count u)
              (identifier-no_dollar column name f) (seconds_text-NoMacro count u))

  bucket-NoMacro :
      (time : Option TimeFilter) (interval : Option Text) (b : Text)
      → bucket large time interval ≡ ok (some b)
      → NoMacro b
  unfolding bucket
  bucket-NoMacro time none b h = absurd (cc)
  bucket-NoMacro none (some interval) b h = absurd (cc)
  bucket-NoMacro (some t) (some interval) b h =
      let (sql, e, more) = bind-ok (bucket_expression large t.column.name interval) _ h in
      let same : some sql ≡ some b = ok-inj _ _ more in
      let text : sql ≡ b = cc in
      subst NoMacro text (bucket_expression-NoMacro t.column.name interval sql e)

module _ (lower upper : Text → Text) (utc parse : Text → Option Text) (available : List Datasource)
    (catalog : Text → Text → Result (List CatalogRow)) where
  -- Of every query of the plan, whose time filter is that of its preparation.
  pub record IsSafe (params : QueryParams) (plan : Plan) : Type 0 where
    pub query : Prepared
    pub prepared : prepare lower upper utc parse available catalog params ≡ ok query
    pub all : AllExpanded query.time plan.queries

  -- Whatever names and values a `count` has, in its filters, groups and intervals, Grafana finds in its
  -- queries no macro to expand but the time filter that the module writes itself, if no number prints
  -- with a `$`.
  pub count-IsSafe :
      (large : Text → ℕ → Text) (large_law : (count : Text) (u : ℕ) → NoMacro (large count u))
      (params : CountParams) (plan : Plan)
      → count lower upper utc parse available catalog large params ≡ ok plan
      → IsSafe params.query plan
  unfolding count
  count-IsSafe large large_law params plan h =
      let (query, h1, k1) =
        bind-ok (prepare lower upper utc parse available catalog params.query) _ h in
      let (buckets, h2, k2) = bind-ok (bucket large query.time (given params.interval)) _ k1 in
      let (by, h3, k3) = bind-ok (group_column lower query.resolved (given params.by)) _ k2 in
      let (key, h4, k4) = bind-ok (group_key by) _ k3 in
      let source = prepare-Expands lower upper utc parse available catalog params.query query h1 in
      let keys : (k : Text) → key ≡ some k → NoMacro k =
        λ k e. group_key-NoMacro by k (h4 ∙ ap ok e) in
      let spans : (b : Text) → buckets ≡ some b → NoMacro b =
        λ b e. bucket-NoMacro large large_law query.time (given params.interval) b (h2 ∙ ap ok e) in
      subst (IsSafe params.query) (ok-inj _ plan k4) (record {
        query = query;
        prepared = h1;
        all = (
          total_query-IsExpanded query.time query.source source,
          group_queries-AllExpanded query.time query.source source (or_ten params.top) key _ keys
              (series_queries-AllExpanded query.time query.source source key buckets keys spans),
        );
      })

  -- Whatever names and values a `rows` has, in its filters, columns and order, Grafana finds in its queries
  -- no macro to expand but the time filter that the module writes itself.
  pub rows-IsSafe :
      (params : RowsParams) (plan : Plan)
      → rows lower upper utc parse available catalog params ≡ ok plan
      → IsSafe params.query plan
  unfolding rows
  rows-IsSafe params plan h =
      let (query, h1, k1) =
        bind-ok (prepare lower upper utc parse available catalog params.query) _ h in
      let (requested, h2, k2) =
        bind-ok (selected_columns lower query.resolved params.columns) _ k1 in
      let (selected, h3, k3) = bind-ok (some_columns query.resolved.table requested) _ k2 in
      let (found, h4, k4) = bind-ok (order_column lower query (given params.order)) _ k3 in
      let (order, h5, k5) = bind-ok (visible_order found) _ k4 in
      let (order_ref, h6, k6) = bind-ok (group_key order) _ k5 in
      let (refs, h7, k7) = bind-ok (each (λ (c : Column). identifier c.name) selected) _ k6 in
      let source = prepare-Expands lower upper utc parse available catalog params.query query h1 in
      subst (IsSafe params.query) (ok-inj _ plan k7) (record {
        query = query;
        prepared = h1;
        all = (
          total_query-IsExpanded query.time query.source source,
          (
            rows_sql-IsExpanded query.time query.source source params.limit refs _
                (refs-NoMacro selected refs h7)
                (order_sql-NoMacro order_ref params.ascending
                  (λ k e. group_key-NoMacro order k (h6 ∙ ap ok e))),
            tt,
          ),
        );
      })
