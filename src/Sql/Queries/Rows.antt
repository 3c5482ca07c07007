-- ===== src/Sql/Queries/Rows.antt =====
-- sql.ts: what the queries of `rows` read.
use grafana_pi_app.Prelude.{
  IsIn, ◌≡◌, ◌≢◌, refl, sym, ap, subst, ◌∙◌, arith, Option, none, some, List, [], ◌∷◌, Text, codes,
  map, All, Bool-cases, inl, inr, append-nil,
}
use grafana_pi_app.Sql.Types.{Column, Datasource, RowsParams, Result, ok, each, bind-ok, ok-inj}
use grafana_pi_app.Sql.Quoting.{identifier}
use grafana_pi_app.Sql.Quoting.RoundTrip.{read_identifier, read_identifier-identifier}
use grafana_pi_app.Sql.Policy.{CatalogRow, given, find_column}
use grafana_pi_app.Sql.Queries.{
  Prepared, TimeFilter, Plan, prepare, rows, selected_columns, order_column, visible_order,
  group_key, time_column, time_filter, order_sql, rows_sql, total_query, some_columns,
}
use grafana_pi_app.Sql.Queries.Visible.{
  AllShareable, IsShown, shown, columns-IsShareable, selected_columns-IsShown, find_column-IsIn,
}
use grafana_pi_app.Sql.Queries.Steps.{column_by, IsPrepared, prepare-IsPrepared, time_filter-IsTime}

-- What an identifier reads as, where nothing follows it.
abbrev pub Names : Text → Column → Type 0
Names ref c = read_identifier ref ≡ some (c.name, [])

abbrev pub AllName : List Text → List Column → Type 0
AllName [] [] = Unit {0}
AllName (ref ∷ refs) (c ∷ cs) = Names ref c × AllName refs cs
AllName refs cs = ⊥

pub identifier-Names : (c : Column) (ref : Text) → identifier c.name ≡ ok ref → Names ref c
identifier-Names c ref h =
    sym (ap read_identifier (append-nil ref)) ∙ read_identifier-identifier c.name ref [] h refl

each-AllName :
    (cs : List Column) (refs : List Text)
    → each (λ (c : Column). identifier c.name) cs ≡ ok refs
    → AllName refs cs
unfolding each
each-AllName [] [] h = tt
each-AllName [] (r ∷ refs) h = absurd (cc)
each-AllName (c ∷ cs) refs h =
    let (ref, first, more) = bind-ok (identifier c.name) _ h in
    let (others, rest, end) = bind-ok (each (λ (c : Column). identifier c.name) cs) _ more in
    subst (λ l. AllName l (c ∷ cs)) (ok-inj _ refs end)
      (identifier-Names c ref first, each-AllName cs others rest)

abbrev pub Holds : (Column → Type 0) → Option Column → Type 0
Holds P none = Unit {0}
Holds P (some c) = P c

some_columns-ok :
    (table : Text) (requested selected : List Column)
    → some_columns table requested ≡ ok selected
    → (requested ≡ selected) × (selected ≢ [])
some_columns-ok table [] selected h = absurd (cc)
some_columns-ok table (c ∷ cs) selected h = let same = ok-inj _ selected h in (same, λ e. cc)

abbrev pub IsOrder : (Column → Type 0) → Option Text → Option Column → Type 0
IsOrder P none none = Unit {0}
IsOrder P (some ref) (some c) = Names ref c × P c
IsOrder P ref c = ⊥

pub group_key-IsOrder :
    (P : Column → Type 0) (order : Option Column) (order_ref : Option Text)
    → group_key order ≡ ok order_ref
    → Holds P order
    → IsOrder P order_ref order
unfolding group_key
group_key-IsOrder P none order_ref h p = subst (λ o. IsOrder P o none) (ok-inj _ order_ref h) tt
group_key-IsOrder P (some c) order_ref h p =
    let (ref, e, more) = bind-ok (identifier c.name) _ h in
    subst (λ o. IsOrder P o (some c)) (ok-inj _ order_ref more) (identifier-Names c ref e, p)

module _ (lower upper : Text → Text) (utc parse : Text → Option Text) (available : List Datasource)
    (catalog : Text → Text → Result (List CatalogRow)) where
  -- The two queries, by the columns that stand in them.
  pub record IsRestricted (params : RowsParams) (plan : Plan) : Type 0 where
    pub query : Prepared
    pub prepared : prepare lower upper utc parse available catalog params.query ≡ ok query
    pub selected : List Column
    pub refs : List Text
    pub order : Option Column
    pub order_ref : Option Text
    pub not_empty : selected ≢ []
    pub all_shown : All (IsShown lower query.resolved) selected
    pub all_named : AllName refs selected
    pub order_shown : IsOrder (IsShown lower query.resolved) order_ref order
    pub queries :
        plan.queries
        ≡ total_query query.source
          ∷ record {
            ref_id = codes "rows";
            raw_sql =
                rows_sql params.limit refs query.source (order_sql order_ref params.ascending);
          }
          ∷ []
    pub at : plan.uid ≡ query.resolved.datasource.uid
    pub returned : plan.returned ≡ map (λ (c : Column). c.name) selected

  order_column-IsIn :
      (params : RowsParams) (query : Prepared) (name : Option Text) (c : Column)
      → IsPrepared lower upper utc parse available catalog params.query query
      → order_column lower query name ≡ ok (some c)
      → IsIn c query.resolved.columns
  unfolding order_column
  order_column-IsIn params query none c p h = go query.time p.timed (ok-inj _ _ h)
    where
      go :
          (time : Option TimeFilter)
          → time_filter (column_by lower query.resolved) params.query (given params.query.time)
            ≡ ok time
          → time_column time ≡ some c
          → IsIn c query.resolved.columns
      go none timed e = absurd (cc)
      go (some t) timed e =
          subst (λ (x : Column). IsIn x query.resolved.columns) (cc)
            (time_filter-IsTime lower query.resolved params.query (given params.query.time) t
              timed).0
  order_column-IsIn params query (some name) c p h =
      let (d, found, e) = bind-ok (find_column lower query.resolved.columns _ name _) _ h in
      subst (λ (x : Column). IsIn x query.resolved.columns) (ground (arith, ok-inj _ _ e))
        (find_column-IsIn lower query.resolved.columns query.resolved.table name _ d found).0

  module _ (query : Prepared)
      (shareable : AllShareable lower query.resolved.datasource query.resolved.table
        query.resolved.columns) where
    visible_order-IsShown :
        (found order : Option Column)
        → ((c : Column) → found ≡ some c → IsIn c query.resolved.columns)
        → visible_order found ≡ ok order
        → Holds (IsShown lower query.resolved) order
    visible_order-IsShown none order inside h =
        subst (Holds (IsShown lower query.resolved)) (ok-inj _ order h) tt
    visible_order-IsShown (some c) order inside h = elim (Bool-cases c.visible) [
      | inl v ↦
          subst (Holds (IsShown lower query.resolved))
            (ok-inj (some c) order (ground (arith, h, v)))
            (shown lower query.resolved shareable c (inside c refl) v)
      | inr v ↦ absurd (ground (arith, h, v))
    ]

  -- `rows` returns and orders by columns only that exist in the table and may be shown: their type is
  -- not a string's and not binary, or they are string columns that the policy lists. The columns in the
  -- text of the query read back as the names of these, and there is at least one.
  pub rows-IsRestricted :
      (params : RowsParams) (plan : Plan)
      → rows lower upper utc parse available catalog params ≡ ok plan
      → IsRestricted params plan
  unfolding rows
  rows-IsRestricted params plan h =
      let (query, h1, k1) =
        bind-ok (prepare lower upper utc parse available catalog params.query) _ h in
      let (requested, h2, k2) =
        bind-ok (selected_columns lower query.resolved params.columns) _ k1 in
      let (selected, h3, k3) = bind-ok (some_columns query.resolved.table requested) _ k2 in
      let (found, h4, k4) = bind-ok (order_column lower query (given params.order)) _ k3 in
      let (order, h5, k5) = bind-ok (visible_order found) _ k4 in
      let (order_ref, h6, k6) = bind-ok (group_key order) _ k5 in
      let (refs, h7, k7) = bind-ok (each (λ (c : Column). identifier c.name) selected) _ k6 in
      let p = prepare-IsPrepared lower upper utc parse available catalog params.query query h1 in
      let shareable =
        columns-IsShareable lower upper available catalog params.query.target query.resolved
          p.resolves in
      let (same, some_selected) = some_columns-ok query.resolved.table requested selected h3 in
      subst (IsRestricted params) (ok-inj _ plan k7) (record {
        query = query;
        prepared = h1;
        selected = selected;
        refs = refs;
        order = order;
        order_ref = order_ref;
        not_empty = some_selected;
        all_shown =
            subst (All (IsShown lower query.resolved)) same
              (selected_columns-IsShown lower query.resolved shareable params.columns requested h2);
        all_named = each-AllName selected refs h7;
        order_shown = group_key-IsOrder (IsShown lower query.resolved) order order_ref h6 (
            visible_order-IsShown query shareable found order
              (λ c e.
                order_column-IsIn params query (given params.order) c p
                  (subst (λ o. order_column lower query (given params.order) ≡ ok o) e h4))
              h5);
        queries = refl;
        at = refl;
        returned = refl;
      })
