-- ===== src/Sql/Quoting.antt =====
-- sql.ts: literals and identifiers of the queries, and the names of tables.
pub mod RoundTrip
use grafana_pi_app.Prelude.{
  ℕ, zero, suc, ◌+◌, ◌-◌, Bool, true, false, Option, none, some, List, [], ◌∷◌, ◌++◌, Text, codes,
  length, take, drop, includes, ◌==◌, if◌then◌else◌, map,
}
use grafana_pi_app.Paths.{split}
use grafana_pi_app.Sql.Types.{Result, ok, err, dollar_in_name, ◌>>=◌}

abbrev pub dollar : ℕ
dollar = b'$'

abbrev pub quote : ℕ
quote = b'\''

abbrev pub close : ℕ
close = b']'

-- `text.replace(/c/g, 'cc')`.
unfoldable pub doubled : ℕ → Text → Text
doubled c [] = []
doubled c (x ∷ s) = if x == c then x ∷ x ∷ doubled c s else x ∷ doubled c s

-- `parts.join(separator)`.
unfoldable pub join_by : Text → List Text → Text
join_by separator [] = []
join_by separator (p ∷ []) = p
join_by separator (p ∷ q ∷ ps) = p ++ (separator ++ join_by separator (q ∷ ps))

-- N'part'
unfoldable pub quoted : Text → Text
unfolding doubled
quoted part = codes "N'" ++ (doubled quote part ++ codes "'")

abbrev pub dollar_char : Text
dollar_char = codes " + NCHAR(36) + "

unfoldable pub literal : Text → Text
unfolding join_by quoted split
literal value = join_by dollar_char (map quoted (split dollar value))

unfoldable pub identifier : Text → Result Text
unfolding doubled
identifier name =
    if includes dollar name
    then err (dollar_in_name name)
    else ok (codes "[" ++ (doubled close name ++ codes "]"))

-- `indexOf` of one code unit; `none` for -1.
unfoldable pub index_of : ℕ → Text → Option ℕ
index_of c [] = none
index_of c (x ∷ s) =
    if x == c then some 0 else elim (index_of c s) [ some i ↦ some (suc i) | none ↦ none ]

-- Without a dot, `slice(0, -1)` and `slice(0)`.
unfoldable pub split_table : Text → Text × Text
unfolding index_of
split_table table = elim (index_of b'.' table) [
  | some i ↦ (take i table, drop (i + 1) table)
  | none ↦ (take (length table - 1) table, table)
]

unfoldable pub table_identifier : Text → Result Text
unfolding split_table identifier
table_identifier table = do
  schema ← identifier (split_table table).0
  name ← identifier (split_table table).1
  ok (schema ++ b'.' ∷ name)
