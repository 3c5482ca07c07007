-- ===== src/Sql/Filters.antt =====
-- sql.ts: the conditions of a query, from filters such as `State != open`.
pub mod Contains
pub mod Condition
use grafana_pi_app.Prelude.{
  ℕ, Bool, true, false, ◌||◌, Option, none, some, List, [], ◌∷◌, ◌++◌, Text, codes, includes,
  reverse, if◌then◌else◌,
}
use grafana_pi_app.Paths.{trim, is_space}
use grafana_pi_app.Sql.Types.{
  Column, bad_filter, contains_needs_string, Result, ok, err, ◌>>=◌, is_string,
}
use grafana_pi_app.Sql.Quoting.{literal, identifier}
use grafana_pi_app.Sql.Patterns.{span}
use grafana_pi_app.Sql.Literals.{typed_literal}

pub data FilterOp : Type 0 where
  le ge ne not_contains eq lt gt contains : FilterOp

-- `[^=!<>~]`
unfoldable pub is_name_unit : ℕ → Bool
is_name_unit c = if includes c (codes "=!<>~") then false else true

-- The operator at the head of the text, the longer first, and the rest.
unfoldable pub read_op : Text → Option (FilterOp × Text)
read_op [] = none
read_op (c ∷ []) =
    if includes c (codes "=")
    then some (eq, [])
    else if includes c (codes "<")
    then some (lt, [])
    else if includes c (codes ">")
    then some (gt, [])
    else if includes c (codes "~")
    then some (contains, [])
    else none
read_op (c ∷ d ∷ s) =
    if includes c (codes "<")
    then (if includes d (codes "=") then some (le, s) else some (lt, d ∷ s))
    else if includes c (codes ">")
    then (if includes d (codes "=") then some (ge, s) else some (gt, d ∷ s))
    else if includes c (codes "!")
    then (if includes d (codes "=")
        then some (ne, s)
        else if includes d (codes "~")
        then some (not_contains, s)
        else none)
    else if includes c (codes "=")
    then some (eq, d ∷ s)
    else if includes c (codes "~")
    then some (contains, d ∷ s)
    else none

abbrev last_unit : Text → Text
last_unit [] = []
last_unit (c ∷ []) = c ∷ []
last_unit (c ∷ d ∷ s) = last_unit (d ∷ s)

abbrev or_last : Text → Text → Text
or_last before [] = last_unit before
or_last before (c ∷ s) = c ∷ s

-- `\s*([^=!<>~]+?)\s*`: the name without the white space around it; of white space alone the last
-- unit.
unfoldable pub filter_name : Text → Text
unfolding trim
filter_name before = or_last before (trim before)

-- FILTER: the name, the operator and the value.
unfoldable pub filter_match : Text → Option (Text × FilterOp × Text)
unfolding span is_name_unit read_op filter_name
filter_match filter = elim (span is_name_unit filter).0 [
  | [] ↦ none
  | c ∷ s ↦ elim (read_op (span is_name_unit filter).1) [
    | none ↦ none
    | some (op, value) ↦ some (filter_name (c ∷ s), op, value)
  ]
]

-- `value.replace(/[[%_]/g, (char) => `[${char}]`)`
unfoldable pub escaped : Text → Text
escaped [] = []
escaped (c ∷ s) = if includes c (codes "[%_") then b'[' ∷ c ∷ b']' ∷ escaped s else c ∷ escaped s

unfoldable pub like_pattern : Text → Text
unfolding escaped
like_pattern value = b'%' ∷ (escaped value ++ codes "%")

abbrev pub op_text : FilterOp → Text
op_text le = codes "<="
op_text ge = codes ">="
op_text ne = codes "<>"
op_text not_contains = codes "NOT LIKE"
op_text eq = codes "="
op_text lt = codes "<"
op_text gt = codes ">"
op_text contains = codes "LIKE"

abbrev pub is_contains : FilterOp → Bool
is_contains contains = true
is_contains not_contains = true
is_contains other = false

-- `${ref} ${op} ${value}`
abbrev pub comparison : Text → FilterOp → Text → Text
comparison ref op value = ref ++ (b' ' ∷ (op_text op ++ (b' ' ∷ value)))

module _ (utc : Text → Option Text) (lower : Text → Text) where
  unfoldable pub compared : Column → Text → FilterOp → Text → Result Text
  compared target ref op value =
      if is_contains op
      then (if is_string target.kind
          then ok (comparison ref op (literal (like_pattern value)))
          else err (contains_needs_string target.name target.kind))
      else (typed_literal utc lower target value >>= λ typed. ok (comparison ref op typed))

  unfoldable pub compile_filter : (Text → Text → Result Column) → Text → Result Text
  compile_filter column filter = elim (filter_match filter) [
    | none ↦ err (bad_filter filter)
    | some (name, op, raw_value) ↦ column name (codes "--where") >>= λ target.
        identifier target.name >>= λ ref. compared target ref op (trim raw_value)
  ]
