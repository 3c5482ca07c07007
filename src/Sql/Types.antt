-- ===== src/Sql/Types.antt =====
-- sql.ts: its types, its errors, and the names of the column types.
use grafana_pi_app.Prelude.{
  ℕ, Bool, Option, List, [], ◌∷◌, ◌++◌, Text, codes, has, All, ◌≡◌, refl, subst,
}

-- `PiAppSqlDatasource`; an entry without a UID fits no datasource.
pub record PolicyEntry : Type 0 where
  pub uid : Option Text
  pub tables : Option (List Text)
  pub visible_columns : Option (List Text)

-- `database` is `jsonData?.database` where that is a string.
pub record DatasourceSettings : Type 0 where
  pub uid : Text
  pub name : Text
  pub kind : Text
  pub database : Option Text

pub record Datasource : Type 0 where
  pub uid : Text
  pub name : Text
  pub database : Option Text
  pub tables : List Text
  pub visible_columns : List Text

pub record Query : Type 0 where
  pub ref_id : Text
  pub raw_sql : Text

pub record Range : Type 0 where
  pub start : Text
  pub end : Text

pub data TableType : Type 0 where
  base_table view : TableType

pub record Table : Type 0 where
  pub name : Text
  pub kind : TableType

-- A column as INFORMATION_SCHEMA tells it.
pub record ColumnInfo : Type 0 where
  pub name : Text
  pub kind : Text
  pub nullable : Bool

pub record Column : Type 0 where
  pub name : Text
  pub kind : Text
  pub nullable : Bool
  pub visible : Bool
  pub time : Bool

pub record Target : Type 0 where
  pub datasource : Option Text
  pub table : Text

pub record QueryParams : Type 0 where
  pub target : Target
  pub where_ : List Text
  pub is_null : List Text
  pub not_null : List Text
  pub time : Option Text
  pub start : Option Text
  pub end : Option Text

pub record CountParams : Type 0 where
  pub query : QueryParams
  pub by : Option Text
  pub top : Option ℕ
  pub interval : Option Text

pub record RowsParams : Type 0 where
  pub query : QueryParams
  pub columns : List Text
  pub order : Option Text
  pub ascending : Bool
  pub limit : ℕ

-- The errors that are thrown, with what their messages name.
pub data PolicyError : Type 0 where
  datasource_not_available : Option Text → PolicyError
  table_ambiguous : Text → List Text → PolicyError
  table_not_available : Text → PolicyError
  no_such_column : Text → Text → Text → PolicyError
  not_a_time_column : Text → Text → PolicyError
  bad_time : Text → Text → PolicyError
  bad_filter : Text → PolicyError
  contains_needs_string : Text → Text → PolicyError
  not_a_number : Text → Text → PolicyError
  not_a_bit : Text → PolicyError
  not_a_time : Text → Text → Text → PolicyError
  not_a_guid : Text → Text → PolicyError
  not_comparable : Text → Text → PolicyError
  dollar_in_name : Text → PolicyError
  bad_interval : Text → PolicyError
  interval_needs_time : PolicyError
  by_not_visible : Text → PolicyError
  column_not_visible : Text → PolicyError
  no_visible_columns : Text → PolicyError
  order_not_visible : Text → PolicyError
  query_failed : Text → PolicyError

pub data Result {ℓ} (A : Type ℓ) : Type ℓ where
  ok : A → Result A
  err : PolicyError → Result A

infixl 5 ◌>>=◌
abbrev pub ◌>>=◌ {ℓ κ} : {A : Type ℓ} {B : Type κ} → Result A → (A → Result B) → Result B
err e >>= next = err e
ok a >>= next = next a

pub ok-inj {ℓ} : {A : Type ℓ} (a b : A) → ok a ≡ ok b → a ≡ b
ok-inj a b h = cc

-- A chain that passed, taken apart into its first step and the rest.
pub bind-ok {ℓ κ} :
    {A : Type ℓ} {B : Type κ} (m : Result A) (next : A → Result B) {b : B}
    → (m >>= next) ≡ ok b
    → (a : A) × (m ≡ ok a) × (next a ≡ ok b)
bind-ok (err e) next h = absurd (cc)
bind-ok (ok a) next h = (a, refl, h)

-- `items.map` with a function that may throw.
unfoldable pub each {ℓ κ} : {A : Type ℓ} {B : Type κ} → (A → Result B) → List A → Result (List B)
each f [] = ok []
each f (x ∷ xs) = do y ← f x; ys ← each f xs; ok (y ∷ ys)

pub each-All {ℓ κ μ} :
    {A : Type ℓ} {B : Type κ} (P : B → Type μ) (f : A → Result B) (xs : List A) (ys : List B)
    → ((x : A) (y : B) → f x ≡ ok y → P y)
    → each f xs ≡ ok ys
    → All P ys
unfolding each
each-All P f [] [] h e = tt
each-All P f [] (y ∷ ys) h e = absurd (cc)
each-All P f (x ∷ xs) ys h e =
    let (z, first, more) = bind-ok (f x) _ e in
    let (zs, others, end) = bind-ok (each f xs) _ more in
    let same : z ∷ zs ≡ ys = cc in subst (All P) same (h x z first, each-All P f xs zs h others)

abbrev pub numeric_types : List Text
numeric_types =
    codes "bigint"
    ∷ codes "int"
    ∷ codes "smallint"
    ∷ codes "tinyint"
    ∷ codes "decimal"
    ∷ codes "numeric"
    ∷ codes "money"
    ∷ codes "smallmoney"
    ∷ codes "float"
    ∷ codes "real"
    ∷ []

abbrev pub time_types : List Text
time_types =
    codes "date"
    ∷ codes "datetime"
    ∷ codes "datetime2"
    ∷ codes "smalldatetime"
    ∷ codes "datetimeoffset"
    ∷ []

abbrev pub string_types : List Text
string_types =
    codes "char"
    ∷ codes "varchar"
    ∷ codes "nchar"
    ∷ codes "nvarchar"
    ∷ codes "text"
    ∷ codes "ntext"
    ∷ []

abbrev pub type_time : Text
type_time = codes "time"

abbrev pub type_bit : Text
type_bit = codes "bit"

abbrev pub type_guid : Text
type_guid = codes "uniqueidentifier"

abbrev pub visible_types : List Text
visible_types = (numeric_types ++ time_types) ++ type_time ∷ type_bit ∷ type_guid ∷ []

unfoldable pub is_numeric : Text → Bool
unfolding has
is_numeric kind = has kind numeric_types

unfoldable pub is_time : Text → Bool
unfolding has
is_time kind = has kind time_types

unfoldable pub is_string : Text → Bool
unfolding has
is_string kind = has kind string_types

unfoldable pub has_visible_type : Text → Bool
unfolding has
has_visible_type kind = has kind visible_types
