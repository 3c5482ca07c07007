-- ===== src/Sql/Patterns.antt =====
-- sql.ts: its regular expressions, each as the scan that the expression makes. No two of their
-- alternatives begin alike, so that nothing is tried again.
pub mod Numbers
use grafana_pi_app.Prelude.{
  ℕ, zero, suc, ◌+◌, ◌-◌, ◌*◌, ◌/◌, ◌%◌, ◌≡◌, refl, Bool, true, false, ◌&&◌, ◌||◌, Option, none,
  some, List, [], ◌∷◌, ◌++◌, Text, codes, includes, starts_with, length, ltb, leb, ◌==◌,
  if◌then◌else◌,
}

infixl 5 ◌>>=◌
abbrev pub ◌>>=◌ {ℓ κ} : {A : Type ℓ} {B : Type κ} → Option A → (A → Option B) → Option B
some a >>= next = next a
none >>= next = none

pub bind-some {ℓ κ} :
    {A : Type ℓ} {B : Type κ} (m : Option A) (next : A → Option B) {b : B}
    → (m >>= next) ≡ some b
    → (a : A) × (m ≡ some a) × (next a ≡ some b)
bind-some none next h = absurd (cc)
bind-some (some a) next h = (a, refl, h)

-- `\d`
unfoldable pub is_digit : ℕ → Bool
is_digit c = leb b'0' c && leb c b'9'

unfoldable pub is_hex : ℕ → Bool
unfolding is_digit
is_hex c = is_digit c || (leb b'a' c && leb c b'f') || (leb b'A' c && leb c b'F')

-- Exactly so many units that pass the test, and the rest.
unfoldable pub exactly : (ℕ → Bool) → ℕ → Text → Option (Text × Text)
exactly test zero s = some ([], s)
exactly test (suc n) [] = none
exactly test (suc n) (c ∷ s) =
    if test c then (do (first, rest) ← exactly test n s; some (c ∷ first, rest)) else none

-- The units that pass the test, and the rest.
unfoldable pub span : (ℕ → Bool) → Text → Text × Text
span test [] = ([], [])
span test (c ∷ s) =
    let (first, rest) = span test s in if test c then (c ∷ first, rest) else ([], c ∷ s)

abbrev pub some_of : Text × Text → Option (Text × Text)
some_of ([], rest) = none
some_of (c ∷ s, rest) = some (c ∷ s, rest)

-- `\d+`
unfoldable pub digits : Text → Option (Text × Text)
unfolding span is_digit
digits s = some_of (span is_digit s)

-- One unit out of those given.
unfoldable pub one_of : Text → Text → Option Text
one_of units [] = none
one_of units (c ∷ s) = if includes c units then some s else none

abbrev pub at_end : Option Text → Bool
at_end none = false
at_end (some []) = true
at_end (some (c ∷ s)) = false

-- `(\.\d+)?`, as the text it matches and the rest.
unfoldable pub fraction_part : Text → Option (Text × Text)
unfolding digits
fraction_part [] = some ([], [])
fraction_part (c ∷ s) =
    if c == b'.' then (do (ds, rest) ← digits s; some (b'.' ∷ ds, rest)) else some ([], c ∷ s)

abbrev pub after_sign : Text → Text → Text
after_sign signs [] = []
after_sign signs (c ∷ s) = if includes c signs then s else c ∷ s

abbrev pub exponent : Text → Option Text
exponent [] = some []
exponent (c ∷ s) =
    if includes c (codes "eE")
    then (do (ds, rest) ← digits (after_sign (codes "-+") s); some rest)
    else some (c ∷ s)

-- NUMBER
unfoldable pub is_number : Text → Bool
unfolding digits fraction_part
is_number s = at_end (do
  (whole, after_whole) ← digits (after_sign (codes "-") s)
  (part, after_fraction) ← fraction_part after_whole
  exponent after_fraction)

abbrev hex_group : ℕ → Text → Option Text
hex_group n s = do (group, rest) ← exactly is_hex n s; some rest

abbrev dash_group : ℕ → Text → Option Text
dash_group n s = do rest ← one_of (codes "-") s; hex_group n rest

-- GUID
unfoldable pub is_guid : Text → Bool
unfolding is_hex exactly one_of
is_guid s = at_end (do
  a ← hex_group 8 s
  b ← dash_group 4 a
  c ← dash_group 4 b
  d ← dash_group 4 c
  dash_group 12 d)

-- INTERVAL: the number and its unit.
unfoldable pub interval_match : Text → Option (Text × ℕ)
unfolding span is_digit
interval_match [] = none
interval_match (c ∷ s) =
    if leb b'1' c && leb c b'9'
    then (elim (span is_digit s).1 [
      | [] ↦ none
      | u ∷ rest ↦ elim rest [
        | [] ↦ if includes u (codes "smhd") then some (c ∷ (span is_digit s).0, u) else none
        | _ ∷ _ ↦ none
      ]
    ])
    else none

-- The groups of DATE_LITERAL; a group that takes no part in the match is `none`.
pub record DateMatch : Type 0 where
  pub year : Text
  pub month : Text
  pub day : Text
  pub hour_minute : Option (Text × Text)
  pub second : Option Text
  pub fraction : Text
  pub zone : Text

abbrev after_dash : ℕ → Text → Option (Text × Text)
after_dash n s = do rest ← one_of (codes "-") s; exactly is_digit n rest

abbrev after_colon : Text → Option (Text × Text)
after_colon s = do rest ← one_of (codes ":") s; exactly is_digit 2 rest

-- `(:\d{2}(\.\d+)?)?`
unfoldable pub seconds_part : Text → Option (Option Text × Text × Text)
unfolding one_of exactly is_digit fraction_part
seconds_part [] = some (none, [], [])
seconds_part (c ∷ s) =
    if c == b':'
    then (do
      (second, rest) ← exactly is_digit 2 s
      (fraction, after) ← fraction_part rest
      some (some second, fraction, after))
    else some (none, [], c ∷ s)

abbrev no_time : Option (Text × Text)
no_time = none

-- `([T ]\d{2}:\d{2}…)?`
unfoldable pub time_part : Text → Option (Option (Text × Text) × Option Text × Text × Text)
unfolding seconds_part one_of exactly is_digit
time_part [] = some (no_time, none, [], [])
time_part (c ∷ s) =
    if includes c (codes "T ")
    then (do
      (hour, after_hour) ← exactly is_digit 2 s
      (minute, after_minute) ← after_colon after_hour
      (second, fraction, rest) ← seconds_part after_minute
      some (some (hour, minute), second, fraction, rest))
    else some (no_time, none, [], c ∷ s)

abbrev offset_tail : Bool → Text → Option (Text × Text)
offset_tail colon_optional s =
    if starts_with s (codes ":")
    then (do (minutes, rest) ← after_colon s; some (b':' ∷ minutes, rest))
    else if colon_optional
    then exactly is_digit 2 s
    else none

-- `(Z|[+-]\d{2}:\d{2})?`, with the colon optional or not.
unfoldable pub zone_part : Bool → Text → Option (Text × Text)
unfolding one_of exactly is_digit starts_with
zone_part colon_optional [] = some ([], [])
zone_part colon_optional (c ∷ s) =
    if c == b'Z'
    then some (b'Z' ∷ [], s)
    else if includes c (codes "+-")
    then (do
      (hours, after_hours) ← exactly is_digit 2 s
      (minutes, rest) ← offset_tail colon_optional after_hours
      some (c ∷ (hours ++ minutes), rest))
    else some ([], c ∷ s)

abbrev only_at_end {ℓ} : {A : Type ℓ} → A → Text → Option A
only_at_end a [] = some a
only_at_end a (c ∷ s) = none

-- DATE_LITERAL, or the same with the colon of the zone optional.
unfoldable pub date_match : Bool → Text → Option DateMatch
unfolding time_part zone_part exactly is_digit one_of
date_match colon_optional s = do
  (year, after_year) ← exactly is_digit 4 s
  (month, after_month) ← after_dash 2 after_year
  (day, after_day) ← after_dash 2 after_month
  (hour_minute, second, fraction, after_time) ← time_part after_day
  (zone, rest) ← zone_part colon_optional after_time
  only_at_end
      (record {
        year = year;
        month = month;
        day = day;
        hour_minute = hour_minute;
        second = second;
        fraction = fraction;
        zone = zone;
      })
      rest

abbrev is_some {ℓ} : {A : Type ℓ} → Option A → Bool
is_some none = false
is_some (some a) = true

-- `^\d{2}:\d{2}(:\d{2}(\.\d+)?)?$`
unfoldable pub is_time_of_day : Text → Bool
unfolding seconds_part exactly is_digit one_of
is_time_of_day s = is_some (do
  (hour, after_hour) ← exactly is_digit 2 s
  (minute, after_minute) ← after_colon after_hour
  (second, fraction, rest) ← seconds_part after_minute
  only_at_end fraction rest)

-- Where the scan of the date math after `now` stands.
pub data MathState : Type 0 where
  between sign_read digits_read slash_read finished : MathState

abbrev unit_state : MathState → ℕ → Option MathState
unit_state next c = if includes c (codes "smhdwMy") then some next else none

unfoldable pub math_step : MathState → ℕ → Option MathState
unfolding is_digit
math_step between c =
    if includes c (codes "+-") then some sign_read else if c == b'/' then some slash_read else none
math_step sign_read c = if is_digit c then some digits_read else none
math_step digits_read c = if is_digit c then some digits_read else unit_state between c
math_step slash_read c = unit_state finished c
math_step finished c = none

unfoldable pub math_scan : Option MathState → Text → Option MathState
unfolding math_step
math_scan none s = none
math_scan (some state) [] = some state
math_scan (some state) (c ∷ s) = math_scan (math_step state c) s

abbrev is_final : Option MathState → Bool
is_final (some between) = true
is_final (some finished) = true
is_final other = false

abbrev strip_now : Text → Option Text
strip_now s = do a ← one_of (codes "n") s; b ← one_of (codes "o") a; one_of (codes "w") b

abbrev is_date_math : Option Text → Bool
is_date_math none = false
is_date_math (some rest) = is_final (math_scan (some between) rest)

abbrev is_epoch : Text × Text → Bool
is_epoch (first, []) = leb 10 (length first) && leb (length first) 13
is_epoch (first, c ∷ s) = false

-- TIME_VALUE
unfoldable pub is_time_value : Text → Bool
unfolding date_match math_scan span is_digit one_of
is_time_value s =
    is_date_math (strip_now s) || is_some (date_match true s) || is_epoch (span is_digit s)

-- A number in a template text. The fuel is one more than the number, which has no more digits.
unfoldable pub decimal_from : ℕ → ℕ → Text → Text
decimal_from zero n after = after
decimal_from (suc fuel) n after =
    let more = decimal_from fuel (n / 10) ((b'0' + n % 10) ∷ after) in
    if ltb n 10 then (b'0' + n) ∷ after else more

unfoldable pub decimal : ℕ → Text
unfolding decimal_from
decimal n = decimal_from (suc n) n []

-- `Number` of a text of digits.
unfoldable pub number_of : ℕ → Text → ℕ
number_of n [] = n
number_of n (c ∷ s) = number_of (n * 10 + (c - b'0')) s
