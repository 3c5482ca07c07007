-- ===== src/Sql/Literals.antt =====
-- sql.ts: literals of a column's type, times and time buckets. `utc` is
-- `new Date(text).toISOString()`, `none` for an invalid date, and `parse` is `Date.parse`, `none` for
-- NaN; both belong to the JavaScript engine.
use grafana_pi_app.Prelude.{
  leb, ℕ, ◌+◌, ◌*◌, Bool, true, false, not, ◌&&◌, ◌||◌, Option, none, some, [], ◌∷◌, ◌++◌, Text,
  codes, length, take, drop, reverse, includes, starts_with, text_eq, ltb, ◌==◌, if◌then◌else◌,
}
use grafana_pi_app.Sql.Types.{
  Column, PolicyError, bad_time, not_a_number, not_a_bit, not_a_time, not_a_guid, not_comparable,
  bad_interval, Result, ok, err, ◌>>=◌, is_numeric, is_time, is_string, type_time, type_bit,
  type_guid,
}
use grafana_pi_app.Sql.Quoting.{literal, identifier}
use grafana_pi_app.Sql.Patterns.{
  DateMatch, date_match, is_number, is_guid, is_time_of_day, is_time_value, interval_match, decimal,
  number_of, is_digit, exactly,
}

-- `text.slice(first, last)`
abbrev slice : ℕ → ℕ → Text → Text
slice first last s = drop first (take last s)

abbrev or_text : Text → Option Text → Text
or_text other none = other
or_text other (some s) = s

abbrev hour_of : Option (Text × Text) → Text
hour_of none = codes "00"
hour_of (some (hour, minute)) = hour

abbrev minute_of : Option (Text × Text) → Text
minute_of none = codes "00"
minute_of (some (hour, minute)) = minute

abbrev day_text : DateMatch → Text
day_text m = m.year ++ (b'-' ∷ (m.month ++ (b'-' ∷ m.day)))

-- `${year}-${month}-${day}T${hour ?? '00'}:${minute ?? '00'}:${second}`
unfoldable pub date_time_text : DateMatch → Text
date_time_text m =
    day_text m
    ++ (b'T'
        ∷ (hour_of m.hour_minute
            ++ (b':' ∷ (minute_of m.hour_minute ++ (b':' ∷ or_text (codes "00") m.second)))))

-- What `timeLiteral` takes from an ISO text in UTC.
unfoldable pub in_utc : DateMatch → Text → DateMatch
in_utc m iso = record {
  year = slice 0 4 iso;
  month = slice 5 7 iso;
  day = slice 8 10 iso;
  hour_minute = some (slice 11 13 iso, slice 14 16 iso);
  second = some (slice 17 19 iso);
  fraction = if text_eq m.fraction [] then [] else slice 19 23 iso;
  zone = [];
}

abbrev fraction_digits : Text → ℕ
fraction_digits kind =
    if text_eq kind (codes "smalldatetime")
    then 0
    else if text_eq kind (codes "datetime")
    then 3
    else 7

abbrev kept_fraction : Text → Text → Text
kept_fraction kind fraction =
    let kept = take (fraction_digits kind + 1) fraction in if ltb 1 (length kept) then kept else []

abbrev has_hour : Option (Text × Text) → Bool
has_hour none = false
has_hour (some time) = true

unfoldable pub write_time : Text → DateMatch → Text
unfolding date_time_text text_eq
write_time kind m =
    if not (has_hour m.hour_minute) && text_eq m.zone []
    then m.year ++ (m.month ++ m.day)
    else date_time_text m ++ (kept_fraction kind m.fraction ++ m.zone)

-- `{ '0': 0, '1': 1, false: 0, true: 1 }[value.toLowerCase()]`, by `String`. An object literal
-- has two more names in lower case, by its prototype; the text of a built-in function is V8's.
unfoldable pub bit_value : Text → Option Text
unfolding text_eq
bit_value key =
    if text_eq key (codes "0") || text_eq key (codes "false")
    then some (codes "0")
    else if text_eq key (codes "1") || text_eq key (codes "true")
    then some (codes "1")
    else if text_eq key (codes "constructor")
    then some (codes "function Object() { [native code] }")
    else if text_eq key (codes "__proto__")
    then some (codes "[object Object]")
    else none

abbrev pub or_error : PolicyError → Option Text → Result Text
or_error e none = err e
or_error e (some s) = ok s

abbrev pub quoted_or_error : PolicyError → Option Text → Result Text
quoted_or_error e none = err e
quoted_or_error e (some s) = ok (literal s)

abbrev pub time_of_day : Text → Option Text
time_of_day value = if is_time_of_day value then some value else none

module _ (utc : Text → Option Text) where
  abbrev is_calendar_time : Text → Option Text → Bool
  is_calendar_time plain none = false
  is_calendar_time plain (some iso) = text_eq (take 19 iso) plain

  abbrev zoned_text : DateMatch → Text
  zoned_text m = date_time_text m ++ (m.fraction ++ m.zone)

  unfoldable pub to_utc : Text → DateMatch → Option DateMatch
  unfolding in_utc date_time_text text_eq
  to_utc kind m =
      if text_eq m.zone [] || text_eq kind (codes "datetimeoffset")
      then some m
      else elim (utc (zoned_text m)) [ none ↦ none | some iso ↦ some (in_utc m iso) ]

  unfoldable pub time_literal : Text → Text → Option Text
  unfolding date_match to_utc write_time date_time_text text_eq
  time_literal value kind = elim (date_match false value) [
    | none ↦ none
    | some m ↦
        if is_calendar_time (date_time_text m) (utc (date_time_text m ++ b'Z' ∷ []))
        then (elim (to_utc kind m) [
          | none ↦ none
          | some utc_time ↦ some (write_time kind utc_time)
        ])
        else none
  ]

  module _ (lower : Text → Text) where
    unfoldable pub typed_literal : Column → Text → Result Text
    typed_literal column value =
        if is_numeric column.kind
        then (if is_number value then ok value else err (not_a_number column.name value))
        else if text_eq column.kind type_bit
        then or_error (not_a_bit column.name) (bit_value (lower value))
        else if is_time column.kind || text_eq column.kind type_time
        then quoted_or_error (not_a_time column.name value column.kind) (
            if text_eq column.kind type_time
            then time_of_day value
            else time_literal value column.kind)
        else if text_eq column.kind type_guid
        then (if is_guid value then ok (literal value) else err (not_a_guid column.name value))
        else if is_string column.kind
        then ok (literal value)
        else err (not_comparable column.name column.kind)

unfoldable pub unit_seconds : ℕ → ℕ
unit_seconds u =
    if u == b's' then 1 else if u == b'm' then 60 else if u == b'h' then 3600 else 86400

abbrev pub bucket_sql : Text → Text → Text
bucket_sql column seconds =
    codes "(DATEDIFF_BIG(second, '19700101', "
    ++ (column ++ (codes ") / " ++ (seconds ++ (codes " * " ++ (seconds ++ codes ")")))))

-- The seconds of an interval in text. Numbers are exact up to 2 ^ 53; `large` is how JavaScript rounds
-- and prints the product beyond.
unfoldable pub seconds_text : (Text → ℕ → Text) → Text → ℕ → Text
unfolding unit_seconds
seconds_text large count u =
    let seconds = number_of 0 count * unit_seconds u in
    if leb seconds 9007199254740992 then decimal seconds else large count u

unfoldable pub bucket_expression : (Text → ℕ → Text) → Text → Text → Result Text
unfolding seconds_text
bucket_expression large column interval = elim (interval_match interval) [
  | none ↦ err (bad_interval interval)
  | some (count, u) ↦
      identifier column >>= λ name. ok (bucket_sql name (seconds_text large count u))
]

unfoldable pub check_time : Text → Text → Result Text
unfolding is_time_value
check_time name value = if is_time_value value then ok value else err (bad_time name value)

-- `/[zZ]$|[+-]\d{2}:?\d{2}$/`, read from the end.
abbrev sign_ahead : Text → Bool
sign_ahead [] = false
sign_ahead (c ∷ s) = includes c (codes "+-")

abbrev without_colon : Text → Text
without_colon [] = []
without_colon (c ∷ s) = if c == b':' then s else c ∷ s

abbrev then_two_digits : Option (Text × Text) → Option (Text × Text)
then_two_digits none = none
then_two_digits (some (first, rest)) = exactly is_digit 2 (without_colon rest)

abbrev sign_follows : Option (Text × Text) → Bool
sign_follows none = false
sign_follows (some (first, rest)) = sign_ahead rest

abbrev z_ahead : Text → Bool
z_ahead [] = false
z_ahead (c ∷ s) = includes c (codes "zZ")

unfoldable pub has_zone : Text → Bool
unfolding exactly is_digit
has_zone s = z_ahead (reverse s) || sign_follows (then_two_digits (exactly is_digit 2 (reverse s)))

-- `value.replace(' ', 'T')`
unfoldable pub space_to_t : Text → Text
space_to_t [] = []
space_to_t (c ∷ s) = if c == b' ' then b'T' ∷ s else c ∷ space_to_t s

unfoldable pub all_digits : Text → Bool
unfolding is_digit
all_digits [] = true
all_digits (c ∷ s) = is_digit c && all_digits s

abbrev is_empty : Text → Bool
is_empty s = length s == 0

module _ (parse : Text → Option Text) where
  -- `grafanaTime` of domain/time.ts.
  unfoldable pub grafana_time : Text → Option Text
  unfolding has_zone space_to_t all_digits starts_with
  grafana_time value =
      let iso = space_to_t value in
      if starts_with value (codes "now")
      then some value
      else if all_digits value && length value == 10
      then some (value ++ codes "000")
      else if all_digits value && not (is_empty value)
      then some value
      else parse (if has_zone iso || not (includes b'T' iso) then iso else iso ++ b'Z' ∷ [])

  unfoldable pub request_time : Text → Result Text
  unfolding grafana_time
  request_time value = elim (grafana_time value) [
    | none ↦ err (bad_time [] value)
    | some time ↦ ok time
  ]
