-- ===== src/ChangeGroups.antt =====
-- src/pages/Chat/workspace/changeGroups.ts: the textual replacements that a change set makes, grouped
-- for the reviewer. The `diff` package and `localeCompare` are parameters.
pub mod Groups
pub mod Counts
pub mod Tokens
pub mod Slices
pub mod Edits
pub mod Tests
use grafana_pi_app.Prelude.{
  ℕ, zero, suc, ◌+◌, ◌-◌, ◌*◌, Bool, true, false, not, ◌&&◌, ◌||◌, List, [], ◌∷◌, ◌++◌, reverse,
  Text, text_eq, length, take, drop, filter, ltb, leb, ◌==◌, has, add, map, if◌then◌else◌,
}
use grafana_pi_app.Paths.{is_space, trim}

pub record Input : Type 0 where
  pub path : Text
  pub before : Text
  pub after : Text

pub record Example : Type 0 where
  pub path : Text
  pub before : Text
  pub after : Text

-- `WorkspaceChangeGroup`
pub record Group : Type 0 where
  pub before : Text
  pub after : Text
  pub count : ℕ
  pub paths : List Text
  pub example : Example

-- What `diffArrays` returns a list of.
pub record Change : Type 0 where
  pub value : List Text
  pub removed : Bool
  pub added : Bool

unfoldable pub is_word_char : ℕ → Bool
is_word_char c =
    leb b'A' c && leb c b'Z'
    || leb b'a' c && leb c b'z'
    || leb b'0' c && leb c b'9'
    || c == b'_'
    || c == b'$'

abbrev pub join : List Text → Text
join [] = []
join (t ∷ ts) = t ++ join ts

unfoldable pub clip : Text → Text
unfolding trim
clip text =
    let trimmed = trim text in
    if ltb 200 (length trimmed) then take 199 trimmed ++ (0x2026 ∷ []) else trimmed

-- How far two texts agree from their starts.
unfoldable pub agreement : Text → Text → ℕ
agreement (x ∷ s) (y ∷ t) = if x == y then suc (agreement s t) else 0
agreement _ _ = 0

-- How many word characters a text starts with.
unfoldable pub word_start : Text → ℕ
unfolding is_word_char
word_start [] = 0
word_start (c ∷ s) = if is_word_char c then suc (word_start s) else 0

-- `start` and `end` of `replacement` before they are widened.
unfoldable pub common_end : Text → Text → ℕ → ℕ
unfolding agreement
common_end before after start = agreement (reverse (drop start before)) (reverse (drop start after))

unfoldable pub widened_start : Text → ℕ → ℕ
unfolding word_start
widened_start before start = start - word_start (reverse (take start before))

unfoldable pub widened_end : Text → ℕ → ℕ
unfolding word_start
widened_end before last = last - word_start (drop (length before - last) before)

-- `text.slice(start, text.length - end)`
abbrev pub middle : ℕ → ℕ → Text → Text
middle start last text = take (length text - last - start) (drop start text)

unfoldable pub replacement : Text → Text → Text × Text
unfolding agreement common_end widened_start widened_end clip
replacement before after =
    let start = agreement before after in
    let first = widened_start before start in
    let last = widened_end before (common_end before after start) in
    (clip (middle first last before), clip (middle first last after))

-- The classes of the alternatives of `TOKEN`: `[A-Za-z0-9_$]`, `\s` and `[^A-Za-z0-9_$\s]`.
unfoldable pub in_word : ℕ → Bool
in_word c =
    leb b'A' c && leb c b'Z'
    || leb b'a' c && leb c b'z'
    || leb b'0' c && leb c b'9'
    || c == b'_'
    || c == b'$'

unfoldable pub is_other : ℕ → Bool
unfolding is_space
is_other c =
    not (leb b'A' c && leb c b'Z')
    && (not (leb b'a' c && leb c b'z')
        && (not (leb b'0' c && leb c b'9')
            && (not (c == b'_') && (not (c == b'$') && not (is_space c)))))

-- The alternative that a match goes on with; a match of the third one is a single unit.
pub data Alternative : Type 0 where
  word_run blank_run no_run : Alternative

unfoldable pub goes_on : Alternative → ℕ → Bool
unfolding in_word is_space
goes_on word_run c = in_word c
goes_on blank_run c = is_space c
goes_on no_run c = false

-- The alternative that matches at a unit.
unfoldable pub run_at : ℕ → Alternative
unfolding in_word is_space
run_at c = if in_word c then word_run else if is_space c then blank_run else no_run

unfoldable pub matches : ℕ → Bool
unfolding in_word is_space is_other
matches c = in_word c || is_space c || is_other c

-- The rest of the match at hand, and the matches behind it. A unit that no alternative matches is
-- skipped.
unfoldable pub scan : Alternative → Text → Text × List Text
unfolding goes_on run_at matches
scan run [] = ([], [])
scan run (c ∷ s) =
    let rest = scan (if goes_on run c then run else run_at c) s in
    if goes_on run c
    then (c ∷ rest.0, rest.1)
    else if matches c
    then ([], (c ∷ rest.0) ∷ rest.1)
    else ([], rest.1)

-- `text.match(TOKEN) ?? []`
unfoldable pub tokens : Text → List Text
unfolding scan
tokens s = (scan no_run s).1

abbrev every : (ℕ → Bool) → Text → Bool
every p [] = true
every p (c ∷ s) = p c && every p s

-- `/^\s+$/`
abbrev is_blank : Text → Bool
is_blank [] = false
is_blank (c ∷ s) = every is_space (c ∷ s)

abbrev all_blank : List Text → Bool
all_blank [] = true
all_blank (t ∷ ts) = is_blank t && all_blank ts

abbrev is_empty : List Text → Bool
is_empty [] = true
is_empty (t ∷ ts) = false

-- The variables of `replacements`.
pub record Spans : Type 0 where
  pub spans : List (Text × Text)
  pub removed : List Text
  pub added : List Text
  pub unchanged : ℕ

unfoldable pub flush : Spans → Spans
unfolding clip
flush v = record {
  spans =
      if is_empty v.removed && is_empty v.added
      then v.spans
      else v.spans ++ ((clip (join v.removed), clip (join v.added)) ∷ []);
  removed = [];
  added = [];
  unchanged = v.unchanged;
}

unfoldable pub add_change : Change → Spans → Spans
unfolding flush is_space
add_change change v =
    if change.removed
    then record v { removed = v.removed ++ change.value }
    else if change.added
    then record v { added = v.added ++ change.value }
    else if all_blank change.value && not (is_empty v.removed && is_empty v.added)
    then record v { removed = v.removed ++ change.value; added = v.added ++ change.value }
    else flush (record v { unchanged = v.unchanged + length (join change.value) })

unfoldable pub add_changes : List Change → Spans → Spans
unfolding add_change
add_changes [] v = v
add_changes (c ∷ cs) v = add_changes cs (add_change c v)

abbrev min : ℕ → ℕ → ℕ
min a b = if ltb a b then a else b

module _ (diff_arrays : List Text → List Text → List Change) where
  unfoldable pub replacements : Text → Text → List (Text × Text)
  unfolding tokens add_changes flush replacement text_eq
  replacements before after =
      let v = flush (
        add_changes (diff_arrays (tokens before) (tokens after))
          (record { spans = []; removed = []; added = []; unchanged = 0 })) in
      if ltb 3 (length v.spans) && ltb (v.unchanged * 2) (min (length before) (length after))
      then replacement before after ∷ []
      else filter (λ (s : Text × Text). not (text_eq s.0 s.1)) v.spans
