-- ===== src/ChangeGroups/Tests.antt =====
-- changeGroups.ts on a change of two intervals.
use grafana_pi_app.Prelude.{
  ◌+◌, ◌≡◌, refl, Bool, true, false, List, [], ◌∷◌, ◌++◌, Text, codes, text_eq, All, has, add,
  starts_with,
}
use grafana_pi_app.Paths.{trim, trim_start, is_space}
use grafana_pi_app.ChangeGroups.{
  Input, Change, replacements, replacement, tokens, clip, flush, add_change, add_changes,
  is_word_char, scan, goes_on, run_at, matches, in_word, is_other, agreement, word_start,
  common_end, widened_start, widened_end, join,
}
use grafana_pi_app.ChangeGroups.Groups.{
  lines_of, is_of, count_change, count_changes, pair_lines, group_hunks, group_inputs, comes_after,
  insert_group, sorted, ungrouped, group_changes,
}
use grafana_pi_app.ChangeGroups.Counts.{total, changes_of_inputs, IsRepeated, total-group_changes}
use grafana_pi_app.ChangeGroups.Edits.{IsEdit, replacement-IsEdit}
use grafana_pi_app.ChangeGroups.Tokens.{IsToken, join-tokens}

groups : Unit {0}
unfolding text_eq has add starts_with trim trim_start is_space replacements replacement tokens clip
    flush add_change add_changes is_word_char scan goes_on run_at matches in_word is_other agreement
    word_start common_end widened_start widened_end lines_of is_of count_change count_changes
    pair_lines group_hunks group_inputs comes_after insert_group sorted ungrouped group_changes
groups = tt

-- The word of a time is replaced as a whole.
replacement_test :
    replacement (codes "rate(x[5m])") (codes "rate(x[1m])") ≡ (codes "5m", codes "1m")
unfolding groups
replacement_test = refl

tokens_test : tokens (codes "a1  +b") ≡ codes "a1" ∷ codes "  " ∷ codes "+" ∷ codes "b" ∷ []
unfolding groups
tokens_test = refl

-- A difference that takes out all of one list and puts in all of the other.
abbrev diff_whole : List Text → List Text → List Change
diff_whole old new =
    record { value = old; removed = true; added = false }
    ∷ record { value = new; removed = false; added = true }
    ∷ []

abbrev patch_whole : Text → Text → Text → List (List Text)
patch_whole path before after =
    ((codes "-" ++ before) ∷ (codes "+" ++ after) ∷ (codes "+new") ∷ []) ∷ []

abbrev never : Text → Text → Bool
never s t = false

abbrev changed : Text → Input
changed path = record { path = path; before = codes "5m"; after = codes "1m" }

abbrev inputs : List Input
inputs = changed (codes "/a") ∷ changed (codes "/b") ∷ []

-- One group of two dashboards, and the two lines that have no partner.
group_changes_test : group_changes diff_whole patch_whole never inputs ≡ record {
  groups =
      record {
        before = codes "5m";
        after = codes "1m";
        count = 2;
        paths = codes "/a" ∷ codes "/b" ∷ [];
        example = record { path = codes "/a"; before = codes "5m"; after = codes "1m" };
      }
      ∷ [];
  ungrouped_changes = 2;
}
unfolding groups
group_changes_test = refl

total-group_changes_example :
    (total (group_changes diff_whole patch_whole never inputs).groups
        + (group_changes diff_whole patch_whole never inputs).ungrouped_changes
      ≡ changes_of_inputs (replacements diff_whole) patch_whole inputs)
    × All IsRepeated (group_changes diff_whole patch_whole never inputs).groups
total-group_changes_example = total-group_changes diff_whole patch_whole never inputs

join-tokens_example :
    (join (tokens (codes "a1  +b")) ≡ codes "a1  +b") × All IsToken (tokens (codes "a1  +b"))
join-tokens_example = join-tokens (codes "a1  +b")

replacement-IsEdit_example :
    IsEdit (codes "rate(x[5m])") (codes "rate(x[1m])") (codes "5m", codes "1m")
unfolding groups
replacement-IsEdit_example = replacement-IsEdit (codes "rate(x[5m])") (codes "rate(x[1m])")
