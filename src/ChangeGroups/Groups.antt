-- ===== src/ChangeGroups/Groups.antt =====
-- changeGroups.ts: `groupChanges`, with the variables of its loops as a record.
use grafana_pi_app.Prelude.{
  ℕ, suc, ◌+◌, Bool, ◌&&◌, ◌||◌, List, [], ◌∷◌, Text, codes, text_eq, drop, filter, map,
  starts_with, ltb, leb, ◌==◌, add, if◌then◌else◌,
}
use grafana_pi_app.Paths.{trim}
use grafana_pi_app.ChangeGroups.{Input, Group, Change, replacements}

-- The lines of a hunk that start with a sign, without it.
unfoldable pub lines_of : Text → List Text → List Text
unfolding starts_with
lines_of sign lines = map (λ line. drop 1 line) (filter (λ line. starts_with line sign) lines)

unfoldable pub is_of : Text × Text → Group → Bool
unfolding text_eq
is_of pair group = text_eq group.before pair.0 && text_eq group.after pair.1

-- One turn of the loop on the replacements of a pair of lines.
unfoldable pub count_change : Text → Text → Text → Text × Text → List Group → List Group
unfolding is_of trim add
count_change path removed added pair [] =
    record {
      before = pair.0;
      after = pair.1;
      count = 1;
      paths = path ∷ [];
      example = record { path = path; before = trim removed; after = trim added };
    }
    ∷ []
count_change path removed added pair (group ∷ groups) =
    let rest = count_change path removed added pair groups in
    if is_of pair group
    then record group { count = suc group.count; paths = add path group.paths } ∷ groups
    else group ∷ rest

unfoldable pub count_changes : Text → Text → Text → List (Text × Text) → List Group → List Group
unfolding count_change
count_changes path removed added [] groups = groups
count_changes path removed added (pair ∷ pairs) groups =
    count_changes path removed added pairs (count_change path removed added pair groups)

-- `byKey` and `unpaired`.
pub record Grouping : Type 0 where
  pub groups : List Group
  pub unpaired : ℕ

-- What is left of one list once it is paired with the other counts as unpaired.
unfoldable pub pair_lines :
    (Text → Text → List (Text × Text)) → Text → List Text → List Text → Grouping → Grouping
unfolding count_changes
pair_lines replace path [] [] g = g
pair_lines replace path [] (line ∷ added) g =
    pair_lines replace path [] added (record g { unpaired = suc g.unpaired })
pair_lines replace path (line ∷ removed) [] g =
    pair_lines replace path removed [] (record g { unpaired = suc g.unpaired })
pair_lines replace path (old ∷ removed) (new ∷ added) g =
    pair_lines replace path removed added
      (record g { groups = count_changes path old new (replace old new) g.groups })

unfoldable pub group_hunks :
    (Text → Text → List (Text × Text)) → Text → List (List Text) → Grouping → Grouping
unfolding pair_lines lines_of
group_hunks replace path [] g = g
group_hunks replace path (hunk ∷ hunks) g =
    group_hunks replace path hunks
      (pair_lines replace path (lines_of (codes "-") hunk) (lines_of (codes "+") hunk) g)

unfoldable pub group_inputs :
    (Text → Text → List (Text × Text))
    → (Text → Text → Text → List (List Text))
    → List Input
    → Grouping
    → Grouping
unfolding group_hunks
group_inputs replace patch [] g = g
group_inputs replace patch (input ∷ inputs) g =
    group_inputs replace patch inputs
      (group_hunks replace input.path (patch input.path input.before input.after) g)

-- `left` is sorted behind `right`; `behind` tells whether `localeCompare` is positive.
unfoldable pub comes_after : (Text → Text → Bool) → Group → Group → Bool
comes_after behind left right =
    ltb left.count right.count || left.count == right.count && behind left.before right.before

-- `sort` is stable.
unfoldable pub insert_group : (Text → Text → Bool) → Group → List Group → List Group
unfolding comes_after
insert_group behind group [] = group ∷ []
insert_group behind group (first ∷ rest) =
    let later = insert_group behind group rest in
    if comes_after behind first group then group ∷ first ∷ rest else first ∷ later

unfoldable pub sorted : (Text → Text → Bool) → List Group → List Group → List Group
unfolding insert_group
sorted behind [] done = done
sorted behind (group ∷ groups) done = sorted behind groups (insert_group behind group done)

unfoldable pub ungrouped : List Group → ℕ
ungrouped [] = 0
ungrouped (group ∷ groups) =
    if leb 2 group.count then ungrouped groups else group.count + ungrouped groups

pub record Grouped : Type 0 where
  pub groups : List Group
  pub ungrouped_changes : ℕ

unfoldable pub group_changes :
    (List Text → List Text → List Change)
    → (Text → Text → Text → List (List Text))
    → (Text → Text → Bool)
    → List Input
    → Grouped
unfolding group_inputs sorted ungrouped
group_changes diff_arrays patch behind inputs =
    let g =
      group_inputs (replacements diff_arrays) patch inputs (record { groups = []; unpaired = 0 }) in
    record {
      groups = sorted behind (filter (λ group. leb 2 group.count) g.groups) [];
      ungrouped_changes = g.unpaired + ungrouped g.groups;
    }
