-- ===== src/ChangeGroups/Counts.antt =====
-- changeGroups.ts: no change is lost or counted twice, and what is shown as a group occurs twice.
use grafana_pi_app.Prelude.{
  ℕ, suc, ◌+◌, ◌≤◌, ◌≡◌, refl, arith, Bool, List, [], ◌∷◌, Text, codes, length, All, filter, leb,
  leb→le, Bool-cases, inl, inr,
}
use grafana_pi_app.ChangeGroups.{Input, Group, Change, replacements}
use grafana_pi_app.ChangeGroups.Groups.{
  Grouping, lines_of, is_of, count_change, count_changes, pair_lines, group_hunks, group_inputs,
  comes_after, insert_group, sorted, ungrouped, group_changes,
}

abbrev pub total : List Group → ℕ
total [] = 0
total (group ∷ groups) = group.count + total groups

-- The changes of two lists of lines: the replacements of each pair, and one for a line without
-- a partner.
abbrev pub changes_of_lines : (Text → Text → List (Text × Text)) → List Text → List Text → ℕ
changes_of_lines replace [] added = length added
changes_of_lines replace (line ∷ removed) [] = suc (length removed)
changes_of_lines replace (old ∷ removed) (new ∷ added) =
    length (replace old new) + changes_of_lines replace removed added

abbrev pub changes_of_hunks : (Text → Text → List (Text × Text)) → List (List Text) → ℕ
changes_of_hunks replace [] = 0
changes_of_hunks replace (hunk ∷ hunks) =
    changes_of_lines replace (lines_of (codes "-") hunk) (lines_of (codes "+") hunk)
    + changes_of_hunks replace hunks

abbrev pub changes_of_inputs :
    (Text → Text → List (Text × Text)) → (Text → Text → Text → List (List Text)) → List Input → ℕ
changes_of_inputs replace patch [] = 0
changes_of_inputs replace patch (input ∷ inputs) =
    changes_of_hunks replace (patch input.path input.before input.after)
    + changes_of_inputs replace patch inputs

abbrev held : Grouping → ℕ
held g = total g.groups + g.unpaired

total-count_change :
    (path old new : Text) (pair : Text × Text) (groups : List Group)
    → total (count_change path old new pair groups) ≡ suc (total groups)
unfolding count_change
total-count_change path old new pair [] = refl
total-count_change path old new pair (group ∷ groups) = elim (Bool-cases (is_of pair group)) [
  | inl h ↦ ground (arith, h)
  | inr h ↦ ground (arith, h, total-count_change path old new pair groups)
]

total-count_changes :
    (path old new : Text) (pairs : List (Text × Text)) (groups : List Group)
    → total (count_changes path old new pairs groups) ≡ length pairs + total groups
unfolding count_changes
total-count_changes path old new [] groups = omega arith
total-count_changes path old new (pair ∷ pairs) groups = omega (
  arith,
  total-count_changes path old new pairs (count_change path old new pair groups),
  total-count_change path old new pair groups,
)

module _ (replace : Text → Text → List (Text × Text)) where
  held-pair_lines :
      (path : Text) (removed added : List Text) (g : Grouping)
      → held (pair_lines replace path removed added g)
        ≡ changes_of_lines replace removed added + held g
  unfolding pair_lines
  held-pair_lines path [] [] g = omega arith
  held-pair_lines path [] (line ∷ added) g =
      omega (arith, held-pair_lines path [] added (record g { unpaired = suc g.unpaired }))
  held-pair_lines path (line ∷ []) [] g = omega arith
  held-pair_lines path (line ∷ other ∷ removed) [] g =
      omega
        (arith, held-pair_lines path (other ∷ removed) [] (record g { unpaired = suc g.unpaired }))
  held-pair_lines path (old ∷ removed) (new ∷ added) g = omega (
    arith,
    held-pair_lines path removed added
        (record g { groups = count_changes path old new (replace old new) g.groups }),
    total-count_changes path old new (replace old new) g.groups,
  )

  held-group_hunks :
      (path : Text) (hunks : List (List Text)) (g : Grouping)
      → held (group_hunks replace path hunks g) ≡ changes_of_hunks replace hunks + held g
  unfolding group_hunks
  held-group_hunks path [] g = omega arith
  held-group_hunks path (hunk ∷ hunks) g = omega (
    arith,
    held-group_hunks path hunks
        (pair_lines replace path (lines_of (codes "-") hunk) (lines_of (codes "+") hunk) g),
    held-pair_lines path (lines_of (codes "-") hunk) (lines_of (codes "+") hunk) g,
  )

  held-group_inputs :
      (patch : Text → Text → Text → List (List Text)) (inputs : List Input) (g : Grouping)
      → held (group_inputs replace patch inputs g) ≡ changes_of_inputs replace patch inputs + held g
  unfolding group_inputs
  held-group_inputs patch [] g = omega arith
  held-group_inputs patch (input ∷ inputs) g =
      let hunks = patch input.path input.before input.after in
      omega (
        arith,
        held-group_inputs patch inputs (group_hunks replace input.path hunks g),
        held-group_hunks input.path hunks g,
      )

total-insert_group :
    (behind : Text → Text → Bool) (group : Group) (groups : List Group)
    → total (insert_group behind group groups) ≡ group.count + total groups
unfolding insert_group
total-insert_group behind group [] = refl
total-insert_group behind group (first ∷ rest) =
    elim (Bool-cases (comes_after behind first group)) [
      | inl h ↦ ground (arith, h)
      | inr h ↦ ground (arith, h, total-insert_group behind group rest)
    ]

total-sorted :
    (behind : Text → Text → Bool) (groups done : List Group)
    → total (sorted behind groups done) ≡ total groups + total done
unfolding sorted
total-sorted behind [] done = omega arith
total-sorted behind (group ∷ groups) done = omega (
  arith,
  total-sorted behind groups (insert_group behind group done),
  total-insert_group behind group done,
)

-- The groups that are shown, and the changes that are not, make up all.
total-filter :
    (groups : List Group)
    → total (filter (λ group. leb 2 group.count) groups) + ungrouped groups ≡ total groups
unfolding ungrouped
total-filter [] = refl
total-filter (group ∷ groups) = elim (Bool-cases (leb 2 group.count)) [
  | inl h ↦ ground (arith, h, total-filter groups)
  | inr h ↦ ground (arith, h, total-filter groups)
]

abbrev pub IsRepeated : Group → Type 0
IsRepeated group = 2 ≤ group.count

filter-AllRepeated :
    (groups : List Group) → All IsRepeated (filter (λ group. leb 2 group.count) groups)
filter-AllRepeated [] = tt
filter-AllRepeated (group ∷ groups) = elim (Bool-cases (leb 2 group.count)) [
  | inl h ↦ rw h (leb→le 2 group.count h, filter-AllRepeated groups)
  | inr h ↦ rw h (filter-AllRepeated groups)
]

insert_group-AllRepeated :
    (behind : Text → Text → Bool) (group : Group) (groups : List Group)
    → IsRepeated group
    → All IsRepeated groups
    → All IsRepeated (insert_group behind group groups)
unfolding insert_group
insert_group-AllRepeated behind group [] r h = (r, tt)
insert_group-AllRepeated behind group (first ∷ rest) r (f, h) =
    elim (Bool-cases (comes_after behind first group)) [
      | inl e ↦ rw e (r, (f, h))
      | inr e ↦ rw e (f, insert_group-AllRepeated behind group rest r h)
    ]

sorted-AllRepeated :
    (behind : Text → Text → Bool) (groups done : List Group)
    → All IsRepeated groups
    → All IsRepeated done
    → All IsRepeated (sorted behind groups done)
unfolding sorted
sorted-AllRepeated behind [] done h k = k
sorted-AllRepeated behind (group ∷ groups) done (r, h) k =
    sorted-AllRepeated behind groups (insert_group behind group done) h
      (insert_group-AllRepeated behind group done r k)

-- Every change is counted exactly once: the counts of the groups and the number of ungrouped changes
-- add up to the replacements of all pairs of lines and the lines without a partner. A group has at
-- least two changes.
pub total-group_changes :
    (diff_arrays : List Text → List Text → List Change)
    (patch : Text → Text → Text → List (List Text)) (behind : Text → Text → Bool)
    (inputs : List Input)
    → let grouped = group_changes diff_arrays patch behind inputs in
      (total grouped.groups + grouped.ungrouped_changes
        ≡ changes_of_inputs (replacements diff_arrays) patch inputs)
      × All IsRepeated grouped.groups
unfolding group_changes
total-group_changes diff_arrays patch behind inputs =
    let start : Grouping = record { groups = []; unpaired = 0 } in
    let g = group_inputs (replacements diff_arrays) patch inputs start in
    let shown = filter (λ group. leb 2 group.count) g.groups in
    (
      omega (
        arith,
        held-group_inputs (replacements diff_arrays) patch inputs start,
        total-sorted behind shown [],
        total-filter g.groups,
      ),
      sorted-AllRepeated behind shown [] (filter-AllRepeated g.groups) tt,
    )
