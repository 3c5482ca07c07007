-- ===== src/Paths/Tests.antt =====
-- paths.ts on concrete paths.
use grafana_pi_app.Prelude.{
  ◌≡◌, refl, ◌≤◌, arith, true, false, List, [], ◌∷◌, ◌++◌, Text, codes, ltb, text_eq, starts_with,
  ◌↔◌,
}
use grafana_pi_app.Paths.{
  ok, err, escapes_root, percent_encoded, normalize_workspace_path, check_raw, absolute, resolve,
  split, finish, trim, trim_start, is_space, has_encoded, strip_slashes, render, join,
  utf8_byte_length, push_segment, is_within, parent_path, base_name, join_path, ancestor_dirs,
  ancestors_from, truncate_utf8, truncate_from, last_slash, unit_width,
}
use grafana_pi_app.Paths.Segments.{IsSegment}
use grafana_pi_app.Paths.Normalize.{
  IsNormalized, normalize_workspace_path-IsNormalized, normalize_workspace_path_fixed,
}
use grafana_pi_app.Paths.Within.{parent_path-join_path, is_within_iff}
use grafana_pi_app.Paths.Ancestors.{ancestor_dirs-prefixes}
use grafana_pi_app.Paths.Bytes.{IsPrefix, truncate_utf8_bounds}

paths : Unit {0}
unfolding normalize_workspace_path check_raw absolute resolve split finish trim trim_start is_space
    has_encoded strip_slashes render join utf8_byte_length push_segment is_within parent_path
    base_name join_path ancestor_dirs ancestors_from truncate_utf8 truncate_from last_slash
    unit_width text_eq starts_with
paths = tt

abbrev same : Text → Text
same s = s

abbrev notes : Text
notes = codes "notes"

normalize_tests :
    (normalize_workspace_path same (codes " a/./b/../c ") (codes "/workspace/") false
      ≡ ok (codes "/workspace/a/c"))
    × (normalize_workspace_path same (codes "/..") [] false ≡ err escapes_root)
    × (normalize_workspace_path same (codes "/..") [] true ≡ ok (codes "/"))
    × (normalize_workspace_path same (codes "/a%2Fb") [] false ≡ err percent_encoded)
unfolding paths
normalize_tests = (refl, refl, refl, refl)

-- Normalising twice is not the same as normalising once.
normalize_twice_tests :
    (normalize_workspace_path same (codes "/a /") [] false ≡ ok (codes "/a "))
    × (normalize_workspace_path same (codes "/a ") [] false ≡ ok (codes "/a"))
unfolding paths
normalize_twice_tests = (refl, refl)

normalize_workspace_path-IsNormalized_example : IsNormalized (codes "/tmp/notes")
unfolding paths
normalize_workspace_path-IsNormalized_example =
    normalize_workspace_path-IsNormalized same (codes "x/../notes") (codes "/tmp")
      (codes "/tmp/notes") false refl

IsSegment-notes : IsSegment notes
unfolding paths
IsSegment-notes = record {
  not_empty = λ e. cc;
  not_dot = λ e. cc;
  not_dot_dot = λ e. cc;
  no_slash = refl;
  short = omega arith;
}

IsSegment-tmp : IsSegment (codes "tmp")
unfolding paths
IsSegment-tmp = record {
  not_empty = λ e. cc;
  not_dot = λ e. cc;
  not_dot_dot = λ e. cc;
  no_slash = refl;
  short = omega arith;
}

IsNormalized-notes : IsNormalized (codes "/tmp/notes")
unfolding paths
IsNormalized-notes = record {
  segments = codes "tmp" ∷ notes ∷ [];
  plain = (IsSegment-tmp, (IsSegment-notes, tt));
  rendered = refl;
  fits = omega arith;
}

normalize_workspace_path_fixed_example :
    normalize_workspace_path same (codes "/tmp/notes") (codes "/session") true
    ≡ ok (codes "/tmp/notes")
unfolding paths
normalize_workspace_path_fixed_example =
    normalize_workspace_path_fixed same (codes "/tmp/notes") (codes "/session") true
      IsNormalized-notes refl refl

parent_path-join_path_example :
    (join_path (render (codes "tmp" ∷ [])) notes ≡ render ((codes "tmp" ∷ []) ++ notes ∷ []))
    × (parent_path (join_path (render (codes "tmp" ∷ [])) notes) ≡ render (codes "tmp" ∷ []))
    × (base_name (join_path (render (codes "tmp" ∷ [])) notes) ≡ notes)
parent_path-join_path_example =
    parent_path-join_path (codes "tmp" ∷ []) notes (IsSegment-tmp, tt) IsSegment-notes

is_within_iff_example :
    (is_within (render (codes "tmp" ∷ notes ∷ [])) (render (codes "tmp" ∷ [])) ≡ true)
    ↔ ((c : List Text) × (codes "tmp" ∷ notes ∷ [] ≡ (codes "tmp" ∷ []) ++ c))
is_within_iff_example =
    is_within_iff (codes "tmp" ∷ notes ∷ []) (codes "tmp" ∷ [])
      (IsSegment-tmp, (IsSegment-notes, tt)) (IsSegment-tmp, tt)

ancestor_dirs-prefixes_example : ancestor_dirs (codes "/tmp/notes") ≡ codes "/tmp" ∷ []
unfolding paths
ancestor_dirs-prefixes_example =
    ancestor_dirs-prefixes (codes "tmp" ∷ []) notes (IsSegment-tmp, tt) IsSegment-notes

truncate_utf8_bounds_example :
    IsPrefix (truncate_utf8 notes 3).0 notes
    × (utf8_byte_length (truncate_utf8 notes 3).0 ≤ 3)
    × ((truncate_utf8 notes 3).1 ≡ ltb 3 (utf8_byte_length notes))
    × ((truncate_utf8 notes 3).1 ≡ false → (truncate_utf8 notes 3).0 ≡ notes)
truncate_utf8_bounds_example = truncate_utf8_bounds notes 3
