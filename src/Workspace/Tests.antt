-- ===== src/Workspace/Tests.antt =====
-- workspace/workspace.ts on concrete sessions.
use grafana_pi_app.Prelude.{
  ◌≡◌, refl, ◌≤◌, arith, false, List, [], Option, ◌∷◌, none, some, Text, codes, lookup, insert,
  remove, has, add, delete, text_eq, starts_with, starts_with_sound, drop, length,
  drop-length_append, if◌then◌else◌, ◌==◌, ◌++◌, ap, subst, ◌∙◌, Bool-cases, inl, inr,
}
use grafana_pi_app.Paths.{
  is_within, ancestor_dirs, ancestors_from, parent_path, last_slash, utf8_byte_length, split,
}
use grafana_pi_app.Workspace.Kinds.{
  resource_document_path, dashboard, resource_key, parse_resource_key, is_uid,
  parse_resource_key-resource_key,
}
use grafana_pi_app.Workspace.Types.{
  Entry, Overlay, Fetched, Meta, found, err, enotdir, equota, workspace_error, FileChange,
}
use grafana_pi_app.Workspace.Store.{
  is_kept, Workspace, persisted_bytes, is_persisted_scratch, classify, resource_kinds,
  has_resource_kind, is_virtual_dir, mount_roots, apply_files, apply_resources, apply_resource,
  applied_entry, apply_committed, add_dirs, remove_dirs, indexed_uids,
}
use grafana_pi_app.Workspace.Transaction.{
  Session, begin, continue, assert_open, scratch_content, all_scratch_files, all_scratch_dirs,
  scratch_dir_exists, has_changes, effective, staged_bytes, over_budget, merge_change, merge_from,
  committed_workspace, apply_staged, merge_changes, commit, checkpoint,
}
use grafana_pi_app.Workspace.Writes.{write_scratch, write_file}
use grafana_pi_app.Workspace.Directories.{entry_type, mkdir, remove_scratch, rm}
use grafana_pi_app.Workspace.Loading.{HasWorkingCopy}
use grafana_pi_app.Workspace.Loading.Flights.{
  begins, answers, run, Flights, Event, begin_load, finish_load, run-HasWorkingCopy,
}
use grafana_pi_app.Workspace.Persistence.{
  patched, serialize_overlay, restore_resources, serialize_resources,
}
use grafana_pi_app.Workspace.Persistence.RoundTrip.{IsStorable, IsUnix, lookup-restore_resources}
use grafana_pi_app.Workspace.Commit.Quota.{apply_staged-within_budget}
use grafana_pi_app.Workspace.Commit.Outcome.{IsStaged, Outcome, commit-Outcome}
use grafana_pi_app.Workspace.Invariant.Sequences.{
  Operation, write, make_dir, remove_path, save, perform_all, commit_after-perform_all,
}

workspaces : Unit {0}
unfolding lookup insert remove has add delete text_eq starts_with is_within ancestor_dirs
    ancestors_from parent_path last_slash utf8_byte_length split resource_key parse_resource_key
    is_uid persisted_bytes is_persisted_scratch classify resource_kinds has_resource_kind
    is_virtual_dir mount_roots apply_files apply_resources apply_resource applied_entry
    apply_committed add_dirs remove_dirs indexed_uids continue assert_open scratch_content
    all_scratch_files all_scratch_dirs scratch_dir_exists has_changes effective staged_bytes
    over_budget merge_change merge_from committed_workspace apply_staged merge_changes commit
    checkpoint write_scratch write_file entry_type mkdir remove_scratch rm
workspaces = tt

abbrev no_revision : Text → Text
no_revision s = []

abbrev unsorted : List FileChange → List FileChange
unsorted changes = changes

abbrev start : Workspace
start = record {
  max_workspace_bytes = 8;
  files = (codes "/tmp/a", record { content = codes "old"; mtime = 0 }) ∷ [];
  dirs = [];
  resources = [];
  mounts = [];
  hydrator = none;
  index = λ kind. none;
  revision = 0;
  path_revision = 0;
}

abbrev fresh : Session
fresh = record { workspace = start; transaction = begin }

abbrev after : List Operation → Session
after ops = perform_all no_revision unsorted ops fresh

write_tests :
    (scratch_content (after (write (codes "/tmp/b") (codes "hi") ∷ [])) (codes "/tmp/b")
      ≡ some (codes "hi"))
    × (scratch_content (after (remove_path (codes "/tmp/a") false false ∷ [])) (codes "/tmp/a")
        ≡ none)
    × ((write_file (codes "/tmp/a/b") (codes "x") fresh).0 ≡ err (workspace_error enotdir))
    × ((commit no_revision unsorted 1
          (after (write (codes "/session/b") (codes "123456789") ∷ []))).0
        ≡ err (workspace_error equota))
unfolding workspaces
write_tests = (refl, refl, refl, refl)

abbrev edits : List Operation
edits =
    make_dir (codes "/tmp/d") false
    ∷ write (codes "/tmp/d/b") (codes "hi")
    ∷ save 1
    ∷ remove_path (codes "/tmp/a") false false
    ∷ []

commit_after-perform_all_example :
    Outcome no_revision unsorted
      (perform_all no_revision unsorted edits fresh)
      (commit no_revision unsorted 2 (perform_all no_revision unsorted edits fresh))
unfolding lookup
commit_after-perform_all_example =
    commit_after-perform_all no_revision unsorted edits 2 start (refl, tt)

abbrev staged : Session
staged = record {
  workspace = start;
  transaction = record begin {
    files = (codes "/session/b", some (codes "hi")) ∷ [];
    dirs_added = codes "/tmp/d" ∷ [];
  };
}

IsStaged-staged : IsStaged staged.transaction
unfolding workspaces
IsStaged-staged = record {
  files = (refl, tt);
  resources = tt;
  parses = tt;
  disjoint = λ d. ground arith;
}

commit-Outcome_example : Outcome no_revision unsorted staged (commit no_revision unsorted 2 staged)
commit-Outcome_example = commit-Outcome no_revision unsorted 2 staged IsStaged-staged

apply_staged-within_budget_example :
    persisted_bytes (apply_staged no_revision unsorted 2 staged).1.workspace.files ≤ 8
unfolding workspaces
apply_staged-within_budget_example =
    apply_staged-within_budget no_revision unsorted 2 staged _ _ (refl, tt) (refl, tt) refl

parse_resource_key-resource_key_example :
    parse_resource_key (resource_key dashboard (codes "a:b")) ≡ some (dashboard, codes "a:b")
parse_resource_key-resource_key_example = parse_resource_key-resource_key dashboard (codes "a:b")

-- A patch that holds what is added at the end, or the whole content.
abbrev suffix_patch : Text → Text → Text → Text
suffix_patch path base content =
    if starts_with content base then 0 ∷ drop (length base) content else 1 ∷ content

abbrev apply_suffix : Text → Text → Option Text
apply_suffix base [] = none
apply_suffix base (c ∷ patch) = if c == 0 then some (base ++ patch) else some patch

suffix_patch_law :
    (path base content : Text)
    → IsUnix base
    → IsUnix content
    → apply_suffix base (suffix_patch path base content) ≡ some content
suffix_patch_law path base content ub uc = elim (Bool-cases (starts_with content base)) [
  | inl e ↦
      let (rest, same) = starts_with_sound content base e in
      rw e (ap some (rw same (ap (λ r. base ++ r) (drop-length_append base rest))))
  | inr e ↦ rw e refl
]

abbrev a_meta : Meta
a_meta = record {
  kind = dashboard;
  uid = codes "u";
  resource_version = none;
  managed_by = none;
  details = [];
}

-- Its working copy is stored as a patch.
abbrev edited : Entry
edited = record {
  kind = dashboard;
  uid = codes "u";
  path = resource_document_path dashboard (codes "u");
  base = some (record { content = codes "{abc}"; meta = a_meta });
  overlay = some (record { content = some (codes "{abc}d"); updated_at = 3 });
}

IsStorable-edited : IsStorable (resource_key dashboard (codes "u"), edited)
unfolding workspaces
IsStorable-edited = record {
  key = refl;
  uid = refl;
  path = refl;
  unix_base = λ base e. let same : codes "{abc}" ≡ base = cc in subst IsUnix same refl;
  unix_copy = λ overlay content e f.
      let same : record { content = some (codes "{abc}d"); updated_at = 3 } ≡ overlay = cc in
      let here : some (codes "{abc}d") ≡ some content = ap (λ (o : Overlay). o.content) same ∙ f in
      let text : codes "{abc}d" ≡ content = cc in subst IsUnix text refl;
}

stored_as_patch :
    serialize_overlay suffix_patch []
      (some (codes "{abc}"))
      (record { content = some (codes "{abc}d"); updated_at = 3 })
    ≡ patched (0 ∷ codes "d") 3
unfolding workspaces serialize_overlay
stored_as_patch = refl

lookup-restore_resources_example :
    lookup (resource_key dashboard (codes "u")) (
      restore_resources apply_suffix
        (serialize_resources suffix_patch ((resource_key dashboard (codes "u"), edited) ∷ []))
        [])
    ≡ some edited
unfolding workspaces
lookup-restore_resources_example =
    lookup-restore_resources suffix_patch apply_suffix suffix_patch_law
      (resource_key dashboard (codes "u")) ((resource_key dashboard (codes "u"), edited) ∷ []) []
      (IsStorable-edited, tt) (refl, tt)

abbrev remote : Fetched
remote = found (record { content = codes "remote"; meta = a_meta })

-- A load of the edited resource is in flight since before it was edited.
abbrev flying : Flights
flying = record {
  workspace = record start {
    resources = (resource_key dashboard (codes "u"), edited) ∷ [];
    hydrator = some (λ kind uid. remote);
  };
  inflight = resource_key dashboard (codes "u") ∷ [];
}

-- Another load begins, and the remote side answers both with the edited resource.
abbrev both_answered : List Event
both_answered =
    begins (codes "other") dashboard
    ∷ answers (codes "u") dashboard remote
    ∷ answers (codes "other") dashboard remote
    ∷ []

none_flying : (run both_answered flying).inflight ≡ []
unfolding workspaces begin_load finish_load is_kept
none_flying = refl

run-HasWorkingCopy_example :
    HasWorkingCopy
      (resource_key dashboard (codes "u"))
      edited
      (record { content = some (codes "{abc}d"); updated_at = 3 })
      (run both_answered flying).workspace
unfolding workspaces
run-HasWorkingCopy_example =
    run-HasWorkingCopy (resource_key dashboard (codes "u")) edited
      (record { content = some (codes "{abc}d"); updated_at = 3 }) both_answered flying
      (tt, (tt, (tt, tt))) (record { here = refl; edited = refl })
