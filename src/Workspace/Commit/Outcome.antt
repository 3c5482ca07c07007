-- ===== src/Workspace/Commit/Outcome.antt =====
-- workspace/workspace.ts, `commit`: all of the staged changes are committed, or none.
use grafana_pi_app.Prelude.{
  ℕ, ◌≡◌, refl, sym, ap, ◌∙◌, true, false, ◌&&◌, ◌||◌, Option, List, [], ◌∷◌, ◌++◌, arith, Text,
  Bool-cases, Option-cases, inl, inr, ◌⊎◌, Map, lookup, Unique, has,
}
use grafana_pi_app.Workspace.Kinds.{parse_resource_key}
use grafana_pi_app.Workspace.Types.{eperm, equota, workspace_error, Result, ok, err, FileChange}
use grafana_pi_app.Workspace.Store.{
  Workspace, apply_resources, apply_committed, add_dirs, remove_dirs, is_empty,
}
use grafana_pi_app.Workspace.Transaction.{
  Session, Transaction, content_of, scratch_content, all_scratch_dirs, effective, file_before,
  resource_before, resource_changes, file_changes, apply_staged, committed_workspace,
  effective_files, effective_resources, staged_changes, new_dirs, old_dirs, over_budget,
  has_changes, assert_open, merge_changes, cleared, commit, continue-ok, continue-err, same_option,
  committed_content,
}
use grafana_pi_app.Workspace.Commit.Staged.{Unique-effective, staged_or, staged_or-effective}
use grafana_pi_app.Workspace.Commit.Quota.{files-committed_workspace}
use grafana_pi_app.Workspace.Commit.Contents.{Parses, content-apply_files, content-apply_resources}
use grafana_pi_app.Workspace.Commit.Directories.{has-committed_dirs}

-- What holds of the staged maps while the operations of a transaction fill them.
pub record IsStaged (t : Transaction) : Type 0 where
  pub files : Unique t.files
  pub resources : Unique t.resources
  pub parses : Parses t.resources
  pub disjoint : (d : Text) → (has d t.dirs_added && has d t.dirs_removed) ≡ false

-- The workspace `w` shows what the session `s` showed before the commit.
pub record IsCommitted (s : Session) (w : Workspace) : Type 0 where
  pub files : (path : Text) → file_before w path ≡ scratch_content s path
  pub resources :
      (key : Text)
      → resource_before w key
        ≡ staged_or (lookup key s.transaction.resources) (resource_before s.workspace key)
  pub dirs : (d : Text) → has d w.dirs ≡ has d (all_scratch_dirs s)

scratch_content-staged :
    (s : Session) (path : Text)
    → scratch_content s path
      ≡ staged_or (lookup path s.transaction.files) (file_before s.workspace path)
unfolding scratch_content
scratch_content-staged s path = ground arith

Parses-effective :
    (before : Text → Option Text) (staged : Map (Option Text))
    → Parses staged
    → Parses (effective before staged)
unfolding effective
Parses-effective before [] p = tt
Parses-effective before ((k, c) ∷ staged) (p, ps) = elim (Bool-cases (same_option c (before k))) [
  | inl same ↦ rw same (Parses-effective before staged ps)
  | inr new ↦ rw new (p, Parses-effective before staged ps)
]

is_empty-append {ℓ} :
    {A : Type ℓ} (xs ys : List A) → is_empty (xs ++ ys) ≡ true → is_empty ys ≡ true
is_empty-append [] ys e = e
is_empty-append (x ∷ xs) ys e = cc

apply_resources-nothing :
    (now : ℕ) (staged : Map (Option Text)) (w : Workspace)
    → is_empty staged ≡ true
    → apply_resources now staged w.resources ≡ w.resources
apply_resources-nothing now [] w e = unfold apply_resources in refl
apply_resources-nothing now (x ∷ staged) w e = cc

dirs-nothing :
    (added removed dirs : List Text)
    → is_empty added ≡ true
    → is_empty removed ≡ true
    → add_dirs added (remove_dirs removed dirs) ≡ dirs
dirs-nothing [] [] dirs e f = unfold add_dirs remove_dirs in refl
dirs-nothing [] (x ∷ removed) dirs e f = cc
dirs-nothing (x ∷ added) removed dirs e f = cc

pub assert_open_ended :
    (s : Session)
    → (s.transaction.closed || s.transaction.aborted) ≡ true
    → assert_open s ≡ (err (workspace_error eperm), s)
unfolding assert_open
assert_open_ended s ended = rw ended

pub assert_open_live :
    (s : Session)
    → (s.transaction.closed || s.transaction.aborted) ≡ false
    → assert_open s ≡ (ok tt, s)
unfolding assert_open
assert_open_live s live = rw live

module _ (content_revision : Text → Text) (by_path : List FileChange → List FileChange) where
  no_resources_changed :
      (before : Text → Option Text) (changes : List FileChange) (staged : Map (Option Text))
      → Parses staged
      → is_empty (changes ++ resource_changes content_revision by_path before staged) ≡ true
      → is_empty staged ≡ true
  no_resources_changed before changes [] p e = refl
  no_resources_changed before changes ((k, c) ∷ staged) (p, ps) e =
      elim (Option-cases (parse_resource_key k)) [
        | inl bad ↦ absurd (p bad)
        | inr (place, good) ↦ cc (rw (good, is_empty) at (is_empty-append changes _ e))
      ]

  -- Also where nothing is applied, resources and directories are those with the staged ones applied.
  parts-committed_workspace :
      (now : ℕ) (s : Session)
      → IsStaged s.transaction
      → ((committed_workspace content_revision by_path now s).resources
          ≡ apply_resources now (effective_resources s) s.workspace.resources)
        × ((committed_workspace content_revision by_path now s).dirs
            ≡ add_dirs (new_dirs s) (remove_dirs (old_dirs s) s.workspace.dirs))
  parts-committed_workspace now s t =
      elim (Bool-cases (
        is_empty (staged_changes content_revision by_path s)
        && is_empty (new_dirs s)
        && is_empty (old_dirs s))) [
          | inl same ↦
              unfold committed_workspace in
              rw same (
                sym (
                    apply_resources-nothing now (effective_resources s) s.workspace (
                      no_resources_changed (resource_before s.workspace)
                        (file_changes content_revision by_path (file_before s.workspace)
                          (effective_files s))
                        (effective_resources s)
                        (Parses-effective (resource_before s.workspace) s.transaction.resources
                          t.parses)
                        (ground arith))),
                sym (
                    dirs-nothing (new_dirs s) (old_dirs s) s.workspace.dirs (ground arith)
                      (ground arith)),
              )
          | inr new ↦ unfold committed_workspace apply_committed in rw new (refl, refl)
        ]

  committed_workspace-IsCommitted :
      (now : ℕ) (s : Session)
      → IsStaged s.transaction
      → IsCommitted s (committed_workspace content_revision by_path now s)
  committed_workspace-IsCommitted now s t =
      let (resources, dirs) = parts-committed_workspace now s t in
      record {
        files = λ path.
            ap (λ m. committed_content (lookup path m))
              (files-committed_workspace content_revision by_path now s)
            ∙ content-apply_files now (effective_files s) s.workspace.files path
                (Unique-effective (file_before s.workspace) s.transaction.files t.files)
            ∙ staged_or-effective (file_before s.workspace) path s.transaction.files t.files
            ∙ sym (scratch_content-staged s path);
        resources = λ key.
            ap (λ m. content_of (lookup key m)) resources
            ∙ content-apply_resources now (effective_resources s) s.workspace.resources key
                (Unique-effective (resource_before s.workspace) s.transaction.resources t.resources)
                (Parses-effective (resource_before s.workspace) s.transaction.resources t.parses)
            ∙ staged_or-effective (resource_before s.workspace) key s.transaction.resources
                t.resources;
        dirs = λ d. ap (has d) dirs ∙ has-committed_dirs s d (t.disjoint d);
      }

  -- The transaction is closed before it is validated, which changes nothing that it shows.
  abbrev shut : Session → Session
  shut s = record s { transaction = record s.transaction { closed = true } }

  IsCommitted-shut : (s : Session) (w : Workspace) → IsCommitted (shut s) w → IsCommitted s w
  unfolding scratch_content all_scratch_dirs
  IsCommitted-shut s w c = record { files = c.files; resources = c.resources; dirs = c.dirs }

  over_budget-shut : (s : Session) → over_budget (shut s) ≡ over_budget s
  unfolding over_budget
  over_budget-shut s = refl

  apply_staged_over :
      (now : ℕ) (s : Session)
      → over_budget s ≡ true
      → apply_staged content_revision by_path now s ≡ (err (workspace_error equota), s)
  unfolding apply_staged
  apply_staged_over now s over = rw over

  apply_staged_within :
      (now : ℕ) (s : Session)
      → over_budget s ≡ false
      → apply_staged content_revision by_path now s ≡ (
        ok (by_path (staged_changes content_revision by_path s)),
        record {
          workspace = committed_workspace content_revision by_path now s;
          transaction = cleared s.transaction;
        },
      )
  unfolding apply_staged
  apply_staged_within now s within = rw within

  commit_ended :
      (now : ℕ) (s : Session)
      → (s.transaction.closed || s.transaction.aborted) ≡ true
      → commit content_revision by_path now s ≡ (err (workspace_error eperm), s)
  unfolding commit
  commit_ended now s ended = rw (assert_open_ended s ended, continue-err)

  commit-over_budget :
      (now : ℕ) (s : Session)
      → (s.transaction.closed || s.transaction.aborted) ≡ false
      → over_budget (shut s) ≡ true
      → commit content_revision by_path now s ≡ (err (workspace_error equota), shut s)
  unfolding commit
  commit-over_budget now s live over = rw (
    assert_open_live s live,
    continue-ok,
    continue-ok,
    apply_staged_over now (shut s) over,
    continue-err,
  )

  commit_within_budget :
      (now : ℕ) (s : Session)
      → (s.transaction.closed || s.transaction.aborted) ≡ false
      → over_budget (shut s) ≡ false
      → commit content_revision by_path now s ≡ (
        ok (
            merge_changes content_revision by_path (
              s.transaction.checkpointed
              ++ by_path (staged_changes content_revision by_path (shut s)))),
        record {
          workspace = committed_workspace content_revision by_path now (shut s);
          transaction = cleared (shut s).transaction;
        },
      )
  unfolding commit
  commit_within_budget now s live within = rw (
    assert_open_live s live,
    continue-ok,
    continue-ok,
    apply_staged_within now (shut s) within,
    continue-ok,
  )

  -- What a commit may come to.
  abbrev pub Outcome : Session → Result (List FileChange) × Session → Type 0
  Outcome s (ok changes, s') =
      IsCommitted s s'.workspace
      × (has_changes s'.transaction ≡ false)
      × (s'.transaction.closed ≡ true)
  Outcome s (err f, s') =
      (s'.workspace ≡ s.workspace)
      × (((s.transaction.closed || s.transaction.aborted) ≡ true) ⊎ (over_budget s ≡ true))

  -- A commit of a well-formed transaction either fails, because the transaction is closed or aborted or
  -- the session budget does not suffice, and leaves the workspace as it was; or it closes the transaction, leaves
  -- nothing staged, and the workspace then shows at every path, resource key and directory what the
  -- transaction showed before.
  pub commit-Outcome :
      (now : ℕ) (s : Session)
      → IsStaged s.transaction
      → Outcome s (commit content_revision by_path now s)
  commit-Outcome now s t = elim (Bool-cases (s.transaction.closed || s.transaction.aborted)) [
    | inl ended ↦ rw (commit_ended now s ended) (refl, inl ended)
    | inr live ↦ elim (Bool-cases (over_budget (shut s))) [
      | inl over ↦
          rw (commit-over_budget now s live over) (refl, inr (sym (over_budget-shut s) ∙ over))
      | inr within ↦ rw (commit_within_budget now s live within) (
        IsCommitted-shut s (committed_workspace content_revision by_path now (shut s)) (
            committed_workspace-IsCommitted now (shut s) (record {
              files = t.files;
              resources = t.resources;
              parses = t.parses;
              disjoint = t.disjoint;
            })),
        unfold has_changes in refl,
        refl,
      )
    ]
  ]
