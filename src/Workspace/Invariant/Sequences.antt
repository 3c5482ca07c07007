-- ===== src/Workspace/Invariant/Sequences.antt =====
-- workspace/workspace.ts: a transaction as the sequence of its operations, each of which may fail.
use grafana_pi_app.Prelude.{ℕ, Bool, List, [], ◌∷◌, Text, Bool-cases, inl, inr, Unique, refl, has}
use grafana_pi_app.Workspace.Types.{FileChange}
use grafana_pi_app.Workspace.Store.{Workspace}
use grafana_pi_app.Workspace.Transaction.{
  Session, begin, note_mutation, assert_open, apply_staged, over_budget, checkpoint, commit,
  keep_changes, effective_files,
}
use grafana_pi_app.Workspace.Writes.{write_file}
use grafana_pi_app.Workspace.Directories.{mkdir, rm}
use grafana_pi_app.Workspace.Commit.Quota.{files-committed_workspace, Unique-apply_files}
use grafana_pi_app.Workspace.Commit.Outcome.{Outcome, commit-Outcome}
use grafana_pi_app.Workspace.Invariant.Keeps.{
  IsSound, Keeps, Keeps-bind, Keeps-assert_open, Keeps-note_mutation,
}
use grafana_pi_app.Workspace.Invariant.Operations.{Keeps-write_file, Keeps-mkdir, Keeps-rm}

pub data Operation : Type 0 where
  write : Text → Text → Operation
  make_dir : Text → Bool → Operation
  remove_path : Text → Bool → Bool → Operation
  save : ℕ → Operation

module _ (content_revision : Text → Text) (by_path : List FileChange → List FileChange) where
  -- The state that an operation leaves, whether it returned or threw.
  abbrev pub perform : Operation → Session → Session
  perform (write path content) s = (write_file path content s).1
  perform (make_dir path recursive) s = (mkdir path recursive s).1
  perform (remove_path path recursive force) s = (rm path recursive force s).1
  perform (save now) s = (checkpoint content_revision by_path now s).1

  abbrev pub perform_all : List Operation → Session → Session
  perform_all [] s = s
  perform_all (op ∷ rest) s = perform_all rest (perform op s)

  Keeps-apply_staged : (now : ℕ) → Keeps (apply_staged content_revision by_path now)
  unfolding apply_staged has
  Keeps-apply_staged now = record {
    at = λ s h. elim (Bool-cases (over_budget s)) [
      | inl over ↦ rw over h
      | inr within ↦ rw within (record {
        staged = record { files = tt; resources = tt; parses = tt; disjoint = λ d. refl };
        files =
            rw (files-committed_workspace content_revision by_path now s)
              (Unique-apply_files now (effective_files s) s.workspace.files h.files);
      })
    ];
  }

  Keeps-keep_changes :
      (changes : List FileChange) → Keeps (keep_changes content_revision by_path changes)
  Keeps-keep_changes changes = record {
    at = λ s h. record {
      staged = record {
        files = h.staged.files;
        resources = h.staged.resources;
        parses = h.staged.parses;
        disjoint = h.staged.disjoint;
      };
      files = h.files;
    };
  }

  Keeps-checkpoint : (now : ℕ) → Keeps (checkpoint content_revision by_path now)
  unfolding checkpoint
  Keeps-checkpoint now = Keeps-bind assert_open _ Keeps-assert_open (λ _.
      Keeps-bind note_mutation _ Keeps-note_mutation (λ _.
        Keeps-bind (apply_staged content_revision by_path now) _ (Keeps-apply_staged now)
          Keeps-keep_changes))

  IsSound-perform : (op : Operation) (s : Session) → IsSound s → IsSound (perform op s)
  IsSound-perform (write path content) s h = (Keeps-write_file path content).at s h
  IsSound-perform (make_dir path recursive) s h = (Keeps-mkdir path recursive).at s h
  IsSound-perform (remove_path path recursive force) s h = (Keeps-rm path recursive force).at s h
  IsSound-perform (save now) s h = (Keeps-checkpoint now).at s h

  IsSound-perform_all :
      (ops : List Operation) (s : Session) → IsSound s → IsSound (perform_all ops s)
  IsSound-perform_all [] s h = h
  IsSound-perform_all (op ∷ rest) s h =
      IsSound-perform_all rest (perform op s) (IsSound-perform op s h)

  IsSound-begin :
      (w : Workspace) → Unique w.files → IsSound (record { workspace = w; transaction = begin })
  unfolding has
  IsSound-begin w u = record {
    staged = record { files = tt; resources = tt; parses = tt; disjoint = λ d. refl };
    files = u;
  }

  -- Whatever writes, directories made, removals and checkpoints a transaction has performed, in any order and
  -- whether they returned or threw, from a workspace whose files hold each path once: its commit
  -- either fails because the transaction is closed or the budget does not suffice, and leaves the workspace as it
  -- was, or leaves a workspace that shows at every path, resource key and directory what the
  -- transaction showed.
  pub commit_after-perform_all :
      (ops : List Operation) (now : ℕ) (w : Workspace)
      → Unique w.files
      → Outcome content_revision by_path
          (perform_all ops (record { workspace = w; transaction = begin }))
          (commit content_revision by_path now
            (perform_all ops (record { workspace = w; transaction = begin })))
  commit_after-perform_all ops now w u =
      commit-Outcome content_revision by_path now _
        (IsSound-perform_all ops _ (IsSound-begin w u)).staged
