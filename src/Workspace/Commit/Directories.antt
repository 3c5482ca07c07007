-- ===== src/Workspace/Commit/Directories.antt =====
-- workspace/workspace.ts, `applyStaged` and `applyCommitted`: the directories of a commit.
use grafana_pi_app.Prelude.{
  ◌≡◌, refl, Bool, false, not, ◌&&◌, ◌||◌, List, [], ◌∷◌, arith, Text, text_eq, text_eq_iff, has,
  add, delete, has-add, has-delete, filter,
}
use grafana_pi_app.Workspace.Store.{add_dirs, remove_dirs}
use grafana_pi_app.Workspace.Transaction.{Session, all_scratch_dirs, new_dirs, old_dirs}

has-cons : (d x : Text) (xs : List Text) → has d (x ∷ xs) ≡ (text_eq x d || has d xs)
has-cons d x xs = unfold has in refl

has-add_dirs :
    (d : Text) (more dirs : List Text) → has d (add_dirs more dirs) ≡ (has d more || has d dirs)
unfolding add_dirs
has-add_dirs d [] dirs = unfold has in refl
has-add_dirs d (x ∷ more) dirs =
    ground (arith, has-add_dirs d more (add x dirs), has-add x d dirs, has-cons d x more)

has-remove_dirs :
    (d : Text) (gone dirs : List Text)
    → has d (remove_dirs gone dirs) ≡ (not (has d gone) && has d dirs)
unfolding remove_dirs
has-remove_dirs d [] dirs = unfold has in refl
has-remove_dirs d (x ∷ gone) dirs =
    ground (arith, has-remove_dirs d gone (delete x dirs), has-delete x d dirs, has-cons d x gone)

has-filter :
    (d : Text) (p : Text → Bool) (dirs : List Text) → has d (filter p dirs) ≡ (p d && has d dirs)
has-filter d p [] = unfold has in ground arith
has-filter d p (x ∷ dirs) =
    ground
      (arith, has-filter d p dirs, has-cons d x dirs, has-cons d x (filter p dirs), text_eq_iff x d)

-- The directories that a commit leaves are those that the transaction showed, when none is staged
-- both as made and as removed.
pub has-committed_dirs :
    (s : Session) (d : Text)
    → (has d s.transaction.dirs_added && has d s.transaction.dirs_removed) ≡ false
    → has d (add_dirs (new_dirs s) (remove_dirs (old_dirs s) s.workspace.dirs))
      ≡ has d (all_scratch_dirs s)
unfolding all_scratch_dirs
has-committed_dirs s d disjoint = ground (
  arith,
  disjoint,
  has-add_dirs d (new_dirs s) (remove_dirs (old_dirs s) s.workspace.dirs),
  has-remove_dirs d (old_dirs s) s.workspace.dirs,
  has-filter d (λ dir. not (has dir s.workspace.dirs)) s.transaction.dirs_added,
  has-filter d (λ dir. has dir s.workspace.dirs) s.transaction.dirs_removed,
  has-remove_dirs d s.transaction.dirs_removed (add_dirs s.transaction.dirs_added s.workspace.dirs),
  has-add_dirs d s.transaction.dirs_added s.workspace.dirs,
)
