-- ===== src/Workspace/Commit/Quota.antt =====
-- workspace/workspace.ts, `applyStaged`: the accounting of the session budget.
use grafana_pi_app.Prelude.{
  ℕ, ◌+◌, ◌≤◌, ◌≡◌, refl, sym, ap, ◌∙◌, true, false, Option, none, some, List, [], ◌∷◌, ◌++◌, arith,
  Text, text_eq, text_eq_iff, Bool-cases, inl, inr, Map, lookup, insert, remove, lookup-insert,
  lookup-remove, Unique, Unique-insert, Unique-remove, if◌then◌else◌, le_of_not-ltb, ◌&&◌,
}
use grafana_pi_app.Workspace.Types.{ScratchFile, ok, FileChange}
use grafana_pi_app.Workspace.Store.{
  is_persisted_scratch, persisted_bytes, apply_files, apply_committed, is_empty,
}
use grafana_pi_app.Workspace.Commit.Staged.{Avoids, Avoids-of_absent, Unique-effective}
use grafana_pi_app.Workspace.Transaction.{
  Session, committed_content, byte_count, staged_bytes, file_before, file_changes, apply_staged,
  committed_workspace, effective_files, staged_changes, new_dirs, old_dirs, over_budget,
}

-- What a file at a path counts.
abbrev counted : Text → Option Text → ℕ
counted path content = if is_persisted_scratch path then byte_count content else 0

abbrev held : Map ScratchFile → Text → ℕ
held files path = counted path (committed_content (lookup path files))

persisted_bytes-insert :
    (path : Text) (file : ScratchFile) (files : Map ScratchFile)
    → persisted_bytes (insert path file files) + held files path
      ≡ persisted_bytes files + counted path (some file.content)
unfolding persisted_bytes insert lookup
persisted_bytes-insert path file [] = ground arith
persisted_bytes-insert path file ((j, f) ∷ files) =
    ground (arith, text_eq_iff j path, persisted_bytes-insert path file files)

persisted_bytes-remove :
    (path : Text) (files : Map ScratchFile)
    → Unique files
    → persisted_bytes (remove path files) + held files path ≡ persisted_bytes files
unfolding persisted_bytes remove lookup
persisted_bytes-remove path [] u = ground arith
persisted_bytes-remove path ((j, f) ∷ files) (absent, u) =
    ground (arith, text_eq_iff j path, persisted_bytes-remove path files u, absent)

-- One round of `applyCommitted` over the files.
abbrev apply_file : ℕ → Text → Option Text → Map ScratchFile → Map ScratchFile
apply_file now path none files = remove path files
apply_file now path (some content) files =
    insert path (record { content = content; mtime = now }) files

persisted_bytes-apply_file :
    (now : ℕ) (path : Text) (content : Option Text) (files : Map ScratchFile)
    → Unique files
    → persisted_bytes (apply_file now path content files) + held files path
      ≡ persisted_bytes files + counted path content
persisted_bytes-apply_file now path none files u =
    persisted_bytes-remove path files u ∙ ground arith
persisted_bytes-apply_file now path (some content) files u = persisted_bytes-insert path _ files

Unique-apply_file :
    (now : ℕ) (path : Text) (content : Option Text) (files : Map ScratchFile)
    → Unique files
    → Unique (apply_file now path content files)
Unique-apply_file now path none files u = Unique-remove path files u
Unique-apply_file now path (some content) files u = Unique-insert path _ files u

lookup-apply_file_ne :
    (now : ℕ) (path j : Text) (content : Option Text) (files : Map ScratchFile)
    → text_eq path j ≡ false
    → lookup j (apply_file now path content files) ≡ lookup j files
lookup-apply_file_ne now path j none files h = rw (lookup-remove path j files) (rw h)
lookup-apply_file_ne now path j (some content) files h =
    rw (lookup-insert path j (record { content = content; mtime = now }) files) (rw h)

-- The count of the rest depends on the files only at the keys of the rest.
staged_bytes-apply_file :
    (now : ℕ) (path : Text) (content : Option Text) (files : Map ScratchFile)
    (rest : Map (Option Text)) (bytes : ℕ)
    → Avoids path rest
    → staged_bytes (apply_file now path content files) rest bytes ≡ staged_bytes files rest bytes
unfolding staged_bytes
staged_bytes-apply_file now path content files [] bytes h = refl
staged_bytes-apply_file now path content files ((j, c) ∷ rest) bytes (h, hs) =
    rw (lookup-apply_file_ne now path j content files h)
      (staged_bytes-apply_file now path content files rest _ hs)

-- The number that the accounting loop arrives at is what the files hold once they are applied.
pub persisted_bytes-apply_files :
    (now : ℕ) (staged : Map (Option Text)) (files : Map ScratchFile)
    → Unique staged
    → Unique files
    → persisted_bytes (apply_files now staged files)
      ≡ staged_bytes files staged (persisted_bytes files)
persisted_bytes-apply_files now [] files v u = unfold apply_files staged_bytes in refl
persisted_bytes-apply_files now ((path, content) ∷ rest) files (absent, v) u =
    ap persisted_bytes (first_step content)
    ∙ persisted_bytes-apply_files now rest (apply_file now path content files) v
        (Unique-apply_file now path content files u)
    ∙ staged_bytes-apply_file now path content files rest _ (Avoids-of_absent path rest absent)
    ∙ counted_step
  where
    first_step :
        (c : Option Text)
        → apply_files now ((path, c) ∷ rest) files
          ≡ apply_files now rest (apply_file now path c files)
    first_step none = unfold apply_files in refl
    first_step (some c) = unfold apply_files in refl

    counted_step :
        staged_bytes files rest (persisted_bytes (apply_file now path content files))
        ≡ staged_bytes files ((path, content) ∷ rest) (persisted_bytes files)
    counted_step =
        unfold staged_bytes in
        ap (staged_bytes files rest)
          (ground (arith, persisted_bytes-apply_file now path content files u))

nothing_staged :
    (now : ℕ) (staged : Map (Option Text)) (files : Map ScratchFile)
    → is_empty staged ≡ true
    → apply_files now staged files ≡ files
nothing_staged now [] files e = unfold apply_files in refl
nothing_staged now ((k, c) ∷ staged) files e = cc

pub Unique-apply_files :
    (now : ℕ) (staged : Map (Option Text)) (files : Map ScratchFile)
    → Unique files
    → Unique (apply_files now staged files)
unfolding apply_files
Unique-apply_files now [] files u = u
Unique-apply_files now ((path, none) ∷ rest) files u =
    Unique-apply_files now rest _ (Unique-apply_file now path none files u)
Unique-apply_files now ((path, some content) ∷ rest) files u =
    Unique-apply_files now rest _ (Unique-apply_file now path (some content) files u)

module _ (content_revision : Text → Text) (by_path : List FileChange → List FileChange) where
  no_files_changed :
      (before : Text → Option Text) (staged : Map (Option Text)) (more : List FileChange)
      → is_empty (file_changes content_revision by_path before staged ++ more) ≡ true
      → is_empty staged ≡ true
  no_files_changed before [] more e = refl
  no_files_changed before ((k, c) ∷ staged) more e = cc

  -- Also where nothing is applied, the files are those with the staged ones applied.
  pub files-committed_workspace :
      (now : ℕ) (s : Session)
      → (committed_workspace content_revision by_path now s).files
        ≡ apply_files now (effective_files s) s.workspace.files
  files-committed_workspace now s =
      elim (Bool-cases (is_empty (staged_changes content_revision by_path s))) [
        | inl same ↦
            let stays =
              nothing_staged now (effective_files s) s.workspace.files
                (no_files_changed (file_before s.workspace) (effective_files s) _ same) in
            elim (Bool-cases (is_empty (new_dirs s) && is_empty (old_dirs s))) [
              | inl none_new ↦ unfold committed_workspace in rw (same, none_new) (sym stays)
              | inr some_new ↦ unfold committed_workspace apply_committed in rw (same, some_new)
            ]
        | inr new ↦ unfold committed_workspace apply_committed in rw new
      ]

  -- After a commit or checkpoint that succeeds, the files that are stored with the session are within
  -- its budget, when the files and the staged files hold each path once.
  pub apply_staged-within_budget :
      (now : ℕ) (s : Session) (changes : List FileChange) (s' : Session)
      → Unique s.workspace.files
      → Unique s.transaction.files
      → apply_staged content_revision by_path now s ≡ (ok changes, s')
      → persisted_bytes s'.workspace.files ≤ s.workspace.max_workspace_bytes
  unfolding apply_staged
  apply_staged-within_budget now s changes s' u v e = elim (Bool-cases (over_budget s)) [
    | inl over ↦ cc (over)
    | inr within ↦
        let same : committed_workspace content_revision by_path now s ≡ s'.workspace =
          cc (within) in
        rw
          (
            ← same,
            files-committed_workspace now s,
            persisted_bytes-apply_files now (effective_files s) s.workspace.files
                (Unique-effective (file_before s.workspace) s.transaction.files v) u,
          )
          (unfold over_budget in le_of_not-ltb _ _ within)
  ]
