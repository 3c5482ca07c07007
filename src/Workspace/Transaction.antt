-- ===== src/Workspace/Transaction.antt =====
-- workspace/workspace.ts, class WorkspaceTransaction: the staged state, its reads, its internals and
-- `applyStaged`. The caches of listings and loaded files are not modelled.
use grafana_pi_app.Prelude.{
  ℕ, suc, ◌≡◌, refl, ◌+◌, ◌-◌, Bool, true, false, ◌&&◌, ◌||◌, not, Option, none, some, List, [],
  ◌∷◌, ◌++◌, Text, any, filter, text_eq, ltb, Map, lookup, insert, remove, has, add, delete,
  if◌then◌else◌,
}
use grafana_pi_app.Paths.{is_within, utf8_byte_length}
use grafana_pi_app.Workspace.Kinds.{
  Kind, kinds, resource_meta_path, resource_key, parse_resource_key, resource_document_path,
}
use grafana_pi_app.Workspace.Types.{
  Entry, ScratchFile, GeneratedFile, GeneratedMount, Code, eperm, equota, Failure, workspace_error,
  Result, ok, err, ChangeKind, created, modified, deleted, FileChange,
}
use grafana_pi_app.Workspace.Store.{
  Workspace, get_resource, resource_content, is_base_loaded, is_indexed, indexed_uids, is_some,
  is_empty, hydrate, persisted_bytes, add_dirs, remove_dirs, is_persisted_scratch, apply_committed,
  scratch_mounts,
}

pub record Transaction : Type 0 where
  pub files : Map (Option Text)
  pub resources : Map (Option Text)
  pub dirs_added : List Text
  pub dirs_removed : List Text
  pub attempts : List Text
  pub closed : Bool
  pub aborted : Bool
  pub checkpointed : List FileChange
  pub mutations : ℕ

abbrev pub begin : Transaction
begin = record {
  files = [];
  resources = [];
  dirs_added = [];
  dirs_removed = [];
  attempts = [];
  closed = false;
  aborted = false;
  checkpointed = [];
  mutations = 0;
}

-- What an operation of a transaction may change: the workspace (by loading resources) and itself.
pub record Session : Type 0 where
  pub workspace : Workspace
  pub transaction : Transaction

abbrev pub Run : Type 0 → Type 0
Run A = Session → Result A × Session

-- What follows an operation: the next one, from the state that it left, or its error.
unfoldable pub continue : {A B : Type 0} → Result A × Session → (A → Run B) → Result B × Session
continue (ok a, s) f = f a s
continue (err e, s) f = (err e, s)

pub continue-ok :
    {A B : Type 0} (a : A) (s : Session) (f : A → Run B) → continue (ok a, s) f ≡ f a s
unfolding continue
continue-ok a s f = refl

pub continue-err :
    {A B : Type 0} (e : Failure) (s : Session) (f : A → Run B) → continue (err e, s) f ≡ (err e, s)
unfolding continue
continue-err e s f = refl

infixl 5 ◌>>=◌ ◌>>◌
abbrev pub ◌>>=◌ : {A B : Type 0} → Run A → (A → Run B) → Run B
◌>>=◌ m f s = continue (m s) f

abbrev pub ◌>>◌ : {A B : Type 0} → Run A → Run B → Run B
m >> k = m >>= λ _. k

abbrev pub pure : {A : Type 0} → A → Run A
pure a s = (ok a, s)

abbrev pub fail : {A : Type 0} → Code → Run A
fail code s = (err (workspace_error code), s)

unfoldable pub assert_open : Run (Unit {0})
assert_open s =
    if s.transaction.closed || s.transaction.aborted
    then (err (workspace_error eperm), s)
    else (ok tt, s)

abbrev pub note_mutation : Run (Unit {0})
note_mutation s = (
  ok tt,
  record s { transaction = record s.transaction { mutations = suc s.transaction.mutations } },
)

-- Reads of the staged state ------------------------------------------------------------------

abbrev pub committed_content : Option ScratchFile → Option Text
committed_content none = none
committed_content (some file) = some file.content

unfoldable pub scratch_content : Session → Text → Option Text
scratch_content s path = elim (lookup path s.transaction.files) [
  | some staged ↦ staged
  | none ↦ committed_content (lookup path s.workspace.files)
]

abbrev pub keys {ℓ} : {V : Type ℓ} → Map V → List Text
keys [] = []
keys ((k, v) ∷ m) = k ∷ keys m

abbrev pub overlay_files : Map (Option Text) → List Text → List Text
overlay_files [] files = files
overlay_files ((path, none) ∷ rest) files = overlay_files rest (delete path files)
overlay_files ((path, some content) ∷ rest) files = overlay_files rest (add path files)

unfoldable pub all_scratch_files : Session → List Text
all_scratch_files s = overlay_files s.transaction.files (keys s.workspace.files)

unfoldable pub all_scratch_dirs : Session → List Text
all_scratch_dirs s =
    remove_dirs s.transaction.dirs_removed (add_dirs s.transaction.dirs_added s.workspace.dirs)

unfoldable pub scratch_dir_exists : Session → Text → Bool
scratch_dir_exists s path =
    if has path scratch_mounts
    then true
    else if has path s.transaction.dirs_removed
    then false
    else if has path s.transaction.dirs_added || has path s.workspace.dirs
    then true
    else any (λ file. is_within file path && not (text_eq file path)) (all_scratch_files s)

abbrev pub overlay_deletes : Entry → Bool
overlay_deletes entry = elim entry.overlay [
  | some overlay ↦ not (is_some overlay.content)
  | none ↦ false
]

unfoldable pub resource_dir_exists : Session → Kind → Text → Bool
resource_dir_exists s kind uid = elim (lookup (resource_key kind uid) s.transaction.resources) [
  | some staged ↦ is_some staged
  | none ↦ elim (get_resource s.workspace uid kind) [
    | some entry ↦ not (overlay_deletes entry)
    | none ↦ is_indexed s.workspace uid kind
  ]
]

-- A `hydrate` of the workspace from within the transaction.
unfoldable pub hydrate_in : Text → Kind → Run (Option Entry)
hydrate_in uid kind s = let (r, w) = hydrate uid kind s.workspace in (r, record s { workspace = w })

abbrev pub needs_hydration : Option Entry → Bool
needs_hydration none = true
needs_hydration (some entry) = not (is_some entry.overlay) && not (is_base_loaded entry)

abbrev pub content_of : Option Entry → Option Text
content_of none = none
content_of (some entry) = resource_content entry

-- The `try` around the hydration: only a `WorkspaceError` is thrown on; after another error the entry
-- from before stands.
abbrev pub caught : Option Entry → Result (Option Entry) → Result (Option Text)
caught before (ok entry) = ok (content_of entry)
caught before (err (workspace_error code)) = err (workspace_error code)
caught before (err other) = ok (content_of before)

abbrev pub attempted : Text → Session → Session
attempted key s = record s {
  transaction = record s.transaction { attempts = add key s.transaction.attempts };
}

-- `resourceContent` with `hydrate` set, as every caller does.
unfoldable pub read_resource : Kind → Text → Run (Option Text)
read_resource kind uid s =
    let key = resource_key kind uid in
    let entry = get_resource s.workspace uid kind in
    elim (lookup key s.transaction.resources) [
      | some staged ↦ (ok staged, s)
      | none ↦
          if needs_hydration entry && not (has key s.transaction.attempts)
          then (let (r, s') = hydrate_in uid kind (attempted key s) in (caught entry r, s'))
          else (ok (content_of entry), s)
    ]

-- Generated files. A resource with a base has a metadata file, which hides a mount's file of the
-- same path; an indexed resource has one that is loaded on demand.
abbrev pub find_file : Text → List GeneratedMount → Option GeneratedFile
find_file path [] = none
find_file path (m ∷ rest) = elim (find_file path rest) [
  | some file ↦ some file
  | none ↦ lookup path m.files
]

abbrev pub has_meta_file : Entry → Bool
has_meta_file entry = is_some entry.base && not (overlay_deletes entry)

abbrev pub find_meta : Text → Map Entry → Option Entry
find_meta path [] = none
find_meta path ((key, entry) ∷ rest) =
    if has_meta_file entry && text_eq path (resource_meta_path entry.kind entry.uid)
    then some entry
    else find_meta path rest

abbrev pub find_uid : Text → Kind → List Text → Option (Kind × Text)
find_uid path kind [] = none
find_uid path kind (uid ∷ rest) =
    if text_eq path (resource_meta_path kind uid) then some (kind, uid) else find_uid path kind rest

abbrev pub unloaded : Workspace → Kind → List Text
unloaded w kind = filter (λ uid. not (is_some (get_resource w uid kind))) (indexed_uids w kind)

abbrev pub find_indexed : Text → Workspace → List Kind → Option (Kind × Text)
find_indexed path w [] = none
find_indexed path w (kind ∷ rest) = elim (find_uid path kind (unloaded w kind)) [
  | some found ↦ some found
  | none ↦ find_indexed path w rest
]

pub data Generated : Type 0 where
  file : GeneratedFile → Generated
  meta_file : Entry → Generated
  indexed_meta : Kind → Text → Generated
  no_file : Generated

unfoldable pub generated_file : Workspace → Text → Generated
generated_file w path = elim (find_meta path w.resources) [
  | some entry ↦ meta_file entry
  | none ↦ elim (find_file path w.mounts) [
    | some f ↦ file f
    | none ↦ elim (find_indexed path w kinds) [
      | some (kind, uid) ↦ indexed_meta kind uid
      | none ↦ no_file
    ]
  ]
]

abbrev pub is_writable : Generated → Bool
is_writable (file f) = f.writable
is_writable _ = false

unfoldable pub writable_generated : Session → Text → Bool
writable_generated s path = is_writable (generated_file s.workspace path)

-- Commit ----------------------------------------------------------------------------------------

unfoldable pub has_changes : Transaction → Bool
has_changes t =
    not (is_empty t.files)
    || not (is_empty t.resources)
    || not (is_empty t.dirs_added)
    || not (is_empty t.dirs_removed)

abbrev pub same_option : Option Text → Option Text → Bool
same_option none none = true
same_option none (some c) = false
same_option (some c) none = false
same_option (some c) (some d) = text_eq c d

abbrev pub byte_count : Option Text → ℕ
byte_count none = 0
byte_count (some content) = utf8_byte_length content

-- The staged files, and in the same way the staged resources, that differ from what is committed.
unfoldable pub effective : (Text → Option Text) → Map (Option Text) → Map (Option Text)
effective before [] = []
effective before ((key, content) ∷ rest) =
    let later = effective before rest in
    if same_option content (before key) then later else (key, content) ∷ later

-- The accounting loop of `applyStaged`: what each effective file adds, less what it replaces.
unfoldable pub staged_bytes : Map ScratchFile → Map (Option Text) → ℕ → ℕ
staged_bytes files [] bytes = bytes
staged_bytes files ((path, content) ∷ rest) bytes = staged_bytes files rest (
    if is_persisted_scratch path
    then bytes + byte_count content - byte_count (committed_content (lookup path files))
    else bytes)

abbrev pub change_kind : Option Text → Option Text → ChangeKind
change_kind none before = deleted
change_kind (some content) none = created
change_kind (some content) (some before) = modified

abbrev pub file_before : Workspace → Text → Option Text
file_before w path = committed_content (lookup path w.files)

-- Keys are built by `resourceKey`, so the entry under the key is that of its kind and UID.
abbrev pub resource_before : Workspace → Text → Option Text
resource_before w key = content_of (lookup key w.resources)

-- One round of `mergeChanges`: a created file that is deleted leaves no change, and one that is
-- written again stays created.
abbrev pub is_created : Option FileChange → Bool
is_created none = false
is_created (some c) = elim c.change [ created ↦ true | _ ↦ false ]

abbrev pub is_deleted : ChangeKind → Bool
is_deleted deleted = true
is_deleted _ = false

unfoldable pub merge_change : FileChange → Map FileChange → Map FileChange
merge_change change by =
    if is_created (lookup change.path by) && is_deleted change.change
    then remove change.path by
    else insert change.path
        (if is_created (lookup change.path by) then record change { change = created } else change)
        by

unfoldable pub merge_from : List FileChange → Map FileChange → Map FileChange
merge_from [] by = by
merge_from (change ∷ rest) by = merge_from rest (merge_change change by)

abbrev pub values : Map FileChange → List FileChange
values [] = []
values ((k, v) ∷ m) = v ∷ values m

abbrev pub effective_files : Session → Map (Option Text)
effective_files s = effective (file_before s.workspace) s.transaction.files

abbrev pub effective_resources : Session → Map (Option Text)
effective_resources s = effective (resource_before s.workspace) s.transaction.resources

abbrev pub new_dirs : Session → List Text
new_dirs s = filter (λ dir. not (has dir s.workspace.dirs)) s.transaction.dirs_added

abbrev pub old_dirs : Session → List Text
old_dirs s = filter (λ dir. has dir s.workspace.dirs) s.transaction.dirs_removed

-- The check of the session budget, on the bytes that the accounting loop arrives at.
unfoldable pub over_budget : Session → Bool
over_budget s =
    ltb s.workspace.max_workspace_bytes
      (staged_bytes s.workspace.files (effective_files s) (persisted_bytes s.workspace.files))

abbrev pub cleared : Transaction → Transaction
cleared t = record t { files = []; resources = []; dirs_added = []; dirs_removed = [] }

-- The result of `applyStaged` depends on the content revisions of hash.ts and on the order of
-- `localeCompare`, which are parameters: nothing that is committed depends on them.
module _ (content_revision : Text → Text) (by_path : List FileChange → List FileChange) where
  abbrev pub revision_of : Option Text → Option Text
  revision_of none = none
  revision_of (some content) = some (content_revision content)

  abbrev pub change_of : Text → Option Text → Option Text → FileChange
  change_of path before content = record {
    path = path;
    change = change_kind content before;
    bytes = byte_count content;
    revision = revision_of content;
  }

  abbrev pub file_changes : (Text → Option Text) → Map (Option Text) → List FileChange
  file_changes before [] = []
  file_changes before ((path, content) ∷ rest) =
      change_of path (before path) content ∷ file_changes before rest

  abbrev pub resource_changes : (Text → Option Text) → Map (Option Text) → List FileChange
  resource_changes before [] = []
  resource_changes before ((key, content) ∷ rest) = elim (parse_resource_key key) [
    | some (kind, uid) ↦
        change_of (resource_document_path kind uid) (before key) content
        ∷ resource_changes before rest
    | none ↦ resource_changes before rest
  ]

  abbrev pub staged_changes : Session → List FileChange
  staged_changes s =
      file_changes (file_before s.workspace) (effective_files s)
      ++ resource_changes (resource_before s.workspace) (effective_resources s)

  -- The workspace that `applyStaged` leaves behind; nothing is applied when nothing changes.
  unfoldable pub committed_workspace : ℕ → Session → Workspace
  committed_workspace now s =
      if is_empty (staged_changes s) && is_empty (new_dirs s) && is_empty (old_dirs s)
      then s.workspace
      else apply_committed now (effective_files s) (new_dirs s) (old_dirs s) (effective_resources s)
          s.workspace

  unfoldable pub apply_staged : ℕ → Run (List FileChange)
  apply_staged now s = if over_budget s then (err (workspace_error equota), s) else (
    ok (by_path (staged_changes s)),
    record { workspace = committed_workspace now s; transaction = cleared s.transaction },
  )

  unfoldable pub merge_changes : List FileChange → List FileChange
  merge_changes changes = by_path (values (merge_from changes []))

  abbrev pub close : Run (Unit {0})
  close s = (ok tt, record s { transaction = record s.transaction { closed = true } })

  -- `commit` closes the transaction before it validates.
  unfoldable pub commit : ℕ → Run (List FileChange)
  commit now = do
    assert_open
    close
    changes ← apply_staged now
    λ s. (ok (merge_changes (s.transaction.checkpointed ++ changes)), s)

  abbrev pub keep_changes : List FileChange → Run (List FileChange)
  keep_changes changes s = (
    ok changes,
    record s {
      transaction = record s.transaction { checkpointed = s.transaction.checkpointed ++ changes };
    },
  )

  unfoldable pub checkpoint : ℕ → Run (List FileChange)
  checkpoint now = do assert_open; note_mutation; changes ← apply_staged now; keep_changes changes

unfoldable pub abort : Session → Session
abort s = record s { transaction = record s.transaction { closed = true } }
