-- ===== src/Workspace/Directories.antt =====
-- workspace/workspace.ts, class WorkspaceTransaction: `entryType`, `mkdir` and `rm`, behind the
-- normalisation of their paths.
use grafana_pi_app.Prelude.{
  Bool, true, false, ◌&&◌, ◌||◌, not, Option, none, some, List, [], ◌∷◌, ◌++◌, map, Text, any,
  filter, text_eq, Map, lookup, has, add, delete, if◌then◌else◌,
}
use grafana_pi_app.Paths.{is_within, ancestor_dirs, parent_path}
use grafana_pi_app.Workspace.Kinds.{Kind, kinds, resource_meta_path, resource_key}
use grafana_pi_app.Workspace.Types.{
  Entry, GeneratedMount, PathClass, scratch, resource, resource_dir, generated, virtual, nowhere,
  enoent, erofs, eisdir, enotdir, eexist, enotempty, ok,
}
use grafana_pi_app.Workspace.Store.{
  Workspace, classify, get_resource, is_indexed, is_some, is_empty,
}
use grafana_pi_app.Workspace.Transaction.{
  Session, Run, note_mutation, ◌>>=◌, ◌>>◌, pure, fail, assert_open, scratch_content,
  all_scratch_files, all_scratch_dirs, scratch_dir_exists, resource_dir_exists, hydrate_in,
  read_resource, has_meta_file, unloaded, writable_generated,
}
use grafana_pi_app.Workspace.Writes.{stage_file, unless_managed}

pub data EntryType : Type 0 where
  file_type dir_type : EntryType

abbrev pub keys_of {ℓ} : {V : Type ℓ} → Map V → List Text
keys_of [] = []
keys_of ((k, v) ∷ m) = k ∷ keys_of m

-- The paths of the generated files: those of the mounts, and the metadata files of resources.
abbrev pub mount_paths : List GeneratedMount → List Text
mount_paths [] = []
mount_paths (m ∷ rest) = keys_of m.files ++ mount_paths rest

abbrev pub meta_paths : Map Entry → List Text
meta_paths [] = []
meta_paths ((key, entry) ∷ rest) =
    if has_meta_file entry
    then resource_meta_path entry.kind entry.uid ∷ meta_paths rest
    else meta_paths rest

abbrev pub indexed_paths : Workspace → List Kind → List Text
indexed_paths w [] = []
indexed_paths w (kind ∷ rest) =
    map (resource_meta_path kind) (unloaded w kind) ++ indexed_paths w rest

unfoldable pub generated_paths : Workspace → List Text
generated_paths w = mount_paths w.mounts ++ (meta_paths w.resources ++ indexed_paths w kinds)

abbrev pub typed : Bool → EntryType → Option EntryType
typed true type = some type
typed false type = none

abbrev pub scratch_type : Session → Text → Option EntryType
scratch_type s path =
    if is_some (scratch_content s path)
    then some file_type
    else typed (scratch_dir_exists s path) dir_type

abbrev pub generated_type : Workspace → Text → Option EntryType
generated_type w path =
    if has path (generated_paths w)
    then some file_type
    else typed
        (any (λ f. is_within f path) (generated_paths w)
          || any (λ m. text_eq (GeneratedMount.root m) path) w.mounts)
        dir_type

abbrev pub listed_unread : Session → Kind → Text → Bool
listed_unread s kind uid =
    not (is_some (lookup (resource_key kind uid) s.transaction.resources))
    && is_indexed s.workspace uid kind
    && resource_dir_exists s kind uid

abbrev pub resource_type : Kind → Text → Run (Option EntryType)
resource_type kind uid s =
    if listed_unread s kind uid
    then (ok (some file_type), s)
    else (read_resource kind uid >>= λ content. pure (typed (is_some content) file_type)) s

abbrev pub class_type : PathClass → Text → Run (Option EntryType)
class_type virtual path s = (ok (some dir_type), s)
class_type (scratch mount) path s = (ok (scratch_type s path), s)
class_type (resource kind uid) path s = resource_type kind uid s
class_type (resource_dir kind uid) path s =
    (ok (typed (resource_dir_exists s kind uid) dir_type), s)
class_type (generated root) path s = (ok (generated_type s.workspace path), s)
class_type nowhere path s = (ok none, s)

unfoldable pub entry_type : Text → Run (Option EntryType)
entry_type path s = class_type (classify s.workspace path) path s

-- The loop of `mkdir`: directories above a file in the way stay staged.
abbrev pub stage_dir : Text → Session → Session
stage_dir dir s = record s {
  transaction = record s.transaction {
    dirs_added = add dir s.transaction.dirs_added;
    dirs_removed = delete dir s.transaction.dirs_removed;
  };
}

abbrev pub make_dirs : Text → List Text → Run (Unit {0})
make_dirs mount [] s = (ok tt, s)
make_dirs mount (dir ∷ rest) s =
    let staged = make_dirs mount rest (stage_dir dir s) in
    let skipped = make_dirs mount rest s in
    if is_within dir mount && not (text_eq dir mount)
    then (if is_some (scratch_content s dir) then fail enotdir s else staged)
    else skipped

abbrev pub is_dir : Option EntryType → Bool
is_dir (some dir_type) = true
is_dir _ = false

abbrev pub make_scratch : Bool → Text → Text → Run (Unit {0})
make_scratch recursive mount path = do
  parent ← (if recursive then pure (some dir_type) else entry_type (parent_path path))
  if is_dir parent then make_dirs mount (ancestor_dirs path ++ path ∷ []) else fail enoent

abbrev pub make_class : Bool → PathClass → Text → Run (Unit {0})
make_class recursive (resource_dir kind uid) path = pure tt
make_class recursive (scratch mount) path = make_scratch recursive mount path
make_class recursive _ path = fail erofs

abbrev pub make_missing : Bool → Text → Option EntryType → Run (Unit {0})
make_missing recursive path none s = make_class recursive (classify s.workspace path) path s
make_missing recursive path (some file_type) s = fail eexist s
make_missing recursive path (some dir_type) s = if recursive then (ok tt, s) else fail eexist s

unfoldable pub mkdir : Text → Bool → Run (Unit {0})
mkdir path recursive = do
  assert_open
  note_mutation
  existing ← entry_type path
  make_missing recursive path existing

abbrev pub forget_dir : Text → Session → Session
forget_dir dir s = record s {
  transaction = record s.transaction {
    dirs_added = delete dir s.transaction.dirs_added;
    dirs_removed = add dir s.transaction.dirs_removed;
  };
}

-- One round of the loop over the children.
abbrev pub remove_child : Session → Text → Session
remove_child s child =
    if is_some (scratch_content s child) then (stage_file child none s).1 else forget_dir child s

abbrev pub remove_children : List Text → Session → Session
remove_children [] s = s
remove_children (child ∷ rest) s = remove_children rest (remove_child s child)

abbrev pub children_of : Session → Text → List Text
children_of s path =
    filter (λ c. not (text_eq c path) && is_within c path)
      (all_scratch_files s ++ all_scratch_dirs s)

unfoldable pub remove_scratch : Bool → Text → EntryType → Run (Unit {0})
remove_scratch recursive path file_type s = stage_file path none s
remove_scratch recursive path dir_type s =
    if not (is_empty (children_of s path)) && not recursive
    then fail enotempty s
    else (ok tt, forget_dir path (remove_children (children_of s path) s))

abbrev pub has_base : Option Entry → Bool
has_base none = false
has_base (some entry) = is_some entry.base

-- A deletion needs the base revision as its precondition.
abbrev pub base_for_remove : Kind → Text → Run (Option Entry)
base_for_remove kind uid s =
    if not (has_base (get_resource s.workspace uid kind)) && is_indexed s.workspace uid kind
    then hydrate_in uid kind s
    else (ok (get_resource s.workspace uid kind), s)

unfoldable pub remove_resource : Kind → Text → Run (Unit {0})
remove_resource kind uid = do entry ← base_for_remove kind uid; unless_managed entry kind uid none

abbrev pub remove_class : Bool → PathClass → Text → EntryType → Run (Unit {0})
remove_class recursive (resource kind uid) path type = remove_resource kind uid
remove_class recursive (resource_dir kind uid) path type =
    if recursive then remove_resource kind uid else fail eisdir
remove_class recursive (generated root) path type =
    λ s. if writable_generated s path then stage_file path none s else fail erofs s
remove_class recursive (scratch mount) path type =
    if text_eq path mount then fail erofs else remove_scratch recursive path type
remove_class recursive _ path type = fail erofs

abbrev pub remove_found : Bool → Bool → Text → Option EntryType → Run (Unit {0})
remove_found recursive force path none s = if force then (ok tt, s) else fail enoent s
remove_found recursive force path (some type) s =
    remove_class recursive (classify s.workspace path) path type s

unfoldable pub rm : Text → Bool → Bool → Run (Unit {0})
rm path recursive force = do
  assert_open
  note_mutation
  type ← entry_type path
  remove_found recursive force path type
