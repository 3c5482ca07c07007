-- ===== src/Workspace/Writes.antt =====
-- workspace/workspace.ts, class WorkspaceTransaction: the operations on files and directories, behind
-- the normalisation of their paths. `cp`, `mv` and the listings are not modelled.
use grafana_pi_app.Prelude.{
  Bool, false, ◌&&◌, ◌||◌, not, Option, none, some, List, [], ◌∷◌, ◌++◌, Text, text_eq, ◌==◌,
  insert, if◌then◌else◌,
}
use grafana_pi_app.Paths.{is_within, ancestor_dirs}
use grafana_pi_app.Workspace.Kinds.{Kind, resource_key}
use grafana_pi_app.Workspace.Types.{
  Entry, PathClass, scratch, resource, generated, enoent, erofs, eisdir, enotdir, workspace_error,
  Result, ok, err,
}
use grafana_pi_app.Workspace.Store.{
  classify, get_resource, is_base_loaded, is_indexed, is_some, is_virtual_dir,
}
use grafana_pi_app.Workspace.Transaction.{
  Session, Run, note_mutation, ◌>>=◌, ◌>>◌, pure, fail, assert_open, scratch_content,
  scratch_dir_exists, hydrate_in, read_resource, Generated, file, meta_file, indexed_meta, no_file,
  generated_file, writable_generated,
}

abbrev pub stage_file : Text → Option Text → Run (Unit {0})
stage_file path content s = (
  ok tt,
  record s {
    transaction = record s.transaction { files = insert path content s.transaction.files };
  },
)

abbrev pub stage_resource : Kind → Text → Option Text → Run (Unit {0})
stage_resource kind uid content s = (
  ok tt,
  record s {
    transaction = record s.transaction {
      resources = insert (resource_key kind uid) content s.transaction.resources;
    };
  },
)

abbrev pub is_managed : Option Entry → Bool
is_managed none = false
is_managed (some entry) = elim entry.base [
  | none ↦ false
  | some base ↦ elim base.meta.managed_by [ none ↦ false | some by ↦ not (text_eq by []) ]
]

-- `content.endsWith('\n')`
unfoldable pub ends_with_newline : Text → Bool
ends_with_newline [] = false
ends_with_newline (c ∷ []) = c == 10
ends_with_newline (c ∷ d ∷ s) = ends_with_newline (d ∷ s)

unfoldable pub with_newline : Text → Text
with_newline content = if ends_with_newline content then content else content ++ 10 ∷ []

-- The loop over the ancestors of a scratch path: one that is a file stops the write.
abbrev pub file_in_the_way : Session → Text → List Text → Bool
file_in_the_way s mount [] = false
file_in_the_way s mount (dir ∷ rest) =
    is_within dir mount && not (text_eq dir mount) && is_some (scratch_content s dir)
    || file_in_the_way s mount rest

unfoldable pub write_scratch : Text → Text → Text → Run (Unit {0})
write_scratch mount path content s =
    if text_eq path mount || scratch_dir_exists s path
    then fail eisdir s
    else if file_in_the_way s mount (ancestor_dirs path)
    then fail enotdir s
    else stage_file path (some content) s

-- Whether a write must load the base of the resource first.
abbrev pub wants_base : Option Entry → Bool → Bool
wants_base none indexed = indexed
wants_base (some entry) indexed = not (is_some entry.overlay) && not (is_base_loaded entry)

abbrev pub base_for_write : Kind → Text → Run (Option Entry)
base_for_write kind uid s =
    if wants_base (get_resource s.workspace uid kind) (is_indexed s.workspace uid kind)
    then hydrate_in uid kind s
    else (ok (get_resource s.workspace uid kind), s)

abbrev pub unless_managed : Option Entry → Kind → Text → Option Text → Run (Unit {0})
unless_managed entry kind uid content s =
    if is_managed entry then fail erofs s else stage_resource kind uid content s

unfoldable pub write_resource : Kind → Text → Text → Run (Unit {0})
write_resource kind uid content = do
  entry ← base_for_write kind uid
  unless_managed entry kind uid (some (with_newline content))

abbrev pub write_generated : Text → Text → Run (Unit {0})
write_generated path content s =
    if writable_generated s path then stage_file path (some content) s else fail erofs s

abbrev pub write_class : PathClass → Text → Text → Run (Unit {0})
write_class (scratch mount) path content = write_scratch mount path content
write_class (resource kind uid) path content = write_resource kind uid content
write_class (generated root) path content = write_generated path content
write_class _ path content = fail erofs

unfoldable pub write_file : Text → Text → Run (Unit {0})
write_file path content = do
  assert_open
  note_mutation
  λ s. write_class (classify s.workspace path) path content s

-- `missingOrDir`
abbrev pub missing_or_dir : {A : Type 0} → Text → Run A
missing_or_dir path s =
    if is_virtual_dir s.workspace path || scratch_dir_exists s path
    then fail eisdir s
    else fail enoent s

abbrev pub or_missing : Text → Option Text → Run Text
or_missing path none = missing_or_dir path
or_missing path (some content) = pure content

abbrev pub or_enoent : Option Text → Run Text
or_enoent none = fail enoent
or_enoent (some content) = pure content

-- The metadata of an entry as JSON, which `JSON.stringify` prints.
module _ (meta_file_content : Entry → Text) where
  abbrev pub meta_of : Option Entry → Text
  meta_of none = []
  meta_of (some entry) = if is_some entry.base then meta_file_content entry else []

  abbrev pub generated_content : Text → Generated → Run (Option Text)
  generated_content path (file f) = elim f.content [
    | some content ↦ pure (some content)
    | none ↦ pure (some f.loaded)
  ]
  generated_content path (meta_file entry) = pure (some (meta_file_content entry))
  generated_content path (indexed_meta kind uid) = do
    entry ← hydrate_in uid kind
    pure (some (meta_of entry))
  generated_content path no_file = pure none

  abbrev pub read_generated : Text → Run (Option Text)
  read_generated path s =
      if writable_generated s path && is_some (scratch_content s path)
      then (ok (scratch_content s path), s)
      else generated_content path (generated_file s.workspace path) s

  abbrev pub read_class : PathClass → Text → Run Text
  read_class (scratch mount) path = λ s. or_missing path (scratch_content s path) s
  read_class (resource kind uid) path = do content ← read_resource kind uid; or_enoent content
  read_class (generated root) path = do content ← read_generated path; or_missing path content
  read_class _ path = missing_or_dir path

  pub read_file : Text → Run Text
  read_file path s = read_class (classify s.workspace path) path s

  -- The `try` of `appendFile`: a missing file is an empty one.
  abbrev pub or_empty : Result Text × Session → Result Text × Session
  or_empty (ok content, s) = (ok content, s)
  or_empty (err (workspace_error enoent), s) = (ok [], s)
  or_empty (err other, s) = (err other, s)

  pub append_file : Text → Text → Run (Unit {0})
  append_file path content = do
    current ← λ s. or_empty (read_file path s)
    write_file path (current ++ content)
