-- ===== src/Workspace/Store.antt =====
-- workspace/workspace.ts, class SessionWorkspace: the committed state and its operations. An
-- `await` of the hydrator is one step; listeners and background prefetches are not modelled.
use grafana_pi_app.Prelude.{
  ℕ, suc, ◌+◌, Bool, true, false, ◌&&◌, ◌||◌, Option, none, some, List, [], ◌∷◌, ◌++◌, map, Text,
  codes, length, drop, any, filter, text_eq, Map, lookup, insert, remove, has, add, delete, not,
  if◌then◌else◌,
}
use grafana_pi_app.Paths.{slash, split, is_within, utf8_byte_length}
use grafana_pi_app.Workspace.Kinds.{
  Kind, dashboard, kinds, kind_eq, root_of, document_of, resource_meta, is_uid,
  resource_document_path, resource_key, parse_resource_key,
}
use grafana_pi_app.Workspace.Types.{
  Snapshot, Overlay, Entry, ScratchFile, GeneratedMount, PathClass, scratch, resource, resource_dir,
  generated, virtual, nowhere, eperm, econflict, workspace_error, remote_error, Result, ok, err,
  created, modified, deleted, ChangeStatus, Fetched, found, missing, rejected,
}

pub record Workspace : Type 0 where
  pub max_workspace_bytes : ℕ
  pub files : Map ScratchFile
  pub dirs : List Text
  pub resources : Map Entry
  pub mounts : List GeneratedMount
  pub hydrator : Option (Kind → Text → Fetched)
  pub index : Kind → Option (List Text)
  pub revision : ℕ
  pub path_revision : ℕ

abbrev pub scratch_mounts : List Text
scratch_mounts = codes "/workspace" ∷ codes "/session" ∷ codes "/tmp" ∷ []

abbrev pub persisted_scratch_mounts : List Text
persisted_scratch_mounts = codes "/workspace" ∷ codes "/session" ∷ []

unfoldable pub is_persisted_scratch : Text → Bool
is_persisted_scratch path = any (is_within path) persisted_scratch_mounts

unfoldable pub indexed_uids : Workspace → Kind → List Text
indexed_uids w kind = elim (w.index kind) [ some uids ↦ uids | none ↦ [] ]

unfoldable pub is_indexed : Workspace → Text → Kind → Bool
is_indexed w uid kind = has uid (indexed_uids w kind)

abbrev pub has_entry_of : Kind → Map Entry → Bool
has_entry_of kind [] = false
has_entry_of kind ((key, entry) ∷ rest) = kind_eq entry.kind kind || has_entry_of kind rest

abbrev pub is_set : Option (List Text) → Bool
is_set none = false
is_set (some uids) = true

unfoldable pub has_resource_kind : Workspace → Kind → Bool
has_resource_kind w kind =
    kind_eq kind dashboard || is_set (w.index kind) || has_entry_of kind w.resources

unfoldable pub resource_kinds : Workspace → List Kind
resource_kinds w = filter (has_resource_kind w) kinds

-- The first mount that the path lies within.
abbrev pub find_mount : Text → List GeneratedMount → Option Text
find_mount path [] = none
find_mount path (m ∷ rest) = if is_within path m.root then some m.root else find_mount path rest

abbrev pub find_root : Text → List Text → Option Text
find_root path [] = none
find_root path (m ∷ rest) = if is_within path m then some m else find_root path rest

unfoldable pub mount_roots : Workspace → List Text
mount_roots w =
    scratch_mounts ++ (map root_of (resource_kinds w) ++ map (λ m. GeneratedMount.root m) w.mounts)

unfoldable pub is_virtual_dir : Workspace → Text → Bool
is_virtual_dir w path =
    text_eq path (slash ∷ [])
    || any (λ root. text_eq root path || is_within root path) (mount_roots w)

-- A path below the root of a resource kind, by the segments behind the root.
abbrev pub classify_below : Kind → List Text → PathClass
classify_below kind [] = nowhere
classify_below kind (uid ∷ []) = if is_uid uid then resource_dir kind uid else nowhere
classify_below kind (uid ∷ file ∷ []) =
    if is_uid uid
    then (if text_eq file (document_of kind)
        then resource kind uid
        else if text_eq file resource_meta
        then generated (root_of kind)
        else nowhere)
    else nowhere
classify_below kind (uid ∷ file ∷ more ∷ rest) = nowhere

-- The loop over the mounted kinds; `none` when no kind's root holds the path.
abbrev pub classify_kinds : List Kind → Text → Option PathClass
classify_kinds [] path = none
classify_kinds (kind ∷ rest) path =
    if is_within path (root_of kind) && not (text_eq path (root_of kind))
    then some (classify_below kind (split slash (drop (suc (length (root_of kind))) path)))
    else classify_kinds rest path

-- The second search of the generated mounts in the source is the first one again.
unfoldable pub classify : Workspace → Text → PathClass
classify w path = elim (find_mount path w.mounts) [
  | some root ↦ generated root
  | none ↦ elim (find_root path scratch_mounts) [
    | some mount ↦ scratch mount
    | none ↦ elim (classify_kinds (resource_kinds w) path) [
      | some class ↦ class
      | none ↦ if is_virtual_dir w path then virtual else nowhere
    ]
  ]
]

abbrev pub get_resource : Workspace → Text → Kind → Option Entry
get_resource w uid kind = lookup (resource_key kind uid) w.resources

-- Effective content of a working copy, or `none` when absent or deleted.
unfoldable pub resource_content : Entry → Option Text
resource_content entry = elim entry.overlay [
  | some overlay ↦ overlay.content
  | none ↦ elim entry.base [ some base ↦ some base.content | none ↦ none ]
]

-- `Boolean(entry.base && entry.base.content !== '')`
unfoldable pub is_base_loaded : Entry → Bool
is_base_loaded entry = elim entry.base [ some base ↦ not (text_eq base.content []) | none ↦ false ]

abbrev pub is_some {ℓ} : {A : Type ℓ} → Option A → Bool
is_some none = false
is_some (some a) = true

-- `this.changed()`: the listeners it calls are not modelled.
abbrev pub changed : Workspace → Workspace
changed w = record w { revision = suc w.revision }

abbrev pub kept_overlay : Bool → Option Entry → Option Overlay
kept_overlay true existing = none
kept_overlay false none = none
kept_overlay false (some existing) = existing.overlay

unfoldable pub set_resource_base : Snapshot → Bool → Workspace → Result (Unit {0}) × Workspace
set_resource_base snapshot discard_overlay w =
    let uid = snapshot.meta.uid in
    let kind = snapshot.meta.kind in
    let existing = get_resource w uid kind in
    let entry : Entry = record {
      kind = kind;
      uid = uid;
      path = resource_document_path kind uid;
      base = some snapshot;
      overlay = kept_overlay discard_overlay existing;
    } in
    if not (is_uid uid)
    then (err (workspace_error eperm), w)
    else if is_some (kept_overlay false existing) && not discard_overlay
    then (err (workspace_error econflict), w)
    else (
      ok tt,
      changed (record w {
        resources = insert (resource_key kind uid) entry w.resources;
        path_revision =
            if not (is_some existing) && not (is_indexed w uid kind)
            then suc w.path_revision
            else w.path_revision;
      }),
    )

unfoldable pub reconcile_resource : Text → Option Snapshot → Kind → Workspace → Workspace
reconcile_resource uid snapshot kind w = changed (record w {
  path_revision = suc w.path_revision;
  resources = elim snapshot [
    | none ↦ remove (resource_key kind uid) w.resources
    | some base ↦
        insert (resource_key kind uid)
          (record {
            kind = kind;
            uid = uid;
            path = resource_document_path kind uid;
            base = some base;
            overlay = none;
          })
          w.resources
  ];
})

-- The branch of `discard` for a working copy, by its entry.
abbrev pub discard_entry : Text → Option Entry → Workspace → Bool × Workspace
discard_entry key none w = (false, w)
discard_entry key (some entry) w = elim entry.overlay [
  | none ↦ (false, w)
  | some overlay ↦ (
    true,
    changed (record w {
      path_revision = suc w.path_revision;
      resources = elim entry.base [
        | some base ↦ insert key (record entry { overlay = none }) w.resources
        | none ↦ remove key w.resources
      ];
    }),
  )
]

-- `discard` behind the normalisation of its path.
unfoldable pub discard : Text → Workspace → Result Bool × Workspace
discard path w = elim (classify w path) [
  | resource kind uid ↦
      let (done, w') = discard_entry (resource_key kind uid) (get_resource w uid kind) w in
      (ok done, w')
  | resource_dir kind uid ↦
      let (done, w') = discard_entry (resource_key kind uid) (get_resource w uid kind) w in
      (ok done, w')
  | _ ↦ (err (workspace_error eperm), w)
]

unfoldable pub is_kept : Option Entry → Bool
is_kept none = false
is_kept (some entry) = is_some entry.overlay || is_base_loaded entry

-- What follows the `await` of the hydrator: its answer is stored in the workspace as it is by then,
-- unless the entry has got its content or a local change meanwhile.
abbrev pub after_base :
    Text → Kind → Result (Unit {0}) × Workspace → Result (Option Entry) × Workspace
after_base uid kind (ok _, w) = (ok (get_resource w uid kind), w)
after_base uid kind (err e, w) = (err e, w)

abbrev pub store_fetched : Text → Kind → Fetched → Workspace → Result (Option Entry) × Workspace
store_fetched uid kind rejected w = (err remote_error, w)
store_fetched uid kind missing w = (ok (get_resource w uid kind), w)
store_fetched uid kind (found snapshot) w =
    if is_kept (get_resource w uid kind)
    then (ok (get_resource w uid kind), w)
    else after_base uid kind (set_resource_base snapshot false w)

-- A load in which nothing else runs during the fetch; Workspace/Loading/Flights has loads in flight.
unfoldable pub hydrate : Text → Kind → Workspace → Result (Option Entry) × Workspace
hydrate uid kind w =
    if is_kept (get_resource w uid kind)
    then (ok (get_resource w uid kind), w)
    else elim w.hydrator [
      | none ↦ (ok (get_resource w uid kind), w)
      | some fetch ↦ store_fetched uid kind (fetch kind uid) w
    ]

-- The body of the loop of `status`, for an entry with local changes.
abbrev pub status_of : Entry → Overlay → ChangeStatus
status_of entry overlay = record {
  path = entry.path;
  resource = entry.kind;
  uid = entry.uid;
  change = elim overlay.content [
    | none ↦ deleted
    | some content ↦ if is_some entry.base then modified else created
  ];
  resource_version = elim entry.base [ some base ↦ base.meta.resource_version | none ↦ none ];
  bytes = elim overlay.content [ some content ↦ utf8_byte_length content | none ↦ 0 ];
}

unfoldable pub status_entries : List Entry → List ChangeStatus
status_entries [] = []
status_entries (entry ∷ rest) = elim entry.overlay [
  | some overlay ↦ status_of entry overlay ∷ status_entries rest
  | none ↦ status_entries rest
]

-- `usage().persistedBytes`
unfoldable pub persisted_bytes : Map ScratchFile → ℕ
persisted_bytes [] = 0
persisted_bytes ((path, file) ∷ rest) =
    (if is_persisted_scratch path then utf8_byte_length file.content else 0) + persisted_bytes rest

-- `usage().tmpBytes`
unfoldable pub tmp_bytes : Map ScratchFile → ℕ
tmp_bytes [] = 0
tmp_bytes ((path, file) ∷ rest) =
    (if is_persisted_scratch path then 0 else utf8_byte_length file.content) + tmp_bytes rest

-- The loops of `applyCommitted`.
unfoldable pub apply_files : ℕ → Map (Option Text) → Map ScratchFile → Map ScratchFile
apply_files now [] files = files
apply_files now ((path, none) ∷ rest) files = apply_files now rest (remove path files)
apply_files now ((path, some content) ∷ rest) files =
    apply_files now rest (insert path (record { content = content; mtime = now }) files)

unfoldable pub remove_dirs : List Text → List Text → List Text
remove_dirs [] dirs = dirs
remove_dirs (dir ∷ rest) dirs = remove_dirs rest (delete dir dirs)

unfoldable pub add_dirs : List Text → List Text → List Text
add_dirs [] dirs = dirs
add_dirs (dir ∷ rest) dirs = add_dirs rest (add dir dirs)

abbrev pub base_of : Option Entry → Option Snapshot
base_of none = none
base_of (some entry) = entry.base

abbrev pub same_as_base : Option Entry → Text → Bool
same_as_base entry content = elim (base_of entry) [
  | some base ↦ text_eq base.content content
  | none ↦ false
]

abbrev pub without_overlay : Option Entry → Option Entry
without_overlay none = none
without_overlay (some entry) = some (record entry { overlay = none })

-- The entry that a staged resource document leaves; `none` deletes it.
unfoldable pub applied_entry : ℕ → Text → Option Text → Option Entry → Option Entry
applied_entry now key none none = none
applied_entry now key none (some entry) = elim entry.base [
  | none ↦ none
  | some base ↦ some (record entry { overlay = some (record { content = none; updated_at = now }) })
]
applied_entry now key (some content) existing = elim (parse_resource_key key) [
  | none ↦ existing
  | some (kind, uid) ↦
      if same_as_base existing content
      then without_overlay existing
      else some (record {
        kind = kind;
        uid = uid;
        path = resource_document_path kind uid;
        base = base_of existing;
        overlay = some (record { content = some content; updated_at = now });
      })
]

abbrev pub put_entry : Text → Option Entry → Map Entry → Map Entry
put_entry key none resources = remove key resources
put_entry key (some entry) resources = insert key entry resources

-- One round over the staged resource documents.
unfoldable pub apply_resource : ℕ → Text → Option Text → Map Entry → Map Entry
apply_resource now key content resources =
    put_entry key (applied_entry now key content (lookup key resources)) resources

unfoldable pub apply_resources : ℕ → Map (Option Text) → Map Entry → Map Entry
apply_resources now [] resources = resources
apply_resources now ((key, content) ∷ rest) resources =
    apply_resources now rest (apply_resource now key content resources)

abbrev pub is_empty {ℓ} : {A : Type ℓ} → List A → Bool
is_empty [] = true
is_empty (x ∷ xs) = false

unfoldable pub apply_committed :
    ℕ → Map (Option Text) → List Text → List Text → Map (Option Text) → Workspace → Workspace
apply_committed now files dirs_added dirs_removed resources w = changed (record w {
  files = apply_files now files w.files;
  dirs = add_dirs dirs_added (remove_dirs dirs_removed w.dirs);
  resources = apply_resources now resources w.resources;
  path_revision =
      if is_empty files && is_empty dirs_added && is_empty dirs_removed && is_empty resources
      then w.path_revision
      else suc w.path_revision;
})
