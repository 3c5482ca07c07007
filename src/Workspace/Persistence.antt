-- ===== src/Workspace/Persistence.antt =====
-- workspace/workspace.ts, `serialize` and `restore` of a session's resources, and of the scratch files
-- and directories. The entries stand in the order that `resourceEntries` lists them in. The `diff` package is a parameter: `create_patch` and `apply_patch`, whose `none`
-- is its `false`. The journal is not modelled.
pub mod RoundTrip
use grafana_pi_app.Prelude.{
  ℕ, ◌≡◌, refl, Bool, true, false, not, ◌&&◌, Option, none, some, List, [], ◌∷◌, Text, codes,
  length, any, filter, text_eq, ltb, Map, insert, add, if◌then◌else◌,
}
use grafana_pi_app.Paths.{Checked, ok, err, is_within, normalize_workspace_path}
use grafana_pi_app.Workspace.Kinds.{Kind, is_uid, resource_key, resource_document_path}
use grafana_pi_app.Workspace.Types.{Snapshot, Overlay, Entry, ScratchFile}
use grafana_pi_app.Workspace.Store.{persisted_scratch_mounts, is_persisted_scratch}

pub data PersistedOverlay : Type 0 where
  patched : Text → ℕ → PersistedOverlay
  full : Option Text → ℕ → PersistedOverlay

pub record PersistedResource : Type 0 where
  pub kind : Kind
  pub uid : Text
  pub base : Option Snapshot
  pub overlay : Option PersistedOverlay

abbrev pub base_content : Option Snapshot → Option Text
base_content none = none
base_content (some base) = some base.content

module _ (create_patch : Text → Text → Text → Text) where
  abbrev pub shorter : Text → Text → ℕ → PersistedOverlay
  shorter patch content updated_at =
      if ltb (length patch) (length content)
      then patched patch updated_at
      else full (some content) updated_at

  unfoldable pub serialize_overlay : Text → Option Text → Overlay → PersistedOverlay
  serialize_overlay path none overlay = full overlay.content overlay.updated_at
  serialize_overlay path (some base) overlay = elim overlay.content [
    | none ↦ full none overlay.updated_at
    | some content ↦
        if text_eq base []
        then full (some content) overlay.updated_at
        else shorter (create_patch path base content) content overlay.updated_at
  ]

  abbrev pub serialize_entry : Entry → Overlay → PersistedResource
  serialize_entry entry overlay = record {
    kind = entry.kind;
    uid = entry.uid;
    base = entry.base;
    overlay = some (serialize_overlay entry.path (base_content entry.base) overlay);
  }

  unfoldable pub serialize_resources : Map Entry → List PersistedResource
  serialize_resources [] = []
  serialize_resources ((key, entry) ∷ rest) = elim entry.overlay [
    | none ↦ serialize_resources rest
    | some overlay ↦ serialize_entry entry overlay ∷ serialize_resources rest
  ]

module _ (apply_patch : Text → Text → Option Text) where
  abbrev pub patched_content : ℕ → Option Text → Option Overlay
  patched_content updated_at none = none
  patched_content updated_at (some content) =
      some (record { content = some content; updated_at = updated_at })

  unfoldable pub restore_overlay : Option PersistedOverlay → Option Text → Option Overlay
  restore_overlay none base = none
  restore_overlay (some (full content updated_at)) base =
      some (record { content = content; updated_at = updated_at })
  restore_overlay (some (patched patch updated_at)) none = none
  restore_overlay (some (patched patch updated_at)) (some base) =
      patched_content updated_at (apply_patch base patch)

  abbrev pub restored_entry : PersistedResource → Overlay → Entry
  restored_entry r overlay = record {
    kind = r.kind;
    uid = r.uid;
    path = resource_document_path r.kind r.uid;
    base = r.base;
    overlay = some overlay;
  }

  abbrev pub put_restored : PersistedResource → Option Overlay → Map Entry → Map Entry
  put_restored r none resources = resources
  put_restored r (some overlay) resources =
      insert (resource_key r.kind r.uid) (restored_entry r overlay) resources

  unfoldable pub restore_resource : PersistedResource → Map Entry → Map Entry
  restore_resource r resources =
      if is_uid r.uid
      then put_restored r (restore_overlay r.overlay (base_content r.base)) resources
      else resources

  unfoldable pub restore_resources : List PersistedResource → Map Entry → Map Entry
  restore_resources [] resources = resources
  restore_resources (r ∷ rest) resources = restore_resources rest (restore_resource r resources)

unfoldable pub serialize_files : Map ScratchFile → Map ScratchFile
serialize_files [] = []
serialize_files ((path, file) ∷ rest) =
    let others = serialize_files rest in
    if is_persisted_scratch path then (path, file) ∷ others else others

unfoldable pub serialize_dirs : List Text → List Text
serialize_dirs dirs = filter is_persisted_scratch dirs

module _ (nfc : Text → Text) where
  -- Receipts and the context file are written by the program anew.
  abbrev pub may_restore : Text → Bool
  may_restore path =
      not (text_eq path (codes "/session/context.json"))
      && not (is_within path (codes "/session/receipts"))
      && is_persisted_scratch path

  abbrev pub restore_file : Checked Text → ScratchFile → Map ScratchFile → Map ScratchFile
  restore_file (err e) file files = files
  restore_file (ok path) file files = if may_restore path then insert path file files else files

  unfoldable pub restore_files : Map ScratchFile → Map ScratchFile → Map ScratchFile
  restore_files [] files = files
  restore_files ((raw, file) ∷ rest) files =
      restore_files rest
        (restore_file (normalize_workspace_path nfc raw (codes "/") false) file files)

  abbrev pub restore_dir : Checked Text → List Text → List Text
  restore_dir (err e) dirs = dirs
  restore_dir (ok path) dirs =
      if any (λ mount. is_within path mount && not (text_eq path mount)) persisted_scratch_mounts
      then add path dirs
      else dirs

  unfoldable pub restore_dirs : List Text → List Text → List Text
  restore_dirs [] dirs = dirs
  restore_dirs (raw ∷ rest) dirs =
      restore_dirs rest (restore_dir (normalize_workspace_path nfc raw (codes "/") false) dirs)
