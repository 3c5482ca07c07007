-- ===== src/Workspace/Types.antt =====
-- workspace/types.ts and the error and path classes of workspace/workspace.ts. The metadata fields
-- that no operation here reads are carried in `details`.
use grafana_pi_app.Prelude.{ℕ, Bool, Option, Text, Map}
use grafana_pi_app.Paths.{PathError}
use grafana_pi_app.Workspace.Kinds.{Kind}

pub record Meta : Type 0 where
  pub kind : Kind
  pub uid : Text
  pub resource_version : Option Text
  pub managed_by : Option Text
  pub details : Text

pub record Snapshot : Type 0 where
  pub content : Text
  pub meta : Meta

-- `content` is `none` for a staged deletion.
pub record Overlay : Type 0 where
  pub content : Option Text
  pub updated_at : ℕ

pub record Entry : Type 0 where
  pub kind : Kind
  pub uid : Text
  pub path : Text
  pub base : Option Snapshot
  pub overlay : Option Overlay

pub record ScratchFile : Type 0 where
  pub content : Text
  pub mtime : ℕ

-- `content` is `none` where a loader computes it, which then answers `loaded`.
pub record GeneratedFile : Type 0 where
  pub content : Option Text
  pub loaded : Text
  pub writable : Bool

pub record GeneratedMount : Type 0 where
  pub root : Text
  pub files : Map GeneratedFile

pub data PathClass : Type 0 where
  scratch : Text → PathClass
  resource : Kind → Text → PathClass
  resource_dir : Kind → Text → PathClass
  generated : Text → PathClass
  virtual : PathClass
  nowhere : PathClass

pub data Code : Type 0 where
  enoent erofs eisdir enotdir eexist enotempty eperm equota econflict : Code

-- What an operation throws: a `WorkspacePathError`, a `WorkspaceError`, or the error of a fetch.
pub data Failure : Type 0 where
  path_error : PathError → Failure
  workspace_error : Code → Failure
  remote_error : Failure

pub data Result {ℓ} (A : Type ℓ) : Type ℓ where
  ok : A → Result A
  err : Failure → Result A

pub data ChangeKind : Type 0 where
  created modified deleted : ChangeKind

pub record FileChange : Type 0 where
  pub path : Text
  pub change : ChangeKind
  pub bytes : ℕ
  pub revision : Option Text

pub record ChangeStatus : Type 0 where
  pub path : Text
  pub resource : Kind
  pub uid : Text
  pub change : ChangeKind
  pub resource_version : Option Text
  pub bytes : ℕ

-- The answer of the resource hydrator: the resource, nothing, or a rejected promise.
pub data Fetched : Type 0 where
  found : Snapshot → Fetched
  missing : Fetched
  rejected : Fetched
