-- ===== src/Apply.antt =====
-- src/pages/Chat/workspace/apply.ts: applying approved changes to Grafana, from the prepared changes on.
pub mod Approved
pub mod Kept
pub mod Unapproved
pub mod Tests
use grafana_pi_app.Prelude.{
  ℕ, Bool, true, false, not, ◌&&◌, ◌||◌, Option, none, some, List, [], ◌∷◌, ◌++◌, Text, text_eq,
  has, filter, Map, lookup, if◌then◌else◌,
}
use grafana_pi_app.Workspace.Kinds.{Kind}
use grafana_pi_app.Workspace.Types.{Meta, Snapshot, Overlay, Entry}
use grafana_pi_app.Workspace.Store.{Workspace, get_resource, reconcile_resource}

pub data Action : Type 0 where
  create update delete : Action

-- The fields of `WorkspaceWriteOperation` that are not display text.
pub record Operation : Type 0 where
  pub path : Text
  pub kind : Kind
  pub uid : Text
  pub action : Action
  pub base_version : Option Text

-- A document is `none` for a deletion.
pub record Changes : Type 0 where
  pub digest : Text
  pub operations : List Operation
  pub documents : Map (Option Text)

pub data Outcome : Type 0 where
  applied failed conflicted unknown not_attempted declined : Outcome

pub record ResultRow : Type 0 where
  pub path : Text
  pub outcome : Outcome
  pub error : Option Text
  pub version : Option Text

pub record Decision : Type 0 where
  pub approved : Bool
  pub paths : Option (List Text)

pub data Reason : Type 0 where
  digest_differs : Reason
  document_changed : Text → Reason
  base_changed : Text → Reason

pub data ApplyError : Type 0 where
  not_approved : ApplyError
  changed_while_waiting : List Reason → ApplyError

-- What a writer answers, or the error that its call, or the parsing of the document, throws.
pub data Answer : Type 0 where
  written : Outcome → Option Text → Option Snapshot → Answer
  thrown : Text → Answer

-- What happens outside during one operation: the signal before it and after it, and the answer.
pub record Run : Type 0 where
  pub aborted_before : Bool
  pub aborted_after : Bool
  pub answer : Answer

-- `===` on texts that may be missing.
abbrev pub same_text : Option Text → Option Text → Bool
same_text none none = true
same_text none (some t) = false
same_text (some s) none = false
same_text (some s) (some t) = text_eq s t

abbrev pub same_document : Option (Option Text) → Option Text → Bool
same_document none current = false
same_document (some expected) current = same_text current expected

abbrev pub version_of : Option Snapshot → Option Text
version_of none = none
version_of (some s) = s.meta.resource_version

-- The body of the loop of `staleChangeReasons`.
abbrev pub stale_entry : Map (Option Text) → Operation → Option Entry → List Reason
stale_entry documents op none = document_changed op.path ∷ []
stale_entry documents op (some entry) = elim entry.overlay [
  | none ↦ document_changed op.path ∷ []
  | some overlay ↦
      if not (same_document (lookup op.path documents) overlay.content)
      then document_changed op.path ∷ []
      else if not (same_text (version_of entry.base) op.base_version)
      then base_changed op.path ∷ []
      else []
]

unfoldable pub stale_operations : Workspace → Map (Option Text) → List Operation → List Reason
stale_operations w documents [] = []
stale_operations w documents (op ∷ ops) =
    stale_entry documents op (get_resource w op.uid op.kind) ++ stale_operations w documents ops

-- `digest_of` is the SHA-256 of the canonical JSON of the changes.
unfoldable pub stale_change_reasons :
    (List Operation → Map (Option Text) → Text) → Workspace → Changes → List Reason
stale_change_reasons digest_of w changes =
    (if text_eq (digest_of changes.operations changes.documents) changes.digest
      then []
      else digest_differs ∷ [])
    ++ stale_operations w changes.documents changes.operations

abbrev pub is_kept : Option (List Text) → Text → Bool
is_kept none path = true
is_kept (some paths) path = has path paths

abbrev pub row : Operation → Outcome → Option Text → Option Text → ResultRow
row op outcome error version = record {
  path = op.path;
  outcome = outcome;
  error = error;
  version = version;
}

abbrev pub is_applied : Outcome → Bool
is_applied applied = true
is_applied other = false

abbrev pub reconciled : Operation → Option Snapshot → Option Snapshot
reconciled op snapshot = elim op.action [ delete ↦ none | _ ↦ snapshot ]

-- A call of a writer, with the document that it writes.
pub record Call : Type 0 where
  pub operation : Operation
  pub document : Option Text

abbrev pub document_at : Map (Option Text) → Text → Option Text
document_at documents path = elim (lookup path documents) [ none ↦ none | some d ↦ d ]

-- The results and the calls of the writers, the last first, and the workspace.
pub record Progress : Type 0 where
  pub rows : List ResultRow
  pub calls : List Call
  pub workspace : Workspace

unfoldable pub settled : Operation → Run → Workspace → ResultRow × Workspace
settled op run w = elim run.answer [
  | written outcome error snapshot ↦ (
    row op outcome error (version_of snapshot),
    if is_applied outcome then reconcile_resource op.uid (reconciled op snapshot) op.kind w else w,
  )
  | thrown message ↦ (row op (if run.aborted_after then unknown else failed) (some message) none, w)
]

-- The worker of `mapConcurrent`.
unfoldable pub apply_operation :
    Option (List Text) → Map (Option Text) → Operation → Run → Progress → Progress
apply_operation kept documents op run p =
    if not (is_kept kept op.path)
    then record p { rows = row op declined none none ∷ p.rows }
    else if run.aborted_before
    then record p { rows = row op not_attempted none none ∷ p.rows }
    else record {
      rows = (settled op run p.workspace).0 ∷ p.rows;
      calls = record { operation = op; document = document_at documents op.path } ∷ p.calls;
      workspace = (settled op run p.workspace).1;
    }

-- The operations in the order in which they end.
unfoldable pub apply_operations :
    Option (List Text) → Map (Option Text) → List (Operation × Run) → Progress → Progress
apply_operations kept documents [] p = p
apply_operations kept documents ((op, run) ∷ rest) p =
    apply_operations kept documents rest (apply_operation kept documents op run p)

abbrev pub keeps_nothing : Option (List Text) → Bool
keeps_nothing none = false
keeps_nothing (some []) = true
keeps_nothing (some (path ∷ paths)) = false

abbrev no_progress : Workspace → Progress
no_progress w = record { rows = []; calls = []; workspace = w }

pub record Applied : Type 0 where
  pub error : Option ApplyError
  pub progress : Progress

abbrev refuse : ApplyError → Workspace → Applied
refuse e w = record { error = some e; progress = no_progress w }

-- `applyWorkspaceChanges` once the decision has come: `w` is the workspace after the wait, `runs` the
-- operations with what happens during each, in the order in which they end.
unfoldable pub apply_decided :
    (List Operation → Map (Option Text) → Text)
    → Changes
    → Decision
    → List (Operation × Run)
    → Workspace
    → Applied
apply_decided digest_of changes decision runs w =
    if not decision.approved || keeps_nothing decision.paths
    then refuse not_approved w
    else elim (stale_change_reasons digest_of w changes) [
      | reason ∷ reasons ↦ refuse (changed_while_waiting (reason ∷ reasons)) w
      | [] ↦ record {
        error = none;
        progress = apply_operations decision.paths changes.documents runs (no_progress w);
      }
    ]
