-- ===== src/Apply/Tests.antt =====
-- apply.ts on two edited dashboards, of which the reviewer keeps one.
use grafana_pi_app.Prelude.{
  ◌≡◌, refl, true, false, Option, none, some, List, [], ◌∷◌, Text, codes, Map, lookup, insert,
  remove, text_eq, has, map,
}
use grafana_pi_app.Workspace.Kinds.{dashboard, resource_key, resource_document_path}
use grafana_pi_app.Workspace.Types.{Entry, Snapshot}
use grafana_pi_app.Workspace.Store.{Workspace, reconcile_resource}
use grafana_pi_app.Approvals
use grafana_pi_app.Approvals.{Event, requests, aborts, new_channel}
use grafana_pi_app.Apply.{
  Operation, update, Changes, Decision, Run, written, applied, declined, ResultRow, apply_decided,
  apply_operation, apply_operations, settled, stale_change_reasons, stale_operations,
}
use grafana_pi_app.Apply.Approved.{AllApproved, apply_decided-AllApproved}
use grafana_pi_app.Apply.Unapproved.{AllRefused, run_new-AllRefused}
use grafana_pi_app.Apply.Kept.{lookup-apply_decided}

applies_to : Unit {0}
unfolding lookup insert remove text_eq has resource_key resource_document_path reconcile_resource
    apply_decided apply_operation apply_operations settled stale_change_reasons stale_operations
applies_to = tt

abbrev snapshot : Text → Snapshot
snapshot uid = record {
  content = codes "old";
  meta = record {
    kind = dashboard;
    uid = uid;
    resource_version = some (codes "1");
    managed_by = none;
    details = [];
  };
}

abbrev entry : Text → Entry
entry uid = record {
  kind = dashboard;
  uid = uid;
  path = uid;
  base = some (snapshot uid);
  overlay = some (record { content = some (codes "new"); updated_at = 0 });
}

abbrev key_a : Text
key_a = resource_key dashboard (codes "a")

abbrev key_b : Text
key_b = resource_key dashboard (codes "b")

abbrev workspace : Workspace
workspace = record {
  max_workspace_bytes = 8;
  files = [];
  dirs = [];
  resources = (key_a, entry (codes "a")) ∷ (key_b, entry (codes "b")) ∷ [];
  mounts = [];
  hydrator = none;
  index = λ kind. none;
  revision = 0;
  path_revision = 0;
}

abbrev operation : Text → Operation
operation uid = record {
  path = uid;
  kind = dashboard;
  uid = uid;
  action = update;
  base_version = some (codes "1");
}

abbrev digest_of : List Operation → Map (Option Text) → Text
digest_of operations documents = codes "d"

abbrev changes : Changes
changes = record {
  digest = codes "d";
  operations = operation (codes "a") ∷ operation (codes "b") ∷ [];
  documents = (codes "a", some (codes "new")) ∷ (codes "b", some (codes "new")) ∷ [];
}

abbrev decision : Decision
decision = record { approved = true; paths = some (codes "a" ∷ []) }

abbrev run : Text → Run
run uid = record {
  aborted_before = false;
  aborted_after = false;
  answer = written applied none (some (snapshot uid));
}

abbrev runs : List (Operation × Run)
runs = (operation (codes "b"), run (codes "b")) ∷ (operation (codes "a"), run (codes "a")) ∷ []

outcomes_test :
    map
      (λ (r : ResultRow). r.outcome)
      (apply_decided digest_of changes decision runs workspace).progress.rows
    ≡ applied ∷ declined ∷ []
unfolding applies_to
outcomes_test = refl

apply_decided-AllApproved_example :
    AllApproved digest_of changes decision workspace
      (apply_decided digest_of changes decision runs workspace).progress.calls
apply_decided-AllApproved_example =
    apply_decided-AllApproved digest_of changes decision runs workspace
      ((operation (codes "a") ∷ [], [], refl), (([], operation (codes "b") ∷ [], refl), tt))

lookup-apply_decided_example :
    lookup key_b
      (apply_decided digest_of changes decision runs workspace).progress.workspace.resources
    ≡ some (entry (codes "b"))
unfolding applies_to
lookup-apply_decided_example =
    lookup-apply_decided digest_of changes decision runs workspace key_b
      (λ _. refl, (λ same. absurd (cc (same)), tt))

abbrev cancelled : List Event
cancelled = requests (record { apply_id = codes "apply-1" }) false ∷ aborts 0 ∷ []

run_new-AllRefused_example :
    AllRefused digest_of changes runs workspace (Approvals.run cancelled new_channel).answers
run_new-AllRefused_example =
    run_new-AllRefused digest_of changes runs workspace cancelled (tt, (tt, tt))
