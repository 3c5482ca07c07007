-- ===== src/Apply/Kept.antt =====
-- apply.ts: a resource that is not applied keeps its entry, with its working copy.
use grafana_pi_app.Prelude.{
  ◌≡◌, refl, ◌∙◌, arith, Bool, true, false, not, ◌&&◌, ◌||◌, Option, none, some, List, [], ◌∷◌,
  Text, text_eq, Map, lookup, lookup-insert, lookup-remove, All, Bool-cases, inl, inr,
}
use grafana_pi_app.Workspace.Kinds.{Kind, resource_key}
use grafana_pi_app.Workspace.Types.{Snapshot}
use grafana_pi_app.Workspace.Store.{Workspace, reconcile_resource}
use grafana_pi_app.Apply.{
  Operation, Changes, ApplyError, Decision, Reason, Run, Answer, written, thrown, Progress, Applied,
  is_kept, is_applied, reconciled, apply_operation, apply_operations, apply_decided, keeps_nothing,
  no_progress, settled, stale_change_reasons,
}

abbrev pub confirms : Answer → Bool
confirms (written outcome error snapshot) = is_applied outcome
confirms (thrown message) = false

-- The operation is written and Grafana answers that it is applied.
abbrev pub applies : Option (List Text) → Operation × Run → Bool
applies kept (op, run) = is_kept kept op.path && (not run.aborted_before && confirms run.answer)

-- No operation on the resource is applied.
abbrev pub IsLeft : Option (List Text) → Text → Operation × Run → Type 0
IsLeft kept key r = text_eq (resource_key r.0.kind r.0.uid) key ≡ true → applies kept r ≡ false

lookup-reconcile_resource :
    (key uid : Text) (snapshot : Option Snapshot) (kind : Kind) (w : Workspace)
    → text_eq (resource_key kind uid) key ≡ false
    → lookup key (reconcile_resource uid snapshot kind w).resources ≡ lookup key w.resources
unfolding reconcile_resource
lookup-reconcile_resource key uid none kind w h =
    lookup-remove (resource_key kind uid) key w.resources ∙ rw h refl
lookup-reconcile_resource key uid (some s) kind w h =
    lookup-insert (resource_key kind uid) key _ w.resources ∙ rw h refl

lookup-settled :
    (key : Text) (op : Operation) (before after : Bool) (a : Answer) (w : Workspace)
    → (text_eq (resource_key op.kind op.uid) key ≡ true → confirms a ≡ false)
    → lookup key
        (settled op
          (record { aborted_before = before; aborted_after = after; answer = a })
          w).1.resources
      ≡ lookup key w.resources
unfolding settled
lookup-settled key op before after (thrown m) w h = refl
lookup-settled key op before after (written outcome error snapshot) w h =
    elim (Bool-cases (is_applied outcome)) [
      | inr e ↦ rw e refl
      | inl e ↦ elim (Bool-cases (text_eq (resource_key op.kind op.uid) key)) [
        | inl same ↦ absurd (cc (h same, e))
        | inr other ↦
            rw e (lookup-reconcile_resource key op.uid (reconciled op snapshot) op.kind w other)
      ]
    ]

lookup-apply_operation :
    (key : Text) (kept : Option (List Text)) (documents : Map (Option Text)) (op : Operation)
    (run : Run) (p : Progress)
    → IsLeft kept key (op, run)
    → lookup key (apply_operation kept documents op run p).workspace.resources
      ≡ lookup key p.workspace.resources
unfolding apply_operation
lookup-apply_operation key kept documents op run p h = elim (Bool-cases (is_kept kept op.path)) [
  | inr e ↦ rw e refl
  | inl e ↦ elim (Bool-cases run.aborted_before) [
    | inl a ↦ ground (arith, e, a)
    | inr a ↦
        let settles =
          lookup-settled key op run.aborted_before run.aborted_after run.answer p.workspace
            (λ same. ground (arith, h same, e, a)) in
        ground (arith, e, a, settles)
  ]
]

lookup-apply_operations :
    (key : Text) (kept : Option (List Text)) (documents : Map (Option Text))
    (runs : List (Operation × Run)) (p : Progress)
    → All (IsLeft kept key) runs
    → lookup key (apply_operations kept documents runs p).workspace.resources
      ≡ lookup key p.workspace.resources
unfolding apply_operations
lookup-apply_operations key kept documents [] p h = refl
lookup-apply_operations key kept documents ((op, run) ∷ runs) p (first, h) =
    lookup-apply_operations key kept documents runs _ h
    ∙ lookup-apply_operation key kept documents op run p first

-- A resource of which no operation is both sent and confirmed as applied keeps its entry, and so its
-- working copy and base: declined, failed, conflicting, cancelled and unknown writes lose nothing, nor
-- does an apply that is refused.
pub lookup-apply_decided :
    (digest_of : List Operation → Map (Option Text) → Text) (changes : Changes)
    (decision : Decision) (runs : List (Operation × Run)) (w : Workspace) (key : Text)
    → All (IsLeft decision.paths key) runs
    → lookup key (apply_decided digest_of changes decision runs w).progress.workspace.resources
      ≡ lookup key w.resources
unfolding apply_decided
lookup-apply_decided digest_of changes decision runs w key h =
    elim (Bool-cases (not decision.approved || keeps_nothing decision.paths)) [
      | inl e ↦ rw e refl
      | inr e ↦ rw e (go (stale_change_reasons digest_of w changes))
    ]
  where
    go :
        (reasons : List Reason)
        → lookup key
            (Applied.progress (elim reasons [
              | reason ∷ reasons ↦ record {
                error = some (ApplyError.changed_while_waiting (reason ∷ reasons));
                progress = no_progress w;
              }
              | [] ↦ record {
                error = none;
                progress = apply_operations decision.paths changes.documents runs (no_progress w);
              }
            ])).workspace.resources
          ≡ lookup key w.resources
    go (r ∷ rs) = refl
    go [] = lookup-apply_operations key decision.paths changes.documents runs (no_progress w) h
