-- ===== src/Apply/Approved.antt =====
-- apply.ts: what is written was approved as it stands, and what is not written is kept.
use grafana_pi_app.Prelude.{
  ◌≡◌, refl, ap, subst, arith, true, false, not, ◌||◌, Option, none, some, List, [], ◌∷◌, ◌++◌,
  Text, text_eq, text_eq_sound, Map, lookup, All, IsIn, All-IsIn, Bool-cases, inl, inr,
  if◌then◌else◌,
}
use grafana_pi_app.Workspace.Types.{Overlay, Entry}
use grafana_pi_app.Workspace.Store.{Workspace, get_resource}
use grafana_pi_app.Apply.{
  Operation, Changes, ApplyError, Decision, Reason, Run, Call, Progress, Applied, same_text,
  same_document, version_of, stale_entry, stale_operations, stale_change_reasons, is_kept,
  document_at, apply_operation, apply_operations, apply_decided, keeps_nothing, no_progress,
}

-- The working copy and its base are those that the call writes.
pub record IsCurrent (w : Workspace) (c : Call) : Type 0 where
  pub entry : Entry
  pub overlay : Overlay
  pub stands : get_resource w c.operation.uid c.operation.kind ≡ some entry
  pub edited : entry.overlay ≡ some overlay
  pub same : overlay.content ≡ c.document
  pub base : version_of entry.base ≡ c.operation.base_version

same_text_sound : (s t : Option Text) → same_text s t ≡ true → s ≡ t
same_text_sound none none h = refl
same_text_sound none (some t) h = absurd (cc)
same_text_sound (some s) none h = absurd (cc)
same_text_sound (some s) (some t) h = ap (λ x. some x) (text_eq_sound s t h)

same_document_sound :
    (documents : Map (Option Text)) (path : Text) (content : Option Text)
    → same_document (lookup path documents) content ≡ true
    → content ≡ document_at documents path
same_document_sound documents path content = go (lookup path documents)
  where
    go :
        (found : Option (Option Text))
        → same_document found content ≡ true
        → content ≡ (elim found [ none ↦ none | some d ↦ d ])
    go none h = absurd (cc)
    go (some d) h = same_text_sound content d h

append-nil_left : (xs ys : List Reason) → xs ++ ys ≡ [] → (xs ≡ []) × (ys ≡ [])
append-nil_left [] ys h = (refl, h)
append-nil_left (x ∷ xs) ys h = absurd (cc)

call_of : Map (Option Text) → Operation → Call
call_of documents op = record { operation = op; document = document_at documents op.path }

stale_entry-IsCurrent :
    (w : Workspace) (documents : Map (Option Text)) (op : Operation) (found : Option Entry)
    → get_resource w op.uid op.kind ≡ found
    → stale_entry documents op found ≡ []
    → IsCurrent w (call_of documents op)
unfolding call_of
stale_entry-IsCurrent w documents op none e h = absurd (cc)
stale_entry-IsCurrent w documents op (some entry) e h = go entry.overlay refl h
  where
    go :
        (o : Option Overlay)
        → entry.overlay ≡ o
        → (elim o [
          | none ↦ Reason.document_changed op.path ∷ []
          | some overlay ↦
              if not (same_document (lookup op.path documents) overlay.content)
              then Reason.document_changed op.path ∷ []
              else if not (same_text (version_of entry.base) op.base_version)
              then Reason.base_changed op.path ∷ []
              else []
        ])
          ≡ []
        → IsCurrent w (call_of documents op)
    go none f k = absurd (cc)
    go (some overlay) f k = record {
      entry = entry;
      overlay = overlay;
      stands = e;
      edited = f;
      same = same_document_sound documents op.path overlay.content (ground (arith, k));
      base = same_text_sound (version_of entry.base) op.base_version (ground (arith, k));
    }

stale_operations-IsCurrent :
    (w : Workspace) (documents : Map (Option Text)) (ops : List Operation)
    → stale_operations w documents ops ≡ []
    → All (λ op. IsCurrent w (call_of documents op)) ops
unfolding stale_operations
stale_operations-IsCurrent w documents [] h = tt
stale_operations-IsCurrent w documents (op ∷ ops) h =
    let (first, rest) =
      append-nil_left (stale_entry documents op (get_resource w op.uid op.kind)) _ h in
    (
      stale_entry-IsCurrent w documents op (get_resource w op.uid op.kind) refl first,
      stale_operations-IsCurrent w documents ops rest,
    )

-- What a call of a writer was checked for.
pub record IsApproved (w : Workspace) (kept : Option (List Text)) (c : Call) : Type 0 where
  pub current : IsCurrent w c
  pub kept_path : is_kept kept c.operation.path ≡ true

apply_operation-IsApproved :
    (w : Workspace) (kept : Option (List Text)) (documents : Map (Option Text)) (op : Operation)
    (run : Run) (p : Progress)
    → IsCurrent w (call_of documents op)
    → All (IsApproved w kept) p.calls
    → All (IsApproved w kept) (apply_operation kept documents op run p).calls
unfolding apply_operation call_of
apply_operation-IsApproved w kept documents op run p c h =
    elim (Bool-cases (is_kept kept op.path)) [
      | inr e ↦ rw e h
      | inl e ↦ elim (Bool-cases run.aborted_before) [
        | inl a ↦ subst (All (IsApproved w kept)) (ground (arith, e, a)) h
        | inr a ↦
            subst (All (IsApproved w kept)) {x = call_of documents op ∷ p.calls}
              (ground (arith, e, a)) (record { current = c; kept_path = e }, h)
      ]
    ]

apply_operations-IsApproved :
    (w : Workspace) (kept : Option (List Text)) (documents : Map (Option Text))
    (ops : List Operation) (runs : List (Operation × Run)) (p : Progress)
    → All (λ op. IsCurrent w (call_of documents op)) ops
    → All (λ (r : Operation × Run). IsIn r.0 ops) runs
    → All (IsApproved w kept) p.calls
    → All (IsApproved w kept) (apply_operations kept documents runs p).calls
unfolding apply_operations
apply_operations-IsApproved w kept documents ops [] p current of_ops h = h
apply_operations-IsApproved w kept documents ops ((op, run) ∷ runs) p current (of_op, of_ops) h =
    apply_operations-IsApproved w kept documents ops runs _ current of_ops (
      apply_operation-IsApproved w kept documents op run p
        (All-IsIn (λ op. IsCurrent w (call_of documents op)) ops op current of_op) h)

-- A call is made only after an approval that keeps its path, for the working copy and the base
-- revision that the workspace has after the wait, and for the changes whose digest was approved.
abbrev pub AllApproved :
    (List Operation → Map (Option Text) → Text)
    → Changes
    → Decision
    → Workspace
    → List Call
    → Type 0
AllApproved digest_of changes decision w calls =
    All
      (λ (c : Call).
        IsApproved w decision.paths c
        × (decision.approved ≡ true)
        × (digest_of changes.operations changes.documents ≡ changes.digest))
      calls

stale_change_reasons-none :
    (digest_of : List Operation → Map (Option Text) → Text) (w : Workspace) (changes : Changes)
    → stale_change_reasons digest_of w changes ≡ []
    → (digest_of changes.operations changes.documents ≡ changes.digest)
      × (stale_operations w changes.documents changes.operations ≡ [])
unfolding stale_change_reasons
stale_change_reasons-none digest_of w changes h =
    elim (Bool-cases (text_eq (digest_of changes.operations changes.documents) changes.digest)) [
      | inl e ↦ (
        text_eq_sound (digest_of changes.operations changes.documents) changes.digest e,
        ground (arith, h, e),
      )
      | inr e ↦ absurd (ground (arith, h, e))
    ]

with_decision :
    (P Q : Call → Type 0) (calls : List Call) → ((c : Call) → P c → Q c) → All P calls → All Q calls
with_decision P Q [] f h = tt
with_decision P Q (c ∷ calls) f (p, h) = (f c p, with_decision P Q calls f h)

-- Every write that is sent to Grafana was approved: the reviewer approved and kept its path, the
-- digest fits the changes, and after the wait the working copy was still the document that is written
-- and its base still the revision that the write names.
pub apply_decided-AllApproved :
    (digest_of : List Operation → Map (Option Text) → Text) (changes : Changes)
    (decision : Decision) (runs : List (Operation × Run)) (w : Workspace)
    → All (λ (r : Operation × Run). IsIn r.0 changes.operations) runs
    → AllApproved digest_of changes decision w
        (apply_decided digest_of changes decision runs w).progress.calls
unfolding apply_decided
apply_decided-AllApproved digest_of changes decision runs w of_ops =
    elim (Bool-cases (not decision.approved || keeps_nothing decision.paths)) [
      | inl e ↦ rw e tt
      | inr e ↦ rw e (go e (stale_change_reasons digest_of w changes) refl)
    ]
  where
    go :
        (not decision.approved || keeps_nothing decision.paths) ≡ false
        → (reasons : List Reason) → stale_change_reasons digest_of w changes ≡ reasons
        → AllApproved digest_of changes decision w
            (Applied.progress (elim reasons [
              | reason ∷ reasons ↦ record {
                error = some (ApplyError.changed_while_waiting (reason ∷ reasons));
                progress = no_progress w;
              }
              | [] ↦ record {
                error = none;
                progress = apply_operations decision.paths changes.documents runs (no_progress w);
              }
            ])).calls
    go e (r ∷ rs) k = tt
    go e [] k =
        let (digest, current) = stale_change_reasons-none digest_of w changes k in
        with_decision (IsApproved w decision.paths) _ _ (λ c h. (h, ground (arith, e), digest))
          (apply_operations-IsApproved w decision.paths changes.documents changes.operations runs
            (no_progress w)
            (stale_operations-IsCurrent w changes.documents changes.operations current) of_ops tt)
