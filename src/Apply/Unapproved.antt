-- ===== src/Apply/Unapproved.antt =====
-- apply.ts with ApprovalChannel.ts: the decision is what the channel answers.
use grafana_pi_app.Prelude.{ℕ, ◌≡◌, false, Option, List, [], ◌∷◌, Text, Map, All}
use grafana_pi_app.Workspace.Store.{Workspace}
use grafana_pi_app.Approvals.{Verdict, Event, run, new_channel}
use grafana_pi_app.Approvals.Once.{AllDenied, IsNoApproval, run_new-AllDenied}
use grafana_pi_app.Apply.{Operation, Changes, Decision, Run, apply_decided, no_progress}

-- What `request` resolves to, as `applyWorkspaceChanges` reads it.
abbrev pub decision_of : Verdict → Decision
decision_of v = record { approved = v.approved; paths = v.paths }

module _ (digest_of : List Operation → Map (Option Text) → Text) (changes : Changes)
    (runs : List (Operation × Run)) (w : Workspace) where
  apply_decided-denied :
      (d : Decision)
      → d.approved ≡ false
      → (apply_decided digest_of changes d runs w).progress ≡ no_progress w
  unfolding apply_decided
  apply_decided-denied d h = simp (h)

  -- An answer of the channel with which an apply makes no call and leaves the workspace alone.
  abbrev pub AllRefused : List (ℕ × Verdict) → Type 0
  AllRefused answers =
      All
        (λ (a : ℕ × Verdict).
          (apply_decided digest_of changes (decision_of a.1) runs w).progress ≡ no_progress w)
        answers

  denied-AllRefused : (answers : List (ℕ × Verdict)) → AllDenied answers → AllRefused answers
  denied-AllRefused [] h = tt
  denied-AllRefused (a ∷ answers) (d, h) =
      (apply_decided-denied (decision_of a.1) d, denied-AllRefused answers h)

  -- As long as the reviewer approves nothing, no answer of the channel lets an apply call a writer or
  -- change the workspace.
  pub run_new-AllRefused :
      (events : List Event) → All IsNoApproval events → AllRefused (run events new_channel).answers
  run_new-AllRefused events h =
      denied-AllRefused (run events new_channel).answers (run_new-AllDenied events h)
