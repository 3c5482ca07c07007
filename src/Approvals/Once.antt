-- ===== src/Approvals/Once.antt =====
-- ApprovalChannel.ts: every request is answered once, and approved only by the reviewer.
use grafana_pi_app.Prelude.{
  ℕ, ◌+◌, ◌≡◌, refl, arith, true, false, Option, none, some, List, [], ◌∷◌, All, ltb, ◌==◌,
  Bool-cases, inl, inr, if◌then◌else◌,
}
use grafana_pi_app.Approvals.{
  Verdict, Pending, Channel, new_channel, request, settle, abort, Event, requests, settles, aborts,
  handle, run,
}

abbrev pub answers_of : ℕ → List (ℕ × Verdict) → ℕ
answers_of promise [] = 0
answers_of promise ((p, v) ∷ answers) = (if p == promise then 1 else 0) + answers_of promise answers

abbrev pub waits : ℕ → Option Pending → ℕ
waits promise none = 0
waits promise (some p) = if p.promise == promise then 1 else 0

-- Each promise that was made waits or has been resolved, once and not both; no other promise has.
abbrev pub IsOnce : Channel → Type 0
IsOnce c =
    (promise : ℕ)
    → waits promise c.pending + answers_of promise c.answers
      ≡ (if ltb promise c.promises then 1 else 0)

handle-IsOnce :
    (e : Event) (pending : Option Pending) (promises : ℕ) (answers : List (ℕ × Verdict))
    → IsOnce (record { pending = pending; promises = promises; answers = answers })
    → IsOnce (handle e (record { pending = pending; promises = promises; answers = answers }))
unfolding handle request settle abort
handle-IsOnce (requests r true) none n answers h promise = ground (arith, h promise)
handle-IsOnce (requests r false) none n answers h promise = ground (arith, h promise)
handle-IsOnce (requests r aborted) (some p) n answers h promise = ground (arith, h promise)
handle-IsOnce (settles approved paths reason) none n answers h promise = h promise
handle-IsOnce (settles approved paths reason) (some p) n answers h promise =
    ground (arith, h promise)
handle-IsOnce (aborts q) none n answers h promise = h promise
handle-IsOnce (aborts q) (some p) n answers h promise = ground (arith, h promise)

run-IsOnce : (events : List Event) (c : Channel) → IsOnce c → IsOnce (run events c)
unfolding run
run-IsOnce [] c h = h
run-IsOnce (e ∷ events) c h =
    run-IsOnce events (handle e c) (handle-IsOnce e c.pending c.promises c.answers h)

-- After any sequence of requests, decisions and cancellations, each request either is the pending one
-- and unanswered, or has been answered exactly once.
pub run_new-IsOnce : (events : List Event) → IsOnce (run events new_channel)
unfolding new_channel
run_new-IsOnce events = run-IsOnce events new_channel (λ promise. ground arith)

abbrev pub AllDenied : List (ℕ × Verdict) → Type 0
AllDenied answers = All (λ (a : ℕ × Verdict). a.1.approved ≡ false) answers

-- The event is no approval by the reviewer.
abbrev pub IsNoApproval : Event → Type 0
IsNoApproval (settles approved paths reason) = approved ≡ false
IsNoApproval e = Unit {0}

handle-AllDenied :
    (e : Event) (pending : Option Pending) (promises : ℕ) (answers : List (ℕ × Verdict))
    → IsNoApproval e
    → AllDenied answers
    → AllDenied
        (handle e (record { pending = pending; promises = promises; answers = answers })).answers
unfolding handle request settle abort
handle-AllDenied (requests r true) none n answers no_approval h = (refl, h)
handle-AllDenied (requests r false) none n answers no_approval h = h
handle-AllDenied (requests r aborted) (some p) n answers no_approval h = (refl, h)
handle-AllDenied (settles approved paths reason) none n answers no_approval h = h
handle-AllDenied (settles true paths reason) (some p) n answers no_approval h =
    absurd (cc (no_approval))
handle-AllDenied (settles false paths reason) (some p) n answers no_approval h = (refl, h)
handle-AllDenied (aborts q) none n answers no_approval h = h
handle-AllDenied (aborts q) (some p) n answers no_approval h = elim (Bool-cases (p.promise == q)) [
  | inl e ↦ rw e (refl, h)
  | inr e ↦ rw e h
]

run-AllDenied :
    (events : List Event) (c : Channel)
    → All IsNoApproval events
    → AllDenied c.answers
    → AllDenied (run events c).answers
unfolding run
run-AllDenied [] c none_approve h = h
run-AllDenied (e ∷ events) c (first, others) h =
    run-AllDenied events (handle e c) others
      (handle-AllDenied e c.pending c.promises c.answers first h)

-- Without an approval by the reviewer no request is ever approved, neither by a second request nor by
-- a cancellation.
pub run_new-AllDenied :
    (events : List Event) → All IsNoApproval events → AllDenied (run events new_channel).answers
unfolding new_channel
run_new-AllDenied events h = run-AllDenied events new_channel h tt
