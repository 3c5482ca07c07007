-- ===== src/Approvals/Tests.antt =====
-- ApprovalChannel.ts: two requests, of which the second comes too early.
use grafana_pi_app.Prelude.{◌≡◌, refl, ℕ, Bool, true, false, none, List, [], ◌∷◌, codes, map}
use grafana_pi_app.Approvals.{
  Request, Verdict, new_channel, request, settle, abort, Event, requests, settles, aborts, handle,
  run,
}
use grafana_pi_app.Approvals.Once.{IsOnce, run_new-IsOnce, AllDenied, run_new-AllDenied}

channels : Unit {0}
unfolding new_channel request settle abort handle run
channels = tt

abbrev first : Request
first = record { apply_id = codes "apply-1" }

abbrev events : List Event
events = requests first false ∷ requests first false ∷ aborts 7 ∷ settles true none none ∷ []

events_test :
    map {B = ℕ × Bool} (λ (a : ℕ × Verdict). (a.0, a.1.approved)) (run events new_channel).answers
    ≡ (0, true) ∷ (1, false) ∷ []
unfolding channels
events_test = refl

run_new-IsOnce_example : IsOnce (run events new_channel)
run_new-IsOnce_example = run_new-IsOnce events

run_new-AllDenied_example :
    AllDenied (run (requests first false ∷ aborts 0 ∷ []) new_channel).answers
run_new-AllDenied_example = run_new-AllDenied (requests first false ∷ aborts 0 ∷ []) (tt, (tt, tt))
