-- ===== src/Lease/Tests.antt =====
-- lease.ts: short elections.
use grafana_pi_app.Prelude.{ℕ, ◌≡◌, refl, arith, true, false, none}
use grafana_pi_app.Lease.{
  Options, decide, decided, won, lose, stop, stored, accepts, taking, spec_of, expiry, is_valid,
}
use grafana_pi_app.Lease.Election.{State, set, fresh, initial, Step, Reachable, start_state, next}
use grafana_pi_app.Lease.Exclusion.{leader_unique}

election : Unit {0}
unfolding set fresh initial decide decided won lose stop stored accepts taking spec_of expiry
    is_valid
election = tt

abbrev options : Options
options = record { duration = 15000; renew_deadline = 10000; renew = 5000 }

first_leader : (s : State) × Reachable options 0 s × ((s.electors 7).leader ≡ true)
unfolding election
first_leader =
    let r0 : Reachable options 0 (initial 0) = start_state in
    let r1 = next _ _ r0 (Step.begin (initial 0) 7 refl refl) in
    let r2 = next _ _ r1 (Step.read _ 7 0 refl) in
    let r3 = next _ _ r2 (Step.answer _ 7 0 none refl) in
    let r4 = next _ _ r3 (Step.serve _ 7 0 _ refl) in
    let r5 = next _ _ r4 (Step.finish _ 7 0 true refl) in (_, r5, refl)

leader_unique_example : ◌≡◌ {A = ℕ} 7 7
leader_unique_example =
    leader_unique options (omega arith) (omega arith) 0 first_leader.0 7 7 first_leader.1
      first_leader.2 first_leader.2

-- The default periods, and periods that the constructor accepts though two requests may take longer
-- than the renew deadline.
is_valid_tests :
    (is_valid options ≡ true)
    × (is_valid (record { duration = 5000; renew_deadline = 4000; renew = 3000 }) ≡ true)
    × (is_valid (record { duration = 5000; renew_deadline = 5000; renew = 3000 }) ≡ false)
unfolding election
is_valid_tests = (refl, refl, refl)
