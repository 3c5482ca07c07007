-- ===== src/Host/Tests.antt =====
-- The host's state and its alert deliveries on concrete values.
use grafana_pi_app.Prelude.{
  ◌≡◌, refl, List, [], ◌∷◌, none, some, Text, codes, lookup, insert, has, text_eq, Unique,
}
use grafana_pi_app.Host.Store.{
  Pending, ThreadUpdate, AlertEpisode, firing, resolved, HostState, keep_entries, prune, new_thread,
  updated, set_thread, set_episode,
}
use grafana_pi_app.Host.Alerts.{
  Webhook, WebhookAlert, decide_delivery, firing_fingerprints, skip, update_thread, open_thread,
  Means, open_episode, decide_delivery-Means,
}
use grafana_pi_app.Host.Retention.{
  IsWaiting, HostWrite, thread_write, episode_write, analysis_write, apply_writes,
  apply_writes-pending,
}

hosts : Unit {0}
unfolding lookup insert has text_eq keep_entries prune new_thread updated set_thread set_episode
    decide_delivery firing_fingerprints
hosts = tt

abbrev alert : Text → WebhookAlert
alert print = record { status = firing; fingerprint = print }

abbrev two_alerts : Webhook
two_alerts = record { status = firing; alerts = alert (codes "b") ∷ alert (codes "a") ∷ [] }

abbrev posted : List Text → AlertEpisode
posted prints = record {
  channel_id = codes "c";
  thread_id = codes "t";
  status = firing;
  fingerprints = prints;
  update_post_id = none;
  update_posted_at = none;
  update_edits = none;
  started_at = 0;
  updated_at = 5;
}

decide_tests :
    (decide_delivery two_alerts none ≡ open_thread)
    × (decide_delivery two_alerts (some (posted (codes "a" ∷ codes "b" ∷ []))) ≡ skip)
    × (decide_delivery two_alerts (some (posted (codes "a" ∷ [])))
        ≡ update_thread (posted (codes "a" ∷ [])))
    × (decide_delivery (record two_alerts { status = resolved }) none ≡ skip)
unfolding hosts
decide_tests = (refl, refl, refl, refl)

decide_delivery-Means_example :
    Means two_alerts
      (open_episode (some (posted (codes "a" ∷ []))))
      (decide_delivery two_alerts (some (posted (codes "a" ∷ []))))
decide_delivery-Means_example = decide_delivery-Means two_alerts (some (posted (codes "a" ∷ [])))

abbrev no_update : ThreadUpdate
no_update = record {
  chat_id = none;
  chat_stored = none;
  share_token = none;
  pending = none;
  last_answer_at = none;
  created_at = none;
}

abbrev run : Pending
run = record {
  channel_id = codes "c";
  thread_id = codes "t";
  post_id = codes "p";
  prompt = codes "?";
  started_at = 1;
}

abbrev running : ThreadUpdate
running = record no_update { pending = some (some run) }

abbrev start : HostState
start = record {
  threads = (codes "old", new_thread 1) ∷ [];
  episodes = (codes "g", posted []) ∷ [];
  analyses = [];
}

Unique-start : Unique start.threads
unfolding hosts
Unique-start = (refl, tt)

-- Long after: another thread, an episode, an analysis, and the thread itself but for its run.
abbrev later_writes : List HostWrite
later_writes =
    thread_write 900 (codes "old") no_update
    ∷ episode_write 950 (codes "g") (posted [])
    ∷ analysis_write 960 (codes "rule") 960
    ∷ thread_write 970 (codes "new") no_update
    ∷ []

apply_writes-pending_example :
    IsWaiting
      (codes "new")
      run
      (apply_writes 10 later_writes (set_thread 10 100 (codes "new") running start))
apply_writes-pending_example =
    apply_writes-pending 10 (codes "new") run 100 running start later_writes Unique-start refl
      ((λ e. refl), (tt, (tt, ((λ e. refl), tt))))
