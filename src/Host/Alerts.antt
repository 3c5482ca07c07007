-- ===== src/Host/Alerts.antt =====
-- host/alerts.ts: what a Grafana notification means for the thread of its alert group. The messages
-- and prompts are not modelled, nor are the fields that only they read.
use grafana_pi_app.Prelude.{
  suc, ◌≡◌, ◌↔◌, ◌⊎◌, inl, inr, refl, sym, subst, ◌∙◌, arith, Bool, true, false, ◌&&◌, ◌||◌, Option,
  none, some, List, [], ◌∷◌, Text, length, filter, map, has, ltb, ◌==◌, ==_iff, All, Bool-cases,
  if◌then◌else◌,
}
use grafana_pi_app.Host.Store.{EpisodeStatus, firing, resolved, AlertEpisode}

pub record WebhookAlert : Type 0 where
  pub status : EpisodeStatus
  pub fingerprint : Text

pub record Webhook : Type 0 where
  pub status : EpisodeStatus
  pub alerts : List WebhookAlert

pub data AlertDelivery : Type 0 where
  open_thread : AlertDelivery
  update_thread : AlertEpisode → AlertDelivery
  resolve_thread : AlertEpisode → AlertDelivery
  skip : AlertDelivery

abbrev pub is_firing : EpisodeStatus → Bool
is_firing firing = true
is_firing resolved = false

-- The order of `sort` without a comparator: by code units.
abbrev pub text_le : Text → Text → Bool
text_le [] t = true
text_le (c ∷ s) [] = false
text_le (c ∷ s) (d ∷ t) = ltb c d || (c == d && text_le s t)

abbrev pub insert_text : Text → List Text → List Text
insert_text s [] = s ∷ []
insert_text s (t ∷ rest) = if text_le s t then s ∷ t ∷ rest else t ∷ insert_text s rest

abbrev pub sort_texts : List Text → List Text
sort_texts [] = []
sort_texts (s ∷ rest) = insert_text s (sort_texts rest)

abbrev pub firing_alerts : Webhook → List WebhookAlert
firing_alerts payload = filter (λ a. is_firing (WebhookAlert.status a)) payload.alerts

abbrev pub prints_of : List WebhookAlert → List Text
prints_of alerts = map (λ a. WebhookAlert.fingerprint a) alerts

unfoldable pub firing_fingerprints : Webhook → List Text
firing_fingerprints payload = sort_texts (prints_of (firing_alerts payload))

abbrev pub all_posted : List Text → List Text → Bool
all_posted [] posted = true
all_posted (print ∷ rest) posted = has print posted && all_posted rest posted

abbrev pub same_fingerprints : List Text → List Text → Bool
same_fingerprints now posted = length now == length posted && all_posted now posted

abbrev pub open_episode : Option AlertEpisode → Option AlertEpisode
open_episode none = none
open_episode (some e) = if is_firing e.status then some e else none

abbrev pub decide_open : Webhook → Option AlertEpisode → AlertDelivery
decide_open payload none = if is_firing payload.status then open_thread else skip
decide_open payload (some e) =
    if is_firing payload.status
    then (if same_fingerprints (firing_fingerprints payload) e.fingerprints
        then skip
        else update_thread e)
    else resolve_thread e

unfoldable pub decide_delivery : Webhook → Option AlertEpisode → AlertDelivery
decide_delivery payload episode = decide_open payload (open_episode episode)

length-insert_text : (s : Text) (ts : List Text) → length (insert_text s ts) ≡ suc (length ts)
length-insert_text s [] = refl
length-insert_text s (t ∷ ts) = ground (arith, length-insert_text s ts)

length-sort_texts : (ts : List Text) → length (sort_texts ts) ≡ length ts
length-sort_texts [] = refl
length-sort_texts (t ∷ ts) =
    length-insert_text t (sort_texts ts) ∙ ground (arith, length-sort_texts ts)

all_posted-insert_text :
    (s : Text) (ts posted : List Text)
    → all_posted (insert_text s ts) posted ≡ has s posted && all_posted ts posted
all_posted-insert_text s [] posted = refl
all_posted-insert_text s (t ∷ ts) posted = ground (arith, all_posted-insert_text s ts posted)

all_posted-sort_texts :
    (ts posted : List Text) → all_posted (sort_texts ts) posted ≡ all_posted ts posted
all_posted-sort_texts [] posted = refl
all_posted-sort_texts (t ∷ ts) posted =
    all_posted-insert_text t (sort_texts ts) posted
    ∙ ground (arith, all_posted-sort_texts ts posted)

-- Every firing alert has a fingerprint among the posted ones, and there are as many.
abbrev pub IsPosted : Webhook → AlertEpisode → Type 0
IsPosted payload e =
    All (λ (a : WebhookAlert). has a.fingerprint e.fingerprints ≡ true) (firing_alerts payload)
    × (length (firing_alerts payload) ≡ length e.fingerprints)

all_posted_iff :
    (alerts : List WebhookAlert) (posted : List Text)
    → (all_posted (prints_of alerts) posted ≡ true)
      ↔ All (λ (a : WebhookAlert). has a.fingerprint posted ≡ true) alerts
all_posted_iff [] posted = (λ e. tt, λ h. refl)
all_posted_iff (a ∷ rest) posted = (
  λ e. (ground (arith, e), (all_posted_iff rest posted).0 (ground (arith, e))),
  λ (p, h). let others = (all_posted_iff rest posted).1 h in ground (arith, p, others),
)

length-prints_of : (alerts : List WebhookAlert) → length (prints_of alerts) ≡ length alerts
length-prints_of [] = refl
length-prints_of (a ∷ rest) = ground (arith, length-prints_of rest)

same_fingerprints_iff :
    (payload : Webhook) (e : AlertEpisode)
    → (same_fingerprints (firing_fingerprints payload) e.fingerprints ≡ true) ↔ IsPosted payload e
unfolding firing_fingerprints
same_fingerprints_iff payload e =
    let prints = prints_of (firing_alerts payload) in
    let as_many : length (sort_texts prints) ≡ length (firing_alerts payload) =
      length-sort_texts prints ∙ length-prints_of (firing_alerts payload) in
    rw (all_posted-sort_texts prints e.fingerprints, as_many)
      (
        λ h. (
          (all_posted_iff (firing_alerts payload) e.fingerprints).0 (ground (arith, h)),
          ground (arith, h, ==_iff (length (firing_alerts payload)) (length e.fingerprints)),
        ),
        λ (all, many).
            let covered = (all_posted_iff (firing_alerts payload) e.fingerprints).1 all in
            ground (
              arith,
              covered,
              many,
              ==_iff (length (firing_alerts payload)) (length e.fingerprints),
            ),
      )

-- What a delivery says of the notification and of the episode that is open, if any.
abbrev pub Means : Webhook → Option AlertEpisode → AlertDelivery → Type 0
Means payload current open_thread = (payload.status ≡ firing) × (current ≡ none)
Means payload current (update_thread e) =
    (payload.status ≡ firing) × (current ≡ some e) × (IsPosted payload e → ⊥)
Means payload current (resolve_thread e) = (payload.status ≡ resolved) × (current ≡ some e)
Means payload current skip =
    ((payload.status ≡ resolved) × (current ≡ none))
    ⊎ ((e : AlertEpisode) × (payload.status ≡ firing) × (current ≡ some e) × IsPosted payload e)

decide_open-Means :
    (payload : Webhook) (current : Option AlertEpisode) (status : EpisodeStatus)
    → payload.status ≡ status
    → Means payload current (decide_open payload current)
decide_open-Means payload none firing e =
    let decided : decide_open payload none ≡ open_thread = rw e refl in
    subst (Means payload none) (sym decided) (e, refl)
decide_open-Means payload none resolved e =
    let decided : decide_open payload none ≡ skip = rw e refl in
    subst (Means payload none) (sym decided) (inl (e, refl))
decide_open-Means payload (some episode) resolved e =
    let decided : decide_open payload (some episode) ≡ resolve_thread episode = rw e refl in
    subst (Means payload (some episode)) (sym decided) (e, refl)
decide_open-Means payload (some episode) firing e =
    elim (Bool-cases (same_fingerprints (firing_fingerprints payload) episode.fingerprints)) [
      | inl same ↦
          let decided : decide_open payload (some episode) ≡ skip = rw (same) (rw e refl) in
          subst (Means payload (some episode)) (sym decided)
            (inr (episode, e, refl, (same_fingerprints_iff payload episode).0 same))
      | inr new ↦
          let decided : decide_open payload (some episode) ≡ update_thread episode =
            rw (new) (rw e refl) in
          subst (Means payload (some episode)) (sym decided)
            (e, refl, λ posted. cc (new, (same_fingerprints_iff payload episode).1 posted))
    ]

-- A thread is opened for a firing notification when no episode is open; an open episode is resolved
-- by a resolved notification, and updated by a firing one exactly when some firing alert has not been
-- posted or their number has changed; nothing else is posted, whatever the order of the alerts.
pub decide_delivery-Means :
    (payload : Webhook) (episode : Option AlertEpisode)
    → Means payload (open_episode episode) (decide_delivery payload episode)
unfolding decide_delivery
decide_delivery-Means payload episode =
    decide_open-Means payload (open_episode episode) payload.status refl
