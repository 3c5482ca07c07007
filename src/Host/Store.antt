-- ===== src/Host/Store.antt =====
-- host/store.ts: the host's own state. Where it is kept (a file, the backend) is not modelled: an
-- operation leaves the state that it hands to the persistence. Times are milliseconds.
use grafana_pi_app.Prelude.{
  ℕ, ◌+◌, Bool, true, false, not, ◌&&◌, ◌||◌, Option, none, some, List, [], ◌∷◌, Text, text_eq, ltb,
  Map, lookup, insert, if◌then◌else◌,
}

pub record Pending : Type 0 where
  pub channel_id : Text
  pub thread_id : Text
  pub post_id : Text
  pub prompt : Text
  pub started_at : ℕ

pub record ThreadRecord : Type 0 where
  pub chat_id : Option Text
  pub chat_stored : Option Bool
  pub share_token : Option Text
  pub pending : Option Pending
  pub last_answer_at : Option ℕ
  pub created_at : ℕ

pub data EpisodeStatus : Type 0 where
  firing resolved : EpisodeStatus

pub record AlertEpisode : Type 0 where
  pub channel_id : Text
  pub thread_id : Text
  pub status : EpisodeStatus
  pub fingerprints : List Text
  pub update_post_id : Option Text
  pub update_posted_at : Option ℕ
  pub update_edits : Option ℕ
  pub started_at : ℕ
  pub updated_at : ℕ

pub record HostState : Type 0 where
  pub threads : Map ThreadRecord
  pub episodes : Map AlertEpisode
  pub analyses : Map ℕ

abbrev pub retention_ms : ℕ
retention_ms = 2592000000

abbrev pub is_set {ℓ} : {A : Type ℓ} → Option A → Bool
is_set none = false
is_set (some a) = true

abbrev pub or_zero : Option ℕ → ℕ
or_zero none = 0
or_zero (some n) = n

abbrev pub max : ℕ → ℕ → ℕ
max a b = if ltb a b then b else a

-- `time < now - retentionMs`
abbrev pub is_before : ℕ → ℕ → ℕ → Bool
is_before retention now time = ltb (time + retention) now

abbrev pub keeps_thread : ℕ → ℕ → ThreadRecord → Bool
keeps_thread retention now t = not (
    not (is_set t.pending) && is_before retention now (max t.created_at (or_zero t.last_answer_at)))

abbrev pub keeps_episode : ℕ → ℕ → AlertEpisode → Bool
keeps_episode retention now e = not (is_before retention now e.updated_at)

abbrev pub keeps_analysis : ℕ → ℕ → ℕ → Bool
keeps_analysis retention now time = not (is_before retention now time)

-- A loop of `prune` over the entries.
unfoldable pub keep_entries {ℓ} : {V : Type ℓ} → (V → Bool) → Map V → Map V
keep_entries keep [] = []
keep_entries keep ((k, v) ∷ rest) =
    let others = keep_entries keep rest in if keep v then (k, v) ∷ others else others

unfoldable pub prune : ℕ → ℕ → HostState → HostState
prune retention now state = record {
  threads = keep_entries (keeps_thread retention now) state.threads;
  episodes = keep_entries (keeps_episode retention now) state.episodes;
  analyses = keep_entries (keeps_analysis retention now) state.analyses;
}

-- The fields of a `Partial<ThreadRecord>`: `none` leaves the field, `some none` clears it.
pub record ThreadUpdate : Type 0 where
  pub chat_id : Option (Option Text)
  pub chat_stored : Option (Option Bool)
  pub share_token : Option (Option Text)
  pub pending : Option (Option Pending)
  pub last_answer_at : Option (Option ℕ)
  pub created_at : Option ℕ

abbrev pub set_or {ℓ} : {A : Type ℓ} → Option A → A → A
set_or none old = old
set_or (some new) old = new

unfoldable pub new_thread : ℕ → ThreadRecord
new_thread now = record {
  chat_id = none;
  chat_stored = none;
  share_token = none;
  pending = none;
  last_answer_at = none;
  created_at = now;
}

unfoldable pub updated : ThreadUpdate → ThreadRecord → ThreadRecord
updated u t = record {
  chat_id = set_or u.chat_id t.chat_id;
  chat_stored = set_or u.chat_stored t.chat_stored;
  share_token = set_or u.share_token t.share_token;
  pending = set_or u.pending t.pending;
  last_answer_at = set_or u.last_answer_at t.last_answer_at;
  created_at = set_or u.created_at t.created_at;
}

abbrev pub found_or_new : ℕ → Option ThreadRecord → ThreadRecord
found_or_new now none = new_thread now
found_or_new now (some t) = t

unfoldable pub set_thread : ℕ → ℕ → Text → ThreadUpdate → HostState → HostState
set_thread retention now key u state = prune retention now (record state {
  threads = insert key (updated u (found_or_new now (lookup key state.threads))) state.threads;
})

unfoldable pub set_episode : ℕ → ℕ → Text → AlertEpisode → HostState → HostState
set_episode retention now key e state =
    prune retention now (record state { episodes = insert key e state.episodes })

unfoldable pub set_last_analysis : ℕ → ℕ → Text → ℕ → HostState → HostState
set_last_analysis retention now name time state =
    prune retention now (record state { analyses = insert name time state.analyses })

abbrev pub has_thread : Text → Text → Map AlertEpisode → Bool
has_thread channel_id thread_id [] = false
has_thread channel_id thread_id ((k, e) ∷ rest) =
    text_eq e.channel_id channel_id && text_eq e.thread_id thread_id
    || has_thread channel_id thread_id rest

abbrev pub is_alert_thread : Text → Text → HostState → Bool
is_alert_thread channel_id thread_id state = has_thread channel_id thread_id state.episodes
