-- ===== src/Host/Retention.antt =====
-- host/store.ts: what the writes keep of the host's state.
use grafana_pi_app.Prelude.{
  ℕ, ◌≡◌, refl, ◌∙◌, Bool, true, Option, none, some, [], ◌∷◌, Text, text_eq, text_eq_sound,
  text_eq_refl, Map, lookup, insert, lookup-insert, Unique, Unique-insert, Bool-cases, inl, inr,
  if◌then◌else◌, List, All,
}
use grafana_pi_app.Host.Store.{
  Pending, ThreadRecord, HostState, AlertEpisode, keeps_thread, keep_entries, prune, set_episode,
  set_last_analysis, ThreadUpdate, found_or_new, updated, set_thread,
}

abbrev pub kept {ℓ} : {V : Type ℓ} → (V → Bool) → Option V → Option V
kept keep none = none
kept keep (some v) = if keep v then some v else none

module _ {ℓ} {V : Type ℓ} (keep : V → Bool) where
  lookup-keep_entries :
      (k : Text) (m : Map V) → Unique m → lookup k (keep_entries keep m) ≡ kept keep (lookup k m)
  unfolding lookup keep_entries
  lookup-keep_entries k [] u = refl
  lookup-keep_entries k ((j, v) ∷ m) (absent, u) = elim (Bool-cases (text_eq j k)) [
    | inl same ↦ elim (Bool-cases (keep v)) [
      | inl stays ↦ rw (same, stays) (rw same refl)
      | inr goes ↦
          rw (same, goes)
            (lookup-keep_entries k m u ∙ rw (rw (text_eq_sound j k same) at absent) refl)
    ]
    | inr other ↦ elim (Bool-cases (keep v)) [
      | inl stays ↦ rw (other, stays) (rw other (lookup-keep_entries k m u))
      | inr goes ↦ rw (other, goes) (lookup-keep_entries k m u)
    ]
  ]

  Unique-keep_entries : (m : Map V) → Unique m → Unique (keep_entries keep m)
  unfolding keep_entries
  Unique-keep_entries [] u = tt
  Unique-keep_entries ((j, v) ∷ m) (absent, u) = elim (Bool-cases (keep v)) [
    | inl stays ↦ rw stays (lookup-keep_entries j m u ∙ rw absent refl, Unique-keep_entries m u)
    | inr goes ↦ rw goes (Unique-keep_entries m u)
  ]

abbrev written : ℕ → Text → ThreadUpdate → HostState → ThreadRecord
written now key u state = updated u (found_or_new now (lookup key state.threads))

threads-set_thread :
    (retention now : ℕ) (key other : Text) (u : ThreadUpdate) (state : HostState)
    → Unique state.threads
    → lookup other (set_thread retention now key u state).threads
      ≡ kept
          (keeps_thread retention now)
          (if text_eq key other then some (written now key u state) else lookup other state.threads)
unfolding set_thread prune
threads-set_thread retention now key other u state ut =
    lookup-keep_entries (keeps_thread retention now) other
      (insert key (written now key u state) state.threads)
      (Unique-insert key (written now key u state) state.threads ut)
    ∙ rw (lookup-insert key other (written now key u state) state.threads) refl

Unique-set_thread :
    (retention now : ℕ) (key : Text) (u : ThreadUpdate) (state : HostState)
    → Unique state.threads
    → Unique (set_thread retention now key u state).threads
unfolding set_thread prune
Unique-set_thread retention now key u state ut =
    Unique-keep_entries (keeps_thread retention now)
      (insert key (written now key u state) state.threads)
      (Unique-insert key (written now key u state) state.threads ut)

keeps-pending :
    (retention now : ℕ) (u : ThreadUpdate) (t : ThreadRecord) (run : Pending)
    → u.pending ≡ some (some run)
    → keeps_thread retention now (updated u t) ≡ true
unfolding updated
keeps-pending retention now u t run pending = rw pending refl

pending-updated :
    (u : ThreadUpdate) (t : ThreadRecord) → u.pending ≡ none → (updated u t).pending ≡ t.pending
unfolding updated
pending-updated u t same = rw same refl

updated-pending :
    (u : ThreadUpdate) (t : ThreadRecord) {run : Pending}
    → u.pending ≡ some (some run)
    → (updated u t).pending ≡ some run
unfolding updated
updated-pending u t set = rw set refl

-- The record of a thread with its run.
pub record IsWaiting (key : Text) (run : Pending) (state : HostState) : Type 0 where
  pub unique : Unique state.threads
  pub thread : ThreadRecord
  pub here : lookup key state.threads ≡ some thread
  pub pending : thread.pending ≡ some run

-- A write of the host, at a time.
pub data HostWrite : Type 0 where
  thread_write : ℕ → Text → ThreadUpdate → HostWrite
  episode_write : ℕ → Text → AlertEpisode → HostWrite
  analysis_write : ℕ → Text → ℕ → HostWrite

module _ (retention : ℕ) where
  abbrev pub apply_write : HostWrite → HostState → HostState
  apply_write (thread_write now key u) state = set_thread retention now key u state
  apply_write (episode_write now key e) state = set_episode retention now key e state
  apply_write (analysis_write now name time) state = set_last_analysis retention now name time state

  abbrev pub apply_writes : List HostWrite → HostState → HostState
  apply_writes [] state = state
  apply_writes (w ∷ rest) state = apply_writes rest (apply_write w state)

  keeps_waiting :
      (now : ℕ) (t : ThreadRecord) (run : Pending)
      → t.pending ≡ some run
      → keeps_thread retention now t ≡ true
  keeps_waiting now t run pending = rw pending refl

  module _ (key : Text) (run : Pending) where
    -- The write does not touch the thread's run.
    abbrev pub LeavesRun : HostWrite → Type 0
    LeavesRun (thread_write now k u) = text_eq k key ≡ true → u.pending ≡ none
    LeavesRun _ = Unit {0}

    -- What pruning leaves of a thread that waits.
    pruned_thread :
        (now : ℕ) (threads : Map ThreadRecord) (t : ThreadRecord)
        → Unique threads
        → lookup key threads ≡ some t
        → t.pending ≡ some run
        → lookup key (keep_entries (keeps_thread retention now) threads) ≡ some t
    pruned_thread now threads t u here pending =
        lookup-keep_entries (keeps_thread retention now) key threads u
        ∙ rw here (rw (keeps_waiting now t run pending) refl)

    apply_write-IsWaiting :
        (w : HostWrite) (state : HostState)
        → LeavesRun w
        → IsWaiting key run state
        → IsWaiting key run (apply_write w state)
    unfolding set_episode set_last_analysis prune
    apply_write-IsWaiting (episode_write now k e) state n h = record {
      unique = Unique-keep_entries (keeps_thread retention now) state.threads h.unique;
      thread = h.thread;
      here = pruned_thread now state.threads h.thread h.unique h.here h.pending;
      pending = h.pending;
    }
    apply_write-IsWaiting (analysis_write now name time) state n h = record {
      unique = Unique-keep_entries (keeps_thread retention now) state.threads h.unique;
      thread = h.thread;
      here = pruned_thread now state.threads h.thread h.unique h.here h.pending;
      pending = h.pending;
    }
    apply_write-IsWaiting (thread_write now k u) state n h = elim (Bool-cases (text_eq k key)) [
      | inr other ↦ record {
        unique = Unique-set_thread retention now k u state h.unique;
        thread = h.thread;
        here =
            threads-set_thread retention now k key u state h.unique
            ∙ rw other (rw (h.here) (rw (keeps_waiting now h.thread run h.pending) refl));
        pending = h.pending;
      }
      | inl same ↦
          let kept_run : (updated u h.thread).pending ≡ some run =
            pending-updated u h.thread (n same) ∙ h.pending in
          record {
            unique = Unique-set_thread retention now k u state h.unique;
            thread = updated u h.thread;
            here =
                threads-set_thread retention now k key u state h.unique
                ∙ rw same (
                    rw (text_eq_sound k key same) (
                      rw (h.here) (rw (keeps_waiting now (updated u h.thread) run kept_run) refl)));
            pending = kept_run;
          }
    ]

    apply_writes-IsWaiting :
        (writes : List HostWrite) (state : HostState)
        → All LeavesRun writes
        → IsWaiting key run state
        → IsWaiting key run (apply_writes writes state)
    apply_writes-IsWaiting [] state leaves h = h
    apply_writes-IsWaiting (w ∷ rest) state (leave, leaves) h =
        apply_writes-IsWaiting rest (apply_write w state) leaves
          (apply_write-IsWaiting w state leave h)

    -- A run that is recorded as pending is there, whatever is written later and however old the thread
    -- gets, until a write changes the pending run of that thread.
    pub apply_writes-pending :
        (now : ℕ) (u : ThreadUpdate) (state : HostState) (writes : List HostWrite)
        → Unique state.threads
        → u.pending ≡ some (some run)
        → All LeavesRun writes
        → IsWaiting key run (apply_writes writes (set_thread retention now key u state))
    apply_writes-pending now u state writes ut pending leaves =
        apply_writes-IsWaiting writes (set_thread retention now key u state) leaves (record {
          unique = Unique-set_thread retention now key u state ut;
          thread = written now key u state;
          here =
              threads-set_thread retention now key key u state ut
              ∙ rw (text_eq_refl key) (rw (keeps-pending retention now u _ run pending) refl);
          pending = updated-pending u _ pending;
        })
