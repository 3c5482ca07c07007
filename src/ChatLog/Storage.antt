-- ===== src/ChatLog/Storage.antt =====
-- logStorage.ts: the durable storage of one chat. pi-durable's MemoryStorage is a parameter: the type
-- of its states, what it prepares of a commit, and its state after a commit is applied. So are the
-- JSON text of a write and the digest of a commit's rows, on whose values nothing here depends.
use grafana_pi_app.Prelude.{
  ℕ, zero, suc, Bool, true, false, not, ◌&&◌, ◌||◌, Option, none, some, List, [], ◌∷◌, ◌++◌, map,
  Text, codes, text_eq, ltb, ◌==◌, has, add, if◌then◌else◌,
}
use grafana_pi_app.ChatLog.{
  ChatLogFailure, lease, deleted, invalid, unavailable, Answer, ok, err, CommitRow, Commit, Row,
  OpenedChat, Committed, Page,
}

pub data LostReason : Type 0 where
  lost_lease lost_deleted lost_failed : LostReason

-- The writes that `row` tells apart, each with its payload.
pub data Write : Type 0 where
  task : Text → Text → Write
  submission : Text → Text → Write
  document_change : Text → Bool → Text → Write
  document_create : Text → Text → Option Text → Text → Write
  other_write : Text → Write

pub record Storage (Mem : Type 0) : Type 0 where
  pub opened : OpenedChat
  pub memory : Mem
  pub current_only : List Text
  pub lost : Option LostReason
  pub title_sent : Option Text

pub data Saved : Type 0 where
  saved : ℕ → Saved
  storage_lost : LostReason → Saved

abbrev pub log_page_size : ℕ
log_page_size = 5000

-- `COMMIT_ATTEMPTS` less the first one.
abbrev pub commit_retries : ℕ
commit_retries = 3

abbrev pub text_is : Text → Option Text → Bool
text_is t none = false
text_is t (some s) = text_eq s t

unfoldable pub is_current_only : Text → Option Text → Bool
is_current_only scope history =
    not (text_eq scope (codes "conversation")) || text_is (codes "latest") history

unfoldable pub track : List Write → List Text → List Text
track [] ids = ids
track (document_create id scope history payload ∷ rest) ids =
    track rest (if is_current_only scope history then add id ids else ids)
track (task id payload ∷ rest) ids = track rest ids
track (submission id payload ∷ rest) ids = track rest ids
track (document_change id base payload ∷ rest) ids = track rest ids
track (other_write payload ∷ rest) ids = track rest ids

abbrev pub is_unavailable : Answer Committed → Bool
is_unavailable (err unavailable) = true
is_unavailable _ = false

abbrev pub reason_of : ChatLogFailure → LostReason
reason_of lease = lost_lease
reason_of deleted = lost_deleted
reason_of _ = lost_failed

-- The loop of `commit`: a failure that is not definite is tried again, `left` times at most, unless
-- the caller has aborted by then.
module _ {B : Type 0} (send : Commit → B → Answer Committed × B) where
  unfoldable pub deliver : (ℕ → Bool) → ℕ → Commit → B → Answer Committed × B
  deliver aborted zero c b = send c b
  deliver aborted (suc left) c b =
      let again = deliver aborted left c (send c b).1 in
      if is_unavailable (send c b).0 && not (aborted (suc left)) then again else send c b

module _ (print_write : Write → Text) where
  unfoldable pub row_of : List Text → Write → CommitRow
  row_of current_only (task id payload) = record {
    body = print_write (task id payload);
    key = some (codes "task:" ++ id);
    replace = true;
  }
  row_of current_only (submission id payload) = record {
    body = print_write (submission id payload);
    key = some (codes "submission:" ++ id);
    replace = true;
  }
  row_of current_only (document_change id base payload) =
      if has id current_only
      then record {
        body = print_write (document_change id base payload);
        key = some (codes "document:" ++ id);
        replace = base;
      }
      else record {
        body = print_write (document_change id base payload);
        key = none;
        replace = false;
      }
  row_of current_only (document_create id scope history payload) = record {
    body = print_write (document_create id scope history payload);
    key = none;
    replace = false;
  }
  row_of current_only (other_write payload) = record {
    body = print_write (other_write payload);
    key = none;
    replace = false;
  }

abbrev pub unsent : Option Text → Option Text → Option Text
unsent none sent = none
unsent (some title) sent = if text_eq title [] || text_is title sent then none else some title

abbrev pub sent_after : Option Text → Option Text → Option Text
sent_after none sent = sent
sent_after (some title) sent = some title

module _ {Mem : Type 0} (prepare : Mem → List Write → List Write × ℕ)
    (apply_at : Mem → List Write → ℕ → Mem) where
  module _ (print_write : Write → Text) (digest_of : ℕ → List CommitRow → Text) where
    unfoldable pub commit_of : Option Text → List Write → ℕ → Storage Mem → Commit
    commit_of title writes seq s = record {
      epoch = s.opened.epoch;
      seq = seq;
      digest = digest_of seq (map (row_of print_write s.current_only) writes);
      title = unsent title s.title_sent;
      rows = map (row_of print_write s.current_only) writes;
    }

  abbrev pub settle : Commit → List Write → Answer Committed → Storage Mem → Saved × Storage Mem
  settle c writes (err f) s = (storage_lost (reason_of f), record s { lost = some (reason_of f) })
  settle c writes (ok answer) s = (
    saved c.seq,
    record s {
      title_sent = sent_after c.title s.title_sent;
      current_only = track writes s.current_only;
      memory = apply_at s.memory writes c.seq;
    },
  )

  module _ (print_write : Write → Text) (digest_of : ℕ → List CommitRow → Text) {B : Type 0}
      (send : Commit → B → Answer Committed × B) where
    abbrev pub commit_prepared :
        (ℕ → Bool) → Option Text → List Write → ℕ → Storage Mem → B → (Saved × Storage Mem) × B
    commit_prepared aborted title writes seq s b =
        let c = commit_of print_write digest_of title writes seq s in
        let delivered = deliver send aborted commit_retries c b in
        (settle c writes delivered.0 s, delivered.1)

    -- `LogStorage.commit`
    unfoldable pub save :
        (ℕ → Bool) → Option Text → List Write → Storage Mem → B → (Saved × Storage Mem) × B
    save aborted title writes s b = elim s.lost [
      | some reason ↦ ((storage_lost reason, s), b)
      | none ↦
          commit_prepared aborted title (prepare s.memory writes).0 (prepare s.memory writes).1 s b
    ]

  -- The state of `replay`: the writes of the commit at hand, and what the earlier ones left.
  pub record Replayed : Type 0 where
    pub batch : Option (ℕ × List Write)
    pub current_only : List Text
    pub memory : Mem

  unfoldable pub apply_batch : Replayed → Replayed
  apply_batch r = elim r.batch [
    | none ↦ r
    | some (seq, writes) ↦ record r {
      current_only = track writes r.current_only;
      memory = apply_at r.memory writes seq;
    }
  ]

  abbrev pub is_batch : ℕ → Option (ℕ × List Write) → Bool
  is_batch seq none = false
  is_batch seq (some (s, writes)) = s == seq

  abbrev pub push_write : Write → ℕ → Option (ℕ × List Write) → Option (ℕ × List Write)
  push_write write seq none = some (seq, write ∷ [])
  push_write write seq (some (s, writes)) = some (s, writes ++ write ∷ [])

  module _ (parse_write : Text → Write) where
    unfoldable pub replay_row : Row → Replayed → Replayed
    replay_row row r =
        if is_batch row.seq r.batch
        then record r { batch = push_write (parse_write row.body) row.seq r.batch }
        else record (apply_batch r) { batch = some (row.seq, parse_write row.body ∷ []) }

    unfoldable pub replay_rows : List Row → Replayed → Replayed
    replay_rows [] r = r
    replay_rows (row ∷ rest) r = replay_rows rest (replay_row row r)

    module _ (fetch : Option ℕ → ℕ → Answer Page) where
      -- The loop over the pages, on fuel; `invalid` stands for no fuel left.
      unfoldable pub replay_pages : ℕ → ℕ → Option ℕ → Replayed → Answer Replayed
      replay_pages zero limit cursor r = err invalid
      replay_pages (suc fuel) limit cursor r = elim (fetch cursor limit) [
        | err f ↦ err f
        | ok page ↦ elim page.next_cursor [
          | none ↦ ok (replay_rows page.rows r)
          | some next ↦ replay_pages fuel limit (some next) (replay_rows page.rows r)
        ]
      ]

  abbrev pub batch_seq : Option (ℕ × List Write) → ℕ
  batch_seq none = 0
  batch_seq (some (seq, writes)) = seq

  -- A last commit without rows still consumed its sequence number.
  unfoldable pub finish : ℕ → Replayed → Replayed
  finish last_seq r =
      if ltb (batch_seq r.batch) last_seq
      then record (apply_batch r) { memory = apply_at (apply_batch r).memory [] last_seq }
      else apply_batch r
