-- ===== src/ChatLog.antt =====
-- src/pages/Chat/durable: the log of a chat. fakeChatLog.ts (the in-memory backend, which states the
-- semantics of the `/chats` API) and the errors of chatLogClient.ts; `list` is not modelled.
pub mod Storage
pub mod Fencing
pub mod Rows
pub mod Delivery
pub mod Paging
pub mod Replay
pub mod Tests
use grafana_pi_app.Prelude.{
  ℕ, suc, ◌+◌, ◌-◌, Bool, true, false, not, ◌&&◌, ◌||◌, Option, none, some, List, [], ◌∷◌, ◌++◌,
  map, Text, codes, length, take, drop, filter, text_eq, starts_with, ltb, leb, ◌==◌, Map, lookup,
  insert, has, if◌then◌else◌,
}

pub data ChatLogFailure : Type 0 where
  lease sequence deleted not_found invalid unavailable : ChatLogFailure

pub data Answer {ℓ} (A : Type ℓ) : Type ℓ where
  ok : A → Answer A
  err : ChatLogFailure → Answer A

-- `body` is the row's JSON text.
pub record CommitRow : Type 0 where
  pub body : Text
  pub key : Option Text
  pub replace : Bool

pub record Commit : Type 0 where
  pub epoch : ℕ
  pub seq : ℕ
  pub digest : Text
  pub title : Option Text
  pub rows : List CommitRow

pub record Row : Type 0 where
  pub seq : ℕ
  pub idx : ℕ
  pub key : Option Text
  pub body : Text

-- Times are readings of the backend's clock.
pub record Chat : Type 0 where
  pub id : Text
  pub title : Text
  pub created_at : ℕ
  pub updated_at : ℕ
  pub epoch : ℕ
  pub last_seq : ℕ
  pub last_digest : Text
  pub is_deleted : Bool
  pub rows : List Row

pub record Copy : Type 0 where
  pub id : Text
  pub source_seq : ℕ

pub record Backend : Type 0 where
  pub chats : Map Chat
  pub commits : ℕ
  pub fail_next_commits : ℕ
  pub lose_next_responses : ℕ
  pub clock : ℕ
  pub copies : Map Copy

pub record Summary : Type 0 where
  pub id : Text
  pub title : Text
  pub created_at : ℕ
  pub updated_at : ℕ

pub record OpenedChat : Type 0 where
  pub summary : Summary
  pub epoch : ℕ
  pub last_seq : ℕ

pub record Committed : Type 0 where
  pub seq : ℕ
  pub updated_at : ℕ

pub record Page : Type 0 where
  pub rows : List Row
  pub next_cursor : Option ℕ

abbrev pub live : Option Chat → Answer Chat
live none = err not_found
live (some c) = if c.is_deleted then err deleted else ok c

-- The private method `chat`.
abbrev pub chat : Text → Backend → Answer Chat
chat id b = live (lookup id b.chats)

abbrev pub tick : Backend → Backend
tick b = record b { clock = suc b.clock }

abbrev pub summary_of : Chat → Summary
summary_of c = record {
  id = c.id;
  title = c.title;
  created_at = c.created_at;
  updated_at = c.updated_at;
}

abbrev pub opened_of : Chat → OpenedChat
opened_of c = record { summary = summary_of c; epoch = c.epoch; last_seq = c.last_seq }

abbrev pub new_chat : Text → Text → ℕ → Chat
new_chat id title now = record {
  id = id;
  title = title;
  created_at = now;
  updated_at = now;
  epoch = 0;
  last_seq = 0;
  last_digest = [];
  is_deleted = false;
  rows = [];
}

abbrev pub next_epoch : Chat → Chat
next_epoch c = record c { epoch = suc c.epoch }

abbrev pub title_or_empty : Option Text → Text
title_or_empty none = []
title_or_empty (some title) = title

abbrev pub open_found :
    Text → Option Text → Bool → Option Chat → Backend → Answer OpenedChat × Backend
open_found id title create (some c) b =
    if c.is_deleted
    then (err deleted, b)
    else (ok (opened_of (next_epoch c)), record b { chats = insert id (next_epoch c) b.chats })
open_found id title create none b =
    let c = next_epoch (new_chat id (title_or_empty title) (suc b.clock)) in
    if create
    then (ok (opened_of c), record (tick b) { chats = insert id c b.chats })
    else (err not_found, b)

unfoldable pub open_chat : Text → Option Text → Bool → Backend → Answer OpenedChat × Backend
open_chat id title create b = open_found id title create (lookup id b.chats) b

-- A page of the log; the cursor is the position that it starts from.
abbrev pub page_of : ℕ → ℕ → List Row → Page
page_of start limit rows = record {
  rows = take limit (drop start rows);
  next_cursor = if ltb (start + limit) (length rows) then some (start + limit) else none;
}

abbrev pub start_of : Option ℕ → ℕ
start_of none = 0
start_of (some start) = start

abbrev pub page_answer : Option ℕ → ℕ → Answer Chat → Answer Page
page_answer cursor limit (ok c) = ok (page_of (start_of cursor) limit c.rows)
page_answer cursor limit (err f) = err f

unfoldable pub log : Text → Option ℕ → ℕ → Backend → Answer Page
log id cursor limit b = page_answer cursor limit (chat id b)

-- Keys that are not empty, of the rows that replace earlier ones.
abbrev pub is_key : Option Text → Bool
is_key none = false
is_key (some k) = not (text_eq k [])

abbrev pub has_key : List Text → Option Text → Bool
has_key keys none = false
has_key keys (some k) = not (text_eq k []) && has k keys

abbrev pub key_of : CommitRow → Text
key_of row = elim row.key [ none ↦ [] | some k ↦ k ]

unfoldable pub replaced_keys : List CommitRow → List Text
replaced_keys rows = map key_of (filter (λ row. row.replace && is_key row.key) rows)

unfoldable pub numbered : ℕ → ℕ → List CommitRow → List Row
numbered seq idx [] = []
numbered seq idx (row ∷ rest) =
    record { seq = seq; idx = idx; key = row.key; body = row.body } ∷ numbered seq (suc idx) rest

unfoldable pub kept_rows : List CommitRow → List Row → List Row
kept_rows new rows = filter (λ row. not (has_key (replaced_keys new) row.key)) rows

abbrev pub new_title : Option Text → Text → Text
new_title none title = title
new_title (some t) title = if text_eq t [] then title else t

unfoldable pub appended : Commit → ℕ → Chat → Chat
appended c now ch = record ch {
  rows = kept_rows c.rows ch.rows ++ numbered c.seq 0 c.rows;
  last_seq = c.seq;
  last_digest = c.digest;
  updated_at = now;
  title = new_title c.title ch.title;
}

abbrev pub stored : Text → Commit → Chat → Backend → Backend
stored id c ch b = record (tick b) {
  chats = insert id (appended c (suc b.clock) ch) b.chats;
  commits = suc b.commits;
}

abbrev pub answered : Commit → ℕ → Backend → Answer Committed × Backend
answered c now b =
    if ltb 0 b.lose_next_responses
    then (err unavailable, record b { lose_next_responses = b.lose_next_responses - 1 })
    else (ok (record { seq = c.seq; updated_at = now }), b)

unfoldable pub commit_to : Text → Commit → Answer Chat → Backend → Answer Committed × Backend
commit_to id c (err f) b = (err f, b)
commit_to id c (ok ch) b =
    if not (c.epoch == ch.epoch)
    then (err lease, b)
    else if c.seq == ch.last_seq && text_eq c.digest ch.last_digest
    then (ok (record { seq = c.seq; updated_at = ch.updated_at }), b)
    else if leb c.seq ch.last_seq
    then (err sequence, b)
    else answered c (suc b.clock) (stored id c ch b)

unfoldable pub commit : Text → Commit → Backend → Answer Committed × Backend
commit id c b =
    if ltb 0 b.fail_next_commits
    then (err unavailable, record b { fail_next_commits = b.fail_next_commits - 1 })
    else commit_to id c (chat id b) b

abbrev pub rename_in : Text → Text → Answer Chat → Backend → Answer Summary × Backend
rename_in id title (err f) b = (err f, b)
rename_in id title (ok c) b =
    let renamed : Chat = record c { title = title } in
    (ok (summary_of renamed), record b { chats = insert id renamed b.chats })

unfoldable pub rename : Text → Text → Backend → Answer Summary × Backend
rename id title b = rename_in id title (chat id b) b

abbrev pub delete_found : Text → Option Chat → Backend → Backend
delete_found id none b = b
delete_found id (some c) b = record b {
  chats = insert id (record c { is_deleted = true; rows = []; title = [] }) b.chats;
}

unfoldable pub delete_chat : Text → Backend → Backend
delete_chat id b = delete_found id (lookup id b.chats) b

abbrev pub share_answer : Text → Answer Chat → Answer Text
share_answer id (ok c) = ok (codes "share-" ++ id)
share_answer id (err f) = err f

unfoldable pub share : Text → Backend → Answer Text
share id b = share_answer id (chat id b)

-- `token.replace(/^share-/, '')`
abbrev pub shared_id : Text → Text
shared_id token =
    if starts_with token (codes "share-") then drop (length (codes "share-")) token else token

-- The copy that is still there, with the sequence number of its source at that time.
abbrev pub live_copy : Option Copy → Map Chat → Option (Copy × Chat)
live_copy none chats = none
live_copy (some previous) chats = elim (lookup previous.id chats) [
  | none ↦ none
  | some c ↦ if c.is_deleted then none else some (previous, c)
]

-- `copy_id` prints the id of a copy, from the number of chats.
module _ (copy_id : ℕ → Text) where
  abbrev pub copy_new : Text → Chat → ℕ → Backend → Answer Summary × Backend
  copy_new token source now b =
      let id = copy_id (suc (length b.chats)) in
      let copied : Chat = record source {
        id = id;
        epoch = 0;
        created_at = now;
        updated_at = now;
      } in
      (
        ok (summary_of copied),
        record b {
          chats = insert id copied b.chats;
          copies = insert token (record { id = id; source_seq = source.last_seq }) b.copies;
        },
      )

  abbrev pub copy_again :
      Text → Chat → ℕ → Option (Copy × Chat) → Backend → Answer Summary × Backend
  copy_again token source now none b = copy_new token source now b
  copy_again token source now (some (previous, c)) b =
      let fresh : Chat = record c {
        title = source.title;
        last_seq = source.last_seq;
        last_digest = source.last_digest;
        rows = source.rows;
        updated_at = now;
      } in
      if source.last_seq == previous.source_seq
      then (ok (summary_of c), b)
      else if c.last_seq == previous.source_seq
      then (
        ok (summary_of fresh),
        record b {
          chats = insert previous.id fresh b.chats;
          copies = insert token (record { id = c.id; source_seq = source.last_seq }) b.copies;
        },
      )
      else copy_new token source now b

  abbrev pub copy_from : Text → Answer Chat → Backend → Answer Summary × Backend
  copy_from token (err f) b = (err f, b)
  copy_from token (ok source) b =
      copy_again token source (suc b.clock) (live_copy (lookup token b.copies) b.chats) (tick b)

  unfoldable pub copy_shared : Text → Backend → Answer Summary × Backend
  copy_shared token b = copy_from token (chat (shared_id token) b) b
