-- ===== src/ChatLog/Delivery.antt =====
-- logStorage.ts over fakeChatLog.ts: a commit is stored once, although requests fail and answers are
-- lost on the way.
use grafana_pi_app.Prelude.{
  ℕ, zero, suc, ◌+◌, ◌-◌, ◌<◌, ◌≤◌, ◌≡◌, refl, ◌∙◌, arith, Bool, true, false, Option, none, some,
  List, Text, text_eq_refl, ==_iff, lookup, insert, lookup-insert, if◌then◌else◌,
}
use grafana_pi_app.ChatLog.{
  unavailable, deleted, Answer, ok, err, Commit, Chat, Backend, Committed, chat, appended, stored,
  answered, commit_to, commit, CommitRow,
}
use grafana_pi_app.ChatLog.Storage.{
  deliver, commit_retries, Write, Storage, Saved, saved, commit_of, save,
}

-- How many requests the lost answers cost: one, since the next one finds the commit stored.
abbrev pub lost_once : ℕ → ℕ
lost_once zero = 0
lost_once (suc n) = 1

-- The chat accepts the commit as its next one.
pub record IsNext (c : Commit) (ch : Chat) : Type 0 where
  pub there : ch.is_deleted ≡ false
  pub epoch : c.epoch ≡ ch.epoch
  pub later : ch.last_seq < c.seq

pub record IsStoredOnce (id : Text) (c : Commit) (ch : Chat) (b : Backend)
    (r : Answer Committed × Backend) : Type 0 where
  pub answer : r.0 ≡ ok (record { seq = c.seq; updated_at = suc b.clock })
  pub chats : r.1.chats ≡ insert id (appended c (suc b.clock) ch) b.chats
  pub count : r.1.commits ≡ suc b.commits

chat_of-live :
    (id : Text) (ch : Chat) (b : Backend)
    → lookup id b.chats ≡ some ch
    → ch.is_deleted ≡ false
    → chat id b ≡ ok ch
chat_of-live id ch b here there = rw here (live_if ch.is_deleted there)
  where
    live_if : (gone : Bool) → gone ≡ false → (if gone then err deleted else ok ch) ≡ ok ch
    live_if true e = cc
    live_if false e = refl

-- A commit that is stored already is answered again, and changes nothing.
commit_stored_already :
    (id : Text) (c : Commit) (now : ℕ) (ch : Chat) (b : Backend)
    → b.fail_next_commits ≡ 0
    → IsNext c ch
    → lookup id b.chats ≡ some (appended c now ch)
    → commit id c b ≡ (ok (record { seq = c.seq; updated_at = now }), b)
unfolding commit commit_to appended
commit_stored_already id c now ch b reached n here =
    rw (reached, chat_of-live id (appended c now ch) b here n.there)
      (rw (n.epoch)
        (ground (arith, ==_iff ch.epoch ch.epoch, ==_iff c.seq c.seq, text_eq_refl c.digest)))

commit-failing :
    (id : Text) (c : Commit) (b : Backend)
    → 0 < b.fail_next_commits
    → commit id c b ≡ (err unavailable, record b { fail_next_commits = b.fail_next_commits - 1 })
unfolding commit
commit-failing id c b failing = ground arith

commit-reached :
    (id : Text) (c : Commit) (ch : Chat) (b : Backend)
    → b.fail_next_commits ≡ 0
    → lookup id b.chats ≡ some ch
    → IsNext c ch
    → commit id c b ≡ answered c (suc b.clock) (stored id c ch b)
unfolding commit commit_to
commit-reached id c ch b reached here n =
    let later = n.later in
    rw (reached, chat_of-live id ch b here n.there)
      (rw (n.epoch) (ground (arith, ==_iff ch.epoch ch.epoch, ==_iff c.seq ch.last_seq)))

deliver-last :
    (send : Commit → Backend → Answer Committed × Backend) (aborted : ℕ → Bool) (left : ℕ)
    (c : Commit) (b b' : Backend) (answer : Committed)
    → send c b ≡ (ok answer, b')
    → deliver send aborted left c b ≡ (ok answer, b')
unfolding deliver
deliver-last send aborted zero c b b' answer e = e
deliver-last send aborted (suc left) c b b' answer e = rw e

deliver-retry :
    (send : Commit → Backend → Answer Committed × Backend) (aborted : ℕ → Bool) (left : ℕ)
    (c : Commit) (b b' : Backend)
    → send c b ≡ (err unavailable, b')
    → aborted (suc left) ≡ false
    → deliver send aborted (suc left) c b ≡ deliver send aborted left c b'
unfolding deliver
deliver-retry send aborted left c b b' e live_still = rw (e, live_still)

abbrev unanswered : Text → Commit → Chat → Backend → Backend
unanswered id c ch b = record (stored id c ch b) { lose_next_responses = b.lose_next_responses - 1 }

-- With the answer of the first storing lost, the next attempt finds the commit stored.
deliver-lost :
    (id : Text) (c : Commit) (ch : Chat) (aborted : ℕ → Bool) (left lose : ℕ) (b : Backend)
    → lookup id b.chats ≡ some ch
    → IsNext c ch
    → ((n : ℕ) → aborted n ≡ false)
    → b.fail_next_commits ≡ 0
    → b.lose_next_responses ≡ lose
    → lost_once lose ≤ left
    → IsStoredOnce id c ch b (deliver (commit id) aborted left c b)
deliver-lost id c ch aborted left zero b here n patient reached whole enough =
    rw
      (deliver-last (commit id) aborted left c b (stored id c ch b)
        (record { seq = c.seq; updated_at = suc b.clock })
        (commit-reached id c ch b reached here n ∙ ground arith))
      (record { answer = refl; chats = refl; count = refl })
deliver-lost id c ch aborted zero (suc lose) b here n patient reached whole enough =
    absurd (omega (arith, enough))
deliver-lost id c ch aborted (suc left) (suc lose) b here n patient reached whole enough =
    rw
      (
        deliver-retry (commit id) aborted left c b (unanswered id c ch b)
            (commit-reached id c ch b reached here n ∙ ground arith) (patient (suc left)),
        deliver-last (commit id) aborted left c _ _ _ (
            commit_stored_already id c (suc b.clock) ch (unanswered id c ch b) reached n (
              lookup-insert id id (appended c (suc b.clock) ch) b.chats
              ∙ rw (text_eq_refl id) refl)),
      )
      (record { answer = refl; chats = refl; count = refl })

-- A commit that the chat accepts as its next one is stored exactly once and answered with its own
-- sequence number, when the requests that fail before the backend and the one whose answer is lost
-- are at most as many as the retries, and the caller does not abort.
pub deliver-IsStoredOnce :
    (id : Text) (c : Commit) (ch : Chat) (aborted : ℕ → Bool) (left : ℕ) (b : Backend)
    → lookup id b.chats ≡ some ch
    → IsNext c ch
    → ((n : ℕ) → aborted n ≡ false)
    → b.fail_next_commits + lost_once b.lose_next_responses ≤ left
    → IsStoredOnce id c ch b (deliver (commit id) aborted left c b)
deliver-IsStoredOnce id c ch aborted left b here n patient enough =
    failing left b.fail_next_commits b refl here enough
  where
    failing :
        (left fail : ℕ) (b : Backend)
        → b.fail_next_commits ≡ fail
        → lookup id b.chats ≡ some ch
        → b.fail_next_commits + lost_once b.lose_next_responses ≤ left
        → IsStoredOnce id c ch b (deliver (commit id) aborted left c b)
    failing left zero b e here enough =
        deliver-lost id c ch aborted left b.lose_next_responses b here n patient e refl
          (omega (arith, e, enough))
    failing zero (suc fail) b e here enough = absurd (omega (arith, e, enough))
    failing (suc left) (suc fail) b e here enough =
        let step =
          failing left fail (record b { fail_next_commits = b.fail_next_commits - 1 })
            (omega (arith, e)) here (omega (arith, e, enough)) in
        rw
          (deliver-retry (commit id) aborted left c b _ (commit-failing id c b (omega (arith, e)))
            (patient (suc left)))
          (record { answer = step.answer; chats = step.chats; count = step.count })

-- What a save that went through leaves: the commit in the chat once, and applied in memory.
pub record IsSaved {Mem : Type 0} (apply_at : Mem → List Write → ℕ → Mem) (id : Text) (c : Commit)
    (ch : Chat) (writes : List Write) (s : Storage Mem) (b : Backend)
    (r : (Saved × Storage Mem) × Backend) : Type 0 where
  pub result : r.0.0 ≡ saved c.seq
  pub memory : r.0.1.memory ≡ apply_at s.memory writes c.seq
  pub still_open : r.0.1.lost ≡ none
  pub chats : r.1.chats ≡ insert id (appended c (suc b.clock) ch) b.chats

-- A save by the storage that holds the chat appends its rows once, applies the prepared writes in
-- memory and answers with the prepared sequence number, when that number is the chat's next, no more requests fail than
-- the three retries allow, and the caller does not abort.
pub save-IsSaved :
    {Mem : Type 0} (prepare : Mem → List Write → List Write × ℕ)
    (apply_at : Mem → List Write → ℕ → Mem) (print_write : Write → Text)
    (digest_of : ℕ → List CommitRow → Text) (id : Text) (ch : Chat) (aborted : ℕ → Bool)
    (title : Option Text) (writes : List Write) (s : Storage Mem) (b : Backend)
    → s.lost ≡ none
    → lookup id b.chats ≡ some ch
    → ch.is_deleted ≡ false
    → s.opened.epoch ≡ ch.epoch
    → ch.last_seq < (prepare s.memory writes).1
    → ((n : ℕ) → aborted n ≡ false)
    → b.fail_next_commits + lost_once b.lose_next_responses ≤ commit_retries
    → IsSaved apply_at id
        (commit_of prepare apply_at print_write digest_of title
          (prepare s.memory writes).0
          (prepare s.memory writes).1
          s)
        ch
        (prepare s.memory writes).0
        s
        b
        (save prepare apply_at print_write digest_of (commit id) aborted title writes s b)
unfolding save commit_of
save-IsSaved prepare apply_at print_write digest_of id ch aborted title writes s b open_still here
      there epoch later patient enough =
    let c =
      commit_of prepare apply_at print_write digest_of title (prepare s.memory writes).0
        (prepare s.memory writes).1 s in
    let once =
      deliver-IsStoredOnce id c ch aborted commit_retries b here
        (record { there = there; epoch = epoch; later = later }) patient enough in
    rw open_still (
      rw (once.answer)
        (record { result = refl; memory = refl; still_open = refl; chats = once.chats }))
