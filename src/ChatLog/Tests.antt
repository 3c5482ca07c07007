-- ===== src/ChatLog/Tests.antt =====
-- The chat log and its storage on concrete commits.
use grafana_pi_app.Prelude.{
  append-nil, suc, ◌<◌, ◌++◌, List, ℕ, ◌≡◌, refl, arith, true, false, List, [], ◌∷◌, none, some,
  Text, codes, lookup, insert, has, text_eq, starts_with, length,
}
use grafana_pi_app.ChatLog.{
  ok, err, lease, sequence, Commit, CommitRow, Backend, OpenedChat, open_chat, commit, commit_to,
  appended, kept_rows, replaced_keys, numbered, new_chat, next_epoch, copy_shared, log, rename,
  delete_chat,
}
use grafana_pi_app.ChatLog.Storage.{
  Write, other_write, Storage, deliver, save, commit_of, row_of, track, apply_batch, finish,
  replay_rows, replay_row, replay_pages,
}
use grafana_pi_app.ChatLog.Fencing.{
  open_again, commit_rows, copy_one, Request, serve_all, IsRefused, commit_after-open_chat,
}
use grafana_pi_app.ChatLog.Rows.{Logs, Logs-serve_all, IsPruned, appended-IsPruned}
use grafana_pi_app.ChatLog.Delivery.{IsStoredOnce, deliver-IsStoredOnce, IsSaved, save-IsSaved}
use grafana_pi_app.ChatLog.Paging.{replay_pages-log}
use grafana_pi_app.ChatLog.Replay.{IsPlain, append_all, nothing, replay-append_all}

chat_logs : Unit {0}
unfolding lookup insert has text_eq starts_with open_chat commit commit_to appended kept_rows
    replaced_keys numbered copy_shared log rename delete_chat deliver save commit_of row_of track
    apply_batch finish replay_rows replay_row replay_pages
chat_logs = tt

abbrev a_chat : Text
a_chat = codes "a"

abbrev empty : Backend
empty = record {
  chats = [];
  commits = 0;
  fail_next_commits = 0;
  lose_next_responses = 0;
  clock = 0;
  copies = [];
}

abbrev opened : OpenedChat × Backend
opened = (
  record {
    summary = record { id = a_chat; title = []; created_at = 1; updated_at = 1 };
    epoch = 1;
    last_seq = 0;
  },
  record empty { chats = (a_chat, next_epoch (new_chat a_chat [] 1)) ∷ []; clock = 1 },
)

abbrev plain_row : Text → CommitRow
plain_row body = record { body = body; key = none; replace = false }

abbrev keyed_row : Text → CommitRow
keyed_row body = record { body = body; key = some (codes "task:1"); replace = true }

abbrev nth_commit : ℕ → Commit
nth_commit n = record {
  epoch = 1;
  seq = n;
  digest = codes "d";
  title = none;
  rows = keyed_row (codes "x") ∷ plain_row (codes "y") ∷ [];
}

abbrev flaky : Backend
flaky = record (opened.1) { fail_next_commits = 2; lose_next_responses = 4 }

commit_tests :
    ((commit a_chat (nth_commit 1) opened.1).0 ≡ ok (record { seq = 1; updated_at = 2 }))
    × ((commit a_chat (record (nth_commit 1) { epoch = 2 }) opened.1).0 ≡ err lease)
    × ((commit a_chat (nth_commit 0) opened.1).0 ≡ err sequence)
    × (length (appended (nth_commit 2) 5 (appended (nth_commit 1) 4 (new_chat a_chat [] 1))).rows
        ≡ 3)
    × ((open_chat a_chat none false opened.1).1.chats
        ≡ (a_chat, next_epoch (next_epoch (new_chat a_chat [] 1))) ∷ [])
unfolding chat_logs
commit_tests = (refl, refl, refl, refl, refl)

abbrev copy_name : ℕ → Text
copy_name n = codes "copy-" ++ n ∷ []

abbrev between : List Request
between = commit_rows a_chat (nth_commit 7) ∷ copy_one (codes "share-a") ∷ []

commit_after-open_chat_example :
    IsRefused
      (commit a_chat
        (nth_commit 1)
        (serve_all copy_name between (open_chat a_chat none false opened.1).1))
      (serve_all copy_name between (open_chat a_chat none false opened.1).1)
unfolding chat_logs
commit_after-open_chat_example =
    commit_after-open_chat copy_name a_chat none none true false empty opened.1
      (open_chat a_chat none false opened.1).1 opened.0 (record (opened.0) { epoch = 2 })
      (nth_commit 1) between (λ k later. refl) refl refl refl

abbrev some_requests : List Request
some_requests =
    open_again a_chat none true
    ∷ commit_rows a_chat (nth_commit 1)
    ∷ copy_one (codes "share-a")
    ∷ []

Logs-serve_all_example : Logs (serve_all copy_name some_requests empty).chats
unfolding lookup
Logs-serve_all_example = Logs-serve_all copy_name some_requests empty (λ id c e. cc)

appended-IsPruned_example :
    IsPruned
      (nth_commit 2)
      (appended (nth_commit 1) 4 (new_chat a_chat [] 1)).rows
      (appended (nth_commit 2) 5 (appended (nth_commit 1) 4 (new_chat a_chat [] 1))).rows
appended-IsPruned_example =
    appended-IsPruned (nth_commit 2) 5 (appended (nth_commit 1) 4 (new_chat a_chat [] 1))

deliver-IsStoredOnce_example :
    IsStoredOnce a_chat
      (nth_commit 1)
      (next_epoch (new_chat a_chat [] 1))
      flaky
      (deliver (commit a_chat) (λ n. false) 3 (nth_commit 1) flaky)
unfolding chat_logs
deliver-IsStoredOnce_example =
    deliver-IsStoredOnce a_chat (nth_commit 1) (next_epoch (new_chat a_chat [] 1)) (λ n. false) 3
      flaky refl (record { there = refl; epoch = refl; later = omega arith }) (λ n. refl)
      (omega arith)

-- A memory that keeps the writes of each commit, as the library's may.
abbrev Memory : Type 0
Memory = List (ℕ × List Write)

abbrev prepare : Memory → List Write → List Write × ℕ
prepare memory writes = (writes, 1)

abbrev apply_at : Memory → List Write → ℕ → Memory
apply_at memory writes seq = (seq, writes) ∷ memory

abbrev print_write : Write → Text
print_write (other_write body) = body
print_write _ = []

abbrev digest_of : ℕ → List CommitRow → Text
digest_of seq rows = codes "d"

abbrev storage : Storage Memory
storage = record {
  opened = opened.0;
  memory = [];
  current_only = [];
  lost = none;
  title_sent = none;
}

abbrev one_write : List Write
one_write = other_write (codes "x") ∷ []

save-IsSaved_example :
    IsSaved apply_at a_chat
      (commit_of prepare apply_at print_write digest_of none one_write 1 storage)
      (next_epoch (new_chat a_chat [] 1))
      one_write
      storage
      flaky
      (save prepare apply_at print_write digest_of
        (commit a_chat)
        (λ n. false)
        none
        one_write
        storage
        flaky)
unfolding chat_logs
save-IsSaved_example =
    save-IsSaved prepare apply_at print_write digest_of a_chat (next_epoch (new_chat a_chat [] 1))
      (λ n. false) none one_write storage flaky refl refl refl refl (omega arith) (λ n. refl)
      (omega arith)

replay_pages-log_example :
    replay_pages prepare apply_at other_write
      (λ cursor size. log a_chat cursor size opened.1)
      9
      1
      none
      (nothing prepare apply_at other_write [])
    ≡ ok (replay_rows prepare apply_at other_write [] (nothing prepare apply_at other_write []))
unfolding chat_logs
replay_pages-log_example =
    replay_pages-log prepare apply_at other_write a_chat (next_epoch (new_chat a_chat [] 1))
      opened.1 1 9 (nothing prepare apply_at other_write []) refl (omega arith) (omega arith)

abbrev plain_commit : ℕ → Commit
plain_commit n = record {
  epoch = 1;
  seq = n;
  digest = codes "d";
  title = none;
  rows = plain_row (codes "x") ∷ [];
}

IsPlain-plain_commit : (n : ℕ) → IsPlain (plain_commit n)
unfolding chat_logs
IsPlain-plain_commit n = refl

abbrev empty_commit : ℕ → Commit
empty_commit n = record (plain_commit n) { rows = [] }

IsPlain-empty_commit : (n : ℕ) → IsPlain (empty_commit n)
unfolding chat_logs
IsPlain-empty_commit n = refl

-- A memory of all writes and the last sequence number.
abbrev Total : Type 0
Total = ℕ × List Write

abbrev prepare_total : Total → List Write → List Write × ℕ
prepare_total memory writes = (writes, suc memory.0)

abbrev apply_total : Total → List Write → ℕ → Total
apply_total memory writes n = (n, memory.1 ++ writes)

empty_total :
    (memory : Total) (writes : List Write) (n m : ℕ)
    → n < m
    → apply_total (apply_total memory [] n) writes m ≡ apply_total memory writes m
empty_total memory writes n m later = rw (append-nil memory.1) refl

-- The commits 2 and 4 have no rows.
abbrev some_commits : List Commit
some_commits = plain_commit 1 ∷ empty_commit 2 ∷ plain_commit 3 ∷ empty_commit 4 ∷ []

replay-append_all_example :
    (finish prepare_total apply_total (append_all some_commits (new_chat a_chat [] 1)).last_seq (
      replay_rows prepare_total apply_total other_write
        (append_all some_commits (new_chat a_chat [] 1)).rows
        (nothing prepare_total apply_total other_write (0, [])))).memory
    ≡ (4, one_write ++ one_write)
replay-append_all_example =
    replay-append_all prepare_total apply_total other_write empty_total some_commits a_chat [] 1
      (0, [])
      (
        IsPlain-plain_commit 1,
        (IsPlain-empty_commit 2, (IsPlain-plain_commit 3, (IsPlain-empty_commit 4, tt))),
      )
      (omega arith, (omega arith, (omega arith, (omega arith, tt))))
