-- ===== src/ChatLog/Replay.antt =====
-- logStorage.ts, `replay`: replaying the log of plain commits gives the memory that they left.
use grafana_pi_app.Prelude.{
  ℕ, suc, ◌<◌, ◌≤◌, ◌≡◌, refl, sym, ap, Bool-cases, inl, inr, ◌∙◌, arith, true, false, not, Option,
  none, some, List, [], ◌∷◌, ◌++◌, Text, ◌==◌, ==_iff, ltb, filter, All, append_assoc, append-nil,
  has,
}
use grafana_pi_app.ChatLog.{
  CommitRow, Commit, Row, Chat, has_key, replaced_keys, numbered, kept_rows, appended, new_chat,
}
use grafana_pi_app.ChatLog.Paging.{replay_rows-append}
use grafana_pi_app.ChatLog.Storage.{
  Write, Replayed, apply_batch, is_batch, push_write, replay_row, replay_rows, batch_seq, finish,
}

-- None of the commit's rows replaces earlier ones.
abbrev pub IsPlain : Commit → Type 0
IsPlain c = replaced_keys c.rows ≡ []

abbrev pub Increasing : ℕ → List Commit → Type 0
Increasing n [] = Unit
Increasing n (c ∷ rest) = (n < c.seq) × Increasing c.seq rest

-- The chat after the commits, and its last sequence number.
abbrev pub append_all : List Commit → Chat → Chat
append_all [] ch = ch
append_all (c ∷ rest) ch = append_all rest (appended c 0 ch)

has_key-nothing : (key : Option Text) → has_key [] key ≡ false
unfolding has
has_key-nothing none = refl
has_key-nothing (some k) = ground arith

filter_all : (rows : List Row) → filter (λ row. not (has_key [] (Row.key row))) rows ≡ rows
filter_all [] = refl
filter_all (r ∷ rest) = rw (has_key-nothing r.key) (ap (λ (l : List Row). r ∷ l) (filter_all rest))

rows-appended :
    (c : Commit) (ch : Chat)
    → IsPlain c
    → (appended c 0 ch).rows ≡ ch.rows ++ numbered c.seq 0 c.rows
unfolding appended kept_rows
rows-appended c ch h = rw (h, filter_all ch.rows) refl

module _ {Mem : Type 0} (prepare : Mem → List Write → List Write × ℕ)
    (apply_at : Mem → List Write → ℕ → Mem) (parse_write : Text → Write) where
  abbrev pub writes_of : List CommitRow → List Write
  writes_of [] = []
  writes_of (row ∷ rest) = parse_write row.body ∷ writes_of rest

  -- What the writer had in memory after the commits.
  abbrev pub apply_all : List Commit → Mem → Mem
  apply_all [] memory = memory
  apply_all (c ∷ rest) memory = apply_all rest (apply_at memory (writes_of c.rows) c.seq)

  abbrev replay : List Row → Replayed prepare apply_at → Replayed prepare apply_at
  replay rows r = replay_rows prepare apply_at parse_write rows r

  abbrev batched : ℕ → List Write → Replayed prepare apply_at → Replayed prepare apply_at
  batched seq writes r = record r { batch = some (seq, writes) }

  replay_row-same :
      (row : Row) (r : Replayed prepare apply_at)
      → is_batch prepare apply_at row.seq r.batch ≡ true
      → replay_row prepare apply_at parse_write row r
        ≡ record r { batch = push_write prepare apply_at (parse_write row.body) row.seq r.batch }
  unfolding replay_row
  replay_row-same row r same = rw same

  replay_row-new :
      (row : Row) (r : Replayed prepare apply_at)
      → is_batch prepare apply_at row.seq r.batch ≡ false
      → replay_row prepare apply_at parse_write row r
        ≡ batched row.seq (parse_write row.body ∷ []) (apply_batch prepare apply_at r)
  unfolding replay_row
  replay_row-new row r new = rw new

  -- The rows behind the first of a commit join its batch.
  replay-numbered :
      (seq idx : ℕ) (rows : List CommitRow) (writes : List Write) (r : Replayed prepare apply_at)
      → replay (numbered seq idx rows) (batched seq writes r)
        ≡ batched seq (writes ++ writes_of rows) r
  unfolding replay_rows numbered
  replay-numbered seq idx [] writes r = rw (append-nil writes) refl
  replay-numbered seq idx (row ∷ rest) writes r =
      let same : (seq == seq) ≡ true = ground (arith, ==_iff seq seq) in
      ap (replay (numbered seq (suc idx) rest)) (
        replay_row-same (record { seq = seq; idx = idx; key = row.key; body = row.body })
          (batched seq writes r) same)
      ∙ replay-numbered seq (suc idx) rest (writes ++ parse_write row.body ∷ []) r
      ∙ rw (append_assoc writes (parse_write row.body ∷ []) (writes_of rest)) refl

  is_batch-fresh :
      (seq : ℕ) (batch : Option (ℕ × List Write))
      → batch_seq prepare apply_at batch < seq
      → is_batch prepare apply_at seq batch ≡ false
  is_batch-fresh seq none h = refl
  is_batch-fresh seq (some (s, writes)) h = ground (arith, ==_iff s seq, h)

  replay-commit :
      (c : Commit) (first : CommitRow) (others : List CommitRow) (r : Replayed prepare apply_at)
      → c.rows ≡ first ∷ others
      → batch_seq prepare apply_at r.batch < c.seq
      → replay (numbered c.seq 0 c.rows) r
        ≡ batched c.seq (writes_of c.rows) (apply_batch prepare apply_at r)
  unfolding replay_rows numbered
  replay-commit c first others r not_empty later = rw not_empty (
      ap (replay (numbered c.seq 1 others)) (
        replay_row-new (record { seq = c.seq; idx = 0; key = first.key; body = first.body }) r
          (is_batch-fresh c.seq r.batch later))
      ∙ replay-numbered c.seq 1 others (parse_write first.body ∷ [])
          (apply_batch prepare apply_at r))

  memory_of : Replayed prepare apply_at → Mem
  memory_of r = (apply_batch prepare apply_at r).memory

  memory_of-batched :
      (seq : ℕ) (writes : List Write) (r : Replayed prepare apply_at)
      → memory_of (batched seq writes r) ≡ apply_at r.memory writes seq
  unfolding memory_of apply_batch
  memory_of-batched seq writes r = refl

  finished : ℕ → Replayed prepare apply_at → Mem
  finished n r = (finish prepare apply_at n r).memory

  finished-last :
      (n : ℕ) (r : Replayed prepare apply_at)
      → batch_seq prepare apply_at r.batch ≡ n
      → finished n r ≡ memory_of r
  unfolding finish finished memory_of
  finished-last n r e =
      let last : ltb (batch_seq prepare apply_at r.batch) n ≡ false = ground (arith, e) in
      rw (finished, last) refl

  finished-before :
      (n : ℕ) (r : Replayed prepare apply_at)
      → batch_seq prepare apply_at r.batch < n
      → finished n r ≡ apply_at (memory_of r) [] n
  unfolding finish finished memory_of
  finished-before n r h =
      let last : ltb (batch_seq prepare apply_at r.batch) n ≡ true = ground (arith, h) in
      rw (finished, last) refl

  abbrev pub nothing : Mem → Replayed prepare apply_at
  nothing memory = record { batch = none; current_only = []; memory = memory }

  -- The memory takes a commit without writes for its sequence number only.
  module _
      (empty_law : (memory : Mem) (writes : List Write) (n m : ℕ)
        → n < m
        → apply_at (apply_at memory [] n) writes m ≡ apply_at memory writes m) where
    apply_at-finished :
        (n m : ℕ) (writes : List Write) (r : Replayed prepare apply_at)
        → batch_seq prepare apply_at r.batch ≤ n
        → n < m
        → apply_at (finished n r) writes m ≡ apply_at (memory_of r) writes m
    apply_at-finished n m writes r le later =
        elim (Bool-cases (ltb (batch_seq prepare apply_at r.batch) n)) [
          | inl below ↦
              ap (λ (x : Mem). apply_at x writes m) (finished-before n r (ground (arith, below)))
              ∙ empty_law (memory_of r) writes n m later
          | inr same ↦
              ap (λ (x : Mem). apply_at x writes m) (finished-last n r (ground (arith, same, le)))
        ]

    -- What replaying the rows of a chat comes to.
    record IsReplay (ch : Chat) (start : Replayed prepare apply_at) (memory : Mem) : Type 0 where
      memory_is : finished ch.last_seq (replay ch.rows start) ≡ memory
      seq_le : batch_seq prepare apply_at (replay ch.rows start).batch ≤ ch.last_seq

    IsReplay-empty :
        (c : Commit) (ch : Chat) (start : Replayed prepare apply_at) (memory : Mem)
        → c.rows ≡ []
        → IsPlain c
        → ch.last_seq < c.seq
        → IsReplay ch start memory
        → IsReplay (appended c 0 ch) start (apply_at memory (writes_of c.rows) c.seq)
    IsReplay-empty c ch start memory empty p above h =
        let r = replay ch.rows start in
        let rows_same : (appended c 0 ch).rows ≡ ch.rows =
          rows-appended c ch p ∙ rw empty (unfold numbered in append-nil ch.rows) in
        let seq_is : (appended c 0 ch).last_seq ≡ c.seq = unfold appended in refl in
        let below : batch_seq prepare apply_at r.batch < c.seq = omega (arith, h.seq_le, above) in
        record {
          memory_is =
              rw (rows_same, seq_is, empty)
                (finished-before c.seq r below
                  ∙ sym (apply_at-finished ch.last_seq c.seq [] r h.seq_le above)
                  ∙ ap (λ (x : Mem). apply_at x [] c.seq) h.memory_is);
          seq_le = rw (rows_same, seq_is) (omega (arith, below));
        }

    IsReplay-rows :
        (c : Commit) (first : CommitRow) (others : List CommitRow) (ch : Chat)
        (start : Replayed prepare apply_at) (memory : Mem)
        → c.rows ≡ first ∷ others
        → IsPlain c
        → ch.last_seq < c.seq
        → IsReplay ch start memory
        → IsReplay (appended c 0 ch) start (apply_at memory (writes_of c.rows) c.seq)
    unfolding apply_batch memory_of
    IsReplay-rows c first others ch start memory not_empty p above h =
        let r = replay ch.rows start in
        let seq_is : (appended c 0 ch).last_seq ≡ c.seq = unfold appended in refl in
        let below : batch_seq prepare apply_at r.batch < c.seq = omega (arith, h.seq_le, above) in
        let replayed : replay (appended c 0 ch).rows start
            ≡ batched c.seq (writes_of c.rows) (apply_batch prepare apply_at r) =
          rw
            (
              rows-appended c ch p,
              replay_rows-append prepare apply_at parse_write ch.rows (numbered c.seq 0 c.rows)
                  start,
            )
            (replay-commit c first others r not_empty below) in
        let settled : apply_at (memory_of r) (writes_of c.rows) c.seq
            ≡ apply_at (finished ch.last_seq r) (writes_of c.rows) c.seq =
          sym (apply_at-finished ch.last_seq c.seq (writes_of c.rows) r h.seq_le above) in
        record {
          memory_is =
              rw (replayed, seq_is)
                (finished-last c.seq _ refl
                  ∙ memory_of-batched c.seq (writes_of c.rows) (apply_batch prepare apply_at r)
                  ∙ settled
                  ∙ ap (λ (x : Mem). apply_at x (writes_of c.rows) c.seq) h.memory_is);
          seq_le = rw (replayed, seq_is) (omega arith);
        }

    IsReplay-appended :
        (c : Commit) (ch : Chat) (start : Replayed prepare apply_at) (memory : Mem)
        → IsPlain c
        → ch.last_seq < c.seq
        → IsReplay ch start memory
        → IsReplay (appended c 0 ch) start (apply_at memory (writes_of c.rows) c.seq)
    IsReplay-appended c ch start memory p above h = go c.rows refl
      where
        go :
            (rows : List CommitRow)
            → c.rows ≡ rows
            → IsReplay (appended c 0 ch) start (apply_at memory (writes_of c.rows) c.seq)
        go [] e = IsReplay-empty c ch start memory e p above h
        go (first ∷ others) e = IsReplay-rows c first others ch start memory e p above h

    IsReplay-append_all :
        (cs : List Commit) (ch : Chat) (start : Replayed prepare apply_at) (memory : Mem)
        → All IsPlain cs
        → Increasing ch.last_seq cs
        → IsReplay ch start memory
        → IsReplay (append_all cs ch) start (apply_all cs memory)
    IsReplay-append_all [] ch start memory plain later h = h
    IsReplay-append_all (c ∷ rest) ch start memory (p, plain) (above, later) h =
        IsReplay-append_all rest (appended c 0 ch) start (apply_at memory (writes_of c.rows) c.seq)
          plain (unfold appended in later) (IsReplay-appended c ch start memory p above h)

    -- When a chat was written by commits of which none has a row that replaces earlier ones and each has
    -- a higher sequence number than the one before, and the memory takes a commit without writes for its
    -- sequence number only, replaying the chat's log leaves in an empty memory what applying the writes of
    -- each commit at its sequence number leaves there, also where commits have no rows.
    pub replay-append_all :
        (cs : List Commit) (id title : Text) (now : ℕ) (memory : Mem)
        → All IsPlain cs
        → Increasing 0 cs
        → (finish prepare apply_at (append_all cs (new_chat id title now)).last_seq (
            replay_rows prepare apply_at parse_write
              (append_all cs (new_chat id title now)).rows
              (nothing memory))).memory
          ≡ apply_all cs memory
    unfolding finished
    replay-append_all cs id title now memory plain later =
        (IsReplay-append_all cs (new_chat id title now) (nothing memory) memory plain later
          (record {
            memory_is =
                unfold replay_rows in
                finished-last 0 (nothing memory) refl ∙ (unfold memory_of apply_batch in refl);
            seq_le = unfold replay_rows in omega arith;
          })).memory_is
