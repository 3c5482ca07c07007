-- ===== src/ChatLog/Rows.antt =====
-- fakeChatLog.ts: the order of a chat's rows, and the rows that a commit prunes.
use grafana_pi_app.Prelude.{
  ℕ, suc, ◌≤◌, ◌≡◌, refl, subst, arith, Bool, true, false, not, ◌&&◌, Option, none, some, List, [],
  ◌∷◌, ◌++◌, Text, text_eq, ◌==◌, ltb, leb, Map, lookup, insert, lookup-insert, Bool-cases, inl,
  inr, filter, All, All-append, if◌then◌else◌, length, has, IsIn, IsIn-cons, ◌≢◌, text_eq_sound,
  text_eq_refl, append_assoc, sym, ap, ◌∙◌, ◌||◌,
}
use grafana_pi_app.ChatLog.{
  Answer, ok, err, CommitRow, Commit, Row, Chat, Backend, chat, next_epoch, new_chat,
  title_or_empty, open_found, open_chat, has_key, replaced_keys, numbered, kept_rows, appended,
  stored, commit_to, commit, rename_in, rename, delete_found, delete_chat, Copy, copy_new,
  copy_again, copy_from, copy_shared, live_copy, shared_id, tick, is_key, key_of,
}
use grafana_pi_app.ChatLog.Fencing.{
  Request, open_again, commit_rows, rename_chat, delete_one, copy_one, serve, serve_all,
  lookup-live,
}

abbrev pub Sorted : List Row → Type 0
Sorted [] = Unit
Sorted (r ∷ rest) = All (λ (later : Row). r.seq ≤ later.seq) rest × Sorted rest

-- Rows stand in the order of their commits, and the last sequence number bounds them.
pub record IsLog (c : Chat) : Type 0 where
  pub sorted : Sorted c.rows
  pub bounded : All (λ (r : Row). r.seq ≤ c.last_seq) c.rows

module _ (P : Row → Type 0) (keep : Row → Bool) where
  All-filter : (rows : List Row) → All P rows → All P (filter keep rows)
  All-filter [] h = tt
  All-filter (r ∷ rest) (p, h) = elim (Bool-cases (keep r)) [
    | inl yes_kept ↦ rw yes_kept (p, All-filter rest h)
    | inr pruned ↦ rw pruned (All-filter rest h)
  ]

Sorted-filter : (keep : Row → Bool) (rows : List Row) → Sorted rows → Sorted (filter keep rows)
Sorted-filter keep [] h = tt
Sorted-filter keep (r ∷ rest) (below, h) = elim (Bool-cases (keep r)) [
  | inl yes_kept ↦
      rw yes_kept
        (All-filter (λ (later : Row). r.seq ≤ later.seq) keep rest below, Sorted-filter keep rest h)
  | inr pruned ↦ rw pruned (Sorted-filter keep rest h)
]

All-numbered :
    (P : Row → Type 0) (seq idx : ℕ) (new : List CommitRow)
    → ((i : ℕ) (row : CommitRow)
        → P (record { seq = seq; idx = i; key = row.key; body = row.body }))
    → All P (numbered seq idx new)
unfolding numbered
All-numbered P seq idx [] p = tt
All-numbered P seq idx (row ∷ rest) p = (p idx row, All-numbered P seq (suc idx) rest p)

Sorted-numbered : (seq idx : ℕ) (new : List CommitRow) → Sorted (numbered seq idx new)
unfolding numbered
Sorted-numbered seq idx [] = tt
Sorted-numbered seq idx (row ∷ rest) = (
  All-numbered (λ (later : Row). seq ≤ later.seq) seq (suc idx) rest (λ i r. omega arith),
  Sorted-numbered seq (suc idx) rest,
)

Sorted-append :
    (n : ℕ) (old new : List Row)
    → Sorted old
    → Sorted new
    → All (λ (r : Row). r.seq ≤ n) old
    → All (λ (r : Row). n ≤ r.seq) new
    → Sorted (old ++ new)
Sorted-append n [] new h k below above = k
Sorted-append n (r ∷ old) new (least, h) k (b, below) above = (
  All-append (λ (later : Row). r.seq ≤ later.seq) old new least (weaken new above),
  Sorted-append n old new h k below above,
)
  where
    weaken :
        (rows : List Row)
        → All (λ (q : Row). n ≤ q.seq) rows
        → All (λ (later : Row). r.seq ≤ later.seq) rows
    weaken [] a = tt
    weaken (q ∷ rows) (a, rest) = (omega (arith, a, b), weaken rows rest)

All-raised :
    (n m : ℕ) (rows : List Row)
    → n ≤ m
    → All (λ (r : Row). r.seq ≤ n) rows
    → All (λ (r : Row). r.seq ≤ m) rows
All-raised n m [] le h = tt
All-raised n m (r ∷ rows) le (p, h) = (omega (arith, le, p), All-raised n m rows le h)

IsLog-appended :
    (c : Commit) (now : ℕ) (ch : Chat) → ch.last_seq ≤ c.seq → IsLog ch → IsLog (appended c now ch)
unfolding appended kept_rows
IsLog-appended c now ch later h = record {
  sorted =
      Sorted-append c.seq _ (numbered c.seq 0 c.rows) (Sorted-filter _ ch.rows h.sorted)
        (Sorted-numbered c.seq 0 c.rows) kept
        (All-numbered (λ (r : Row). c.seq ≤ r.seq) c.seq 0 c.rows (λ i row. omega arith));
  bounded =
      All-append (λ (r : Row). r.seq ≤ c.seq) _ (numbered c.seq 0 c.rows) kept
        (All-numbered (λ (r : Row). r.seq ≤ c.seq) c.seq 0 c.rows (λ i row. omega arith));
}
  where
    kept :
        All
          (λ (r : Row). r.seq ≤ c.seq)
          (filter (λ row. not (has_key (replaced_keys c.rows) (Row.key row))) ch.rows)
    kept =
        All-filter (λ (r : Row). r.seq ≤ c.seq) _ ch.rows
          (All-raised ch.last_seq c.seq ch.rows later h.bounded)

-- Every chat of the backend is a log.
abbrev pub Logs : Map Chat → Type 0
Logs chats = (id : Text) (c : Chat) → lookup id chats ≡ some c → IsLog c

Logs-insert :
    (key : Text) (new : Chat) (chats : Map Chat)
    → IsLog new
    → Logs chats
    → Logs (insert key new chats)
Logs-insert key new chats good h id c e = elim (Bool-cases (text_eq key id)) [
  | inl same ↦
      let found : some new ≡ some c = rw (lookup-insert key id new chats, same) at e in
      let equal : new ≡ c = cc (found) in subst IsLog equal good
  | inr other ↦ h id c (rw (lookup-insert key id new chats, other) at e)
]

Logs-if :
    {A : Type 0} (test : Bool) (p q : A × Backend)
    → Logs p.1.chats
    → Logs q.1.chats
    → Logs (if test then p else q).1.chats
Logs-if true p q hp hq = hp
Logs-if false p q hp hq = hq

-- A chat with the same rows and last sequence number.
IsLog-same :
    (old new : Chat) → new.rows ≡ old.rows → new.last_seq ≡ old.last_seq → IsLog old → IsLog new
IsLog-same old new rows last h = record {
  sorted = rw rows h.sorted;
  bounded = rw (rows, last) h.bounded;
}

Logs-open_found :
    (id : Text) (title : Option Text) (create : Bool) (found : Option Chat) (b : Backend)
    → lookup id b.chats ≡ found
    → Logs b.chats
    → Logs (open_found id title create found b).1.chats
Logs-open_found id title create none b e h =
    Logs-if create _ _
      (Logs-insert id (next_epoch (new_chat id (title_or_empty title) (suc b.clock))) b.chats
        (record { sorted = tt; bounded = tt }) h)
      h
Logs-open_found id title create (some c) b e h =
    Logs-if c.is_deleted _ _ h
      (Logs-insert id (next_epoch c) b.chats (IsLog-same c (next_epoch c) refl refl (h id c e)) h)

Logs-commit_to :
    (id : Text) (c : Commit) (answer : Answer Chat) (b : Backend)
    → chat id b ≡ answer
    → Logs b.chats
    → Logs (commit_to id c answer b).1.chats
unfolding commit_to
Logs-commit_to id c (err f) b e h = h
Logs-commit_to id c (ok ch) b e h = Logs-if (not (c.epoch == ch.epoch)) _ _ h (
    Logs-if (c.seq == ch.last_seq && text_eq c.digest ch.last_digest) _ _ h
      (elim (Bool-cases (leb c.seq ch.last_seq)) [
        | inl old ↦ rw old h
        | inr new ↦ rw new (Logs-if (ltb 0 b.lose_next_responses) _ _ (kept new) (kept new))
      ]))
  where
    kept : leb c.seq ch.last_seq ≡ false → Logs (stored id c ch b).chats
    kept new =
        Logs-insert id (appended c (suc b.clock) ch) b.chats
          (IsLog-appended c (suc b.clock) ch (ground arith)
            (h id ch (lookup-live (lookup id b.chats) ch e)))
          h

Logs-rename_in :
    (id title : Text) (answer : Answer Chat) (b : Backend)
    → chat id b ≡ answer
    → Logs b.chats
    → Logs (rename_in id title answer b).1.chats
Logs-rename_in id title (err f) b e h = h
Logs-rename_in id title (ok c) b e h =
    Logs-insert id (record c { title = title }) b.chats
      (IsLog-same c (record c { title = title }) refl refl
        (h id c (lookup-live (lookup id b.chats) c e)))
      h

Logs-delete_found :
    (id : Text) (found : Option Chat) (b : Backend)
    → Logs b.chats
    → Logs (delete_found id found b).chats
Logs-delete_found id none b h = h
Logs-delete_found id (some c) b h =
    Logs-insert id _ b.chats (record { sorted = tt; bounded = tt }) h

module _ (copy_id : ℕ → Text) where
  Logs-copy_new :
      (token : Text) (source : Chat) (now : ℕ) (b : Backend)
      → IsLog source
      → Logs b.chats
      → Logs (copy_new copy_id token source now b).1.chats
  Logs-copy_new token source now b good h =
      Logs-insert (copy_id (suc (length b.chats))) _ b.chats (IsLog-same source _ refl refl good) h

  Logs-copy_again :
      (token : Text) (source : Chat) (now : ℕ) (found : Option (Copy × Chat)) (b : Backend)
      → IsLog source
      → Logs b.chats
      → Logs (copy_again copy_id token source now found b).1.chats
  Logs-copy_again token source now none b good h = Logs-copy_new token source now b good h
  Logs-copy_again token source now (some (previous, c)) b good h =
      Logs-if (source.last_seq == previous.source_seq) _ _ h (
        Logs-if (c.last_seq == previous.source_seq) _ _
          (Logs-insert previous.id _ b.chats (IsLog-same source _ refl refl good) h)
          (Logs-copy_new token source now b good h))

  Logs-copy_from :
      (token : Text) (answer : Answer Chat) (b : Backend)
      → chat (shared_id token) b ≡ answer
      → Logs b.chats
      → Logs (copy_from copy_id token answer b).1.chats
  Logs-copy_from token (err f) b e h = h
  Logs-copy_from token (ok source) b e h =
      Logs-copy_again token source (suc b.clock) (live_copy (lookup token b.copies) b.chats)
        (tick b)
        (h (shared_id token) source (lookup-live (lookup (shared_id token) b.chats) source e)) h

  Logs-serve : (r : Request) (b : Backend) → Logs b.chats → Logs (serve copy_id r b).chats
  unfolding open_chat commit rename delete_chat copy_shared
  Logs-serve (open_again id title create) b h =
      Logs-open_found id title create (lookup id b.chats) b refl h
  Logs-serve (commit_rows id c) b h =
      Logs-if (ltb 0 b.fail_next_commits) _ _ h (Logs-commit_to id c (chat id b) b refl h)
  Logs-serve (rename_chat id title) b h = Logs-rename_in id title (chat id b) b refl h
  Logs-serve (delete_one id) b h = Logs-delete_found id (lookup id b.chats) b h
  Logs-serve (copy_one token) b h = Logs-copy_from token (chat (shared_id token) b) b refl h

  -- When every chat is a log whose rows stand in the order of their commits and are bounded by its
  -- last sequence number, so is every chat after any requests.
  pub Logs-serve_all :
      (requests : List Request) (b : Backend)
      → Logs b.chats
      → Logs (serve_all copy_id requests b).chats
  Logs-serve_all [] b h = h
  Logs-serve_all (r ∷ rest) b h = Logs-serve_all rest (serve copy_id r b) (Logs-serve r b h)

abbrev pub Keys : CommitRow → Text → Type 0
Keys row key = (row.replace ≡ true) × (row.key ≡ some key) × (key ≢ [])

-- A row of the commit that replaces has the row's key, which is not empty.
abbrev pub IsReplaced : List CommitRow → Row → Type 0
IsReplaced new r =
    (row : CommitRow) × (key : Text) × IsIn row new × Keys row key × (r.key ≡ some key)

not_empty : (key : Text) → key ≢ [] → text_eq key [] ≡ false
not_empty key h = elim (Bool-cases (text_eq key [])) [
  | inl e ↦ absurd (h (text_eq_sound key [] e))
  | inr e ↦ e
]

replaces-Keys :
    (row : CommitRow) (key : Text) → Keys row key → (row.replace && is_key row.key) ≡ true
replaces-Keys row key (r, k, n) = rw (r, k) (rw (not_empty key n) refl)

Keys-replaces : (row : CommitRow) → (row.replace && is_key row.key) ≡ true → Keys row (key_of row)
Keys-replaces row h = go row.key refl (ground arith)
  where
    go :
        (k : Option Text)
        → row.key ≡ k
        → (row.replace ≡ true) × (is_key row.key ≡ true)
        → Keys row (key_of row)
    go none e (r, i) = absurd (cc (rw e at i))
    go (some key) e (r, i) =
        let full : not (text_eq key []) ≡ true = rw e at i in
        let same : key ≡ key_of row = rw e refl in
        subst (Keys row) same (
          r,
          e,
          λ z.
              let none_left : not (text_eq [] []) ≡ true =
                subst (λ k. not (text_eq k []) ≡ true) z full in
              cc (none_left, text_eq_refl []),
        )

has-replaced_keys :
    (before after : List CommitRow) (row : CommitRow) (key : Text)
    → Keys row key
    → has key (replaced_keys (before ++ row ∷ after)) ≡ true
unfolding has replaced_keys
has-replaced_keys [] after row key h =
    rw (replaces-Keys row key h) (rw h.1 (rw (text_eq_refl key) refl))
has-replaced_keys (q ∷ before) after row key h = elim (Bool-cases (q.replace && is_key q.key)) [
  | inl e ↦ rw e (ground (arith, has-replaced_keys before after row key h))
  | inr e ↦ rw e (has-replaced_keys before after row key h)
]

-- A replaced key is that of some row of the commit.
replaced_keys-has :
    (new : List CommitRow) (key : Text)
    → has key (replaced_keys new) ≡ true
    → (row : CommitRow) × IsIn row new × Keys row key
unfolding has replaced_keys
replaced_keys-has [] key h = absurd (cc)
replaced_keys-has (row ∷ rest) key h = elim (Bool-cases (row.replace && is_key row.key)) [
  | inr e ↦
      let (q, inside, keys) = replaced_keys-has rest key (rw e at h) in (q, IsIn-cons inside, keys)
  | inl e ↦
      let found : (text_eq (key_of row) key || has key (replaced_keys rest)) ≡ true = rw e at h in
      elim (Bool-cases (text_eq (key_of row) key)) [
        | inl same ↦ (
          row,
          ([], rest, refl),
          subst (Keys row) (text_eq_sound (key_of row) key same) (Keys-replaces row e),
        )
        | inr other ↦
            let (q, inside, keys) = replaced_keys-has rest key (rw other at found) in
            (q, IsIn-cons inside, keys)
      ]
]

IsIn-filter :
    (keep : Row → Bool) (r : Row) (before after : List Row)
    → keep r ≡ true
    → IsIn r (filter keep (before ++ r ∷ after))
IsIn-filter keep r [] after h = rw h ([], filter keep after, refl)
IsIn-filter keep r (q ∷ before) after h = elim (Bool-cases (keep q)) [
  | inl stays ↦ rw stays (IsIn-cons (IsIn-filter keep r before after h))
  | inr goes ↦ rw goes (IsIn-filter keep r before after h)
]

-- What a commit makes of the rows of a chat: the rows whose key a row of the commit replaces are its
-- own, and every other row is still there.
pub record IsPruned (c : Commit) (old new : List Row) : Type 0 where
  pub replaced :
      (row : CommitRow) (key : Text)
      → IsIn row c.rows
      → Keys row key
      → All (λ (r : Row). r.key ≡ some key → r.seq ≡ c.seq) new
  pub kept : (r : Row) → IsIn r old → ¬ IsReplaced c.rows r → IsIn r new

-- When a commit is stored, the rows that stand under a key it replaces are the commit's own, and every
-- row whose key it does not replace stays.
pub appended-IsPruned :
    (c : Commit) (now : ℕ) (ch : Chat) → IsPruned c ch.rows (appended c now ch).rows
unfolding appended kept_rows
appended-IsPruned c now ch = record {
  replaced = λ row key inside keys.
      All-append _ _ (numbered c.seq 0 c.rows)
        (pruned key (known row key inside keys) keys.2 ch.rows)
        (All-numbered _ c.seq 0 c.rows (λ i q e. refl));
  kept = λ r inside free.
      let (before, after, e) = inside in
      let (first, last, f) =
        subst (λ rows. IsIn r (filter keep rows)) (sym e)
          (IsIn-filter keep r before after (stays r free)) in
      (
        first,
        last ++ numbered c.seq 0 c.rows,
        ap (λ rows. rows ++ numbered c.seq 0 c.rows) f
            ∙ append_assoc first (r ∷ last) (numbered c.seq 0 c.rows),
      );
}
  where
    keep : Row → Bool
    keep row = not (has_key (replaced_keys c.rows) row.key)

    known :
        (row : CommitRow) (key : Text)
        → IsIn row c.rows
        → Keys row key
        → has key (replaced_keys c.rows) ≡ true
    known row key (before, after, e) keys = rw e (has-replaced_keys before after row key keys)

    pruned :
        (key : Text)
        → has key (replaced_keys c.rows) ≡ true
        → key ≢ []
        → (rows : List Row) → All (λ (r : Row). r.key ≡ some key → r.seq ≡ c.seq) (filter keep rows)
    pruned key there n [] = tt
    pruned key there n (r ∷ rows) = elim (Bool-cases (keep r)) [
      | inr goes ↦ rw goes (pruned key there n rows)
      | inl holds ↦ rw holds (
        (λ same.
            let test : not (not (text_eq key []) && has key (replaced_keys c.rows)) ≡ true =
              rw same at holds in
            absurd (ground (arith, not_empty key n, there, test))),
        pruned key there n rows,
      )
    ]

    stays : (r : Row) → ¬ IsReplaced c.rows r → keep r ≡ true
    stays r free = go r.key refl
      where
        go : (k : Option Text) → r.key ≡ k → keep r ≡ true
        go none e = rw e refl
        go (some key) e = elim (Bool-cases (text_eq key [])) [
          | inl empty ↦ rw e (rw empty refl)
          | inr full ↦ elim (Bool-cases (has key (replaced_keys c.rows))) [
            | inr absent ↦ rw e (rw (full, absent) refl)
            | inl there ↦
                let (row, inside, keys) = replaced_keys-has c.rows key there in
                absurd (free (row, key, inside, keys, e))
          ]
        ]
