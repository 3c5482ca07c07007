-- ===== src/ChatLog/Fencing.antt =====
-- fakeChatLog.ts: opening a chat takes it over from whoever had opened it before.
use grafana_pi_app.Prelude.{
  ℕ, suc, ◌<◌, ◌≤◌, ◌≡◌, refl, ap, subst, ◌∙◌, arith, Bool, true, false, not, ◌&&◌, Option, none,
  some, List, [], ◌∷◌, Text, text_eq, text_eq_sound, text_eq_refl, ◌==◌, ==_iff, ltb, leb, Map,
  lookup, insert, lookup-insert, Bool-cases, inl, inr, ◌⊎◌, if◌then◌else◌, length,
}
use grafana_pi_app.ChatLog.{
  ChatLogFailure, lease, deleted, unavailable, title_or_empty, Answer, ok, err, Commit, Chat,
  Backend, OpenedChat, Committed, live, chat, next_epoch, open_found, open_chat, appended, stored,
  commit_to, commit, rename_in, rename, delete_found, delete_chat, new_chat, Copy, copy_new,
  copy_again, copy_from, copy_shared, live_copy, shared_id, tick,
}

-- A request to the backend that can change it; what it leaves, whether it was answered or refused.
pub data Request : Type 0 where
  open_again : Text → Option Text → Bool → Request
  commit_rows : Text → Commit → Request
  rename_chat : Text → Text → Request
  delete_one : Text → Request
  copy_one : Text → Request

module _ (copy_id : ℕ → Text) where
  abbrev pub serve : Request → Backend → Backend
  serve (open_again id title create) b = (open_chat id title create b).1
  serve (commit_rows id c) b = (commit id c b).1
  serve (rename_chat id title) b = (rename id title b).1
  serve (delete_one id) b = delete_chat id b
  serve (copy_one token) b = (copy_shared copy_id token b).1

  abbrev pub serve_all : List Request → Backend → Backend
  serve_all [] b = b
  serve_all (r ∷ rest) b = serve_all rest (serve r b)

length-insert :
    (key : Text) (c : Chat) (chats : Map Chat) → length chats ≤ length (insert key c chats)
unfolding insert
length-insert key c [] = omega arith
length-insert key c ((j, d) ∷ chats) = elim (Bool-cases (text_eq j key)) [
  | inl same ↦ rw same (omega arith)
  | inr other ↦ rw other (omega (arith, length-insert key c chats))
]

-- The chat is there, and beyond the epoch; the backend has no fewer chats than that.
pub record IsPast (epoch size : ℕ) (id : Text) (chats : Map Chat) : Type 0 where
  pub held : Chat
  pub here : lookup id chats ≡ some held
  pub past : epoch < held.epoch
  pub sized : size ≤ length chats

-- Storing a chat under a key keeps this, when its epoch is not below that of the chat it replaces.
IsPast-insert :
    (epoch size : ℕ) (id key : Text) (c : Chat) (chats : Map Chat)
    → ((old : Chat) → lookup key chats ≡ some old → epoch < old.epoch → epoch < c.epoch)
    → IsPast epoch size id chats
    → IsPast epoch size id (insert key c chats)
IsPast-insert epoch size id key c chats grows h = elim (Bool-cases (text_eq key id)) [
  | inl same ↦ record {
    held = c;
    here = rw (lookup-insert key id c chats, same);
    past = grows h.held (rw (text_eq_sound key id same) h.here) h.past;
    sized = omega (arith, h.sized, length-insert key c chats);
  }
  | inr other ↦ record {
    held = h.held;
    here = rw (lookup-insert key id c chats, other) h.here;
    past = h.past;
    sized = omega (arith, h.sized, length-insert key c chats);
  }
]

-- Storing another chat.
IsPast-other :
    (epoch size : ℕ) (id key : Text) (c : Chat) (chats : Map Chat)
    → text_eq key id ≡ false
    → IsPast epoch size id chats
    → IsPast epoch size id (insert key c chats)
IsPast-other epoch size id key c chats other h = record {
  held = h.held;
  here = rw (lookup-insert key id c chats, other) h.here;
  past = h.past;
  sized = omega (arith, h.sized, length-insert key c chats);
}

IsPast-if :
    {A : Type 0} (epoch size : ℕ) (id : Text) (test : Bool) (p q : A × Backend)
    → IsPast epoch size id p.1.chats
    → IsPast epoch size id q.1.chats
    → IsPast epoch size id (if test then p else q).1.chats
IsPast-if epoch size id true p q hp hq = hp
IsPast-if epoch size id false p q hp hq = hq

-- A chat that replaces the one under its key and has its epoch or the next.
IsPast-update :
    (epoch size : ℕ) (id key : Text) (old c : Chat) (chats : Map Chat)
    → lookup key chats ≡ some old
    → old.epoch ≤ c.epoch
    → IsPast epoch size id chats
    → IsPast epoch size id (insert key c chats)
IsPast-update epoch size id key old c chats here grows h =
    IsPast-insert epoch size id key c chats
      (λ other found past. same_chat other (cc (here, found)) past) h
  where
    same_chat : (other : Chat) → other ≡ old → epoch < other.epoch → epoch < c.epoch
    same_chat other same past =
        let epochs : other.epoch ≡ old.epoch = ap (λ (x : Chat). x.epoch) same in
        omega (arith, epochs, past, grows)

IsPast-open_found :
    (epoch size : ℕ) (id key : Text) (title : Option Text) (create : Bool) (found : Option Chat)
    (b : Backend)
    → lookup key b.chats ≡ found
    → IsPast epoch size id b.chats
    → IsPast epoch size id (open_found key title create found b).1.chats
IsPast-open_found epoch size id key title create none b e h =
    IsPast-if epoch size id create _ _
      (IsPast-insert epoch size id key _ b.chats (λ old there past. cc (e, there)) h) h
IsPast-open_found epoch size id key title create (some c) b e h =
    IsPast-if epoch size id c.is_deleted _ _ h
      (IsPast-update epoch size id key c (next_epoch c) b.chats e (omega arith) h)

-- The chat that `chat` answers with stands in the map.
pub lookup-live : (found : Option Chat) (c : Chat) → live found ≡ ok c → found ≡ some c
lookup-live none c e = cc
lookup-live (some d) c e = elim (Bool-cases d.is_deleted) [
  | inl gone ↦ cc (rw gone at e)
  | inr there ↦ cc (there, rw there at e)
]

epoch-appended : (c : Commit) (now : ℕ) (ch : Chat) → ch.epoch ≤ (appended c now ch).epoch
unfolding appended
epoch-appended c now ch = omega arith

IsPast-commit_to :
    (epoch size : ℕ) (id key : Text) (c : Commit) (answer : Answer Chat) (b : Backend)
    → chat key b ≡ answer
    → IsPast epoch size id b.chats
    → IsPast epoch size id (commit_to key c answer b).1.chats
unfolding commit_to
IsPast-commit_to epoch size id key c (err f) b e h = h
IsPast-commit_to epoch size id key c (ok ch) b e h =
    IsPast-if epoch size id (not (c.epoch == ch.epoch)) _ _ h (
      IsPast-if epoch size id (c.seq == ch.last_seq && text_eq c.digest ch.last_digest) _ _ h (
        IsPast-if epoch size id (leb c.seq ch.last_seq) _ _ h
          (IsPast-if epoch size id (ltb 0 b.lose_next_responses) _ _ kept kept)))
  where
    kept : IsPast epoch size id (stored key c ch b).chats
    kept =
        IsPast-update epoch size id key ch (appended c (suc b.clock) ch) b.chats
          (lookup-live (lookup key b.chats) ch e) (epoch-appended c (suc b.clock) ch) h

IsPast-rename_in :
    (epoch size : ℕ) (id key title : Text) (answer : Answer Chat) (b : Backend)
    → chat key b ≡ answer
    → IsPast epoch size id b.chats
    → IsPast epoch size id (rename_in key title answer b).1.chats
IsPast-rename_in epoch size id key title (err f) b e h = h
IsPast-rename_in epoch size id key title (ok c) b e h =
    IsPast-update epoch size id key c (record c { title = title }) b.chats
      (lookup-live (lookup key b.chats) c e) (omega arith) h

IsPast-delete_found :
    (epoch size : ℕ) (id key : Text) (found : Option Chat) (b : Backend)
    → lookup key b.chats ≡ found
    → IsPast epoch size id b.chats
    → IsPast epoch size id (delete_found key found b).chats
IsPast-delete_found epoch size id key none b e h = h
IsPast-delete_found epoch size id key (some c) b e h =
    IsPast-update epoch size id key c _ b.chats e (omega arith) h

live_pair :
    (gone : Bool) (p previous : Copy) (d c : Chat)
    → if◌then◌else◌ {A = Option (Copy × Chat)} gone none (some (p, d)) ≡ some (previous, c)
    → (p ≡ previous) × (d ≡ c)
live_pair true p previous d c e = absurd (cc)
live_pair false p previous d c e = (cc, cc)

lookup-live_copy :
    (copy : Option Copy) (chats : Map Chat) (previous : Copy) (c : Chat)
    → live_copy copy chats ≡ some (previous, c)
    → lookup previous.id chats ≡ some c
lookup-live_copy none chats previous c e = absurd (cc)
lookup-live_copy (some p) chats previous c e = go (lookup p.id chats) refl e
  where
    go :
        (found : Option Chat)
        → lookup p.id chats ≡ found
        → (elim found as (λ o. Option (Copy × Chat)) [
          | none ↦ none
          | some d ↦ if d.is_deleted then none else some (p, d)
        ])
          ≡ some (previous, c)
        → lookup previous.id chats ≡ some c
    go none here k = absurd (cc)
    go (some d) here k =
        let (ids, same) = live_pair d.is_deleted p previous d c k in
        subst (λ (q : Copy). lookup q.id chats ≡ some c) ids (here ∙ ap some same)

-- The names of the copies that are still to be made are not the chat's.
module _ (copy_id : ℕ → Text) (epoch size : ℕ) (id : Text)
    (apart : (k : ℕ) → size < k → text_eq (copy_id k) id ≡ false) where
  IsPast-copy_new :
      (token : Text) (source : Chat) (now : ℕ) (b : Backend)
      → IsPast epoch size id b.chats
      → IsPast epoch size id (copy_new copy_id token source now b).1.chats
  IsPast-copy_new token source now b h =
      IsPast-other epoch size id (copy_id (suc (length b.chats))) _ b.chats
        (apart (suc (length b.chats)) (omega (arith, h.sized))) h

  IsPast-copy_again :
      (token : Text) (source : Chat) (now : ℕ) (found : Option (Copy × Chat)) (b : Backend)
      → ((previous : Copy) (c : Chat)
          → found ≡ some (previous, c)
          → lookup previous.id b.chats ≡ some c)
      → IsPast epoch size id b.chats
      → IsPast epoch size id (copy_again copy_id token source now found b).1.chats
  IsPast-copy_again token source now none b there h = IsPast-copy_new token source now b h
  IsPast-copy_again token source now (some (previous, c)) b there h =
      IsPast-if epoch size id (source.last_seq == previous.source_seq) _ _ h (
        IsPast-if epoch size id (c.last_seq == previous.source_seq) _ _
          (IsPast-update epoch size id previous.id c _ b.chats (there previous c refl) (omega arith)
            h)
          (IsPast-copy_new token source now b h))

  IsPast-copy_from :
      (token : Text) (answer : Answer Chat) (b : Backend)
      → IsPast epoch size id b.chats
      → IsPast epoch size id (copy_from copy_id token answer b).1.chats
  IsPast-copy_from token (err f) b h = h
  IsPast-copy_from token (ok source) b h =
      IsPast-copy_again token source (suc b.clock) (live_copy (lookup token b.copies) b.chats)
        (tick b) (lookup-live_copy (lookup token b.copies) b.chats) h

  IsPast-serve :
      (r : Request) (b : Backend)
      → IsPast epoch size id b.chats
      → IsPast epoch size id (serve copy_id r b).chats
  unfolding open_chat commit rename delete_chat copy_shared
  IsPast-serve (open_again key title create) b h =
      IsPast-open_found epoch size id key title create (lookup key b.chats) b refl h
  IsPast-serve (commit_rows key c) b h =
      IsPast-if epoch size id (ltb 0 b.fail_next_commits) _ _ h
        (IsPast-commit_to epoch size id key c (chat key b) b refl h)
  IsPast-serve (rename_chat key title) b h =
      IsPast-rename_in epoch size id key title (chat key b) b refl h
  IsPast-serve (delete_one key) b h =
      IsPast-delete_found epoch size id key (lookup key b.chats) b refl h
  IsPast-serve (copy_one token) b h = IsPast-copy_from token (chat (shared_id token) b) b h

  IsPast-serve_all :
      (requests : List Request) (b : Backend)
      → IsPast epoch size id b.chats
      → IsPast epoch size id (serve_all copy_id requests b).chats
  IsPast-serve_all [] b h = h
  IsPast-serve_all (r ∷ rest) b h = IsPast-serve_all rest (serve copy_id r b) (IsPast-serve r b h)

-- An `open` that succeeds makes the chat's epoch the one it answers with.
open_found-held :
    (id : Text) (title : Option Text) (create : Bool) (found : Option Chat) (b : Backend)
    (o : OpenedChat) (b' : Backend)
    → open_found id title create found b ≡ (ok o, b')
    → (c : Chat) × (lookup id b'.chats ≡ some c) × (c.epoch ≡ o.epoch)
open_found-held id title true none b o b' e =
    let c = next_epoch (new_chat id (title_or_empty title) (suc b.clock)) in
    let chats : insert id c b.chats ≡ b'.chats = cc in
    let epoch : c.epoch ≡ o.epoch = cc in
    (c, rw (← chats, lookup-insert id id c b.chats, text_eq_refl id), epoch)
open_found-held id title false none b o b' e = cc
open_found-held id title create (some c) b o b' e = elim (Bool-cases c.is_deleted) [
  | inl gone ↦ cc (rw gone at e)
  | inr there ↦
      let e' = rw there at e in
      let chats : insert id (next_epoch c) b.chats ≡ b'.chats = cc in
      let epoch : (next_epoch c).epoch ≡ o.epoch = cc in
      (
        next_epoch c,
        rw (← chats, lookup-insert id id (next_epoch c) b.chats, text_eq_refl id),
        epoch,
      )
]

-- Opening a chat that is there makes its epoch the next one.
open_found-IsPast :
    (id : Text) (title : Option Text) (create : Bool) (c : Chat) (b : Backend) (o : OpenedChat)
    (b' : Backend)
    → open_found id title create (some c) b ≡ (ok o, b')
    → IsPast c.epoch (length b'.chats) id b'.chats
open_found-IsPast id title create c b o b' e = elim (Bool-cases c.is_deleted) [
  | inl gone ↦ cc (rw gone at e)
  | inr there ↦
      let e' = rw there at e in
      let chats : insert id (next_epoch c) b.chats ≡ b'.chats = cc in
      record {
        held = next_epoch c;
        here = rw (← chats, lookup-insert id id (next_epoch c) b.chats, text_eq_refl id);
        past = omega arith;
        sized = omega arith;
      }
]

open_chat-held :
    (id : Text) (title : Option Text) (create : Bool) (b : Backend) (o : OpenedChat) (b' : Backend)
    → open_chat id title create b ≡ (ok o, b')
    → (c : Chat) × (lookup id b'.chats ≡ some c) × (c.epoch ≡ o.epoch)
unfolding open_chat
open_chat-held id title create b o b' e =
    open_found-held id title create (lookup id b.chats) b o b' e

open_chat-IsPast :
    (id : Text) (title : Option Text) (create : Bool) (c : Chat) (b : Backend) (o : OpenedChat)
    (b' : Backend)
    → lookup id b.chats ≡ some c
    → open_chat id title create b ≡ (ok o, b')
    → IsPast c.epoch (length b'.chats) id b'.chats
unfolding open_chat
open_chat-IsPast id title create c b o b' here e =
    open_found-IsPast id title create c b o b' (rw here at e)

-- Refused, without a change of any chat.
abbrev pub IsRefused : Answer Committed × Backend → Backend → Type 0
IsRefused (answer, b') b = (f : ChatLogFailure) × (answer ≡ err f) × (b'.chats ≡ b.chats)

live_cases :
    (gone : Bool) (c : Chat)
    → ((if gone then err deleted else ok c) ≡ err deleted)
      ⊎ ((if gone then err deleted else ok c) ≡ ok c)
live_cases true c = inl refl
live_cases false c = inr refl

commit_to-err :
    (id : Text) (c : Commit) (f : ChatLogFailure) (b : Backend)
    → IsRefused (commit_to id c (err f) b) b
unfolding commit_to
commit_to-err id c f b = (f, refl, refl)

commit_to-stale :
    (id : Text) (c : Commit) (ch : Chat) (b : Backend)
    → c.epoch < ch.epoch
    → IsRefused (commit_to id c (ok ch) b) b
unfolding commit_to
commit_to-stale id c ch b past =
    let stale : (c.epoch == ch.epoch) ≡ false = ground (arith, ==_iff c.epoch ch.epoch) in
    rw stale (lease, refl, refl)

commit-IsRefused :
    (epoch size : ℕ) (id : Text) (c : Commit) (b : Backend)
    → IsPast epoch size id b.chats
    → c.epoch ≡ epoch
    → IsRefused (commit id c b) b
unfolding commit
commit-IsRefused epoch size id c b h e = elim (Bool-cases (ltb 0 b.fail_next_commits)) [
  | inl failing ↦ rw failing (unavailable, refl, refl)
  | inr reached ↦ rw reached (rw h.here (refused_at (live_cases h.held.is_deleted h.held)))
]
  where
    refused_at :
        (live (some h.held) ≡ err deleted) ⊎ (live (some h.held) ≡ ok h.held)
        → IsRefused (commit_to id c (live (some h.held)) b) b
    refused_at (inl gone) = rw gone (commit_to-err id c deleted b)
    refused_at (inr there) = rw there (commit_to-stale id c h.held b (omega (arith, e, h.past)))

-- Once a chat has been opened again, a commit with the epoch of the earlier opening is refused and
-- changes no chat, whatever requests the backend has served in between, if the chat does not have the
-- name of a copy that is still to be made.
pub commit_after-open_chat :
    (copy_id : ℕ → Text) (id : Text) (title title' : Option Text) (create create' : Bool)
    (b b1 b2 : Backend) (o o' : OpenedChat) (c : Commit) (requests : List Request)
    → ((k : ℕ) → length b2.chats < k → text_eq (copy_id k) id ≡ false)
    → open_chat id title create b ≡ (ok o, b1)
    → open_chat id title' create' b1 ≡ (ok o', b2)
    → c.epoch ≡ o.epoch
    → IsRefused (commit id c (serve_all copy_id requests b2)) (serve_all copy_id requests b2)
commit_after-open_chat copy_id id title title' create create' b b1 b2 o o' c requests apart first
      second e =
    commit-IsRefused o.epoch (length b2.chats) id c _
      (IsPast-serve_all copy_id o.epoch (length b2.chats) id apart requests b2
        (reopened (open_chat-held id title create b o b1 first)))
      e
  where
    reopened :
        ((ch : Chat) × (lookup id b1.chats ≡ some ch) × (ch.epoch ≡ o.epoch))
        → IsPast o.epoch (length b2.chats) id b2.chats
    reopened (ch, here, epoch) =
        rw (← epoch) (open_chat-IsPast id title' create' ch b1 o' b2 here second)
