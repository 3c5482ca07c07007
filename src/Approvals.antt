-- ===== src/Approvals.antt =====
-- src/pages/Chat/session/ApprovalChannel.ts: the pending approval of a session. A promise is a number,
-- and resolving it an entry of `answers`. The listeners only redraw the view and are left out.
pub mod Once
pub mod Tests
use grafana_pi_app.Prelude.{
  ℕ, suc, Bool, true, false, Option, none, some, List, [], ◌∷◌, Text, codes, ◌==◌, if◌then◌else◌,
}

-- `WorkspaceApprovalRequest`, by its identifier.
pub record Request : Type 0 where
  pub apply_id : Text

pub record Verdict : Type 0 where
  pub approved : Bool
  pub reason : Option Text
  pub paths : Option (List Text)

pub record Pending : Type 0 where
  pub promise : ℕ
  pub request : Request

pub record Channel : Type 0 where
  pub pending : Option Pending
  pub promises : ℕ
  pub answers : List (ℕ × Verdict)

unfoldable pub new_channel : Channel
new_channel = record { pending = none; promises = 0; answers = [] }

abbrev denial : Text → Verdict
denial reason = record { approved = false; reason = some reason; paths = none }

abbrev or_text : Text → Option Text → Text
or_text other none = other
or_text other (some s) = s

-- What `finish` resolves the promise with.
abbrev pub verdict : Bool → Option (List Text) → Option Text → Verdict
verdict true paths reason = record { approved = true; reason = none; paths = paths }
verdict false paths reason = denial (or_text (codes "Denied or cancelled.") reason)

-- A new promise that is resolved at once.
abbrev resolved_at_once : Verdict → Channel → Channel
resolved_at_once v c = record c { promises = suc c.promises; answers = (c.promises, v) ∷ c.answers }

abbrev waiting : Request → Channel → Channel
waiting r c = record c {
  promises = suc c.promises;
  pending = some (record { promise = c.promises; request = r });
}

unfoldable pub request : Request → Bool → Channel → Channel
request r aborted c = elim c.pending [
  | some other ↦ resolved_at_once (denial (codes "Another approval is pending.")) c
  | none ↦ if aborted then resolved_at_once (denial (codes "Cancelled.")) c else waiting r c
]

-- `settle`; `finish` is set exactly while a request is pending.
unfoldable pub settle : Bool → Option (List Text) → Option Text → Channel → Channel
settle approved paths reason c = elim c.pending [
  | none ↦ c
  | some p ↦ record c {
    pending = none;
    answers = (p.promise, verdict approved paths reason) ∷ c.answers;
  }
]

-- The signal of a request is aborted: its listener is there while the request is pending.
unfoldable pub abort : ℕ → Channel → Channel
unfolding settle
abort promise c = elim c.pending [
  | none ↦ c
  | some p ↦ if p.promise == promise then settle false none none c else c
]

pub data Event : Type 0 where
  requests : Request → Bool → Event
  settles : Bool → Option (List Text) → Option Text → Event
  aborts : ℕ → Event

unfoldable pub handle : Event → Channel → Channel
handle (requests r aborted) c = request r aborted c
handle (settles approved paths reason) c = settle approved paths reason c
handle (aborts promise) c = abort promise c

unfoldable pub run : List Event → Channel → Channel
run [] c = c
run (e ∷ events) c = run events (handle e c)
