-- ===== src/Workspace/Loading/Flights.antt =====
-- workspace/workspace.ts: loads in flight (`hydrate` with `inflight`). Between the start of a fetch and
-- its answer, other loads and other changes of the workspace take place.
use grafana_pi_app.Prelude.{
  ◌≡◌, refl, some, text_eq_refl, List, [], ◌∷◌, Text, has, add, delete, All, Bool-cases, inl, inr,
  if◌then◌else◌,
}
use grafana_pi_app.Workspace.Kinds.{Kind, resource_key}
use grafana_pi_app.Workspace.Types.{Overlay, Entry, Fetched}
use grafana_pi_app.Workspace.Store.{
  Workspace, hydrate, store_fetched, is_kept, get_resource, is_some,
}
use grafana_pi_app.Workspace.Loading.{HasWorkingCopy, HasWorkingCopy-store_fetched}

-- The workspace and the keys of the fetches that are in flight.
pub record Flights : Type 0 where
  pub workspace : Workspace
  pub inflight : List Text

-- `hydrate` up to the `await`; requests for the same resource share one fetch.
unfoldable pub begin_load : Text → Kind → Flights → Flights
begin_load uid kind f =
    if is_kept (get_resource f.workspace uid kind)
    then f
    else if is_some f.workspace.hydrator
    then record f { inflight = add (resource_key kind uid) f.inflight }
    else f

-- The rest, when the hydrator answers.
unfoldable pub finish_load : Text → Kind → Fetched → Flights → Flights
finish_load uid kind answer f =
    if has (resource_key kind uid) f.inflight
    then record {
      workspace = (store_fetched uid kind answer f.workspace).1;
      inflight = delete (resource_key kind uid) f.inflight;
    }
    else f

-- `changed` is the workspace after another operation.
pub data Event : Type 0 where
  begins : Text → Kind → Event
  answers : Text → Kind → Fetched → Event
  changed : Workspace → Event

abbrev pub step : Event → Flights → Flights
step (begins uid kind) f = begin_load uid kind f
step (answers uid kind answer) f = finish_load uid kind answer f
step (changed w) f = record f { workspace = w }

abbrev pub run : List Event → Flights → Flights
run [] f = f
run (e ∷ rest) f = run rest (step e f)

module _ (key : Text) (entry : Entry) (overlay : Overlay) where
  -- The other operations leave the entry with its local changes.
  abbrev pub LeavesCopy : Event → Type 0
  LeavesCopy (changed w) = HasWorkingCopy key entry overlay w
  LeavesCopy _ = Unit {0}

  step-HasWorkingCopy :
      (e : Event) (f : Flights)
      → LeavesCopy e
      → HasWorkingCopy key entry overlay f.workspace
      → HasWorkingCopy key entry overlay (step e f).workspace
  unfolding begin_load finish_load
  step-HasWorkingCopy (begins uid kind) f n h =
      elim (Bool-cases (is_kept (get_resource f.workspace uid kind))) [
        | inl kept ↦ rw kept h
        | inr open_still ↦ elim (Bool-cases (is_some f.workspace.hydrator)) [
          | inl on ↦ rw (open_still) (rw on h)
          | inr off ↦ rw (open_still) (rw off h)
        ]
      ]
  step-HasWorkingCopy (answers uid kind answer) f n h =
      elim (Bool-cases (has (resource_key kind uid) f.inflight)) [
        | inl flying ↦
            rw flying (HasWorkingCopy-store_fetched key entry overlay uid kind answer f.workspace h)
        | inr unknown ↦ rw unknown h
      ]
  step-HasWorkingCopy (changed w) f n h = n

  -- Once an entry has local changes, no load takes them or its base away, however loads begin, are
  -- answered and run beside other operations that leave the entry alone: also not one that was in
  -- flight when the changes were made, nor one that is answered with a resource that was not asked for.
  pub run-HasWorkingCopy :
      (events : List Event) (f : Flights)
      → All LeavesCopy events
      → HasWorkingCopy key entry overlay f.workspace
      → HasWorkingCopy key entry overlay (run events f).workspace
  run-HasWorkingCopy [] f leaves h = h
  run-HasWorkingCopy (e ∷ rest) f (leave, leaves) h =
      run-HasWorkingCopy rest (step e f) leaves (step-HasWorkingCopy e f leave h)

-- A load during whose fetch nothing else happens is the `hydrate` of a transaction.
hydrate-finish_load :
    (uid : Text) (kind : Kind) (w : Workspace) (fetch : Kind → Text → Fetched)
    → w.hydrator ≡ some fetch
    → (hydrate uid kind w).1
      ≡ (finish_load uid kind
          (fetch kind uid)
          (begin_load uid kind (record { workspace = w; inflight = [] }))).workspace
unfolding hydrate begin_load finish_load has add
hydrate-finish_load uid kind w fetch on = elim (Bool-cases (is_kept (get_resource w uid kind))) [
  | inl kept ↦ rw kept refl
  | inr open_still ↦ simp (open_still, on, text_eq_refl (resource_key kind uid))
]
