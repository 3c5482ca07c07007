-- ===== src/Workspace/Loading.antt =====
-- workspace/workspace.ts: loading a resource leaves local changes alone.
pub mod Flights
use grafana_pi_app.Prelude.{
  ◌≡◌, ◌∙◌, true, false, Option, none, some, Text, text_eq, text_eq_sound, lookup, lookup-insert,
  Bool-cases, inl, inr,
}
use grafana_pi_app.Workspace.Kinds.{Kind, resource_key, is_uid}
use grafana_pi_app.Workspace.Types.{
  Snapshot, Overlay, Entry, Fetched, found, missing, rejected, Result, ok, err,
}
use grafana_pi_app.Workspace.Store.{
  Workspace, set_resource_base, hydrate, after_base, store_fetched, is_kept, get_resource,
  kept_overlay, is_some,
}

-- The entry under the key, with its working copy.
pub record HasWorkingCopy (key : Text) (entry : Entry) (overlay : Overlay) (w : Workspace)
    : Type 0 where
  pub here : lookup key w.resources ≡ some entry
  pub edited : entry.overlay ≡ some overlay

module _ (key : Text) (entry : Entry) (overlay : Overlay) where
  conflicting :
      (snapshot : Snapshot) (w : Workspace)
      → HasWorkingCopy key entry overlay w
      → text_eq (resource_key snapshot.meta.kind snapshot.meta.uid) key ≡ true
      → kept_overlay false (get_resource w snapshot.meta.uid snapshot.meta.kind) ≡ some overlay
  conflicting snapshot w h same =
      rw (text_eq_sound (resource_key snapshot.meta.kind snapshot.meta.uid) key same)
        (rw h.here h.edited)

  HasWorkingCopy-set_resource_base :
      (snapshot : Snapshot) (w : Workspace)
      → HasWorkingCopy key entry overlay w
      → HasWorkingCopy key entry overlay (set_resource_base snapshot false w).1
  unfolding set_resource_base
  HasWorkingCopy-set_resource_base snapshot w h = elim (Bool-cases (is_uid snapshot.meta.uid)) [
    | inr bad ↦ rw bad h
    | inl good ↦
        elim (Bool-cases (text_eq (resource_key snapshot.meta.kind snapshot.meta.uid) key)) [
          | inl same ↦ rw good (rw (conflicting snapshot w h same) h)
          | inr other ↦
              rw good
                (elim (Bool-cases (
                  is_some
                    (kept_overlay false (get_resource w snapshot.meta.uid snapshot.meta.kind)))) [
                      | inl edited_too ↦ rw edited_too h
                      | inr free ↦ rw free (record {
                        here =
                            lookup-insert (resource_key snapshot.meta.kind snapshot.meta.uid) key _
                              w.resources
                            ∙ rw other h.here;
                        edited = h.edited;
                      })
                    ])
        ]
  ]

  HasWorkingCopy-after_base :
      (uid : Text) (kind : Kind) (p : Result (Unit {0}) × Workspace)
      → HasWorkingCopy key entry overlay p.1
      → HasWorkingCopy key entry overlay (after_base uid kind p).1
  HasWorkingCopy-after_base uid kind (ok x, w) h = h
  HasWorkingCopy-after_base uid kind (err e, w) h = h

  pub HasWorkingCopy-store_fetched :
      (uid : Text) (kind : Kind) (answer : Fetched) (w : Workspace)
      → HasWorkingCopy key entry overlay w
      → HasWorkingCopy key entry overlay (store_fetched uid kind answer w).1
  HasWorkingCopy-store_fetched uid kind rejected w h = h
  HasWorkingCopy-store_fetched uid kind missing w h = h
  HasWorkingCopy-store_fetched uid kind (found snapshot) w h =
      elim (Bool-cases (is_kept (get_resource w uid kind))) [
        | inl kept ↦ rw kept h
        | inr open_still ↦ rw open_still (
            HasWorkingCopy-after_base uid kind (set_resource_base snapshot false w)
              (HasWorkingCopy-set_resource_base snapshot w h))
      ]
