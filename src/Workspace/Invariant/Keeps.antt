-- ===== src/Workspace/Invariant/Keeps.antt =====
-- What an operation keeps, whether it returns or throws: one rule for each way to build one.
use grafana_pi_app.Prelude.{
  ◌≡◌, refl, ◌∙◌, Bool, true, false, ◌||◌, Option, none, [], ◌∷◌, arith, Text, text_eq, Map, insert,
  Unique, Unique-insert, has-add, has-delete, ◌≢◌, Bool-cases, Option-cases, inl, inr,
  if◌then◌else◌,
}
use grafana_pi_app.Workspace.Kinds.{
  Kind, resource_key, parse_resource_key, parse_resource_key-resource_key,
}
use grafana_pi_app.Workspace.Types.{
  Snapshot, Fetched, found, missing, rejected, eperm, workspace_error, Result, ok, err,
}
use grafana_pi_app.Workspace.Store.{
  Workspace, set_resource_base, hydrate, after_base, store_fetched, is_kept, get_resource,
}
use grafana_pi_app.Workspace.Transaction.{
  Session, Run, note_mutation, attempted, continue, continue-ok, continue-err, ◌>>=◌, pure,
  assert_open, hydrate_in,
}
use grafana_pi_app.Workspace.Writes.{stage_file, stage_resource}
use grafana_pi_app.Workspace.Directories.{stage_dir, forget_dir}
use grafana_pi_app.Workspace.Commit.Contents.{Parses}
use grafana_pi_app.Workspace.Commit.Outcome.{IsStaged}

-- The staged maps hold each key once, their keys name resources, and no directory is both made and
-- removed; the committed files hold each path once.
pub record IsSound (s : Session) : Type 0 where
  pub staged : IsStaged s.transaction
  pub files : Unique s.workspace.files

pub record Keeps {A : Type 0} (m : Run A) : Type 0 where
  pub at : (s : Session) → IsSound s → IsSound (m s).1

-- An operation whose course depends on the state.
pub Keeps-state :
    {A : Type 0} (m : Session → Run A) → ((s : Session) → Keeps (m s)) → Keeps (λ s. m s s)
Keeps-state m k = record { at = λ s h. (k s).at s h }

pub Keeps-pure : {A : Type 0} (a : A) → Keeps (pure a)
Keeps-pure a = record { at = λ s h. h }

pub Keeps-return : {A : Type 0} (r : Result A) → Keeps (λ s. (r, s))
Keeps-return r = record { at = λ s h. h }

pub Keeps-if :
    {A : Type 0} (b : Bool) (m n : Run A) → Keeps m → Keeps n → Keeps (if b then m else n)
Keeps-if true m n km kn = km
Keeps-if false m n km kn = kn

-- The same where the branches are answers already.
pub IsSound-if :
    {A : Type 0} (b : Bool) (p q : Result A × Session)
    → IsSound p.1
    → IsSound q.1
    → IsSound (if b then p else q).1
IsSound-if true p q hp hq = hp
IsSound-if false p q hp hq = hq

pub Keeps-bind :
    {A B : Type 0} (m : Run A) (f : A → Run B) → Keeps m → ((a : A) → Keeps (f a)) → Keeps (m >>= f)
Keeps-bind {A} {B} m f km kf = record { at = λ s h. go (m s) (km.at s h) }
  where
    go : (p : Result A × Session) → IsSound p.1 → IsSound (continue p f).1
    go (ok a, s) h = rw continue-ok ((kf a).at s h)
    go (err e, s) h = rw continue-err h

pub Keeps-assert_open : Keeps assert_open
unfolding assert_open
Keeps-assert_open = record {
  at = λ s h.
      IsSound-if (s.transaction.closed || s.transaction.aborted) (err (workspace_error eperm), s)
        (ok tt, s) h h;
}

pub Keeps-note_mutation : Keeps note_mutation
Keeps-note_mutation = record {
  at = λ s h. record {
    staged = record {
      files = h.staged.files;
      resources = h.staged.resources;
      parses = h.staged.parses;
      disjoint = h.staged.disjoint;
    };
    files = h.files;
  };
}

pub IsSound-attempted : (key : Text) (s : Session) → IsSound s → IsSound (attempted key s)
IsSound-attempted key s h = record {
  staged = record {
    files = h.staged.files;
    resources = h.staged.resources;
    parses = h.staged.parses;
    disjoint = h.staged.disjoint;
  };
  files = h.files;
}

pub Keeps-stage_file : (path : Text) (content : Option Text) → Keeps (stage_file path content)
Keeps-stage_file path content = record {
  at = λ s h. record {
    staged = record {
      files = Unique-insert path content s.transaction.files h.staged.files;
      resources = h.staged.resources;
      parses = h.staged.parses;
      disjoint = h.staged.disjoint;
    };
    files = h.files;
  };
}

Parses-insert :
    (key : Text) (content : Option Text) (staged : Map (Option Text))
    → parse_resource_key key ≢ none
    → Parses staged
    → Parses (insert key content staged)
unfolding insert
Parses-insert key content [] p ps = (p, tt)
Parses-insert key content ((k, c) ∷ staged) p (q, ps) = elim (Bool-cases (text_eq k key)) [
  | inl same ↦ rw same (p, ps)
  | inr other ↦ rw other (q, Parses-insert key content staged p ps)
]

pub Keeps-stage_resource :
    (kind : Kind) (uid : Text) (content : Option Text) → Keeps (stage_resource kind uid content)
Keeps-stage_resource kind uid content = record {
  at = λ s h. record {
    staged = record {
      files = h.staged.files;
      resources =
          Unique-insert (resource_key kind uid) content s.transaction.resources h.staged.resources;
      parses =
          Parses-insert (resource_key kind uid) content s.transaction.resources
            (λ e. cc (e, parse_resource_key-resource_key kind uid)) h.staged.parses;
      disjoint = h.staged.disjoint;
    };
    files = h.files;
  };
}

-- Staging a directory as made takes it out of the removed ones, and the other way round.
pub IsSound-stage_dir : (dir : Text) (s : Session) → IsSound s → IsSound (stage_dir dir s)
IsSound-stage_dir dir s h = record {
  staged = record {
    files = h.staged.files;
    resources = h.staged.resources;
    parses = h.staged.parses;
    disjoint = λ d. ground (
      arith,
      h.staged.disjoint d,
      has-add dir d s.transaction.dirs_added,
      has-delete dir d s.transaction.dirs_removed,
    );
  };
  files = h.files;
}

pub IsSound-forget_dir : (dir : Text) (s : Session) → IsSound s → IsSound (forget_dir dir s)
IsSound-forget_dir dir s h = record {
  staged = record {
    files = h.staged.files;
    resources = h.staged.resources;
    parses = h.staged.parses;
    disjoint = λ d. ground (
      arith,
      h.staged.disjoint d,
      has-delete dir d s.transaction.dirs_added,
      has-add dir d s.transaction.dirs_removed,
    );
  };
  files = h.files;
}

-- Loading a resource touches no file and nothing staged.
files-set_resource_base :
    (snapshot : Snapshot) (discard : Bool) (w : Workspace)
    → (set_resource_base snapshot discard w).1.files ≡ w.files
unfolding set_resource_base
files-set_resource_base snapshot discard w = ground arith

files-after_base :
    (uid : Text) (kind : Kind) (p : Result (Unit {0}) × Workspace)
    → (after_base uid kind p).1.files ≡ p.1.files
files-after_base uid kind (ok x, w) = refl
files-after_base uid kind (err e, w) = refl

files-store_fetched :
    (uid : Text) (kind : Kind) (answer : Fetched) (w : Workspace)
    → (store_fetched uid kind answer w).1.files ≡ w.files
files-store_fetched uid kind rejected w = refl
files-store_fetched uid kind missing w = refl
files-store_fetched uid kind (found snapshot) w =
    elim (Bool-cases (is_kept (get_resource w uid kind))) [
      | inl kept ↦ rw kept refl
      | inr open_still ↦ rw open_still (
          files-after_base uid kind (set_resource_base snapshot false w)
          ∙ files-set_resource_base snapshot false w)
    ]

files-hydrate : (uid : Text) (kind : Kind) (w : Workspace) → (hydrate uid kind w).1.files ≡ w.files
files-hydrate uid kind w = elim (Bool-cases (is_kept (get_resource w uid kind))) [
  | inl kept ↦ unfold hydrate in rw kept
  | inr open_still ↦ elim (Option-cases w.hydrator) [
    | inl off ↦ unfold hydrate in rw (open_still) (rw off)
    | inr (fetch, on) ↦
        unfold hydrate in rw (open_still) (rw on (files-store_fetched uid kind (fetch kind uid) w))
  ]
]

pub Keeps-hydrate_in : (uid : Text) (kind : Kind) → Keeps (hydrate_in uid kind)
unfolding hydrate_in
Keeps-hydrate_in uid kind = record {
  at = λ s h. record { staged = h.staged; files = rw (files-hydrate uid kind s.workspace) h.files };
}
