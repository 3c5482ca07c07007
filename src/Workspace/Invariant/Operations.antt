-- ===== src/Workspace/Invariant/Operations.antt =====
-- workspace/workspace.ts: writing, making and removing keep the invariant of a session, so that what
-- `commit` guarantees holds of every transaction that these operations have built.
use grafana_pi_app.Prelude.{
  Bool, not, ◌&&◌, ◌||◌, Option, none, some, List, [], ◌∷◌, ◌++◌, Text, Bool-cases, Option-cases,
  lookup, has, inl, inr, text_eq,
}
use grafana_pi_app.Paths.{is_within, ancestor_dirs, parent_path}
use grafana_pi_app.Workspace.Kinds.{Kind, resource_key}
use grafana_pi_app.Workspace.Types.{
  Entry, PathClass, scratch, resource, resource_dir, generated, virtual, nowhere, Code, enoent,
  erofs, eisdir, eexist, workspace_error, ok, err,
}
use grafana_pi_app.Workspace.Store.{classify, get_resource, is_some, is_empty, is_indexed}
use grafana_pi_app.Workspace.Transaction.{
  Session, note_mutation, attempted, needs_hydration, fail, assert_open, hydrate_in,
  scratch_content, scratch_dir_exists, read_resource, writable_generated,
}
use grafana_pi_app.Workspace.Writes.{
  is_managed, unless_managed, base_for_write, wants_base, write_scratch, write_resource,
  write_generated, write_class, write_file, with_newline, file_in_the_way,
}
use grafana_pi_app.Workspace.Directories.{
  EntryType, file_type, dir_type, entry_type, class_type, make_dirs, make_scratch, make_class,
  make_missing, mkdir, is_dir, stage_dir, remove_child, remove_children, children_of,
  remove_scratch, has_base, base_for_remove, remove_resource, remove_class, remove_found, rm,
}
use grafana_pi_app.Workspace.Invariant.Keeps.{
  IsSound, Keeps, Keeps-state, Keeps-pure, Keeps-return, Keeps-if, IsSound-if, Keeps-bind,
  Keeps-assert_open, Keeps-note_mutation, Keeps-stage_file, Keeps-stage_resource, IsSound-attempted,
  IsSound-stage_dir, IsSound-forget_dir, Keeps-hydrate_in,
}

Keeps-fail : {A : Type 0} (code : Code) → Keeps {A = A} (fail code)
Keeps-fail code = Keeps-return (err (workspace_error code))

Keeps-write_scratch : (mount path content : Text) → Keeps (write_scratch mount path content)
unfolding write_scratch
Keeps-write_scratch mount path content = record {
  at = λ s h. IsSound-if (text_eq path mount || scratch_dir_exists s path) _ _ h (
      IsSound-if (file_in_the_way s mount (ancestor_dirs path)) _ _ h
        ((Keeps-stage_file path (some content)).at s h));
}

Keeps-unless_managed :
    (entry : Option Entry) (kind : Kind) (uid : Text) (content : Option Text)
    → Keeps (unless_managed entry kind uid content)
Keeps-unless_managed entry kind uid content = record {
  at = λ s h. IsSound-if (is_managed entry) _ _ h ((Keeps-stage_resource kind uid content).at s h);
}

Keeps-base_for_write : (kind : Kind) (uid : Text) → Keeps (base_for_write kind uid)
Keeps-base_for_write kind uid = record {
  at = λ s h.
      IsSound-if (wants_base (get_resource s.workspace uid kind) (is_indexed s.workspace uid kind))
        (hydrate_in uid kind s) (ok (get_resource s.workspace uid kind), s)
        ((Keeps-hydrate_in uid kind).at s h) h;
}

Keeps-write_resource : (kind : Kind) (uid content : Text) → Keeps (write_resource kind uid content)
unfolding write_resource
Keeps-write_resource kind uid content =
    Keeps-bind (base_for_write kind uid) _ (Keeps-base_for_write kind uid)
      (λ entry. Keeps-unless_managed entry kind uid (some (with_newline content)))

Keeps-write_generated : (path content : Text) → Keeps (write_generated path content)
Keeps-write_generated path content = record {
  at = λ s h.
      IsSound-if (writable_generated s path) _ _ ((Keeps-stage_file path (some content)).at s h) h;
}

Keeps-write_class :
    (class : PathClass) (path content : Text) → Keeps (write_class class path content)
Keeps-write_class (scratch mount) path content = Keeps-write_scratch mount path content
Keeps-write_class (resource kind uid) path content = Keeps-write_resource kind uid content
Keeps-write_class (generated root) path content = Keeps-write_generated path content
Keeps-write_class _ path content = Keeps-fail erofs

pub Keeps-write_file : (path content : Text) → Keeps (write_file path content)
unfolding write_file
Keeps-write_file path content = Keeps-bind assert_open _ Keeps-assert_open (λ _.
    Keeps-bind note_mutation _ Keeps-note_mutation (λ _.
      Keeps-state (λ s. write_class (classify s.workspace path) path content)
        (λ s. Keeps-write_class (classify s.workspace path) path content)))

Keeps-read_resource : (kind : Kind) (uid : Text) → Keeps (read_resource kind uid)
unfolding read_resource
Keeps-read_resource kind uid = record {
  at = λ s h. elim (Option-cases (lookup (resource_key kind uid) s.transaction.resources)) [
    | inl unstaged ↦
        rw (unstaged, read_resource)
          (IsSound-if
            (needs_hydration (get_resource s.workspace uid kind)
              && not (has (resource_key kind uid) s.transaction.attempts))
            _ _
            ((Keeps-hydrate_in uid kind).at (attempted (resource_key kind uid) s)
              (IsSound-attempted (resource_key kind uid) s h))
            h)
    | inr (staged, here) ↦ rw (here, read_resource) h
  ];
}

Keeps-class_type : (class : PathClass) (path : Text) → Keeps (class_type class path)
Keeps-class_type (resource kind uid) path = record {
  at = λ s h. IsSound-if _ _ _ h (
      (Keeps-bind (read_resource kind uid) _ (Keeps-read_resource kind uid) (λ c. Keeps-pure _)).at
        s h);
}
Keeps-class_type virtual path = record { at = λ s h. h }
Keeps-class_type (scratch mount) path = record { at = λ s h. h }
Keeps-class_type (resource_dir kind uid) path = record { at = λ s h. h }
Keeps-class_type (generated root) path = record { at = λ s h. h }
Keeps-class_type nowhere path = record { at = λ s h. h }

Keeps-entry_type : (path : Text) → Keeps (entry_type path)
unfolding entry_type
Keeps-entry_type path =
    Keeps-state (λ s. class_type (classify s.workspace path) path)
      (λ s. Keeps-class_type (classify s.workspace path) path)

IsSound-make_dirs :
    (mount : Text) (dirs : List Text) (s : Session) → IsSound s → IsSound (make_dirs mount dirs s).1
IsSound-make_dirs mount [] s h = h
IsSound-make_dirs mount (dir ∷ rest) s h =
    IsSound-if (is_within dir mount && not (text_eq dir mount)) _ _
      (IsSound-if (is_some (scratch_content s dir)) _ _ h
        (IsSound-make_dirs mount rest (stage_dir dir s) (IsSound-stage_dir dir s h)))
      (IsSound-make_dirs mount rest s h)

Keeps-make_scratch :
    (recursive : Bool) (mount path : Text) → Keeps (make_scratch recursive mount path)
Keeps-make_scratch recursive mount path =
    Keeps-bind _ _ (Keeps-if recursive _ _ (Keeps-pure _) (Keeps-entry_type (parent_path path)))
      (λ parent.
        Keeps-if (is_dir parent) _ _
          (record { at = IsSound-make_dirs mount (ancestor_dirs path ++ path ∷ []) })
          (Keeps-fail enoent))

Keeps-make_class :
    (recursive : Bool) (class : PathClass) (path : Text) → Keeps (make_class recursive class path)
Keeps-make_class recursive (resource_dir kind uid) path = Keeps-pure tt
Keeps-make_class recursive (scratch mount) path = Keeps-make_scratch recursive mount path
Keeps-make_class recursive _ path = Keeps-fail erofs

Keeps-make_missing :
    (recursive : Bool) (path : Text) (existing : Option EntryType)
    → Keeps (make_missing recursive path existing)
Keeps-make_missing recursive path none =
    Keeps-state (λ s. make_class recursive (classify s.workspace path) path)
      (λ s. Keeps-make_class recursive (classify s.workspace path) path)
Keeps-make_missing recursive path (some file_type) = Keeps-fail eexist
Keeps-make_missing recursive path (some dir_type) = record {
  at = λ s h. IsSound-if recursive _ _ h h;
}

pub Keeps-mkdir : (path : Text) (recursive : Bool) → Keeps (mkdir path recursive)
unfolding mkdir
Keeps-mkdir path recursive = Keeps-bind assert_open _ Keeps-assert_open (λ _.
    Keeps-bind note_mutation _ Keeps-note_mutation (λ _.
      Keeps-bind (entry_type path) _ (Keeps-entry_type path) (Keeps-make_missing recursive path)))

IsSound-remove_child : (child : Text) (s : Session) → IsSound s → IsSound (remove_child s child)
IsSound-remove_child child s h = elim (Bool-cases (is_some (scratch_content s child))) [
  | inl file_there ↦ rw file_there ((Keeps-stage_file child none).at s h)
  | inr absent ↦ rw absent (IsSound-forget_dir child s h)
]

IsSound-remove_children :
    (children : List Text) (s : Session) → IsSound s → IsSound (remove_children children s)
IsSound-remove_children [] s h = h
IsSound-remove_children (child ∷ rest) s h =
    IsSound-remove_children rest (remove_child s child) (IsSound-remove_child child s h)

Keeps-remove_scratch :
    (recursive : Bool) (path : Text) (type : EntryType) → Keeps (remove_scratch recursive path type)
unfolding remove_scratch
Keeps-remove_scratch recursive path file_type = Keeps-stage_file path none
Keeps-remove_scratch recursive path dir_type = record {
  at = λ s h. IsSound-if (not (is_empty (children_of s path)) && not recursive) _ _ h (
      IsSound-forget_dir path (remove_children (children_of s path) s)
        (IsSound-remove_children (children_of s path) s h));
}

Keeps-base_for_remove : (kind : Kind) (uid : Text) → Keeps (base_for_remove kind uid)
Keeps-base_for_remove kind uid = record {
  at = λ s h.
      IsSound-if
        (not (has_base (get_resource s.workspace uid kind)) && is_indexed s.workspace uid kind)
        (hydrate_in uid kind s) (ok (get_resource s.workspace uid kind), s)
        ((Keeps-hydrate_in uid kind).at s h) h;
}

Keeps-remove_resource : (kind : Kind) (uid : Text) → Keeps (remove_resource kind uid)
unfolding remove_resource
Keeps-remove_resource kind uid =
    Keeps-bind (base_for_remove kind uid) _ (Keeps-base_for_remove kind uid)
      (λ entry. Keeps-unless_managed entry kind uid none)

Keeps-remove_class :
    (recursive : Bool) (class : PathClass) (path : Text) (type : EntryType)
    → Keeps (remove_class recursive class path type)
Keeps-remove_class recursive (resource kind uid) path type = Keeps-remove_resource kind uid
Keeps-remove_class recursive (resource_dir kind uid) path type =
    Keeps-if recursive _ _ (Keeps-remove_resource kind uid) (Keeps-fail eisdir)
Keeps-remove_class recursive (generated root) path type = record {
  at = λ s h. IsSound-if (writable_generated s path) _ _ ((Keeps-stage_file path none).at s h) h;
}
Keeps-remove_class recursive (scratch mount) path type =
    Keeps-if (text_eq path mount) _ _ (Keeps-fail erofs) (Keeps-remove_scratch recursive path type)
Keeps-remove_class recursive virtual path type = Keeps-fail erofs
Keeps-remove_class recursive nowhere path type = Keeps-fail erofs

Keeps-remove_found :
    (recursive force : Bool) (path : Text) (type : Option EntryType)
    → Keeps (remove_found recursive force path type)
Keeps-remove_found recursive force path none = record { at = λ s h. IsSound-if force _ _ h h }
Keeps-remove_found recursive force path (some type) =
    Keeps-state (λ s. remove_class recursive (classify s.workspace path) path type)
      (λ s. Keeps-remove_class recursive (classify s.workspace path) path type)

pub Keeps-rm : (path : Text) (recursive force : Bool) → Keeps (rm path recursive force)
unfolding rm
Keeps-rm path recursive force = Keeps-bind assert_open _ Keeps-assert_open (λ _.
    Keeps-bind note_mutation _ Keeps-note_mutation (λ _.
      Keeps-bind (entry_type path) _ (Keeps-entry_type path)
        (Keeps-remove_found recursive force path)))
