-- ===== src/Workspace/Persistence/RoundTrip.antt =====
-- workspace/workspace.ts: what of a session's resources comes back from storage.
use grafana_pi_app.Prelude.{
  ℕ, ◌≡◌, refl, sym, ap, ◌∙◌, true, false, Option, none, some, List, [], ◌∷◌, Text, length, text_eq,
  text_eq_sound, ltb, Map, lookup, insert, lookup-insert, Unique, All, Bool-cases, Option-cases,
  inl, inr, if◌then◌else◌, includes,
}
use grafana_pi_app.Workspace.Kinds.{is_uid, resource_key, resource_document_path}
use grafana_pi_app.Workspace.Types.{Overlay, Entry}
use grafana_pi_app.Workspace.Persistence.{
  PersistedResource, base_content, shorter, serialize_overlay, serialize_entry, serialize_resources,
  restore_overlay, restored_entry, put_restored, restore_resource, restore_resources,
}

-- A text without carriage returns: the diff library may convert the line ends of others.
abbrev pub IsUnix : Text → Type 0
IsUnix text = includes 13 text ≡ false

-- An entry under the key of its kind and UID, with the path of its document, whose contents have no
-- carriage returns.
pub record IsStorable (item : Text × Entry) : Type 0 where
  pub key : item.0 ≡ resource_key item.1.kind item.1.uid
  pub uid : is_uid item.1.uid ≡ true
  pub path : item.1.path ≡ resource_document_path item.1.kind item.1.uid
  pub unix_base : (base : Text) → base_content item.1.base ≡ some base → IsUnix base
  pub unix_copy :
      (overlay : Overlay) (content : Text)
      → item.1.overlay ≡ some overlay
      → overlay.content ≡ some content
      → IsUnix content

-- What is stored of an entry: those with local changes.
abbrev pub modified_by : Option Overlay → Entry → Option Entry
modified_by none entry = none
modified_by (some overlay) entry = some entry

abbrev pub modified_only : Option Entry → Option Entry
modified_only none = none
modified_only (some entry) = modified_by entry.overlay entry

abbrev pub or_else : Option Entry → Option Entry → Option Entry
or_else none other = other
or_else (some entry) other = some entry

module _ (create_patch : Text → Text → Text → Text) (apply_patch : Text → Text → Option Text)
    (patch_law : (path base content : Text)
      → IsUnix base
      → IsUnix content
      → apply_patch base (create_patch path base content) ≡ some content) where
  restore_overlay-shorter :
      (path base content : Text) (updated_at : ℕ)
      → IsUnix base
      → IsUnix content
      → restore_overlay apply_patch
          (some (shorter create_patch (create_patch path base content) content updated_at))
          (some base)
        ≡ some (record { content = some content; updated_at = updated_at })
  unfolding restore_overlay
  restore_overlay-shorter path base content updated_at ub uc =
      elim (Bool-cases (ltb (length (create_patch path base content)) (length content))) [
        | inl small ↦ rw small (rw (patch_law path base content ub uc) refl)
        | inr large ↦ rw large refl
      ]

  restore-serialize_overlay :
      (path : Text) (base : Option Text) (overlay : Overlay)
      → ((b : Text) → base ≡ some b → IsUnix b)
      → ((c : Text) → overlay.content ≡ some c → IsUnix c)
      → restore_overlay apply_patch (some (serialize_overlay create_patch path base overlay)) base
        ≡ some overlay
  restore-serialize_overlay path none overlay ub uc =
      unfold restore_overlay serialize_overlay in refl
  restore-serialize_overlay path (some base) overlay ub uc = elim (Option-cases overlay.content) [
    | inl gone ↦ unfold restore_overlay serialize_overlay in rw gone refl
    | inr (content, here) ↦ elim (Bool-cases (text_eq base [])) [
      | inl unloaded ↦ unfold restore_overlay serialize_overlay in rw here (rw (unloaded) refl)
      | inr loaded ↦
          unfold serialize_overlay in
          rw here (
            rw loaded (
              restore_overlay-shorter path base content overlay.updated_at (ub base refl)
                (uc content here)))
    ]
  ]

  restored-serialize_entry :
      (key : Text) (entry : Entry) (overlay : Overlay)
      → IsStorable (key, entry)
      → entry.overlay ≡ some overlay
      → restored_entry apply_patch (serialize_entry create_patch entry overlay) overlay ≡ entry
  restored-serialize_entry key entry overlay h here = rw (← h.path, ← here) refl

  -- One modified entry comes back under its key.
  restore-serialize_entry :
      (key : Text) (entry : Entry) (overlay : Overlay) (resources : Map Entry)
      → IsStorable (key, entry)
      → entry.overlay ≡ some overlay
      → restore_resource apply_patch (serialize_entry create_patch entry overlay) resources
        ≡ insert key entry resources
  unfolding restore_resource
  restore-serialize_entry key entry overlay resources h here = rw h.uid (
      ap
        (λ (o : Option Overlay).
          put_restored apply_patch (serialize_entry create_patch entry overlay) o resources)
        (restore-serialize_overlay entry.path (base_content entry.base) overlay h.unix_base
          (λ c e. h.unix_copy overlay c here e))
      ∙ rw (h.key) (
          ap (λ (e : Entry). insert (resource_key entry.kind entry.uid) e resources)
            (restored-serialize_entry key entry overlay h here)))

  serialize_resources-same :
      (j : Text) (e : Entry) (m : Map Entry)
      → e.overlay ≡ none
      → serialize_resources create_patch ((j, e) ∷ m) ≡ serialize_resources create_patch m
  unfolding serialize_resources
  serialize_resources-same j e m same = rw same refl

  serialize_resources-modified :
      (j : Text) (e : Entry) (overlay : Overlay) (m : Map Entry)
      → e.overlay ≡ some overlay
      → serialize_resources create_patch ((j, e) ∷ m)
        ≡ serialize_entry create_patch e overlay ∷ serialize_resources create_patch m
  unfolding serialize_resources
  serialize_resources-modified j e overlay m here = rw here refl

  modified_only-none : (e : Entry) → e.overlay ≡ none → modified_only (some e) ≡ none
  modified_only-none e same = ap (λ (o : Option Overlay). modified_by o e) same

  modified_only-some :
      (e : Entry) (overlay : Overlay) → e.overlay ≡ some overlay → modified_only (some e) ≡ some e
  modified_only-some e overlay here = ap (λ (o : Option Overlay). modified_by o e) here

  or_else-same :
      (k j : Text) (e : Entry) (m resources : Map Entry)
      → lookup j m ≡ none
      → modified_only (some e) ≡ none
      → or_else (modified_only (lookup k m)) (lookup k resources)
        ≡ or_else (modified_only (lookup k ((j, e) ∷ m))) (lookup k resources)
  unfolding lookup
  or_else-same k j e m resources absent same = elim (Bool-cases (text_eq j k)) [
    | inl hit ↦
        let here : lookup k m ≡ none = rw (text_eq_sound j k hit) at absent in
        rw hit (rw here (ap (λ (o : Option Entry). or_else o (lookup k resources)) (sym same)))
    | inr miss ↦ rw miss refl
  ]

  or_else-modified :
      (k j : Text) (e : Entry) (m resources : Map Entry)
      → lookup j m ≡ none
      → modified_only (some e) ≡ some e
      → or_else (modified_only (lookup k m)) (if text_eq j k then some e else lookup k resources)
        ≡ or_else (modified_only (lookup k ((j, e) ∷ m))) (lookup k resources)
  unfolding lookup
  or_else-modified k j e m resources absent here = elim (Bool-cases (text_eq j k)) [
    | inl hit ↦
        let gone : lookup k m ≡ none = rw (text_eq_sound j k hit) at absent in
        rw hit (rw gone (ap (λ (o : Option Entry). or_else o (lookup k resources)) (sym here)))
    | inr miss ↦ rw miss refl
  ]

  restore_resources-cons :
      (r : PersistedResource) (rest : List PersistedResource) (resources : Map Entry)
      → restore_resources apply_patch (r ∷ rest) resources
        ≡ restore_resources apply_patch rest (restore_resource apply_patch r resources)
  unfolding restore_resources
  restore_resources-cons r rest resources = refl

  -- Where the patches of the diff library restore what they were made from, for texts without carriage
  -- returns, and the resources are such, a session's resources come back from storage under their keys
  -- with base and working copy, those without local changes being left out.
  pub lookup-restore_resources :
      (k : Text) (m : Map Entry) (resources : Map Entry)
      → All IsStorable m
      → Unique m
      → lookup k (restore_resources apply_patch (serialize_resources create_patch m) resources)
        ≡ or_else (modified_only (lookup k m)) (lookup k resources)
  lookup-restore_resources k [] resources h u =
      unfold lookup restore_resources serialize_resources in refl
  lookup-restore_resources k ((j, e) ∷ m) resources (h, hs) (absent, u) =
      elim (Option-cases e.overlay) [
        | inl same ↦ rw (serialize_resources-same j e m same) (
            lookup-restore_resources k m resources hs u
            ∙ or_else-same k j e m resources absent (modified_only-none e same))
        | inr (overlay, here) ↦
            let rest = serialize_resources create_patch m in
            ap
              (λ (rs : List PersistedResource).
                lookup k (restore_resources apply_patch rs resources))
              (serialize_resources-modified j e overlay m here)
            ∙ ap (λ (es : Map Entry). lookup k es)
                (restore_resources-cons (serialize_entry create_patch e overlay) rest resources
                  ∙ ap (restore_resources apply_patch rest)
                      (restore-serialize_entry j e overlay resources h here))
            ∙ lookup-restore_resources k m (insert j e resources) hs u
            ∙ ap (or_else (modified_only (lookup k m))) (lookup-insert j k e resources)
            ∙ or_else-modified k j e m resources absent (modified_only-some e overlay here)
      ]
