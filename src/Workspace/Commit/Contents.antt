-- ===== src/Workspace/Commit/Contents.antt =====
-- workspace/workspace.ts, `applyStaged` and `applyCommitted`: what is committed is what was staged.
use grafana_pi_app.Prelude.{
  ℕ, ◌≡◌, ◌≢◌, refl, ap, ◌∙◌, true, false, Option, none, some, [], ◌∷◌, arith, Text, text_eq,
  text_eq_refl, text_eq_sound, Bool-cases, Option-cases, inl, inr, Map, lookup, insert, remove,
  lookup-insert, lookup-remove, Unique, All,
}
use grafana_pi_app.Workspace.Types.{Entry, ScratchFile}
use grafana_pi_app.Workspace.Kinds.{parse_resource_key}
use grafana_pi_app.Workspace.Store.{
  resource_content, apply_files, put_entry, without_overlay, applied_entry, apply_resource,
  apply_resources, same_as_base,
}
use grafana_pi_app.Workspace.Transaction.{committed_content, content_of}
use grafana_pi_app.Workspace.Commit.Staged.{staged_or}

pub content-apply_files :
    (now : ℕ) (staged : Map (Option Text)) (files : Map ScratchFile) (path : Text)
    → Unique staged
    → committed_content (lookup path (apply_files now staged files))
      ≡ staged_or (lookup path staged) (committed_content (lookup path files))
unfolding apply_files
content-apply_files now [] files path u = unfold lookup in refl
content-apply_files now ((k, none) ∷ rest) files path (absent, u) =
    content-apply_files now rest (remove k files) path u ∙ (elim (Bool-cases (text_eq k path)) [
      | inl same ↦
          let e : k ≡ path = text_eq_sound k path same in
          rw lookup-remove (unfold lookup in rw (same, ← e, absent))
      | inr other ↦ rw lookup-remove (unfold lookup in rw other)
    ])
content-apply_files now ((k, some content) ∷ rest) files path (absent, u) =
    content-apply_files now rest (insert k (record { content = content; mtime = now }) files) path u
    ∙ (elim (Bool-cases (text_eq k path)) [
      | inl same ↦
          let e : k ≡ path = text_eq_sound k path same in
          rw lookup-insert (unfold lookup in rw (same, ← e, absent))
      | inr other ↦ rw lookup-insert (unfold lookup in rw other)
    ])

lookup-put_entry :
    (key : Text) (entry : Option Entry) (m : Map Entry) → lookup key (put_entry key entry m) ≡ entry
lookup-put_entry key none m = rw (lookup-remove, text_eq_refl)
lookup-put_entry key (some entry) m = rw (lookup-insert, text_eq_refl)

lookup-put_entry_ne :
    (key j : Text) (entry : Option Entry) (m : Map Entry)
    → text_eq key j ≡ false
    → lookup j (put_entry key entry m) ≡ lookup j m
lookup-put_entry_ne key j none m other = rw (lookup-remove, other)
lookup-put_entry_ne key j (some entry) m other = rw (lookup-insert, other)

same_as_base-content :
    (existing : Option Entry) (content : Text)
    → same_as_base existing content ≡ true
    → content_of (without_overlay existing) ≡ some content
unfolding resource_content
same_as_base-content none content h = cc
same_as_base-content (some entry) content h = elim (Option-cases entry.base) [
  | inl local ↦ cc (rw local at h)
  | inr (base, loaded) ↦ rw loaded (ap some (text_eq_sound base.content content (rw loaded at h)))
]

-- A staged resource document is what its entry shows once it is applied.
content-applied_entry :
    (now : ℕ) (key : Text) (staged : Option Text) (existing : Option Entry)
    → parse_resource_key key ≢ none
    → content_of (applied_entry now key staged existing) ≡ staged
unfolding applied_entry resource_content
content-applied_entry now key none none parses = refl
content-applied_entry now key none (some entry) parses = ground arith
content-applied_entry now key (some content) existing parses =
    elim (Option-cases (parse_resource_key key)) [
      | inl bad ↦ absurd (parses bad)
      | inr (place, good) ↦ elim (Bool-cases (same_as_base existing content)) [
        | inl same ↦
            rw (good, applied_entry, content_of)
              (rw (same, content_of) (same_as_base-content existing content same))
        | inr new ↦ rw (good, applied_entry, content_of) (rw (new, content_of))
      ]
    ]

content-apply_resource :
    (now : ℕ) (key : Text) (resources : Map Entry) (staged : Option Text)
    → parse_resource_key key ≢ none
    → content_of (lookup key (apply_resource now key staged resources)) ≡ staged
unfolding apply_resource
content-apply_resource now key resources staged parses =
    rw (lookup-put_entry key (applied_entry now key staged (lookup key resources)) resources)
      (content-applied_entry now key staged (lookup key resources) parses)

lookup-apply_resource_ne :
    (now : ℕ) (key : Text) (resources : Map Entry) (j : Text) (staged : Option Text)
    → text_eq key j ≡ false
    → lookup j (apply_resource now key staged resources) ≡ lookup j resources
unfolding apply_resource
lookup-apply_resource_ne now key resources j staged other =
    lookup-put_entry_ne key j (applied_entry now key staged (lookup key resources)) resources other

abbrev pub Parses : Map (Option Text) → Type 0
Parses staged = All (λ e. parse_resource_key e.0 ≢ none) staged

pub content-apply_resources :
    (now : ℕ) (staged : Map (Option Text)) (resources : Map Entry) (key : Text)
    → Unique staged
    → Parses staged
    → content_of (lookup key (apply_resources now staged resources))
      ≡ staged_or (lookup key staged) (content_of (lookup key resources))
unfolding apply_resources
content-apply_resources now [] resources key u p = unfold lookup in refl
content-apply_resources now ((k, c) ∷ rest) resources key (absent, u) (p, ps) =
    content-apply_resources now rest (apply_resource now k c resources) key u ps
    ∙ (elim (Bool-cases (text_eq k key)) [
      | inl same ↦
          let e : k ≡ key = text_eq_sound k key same in
          unfold lookup in
          rw (same, ← e, absent)
            (unfold resource_content in content-apply_resource now k resources c p)
      | inr other ↦
          rw (lookup-apply_resource_ne now k resources key c other) (unfold lookup in rw other)
    ])
