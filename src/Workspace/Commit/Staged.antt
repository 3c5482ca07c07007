-- ===== src/Workspace/Commit/Staged.antt =====
-- workspace/workspace.ts, `applyStaged`: the staged maps, with each key once, and their effective part.
use grafana_pi_app.Prelude.{
  ◌≡◌, refl, sym, ap, ◌∙◌, Bool, true, false, Option, none, some, [], ◌∷◌, arith, Text, text_eq,
  text_eq_iff, text_eq_sound, Bool-cases, inl, inr, Map, lookup, Unique, All,
}
use grafana_pi_app.Workspace.Transaction.{same_option, effective}

abbrev pub Avoids {ℓ} : {V : Type ℓ} → Text → Map V → Type 0
Avoids k m = All (λ e. text_eq k e.0 ≡ false) m

pub Avoids-of_absent {ℓ} : {V : Type ℓ} (k : Text) (m : Map V) → lookup k m ≡ none → Avoids k m
unfolding lookup
Avoids-of_absent k [] h = tt
Avoids-of_absent k ((j, v) ∷ m) h =
    (ground (arith, text_eq_iff j k, text_eq_iff k j), Avoids-of_absent k m (ground (arith)))

pub same_option_sound : (a b : Option Text) → same_option a b ≡ true → a ≡ b
same_option_sound none none h = refl
same_option_sound (some a) (some b) h = ap some (text_eq_sound a b h)
same_option_sound _ _ h = cc

-- What a staged map says of a key: the staged content, or what was there before.
abbrev pub staged_or : Option (Option Text) → Option Text → Option Text
staged_or none before = before
staged_or (some content) before = content

abbrev kept_if : Bool → Option Text → Option (Option Text)
kept_if true content = none
kept_if false content = some content

abbrev effective_at : Option (Option Text) → Option Text → Option (Option Text)
effective_at none before = none
effective_at (some content) before = kept_if (same_option content before) content

module _ (before : Text → Option Text) where
  effective-absent :
      (k : Text) (m : Map (Option Text)) → lookup k m ≡ none → lookup k (effective before m) ≡ none
  unfolding effective lookup
  effective-absent k [] h = refl
  effective-absent k ((j, c) ∷ m) h = ground (arith, effective-absent k m)

  pub Unique-effective : (m : Map (Option Text)) → Unique m → Unique (effective before m)
  unfolding effective
  Unique-effective [] u = tt
  Unique-effective ((j, c) ∷ m) (absent, u) = elim (Bool-cases (same_option c (before j))) [
    | inl same ↦ rw same (Unique-effective m u)
    | inr new ↦ rw new (effective-absent j m absent, Unique-effective m u)
  ]

  lookup-effective :
      (k : Text) (m : Map (Option Text))
      → Unique m
      → lookup k (effective before m) ≡ effective_at (lookup k m) (before k)
  unfolding effective lookup
  lookup-effective k [] u = refl
  lookup-effective k ((j, c) ∷ m) (absent, u) = elim (Bool-cases (text_eq j k)) [
    | inl same ↦
        let e : j ≡ k = text_eq_sound j k same in
        rw (same, ← e) (ground (arith, effective-absent j m absent, text_eq_iff j j))
    | inr other ↦ rw other (ground (arith, lookup-effective k m u))
  ]

  -- Dropping the entries that change nothing leaves what the staged map says of every key.
  pub staged_or-effective :
      (k : Text) (m : Map (Option Text))
      → Unique m
      → staged_or (lookup k (effective before m)) (before k) ≡ staged_or (lookup k m) (before k)
  staged_or-effective k m u =
      ap (λ o. staged_or o (before k)) (lookup-effective k m u) ∙ kept (lookup k m)
    where
      kept :
          (o : Option (Option Text))
          → staged_or (effective_at o (before k)) (before k) ≡ staged_or o (before k)
      kept none = refl
      kept (some c) = elim (Bool-cases (same_option c (before k))) [
        | inl same ↦ rw same (sym (same_option_sound c (before k) same))
        | inr new ↦ rw new
      ]
