-- ===== src/Prelude/Maps.antt =====
-- `Map` and `Set` of the source: association lists in insertion order, keyed by texts.
use mathlib.Core.Path.{◌≡◌, refl, ◌∙◌}
use mathlib.Core.Bool.{Bool, true, false, ◌||◌}
use mathlib.Core.Option.{Option, none, some}
use mathlib.Core.List.{List, [], ◌∷◌}
use mathlib.Core.Logic.{inl, inr}
use native.Mathlib.Omega.{arith}
use grafana_pi_app.Prelude.Tests.{Bool-cases, if◌then◌else◌}
use grafana_pi_app.Prelude.Texts.{Text, text_eq, text_eq_iff, text_eq_sound}

abbrev pub Map {ℓ} : Type ℓ → Type ℓ
Map V = List (Text × V)

module _ {ℓ} {V : Type ℓ} where
  -- `map.get(k)`
  unfoldable pub lookup : Text → Map V → Option V
  lookup k [] = none
  lookup k ((j, v) ∷ m) = if text_eq j k then some v else lookup k m

  -- `map.set(k, v)`: an existing key keeps its place.
  unfoldable pub insert : Text → V → Map V → Map V
  insert k v [] = (k, v) ∷ []
  insert k v ((j, w) ∷ m) = if text_eq j k then (k, v) ∷ m else (j, w) ∷ insert k v m

  -- `map.delete(k)`
  unfoldable pub remove : Text → Map V → Map V
  remove k [] = []
  remove k ((j, w) ∷ m) = let rest = remove k m in if text_eq j k then rest else (j, w) ∷ rest

  pub lookup-insert :
      (k j : Text) (v : V) (m : Map V)
      → lookup j (insert k v m) ≡ (if text_eq k j then some v else lookup j m)
  unfolding lookup insert
  lookup-insert k j v [] = refl
  lookup-insert k j v ((i, w) ∷ m) =
      ground (arith, text_eq_iff k j, text_eq_iff i k, text_eq_iff i j, lookup-insert k j v m)

  pub lookup-remove :
      (k j : Text) (m : Map V) → lookup j (remove k m) ≡ (if text_eq k j then none else lookup j m)
  unfolding lookup remove
  lookup-remove k j [] = ground arith
  lookup-remove k j ((i, w) ∷ m) =
      ground (arith, text_eq_iff k j, text_eq_iff i k, text_eq_iff i j, lookup-remove k j m)

-- Maps that hold each key once, as every map built by `insert` and `remove` does.
module _ {ℓ} {V : Type ℓ} where
  abbrev pub Unique : Map V → Type ℓ
  Unique [] = Unit
  Unique ((k, v) ∷ m) = (lookup k m ≡ none) × Unique m

  pub Unique-insert : (k : Text) (v : V) (m : Map V) → Unique m → Unique (insert k v m)
  unfolding insert
  Unique-insert k v [] u = unfold lookup in (refl, tt)
  Unique-insert k v ((j, w) ∷ m) (absent, u) = elim (Bool-cases (text_eq j k)) [
    | inl same ↦ rw same (rw (text_eq_sound j k same) at absent, u)
    | inr other ↦ rw other (
      lookup-insert k j v m ∙ ground (arith, text_eq_iff k j, text_eq_iff j k),
      Unique-insert k v m u,
    )
  ]

  pub Unique-remove : (k : Text) (m : Map V) → Unique m → Unique (remove k m)
  unfolding remove
  Unique-remove k [] u = tt
  Unique-remove k ((j, w) ∷ m) (absent, u) = elim (Bool-cases (text_eq j k)) [
    | inl same ↦ rw same (Unique-remove k m u)
    | inr other ↦ rw other (
      lookup-remove k j m ∙ ground (arith, text_eq_iff k j, text_eq_iff j k),
      Unique-remove k m u,
    )
  ]

-- `set.has(k)`
unfoldable pub has : Text → List Text → Bool
has k [] = false
has k (j ∷ s) = text_eq j k || has k s

-- `set.add(k)`
unfoldable pub add : Text → List Text → List Text
add k [] = k ∷ []
add k (j ∷ s) = if text_eq j k then j ∷ s else j ∷ add k s

-- `set.delete(k)`
unfoldable pub delete : Text → List Text → List Text
delete k [] = []
delete k (j ∷ s) = let rest = delete k s in if text_eq j k then rest else j ∷ rest

pub has-add :
    (k j : Text) (s : List Text) → has j (add k s) ≡ (if text_eq k j then true else has j s)
unfolding has add
has-add k j [] = ground arith
has-add k j (i ∷ s) =
    ground (arith, text_eq_iff k j, text_eq_iff i k, text_eq_iff i j, has-add k j s)

pub has-delete :
    (k j : Text) (s : List Text) → has j (delete k s) ≡ (if text_eq k j then false else has j s)
unfolding has delete
has-delete k j [] = ground arith
has-delete k j (i ∷ s) =
    ground (arith, text_eq_iff k j, text_eq_iff i k, text_eq_iff i j, has-delete k j s)
