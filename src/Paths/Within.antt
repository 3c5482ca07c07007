-- ===== src/Paths/Within.antt =====
-- paths.ts: `isWithin`, `parentPath`, `baseName`, and `joinPath` on normalised paths.
use grafana_pi_app.Prelude.{
  ℕ, suc, ◌≡◌, ◌≢◌, refl, sym, ap, ◌∙◌, ◌↔◌, true, false, none, some, List, [], ◌∷◌, ◌++◌, arith,
  Text, text_eq, text_eq_iff, text_eq_refl, starts_with, starts_with_sound, starts_with_append, All,
  Bool-cases, inl, inr, length, drop, take-length_append, append_assoc, append-nil, text_eq_sound,
  ◌⊎◌,
}
use grafana_pi_app.Paths.{
  slash, split, join, render, is_within, last_slash, parent_path, base_name, join_path,
}
use grafana_pi_app.Paths.Segments.{IsSegment, NoSlash, split-join, split-append}

join-append :
    (p : Text) (ps : List Text) (q : Text) (qs : List Text)
    → join ((p ∷ ps) ++ (q ∷ qs)) ≡ join (p ∷ ps) ++ slash ∷ join (q ∷ qs)
unfolding join
join-append p [] q qs = refl
join-append p (r ∷ ps) q qs = rw (join-append r ps q qs) (rw append_assoc)

last_slash_of_NoSlash : (s : Text) → NoSlash s → last_slash s ≡ none
unfolding last_slash
last_slash_of_NoSlash [] h = refl
last_slash_of_NoSlash (x ∷ s) h = ground (arith, last_slash_of_NoSlash s)

last_slash-append : (p s : Text) → NoSlash s → last_slash (p ++ slash ∷ s) ≡ some (length p)
unfolding last_slash
last_slash-append [] s h = rw (last_slash_of_NoSlash s h)
last_slash-append (x ∷ p) s h = rw (last_slash-append p s h)

drop_past : (p s : Text) → drop (suc (length p)) (p ++ slash ∷ s) ≡ s
drop_past [] s = refl
drop_past (x ∷ p) s = drop_past p s

text_eq_root : (c : ℕ) (d s : Text) → text_eq (c ∷ d ++ slash ∷ s) (slash ∷ []) ≡ false
unfolding text_eq
text_eq_root c [] s = ground arith
text_eq_root c (x ∷ d) s = ground arith

parent_path-append : (c : ℕ) (d s : Text) → NoSlash s → parent_path (c ∷ d ++ slash ∷ s) ≡ c ∷ d
unfolding parent_path
parent_path-append c d s h = rw (text_eq_root c d s) (
    rw (last_slash-append (c ∷ d) s h)
      (ap (λ (l : Text). c ∷ l) (take-length_append d (slash ∷ s))))

base_name-append : (d s : Text) → NoSlash s → base_name (d ++ slash ∷ s) ≡ s
unfolding base_name
base_name-append d s h = rw (last_slash-append d s h, base_name) (drop_past d s)

join-ne-nil : (s : Text) (segments : List Text) → s ≢ [] → join (s ∷ segments) ≢ []
unfolding join
join-ne-nil [] segments h e = h refl
join-ne-nil (c ∷ s) [] h e = cc
join-ne-nil (c ∷ s) (t ∷ segments) h e = cc

pub render-ne-root :
    (s : Text) (segments : List Text)
    → s ≢ []
    → text_eq (render (s ∷ segments)) (slash ∷ []) ≡ false
unfolding render
render-ne-root s segments h =
    ground (arith, text_eq_iff (slash ∷ join (s ∷ segments)) (slash ∷ []), join-ne-nil s segments h)

join_path-render :
    (segments : List Text) (name : Text)
    → All IsSegment segments
    → join_path (render segments) name ≡ render (segments ++ name ∷ [])
unfolding join_path render join
join_path-render [] name h = refl
join_path-render (s ∷ segments) name h =
    rw (render-ne-root s segments h.0.not_empty)
      (ap (λ (l : Text). slash ∷ l) (sym (join-append s segments name [])))

parent_path-root : (name : Text) → IsSegment name → parent_path (slash ∷ name) ≡ slash ∷ []
unfolding parent_path
parent_path-root name k =
    rw (last_slash-append [] name k.no_slash)
      (ground (arith, text_eq_iff (slash ∷ name) (slash ∷ []), k.not_empty))

-- Joining a name to a directory gives the path with the name as its last segment, and the parent and
-- the base name of that path are the directory and the name.
pub parent_path-join_path :
    (segments : List Text) (name : Text)
    → All IsSegment segments
    → IsSegment name
    → (join_path (render segments) name ≡ render (segments ++ name ∷ []))
      × (parent_path (join_path (render segments) name) ≡ render segments)
      × (base_name (join_path (render segments) name) ≡ name)
unfolding render
parent_path-join_path [] name h k =
    unfold join_path join in (refl, parent_path-root name k, base_name-append [] name k.no_slash)
parent_path-join_path (s ∷ segments) name h k = (
  join_path-render (s ∷ segments) name h,
  rw (join_path-render (s ∷ segments) name h, join-append s segments name [])
      (unfold join in parent_path-append slash (join (s ∷ segments)) name k.no_slash),
  rw (join_path-render (s ∷ segments) name h, join-append s segments name [])
      (unfold join in base_name-append (slash ∷ join (s ∷ segments)) name k.no_slash),
)

NoSlash-of : (segments : List Text) → All IsSegment segments → All NoSlash segments
NoSlash-of [] h = tt
NoSlash-of (s ∷ segments) (p, h) = (p.no_slash, NoSlash-of segments h)

split-join_append :
    (p : Text) (ps : List Text) (r : Text)
    → All NoSlash (p ∷ ps)
    → split slash (join (p ∷ ps) ++ slash ∷ r) ≡ (p ∷ ps) ++ split slash r
unfolding join
split-join_append p [] r h = split-append p r h.0
split-join_append p (q ∷ ps) r h = rw append_assoc (
    rw (split-append p (join (q ∷ ps) ++ slash ∷ r) h.0)
      (ap (λ (l : List Text). p ∷ l) (split-join_append q ps r h.1)))

render-injective :
    (a b : List Text) → All IsSegment a → All IsSegment b → render a ≡ render b → a ≡ b
unfolding render
render-injective [] [] h k e = refl
render-injective [] (t ∷ b) h k e = absurd (join-ne-nil t b k.0.not_empty (unfold join in cc e))
render-injective (s ∷ a) [] h k e = absurd (join-ne-nil s a h.0.not_empty (unfold join in cc e))
render-injective (s ∷ a) (t ∷ b) h k e =
    sym (split-join s a (NoSlash-of (s ∷ a) h))
    ∙ ap (split slash) (cc e)
    ∙ split-join t b (NoSlash-of (t ∷ b) k)

is_within-prefix :
    (a : List Text) (t : Text) (b : List Text) (r : Text)
    → All IsSegment a
    → All IsSegment (t ∷ b)
    → render a ≡ (render (t ∷ b) ++ slash ∷ []) ++ r
    → (c : List Text) × (a ≡ (t ∷ b) ++ c)
unfolding render
is_within-prefix [] (c ∷ t) [] r h k e = unfold join in absurd (cc e)
is_within-prefix [] (c ∷ t) (u ∷ b) r h k e = unfold join in absurd (cc e)
is_within-prefix [] [] b r h k e = absurd (k.0.not_empty refl)
is_within-prefix (s ∷ a) t b r h k e = (
  split slash r,
  sym (split-join s a (NoSlash-of (s ∷ a) h))
      ∙ ap (split slash) (cc (e, append_assoc (join (t ∷ b)) (slash ∷ []) r))
      ∙ split-join_append t b r (NoSlash-of (t ∷ b) k),
)

is_within_of_prefix : (p root r : Text) → p ≡ (root ++ slash ∷ []) ++ r → is_within p root ≡ true
unfolding is_within
is_within_of_prefix p root r e = rw e (ground (arith, starts_with_append (root ++ slash ∷ []) r))

is_within_cases :
    (p root : Text)
    → text_eq root (slash ∷ []) ≡ false
    → is_within p root ≡ true
    → (p ≡ root) ⊎ (starts_with p (root ++ slash ∷ []) ≡ true)
unfolding is_within
is_within_cases p root other h = elim (Bool-cases (text_eq p root)) [
  | inl same ↦ inl (text_eq_sound p root same)
  | inr differs ↦ inr (ground arith)
]

is_within-append :
    (t : Text) (b c : List Text) → is_within (render ((t ∷ b) ++ c)) (render (t ∷ b)) ≡ true
unfolding is_within
is_within-append t b [] = rw (append-nil b, text_eq_refl (render (t ∷ b))) (ground arith)
is_within-append t b (q ∷ c) = rw (
    is_within_of_prefix (render ((t ∷ b) ++ q ∷ c)) (render (t ∷ b)) (join (q ∷ c)) (
      unfold render in
      rw (join-append t b q c) (cc (append_assoc (join (t ∷ b)) (slash ∷ []) (join (q ∷ c))))))

-- A path lies within a directory by its text exactly when the segments of the directory begin those of the path.
pub is_within_iff :
    (a b : List Text)
    → All IsSegment a
    → All IsSegment b
    → (is_within (render a) (render b) ≡ true) ↔ ((c : List Text) × (a ≡ b ++ c))
is_within_iff a [] h k = (λ _. (a, refl), λ _. unfold is_within render join text_eq in refl)
is_within_iff a (t ∷ b) h k = (
  λ w. elim (is_within_cases (render a) (render (t ∷ b)) (render-ne-root t b k.0.not_empty) w) [
    | inl same ↦ ([], render-injective a (t ∷ b) h k same ∙ sym (append-nil (t ∷ b)))
    | inr starts ↦
        let (r, e) = starts_with_sound (render a) (render (t ∷ b) ++ slash ∷ []) starts in
        is_within-prefix a t b r h k e
  ],
  λ (c, e). rw e (is_within-append t b c),
)
