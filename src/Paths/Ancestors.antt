-- ===== src/Paths/Ancestors.antt =====
-- paths.ts: `ancestorDirs` on normalised paths.
use grafana_pi_app.Prelude.{
  ℕ, zero, suc, ◌≤◌, ◌≡◌, refl, sym, ◌∙◌, false, List, [], ◌∷◌, ◌++◌, arith, Text, text_eq, reverse,
  ◌<◌, All, length, append_assoc, append-nil, All-reverse, reverse-cons, length-append,
  length-reverse,
}
use grafana_pi_app.Paths.{slash, join, render, parent_path, ancestors_from, ancestor_dirs}
use grafana_pi_app.Paths.Segments.{IsSegment}
use grafana_pi_app.Paths.Within.{render-ne-root, parent_path-join_path}

-- The renderings of the nonempty initial parts of a path, shortest first; its last segment stands at the head.
abbrev pub prefixes_of : List Text → List Text
prefixes_of [] = []
prefixes_of (s ∷ above) = prefixes_of above ++ render (reverse (s ∷ above)) ∷ []

render-ne-root_append :
    (above : List Text) (s : Text)
    → All IsSegment above
    → IsSegment s
    → text_eq (render (above ++ s ∷ [])) (slash ∷ []) ≡ false
render-ne-root_append [] s h k = render-ne-root s [] k.not_empty
render-ne-root_append (t ∷ above) s h k = render-ne-root t (above ++ s ∷ []) h.0.not_empty

parent_path-render :
    (above : List Text) (s : Text)
    → All IsSegment above
    → IsSegment s
    → parent_path (render (above ++ s ∷ [])) ≡ render above
parent_path-render above s h k =
    let (joined, parent, base) = parent_path-join_path above s h k in rw (← joined) parent

ancestors_from-prefixes :
    (fuel : ℕ) (above dirs : List Text)
    → All IsSegment above
    → length above < fuel
    → ancestors_from fuel (render (reverse above)) dirs ≡ prefixes_of above ++ dirs
unfolding ancestors_from
ancestors_from-prefixes zero above dirs h lt = elim lt [ ]
ancestors_from-prefixes (suc fuel) [] dirs h lt = unfold render join text_eq in refl
ancestors_from-prefixes (suc fuel) (s ∷ above) dirs (k, h) lt =
    let split_off : reverse (s ∷ above) ≡ reverse above ++ s ∷ [] = reverse-cons s above in
    rw
      (
        split_off,
        render-ne-root_append (reverse above) s (All-reverse IsSegment above h) k,
        parent_path-render (reverse above) s (All-reverse IsSegment above h) k,
      )
      (ancestors_from-prefixes fuel above (render (reverse above ++ s ∷ []) ∷ dirs) h (omega arith)
        ∙ sym (append_assoc (prefixes_of above) (render (reverse above ++ s ∷ []) ∷ []) dirs))

length-le-render : (segments : List Text) → length segments ≤ length (render segments)
unfolding render join
length-le-render [] = omega arith
length-le-render (s ∷ []) = omega arith
length-le-render (s ∷ t ∷ segments) =
    omega (arith, length-append s (slash ∷ join (t ∷ segments)), length-le-render (t ∷ segments))

-- The ancestors of a normalised path are the renderings of its proper initial parts, from the
-- shortest to the parent, without the root: the loop ends, and its fuel is enough.
pub ancestor_dirs-prefixes :
    (above : List Text) (s : Text)
    → All IsSegment above
    → IsSegment s
    → ancestor_dirs (render (reverse above ++ s ∷ [])) ≡ prefixes_of above
unfolding ancestor_dirs
ancestor_dirs-prefixes above s h k =
    rw (parent_path-render (reverse above) s (All-reverse IsSegment above h) k) (
      ancestors_from-prefixes (suc (length (render (reverse above ++ s ∷ [])))) above [] h (
        omega (
          arith,
          length-le-render (reverse above ++ s ∷ []),
          length-append (reverse above) (s ∷ []),
          length-reverse above,
        ))
      ∙ append-nil _)
