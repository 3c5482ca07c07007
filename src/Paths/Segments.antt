-- ===== src/Paths/Segments.antt =====
-- paths.ts: the segments of a normalised path, and the laws of `split` and `join`.
use grafana_pi_app.Prelude.{
  ℕ, ◌≤◌, ◌≡◌, ◌≢◌, refl, sym, ap, ◌∙◌, true, false, List, [], ◌∷◌, ◌++◌, arith, Text, text_eq,
  text_eq_iff, includes, All, All-reverse, reverse, reverse-cons, append-nil, append_assoc, ◌==◌,
  Bool, Bool-cases, inl, inr, ltb,
}
use grafana_pi_app.Paths.{
  slash, dot, dot_dot, Checked, ok, err, ◌>>=◌, max_segment_bytes, utf8_byte_length, split, join,
  push_segment, resolve,
}

abbrev pub NoSlash : Text → Type 0
NoSlash s = includes slash s ≡ false

-- What a segment of a normalised path is like.
pub record IsSegment (s : Text) : Type 0 where
  pub not_empty : s ≢ []
  pub not_dot : s ≢ dot
  pub not_dot_dot : s ≢ dot_dot
  pub no_slash : NoSlash s
  pub short : utf8_byte_length s ≤ max_segment_bytes

pub split-NoSlash : (s : Text) → All NoSlash (split slash s)
unfolding split
split-NoSlash [] = (refl, tt)
split-NoSlash (x ∷ s) = go (split slash s) (split-NoSlash s)
  where
    go :
        (rest : List Text)
        → All NoSlash rest
        → All NoSlash (
            grafana_pi_app.Prelude.if◌then◌else◌
              (x == slash)
              ([] ∷ rest)
              (elim rest [ [] ↦ (x ∷ []) ∷ [] | p ∷ ps ↦ (x ∷ p) ∷ ps ]))
    go [] h = ground arith
    go (p ∷ ps) h = ground arith

pub split_of_NoSlash : (s : Text) → NoSlash s → split slash s ≡ s ∷ []
unfolding split
split_of_NoSlash [] h = refl
split_of_NoSlash (x ∷ s) h = ground (arith, split_of_NoSlash s)

pub split-append : (p s : Text) → NoSlash p → split slash (p ++ slash ∷ s) ≡ p ∷ split slash s
unfolding split
split-append [] s h = refl
split-append (x ∷ p) s h = ground (arith, split-append p s)

pub split-join :
    (p : Text) (ps : List Text) → All NoSlash (p ∷ ps) → split slash (join (p ∷ ps)) ≡ p ∷ ps
unfolding join
split-join p [] h = split_of_NoSlash p h.0
split-join p (q ∷ ps) h =
    split-append p (join (q ∷ ps)) h.0 ∙ ap (λ (l : List Text). p ∷ l) (split-join q ps h.1)

-- A check that passed, taken apart into its first step and the rest.
pub both_passed :
    {S R : Type 0} (first : Checked S) (rest : S → Checked R) {r : R}
    → (first >>= rest) ≡ ok r
    → (s : S) × (first ≡ ok s) × (rest s ≡ ok r)
both_passed (err why) rest passed = cc
both_passed (ok s) rest passed = (s, refl, passed)

push_segment-IsSegment :
    (clamp : Bool) (stack out : List Text) (part : Text)
    → All IsSegment stack
    → NoSlash part
    → push_segment clamp stack part ≡ ok out
    → All IsSegment out
unfolding push_segment
push_segment-IsSegment clamp [] out part h k e =
    ground (arith, text_eq_iff part [], text_eq_iff part dot, text_eq_iff part dot_dot)
push_segment-IsSegment clamp (top ∷ stack) out part h k e =
    ground (arith, text_eq_iff part [], text_eq_iff part dot, text_eq_iff part dot_dot)

pub resolve-IsSegment :
    (clamp : Bool) (stack parts out : List Text)
    → All IsSegment stack
    → All NoSlash parts
    → resolve clamp stack parts ≡ ok out
    → All IsSegment out
unfolding resolve
resolve-IsSegment clamp stack [] out h k e =
    let same : reverse stack ≡ out = cc in rw (← same) (All-reverse IsSegment stack h)
resolve-IsSegment clamp stack (part ∷ parts) out h k e =
    let (next, pushed, rest) = both_passed (push_segment clamp stack part) _ e in
    resolve-IsSegment clamp next parts out
      (push_segment-IsSegment clamp stack next part h k.0 pushed) k.1 rest

push_segment_of_IsSegment :
    (clamp : Bool) (stack : List Text) (part : Text)
    → IsSegment part
    → push_segment clamp stack part ≡ ok (part ∷ stack)
unfolding push_segment
push_segment_of_IsSegment clamp stack part h = ground (
  arith,
  text_eq_iff part [],
  text_eq_iff part dot,
  text_eq_iff part dot_dot,
  h.not_empty,
  h.not_dot,
  h.not_dot_dot,
  h.short,
)

-- Segments that need no change are kept, in their order.
pub resolve_of_IsSegment :
    (clamp : Bool) (stack parts : List Text)
    → All IsSegment parts
    → resolve clamp stack parts ≡ ok (reverse stack ++ parts)
unfolding resolve
resolve_of_IsSegment clamp stack [] h = ap (λ (l : List Text). ok l) (sym (append-nil _))
resolve_of_IsSegment clamp stack (part ∷ parts) (p, h) =
    rw (push_segment_of_IsSegment clamp stack part p)
      (resolve_of_IsSegment clamp (part ∷ stack) parts h ∙ simp (reverse-cons, append_assoc))
