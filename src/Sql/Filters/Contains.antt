-- ===== src/Sql/Filters/Contains.antt =====
-- sql.ts: the pattern of a contains filter, read by the rules of LIKE, looks for the value.
use grafana_pi_app.Prelude.{
  ℕ, ◌≡◌, refl, arith, Bool, true, false, ◌&&◌, ◌||◌, [], ◌∷◌, ◌++◌, Text, includes, starts_with,
  ◌==◌, if◌then◌else◌, Bool-cases, inl, inr, codes, ◌∙◌,
}
use grafana_pi_app.Sql.Filters.{escaped, like_pattern}

-- Some end of the text passes the test.
any_end : (Text → Bool) → Text → Bool
any_end test [] = test []
any_end test (x ∷ s) = test (x ∷ s) || any_end test s

abbrev head_is : ℕ → (Text → Bool) → Text → Bool
head_is c test [] = false
head_is c test (x ∷ s) = x == c && test s

abbrev one_unit : (Text → Bool) → Text → Bool
one_unit test [] = false
one_unit test (x ∷ s) = test s

-- LIKE: `%` for any text, `_` for any unit, `[c]` for the unit c, and any other unit for itself.
-- Longer classes are not described; the program writes none.
pub like : Text → Text → Bool
unfolding any_end
like [] [] = true
like [] (x ∷ s) = false
like (c ∷ []) s =
    if c == b'%'
    then any_end (like []) s
    else if c == b'_'
    then one_unit (like []) s
    else head_is c (like []) s
like (c ∷ d ∷ []) s =
    if c == b'%'
    then any_end (like (d ∷ [])) s
    else if c == b'_'
    then one_unit (like (d ∷ [])) s
    else head_is c (like (d ∷ [])) s
like (c ∷ d ∷ e ∷ p) s =
    if c == b'%'
    then any_end (like (d ∷ e ∷ p)) s
    else if c == b'_'
    then one_unit (like (d ∷ e ∷ p)) s
    else if c == b'[' && e == b']'
    then head_is d (like p) s
    else head_is c (like (d ∷ e ∷ p)) s

-- The value stands somewhere in the text: `includes`.
pub contains_text : Text → Text → Bool
unfolding starts_with
contains_text value [] = starts_with [] value
contains_text value (x ∷ s) = starts_with (x ∷ s) value || contains_text value s

like-any : (s : Text) → like (codes "%") s ≡ true
unfolding like
like-any [] = refl
like-any (x ∷ s) = ground (arith, like-any s)

any_end-map : (f g : Text → Bool) (s : Text) → ((t : Text) → f t ≡ g t) → any_end f s ≡ any_end g s
unfolding any_end
any_end-map f g [] h = h []
any_end-map f g (x ∷ s) h = ground (arith, h (x ∷ s), any_end-map f g s h)

any_end-contains_text :
    (value s : Text) → any_end (λ t. starts_with t value) s ≡ contains_text value s
unfolding any_end contains_text
any_end-contains_text value [] = refl
any_end-contains_text value (x ∷ s) = ground (arith, any_end-contains_text value s)

like-percent : (p s : Text) → like (b'%' ∷ p) s ≡ any_end (like p) s
unfolding like
like-percent [] s = refl
like-percent (d ∷ []) s = refl
like-percent (d ∷ e ∷ p) s = refl

like-unit :
    (c : ℕ) (p s : Text) → includes c (codes "[%_") ≡ false → like (c ∷ p) s ≡ head_is c (like p) s
unfolding like
like-unit c [] s h = ground (arith, h)
like-unit c (d ∷ []) s h = ground (arith, h)
like-unit c (d ∷ e ∷ p) s h = ground (arith, h)

like-class : (c : ℕ) (p s : Text) → like (b'[' ∷ c ∷ b']' ∷ p) s ≡ head_is c (like p) s
unfolding like
like-class c p s = refl

head_is-starts_with :
    (c : ℕ) (p value s : Text)
    → ((t : Text) → like p t ≡ starts_with t value)
    → head_is c (like p) s ≡ starts_with s (c ∷ value)
unfolding starts_with
head_is-starts_with c p value [] h = refl
head_is-starts_with c p value (x ∷ s) h = rw (h s) refl

like-escaped : (value s : Text) → like (escaped value ++ codes "%") s ≡ starts_with s value
unfolding escaped
like-escaped [] s = unfold starts_with in like-any s
like-escaped (c ∷ value) s = elim (Bool-cases (includes c (codes "[%_"))) [
  | inl e ↦ rw e (
      like-class c (escaped value ++ codes "%") s
      ∙ head_is-starts_with c (escaped value ++ codes "%") value s (like-escaped value))
  | inr e ↦ rw e (
      like-unit c (escaped value ++ codes "%") s e
      ∙ head_is-starts_with c (escaped value ++ codes "%") value s (like-escaped value))
]

-- The pattern of a contains filter matches exactly the texts in which the value stands, whatever
-- wildcards and brackets the value contains.
pub like-like_pattern : (value s : Text) → like (like_pattern value) s ≡ contains_text value s
unfolding like_pattern
like-like_pattern value s =
    like-percent (escaped value ++ codes "%") s
    ∙ any_end-map (like (escaped value ++ codes "%")) (λ t. starts_with t value) s
        (like-escaped value)
    ∙ any_end-contains_text value s
