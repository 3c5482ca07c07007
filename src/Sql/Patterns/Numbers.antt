-- ===== src/Sql/Patterns/Numbers.antt =====
-- sql.ts: a text that passes for a number holds no `$`.
use grafana_pi_app.Prelude.{
  ◌≡◌, refl, sym, ap, subst, arith, ℕ, true, false, Option, none, some, [], ◌∷◌, Text, codes,
  includes, ◌==◌, Bool-cases, inl, inr,
}
use grafana_pi_app.Sql.Quoting.{dollar}
use grafana_pi_app.Sql.Patterns.{
  bind-some, is_number, is_digit, span, digits, fraction_part, exponent, after_sign, at_end,
  some_of,
}

abbrev rest_or : Option (Text × Text) → Text
rest_or none = []
rest_or (some p) = p.1

some-inj {ℓ} : {A : Type ℓ} (a b : A) → some a ≡ some b → a ≡ b
some-inj a b h = cc

at_end-some : (m : Option Text) → at_end m ≡ true → m ≡ some []
at_end-some none h = absurd (cc)
at_end-some (some []) h = refl
at_end-some (some (c ∷ s)) h = absurd (cc)

abbrev pub NoMacro : Text → Type 0
NoMacro s = includes dollar s ≡ false

span-NoMacro : (s : Text) → NoMacro (span is_digit s).1 → NoMacro s
unfolding span is_digit
span-NoMacro [] h = refl
span-NoMacro (c ∷ s) h = ground (arith, h, span-NoMacro s)

some_of-eq : (p : Text × Text) (d r : Text) → some_of p ≡ some (d, r) → p ≡ (d, r)
some_of-eq ([], rest) d r h = absurd (cc)
some_of-eq (c ∷ s, rest) d r h = cc

digits-NoMacro : (s : Text) (p : Text × Text) → digits s ≡ some p → NoMacro p.1 → NoMacro s
unfolding digits
digits-NoMacro s (d, r) h n = span-NoMacro s (rw (some_of-eq (span is_digit s) d r h) n)

fraction_part-NoMacro :
    (s : Text) (p : Text × Text) → fraction_part s ≡ some p → NoMacro p.1 → NoMacro s
unfolding fraction_part
fraction_part-NoMacro [] p h n = refl
fraction_part-NoMacro (c ∷ s) p h n = elim (Bool-cases (c == b'.')) [
  | inl e ↦
      let (q, ds, end) = bind-some (digits s) _ (rw e at h) in
      let after : NoMacro q.1 = rw (ap (λ o. rest_or o) end) n in
      ground (arith, e, digits-NoMacro s q ds after)
  | inr e ↦
      let same : some ([], c ∷ s) ≡ some p = rw e at h in subst NoMacro (sym (ap rest_or same)) n
]

sign-NoMacro :
    (signs s : Text)
    → ((c : ℕ) → includes c signs ≡ true → (c == dollar) ≡ false)
    → NoMacro (after_sign signs s)
    → NoMacro s
sign-NoMacro signs [] h n = refl
sign-NoMacro signs (c ∷ s) h n = ground (arith, n, h c)

exponent-NoMacro : (s r : Text) → exponent s ≡ some r → NoMacro r → NoMacro s
exponent-NoMacro [] r h n = refl
exponent-NoMacro (c ∷ s) r h n = elim (Bool-cases (includes c (codes "eE"))) [
  | inl e ↦
      let (q, ds, end) = bind-some (digits (after_sign (codes "-+") s)) _ (rw e at h) in
      let after : NoMacro q.1 = rw (some-inj q.1 r end) n in
      let signed = digits-NoMacro (after_sign (codes "-+") s) q ds after in
      ground (arith, e, sign-NoMacro (codes "-+") s (λ d f. ground (arith, f)) signed)
  | inr e ↦
      let same : some (c ∷ s) ≡ some r = rw e at h in
      subst NoMacro (sym (some-inj (c ∷ s) r same)) n
]

pub is_number-NoMacro : (s : Text) → is_number s ≡ true → NoMacro s
unfolding is_number
is_number-NoMacro s h =
    let (whole, d, more) = bind-some (digits (after_sign (codes "-") s)) _ (at_end-some _ h) in
    let (part, f, end) = bind-some (fraction_part whole.1) _ more in
    sign-NoMacro (codes "-") s (λ c e. ground (arith, e))
      (digits-NoMacro (after_sign (codes "-") s) whole d
        (fraction_part-NoMacro whole.1 part f (exponent-NoMacro part.1 [] end refl)))
