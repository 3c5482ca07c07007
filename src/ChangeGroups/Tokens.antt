-- ===== src/ChangeGroups/Tokens.antt =====
-- changeGroups.ts: `TOKEN` loses nothing of a line.
use grafana_pi_app.Prelude.{
  ◌≡◌, refl, ap, arith, ℕ, true, [], ◌∷◌, ◌++◌, Text, All, Bool-cases, inl, inr, ◌⊎◌,
}
use grafana_pi_app.Paths.{is_space}
use grafana_pi_app.ChangeGroups.{
  join, tokens, scan, Alternative, word_run, blank_run, no_run, goes_on, run_at, matches, in_word,
  is_other,
}

-- The three classes leave out no unit.
matches_all : (c : ℕ) → matches c ≡ true
unfolding matches in_word is_other
matches_all c = ground arith

join-scan : (run : Alternative) (s : Text) → (scan run s).0 ++ join (scan run s).1 ≡ s
unfolding scan
join-scan run [] = refl
join-scan run (c ∷ s) = elim (Bool-cases (goes_on run c)) [
  | inl e ↦ rw e (ap (λ t. c ∷ t) (join-scan run s))
  | inr e ↦ rw e (rw (matches_all c) (ap (λ t. c ∷ t) (join-scan (run_at c) s)))
]

scan-no_run : (s : Text) → (scan no_run s).0 ≡ []
unfolding scan goes_on
scan-no_run [] = refl
scan-no_run (c ∷ s) = rw (matches_all c) refl

-- A word, whitespace, or one unit.
abbrev pub IsToken : Text → Type 0
IsToken [] = ⊥
IsToken (c ∷ rest) =
    All (λ d. in_word d ≡ true) (c ∷ rest) ⊎ (All (λ d. is_space d ≡ true) (c ∷ rest) ⊎ (rest ≡ []))

scan-goes_on : (run : Alternative) (s : Text) → All (λ d. goes_on run d ≡ true) (scan run s).0
unfolding scan
scan-goes_on run [] = tt
scan-goes_on run (c ∷ s) = elim (Bool-cases (goes_on run c)) [
  | inl e ↦ rw e (e, scan-goes_on run s)
  | inr e ↦ rw e (rw (matches_all c) tt)
]

IsToken-run_at : (c : ℕ) (s : Text) → IsToken (c ∷ (scan (run_at c) s).0)
unfolding run_at goes_on
IsToken-run_at c s = elim (Bool-cases (in_word c)) [
  | inl w ↦ inl (w, rw w (scan-goes_on word_run s))
  | inr n ↦ elim (Bool-cases (is_space c)) [
    | inl b ↦ inr (inl (b, rw n (rw b (scan-goes_on blank_run s))))
    | inr o ↦ inr (inr (rw n (rw o (scan-no_run s))))
  ]
]

scan-AllToken : (run : Alternative) (s : Text) → All IsToken (scan run s).1
unfolding scan
scan-AllToken run [] = tt
scan-AllToken run (c ∷ s) = elim (Bool-cases (goes_on run c)) [
  | inl e ↦ rw e (scan-AllToken run s)
  | inr e ↦ rw e (rw (matches_all c) (IsToken-run_at c s, scan-AllToken (run_at c) s))
]

-- The matches of the pattern, one after the other, are the line: no unit is skipped. Each is a word,
-- whitespace, or one unit.
pub join-tokens : (s : Text) → (join (tokens s) ≡ s) × All IsToken (tokens s)
unfolding tokens
join-tokens s =
    let whole : (scan no_run s).0 ++ join (scan no_run s).1 ≡ s = join-scan no_run s in
    (rw (scan-no_run s) at whole, scan-AllToken no_run s)
