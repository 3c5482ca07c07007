-- ===== src/ChangeGroups/Slices.antt =====
-- changeGroups.ts: the slices of a text around a position counted from its start or its end.
use grafana_pi_app.Prelude.{
  ℕ, zero, suc, ◌+◌, ◌-◌, ◌≤◌, ◌≡◌, refl, sym, ap, ◌∙◌, arith, List, [], ◌∷◌, ◌++◌, reverse,
  reverse-append, reverse-reverse, Text, length, length-append, take, drop, take-append-drop,
  take-length_append, ◌==◌, ==_iff, Bool-cases, inl, inr,
}
use grafana_pi_app.ChangeGroups.{agreement, middle}

pub take-agreement : (n : ℕ) (s t : Text) → n ≤ agreement s t → take n s ≡ take n t
unfolding agreement
take-agreement zero s t h = refl
take-agreement (suc n) [] [] h = refl
take-agreement (suc n) [] (y ∷ t) h = absurd (omega arith)
take-agreement (suc n) (x ∷ s) [] h = absurd (omega arith)
take-agreement (suc n) (x ∷ s) (y ∷ t) h = elim (Bool-cases (x == y)) [
  | inl e ↦ rw ((==_iff x y).0 e) (ap (λ l. y ∷ l) (take-agreement n s t (ground (arith, e, h))))
  | inr e ↦ absurd (ground (arith, e, h))
]

pub agreement-le : (s t : Text) → agreement s t ≤ length s
unfolding agreement
agreement-le [] [] = omega arith
agreement-le [] (y ∷ t) = omega arith
agreement-le (x ∷ s) [] = omega arith
agreement-le (x ∷ s) (y ∷ t) = elim (Bool-cases (x == y)) [
  | inl e ↦ ground (arith, e, agreement-le s t)
  | inr e ↦ ground (arith, e)
]

pub agreement-le_right : (s t : Text) → agreement s t ≤ length t
unfolding agreement
agreement-le_right [] [] = omega arith
agreement-le_right [] (y ∷ t) = omega arith
agreement-le_right (x ∷ s) [] = omega arith
agreement-le_right (x ∷ s) (y ∷ t) = elim (Bool-cases (x == y)) [
  | inl e ↦ ground (arith, e, agreement-le_right s t)
  | inr e ↦ ground (arith, e)
]

module _ {ℓ} {A : Type ℓ} where
  pub length-take : (n : ℕ) (xs : List A) → n ≤ length xs → length (take n xs) ≡ n
  length-take zero xs h = refl
  length-take (suc n) [] h = absurd (omega arith)
  length-take (suc n) (x ∷ xs) h = ap suc (length-take n xs (omega arith))

  pub length-drop : (n : ℕ) (xs : List A) → length (drop n xs) ≡ length xs - n
  length-drop zero xs = omega arith
  length-drop (suc n) [] = omega arith
  length-drop (suc n) (x ∷ xs) = omega (arith, length-drop n xs)

  drop-append : (n : ℕ) (xs ys : List A) → n ≤ length xs → drop n (xs ++ ys) ≡ drop n xs ++ ys
  drop-append zero xs ys h = refl
  drop-append (suc n) [] ys h = absurd (omega arith)
  drop-append (suc n) (x ∷ xs) ys h = drop-append n xs ys (omega arith)

  -- The last items, as the first ones of the reverse.
  pub split_end :
      (n : ℕ) (xs : List A) → xs ≡ reverse (drop n (reverse xs)) ++ reverse (take n (reverse xs))
  split_end n xs =
      sym (reverse-reverse xs)
      ∙ ap reverse (sym (take-append-drop n (reverse xs)))
      ∙ reverse-append (take n (reverse xs)) (drop n (reverse xs))

middle-drop : (n m : ℕ) (u v : Text) → n ≤ length u → length v ≡ m → middle n m (u ++ v) ≡ drop n u
middle-drop n m u v h e =
    let size : length (u ++ v) - m - n ≡ length (drop n u) =
      omega (arith, length-append u v, length-drop n u) in
    rw size (rw (drop-append n u v h) (take-length_append (drop n u) v))

-- What a slice leaves out stands before and behind it.
pub middle-append :
    (n m : ℕ) (s u v : Text)
    → s ≡ u ++ v
    → n ≤ length u
    → length v ≡ m
    → s ≡ take n s ++ (middle n m s ++ v)
middle-append n m s u v e h k =
    let kept : drop n s ≡ middle n m s ++ v =
      rw e (rw (middle-drop n m u v h k) (drop-append n u v h)) in
    sym (take-append-drop n s) ∙ ap (λ r. take n s ++ r) kept

module _ {ℓ} {A : Type ℓ} where
  drop-nil : (n : ℕ) → drop {A = A} n [] ≡ []
  drop-nil zero = refl
  drop-nil (suc n) = refl

  pub drop-drop : (m n : ℕ) (xs : List A) → drop m (drop n xs) ≡ drop (n + m) xs
  drop-drop m zero xs = let e : 0 + m ≡ m = omega arith in rw e refl
  drop-drop m (suc n) [] = drop-nil m ∙ sym (drop-nil (suc n + m))
  drop-drop m (suc n) (x ∷ xs) =
      let e : suc n + m ≡ suc (n + m) = omega arith in rw e (drop-drop m n xs)
