-- ===== src/ChangeGroups/Edits.antt =====
-- changeGroups.ts: `replacement` is an edit of the line that leaves its start and end alone.
use grafana_pi_app.Prelude.{
  ℕ, ◌+◌, ◌-◌, ◌≤◌, ◌≡◌, refl, sym, ap, ◌∙◌, arith, [], ◌∷◌, ◌++◌, append_assoc, reverse,
  reverse-reverse, Text, length, length-append, length-reverse, take, drop, take-append-drop,
  take-length_append, drop-length_append, Bool-cases, inl, inr,
}
use grafana_pi_app.ChangeGroups.{
  is_word_char, agreement, word_start, common_end, widened_start, widened_end, middle, clip,
  replacement,
}
use grafana_pi_app.ChangeGroups.Slices.{
  take-agreement, agreement-le, agreement-le_right, length-take, length-drop, split_end,
  middle-append, drop-drop,
}

-- The first item is what is cut out of the line, the second one what is put in its place.
pub record IsEdit (before after : Text) (edit : Text × Text) : Type 0 where
  pub prefix : Text
  pub old : Text
  pub new : Text
  pub suffix : Text
  pub before_is : before ≡ prefix ++ (old ++ suffix)
  pub after_is : after ≡ prefix ++ (new ++ suffix)
  pub clipped : edit ≡ (clip old, clip new)
  pub starts : word_start (reverse prefix) ≡ 0
  pub ends : word_start suffix ≡ 0

word_start-drop : (s : Text) → word_start (drop (word_start s) s) ≡ 0
unfolding word_start
word_start-drop [] = refl
word_start-drop (c ∷ s) = elim (Bool-cases (is_word_char c)) [
  | inl h ↦ rw h (word_start-drop s)
  | inr h ↦ rw h (rw h refl)
]

word_start-le : (s : Text) → word_start s ≤ length s
unfolding word_start
word_start-le [] = omega arith
word_start-le (c ∷ s) = elim (Bool-cases (is_word_char c)) [
  | inl h ↦ ground (arith, h, word_start-le s)
  | inr h ↦ ground (arith, h)
]

-- The text in front of the word that a text ends with.
module _ (start : ℕ) (s : Text) (h : start ≤ length s) where
  widened_start-le : widened_start s start ≤ start
  unfolding widened_start
  widened_start-le = omega arith

  take-widened_start :
      take (widened_start s start) s
      ≡ reverse (drop (word_start (reverse (take start s))) (reverse (take start s)))
  unfolding widened_start
  take-widened_start =
      let p = take start s in
      let r = reverse p in
      let k = word_start r in
      let front = reverse (drop k r) in
      let size : start - k ≡ length front = omega (
        arith,
        length-reverse (drop k r),
        length-drop k r,
        length-reverse p,
        length-take start s h,
      ) in
      let rest = reverse (take k r) ++ drop start s in
      let whole : s ≡ front ++ rest =
        sym (take-append-drop start s)
        ∙ ap (λ q. q ++ drop start s) (split_end k p)
        ∙ append_assoc front (reverse (take k r)) (drop start s) in
      ap (λ n. take n s) size ∙ ap (take (length front)) whole ∙ take-length_append front rest

  word_start-take : word_start (reverse (take (widened_start s start) s)) ≡ 0
  word_start-take =
      let r = reverse (take start s) in
      rw take-widened_start (rw (reverse-reverse (drop (word_start r) r)) (word_start-drop r))

module _ (before after : Text) where
  abbrev start : ℕ
  start = agreement before after

  abbrev first : ℕ
  first = widened_start before start

  abbrev last : ℕ
  last = widened_end before (common_end before after start)

  abbrev tail_of : Text → Text
  tail_of s = reverse (drop start s)

  abbrev end_of : Text → Text
  end_of s = reverse (take last (tail_of s))

  last-le : last ≤ agreement (tail_of before) (tail_of after)
  unfolding widened_end common_end
  last-le = omega arith

  last-le_before : last ≤ length (tail_of before)
  last-le_before = omega (arith, last-le, agreement-le (tail_of before) (tail_of after))

  last-le_after : last ≤ length (tail_of after)
  last-le_after = omega (arith, last-le, agreement-le_right (tail_of before) (tail_of after))

  common_end-le : common_end before after start ≤ length before
  unfolding common_end
  common_end-le = omega (
    arith,
    agreement-le (tail_of before) (tail_of after),
    length-reverse (drop start before),
    length-drop start before,
  )

  abbrev front_of : Text → Text
  front_of s = take start s ++ reverse (drop last (tail_of s))

  front_of-append-end_of : (s : Text) → s ≡ front_of s ++ end_of s
  front_of-append-end_of s =
      sym (take-append-drop start s)
      ∙ ap (λ d. take start s ++ d) (split_end last (drop start s))
      ∙ sym (append_assoc (take start s) (reverse (drop last (tail_of s))) (end_of s))

  length-end_of : (s : Text) → last ≤ length (tail_of s) → length (end_of s) ≡ last
  length-end_of s k = length-reverse (take last (tail_of s)) ∙ length-take last (tail_of s) k

  -- One of the two lines, around the middle.
  around :
      (s : Text)
      → start ≤ length s
      → last ≤ length (tail_of s)
      → s ≡ take first s ++ (middle first last s ++ end_of s)
  around s h k =
      middle-append first last s (front_of s) (end_of s) (front_of-append-end_of s)
        (omega (
          arith,
          widened_start-le start before (agreement-le before after),
          length-append (take start s) (reverse (drop last (tail_of s))),
          length-take start s h,
        ))
        (length-end_of s k)

  end_of-drop : last ≤ length (tail_of before) → end_of before ≡ drop (length before - last) before
  end_of-drop k =
      let front = front_of before in
      let size : length before - last ≡ length front = omega (
        arith,
        ap length (front_of-append-end_of before),
        length-append front (end_of before),
        length-end_of before k,
      ) in
      sym (
        ap (λ n. drop n before) size
        ∙ ap (drop (length front)) (front_of-append-end_of before)
        ∙ drop-length_append front (end_of before))

  word_start-end_of : word_start (end_of before) ≡ 0
  unfolding widened_end
  word_start-end_of =
      let ce = common_end before after start in
      let w = drop (length before - ce) before in
      let size : length before - last ≡ length before - ce + word_start w =
        omega (arith, common_end-le, word_start-le w, length-drop (length before - ce) before) in
      ap word_start (
        end_of-drop last-le_before
        ∙ ap (λ n. drop n before) size
        ∙ sym (drop-drop (word_start w) (length before - ce) before))
      ∙ word_start-drop w

-- A replacement is an edit: the line before is a prefix, the old part and a suffix, the line after the
-- same prefix, the new part and the same suffix, the two parts are trimmed and clipped, and no word is
-- cut: the prefix of the line before ends in no word character and the suffix starts with none.
pub replacement-IsEdit : (before after : Text) → IsEdit before after (replacement before after)
unfolding replacement
replacement-IsEdit before after =
    let n = first before after in
    let fits = widened_start-le (start before after) before (agreement-le before after) in
    let middle_of : Text → Text = λ s. middle n (last before after) s in
    let same_end : end_of before after after ≡ end_of before after before = ap reverse (
      sym (
        take-agreement (last before after) (tail_of before after before)
          (tail_of before after after) (last-le before after))) in
    record {
      prefix = take n before;
      old = middle_of before;
      new = middle_of after;
      suffix = end_of before after before;
      before_is =
          around before after before (agreement-le before after) (last-le_before before after);
      after_is =
          around before after after (agreement-le_right before after) (last-le_after before after)
          ∙ ap (λ p. p ++ (middle_of after ++ end_of before after after))
              (sym (take-agreement n before after fits))
          ∙ ap (λ e. take n before ++ (middle_of after ++ e)) same_end;
      clipped = refl;
      starts = word_start-take (start before after) before (agreement-le before after);
      ends = word_start-end_of before after;
    }
