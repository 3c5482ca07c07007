-- ===== src/Paths/Bytes.antt =====
-- paths.ts: what `truncateUtf8` keeps.
use grafana_pi_app.Prelude.{
  ℕ, ◌+◌, ◌≤◌, ◌≡◌, refl, sym, ap, true, false, [], ◌∷◌, ◌++◌, arith, Text, leb, ltb, ◌==◌,
  Bool-cases, inl, inr, leb→le, append-nil,
}
use grafana_pi_app.Paths.{utf8_byte_length, unit_width, truncate_from, truncate_utf8}

abbrev pub IsPrefix : Text → Text → Type 0
IsPrefix p s = (r : Text) × (s ≡ p ++ r)

IsPrefix-cons : (c : ℕ) (p s : Text) → IsPrefix p s → IsPrefix (c ∷ p) (c ∷ s)
IsPrefix-cons c p s (r, e) = (r, ap (λ (l : Text). c ∷ l) e)

-- The text kept is a prefix.
truncate_from-prefix : (max bytes : ℕ) (s : Text) → IsPrefix (truncate_from max bytes s) s
unfolding truncate_from
truncate_from-prefix max bytes [] = ([], refl)
truncate_from-prefix max bytes (c ∷ []) = elim (Bool-cases (ltb max (bytes + unit_width c))) [
  | inl full ↦ rw full (c ∷ [], refl)
  | inr room ↦ rw room ([], refl)
]
truncate_from-prefix max bytes (c ∷ d ∷ s) = elim (Bool-cases (ltb max (bytes + unit_width c))) [
  | inl full ↦ rw full (c ∷ d ∷ s, refl)
  | inr room ↦ elim (Bool-cases (unit_width c == 4)) [
    | inl pair ↦
        rw (room, pair)
          (IsPrefix-cons c (d ∷ truncate_from max (bytes + unit_width c) s) (d ∷ s) (
            IsPrefix-cons d (truncate_from max (bytes + unit_width c) s) s
              (truncate_from-prefix max (bytes + unit_width c) s)))
    | inr one ↦
        rw (room, one)
          (IsPrefix-cons c (truncate_from max (bytes + unit_width c) (d ∷ s)) (d ∷ s)
            (truncate_from-prefix max (bytes + unit_width c) (d ∷ s)))
  ]
]

-- Outside a surrogate pair the bytes add up unit by unit.
utf8_byte_length-cons :
    (c : ℕ) (s : Text)
    → (unit_width c == 4) ≡ false
    → utf8_byte_length (c ∷ s) ≡ unit_width c + utf8_byte_length s
unfolding utf8_byte_length unit_width
utf8_byte_length-cons c [] h = ground arith
utf8_byte_length-cons c (d ∷ s) h = ground arith

utf8_byte_length-pair :
    (c d : ℕ) (s : Text)
    → (unit_width c == 4) ≡ true
    → utf8_byte_length (c ∷ d ∷ s) ≡ 4 + utf8_byte_length s
unfolding utf8_byte_length unit_width
utf8_byte_length-pair c d s h = ground arith

utf8_byte_length-one : (c : ℕ) → utf8_byte_length (c ∷ []) ≤ unit_width c
unfolding utf8_byte_length unit_width
utf8_byte_length-one c = ground arith

truncate_from-le :
    (max bytes : ℕ) (s : Text)
    → bytes ≤ max
    → bytes + utf8_byte_length (truncate_from max bytes s) ≤ max
unfolding truncate_from
truncate_from-le max bytes [] h = unfold utf8_byte_length in omega arith
truncate_from-le max bytes (c ∷ []) h = unfold utf8_byte_length unit_width in ground arith
truncate_from-le max bytes (c ∷ d ∷ s) h = ground (
  arith,
  truncate_from-le max (bytes + unit_width c) s,
  truncate_from-le max (bytes + unit_width c) (d ∷ s),
  utf8_byte_length-pair c d (truncate_from max (bytes + unit_width c) s),
  utf8_byte_length-cons c (truncate_from max (bytes + unit_width c) (d ∷ s)),
  utf8_byte_length-empty,
)
  where
    utf8_byte_length-empty : utf8_byte_length [] ≡ 0
    utf8_byte_length-empty = unfold utf8_byte_length in refl

-- The text that `truncateUtf8` returns is a prefix of the given one, takes at most `maxBytes` bytes
-- of UTF-8, and is the whole text exactly when the result is not marked as truncated and the text
-- was within the limit.
pub truncate_utf8_bounds :
    (value : Text) (max_bytes : ℕ)
    → IsPrefix (truncate_utf8 value max_bytes).0 value
      × (utf8_byte_length (truncate_utf8 value max_bytes).0 ≤ max_bytes)
      × ((truncate_utf8 value max_bytes).1 ≡ ltb max_bytes (utf8_byte_length value))
      × ((truncate_utf8 value max_bytes).1 ≡ false → (truncate_utf8 value max_bytes).0 ≡ value)
unfolding truncate_utf8
truncate_utf8_bounds value max_bytes = elim (Bool-cases (leb (utf8_byte_length value) max_bytes)) [
  | inl fits ↦ rw fits (([], sym (append-nil value)), leb→le _ _ fits, ground arith, λ _. refl)
  | inr long ↦ rw long (
    truncate_from-prefix max_bytes 0 value,
    omega (arith, truncate_from-le max_bytes 0 value),
    ground arith,
    λ e. cc,
  )
]
