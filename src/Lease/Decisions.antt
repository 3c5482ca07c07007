-- ===== src/Lease/Decisions.antt =====
-- lease.ts: what `tryAcquire` writes may replace what it has read.
use grafana_pi_app.Prelude.{
  ℕ, ◌+◌, ◌≤◌, ◌≡◌, inl, inr, refl, sym, ap, subst, ◌∙◌, arith, true, false, not, ◌&&◌, Option,
  none, some, ltb, ltb→lt, ◌==◌, ==_iff, Bool-cases,
}
use grafana_pi_app.Lease.{
  Options, Lease, Write, held, send, expiry, spec_of, taking, decide, is_other, Elector,
}
use grafana_pi_app.Lease.Safe.{IsPast, Claims, AllRead, Beats}

some-inj {ℓ} : {A : Type ℓ} {a b : A} → some a ≡ some b → a ≡ b
some-inj h = cc

expiry-spec_of : (o : Options) (i a r n : ℕ) → expiry o (spec_of o i a r n) ≡ r + o.duration
unfolding expiry spec_of
expiry-spec_of o i a r n = refl

holder-spec_of : (o : Options) (i a r n : ℕ) → (spec_of o i a r n).holder ≡ some i
unfolding spec_of
holder-spec_of o i a r n = refl

send-inj : {v w : Write} → send v ≡ send w → v ≡ w
send-inj h = cc

holder-taking : (o : Options) (i r : ℕ) (l : Lease) → (taking o i r l).spec.holder ≡ some i
unfolding taking
holder-taking o i r l = refl

expiry-taking :
    (o : Options) (i r : ℕ) (l : Lease) → expiry o (taking o i r l).spec ≡ r + o.duration
unfolding taking expiry
expiry-taking o i r l = refl

decide-free :
    (o : Options) (i r : ℕ) (l : Lease)
    → (is_other i l.spec.holder && not (ltb (expiry o l.spec) r)) ≡ false
    → send (taking o i r l) ≡ decide o i r (some l)
unfolding decide
decide-free o i r l free = ground (arith, free)

decide-taken :
    (o : Options) (i r : ℕ) (l : Lease)
    → (is_other i l.spec.holder && not (ltb (expiry o l.spec) r)) ≡ true
    → held ≡ decide o i r (some l)
unfolding decide
decide-taken o i r l taken = ground (arith, taken)

base-taking :
    (o : Options) (i r : ℕ) (l : Lease)
    → ((taking o i r l).base ≡ some l.version) × ((taking o i r l).from ≡ i)
unfolding taking
base-taking o i r l = (refl, refl)

module _ (o : Options) (now : ℕ) (lease : Option Lease) (i : ℕ) (e : Elector)
    (began : e.started ≤ now) where
  Beats-read :
      (l : Lease) (holder : Option ℕ)
      → l.spec.holder ≡ holder
      → (l.spec.holder ≡ some i → expiry o l.spec ≤ e.started + o.duration)
      → (is_other i holder && not (ltb (expiry o l.spec) e.started)) ≡ false
      → Beats o i e.started l
  Beats-read l none h own free = inl h
  Beats-read l (some j) h own free = elim (Bool-cases (j == i)) [
    | inl same ↦ let mine = h ∙ ap (λ k. some k) ((==_iff j i).0 same) in inr (inl (mine, own mine))
    | inr other ↦ inr (inr (ltb→lt (expiry o l.spec) e.started (ground (arith, free, other))))
  ]

  -- The write names the lease that was read, which it may replace if it still stands.
  pub decide-Claims :
      (snapshot : Option Lease) (w : Write)
      → AllRead o lease i e snapshot
      → decide o i e.started snapshot ≡ send w
      → (w.from ≡ i) × Claims o now lease w e.started
  decide-Claims none w h d =
      subst (λ w. (w.from ≡ i) × Claims o now lease w e.started) (send-inj (decided_none ∙ d))
        (
          refl,
          record {
            claims = holder-spec_of o i e.started e.started 0;
            expires = expiry-spec_of o i e.started e.started 0;
            began = began;
            past = tt;
            beats = λ l (_, b). absurd (cc (b));
          },
        )
    where
      decided_none :
          send (record { from = i; base = none; spec = spec_of o i e.started e.started 0 })
          ≡ decide o i e.started none
      decided_none = unfold decide in refl
  decide-Claims (some l) w h d =
      elim (Bool-cases (is_other i l.spec.holder && not (ltb (expiry o l.spec) e.started))) [
        | inl taken ↦ absurd (cc (decide-taken o i e.started l taken, d))
        | inr free ↦
            let (names, from) = base-taking o i e.started l in
            subst (λ w. (w.from ≡ i) × Claims o now lease w e.started)
              (send-inj (decide-free o i e.started l free ∙ d))
              (
                from,
                record {
                  claims = holder-taking o i e.started l ∙ ap (λ k. some k) (sym from);
                  expires = expiry-taking o i e.started l;
                  began = began;
                  past = subst (IsPast o lease) (sym names) h.past;
                  beats = λ c (k, b).
                      let same = h.same c k (some-inj (sym names ∙ b)) in
                      subst (λ j. Beats o j e.started c) (sym from)
                        (subst (Beats o i e.started) same
                          (Beats-read l l.spec.holder refl h.own free));
                },
              )
      ]
