-- ===== src/Lease/Writes.antt =====
-- lease.ts: a write that the server accepts takes the lease from no replica that leads.
use grafana_pi_app.Prelude.{
  ℕ, ◌+◌, ◌≤◌, ◌<◌, ◌≡◌, inl, inr, refl, sym, ap, ◌∙◌, arith, Bool, true, false, Option, none, some,
  List, ==_iff, All, if◌then◌else◌,
}
use grafana_pi_app.Lease.{
  Options, Spec, Lease, Write, Phase, idle, getting, got, writing, answered, Elector, expiry,
  accepts, stored, next_version,
}
use grafana_pi_app.Lease.Election.{State}
use grafana_pi_app.Lease.Safe.{
  Held, Beats, Names, IsPast, Claims, IsSound, AllRead, InPhase, IsSafe, All-map,
}

some-inj {ℓ} : {A : Type ℓ} {a b : A} → some a ≡ some b → a ≡ b
some-inj h = cc

-- An accepted write names the lease that stands.
accepts-Names :
    (lease : Option Lease) (base : Option ℕ) (l : Lease)
    → accepts lease base ≡ true
    → lease ≡ some l
    → base ≡ some l.version
unfolding accepts
accepts-Names none base l h e = absurd (cc)
accepts-Names (some c) none l h e = absurd (cc)
accepts-Names (some c) (some v) l h e =
    ap (λ n. some n) (sym ((==_iff c.version v).0 h))
    ∙ ap (λ x. some (Lease.version x)) (some-inj e)

module _ (o : Options) (short : o.renew_deadline < o.duration) (now : ℕ) (lease : Option Lease)
    (w : Write) (writer : Elector) (sound : IsSound o now lease writer w)
    (accepted : accepts lease w.base ≡ true) where
  abbrev replaced : Lease
  replaced = record { version = next_version lease; spec = w.spec }

  Held-replaced :
      (j deadline : ℕ) (e : Elector)
      → (w.from ≡ j → writer ≡ e)
      → e.stopped ≡ false
      → now ≤ deadline
      → Held o lease j deadline
      → Held o (some replaced) j deadline
  Held-replaced j deadline e same running le held = go sound
    where
      names : Names o lease w held.current
      names = (held.stands, accepts-Names lease w.base held.current accepted held.stands)

      from_holder : held.current.spec.holder ≡ some w.from → w.from ≡ j
      from_holder h = some-inj (sym h ∙ held.mine)

      beaten :
          (r : ℕ)
          → Claims o now lease w r
          → Beats o w.from r held.current
          → Held o (some replaced) j deadline
      beaten r c (inl free) = absurd (cc (free, held.mine))
      beaten r c (inr (inl (own, le_r))) = record {
        current = replaced;
        stands = refl;
        mine = c.claims ∙ ap (λ k. some k) (from_holder own);
        lasts = omega (arith, le_r, c.expires, held.lasts);
      }
      beaten r c (inr (inr over)) = absurd (omega (arith, over, c.began, le, held.lasts, short))

      go : IsSound o now lease writer w → Held o (some replaced) j deadline
      go (inl (r, c, _)) = beaten r c (c.beats held.current names)
      go (inr g) = absurd (
          cc (
            running,
            g.halted,
            ap (λ x. Elector.stopped x) (same (from_holder (g.own held.current names))),
          ))

  IsPast-replaced : (base : Option ℕ) → IsPast o lease base → IsPast o (some replaced) base
  IsPast-replaced none p = tt
  IsPast-replaced (some v) (l, e, le) =
      (replaced, refl, omega (arith, le, ap (λ x. next_version x) e))

  -- No other write names the new lease yet.
  none-Names : (v : Write) (l : Lease) → IsPast o lease v.base → Names o (some replaced) v l → ⊥
  none-Names v l p (e, b) = go v.base p b
    where
      go : (base : Option ℕ) → IsPast o lease base → base ≡ some l.version → ⊥
      go none p b = cc
      go (some n) (c, k, le) b = absurd (
          omega (
            arith,
            le,
            some-inj b,
            ap (λ x. next_version x) k,
            ap (λ x. Lease.version x) (some-inj e),
          ))

  Claims-replaced : (v : Write) (r : ℕ) → Claims o now lease v r → Claims o now (some replaced) v r
  Claims-replaced v r c = record {
    claims = c.claims;
    expires = c.expires;
    began = c.began;
    past = IsPast-replaced v.base c.past;
    beats = λ l n. absurd (none-Names v l c.past n);
  }

  IsSound-replaced :
      (v : Write) (e : Elector) → IsSound o now lease e v → IsSound o now (some replaced) e v
  IsSound-replaced v e (inl (r, c, le)) = inl (r, Claims-replaced v r c, le)
  IsSound-replaced v e (inr g) = inr (record {
    frees = g.frees;
    halted = g.halted;
    past = IsPast-replaced v.base g.past;
    own = λ l n. absurd (none-Names v l g.past n);
  })

  AllRead-replaced :
      (i : ℕ) (e : Elector) (snapshot : Option Lease)
      → AllRead o lease i e snapshot
      → AllRead o (some replaced) i e snapshot
  AllRead-replaced i e none h = tt
  AllRead-replaced i e (some l) h = record {
    past = IsPast-replaced (some l.version) h.past;
    same = λ c k v. absurd (
        none-Names (record { from = i; base = some l.version; spec = l.spec }) c h.past
          (k, ap (λ n. some n) v));
    own = h.own;
  }

  InPhase-replaced :
      (i : ℕ) (e : Elector) (phase : Phase)
      → o.renew + o.renew ≤ o.renew_deadline
      → (w.from ≡ i → writer ≡ e)
      → InPhase o now lease i e phase
      → InPhase o now (some replaced) i e phase
  InPhase-replaced i e idle quick same h = tt
  InPhase-replaced i e (getting sent) quick same h = h
  InPhase-replaced i e (got sent snapshot) quick same (begun, le, read) =
      (begun, le, AllRead-replaced i e snapshot read)
  InPhase-replaced i e (writing sent v) quick same (begun, le, from, c) =
      (begun, le, from, Claims-replaced v e.started c)
  InPhase-replaced i e (answered sent success) quick same (begun, le, held) = (
    begun,
    le,
    λ won running.
        Held-replaced i (e.started + o.renew_deadline) e same running
          (omega (arith, begun, le, quick)) (held won running),
  )

  bounded-replaced :
      (i : ℕ) (e : Elector)
      → (w.from ≡ i → writer ≡ e)
      → w.spec.holder ≡ some i
      → expiry o w.spec ≤ e.started + o.duration
  bounded-replaced i e same mine = go sound
    where
      go : IsSound o now lease writer w → expiry o w.spec ≤ e.started + o.duration
      go (inl (r, c, le)) = omega (
        arith,
        c.expires,
        le,
        ap (λ x. Elector.started x) (same (some-inj (sym c.claims ∙ mine))),
      )
      go (inr g) = absurd (cc (g.frees, mine))

module _ (o : Options) (short : o.renew_deadline < o.duration)
    (quick : o.renew + o.renew ≤ o.renew_deadline) where
  -- The server gets a sound write.
  pub stored-IsSafe :
      (s : State) (w : Write) (late : List Write)
      → IsSafe o s
      → IsSound o s.now s.lease (s.electors w.from) w
      → All (λ (v : Write). IsSound o s.now s.lease (s.electors v.from) v) late
      → IsSafe o (record s { lease = stored s.lease w; late = late })
  unfolding stored
  stored-IsSafe s w late safe sound rest = go (accepts s.lease w.base) refl
    where
      go :
          (b : Bool)
          → accepts s.lease w.base ≡ b
          → IsSafe o (record s {
            lease =
                if b
                then some (record { version = next_version s.lease; spec = w.spec })
                else s.lease;
            late = late;
          })
      go false e = record {
        leads = safe.leads;
        in_phase = safe.in_phase;
        began = safe.began;
        bounded = safe.bounded;
        late_sound = rest;
      }
      go true e = record {
        leads = λ i h.
            let l = safe.leads i h in
            record {
              running = l.running;
              in_time = l.in_time;
              holds =
                  Held-replaced o short s.now s.lease w (s.electors w.from) sound e i
                    (s.electors i).deadline (s.electors i) (λ k. ap s.electors k) l.running
                    l.in_time l.holds;
            };
        in_phase = λ i.
            InPhase-replaced o short s.now s.lease w (s.electors w.from) sound e i (s.electors i)
              (s.electors i).phase quick (λ k. ap s.electors k) (safe.in_phase i);
        began = safe.began;
        bounded = λ i l k mine.
            let same : w.spec ≡ l.spec = ap (λ x. Lease.spec x) (some-inj k) in
            rw (← same) (
              bounded-replaced o short s.now s.lease w (s.electors w.from) sound e i (s.electors i)
                (λ k. ap s.electors k) (ap (λ x. Spec.holder x) same ∙ mine));
        late_sound =
            All-map o (λ (v : Write). IsSound o s.now s.lease (s.electors v.from) v) _ late
              (λ v.
                IsSound-replaced o short s.now s.lease w (s.electors w.from) sound e v
                  (s.electors v.from))
              rest;
      }
