-- ===== src/Lease/Steps.antt =====
-- lease.ts: the clock, the requests and their answers keep what holds in every state.
use grafana_pi_app.Prelude.{
  ℕ, suc, ◌+◌, ◌≤◌, ◌<◌, ◌≡◌, inl, inr, refl, subst, ◌∙◌, arith, Option, none, some,
}
use grafana_pi_app.Lease.{
  Options, Lease, Write, Phase, idle, getting, got, writing, answered, Elector, Decision, held,
  send, expiry, decide, decided, lose,
}
use grafana_pi_app.Lease.Election.{State, set, InTime, MayPass}
use grafana_pi_app.Lease.Safe.{
  Leads, Claims, IsSound, AllRead, InPhase, IsSafe, Follows, All-map, set-IsSafe,
}
use grafana_pi_app.Lease.Decisions.{decide-Claims}

module _ (o : Options) (short : o.renew_deadline < o.duration)
    (quick : o.renew + o.renew ≤ o.renew_deadline) where
  pub same_lead :
      (now : ℕ) (lease : Option Lease) (i : ℕ) (e e' : Elector)
      → e'.stopped ≡ e.stopped
      → e'.deadline ≡ e.deadline
      → Leads o now lease i e
      → Leads o now lease i e'
  same_lead now lease i e e' stopped deadline l = record {
    running = stopped ∙ l.running;
    in_time = rw deadline l.in_time;
    holds = rw deadline l.holds;
  }

  pub phase_of :
      (s : State) (i : ℕ) (p : Phase)
      → IsSafe o s
      → (s.electors i).phase ≡ p
      → InPhase o s.now s.lease i (s.electors i) p
  phase_of s i p safe e = subst (InPhase o s.now s.lease i (s.electors i)) e (safe.in_phase i)

  pub unchanged :
      (s : State) (i : ℕ) (e : Elector)
      → IsSafe o s
      → e.started ≡ (s.electors i).started
      → e.stopped ≡ (s.electors i).stopped
      → Follows o s.now (s.electors i) e
  unchanged s i e safe started stopped = record {
    later = omega (arith, started);
    not_future = omega (arith, started, safe.began i);
    stays = λ h. stopped ∙ h;
  }

  Claims-tick :
      (now : ℕ) (lease : Option Lease) (w : Write) (r : ℕ)
      → Claims o now lease w r
      → Claims o (suc now) lease w r
  Claims-tick now lease w r c = record {
    claims = c.claims;
    expires = c.expires;
    began = omega (arith, c.began);
    past = c.past;
    beats = c.beats;
  }

  IsSound-tick :
      (now : ℕ) (lease : Option Lease) (e : Elector) (w : Write)
      → IsSound o now lease e w
      → IsSound o (suc now) lease e w
  IsSound-tick now lease e w (inl (r, c, le)) = inl (r, Claims-tick now lease w r c, le)
  IsSound-tick now lease e w (inr g) =
      inr (record { frees = g.frees; halted = g.halted; past = g.past; own = g.own })

  InPhase-tick :
      (now : ℕ) (lease : Option Lease) (i : ℕ) (e : Elector) (p : Phase)
      → InTime o (suc now) p
      → InPhase o now lease i e p
      → InPhase o (suc now) lease i e p
  InPhase-tick now lease i e idle t h = tt
  InPhase-tick now lease i e (getting sent) t h = (h.0, t)
  InPhase-tick now lease i e (got sent l) t h = (h.0, t, h.2)
  InPhase-tick now lease i e (writing sent w) t h =
      (h.0, t, h.2, Claims-tick now lease w e.started h.3)
  InPhase-tick now lease i e (answered sent b) t h = (h.0, t, h.2)

  pub tick-IsSafe :
      (s : State)
      → ((i : ℕ) → MayPass o (suc s.now) (s.electors i))
      → IsSafe o s
      → IsSafe o (record s { now = suc s.now })
  tick-IsSafe s may safe = record {
    leads = λ i h.
        let l = safe.leads i h in
        record { running = l.running; in_time = (may i).0 h; holds = l.holds };
    in_phase = λ i.
        InPhase-tick s.now s.lease i (s.electors i) (s.electors i).phase (may i).1
          (safe.in_phase i);
    began = λ i. omega (arith, safe.began i);
    bounded = safe.bounded;
    late_sound =
        All-map o (λ (w : Write). IsSound o s.now s.lease (s.electors w.from) w)
          (λ (w : Write). IsSound o (suc s.now) s.lease (s.electors w.from) w) s.late
          (λ w. IsSound-tick s.now s.lease (s.electors w.from) w) safe.late_sound;
  }

  pub read-AllRead :
      (i : ℕ) (e : Elector) (lease : Option Lease)
      → ((l : Lease)
          → lease ≡ some l
          → l.spec.holder ≡ some i
          → expiry o l.spec ≤ e.started + o.duration)
      → AllRead o lease i e lease
  read-AllRead i e none bounded = tt
  read-AllRead i e (some l) bounded = record {
    past = (l, refl, omega arith);
    same = λ c k _. cc;
    own = bounded l refl;
  }

  pub answer-IsSafe :
      (s : State) (i sent : ℕ) (snapshot : Option Lease) (d : Decision)
      → (s.electors i).phase ≡ got sent snapshot
      → decide o i (s.electors i).started snapshot ≡ d
      → IsSafe o s
      → IsSafe o (record s { electors = set i (decided s.now d (s.electors i)) s.electors })
  unfolding decided lose
  answer-IsSafe s i sent snapshot held p e safe =
      set-IsSafe o s i _ safe (unchanged s i _ safe refl refl) (λ h. absurd (cc (h))) tt
  answer-IsSafe s i sent snapshot (send w) p e safe =
      let (at, le, read) = phase_of s i (got sent snapshot) safe p in
      let (from, claims) =
        decide-Claims o s.now s.lease i (s.electors i) (safe.began i) snapshot w read e in
      set-IsSafe o s i _ safe (unchanged s i _ safe refl refl)
        (λ h. same_lead s.now s.lease i (s.electors i) _ refl refl (safe.leads i h))
        (omega (arith, at, le), omega arith, from, claims)
