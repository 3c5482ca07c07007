-- ===== src/Lease/Exclusion.antt =====
-- lease.ts: at most one replica leads.
use grafana_pi_app.Prelude.{
  ℕ, ◌+◌, ◌≤◌, ◌<◌, ◌≡◌, inl, inr, refl, sym, ap, subst, ◌∙◌, arith, Bool, true, false, not, ◌||◌,
  Option, none, some, List, [], ◌∷◌, ◌++◌, All, All-append, if◌then◌else◌,
}
use grafana_pi_app.Lease.{
  Options, Lease, Write, Phase, idle, getting, got, writing, answered, Elector, accepts, stored,
  next_version, released_spec, won, lose, stop,
}
use grafana_pi_app.Lease.Election.{
  State, set, initial, unanswered, Step, Reachable, start_state, next,
}
use grafana_pi_app.Lease.Safe.{Held, Claims, IsSound, AllRead, InPhase, IsSafe, set-IsSafe}
use grafana_pi_app.Lease.Writes.{stored-IsSafe}
use grafana_pi_app.Lease.Steps.{
  same_lead, phase_of, unchanged, tick-IsSafe, read-AllRead, answer-IsSafe,
}

some-inj {ℓ} : {A : Type ℓ} {a b : A} → some a ≡ some b → a ≡ b
some-inj h = cc

-- A list of writes without one of them.
All-without {ℓ} :
    {A : Type 0} (P : A → Type ℓ) (before : List A) (x : A) (after : List A)
    → All P (before ++ x ∷ after)
    → P x × All P (before ++ after)
All-without P [] x after h = h
All-without P (y ∷ before) x after (p, h) =
    let (q, rest) = All-without P before x after h in (q, (p, rest))

module _ (o : Options) (short : o.renew_deadline < o.duration)
    (quick : o.renew + o.renew ≤ o.renew_deadline) where
  -- What the sender of an accepted write holds.
  accepted-Held :
      (lease : Option Lease) (i now r : ℕ) (w : Write)
      → w.from ≡ i
      → Claims o now lease w r
      → accepts lease w.base ≡ true
      → Held o (stored lease w) i (r + o.renew_deadline)
  unfolding stored
  accepted-Held lease i now r w from c e = rw e (record {
    current = record { version = next_version lease; spec = w.spec };
    stands = refl;
    mine = c.claims ∙ ap (λ k. some k) from;
    lasts = omega (arith, c.expires);
  })

  serve-IsSafe :
      (s : State) (i sent : ℕ) (w : Write)
      → (s.electors i).phase ≡ writing sent w
      → IsSafe o s
      → IsSafe o (record s {
        lease = stored s.lease w;
        electors =
            set i
              (record (s.electors i) { phase = answered sent (accepts s.lease w.base) })
              s.electors;
      })
  serve-IsSafe s i sent w p safe =
      let (at, le, from, claims) = phase_of o short quick s i (writing sent w) safe p in
      let sound : IsSound o s.now s.lease (s.electors w.from) w =
        inl
          ((s.electors i).started, claims, omega (arith, ap (λ k. (s.electors k).started) from)) in
      let t : State = record s { lease = stored s.lease w } in
      let safe' = stored-IsSafe o short quick s w s.late safe sound safe.late_sound in
      set-IsSafe o t i _ safe' (unchanged o short quick t i _ safe' refl refl)
        (λ h. same_lead o short quick t.now t.lease i (s.electors i) _ refl refl (safe'.leads i h))
        (at, le, λ e _. accepted-Held s.lease i s.now (s.electors i).started w from claims e)

  finish-IsSafe :
      (s : State) (i sent : ℕ) (success : Bool)
      → (s.electors i).phase ≡ answered sent success
      → IsSafe o s
      → IsSafe o (record s { electors = set i (won o success (s.electors i)) s.electors })
  unfolding won
  finish-IsSafe s i sent success p safe = go (not success || (s.electors i).stopped) refl
    where
      go :
          (b : Bool)
          → (not success || (s.electors i).stopped) ≡ b
          → IsSafe o (record s {
            electors =
                set i
                  (if b then record (s.electors i) { phase = idle } else record (s.electors i) {
                    phase = idle;
                    leader = true;
                    deadline = (s.electors i).started + o.renew_deadline;
                  })
                  s.electors;
          })
      go true q =
          set-IsSafe o s i _ safe (unchanged o short quick s i _ safe refl refl)
            (λ h.
              same_lead o short quick s.now s.lease i (s.electors i) _ refl refl (safe.leads i h))
            tt
      go false q =
          let (at, le, holds) = phase_of o short quick s i (answered sent success) safe p in
          let running : (s.electors i).stopped ≡ false = ground (arith, q) in
          set-IsSafe o s i _ safe (unchanged o short quick s i _ safe refl refl)
            (λ _. record {
              running = running;
              in_time = omega (arith, at, le, quick);
              holds = holds (ground (arith, q)) running;
            })
            tt

  unanswered-IsSound :
      (s : State) (i : ℕ) (p : Phase)
      → IsSafe o s
      → (s.electors i).phase ≡ p
      → All (λ (w : Write). IsSound o s.now s.lease (s.electors w.from) w) (unanswered p)
  unanswered-IsSound s i (writing sent w) safe e =
      let (at, le, from, claims) = phase_of o short quick s i (writing sent w) safe e in
      (
        inl ((s.electors i).started, claims, omega (arith, ap (λ k. (s.electors k).started) from)),
        tt,
      )
  unanswered-IsSound s i idle safe e = tt
  unanswered-IsSound s i (getting sent) safe e = tt
  unanswered-IsSound s i (got sent l) safe e = tt
  unanswered-IsSound s i (answered sent b) safe e = tt

  -- More writes on their way.
  late-IsSafe :
      (s : State) (more : List Write)
      → IsSafe o s
      → All (λ (w : Write). IsSound o s.now s.lease (s.electors w.from) w) more
      → IsSafe o (record s { late = more ++ s.late })
  late-IsSafe s more safe h = record {
    leads = safe.leads;
    in_phase = safe.in_phase;
    began = safe.began;
    bounded = safe.bounded;
    late_sound =
        All-append (λ (w : Write). IsSound o s.now s.lease (s.electors w.from) w) more s.late h
          safe.late_sound;
  }

  AllRead-same :
      (lease : Option Lease) (i : ℕ) (e e' : Elector) (snapshot : Option Lease)
      → e'.started ≡ e.started
      → AllRead o lease i e snapshot
      → AllRead o lease i e' snapshot
  AllRead-same lease i e e' none k h = tt
  AllRead-same lease i e e' (some l) k r = record {
    past = r.past;
    same = r.same;
    own = λ mine. omega (arith, k, r.own mine);
  }

  -- A replica that begins nothing, and may have stopped.
  InPhase-same :
      (now : ℕ) (lease : Option Lease) (i : ℕ) (e e' : Elector) (p : Phase)
      → e'.started ≡ e.started
      → (e'.stopped ≡ false → e.stopped ≡ false)
      → InPhase o now lease i e p
      → InPhase o now lease i e' p
  InPhase-same now lease i e e' idle k f h = tt
  InPhase-same now lease i e e' (getting sent) k f h = (h.0 ∙ sym k, h.1)
  InPhase-same now lease i e e' (got sent l) k f h =
      (h.0 ∙ sym k, h.1, AllRead-same lease i e e' l k h.2)
  InPhase-same now lease i e e' (writing sent w) k f h =
      (omega (arith, k, h.0), h.1, h.2, subst (Claims o now lease w) (sym k) h.3)
  InPhase-same now lease i e e' (answered sent b) k f h = (
    omega (arith, k, h.0),
    h.1,
    λ won running. subst (λ n. Held o lease i (n + o.renew_deadline)) (sym k) (h.2 won (f running)),
  )

  step-IsSafe : (s t : State) → Step o s t → IsSafe o s → IsSafe o t
  step-IsSafe _ _ (Step.tick s may) safe = tick-IsSafe o short quick s may safe
  step-IsSafe _ _ (Step.begin s i p running) safe =
      set-IsSafe o s i _ safe
        (record { later = safe.began i; not_future = omega arith; stays = λ h. h })
        (λ h. same_lead o short quick s.now s.lease i (s.electors i) _ refl refl (safe.leads i h))
        (refl, omega arith)
  step-IsSafe _ _ (Step.read s i sent p) safe =
      let (at, le) = phase_of o short quick s i (getting sent) safe p in
      set-IsSafe o s i _ safe (unchanged o short quick s i _ safe refl refl)
        (λ h. same_lead o short quick s.now s.lease i (s.electors i) _ refl refl (safe.leads i h))
        (at, le, read-AllRead o short quick i _ s.lease (safe.bounded i))
  step-IsSafe _ _ (Step.answer s i sent snapshot p) safe =
      answer-IsSafe o short quick s i sent snapshot _ p refl safe
  step-IsSafe _ _ (Step.serve s i sent w p) safe = serve-IsSafe s i sent w p safe
  step-IsSafe _ _ (Step.finish s i sent success p) safe = finish-IsSafe s i sent success p safe
  step-IsSafe _ _ (Step.fail s i) safe =
      let safe' =
        late-IsSafe s (unanswered (s.electors i).phase) safe
          (unanswered-IsSound s i (s.electors i).phase safe refl) in
      let t : State = record s { late = unanswered (s.electors i).phase ++ s.late } in
      set-IsSafe o t i _ safe' (unchanged o short quick t i _ safe' refl refl)
        (λ h. same_lead o short quick s.now s.lease i (s.electors i) _ refl refl (safe.leads i h))
        tt
  step-IsSafe _ _ (Step.serve_late s before after w e) safe =
      let P = λ (v : Write). IsSound o s.now s.lease (s.electors v.from) v in
      let (sound, rest) = All-without P before w after (subst (All P) e safe.late_sound) in
      stored-IsSafe o short quick s w (before ++ after) safe sound rest
  step-IsSafe _ _ (Step.expire s i le) safe =
      unfold lose in
      set-IsSafe o s i (lose (s.electors i)) safe
        (unchanged o short quick s i (lose (s.electors i)) safe refl refl) (λ h. absurd (cc (h)))
        (InPhase-same s.now s.lease i (s.electors i) (lose (s.electors i)) (s.electors i).phase refl
          (λ h. h) (safe.in_phase i))
  step-IsSafe _ _ (Step.halt s i) safe =
      unfold stop in
      set-IsSafe o s i (stop (s.electors i)) safe
        (record { later = omega arith; not_future = safe.began i; stays = λ _. refl })
        (λ h. absurd (cc (h)))
        (InPhase-same s.now s.lease i (s.electors i) (stop (s.electors i)) (s.electors i).phase refl
          (λ h. absurd (cc (h))) (safe.in_phase i))
  step-IsSafe _ _ (Step.release s i lease _ halted e mine) safe =
      late-IsSafe s
        (record { from = i; base = some lease.version; spec = released_spec s.now lease.spec } ∷ [])
        safe
        (
          inr (record {
            frees = unfold released_spec in refl;
            halted = halted;
            past = (lease, e, omega arith);
            own = λ l (k, _). subst (λ c. c.spec.holder ≡ some i) (some-inj (sym e ∙ k)) mine;
          }),
          tt,
        )

  initial-IsSafe : (now : ℕ) → IsSafe o (initial now)
  unfolding initial
  initial-IsSafe now = record {
    leads = λ i h. absurd (cc (h));
    in_phase = λ i. tt;
    began = λ i. omega arith;
    bounded = λ i l h. absurd (cc (h));
    late_sound = tt;
  }

  Reachable-IsSafe : (start : ℕ) (s : State) → Reachable o start s → IsSafe o s
  Reachable-IsSafe start _ start_state = initial-IsSafe start
  Reachable-IsSafe start _ (next s t r step) = step-IsSafe s t step (Reachable-IsSafe start s r)

  -- Two replicas never lead at once, in any interleaving of the replicas, the server and lost,
  -- aborted and late requests: if the renew deadline is shorter than the lease and as long as two
  -- requests may take together, and the timers run on time.
  pub leader_unique :
      (start : ℕ) (s : State) (i j : ℕ)
      → Reachable o start s
      → (s.electors i).leader ≡ true
      → (s.electors j).leader ≡ true
      → i ≡ j
  leader_unique start s i j r h k =
      let safe = Reachable-IsSafe start s r in
      let a = (safe.leads i h).holds in
      let b = (safe.leads j k).holds in
      let same : a.current ≡ b.current = some-inj (sym a.stands ∙ b.stands) in
      some-inj (sym a.mine ∙ ap (λ x. x.spec.holder) same ∙ b.mine)
