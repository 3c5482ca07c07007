-- ===== src/Lease/Safe.antt =====
-- lease.ts: what holds in every state of an election, and that a change of one replica keeps it.
use grafana_pi_app.Prelude.{
  ℕ, ◌+◌, ◌≤◌, ◌<◌, ◌≡◌, ◌⊎◌, inl, inr, refl, sym, subst, arith, Bool, true, false, Option, none,
  some, List, [], ◌∷◌, ◌==◌, ==_iff, All, if◌then◌else◌,
}
use grafana_pi_app.Lease.{
  Options, Lease, Write, Phase, idle, getting, got, writing, answered, Elector, expiry,
}
use grafana_pi_app.Lease.Election.{State, set}

module _ (o : Options) where
  -- The replica holds the lease, which lasts longer than the deadline by the difference of the two
  -- periods at least.
  pub record Held (lease : Option Lease) (i deadline : ℕ) : Type 0 where
    pub current : Lease
    pub stands : lease ≡ some current
    pub mine : current.spec.holder ≡ some i
    pub lasts : deadline + o.duration ≤ expiry o current.spec + o.renew_deadline

  pub record Leads (now : ℕ) (lease : Option Lease) (i : ℕ) (e : Elector) : Type 0 where
    pub running : e.stopped ≡ false
    pub in_time : now ≤ e.deadline
    pub holds : Held lease i e.deadline

  -- A write of a replica may replace the lease that it names.
  abbrev pub Beats : ℕ → ℕ → Lease → Type 0
  Beats i r l =
      (l.spec.holder ≡ none)
      ⊎ ((l.spec.holder ≡ some i) × (expiry o l.spec ≤ r + o.duration))
      ⊎ (expiry o l.spec < r)

  abbrev pub Names : Option Lease → Write → Lease → Type 0
  Names lease w l = (lease ≡ some l) × (w.base ≡ some l.version)

  -- The write names no lease that is yet to come.
  abbrev pub IsPast : Option Lease → Option ℕ → Type 0
  IsPast lease none = Unit {0}
  IsPast lease (some v) = (l : Lease) × (lease ≡ some l) × (v ≤ l.version)

  -- A write that takes the lease, with the start of its attempt.
  pub record Claims (now : ℕ) (lease : Option Lease) (w : Write) (r : ℕ) : Type 0 where
    pub claims : w.spec.holder ≡ some w.from
    pub expires : expiry o w.spec ≡ r + o.duration
    pub began : r ≤ now
    pub past : IsPast lease w.base
    pub beats : (l : Lease) → Names lease w l → Beats w.from r l

  -- A write that gives the lease up.
  pub record GivesUp (lease : Option Lease) (e : Elector) (w : Write) : Type 0 where
    pub frees : w.spec.holder ≡ none
    pub halted : e.stopped ≡ true
    pub past : IsPast lease w.base
    pub own : (l : Lease) → Names lease w l → l.spec.holder ≡ some w.from

  abbrev pub IsSound : ℕ → Option Lease → Elector → Write → Type 0
  IsSound now lease e w = ((r : ℕ) × Claims now lease w r × (r ≤ e.started)) ⊎ GivesUp lease e w

  -- A lease that was read is the one that stands, or an earlier version.
  pub record IsRead (lease : Option Lease) (i : ℕ) (e : Elector) (l : Lease) : Type 0 where
    pub past : IsPast lease (some l.version)
    pub same : (c : Lease) → lease ≡ some c → l.version ≡ c.version → l ≡ c
    pub own : l.spec.holder ≡ some i → expiry o l.spec ≤ e.started + o.duration

  abbrev pub AllRead : Option Lease → ℕ → Elector → Option Lease → Type 0
  AllRead lease i e none = Unit {0}
  AllRead lease i e (some l) = IsRead lease i e l

  abbrev pub InPhase : ℕ → Option Lease → ℕ → Elector → Phase → Type 0
  InPhase now lease i e idle = Unit {0}
  InPhase now lease i e (getting sent) = (sent ≡ e.started) × (now ≤ sent + o.renew)
  InPhase now lease i e (got sent snapshot) =
      (sent ≡ e.started) × (now ≤ sent + o.renew) × AllRead lease i e snapshot
  InPhase now lease i e (writing sent w) =
      (sent ≤ e.started + o.renew)
      × (now ≤ sent + o.renew)
      × (w.from ≡ i)
      × Claims now lease w e.started
  InPhase now lease i e (answered sent success) =
      (sent ≤ e.started + o.renew)
      × (now ≤ sent + o.renew)
      × (success ≡ true → e.stopped ≡ false → Held lease i (e.started + o.renew_deadline))

  pub record IsSafe (s : State) : Type 0 where
    pub leads : (i : ℕ) → (s.electors i).leader ≡ true → Leads s.now s.lease i (s.electors i)
    pub in_phase : (i : ℕ) → InPhase s.now s.lease i (s.electors i) (s.electors i).phase
    pub began : (i : ℕ) → (s.electors i).started ≤ s.now
    pub bounded :
        (i : ℕ) (l : Lease)
        → s.lease ≡ some l
        → l.spec.holder ≡ some i
        → expiry o l.spec ≤ (s.electors i).started + o.duration
    pub late_sound : All (λ (w : Write). IsSound s.now s.lease (s.electors w.from) w) s.late

  -- A property of every replica, where one of them changes.
  pub set_each :
      (P : ℕ → Elector → Type 0) (i : ℕ) (e : Elector) (electors : ℕ → Elector)
      → P i e
      → ((j : ℕ) → P j (electors j))
      → (j : ℕ) → P j (set i e electors j)
  unfolding set
  set_each P i e electors p h j = go (j == i) refl
    where
      go : (b : Bool) → (j == i) ≡ b → P j (if b then e else electors j)
      go true q = subst (λ k. P k e) (sym ((==_iff j i).0 q)) p
      go false q = h j

  -- What the writes that are on their way rely on in a replica that changes.
  pub record Follows (now : ℕ) (e e' : Elector) : Type 0 where
    pub later : e.started ≤ e'.started
    pub not_future : e'.started ≤ now
    pub stays : e.stopped ≡ true → e'.stopped ≡ true

  IsSound-Follows :
      (now : ℕ) (lease : Option Lease) (e e' : Elector) (w : Write)
      → Follows now e e'
      → IsSound now lease e w
      → IsSound now lease e' w
  IsSound-Follows now lease e e' w f (inl (r, c, le)) = inl (r, c, omega (arith, f.later))
  IsSound-Follows now lease e e' w f (inr g) =
      inr (record { frees = g.frees; halted = f.stays g.halted; past = g.past; own = g.own })

  pub All-map :
      {A : Type 0} (P Q : A → Type 0) (xs : List A) → ((x : A) → P x → Q x) → All P xs → All Q xs
  All-map P Q [] f h = tt
  All-map P Q (x ∷ xs) f (p, h) = (f x p, All-map P Q xs f h)

  pub set-IsSafe :
      (s : State) (i : ℕ) (e : Elector)
      → IsSafe s
      → Follows s.now (s.electors i) e
      → (e.leader ≡ true → Leads s.now s.lease i e)
      → InPhase s.now s.lease i e e.phase
      → IsSafe (record s { electors = set i e s.electors })
  set-IsSafe s i e safe f leads phase = record {
    leads =
        set_each (λ j e. e.leader ≡ true → Leads s.now s.lease j e) i e s.electors leads safe.leads;
    in_phase =
        set_each (λ j e. InPhase s.now s.lease j e e.phase) i e s.electors phase safe.in_phase;
    began = set_each (λ j e. e.started ≤ s.now) i e s.electors f.not_future safe.began;
    bounded =
        set_each
          (λ j e.
            (l : Lease)
            → s.lease ≡ some l
            → l.spec.holder ≡ some j
            → expiry o l.spec ≤ e.started + o.duration)
          i e s.electors (λ l h k. omega (arith, safe.bounded i l h k, f.later)) safe.bounded;
    late_sound =
        All-map (λ (w : Write). IsSound s.now s.lease (s.electors w.from) w)
          (λ (w : Write). IsSound s.now s.lease (set i e s.electors w.from) w) s.late
          (λ w. followed w.from w) safe.late_sound;
  }
    where
      followed :
          (j : ℕ) (w : Write)
          → IsSound s.now s.lease (s.electors j) w
          → IsSound s.now s.lease (set i e s.electors j) w
      followed j w =
          set_each (λ j e'. IsSound s.now s.lease (s.electors j) w → IsSound s.now s.lease e' w) i e
            s.electors (IsSound-Follows s.now s.lease (s.electors i) e w f) (λ j h. h) j
