-- ===== src/Lease/Election.antt =====
-- lease.ts: the replicas, the API server and the clock as a step relation.
use grafana_pi_app.Prelude.{
  ℕ, suc, ◌+◌, ◌≤◌, ◌≡◌, Bool, true, false, Option, none, some, List, [], ◌∷◌, ◌++◌, ◌==◌,
  if◌then◌else◌,
}
use grafana_pi_app.Lease.{
  Options, Lease, Write, Phase, idle, getting, got, writing, answered, Elector, decide, decided,
  won, lose, stop, stored, accepts, released_spec,
}

-- `late` holds the writes whose sender no longer waits for them; the server may still get them.
pub record State : Type 0 where
  pub now : ℕ
  pub lease : Option Lease
  pub electors : ℕ → Elector
  pub late : List Write

unfoldable pub set : ℕ → Elector → (ℕ → Elector) → ℕ → Elector
set i e electors j = if j == i then e else electors j

unfoldable pub fresh : Elector
fresh = record {
  leader = false;
  deadline = 0;
  stopped = false;
  releasing = false;
  started = 0;
  phase = idle;
}

unfoldable pub initial : ℕ → State
unfolding fresh
initial now = record { now = now; lease = none; electors = λ i. fresh; late = [] }

-- The time by which a request that was sent is over: answered, failed or aborted.
abbrev pub InTime : Options → ℕ → Phase → Type 0
InTime o now idle = Unit {0}
InTime o now (getting sent) = now ≤ sent + o.renew
InTime o now (got sent lease) = now ≤ sent + o.renew
InTime o now (writing sent w) = now ≤ sent + o.renew
InTime o now (answered sent success) = now ≤ sent + o.renew

-- The timers that have to run before the clock goes on have run.
abbrev pub MayPass : Options → ℕ → Elector → Type 0
MayPass o now e = (e.leader ≡ true → now ≤ e.deadline) × InTime o now e.phase

-- The write that goes on its way when the sender stops waiting.
abbrev pub unanswered : Phase → List Write
unanswered (writing sent w) = w ∷ []
unanswered phase = []

pub data Step (o : Options) : State → State → Type 0 where
  -- The clock advances.
  tick :
      (s : State)
      → ((i : ℕ) → MayPass o (suc s.now) (s.electors i))
      → Step o s (record s { now = suc s.now })
  -- `tryAcquire` begins: the GET is sent.
  begin :
      (s : State) (i : ℕ)
      → (s.electors i).phase ≡ idle
      → (s.electors i).stopped ≡ false
      → Step o s (record s {
        electors =
            set i (record (s.electors i) { phase = getting s.now; started = s.now }) s.electors;
      })
  -- The server reads the lease for the GET.
  read :
      (s : State) (i sent : ℕ)
      → (s.electors i).phase ≡ getting sent
      → Step o s (record s {
        electors = set i (record (s.electors i) { phase = got sent s.lease }) s.electors;
      })
  -- The answer of the GET arrives.
  answer :
      (s : State) (i sent : ℕ) (lease : Option Lease)
      → (s.electors i).phase ≡ got sent lease
      → Step o s (record s {
        electors =
            set i
              (decided s.now (decide o i (s.electors i).started lease) (s.electors i))
              s.electors;
      })
  -- The server gets the write.
  serve :
      (s : State) (i sent : ℕ) (w : Write)
      → (s.electors i).phase ≡ writing sent w
      → Step o s (record s {
        lease = stored s.lease w;
        electors =
            set i
              (record (s.electors i) { phase = answered sent (accepts s.lease w.base) })
              s.electors;
      })
  -- The answer of the write arrives.
  finish :
      (s : State) (i sent : ℕ) (success : Bool)
      → (s.electors i).phase ≡ answered sent success
      → Step o s (record s { electors = set i (won o success (s.electors i)) s.electors })
  -- A request fails or is aborted; a write that the server has not got may still come.
  fail :
      (s : State) (i : ℕ)
      → Step o s (record s {
        electors = set i (record (s.electors i) { phase = idle }) s.electors;
        late = unanswered (s.electors i).phase ++ s.late;
      })
  -- The server gets a write whose sender no longer waits.
  serve_late :
      (s : State) (before after : List Write) (w : Write)
      → s.late ≡ before ++ w ∷ after
      → Step o s (record s { lease = stored s.lease w; late = before ++ after })
  -- The deadline timer runs.
  expire :
      (s : State) (i : ℕ)
      → (s.electors i).deadline ≤ s.now
      → Step o s (record s { electors = set i (lose (s.electors i)) s.electors })
  -- `release` begins.
  halt :
      (s : State) (i : ℕ)
      → Step o s (record s { electors = set i (stop (s.electors i)) s.electors })
  -- `release` of a replica that led has read the lease as its own, and sends its write.
  release :
      (s : State) (i : ℕ) (lease : Lease)
      → (s.electors i).releasing ≡ true
      → (s.electors i).stopped ≡ true
      → s.lease ≡ some lease
      → lease.spec.holder ≡ some i
      → Step o s (record s {
        late =
            record { from = i; base = some lease.version; spec = released_spec s.now lease.spec }
            ∷ s.late;
      })

-- What the steps lead to from a state without a lease.
pub data Reachable (o : Options) (start : ℕ) : State → Type 0 where
  start_state : Reachable o start (initial start)
  next : (s t : State) → Reachable o start s → Step o s t → Reachable o start t
