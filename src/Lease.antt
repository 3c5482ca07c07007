-- ===== src/Lease.antt =====
-- src/host/lease.ts: the leader election of the host's replicas. Times and durations are
-- milliseconds, and the replicas' clocks agree. A replica is named by a number.
pub mod Election
pub mod Safe
pub mod Writes
pub mod Decisions
pub mod Steps
pub mod Exclusion
pub mod Tests
use grafana_pi_app.Prelude.{
  ℕ, suc, ◌+◌, ◌*◌, Bool, true, false, not, ◌&&◌, ◌||◌, Option, none, some, ltb, ◌==◌,
  if◌then◌else◌,
}

-- `LeaseOptions`, with the defaults put in.
pub record Options : Type 0 where
  pub duration : ℕ
  pub renew_deadline : ℕ
  pub renew : ℕ

-- The check of the constructor.
unfoldable pub is_valid : Options → Bool
is_valid o = ltb o.renew o.renew_deadline && ltb o.renew_deadline o.duration

-- `Lease['spec']`
pub record Spec : Type 0 where
  pub holder : Option ℕ
  pub duration : Option ℕ
  pub acquired : Option ℕ
  pub renewed : Option ℕ
  pub transitions : Option ℕ

-- The lease with its resourceVersion.
pub record Lease : Type 0 where
  pub version : ℕ
  pub spec : Spec

abbrev pub or_else : ℕ → Option ℕ → ℕ
or_else n none = n
or_else n (some m) = m

-- When the lease expires for the replicas that do not hold it.
unfoldable pub expiry : Options → Spec → ℕ
expiry o s = or_else 0 s.renewed + or_else o.duration s.duration

unfoldable pub spec_of : Options → ℕ → ℕ → ℕ → ℕ → Spec
spec_of o identity acquired renewed transitions = record {
  holder = some identity;
  duration = some o.duration;
  acquired = some acquired;
  renewed = some renewed;
  transitions = some transitions;
}

-- What `release` writes over the lease that it has read.
unfoldable pub released_spec : ℕ → Spec → Spec
released_spec now s = record s { holder = none; duration = some 1000; renewed = some now }

-- A POST (no base) or a PUT with the resourceVersion of the lease that was read.
pub record Write : Type 0 where
  pub from : ℕ
  pub base : Option ℕ
  pub spec : Spec

-- What `tryAcquire` does with the answer of its GET.
pub data Decision : Type 0 where
  held : Decision
  send : Write → Decision

abbrev pub is_other : ℕ → Option ℕ → Bool
is_other identity none = false
is_other identity (some holder) = not (holder == identity)

abbrev pub is_self : ℕ → Option ℕ → Bool
is_self identity none = false
is_self identity (some holder) = holder == identity

-- The write over the lease that was read; `acquired` and `transitions` are kept by its holder.
unfoldable pub taking : Options → ℕ → ℕ → Lease → Write
unfolding spec_of
taking o identity now lease =
    let mine = is_self identity lease.spec.holder in
    record {
      from = identity;
      base = some lease.version;
      spec =
          spec_of o identity (if mine then or_else now lease.spec.acquired else now) now
            (or_else 0 lease.spec.transitions + (if mine then 0 else 1));
    }

unfoldable pub decide : Options → ℕ → ℕ → Option Lease → Decision
unfolding expiry
decide o identity now none =
    send (record { from = identity; base = none; spec = spec_of o identity now now 0 })
decide o identity now (some lease) =
    if is_other identity lease.spec.holder && not (ltb (expiry o lease.spec) now)
    then held
    else send (taking o identity now lease)

-- Where the attempt of a replica stands; each request keeps the time at which it was sent, since it
-- is aborted after `renew`.
pub data Phase : Type 0 where
  idle : Phase
  getting : ℕ → Phase
  got : ℕ → Option Lease → Phase
  writing : ℕ → Write → Phase
  answered : ℕ → Bool → Phase

-- `started` is the `now` of the last attempt; `deadline` the time of the deadline timer.
pub record Elector : Type 0 where
  pub leader : Bool
  pub deadline : ℕ
  pub stopped : Bool
  pub releasing : Bool
  pub started : ℕ
  pub phase : Phase

unfoldable pub lose : Elector → Elector
lose e = record e { leader = false }

-- `won`: `setTimeout` runs the timer at its time, or at once where that has passed.
unfoldable pub won : Options → Bool → Elector → Elector
won o success e =
    if not success || e.stopped
    then record e { phase = idle }
    else record e { phase = idle; leader = true; deadline = e.started + o.renew_deadline }

unfoldable pub decided : ℕ → Decision → Elector → Elector
unfolding lose
decided now held e = record (lose e) { phase = idle }
decided now (send w) e = record e { phase = writing now w }

-- `release`, up to its first request.
unfoldable pub stop : Elector → Elector
stop e = record e { stopped = true; releasing = e.leader; leader = false }

-- The API server: a POST creates the lease, a PUT replaces it where its version is that of the base.
unfoldable pub accepts : Option Lease → Option ℕ → Bool
accepts none none = true
accepts none (some base) = false
accepts (some lease) none = false
accepts (some lease) (some base) = lease.version == base

abbrev pub next_version : Option Lease → ℕ
next_version none = 0
next_version (some lease) = suc lease.version

unfoldable pub stored : Option Lease → Write → Option Lease
unfolding accepts
stored lease w =
    if accepts lease w.base
    then some (record { version = next_version lease; spec = w.spec })
    else lease
