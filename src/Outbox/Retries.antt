-- ===== src/Outbox/Retries.antt =====
-- An event that can never be delivered is given up after eight rounds, and not retried for ever.
use k8s_ops_agent.Base.{
  ℕ, zero, suc, ◌+◌, ◌≤◌, ◌<◌, ◌≡◌, refl, String, Bool, true, false, not, none, some, List, [], ◌∷◌,
  arith, Bool-cases, inl, inr, leb, leb→le, ◌is◌, Table, length,
}
use k8s_ops_agent.Domain.{OutboxStatus}
use k8s_ops_agent.Models.{OutboxEvent}
use k8s_ops_agent.Adapters.{raised}
use k8s_ops_agent.Outbox.Queue.{Jobs, Outage, enqueue, enqueue_diagnosis, enqueue_execution}
use k8s_ops_agent.Outbox.Dispatch.{
  Dispatcher, is_due, deliver, settle, dispatch_rows, dispatch_pending_once,
}
use k8s_ops_agent.Outbox.Delivery.{backoff_bounds}

-- The rounds of the dispatcher's loop, one after another.
unfoldable pub rounds : List Dispatcher → Jobs → Table OutboxEvent → Jobs × Table OutboxEvent
rounds [] jobs rows = (jobs, rows)
rounds (c ∷ cs) jobs rows = let p = dispatch_pending_once c jobs rows in rounds cs p.jobs p.rows

-- The call fails, and no job is stored by it.
abbrev pub is_refusal : Outage → Bool
is_refusal none = false
is_refusal (some failure) = not failure.stored

-- A round in which Redis fails for the event `k`, which is not locked by another dispatcher.
abbrev pub IsOutage : ℕ → Dispatcher → Type 0
IsOutage k c = (is_refusal (c.outage k) ≡ true) × (c.locked k ≡ false) × (0 < c.batch_size)

-- Such rounds, each at least five minutes after the one before, the first not before `t`.
abbrev pub Outages : ℕ → ℕ → List Dispatcher → Type 0
Outages k t [] = Unit
Outages k t (c ∷ cs) = IsOutage k c × (t ≤ c.now) × Outages k (c.now + 300) cs

refused :
    (queue function : String) (o : Outage) (argument k : ℕ) (jobs : Jobs)
    → is_refusal o ≡ true
    → (kind message : String) × (enqueue queue function o argument k jobs
        ≡ (raised kind message, jobs))
unfolding enqueue
refused queue function none argument k jobs h = absurd (cc h)
refused queue function (some x) argument k jobs h = (x.kind, x.message, rw h refl)

deliver_fails :
    (o : Outage) (k : ℕ) (event : OutboxEvent) (jobs : Jobs)
    → is_refusal o ≡ true
    → (kind message : String) × (deliver o k event jobs ≡ (raised kind message, jobs))
unfolding deliver enqueue_diagnosis enqueue_execution
deliver_fails o k event jobs h = elim (Bool-cases (event.topic is "agent_run.requested")) [
  | inl a ↦ rw a (refused _ _ o event.aggregate_id k jobs h)
  | inr b ↦ elim (Bool-cases (event.topic is "execution.requested")) [
    | inl a ↦ rw (b, a) (refused _ _ o event.aggregate_id k jobs h)
    | inr c ↦ rw (b, c) ("ValueError", "unsupported outbox topic", refl)
  ]
]

-- What a failed delivery makes of a pending row.
abbrev Retried : Dispatcher → OutboxEvent → OutboxEvent → Type 0
Retried c event new =
    (new.attempts ≡ event.attempts + 1)
    × (new.attempts < 8 → (new.status ≡ OutboxStatus.pending) × (new.available_at ≤ c.now + 300))
    × (8 ≤ new.attempts → new.status ≡ OutboxStatus.failed)

settle-Retried :
    (c : Dispatcher) (event : OutboxEvent) (kind message : String)
    → event.status ≡ OutboxStatus.pending
    → Retried c event (settle c event (raised kind message))
unfolding settle
settle-Retried c event kind message p = elim (Bool-cases (leb 8 (event.attempts + 1))) [
  | inl last ↦
      rw last (refl, λ h. absurd (omega (arith, leb→le (8) (event.attempts + 1) last)), λ h. refl)
  | inr again ↦ rw again (
    refl,
    λ h. (p, omega (arith, backoff_bounds (event.attempts + 1))),
    λ h. absurd (ground arith),
  )
]

one_row :
    (k room : ℕ) (c : Dispatcher) (event new : OutboxEvent) (jobs : Jobs) (kind message : String)
    → 0 < room
    → is_due c k event ≡ true
    → deliver (c.outage k) k event jobs ≡ (raised kind message, jobs)
    → settle c event (raised kind message) ≡ new
    → dispatch_rows c room jobs ((k, event) ∷ [])
      ≡ record { rows = (k, new) ∷ []; jobs = jobs; published = 0; failed = 1 }
unfolding dispatch_rows
one_row k zero c event new jobs kind message p d e s = absurd (omega arith)
one_row k (suc room) c event new jobs kind message p d e s = rw (d, e, s)

-- One such round, for the only row.
one_round :
    (k : ℕ) (c : Dispatcher) (event : OutboxEvent) (jobs : Jobs)
    → IsOutage k c
    → event.status ≡ OutboxStatus.pending
    → event.available_at ≤ c.now
    → (new : OutboxEvent) × (dispatch_pending_once c jobs ((k, event) ∷ [])
        ≡ record { rows = (k, new) ∷ []; jobs = jobs; published = 0; failed = 1 })
      × Retried c event new
unfolding dispatch_pending_once
one_round k c event jobs o p a =
    let (kind, message, e) = deliver_fails (c.outage k) k event jobs o.0 in
    (
      settle c event (raised kind message),
      one_row k c.batch_size c event (settle c event (raised kind message)) jobs kind message o.2
          (ground (arith, p, a, o.1)) e refl,
      settle-Retried c event kind message p,
    )

-- While Redis fails and stores no job, a pending event that is due, has been tried less than 8 times, is not locked and
-- is the only row, is tried again in each round, at least five minutes after the
-- last one, and the eighth attempt makes it FAILED: after the rounds that it has left it is FAILED
-- with 8 attempts, and no job was queued for it.
pub gives_up :
    (cs : List Dispatcher) (k t : ℕ) (event : OutboxEvent) (jobs : Jobs)
    → length cs + event.attempts ≡ 8
    → event.attempts < 8
    → event.status ≡ OutboxStatus.pending
    → event.available_at ≤ t
    → Outages k t cs
    → (last : OutboxEvent) × (rounds cs jobs ((k, event) ∷ []) ≡ (jobs, (k, last) ∷ []))
      × (last.status ≡ OutboxStatus.failed)
      × (last.attempts ≡ 8)
unfolding rounds
gives_up [] k t event jobs n l p a os = absurd (omega arith)
gives_up (c ∷ []) k t event jobs n l p a os =
    let (new, e, (tried, again, last)) = one_round k c event jobs os.0 p (omega arith) in
    (new, rw e, last (omega arith), omega arith)
gives_up (c ∷ c' ∷ cs) k t event jobs n l p a os =
    let (new, e, (tried, again, last)) = one_round k c event jobs os.0 p (omega arith) in
    let (waiting, soon) = again (omega arith) in
    rw e (gives_up (c' ∷ cs) k (c.now + 300) new jobs (omega arith) (omega arith) waiting soon os.2)
