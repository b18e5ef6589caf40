-- ===== src/Outbox/Handling.antt =====
-- How a round of the dispatcher handles one row.
use k8s_ops_agent.Base.{
  ℕ, ◌+◌, ◌≤◌, ◌<◌, ◌≡◌, ◌⊎◌, refl, leb, leb→le, String, true, false, none, some, ◌is◌, arith,
  eq_iff, Bool-cases, inl, inr, is_some,
}
use k8s_ops_agent.Domain.{OutboxStatus}
use k8s_ops_agent.Models.{OutboxEvent}
use k8s_ops_agent.Adapters.{Call, returned, raised}
use k8s_ops_agent.Outbox.Queue.{
  Jobs, Outage, has_job, enqueue, enqueue_diagnosis, enqueue_execution,
}
use k8s_ops_agent.Outbox.Dispatch.{Dispatcher, is_due, deliver, settle}
use k8s_ops_agent.Outbox.Delivery.{backoff_bounds}

-- The row waits for a delivery: it is pending, its time has come, and nobody has locked it.
abbrev pub IsDue : Dispatcher → ℕ → OutboxEvent → Type 0
IsDue c k event =
    (event.status ≡ OutboxStatus.pending) × (event.available_at ≤ c.now) × (c.locked k ≡ false)

pub is_due-IsDue :
    (c : Dispatcher) (k : ℕ) (event : OutboxEvent) → is_due c k event ≡ true → IsDue c k event
is_due-IsDue c k event h = (ground (arith, h), ground (arith, h), ground (arith, h))

pub IsDue-is_due :
    (c : Dispatcher) (k : ℕ) (event : OutboxEvent) → IsDue c k event → is_due c k event ≡ true
IsDue-is_due c k event (p, t, l) = ground (arith, p, t, l)

-- There is a queue for the topic.
abbrev pub HasQueue : OutboxEvent → Type 0
HasQueue event = (event.topic ≡ "agent_run.requested") ⊎ (event.topic ≡ "execution.requested")

-- The three ways to handle an event that is due. It is published, and then its topic has a queue.
-- Or Redis has failed, or there is no queue: then either it was the eighth time or a later one, and the
-- event is given up, or it is due again later, within 300 seconds.
abbrev pub Handled : Dispatcher → ℕ → OutboxEvent → OutboxEvent → Type 0
Handled c k event new =
    (HasQueue event
      × (new.status ≡ OutboxStatus.published)
      × (new.attempts ≡ event.attempts)
      × (new.published_at ≡ some c.now))
    ⊎ (((is_some (c.outage k) ≡ true) ⊎ (HasQueue event → ⊥))
        × (new.attempts ≡ event.attempts + 1)
        × (((new.status ≡ OutboxStatus.failed) × (8 ≤ new.attempts))
            ⊎ ((new.status ≡ OutboxStatus.pending)
                × (new.attempts < 8)
                × (c.now < new.available_at)
                × (new.available_at ≤ c.now + 300))))

enqueue_raises :
    (queue function : String) (o : Outage) (argument k : ℕ) (jobs : Jobs) (kind message : String)
    → (enqueue queue function o argument k jobs).0 ≡ raised kind message
    → is_some o ≡ true
unfolding enqueue
enqueue_raises queue function none argument k jobs kind message h =
    elim (Bool-cases (has_job queue k jobs)) [
      | inl old ↦ absurd (let wrong = rw old at h in cc wrong)
      | inr new ↦ absurd (let wrong = rw new at h in cc wrong)
    ]
enqueue_raises queue function (some x) argument k jobs kind message h = refl

deliver_raises :
    (o : Outage) (k : ℕ) (event : OutboxEvent) (jobs : Jobs) (kind message : String)
    → (deliver o k event jobs).0 ≡ raised kind message
    → (is_some o ≡ true) ⊎ (HasQueue event → ⊥)
unfolding deliver enqueue_diagnosis enqueue_execution
deliver_raises o k event jobs kind message h =
    elim (Bool-cases (event.topic is "agent_run.requested")) [
      | inl a ↦ inl (enqueue_raises _ _ o event.aggregate_id k jobs kind message (rw a at h))
      | inr b ↦ elim (Bool-cases (event.topic is "execution.requested")) [
        | inl a ↦ inl (enqueue_raises _ _ o event.aggregate_id k jobs kind message (rw (b, a) at h))
        | inr c ↦ inr (no_queue b c)
      ]
    ]
  where
    no_queue :
        (event.topic is "agent_run.requested") ≡ false
        → (event.topic is "execution.requested") ≡ false
        → HasQueue event
        → ⊥
    no_queue b c (inl e) = ground (arith, b, e, eq_iff event.topic "agent_run.requested")
    no_queue b c (inr e) = ground (arith, c, e, eq_iff event.topic "execution.requested")

deliver_returns :
    (o : Outage) (k : ℕ) (event : OutboxEvent) (jobs : Jobs)
    → (deliver o k event jobs).0 ≡ returned tt
    → HasQueue event
unfolding deliver
deliver_returns o k event jobs h = elim (Bool-cases (event.topic is "agent_run.requested")) [
  | inl a ↦ inl (ground (arith, a, eq_iff event.topic "agent_run.requested"))
  | inr b ↦ elim (Bool-cases (event.topic is "execution.requested")) [
    | inl a ↦ inr (ground (arith, a, eq_iff event.topic "execution.requested"))
    | inr c ↦ absurd (let wrong = rw (b, c) at h in cc wrong)
  ]
]

pub settle-Handled :
    (c : Dispatcher) (k : ℕ) (event : OutboxEvent) (jobs : Jobs) (r : Call (Unit {0}))
    → event.status ≡ OutboxStatus.pending
    → (deliver (c.outage k) k event jobs).0 ≡ r
    → Handled c k event (settle c event r)
unfolding settle
settle-Handled c k event jobs (returned tt) p e =
    inl (deliver_returns (c.outage k) k event jobs e, refl, refl, refl)
settle-Handled c k event jobs (raised kind message) p e =
    let why = deliver_raises (c.outage k) k event jobs kind message e in
    elim (Bool-cases (leb 8 (event.attempts + 1))) [
      | inl last ↦ rw last (inr (why, refl, inl (refl, omega (arith, leb→le))))
      | inr again ↦ rw again (
          inr (
            why,
            refl,
            inr (
              p,
              ground arith,
              omega (arith, backoff_bounds (event.attempts + 1)),
              omega (arith, backoff_bounds (event.attempts + 1)),
            ),
          ))
    ]
