-- ===== src/Outbox/Handover.antt =====
-- What a round of the dispatcher hands over to the queue.
use k8s_ops_agent.Base.{
  ℕ, zero, suc, ◌≡◌, refl, inl, inr, String, true, [], ◌∷◌, arith, Bool-cases, Table,
}
use k8s_ops_agent.Domain.{OutboxStatus}
use k8s_ops_agent.Models.{OutboxEvent}
use k8s_ops_agent.Adapters.{Call, returned, raised}
use k8s_ops_agent.Outbox.Queue.{Jobs, Outage, has_job}
use k8s_ops_agent.Outbox.Dispatch.{
  Dispatcher, is_due, deliver, settle, dispatch_rows, dispatch_pending_once,
}
use k8s_ops_agent.Outbox.Storing.{
  queue_of, AllDistinct, deliver-AllDistinct, deliver_grows, delivered_is_there,
}

-- Each published event has a job under its id, in the queue of its topic.
abbrev pub AllHandedOver : Jobs → Table OutboxEvent → Type 0
AllHandedOver jobs [] = Unit
AllHandedOver jobs ((k, event) ∷ rows) =
    (event.status ≡ OutboxStatus.published → has_job (queue_of event.topic) k jobs ≡ true)
    × AllHandedOver jobs rows

-- What holds of the jobs and of the rows already passed, for every way to go on.
rows_grow :
    (c : Dispatcher) (room : ℕ) (jobs : Jobs) (rows : Table OutboxEvent) (q : String) (i : ℕ)
    → has_job q i jobs ≡ true
    → has_job q i (dispatch_rows c room jobs rows).jobs ≡ true
unfolding dispatch_rows
rows_grow c room jobs [] q i h = h
rows_grow c zero jobs (row ∷ rows) q i h = rows_grow c zero jobs rows q i h
rows_grow c (suc room) jobs ((k, event) ∷ rows) q i h = elim (Bool-cases (is_due c k event)) [
  | inl y ↦ rw y (
      rows_grow c room (deliver (c.outage k) k event jobs).1 rows q i
        (deliver_grows (c.outage k) k event jobs q i h))
  | inr n ↦ rw n (rows_grow c (suc room) jobs rows q i h)
]

AllHandedOver-grow :
    (c : Dispatcher) (o : Outage) (k : ℕ) (event : OutboxEvent) (jobs : Jobs)
    (rows : Table OutboxEvent)
    → AllHandedOver jobs rows
    → AllHandedOver (deliver o k event jobs).1 rows
AllHandedOver-grow c o k event jobs [] h = tt
AllHandedOver-grow c o k event jobs ((i, e) ∷ rows) h =
    (λ p. deliver_grows o k event jobs _ i (h.0 p), AllHandedOver-grow c o k event jobs rows h.1)

settled_is_there :
    (c : Dispatcher) (k : ℕ) (event : OutboxEvent) (jobs : Jobs) (r : Call (Unit {0}))
    → (deliver (c.outage k) k event jobs).0 ≡ r
    → event.status ≡ OutboxStatus.pending
    → (settle c event r).status ≡ OutboxStatus.published
    → has_job (queue_of (settle c event r).topic) k (deliver (c.outage k) k event jobs).1 ≡ true
unfolding settle
settled_is_there c k event jobs (returned tt) e p s = delivered_is_there (c.outage k) k event jobs e
settled_is_there c k event jobs (raised kind message) e p s = ground (arith, s)

rows_handed_over :
    (c : Dispatcher) (room : ℕ) (jobs : Jobs) (rows : Table OutboxEvent)
    → AllHandedOver jobs rows
    → AllHandedOver (dispatch_rows c room jobs rows).jobs (dispatch_rows c room jobs rows).rows
unfolding dispatch_rows
rows_handed_over c room jobs [] h = tt
rows_handed_over c zero jobs ((k, event) ∷ rows) h =
    (λ p. rows_grow c zero jobs rows _ k (h.0 p), rows_handed_over c zero jobs rows h.1)
rows_handed_over c (suc room) jobs ((k, event) ∷ rows) h = elim (Bool-cases (is_due c k event)) [
  | inl y ↦
      let r = (deliver (c.outage k) k event jobs).0 in
      let jobs' = (deliver (c.outage k) k event jobs).1 in
      rw y (
        λ p.
            rows_grow c room jobs' rows _ k
              (settled_is_there c k event jobs r refl (ground (arith, y)) p),
        rows_handed_over c room jobs' rows
            (AllHandedOver-grow c (c.outage k) k event jobs rows h.1),
      )
  | inr n ↦ rw n (
    λ p. rows_grow c (suc room) jobs rows _ k (h.0 p),
    rows_handed_over c (suc room) jobs rows h.1,
  )
]

rows_distinct :
    (c : Dispatcher) (room : ℕ) (jobs : Jobs) (rows : Table OutboxEvent)
    → AllDistinct jobs
    → AllDistinct (dispatch_rows c room jobs rows).jobs
unfolding dispatch_rows
rows_distinct c room jobs [] d = d
rows_distinct c zero jobs (row ∷ rows) d = rows_distinct c zero jobs rows d
rows_distinct c (suc room) jobs ((k, event) ∷ rows) d = elim (Bool-cases (is_due c k event)) [
  | inl y ↦ rw y (
      rows_distinct c room (deliver (c.outage k) k event jobs).1 rows
        (deliver-AllDistinct (c.outage k) k event jobs d))
  | inr n ↦ rw n (rows_distinct c (suc room) jobs rows d)
]

-- No published event is lost and none is doubled: if before a round every published event has a job
-- under its id in the queue of its topic, and no two jobs of a queue share an id, then both hold
-- after the round, whichever calls of Redis fail.
pub dispatch_hands_over :
    (c : Dispatcher) (jobs : Jobs) (rows : Table OutboxEvent)
    → AllHandedOver jobs rows
    → AllDistinct jobs
    → let after = dispatch_pending_once c jobs rows in
      AllHandedOver after.jobs after.rows × AllDistinct after.jobs
unfolding dispatch_pending_once
dispatch_hands_over c jobs rows h d =
    (rows_handed_over c c.batch_size jobs rows h, rows_distinct c c.batch_size jobs rows d)
