-- ===== src/Outbox/Dispatch.antt =====
-- `dispatch_pending_once` of app/ops_agent/outbox.py.
use k8s_ops_agent.Base.{
  ℕ, zero, suc, ◌+◌, ◌^◌, min, String, Bool, true, false, not, ◌&&◌, none, some, [], ◌∷◌, leb, ◌is◌,
  Table, if◌then◌else◌,
}
use k8s_ops_agent.Domain.{OutboxStatus}
use k8s_ops_agent.Models.{OutboxEvent}
use k8s_ops_agent.Adapters.{Call, returned, raised}
use k8s_ops_agent.Outbox.Queue.{Jobs, Outage, Enqueued, enqueue_diagnosis, enqueue_execution}

abbrev pub max_attempts : ℕ
max_attempts = 8

-- The clock, the size of a batch, the rows that another dispatcher has locked (they are skipped),
-- the outages of Redis by event, and the text that is kept of an exception.
pub record Dispatcher : Type 0 where
  pub now : ℕ
  pub batch_size : ℕ
  pub locked : ℕ → Bool
  pub outage : ℕ → Outage
  pub clean : String → String

abbrev pub is_pending : OutboxStatus → Bool
is_pending OutboxStatus.pending = true
is_pending s = false

-- The rows that the query selects.
abbrev pub is_due : Dispatcher → ℕ → OutboxEvent → Bool
is_due c k event = is_pending event.status && leb event.available_at c.now && not (c.locked k)

-- The `if` of the loop.
unfoldable pub deliver : Outage → ℕ → OutboxEvent → Jobs → Enqueued
deliver outage k event jobs =
    if event.topic is "agent_run.requested"
    then enqueue_diagnosis outage event.aggregate_id k jobs
    else if event.topic is "execution.requested"
    then enqueue_execution outage event.aggregate_id k jobs
    else (raised "ValueError" "unsupported outbox topic", jobs)

abbrev pub backoff : ℕ → ℕ
backoff attempts = min 300 (2 ^ attempts)

-- The row after the `try` block has ended, well or not.
unfoldable pub settle : Dispatcher → OutboxEvent → Call (Unit {0}) → OutboxEvent
settle c event (returned _) = record event {
  status = OutboxStatus.published;
  published_at = some c.now;
  last_error = none;
}
settle c event (raised kind message) =
    let failed = record event {
      attempts = event.attempts + 1;
      last_error = some (c.clean message);
    } in
    if leb max_attempts failed.attempts
    then record failed { status = OutboxStatus.failed }
    else record failed { available_at = c.now + backoff failed.attempts }

-- What the loop has done so far: the rows that it has passed are in the table.
pub record Progress : Type 0 where
  pub rows : Table OutboxEvent
  pub jobs : Jobs
  pub published : ℕ
  pub failed : ℕ

abbrev published_by : Call (Unit {0}) → ℕ
published_by (returned _) = 1
published_by (raised kind message) = 0

abbrev failed_by : Call (Unit {0}) → ℕ
failed_by (returned _) = 0
failed_by (raised kind message) = 1

-- The first row goes in front of what the rest of the loop returns.
abbrev push : ℕ × OutboxEvent → ℕ → ℕ → Progress → Progress
push row p f rest = record rest {
  rows = row ∷ rest.rows;
  published = p + rest.published;
  failed = f + rest.failed;
}

-- The selected rows in their order, at most `room` of them; each is settled where it stands.
unfoldable pub dispatch_rows : Dispatcher → ℕ → Jobs → Table OutboxEvent → Progress
dispatch_rows c room jobs [] = record { rows = []; jobs = jobs; published = 0; failed = 0 }
dispatch_rows c zero jobs (row ∷ rows) = push row 0 0 (dispatch_rows c zero jobs rows)
dispatch_rows c (suc room) jobs ((k, event) ∷ rows) =
    let call = deliver (c.outage k) k event jobs in
    let taken =
      push (k, settle c event call.0) (published_by call.0) (failed_by call.0)
        (dispatch_rows c room call.1 rows) in
    let skipped = push (k, event) 0 0 (dispatch_rows c (suc room) jobs rows) in
    if is_due c k event then taken else skipped

-- One round of the dispatcher over the rows in the order of their creation.
unfoldable pub dispatch_pending_once : Dispatcher → Jobs → Table OutboxEvent → Progress
unfolding dispatch_rows
dispatch_pending_once c = dispatch_rows c c.batch_size
