-- ===== src/Outbox/Queue.antt =====
-- app/ops_agent/queueing.py. RQ is not part of the repository: what is relied on is that a job that
-- was enqueued under an id is found under that id. Redis may fail at any call: whether it does, with
-- which exception, and whether the job was stored before, is an argument.
use k8s_ops_agent.Base.{
  ℕ, String, Bool, false, not, ◌&&◌, ◌||◌, Option, none, some, List, [], ◌∷◌, ◌++◌, ◌==◌, ◌is◌,
  if◌then◌else◌,
}
use k8s_ops_agent.Adapters.{Call, returned, raised}

pub record Job : Type 0 where
  pub queue : String
  pub function : String
  pub argument : ℕ
  pub job_id : ℕ

-- The jobs that RQ knows, the newest last.
abbrev pub Jobs : Type 0
Jobs = List Job

-- A failure of Redis: at `fetch_job` or in `enqueue` before the job is stored, or after that.
pub record Failure : Type 0 where
  pub kind : String
  pub message : String
  pub stored : Bool

-- The failure of Redis at this call, if it fails.
abbrev pub Outage : Type 0
Outage = Option Failure

-- `queue.fetch_job(job_id) is not None`
abbrev pub has_job : String → ℕ → Jobs → Bool
has_job queue id [] = false
has_job queue id (j ∷ jobs) = (j.queue is queue && j.job_id == id) || has_job queue id jobs

-- How a call ends, and the jobs that it leaves.
abbrev pub Enqueued : Type 0
Enqueued = Call (Unit {0}) × Jobs

abbrev pub add_job : String → String → ℕ → ℕ → Jobs → Jobs
add_job queue function argument job_id jobs =
    jobs ++ record { queue = queue; function = function; argument = argument; job_id = job_id } ∷ []

-- A job that is there is not enqueued again, so a failure behind the storing needs a new one.
unfoldable pub enqueue : String → String → Outage → ℕ → ℕ → Jobs → Enqueued
enqueue queue function none argument job_id jobs =
    if has_job queue job_id jobs
    then (returned tt, jobs)
    else (returned tt, add_job queue function argument job_id jobs)
enqueue queue function (some failure) argument job_id jobs =
    if not failure.stored
    then (raised failure.kind failure.message, jobs)
    else if has_job queue job_id jobs
    then (returned tt, jobs)
    else (raised failure.kind failure.message, add_job queue function argument job_id jobs)

-- The dispatcher always gives a `job_id`.
unfoldable pub enqueue_diagnosis : Outage → ℕ → ℕ → Jobs → Enqueued
unfolding enqueue
enqueue_diagnosis = enqueue "agent-runs" "ops_agent.jobs.process_diagnosis_job"

unfoldable pub enqueue_execution : Outage → ℕ → ℕ → Jobs → Enqueued
unfolding enqueue
enqueue_execution = enqueue "executions" "ops_agent.jobs.process_execution_job"
