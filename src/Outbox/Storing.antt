-- ===== src/Outbox/Storing.antt =====
-- What one delivery does to the jobs of the queues.
use k8s_ops_agent.Base.{
  ℕ, ◌≡◌, refl, inl, inr, String, true, false, ◌&&◌, ◌||◌, none, some, [], ◌∷◌, ◌++◌, arith, ◌==◌,
  ◌is◌, eq_iff, Bool-cases, if◌then◌else◌,
}
use k8s_ops_agent.Models.{OutboxEvent}
use k8s_ops_agent.Adapters.{returned}
use k8s_ops_agent.Outbox.Queue.{
  Job, Jobs, Outage, add_job, has_job, enqueue, enqueue_diagnosis, enqueue_execution,
}
use k8s_ops_agent.Outbox.Dispatch.{deliver}

-- The queue that serves a topic.
abbrev pub queue_of : String → String
queue_of topic = if topic is "agent_run.requested" then "agent-runs" else "executions"

-- No two jobs of one queue have one id.
abbrev pub AllDistinct : Jobs → Type 0
AllDistinct [] = Unit
AllDistinct (j ∷ jobs) = (has_job j.queue j.job_id jobs ≡ false) × AllDistinct jobs

has_job-append :
    (q : String) (k : ℕ) (jobs : Jobs) (j : Job)
    → has_job q k (jobs ++ j ∷ []) ≡ (has_job q k jobs || (j.queue is q && j.job_id == k))
has_job-append q k [] j = ground arith
has_job-append q k (i ∷ jobs) j = ground (arith, has_job-append q k jobs j)

is_sym : (s t : String) → (s is t) ≡ (t is s)
is_sym s t = ground (arith, eq_iff s t, eq_iff t s)

AllDistinct-append :
    (j : Job) (jobs : Jobs)
    → has_job j.queue j.job_id jobs ≡ false
    → AllDistinct jobs
    → AllDistinct (jobs ++ j ∷ [])
AllDistinct-append j [] h d = (refl, tt)
AllDistinct-append j (i ∷ jobs) h d = (
  rw (has_job-append i.queue i.job_id jobs j) (ground (arith, h, d.0, is_sym i.queue j.queue)),
  AllDistinct-append j jobs (ground (arith, h)) d.1,
)

-- A call of the queue either leaves the jobs or adds one whose id is new to the queue.
data Step (queue function : String) (argument k : ℕ) (jobs after : Jobs) : Type 0 where
  unchanged : after ≡ jobs → Step queue function argument k jobs after
  added :
      has_job queue k jobs ≡ false
      → after ≡ add_job queue function argument k jobs
      → Step queue function argument k jobs after

enqueue-Step :
    (queue function : String) (o : Outage) (argument k : ℕ) (jobs : Jobs)
    → Step queue function argument k jobs (enqueue queue function o argument k jobs).1
unfolding enqueue
enqueue-Step queue function none argument k jobs = elim (Bool-cases (has_job queue k jobs)) [
  | inl old ↦ rw old (unchanged refl)
  | inr new ↦ rw new (added new refl)
]
enqueue-Step queue function (some x) argument k jobs = elim (Bool-cases x.stored) [
  | inr n ↦ rw n (unchanged refl)
  | inl y ↦ elim (Bool-cases (has_job queue k jobs)) [
    | inl old ↦ rw (y, old) (unchanged refl)
    | inr new ↦ rw (y, new) (added new refl)
  ]
]

Step-AllDistinct :
    (queue function : String) (argument k : ℕ) (jobs after : Jobs)
    → Step queue function argument k jobs after
    → AllDistinct jobs
    → AllDistinct after
Step-AllDistinct queue function argument k jobs after (unchanged e) d = rw e d
Step-AllDistinct queue function argument k jobs after (added new e) d =
    rw e (AllDistinct-append _ jobs new d)

Step_grows :
    (queue function : String) (argument k : ℕ) (jobs after : Jobs) (q : String) (i : ℕ)
    → Step queue function argument k jobs after
    → has_job q i jobs ≡ true
    → has_job q i after ≡ true
Step_grows queue function argument k jobs after q i (unchanged e) h = rw e h
Step_grows queue function argument k jobs after q i (added new e) h =
    rw (e, has_job-append q i jobs _) (ground (arith, h))

-- What one delivery does to the jobs.
pub deliver-AllDistinct :
    (o : Outage) (k : ℕ) (event : OutboxEvent) (jobs : Jobs)
    → AllDistinct jobs
    → AllDistinct (deliver o k event jobs).1
unfolding deliver enqueue_diagnosis enqueue_execution
deliver-AllDistinct o k event jobs d = elim (Bool-cases (event.topic is "agent_run.requested")) [
  | inl a ↦ rw a (Step-AllDistinct _ _ event.aggregate_id k jobs _ (enqueue-Step _ _ o _ k jobs) d)
  | inr b ↦ elim (Bool-cases (event.topic is "execution.requested")) [
    | inl a ↦
        rw (b, a) (Step-AllDistinct _ _ event.aggregate_id k jobs _ (enqueue-Step _ _ o _ k jobs) d)
    | inr c ↦ rw (b, c) d
  ]
]

pub deliver_grows :
    (o : Outage) (k : ℕ) (event : OutboxEvent) (jobs : Jobs) (q : String) (i : ℕ)
    → has_job q i jobs ≡ true
    → has_job q i (deliver o k event jobs).1 ≡ true
unfolding deliver enqueue_diagnosis enqueue_execution
deliver_grows o k event jobs q i h = elim (Bool-cases (event.topic is "agent_run.requested")) [
  | inl a ↦ rw a (Step_grows _ _ event.aggregate_id k jobs _ q i (enqueue-Step _ _ o _ k jobs) h)
  | inr b ↦ elim (Bool-cases (event.topic is "execution.requested")) [
    | inl a ↦
        rw (b, a) (Step_grows _ _ event.aggregate_id k jobs _ q i (enqueue-Step _ _ o _ k jobs) h)
    | inr c ↦ rw (b, c) h
  ]
]

is_refl : (s : String) → (s is s) ≡ true
is_refl s = ground (arith, eq_iff s s)

added_is_there :
    (queue function : String) (argument k : ℕ) (jobs : Jobs)
    → has_job queue k (add_job queue function argument k jobs) ≡ true
added_is_there queue function argument k jobs =
    rw (has_job-append queue k jobs _, is_refl queue) (ground arith)

enqueued_is_there :
    (queue function : String) (o : Outage) (argument k : ℕ) (jobs : Jobs)
    → (enqueue queue function o argument k jobs).0 ≡ returned tt
    → has_job queue k (enqueue queue function o argument k jobs).1 ≡ true
unfolding enqueue
enqueued_is_there queue function none argument k jobs h = elim (Bool-cases (has_job queue k jobs)) [
  | inl old ↦ rw old old
  | inr new ↦ rw new (added_is_there queue function argument k jobs)
]
enqueued_is_there queue function (some x) argument k jobs h = elim (Bool-cases x.stored) [
  | inr n ↦ absurd (let wrong = rw n at h in cc wrong)
  | inl y ↦ elim (Bool-cases (has_job queue k jobs)) [
    | inl old ↦ rw (y, old) old
    | inr new ↦ absurd (let wrong = rw (y, new) at h in cc wrong)
  ]
]

pub delivered_is_there :
    (o : Outage) (k : ℕ) (event : OutboxEvent) (jobs : Jobs)
    → (deliver o k event jobs).0 ≡ returned tt
    → has_job (queue_of event.topic) k (deliver o k event jobs).1 ≡ true
unfolding deliver enqueue_diagnosis enqueue_execution
delivered_is_there o k event jobs h = elim (Bool-cases (event.topic is "agent_run.requested")) [
  | inl a ↦ rw a (enqueued_is_there _ _ o event.aggregate_id k jobs (rw a at h))
  | inr b ↦ elim (Bool-cases (event.topic is "execution.requested")) [
    | inl a ↦ rw (b, a) (enqueued_is_there _ _ o event.aggregate_id k jobs (rw (b, a) at h))
    | inr c ↦ absurd (let wrong = rw (b, c) at h in cc wrong)
  ]
]
