-- ===== src/AgentCore/Handover.antt =====
-- The task with which `_finish` of app/ops_agent/agent_core.py hands a run over to a human.
use mathlib.Core.List.{Memᴰ}
use k8s_ops_agent.Base.{
  ℕ, ◌≡◌, ◌⊎◌, refl, ap, eq_iff, Table, String, Bool, none, true, Option, some, [], ◌∷◌, arith,
  Bool-cases, Option-cases, inl, inr, select, insert, select-insert,
}
use k8s_ops_agent.Domain.{
  AgentRunStatus, TaskStatus, AgentRunStatus-discrete, TaskStatus-discrete, contains,
}
use k8s_ops_agent.Models.{Task, Db}
use k8s_ops_agent.Session.{Result, ok, add_task}
use k8s_ops_agent.Tasks.{text_is, id_is, find_task, related_task}
use k8s_ops_agent.AgentCore.Store.{is_status}
use k8s_ops_agent.AgentCore.Finish.{is_handover_of, handover_task, hand_over}

-- A task of the incident that is about the run, and that nobody has finished.
pub record IsHandover (incident_id run_id : ℕ) (task : Task) : Type 0 where
  pub about_incident : task.incident_id ≡ incident_id
  pub about_type : task.related_entity_type ≡ some "AgentRun"
  pub about_run : task.related_entity_id ≡ some run_id
  pub unfinished :
      (task.status ≡ TaskStatus.todo)
      ⊎ (task.status ≡ TaskStatus.in_progress)
      ⊎ (task.status ≡ TaskStatus.blocked)

-- Such a task is in the table.
abbrev pub HasHandover : ℕ → ℕ → Table Task → Type 0
HasHandover incident_id run_id tasks =
    (k : ℕ) × (task : Task) × Memᴰ (k, task) tasks × IsHandover incident_id run_id task

text_is-some : (o : Option String) (t : String) → text_is o t ≡ true → o ≡ some t
text_is-some none t h = absurd (cc h)
text_is-some (some s) t h = ap some (ground (arith, h, eq_iff s t))

id_is-some : (o : Option ℕ) (k : ℕ) → id_is o k ≡ true → o ≡ some k
id_is-some none k h = absurd (cc h)
id_is-some (some j) k h = ap some (ground (arith, h))

open_states :
    (s : TaskStatus)
    → contains TaskStatus-discrete s
        (TaskStatus.todo ∷ TaskStatus.in_progress ∷ TaskStatus.blocked ∷ [])
      ≡ true
    → (s ≡ TaskStatus.todo) ⊎ (s ≡ TaskStatus.in_progress) ⊎ (s ≡ TaskStatus.blocked)
unfolding TaskStatus-discrete
open_states TaskStatus.todo h = inl refl
open_states TaskStatus.in_progress h = inr (inl refl)
open_states TaskStatus.blocked h = inr (inr refl)
open_states TaskStatus.done h = absurd (cc h)
open_states TaskStatus.cancelled h = absurd (cc h)

is_handover_of-IsHandover :
    (incident_id run_id k : ℕ) (task : Task)
    → is_handover_of incident_id run_id k task ≡ true
    → IsHandover incident_id run_id task
unfolding is_handover_of related_task
is_handover_of-IsHandover incident_id run_id k task h = record {
  about_incident = ground (arith, h);
  about_type = text_is-some task.related_entity_type "AgentRun" (ground (arith, h));
  about_run = id_is-some task.related_entity_id run_id (ground (arith, h));
  unfinished = open_states task.status (ground (arith, h));
}

select-Memᴰ :
    {R : Type 0} (p : ℕ → R → Bool) (t : Table R) (k : ℕ) (row : R)
    → select p t ≡ some (k, row)
    → Memᴰ (k, row) t × (p k row ≡ true)
unfolding select
select-Memᴰ p [] k row h = absurd (cc h)
select-Memᴰ p ((j, v) ∷ t) k row h = elim (Bool-cases (p j v)) [
  | inl y ↦
      let same_key : k ≡ j = ground (arith, h, y) in
      let same_row : row ≡ v = ground (arith, h, y) in
      (Memᴰ.head (cc (same_key, same_row)), rw (same_key, same_row) y)
  | inr n ↦ let (m, q) = select-Memᴰ p t k row (rw n at h) in (Memᴰ.tail m, q)
]

selected-HasHandover :
    (incident_id run_id : ℕ) (tasks : Table Task) (x : ℕ × Task)
    → select (is_handover_of incident_id run_id) tasks ≡ some x
    → HasHandover incident_id run_id tasks
selected-HasHandover incident_id run_id tasks (k, task) h =
    let (m, q) = select-Memᴰ (is_handover_of incident_id run_id) tasks k task h in
    (k, task, m, is_handover_of-IsHandover incident_id run_id k task q)

awaits :
    (s : AgentRunStatus)
    → s ≡ AgentRunStatus.awaiting_human
    → is_status AgentRunStatus.awaiting_human s ≡ true
unfolding is_status AgentRunStatus-discrete
awaits s h = rw h refl

-- What a hand-over leaves: all but the tasks as they were, and, for a run that awaits a human, an
-- unfinished task about it.
pub record HandedOver (status : AgentRunStatus) (incident_id run_id : ℕ) (d : Db)
    (r : Result (Unit {0} × Db)) : Type 0 where
  pub after : Db
  pub returns : r ≡ ok (tt, after)
  pub runs : after.agent_runs ≡ d.agent_runs
  pub incidents : after.incidents ≡ d.incidents
  pub task : status ≡ AgentRunStatus.awaiting_human → HasHandover incident_id run_id after.tasks

is_handover_of-handover_task :
    (incident_id run_id k : ℕ) (reason : String)
    → is_handover_of incident_id run_id k (handover_task incident_id run_id reason) ≡ true
unfolding is_handover_of handover_task related_task TaskStatus-discrete
is_handover_of-handover_task incident_id run_id k reason = ground arith

pub hand_over_done :
    (k : ℕ) (status : AgentRunStatus) (incident_id run_id : ℕ) (reason : String) (d : Db)
    → HandedOver status incident_id run_id d (hand_over k status incident_id run_id reason d)
unfolding hand_over find_task add_task
hand_over_done k status incident_id run_id reason d =
    elim (Bool-cases (is_status AgentRunStatus.awaiting_human status)) [
      | inr n ↦ record {
        after = d;
        returns = rw n refl;
        runs = refl;
        incidents = refl;
        task = λ h. absurd (cc (awaits status h, n));
      }
      | inl y ↦ elim (Option-cases (select (is_handover_of incident_id run_id) d.tasks)) [
        | inr (row, e) ↦ record {
          after = d;
          returns = rw (y, e) refl;
          runs = refl;
          incidents = refl;
          task = λ _. selected-HasHandover incident_id run_id d.tasks row e;
        }
        | inl e ↦
            let task = handover_task incident_id run_id reason in
            let there =
              select-insert (is_handover_of incident_id run_id) k task d.tasks e
                (is_handover_of-handover_task incident_id run_id k reason) in
            record {
              after = record d { tasks = insert k task d.tasks };
              returns = rw (y, e) refl;
              runs = refl;
              incidents = refl;
              task = λ _. selected-HasHandover incident_id run_id _ _ there;
            }
      ]
    ]
