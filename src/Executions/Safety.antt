-- ===== src/Executions/Safety.antt =====
-- When `process_execution` asks the cluster for anything, and what a repair ends in.
use k8s_ops_agent.Base.{ℕ, ◌≡◌, ◌≢◌, ◌⊎◌, refl, true, some, arith, find}
use k8s_ops_agent.Domain.{ExecutionStatus, IncidentStatus, validate_transition}
use k8s_ops_agent.Models.{Incident, Target, Plan, Execution, Db}
use k8s_ops_agent.Session.{
  Result, ok, err, is_err, get_execution, get_plan, advance_execution, advance_incident,
}
use k8s_ops_agent.Executions.Processing.{Cluster, start_tx, process_execution}

-- The first transaction refuses to go on.
start_refused :
    (now k : ℕ) (d : Db) (x : Execution) (p : Plan) (i : Incident)
    → find k d.executions ≡ some x
    → find x.plan_id d.plans ≡ some p
    → find p.incident_id d.incidents ≡ some i
    → (x.status ≢ ExecutionStatus.prepared) ⊎ (i.status ≢ IncidentStatus.awaiting_approval)
    → is_err (start_tx now k d) ≡ true
unfolding start_tx get_execution get_plan advance_execution advance_incident validate_transition
start_refused now k d x p i hx hp hi h = ground arith

start_refused_alike :
    (now now' k : ℕ) (d : Db) (x : Execution) (p : Plan) (i : Incident)
    → find k d.executions ≡ some x
    → find x.plan_id d.plans ≡ some p
    → find p.incident_id d.incidents ≡ some i
    → (x.status ≢ ExecutionStatus.prepared) ⊎ (i.status ≢ IncidentStatus.awaiting_approval)
    → start_tx now k d ≡ start_tx now' k d
unfolding start_tx get_execution get_plan advance_execution advance_incident validate_transition
start_refused_alike now now' k d x p i hx hp hi h = ground arith

-- The cluster is left alone: nothing is written, and the answer is the same for any cluster.
abbrev pub Untouched : Cluster → Cluster → ℕ → Db → Type 0
Untouched c c' k d =
    (is_err (process_execution c k d).0 ≡ true)
    × ((process_execution c k d).1 ≡ d)
    × ((process_execution c k d).0 ≡ (process_execution c' k d).0)

untouched :
    (c c' : Cluster) (k : ℕ) (d : Db)
    → is_err (start_tx c.started k d) ≡ true
    → start_tx c.started k d ≡ start_tx c'.started k d
    → Untouched c c' k d
unfolding process_execution
untouched c c' k d h e = go (start_tx c.started k d) refl
  where
    go : (r : Result (Target × Db)) → start_tx c.started k d ≡ r → Untouched c c' k d
    go (ok a) r = cc
    go (err x) r = ground arith

-- Where the execution, its plan and its incident exist, the cluster is asked for nothing, and nothing
-- is written, unless the execution is PREPARED and its incident is AWAITING_APPROVAL: otherwise `process_execution` raises, and the outcome is the
-- same whatever the cluster would have done.
pub delete_needs_approval :
    (c c' : Cluster) (k : ℕ) (d : Db) (x : Execution) (p : Plan) (i : Incident)
    → find k d.executions ≡ some x
    → find x.plan_id d.plans ≡ some p
    → find p.incident_id d.incidents ≡ some i
    → (x.status ≢ ExecutionStatus.prepared) ⊎ (i.status ≢ IncidentStatus.awaiting_approval)
    → Untouched c c' k d
delete_needs_approval c c' k d x p i hx hp hi h =
    untouched c c' k d (start_refused c.started k d x p i hx hp hi h)
      (start_refused_alike c.started c'.started k d x p i hx hp hi h)
