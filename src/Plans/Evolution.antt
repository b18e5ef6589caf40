-- ===== src/Plans/Evolution.antt =====
-- The operations on plans change the database only as `Evolves` allows.
use k8s_ops_agent.Base.{ℕ, String, Option, none, some, List}
use k8s_ops_agent.Models.{Inspection, Target, Task}
use k8s_ops_agent.Adapters.{Call, lift, Inspect, returned, raised}
use k8s_ops_agent.Session.Keeps.{Keeps, Keeps-pure, Keeps-raise, keeps_rules}
use k8s_ops_agent.Tasks.Evolution.{Keeps-find_task, Keeps-finish_task}
use k8s_ops_agent.Plans.Requests.{PlanTarget, require_target, PlanRequest, create_plan}
use k8s_ops_agent.Plans.DryRun.{judge, deny_plan, pass_plan, settle_dry_run, dry_run_tx}
use k8s_ops_agent.Plans.Review.{cancel_task, approve_plan, reject_plan}

Keeps-lift : {A : Type 0} (c : Call A) → Keeps (lift c)
Keeps-lift (returned a) = Keeps-pure a
Keeps-lift (raised kind message) = Keeps-raise _

Keeps-require_target : (t : Option PlanTarget) → Keeps (require_target t)
unfolding require_target
Keeps-require_target none = search keeps_rules
Keeps-require_target (some t) = search keeps_rules

pub Keeps-create_plan : (k i : ℕ) (r : PlanRequest) → Keeps (create_plan k i r)
unfolding create_plan
Keeps-create_plan k i r = search (keeps_rules, Keeps-require_target) depth 30

Keeps-judge :
    (allowed : List String) (inspect : Inspect) (t : Target) → Keeps (judge allowed inspect t)
unfolding judge
Keeps-judge allowed inspect t = search (keeps_rules, Keeps-lift) depth 10

Keeps-pass_plan : (j k i : ℕ) (x : Inspection) → Keeps (pass_plan j k i x)
unfolding pass_plan
Keeps-pass_plan j k i x = search keeps_rules depth 30

Keeps-deny_plan : (k i : ℕ) (reason : String) (x : Inspection) → Keeps (deny_plan k i reason x)
unfolding deny_plan
Keeps-deny_plan k i reason x = search keeps_rules depth 30

Keeps-settle : (j k i : ℕ) (v : Option String × Inspection) → Keeps (settle_dry_run j k i v)
Keeps-settle j k i (none, x) = Keeps-pass_plan j k i x
Keeps-settle j k i (some reason, x) = Keeps-deny_plan k i reason x

pub Keeps-dry_run_tx :
    (j k : ℕ) (inspect : Inspect) (allowed : List String) → Keeps (dry_run_tx j k inspect allowed)
unfolding dry_run_tx
Keeps-dry_run_tx j k inspect allowed = search (keeps_rules, Keeps-judge, Keeps-settle) depth 20

pub Keeps-approve_plan :
    (k : ℕ) (actor : String) (comment : Option String) → Keeps (approve_plan k actor comment)
unfolding approve_plan
Keeps-approve_plan k actor comment =
    search (keeps_rules, Keeps-find_task, Keeps-finish_task) depth 30

Keeps-cancel_task : (t : Option (ℕ × Task)) → Keeps (cancel_task t)
unfolding cancel_task
Keeps-cancel_task none = search keeps_rules
Keeps-cancel_task (some (k, task)) = search keeps_rules depth 8

pub Keeps-reject_plan :
    (k : ℕ) (actor : String) (comment : Option String) → Keeps (reject_plan k actor comment)
unfolding reject_plan
Keeps-reject_plan k actor comment =
    search (keeps_rules, Keeps-find_task, Keeps-cancel_task) depth 30
