-- ===== src/Tasks/Evolution.antt =====
-- The operations on tasks change the database only as `Evolves` allows.
use k8s_ops_agent.Base.{ℕ, String, Option, none, some, List, Bool}
use k8s_ops_agent.Domain.{TaskStatus}
use k8s_ops_agent.Models.{Task}
use k8s_ops_agent.Session.Evolution.{Evolves-refl}
use k8s_ops_agent.Session.Keeps.{Keeps, keeps_rules}
use k8s_ops_agent.Tasks.{find_task, finish_task, TaskRequest, create_task, transition_task}

pub Keeps-find_task : (fits : ℕ → Task → Bool) → Keeps (find_task fits)
unfolding find_task
Keeps-find_task fits = record { at = Evolves-refl }

pub Keeps-finish_task :
    (first : List TaskStatus) (t : Option (ℕ × Task)) → Keeps (finish_task first t)
unfolding finish_task
Keeps-finish_task first none = search keeps_rules
Keeps-finish_task first (some (k, task)) = search keeps_rules depth 8

pub Keeps-create_task : (k : ℕ) (r : TaskRequest) → Keeps (create_task k r)
unfolding create_task
Keeps-create_task k r = search keeps_rules depth 30

pub Keeps-transition_task : (k : ℕ) (status : String) → Keeps (transition_task k status)
unfolding transition_task
Keeps-transition_task k status = search keeps_rules depth 20
