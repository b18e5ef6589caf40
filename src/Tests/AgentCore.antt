-- ===== src/Tests/AgentCore.antt =====
-- The theorems on the agent core, its tools and its evidence, at the run of `AgentData`.
use mathlib.Core.List.{Memᴰ}
use k8s_ops_agent.Base.{
  ℕ, String, ◌≡◌, ◌⊎◌, refl, arith, true, false, Option, none, some, [], ◌∷◌, find, select, is_some,
  eq_iff,
}
use k8s_ops_agent.Domain.{IncidentStatus, AgentRunStatus, PolicyDecision}
use k8s_ops_agent.Json.{Fields, str, field, end, get}
use k8s_ops_agent.Evidence.Redaction.{
  sanitize_content, is_sensitive, sensitive_keys, byte_length, redact,
}
use k8s_ops_agent.Evidence.Hiding.{is_clean_dict}
use k8s_ops_agent.Evidence.Limits.{Kept, sanitize_content_hides, sanitize_content_keeps}
use k8s_ops_agent.Tools.Scope.{InScope, Answers, Refuses, invoke_tool_scoped}
use k8s_ops_agent.Tools.{lookup}
use k8s_ops_agent.Session.{Error, err, ok, begin, add_audit}
use k8s_ops_agent.Models.{AgentRun, Diagnosis, Db}
use k8s_ops_agent.AgentCore.Decision.{validate_next_decision}
use k8s_ops_agent.AgentCore.Policy.{evaluate}
use k8s_ops_agent.AgentCore.Store.{is_terminal}
use k8s_ops_agent.AgentCore.Process.{limit_reached, prepare, plan_budget}
use k8s_ops_agent.AgentCore.Accepted.{Consistent, accepted-Consistent}
use k8s_ops_agent.AgentCore.Permission.{Permitted, allowed-Permitted}
use k8s_ops_agent.AgentCore.Lease.{Worker, claim, started_run}
use k8s_ops_agent.AgentCore.Exclusive.{claimed_exclusively}
use k8s_ops_agent.AgentCore.Finish.{finish, request_cancel}
use k8s_ops_agent.AgentCore.Ended.{Finished, finish_outcome}
use k8s_ops_agent.AgentCore.Final.{finished_for_good}
use k8s_ops_agent.AgentCore.Budget.{WithinBudget, budget, budget-WithinBudget}
use k8s_ops_agent.AgentCore.Rounds.{process, round}
use k8s_ops_agent.AgentCore.Bounded.{process_ends}
use k8s_ops_agent.AgentCore.Interrupted.{interrupted_step_blocks}
use k8s_ops_agent.Tests.Data.{incident_in, a_run}
use k8s_ops_agent.Tests.AgentData.{
  python, python-HidesOnce, python-KeepsUnmatched, arguments, pod_status, registry, validator,
  conclusion, worker_at, with_run, queued_run, round_at, left_step, config, context,
}

abbrev secret : Fields
secret = field "password" (str "x") (field "line" (str "password=x") end)

sanitize_content_hides_example :
    (clean : Fields) × (is_clean_dict python clean ≡ true)
    × Kept python 8000 clean (sanitize_content python secret 8000).0
sanitize_content_hides_example = sanitize_content_hides python python-HidesOnce secret 8000

sanitize_content_keeps_example : (sanitize_content python arguments 8000).0 ≡ arguments
unfolding sanitize_content redact is_sensitive sensitive_keys byte_length
sanitize_content_keeps_example =
    sanitize_content_keeps python python-KeepsUnmatched arguments 8000 refl refl

invoke_tool_scoped_example :
    (InScope validator pod_status arguments × Answers python validator pod_status 0 arguments 20)
    ⊎ Refuses python validator pod_status 0 arguments 20
invoke_tool_scoped_example = invoke_tool_scoped python validator pod_status 0 arguments 20

accepted-Consistent_example :
    Consistent conclusion.decision_type registry conclusion
    × ((k : ℕ) → Memᴰ k conclusion.evidence_ids → Memᴰ k (31 ∷ 32 ∷ []))
    × (false ≡ false)
unfolding validate_next_decision
accepted-Consistent_example =
    accepted-Consistent (record { fits_schema = λ d. true; is_executable = λ s fields. false })
      registry (31 ∷ 32 ∷ []) conclusion refl

allowed-Permitted_example :
    Permitted python a_run
      (incident_in IncidentStatus.diagnosing)
      registry
      "get_pod_status"
      arguments
      []
unfolding evaluate get lookup
allowed-Permitted_example =
    allowed-Permitted python a_run (incident_in IncidentStatus.diagnosing) registry "get_pod_status"
      arguments [] (record { decision = PolicyDecision.allow; reason_code = "POLICY_ALLOWED" }) refl
      refl

claimed_exclusively_example :
    claim
      (worker_at "second" 220)
      6
      (begin (claim (worker_at "first" 200) 6) (with_run queued_run)).1
    ≡ ok (
      started_run (worker_at "first" 200) queued_run,
      (begin (claim (worker_at "first" 200) 6) (with_run queued_run)).1,
    )
unfolding claim find select add_audit
claimed_exclusively_example =
    claimed_exclusively (worker_at "first" 200) (worker_at "second" 220) 6
      (started_run (worker_at "first" 200) queued_run) (with_run queued_run)
      (begin (claim (worker_at "first" 200) 6) (with_run queued_run)).1 refl refl refl
      (ground (arith, eq_iff "second" "first")) (omega arith)

finish_outcome_example :
    Finished 6 AgentRunStatus.awaiting_human
      (record a_run {
        status = AgentRunStatus.awaiting_human;
        stop_reason = some "TOOL_TRANSIENT_ERROR";
        finished_at = some 300;
        lease_owner = none;
        lease_expires_at = none;
      })
      (incident_in IncidentStatus.diagnosing)
      (finish python 300 40 6 AgentRunStatus.awaiting_human "TOOL_TRANSIENT_ERROR" none
        (with_run a_run))
unfolding find is_terminal
finish_outcome_example =
    finish_outcome python 300 40 6 AgentRunStatus.awaiting_human "TOOL_TRANSIENT_ERROR" none
      (with_run a_run) a_run (incident_in IncidentStatus.diagnosing) refl refl tt

abbrev stopped : AgentRun
stopped = record a_run {
  status = AgentRunStatus.stopped;
  stop_reason = some "MAX_STEPS_EXHAUSTED";
  finished_at = some 300;
  lease_owner = none;
  lease_expires_at = none;
}

abbrev after_stop : Db
after_stop =
    (begin (finish python 300 40 6 AgentRunStatus.stopped "MAX_STEPS_EXHAUSTED" none)
      (with_run a_run)).1

finished_for_good_example :
    ((now task_id : ℕ) (status : AgentRunStatus) (reason : String) (diagnosis : Option Diagnosis)
      → finish python now task_id 6 status reason diagnosis after_stop ≡ ok (stopped, after_stop))
    × ((w : Worker) → claim w 6 after_stop ≡ ok (stopped, after_stop))
    × ((now : ℕ) → request_cancel python now 6 after_stop ≡ ok (stopped, after_stop))
unfolding finish find select add_audit
finished_for_good_example =
    finished_for_good python 300 40 6 AgentRunStatus.stopped "MAX_STEPS_EXHAUSTED" none
      (with_run a_run) after_stop stopped refl refl

budget-WithinBudget_example :
    WithinBudget config a_run
      (record { input_limit = 12000; output_tokens = 1000; safety_margin = 512 })
unfolding budget
budget-WithinBudget_example =
    budget-WithinBudget config a_run
      (record { input_limit = 12000; output_tokens = 1000; safety_margin = 512 }) refl

process_ends_example :
    is_some (process 9 (worker_at "worker" 205) round_at 6 (with_run a_run)).0 ≡ true
unfolding find
process_ends_example =
    process_ends 9 (worker_at "worker" 205) round_at 6 (with_run a_run)
      (λ i. record { thinking = λ d. refl; calling = λ d. refl }) (omega arith)
      (λ run h. ground (arith, h))

interrupted_step_blocks_example :
    round (round_at 0) 6 (record (with_run a_run) { agent_steps = (44, left_step) ∷ [] })
    ≡ (err Error.integrity_error, record (with_run a_run) { agent_steps = (44, left_step) ∷ [] })
unfolding find limit_reached prepare plan_budget
interrupted_step_blocks_example =
    interrupted_step_blocks (round_at 0) 6 44
      (record (with_run a_run) { agent_steps = (44, left_step) ∷ [] }) a_run
      (incident_in IncidentStatus.diagnosing) left_step
      (record { context = context; model_budget = none; fallback_code = none }) refl refl refl refl
      refl refl refl
