-- ===== src/Executions/Settling.antt =====
-- An execution that a worker has taken is never left PREPARED or RUNNING.
use k8s_ops_agent.Base.{ℕ, ◌≡◌, String, some, inl, inr, arith, Option-cases, find, find-update_self}
use k8s_ops_agent.Domain.{ExecutionStatus, validate_transition, Status}
use k8s_ops_agent.Domain.Paths.{here, next, ExecutionPath, Allowed}
use k8s_ops_agent.Models.{Execution, Db}
use k8s_ops_agent.Session.{
  Result, ok, err, Tx, ◌>>=◌, bound, begin, get_execution, advance_execution, assign_execution,
  add_task, add_audit, fail_incident_in,
}
use k8s_ops_agent.Session.Evolution.{Evolves}
use k8s_ops_agent.Session.Keeps.{Commits, Keeps, Verdict-cases}
use k8s_ops_agent.Executions.Failure.{fail_execution, incident_of}
use k8s_ops_agent.Tasks.{find_task}

-- The work is over, well or badly.
abbrev pub IsSettled : ExecutionStatus → Type 0
IsSettled ExecutionStatus.prepared = ⊥
IsSettled ExecutionStatus.running = ⊥
IsSettled s = Unit

-- The status that `fail_execution` leaves.
abbrev pub after_failure : ExecutionStatus → ExecutionStatus
after_failure ExecutionStatus.prepared = ExecutionStatus.failed
after_failure ExecutionStatus.running = ExecutionStatus.failed
after_failure ExecutionStatus.succeeded = ExecutionStatus.verification_failed
after_failure s = s

IsSettled-step :
    (s t : ExecutionStatus)
    → Allowed (Status.execution s) (Status.execution t)
    → IsSettled s
    → IsSettled t
unfolding validate_transition
IsSettled-step s t a h = ground arith

pub fail_execution_row :
    (t now k : ℕ) (e : String) (d : Db) (row : Execution)
    → find k d.executions ≡ some row
    → let (r, d') = begin (fail_execution t now k e) d in
      find k d'.executions
      ≡ some
          (record row { status = after_failure row.status; error = some e; finished_at = some now })
unfolding fail_execution get_execution advance_execution assign_execution add_task add_audit
    fail_incident_in incident_of find_task validate_transition
fail_execution_row t now k e d row h = ground (
  arith,
  find-update_self k
      (record row { status = after_failure row.status; error = some e; finished_at = some now }) row
      d.executions h,
)

IsSettled-stays : {s t : ExecutionStatus} → ExecutionPath s t → IsSettled s → IsSettled t
IsSettled-stays here h = h
IsSettled-stays (next t u r a) h = IsSettled-step t u a (IsSettled-stays r h)

after_failure-IsSettled : (s : ExecutionStatus) → IsSettled (after_failure s)
after_failure-IsSettled s = ground arith

module _ (k : ℕ) where
  -- The execution `k` is there, and its work is over.
  abbrev pub Settled : Db → Type 0
  Settled d = (row : Execution) × (find k d.executions ≡ some row) × IsSettled row.status

  pub Settled-Evolves : (d e : Db) → Evolves d e → Settled d → Settled e
  Settled-Evolves d e h (row, f, s) =
      let (row', f', p) = h.executions_evolve.row k row f in (row', f', IsSettled-stays p s)

  pub fail_execution_settles :
      (t now : ℕ) (e : String) (d : Db) (row : Execution)
      → find k d.executions ≡ some row
      → Settled (begin (fail_execution t now k e) d).1
  fail_execution_settles t now e d row h =
      (_, fail_execution_row t now k e d row h, after_failure-IsSettled row.status)

  -- If it commits, the execution is settled.
  unfoldable pub Ends : {A : Type 0} → Result (A × Db) → Type 0
  Ends (ok (a, d)) = Settled d
  Ends (err e) = Unit

  pub record Settles {A : Type 0} (m : Tx A) : Type 0 where
    pub at : (d : Db) → Ends (m d)

  module _ {A B : Type 0} where
    pub Settles-later : (m : Tx A) (f : A → Tx B) → ((a : A) → Settles (f a)) → Settles (m >>= f)
    unfolding Ends
    Settles-later m f sf = record { at = λ d. go (m d) }
      where
        go : (r : Result (A × Db)) → Ends (bound r f)
        go (ok (a, d)) = (sf a).at d
        go (err e) = tt

    Settles-here :
        (m : Tx A) (f : A → Tx B) → Settles m → ((a : A) → Keeps (f a)) → Settles (m >>= f)
    unfolding Ends
    Settles-here m f sm kf = record { at = λ d. go (m d) (sm.at d) }
      where
        after : (d : Db) (r : Result (B × Db)) → Settled d → Commits d r → Ends r
        after d (ok (b, e)) s h = Settled-Evolves d e h s
        after d (err e) s h = tt

        go : (r : Result (A × Db)) → Ends r → Ends (bound r f)
        go (ok (a, d)) s = after d (f a d) s ((kf a).at d)
        go (err e) s = tt

  Settles-advance :
      (t : ExecutionStatus) (f : Execution → Execution)
      → IsSettled t
      → Settles (advance_execution k t f)
  unfolding Ends advance_execution
  Settles-advance t f s = record {
    at = λ d. elim (Option-cases (find k d.executions)) [
      | inl e ↦ rw (e, Ends) tt
      | inr (row, e) ↦
          rw (e, Ends)
            (elim (Verdict-cases
              (validate_transition (Status.execution row.status) (Status.execution t))) [
                | inl allowed ↦ rw (allowed, Ends) (_, find-update_self k _ row d.executions e, s)
                | inr (message, refused) ↦ rw (refused, Ends) tt
              ])
    ];
  }

  pub Settles-advance_then :
      {B : Type 0} (t : ExecutionStatus) (f : Execution → Execution) (g : Execution → Tx B)
      → IsSettled t
      → ((x : Execution) → Keeps (g x))
      → Settles (advance_execution k t f >>= g)
  Settles-advance_then t f g s kg =
      Settles-here (advance_execution k t f) g (Settles-advance t f s) kg
