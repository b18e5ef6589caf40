-- ===== src/Session/Retention.antt =====
-- The tables without a status of `TRANSITIONS`: transactions that leave them as they are, and calls
-- that remove none of their rows.
use k8s_ops_agent.Base.{ℕ, ◌≡◌, ap, some, Table, find}
use k8s_ops_agent.Models.{AgentStep, ToolInvocation, Evidence, OutboxEvent, Db}
use k8s_ops_agent.Session.{Result, ok, err, Tx, Action, begin, commit, proceed, then_do}
use k8s_ops_agent.Session.Leaves.{Leaves, SameAfter}

-- Every row of `t` is still there in `u`.
abbrev pub RowsStay : {R : Type 0} → Table R → Table R → Type 0
RowsStay {R = R} t u = (k : ℕ) (r : R) → find k t ≡ some r → (r' : R) × (find k u ≡ some r')

RowsStay-trans : {R : Type 0} (t u v : Table R) → RowsStay t u → RowsStay u v → RowsStay t v
RowsStay-trans t u v a b k r e = let (r', e') = a k r e in b k r' e'

-- No event of the outbox, no step, no call of a tool and no evidence is removed.
pub record Retains (d e : Db) : Type 0 where
  pub outbox_stays : RowsStay d.outbox e.outbox
  pub steps_stay : RowsStay d.agent_steps e.agent_steps
  pub invocations_stay : RowsStay d.tool_invocations e.tool_invocations
  pub evidence_stays : RowsStay d.evidence e.evidence

pub Retains-refl : (d : Db) → Retains d d
Retains-refl d = record {
  outbox_stays = λ k r h. (r, h);
  steps_stay = λ k r h. (r, h);
  invocations_stay = λ k r h. (r, h);
  evidence_stays = λ k r h. (r, h);
}

pub Retains-trans : {a b c : Db} → Retains a b → Retains b c → Retains a c
Retains-trans p q = record {
  outbox_stays = RowsStay-trans _ _ _ p.outbox_stays q.outbox_stays;
  steps_stay = RowsStay-trans _ _ _ p.steps_stay q.steps_stay;
  invocations_stay = RowsStay-trans _ _ _ p.invocations_stay q.invocations_stay;
  evidence_stays = RowsStay-trans _ _ _ p.evidence_stays q.evidence_stays;
}

pub record Aside : Type 0 where
  pub outbox : Table OutboxEvent
  pub agent_steps : Table AgentStep
  pub tool_invocations : Table ToolInvocation
  pub evidence : Table Evidence

abbrev pub aside : Db → Aside
aside d = record {
  outbox = d.outbox;
  agent_steps = d.agent_steps;
  tool_invocations = d.tool_invocations;
  evidence = d.evidence;
}

Retains-aside : (d e : Db) → aside e ≡ aside d → Retains d e
Retains-aside d e h =
    let outbox : e.outbox ≡ d.outbox = ap (λ x. x.outbox) h in
    let steps : e.agent_steps ≡ d.agent_steps = ap (λ x. x.agent_steps) h in
    let calls : e.tool_invocations ≡ d.tool_invocations = ap (λ x. x.tool_invocations) h in
    let evidence : e.evidence ≡ d.evidence = ap (λ x. x.evidence) h in
    record {
      outbox_stays = λ k r f. (r, rw outbox f);
      steps_stay = λ k r f. (r, rw steps f);
      invocations_stay = λ k r f. (r, rw calls f);
      evidence_stays = λ k r f. (r, rw evidence f);
    }

-- Calls that remove none of these rows.
pub record Retaining {A : Type 0} (m : Action A) : Type 0 where
  pub at : (d : Db) → Retains d (m d).1

module _ {A : Type 0} where
  commit-Retains : (d : Db) (r : Result (A × Db)) → SameAfter aside d r → Retains d (commit d r).1
  commit-Retains d (ok (a, e)) h = Retains-aside d e h
  commit-Retains d (err e) h = Retains-refl d

  pub Retaining-begin : (m : Tx A) → Leaves aside m → Retaining (begin m)
  Retaining-begin m l = record { at = λ d. commit-Retains d (m d) (l.at d) }

module _ {A B : Type 0} where
  proceed-Retains :
      (d d' : Db) (r : Result A) (f : A → Action B)
      → Retains d d'
      → ((a : A) → Retaining (f a))
      → Retains d (proceed r f d').1
  proceed-Retains d d' (ok a) f h rf = Retains-trans h ((rf a).at d')
  proceed-Retains d d' (err e) f h rf = h

  pub Retaining-then_do :
      (m : Action A) (f : A → Action B)
      → Retaining m
      → ((a : A) → Retaining (f a))
      → Retaining (then_do m f)
  Retaining-then_do m f rm rf = record {
    at = λ d. proceed-Retains d (m d).1 (m d).0 f (rm.at d) rf;
  }
