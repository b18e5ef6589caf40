-- ===== src/Executions/Idempotency.antt =====
-- An `Idempotency-Key` makes at most one execution.
use k8s_ops_agent.Base.{
  ℕ, ◌≡◌, ◌≢◌, refl, String, Bool, false, Option, none, some, arith, eq_refl, Bool-cases, inl, inr,
  is_empty, select, select-insert,
}
use k8s_ops_agent.Models.{Execution, Db}
use k8s_ops_agent.Session.{
  Error, Result, ok, err, begin, commit, proceed, get_plan, add_execution, add_audit, add_outbox,
}
use k8s_ops_agent.Executions.Creation.{
  has_key, existing_execution, insert_execution, NewExecution, create_tx, not_created, or_insert,
  after_insertion, create_execution,
}

-- The transaction that inserts an execution leaves it behind as the one with its key.
create_tx_found :
    (new : NewExecution) (plan_id : ℕ) (key by : String) (enqueue : Bool) (d e : Db)
    (x : ℕ × Execution)
    → create_tx new plan_id key by enqueue d ≡ ok (x, e)
    → (select (has_key key) e.executions ≡ some x) × (x.1.plan_id ≡ plan_id)
unfolding create_tx get_plan insert_execution add_execution add_audit add_outbox
create_tx_found new plan_id key by enqueue d e x h = (
  ground (arith, h, eq_refl key, select-insert (has_key key) new.execution_id x.1 d.executions),
  ground (arith, h),
)

existing_found :
    (plan_id : ℕ) (key : String) (d e : Db) (x : ℕ × Execution)
    → existing_execution plan_id key d ≡ ok (some x, e)
    → (select (has_key key) e.executions ≡ some x) × (x.1.plan_id ≡ plan_id)
unfolding existing_execution
existing_found plan_id key d e x h = (ground (arith, h), ground (arith, h))

module _ (plan_id : ℕ) (key : String) where
  -- The database knows `x` as the execution of the plan and the key.
  abbrev Known : ℕ × Execution → Db → Type 0
  Known x e = (select (has_key key) e.executions ≡ some x) × (x.1.plan_id ≡ plan_id)

  created-Known :
      (new : NewExecution) (by : String) (enqueue : Bool) (d e : Db) (x : ℕ × Execution) (b : Bool)
      → (let (r, d') = begin (create_tx new plan_id key by enqueue) d in
          after_insertion plan_id key r d')
        ≡ (ok (x, b), e)
      → Known x e
  created-Known new by enqueue d e x b h = go (create_tx new plan_id key by enqueue d) refl h
    where
      looked_again :
          (r : Result (Option (ℕ × Execution) × Db))
          → existing_execution plan_id key d ≡ r
          → proceed (commit d r).0 (not_created Error.integrity_error) (commit d r).1
            ≡ (ok (x, b), e)
          → Known x e
      looked_again (ok (none, e')) q h = absurd (cc h)
      looked_again (ok (some y, e')) q h = existing_found plan_id key d e x (ground (arith, q, h))
      looked_again (err z) q h = absurd (cc h)

      go :
          (r : Result ((ℕ × Execution) × Db))
          → create_tx new plan_id key by enqueue d ≡ r
          → after_insertion plan_id key (commit d r).0 (commit d r).1 ≡ (ok (x, b), e)
          → Known x e
      go (ok (y, e')) q h = create_tx_found new plan_id key by enqueue d e x (ground (arith, q, h))
      go (err Error.integrity_error) q h = looked_again (existing_execution plan_id key d) refl h
      go (err (Error.validation_error s)) q h = absurd (cc h)
      go (err (Error.not_found_error s)) q h = absurd (cc h)
      go (err (Error.policy_denied_error s)) q h = absurd (cc h)
      go (err (Error.invalid_state_transition s)) q h = absurd (cc h)
      go (err Error.attribute_error) q h = absurd (cc h)
      go (err (Error.external s t)) q h = absurd (cc h)

  call-Known :
      (others : Db → Db) (new : NewExecution) (by : String) (enqueue : Bool) (d e : Db)
      (x : ℕ × Execution) (b : Bool)
      → create_execution others new plan_id key by enqueue d ≡ (ok (x, b), e)
      → (is_empty key ≡ false) × Known x e
  unfolding create_execution
  call-Known others new by enqueue d e x b h = elim (Bool-cases (is_empty key)) [
    | inl y ↦ absurd (let wrong = rw y at h in cc wrong)
    | inr n ↦ (n, looked (existing_execution plan_id key d) refl (rw n at h))
  ]
    where
      looked :
          (r : Result (Option (ℕ × Execution) × Db))
          → existing_execution plan_id key d ≡ r
          → proceed (commit d r).0 (or_insert others new plan_id key by enqueue) (commit d r).1
            ≡ (ok (x, b), e)
          → Known x e
      looked (ok (none, e')) q h = created-Known new by enqueue (others e') e x b h
      looked (ok (some y, e')) q h = existing_found plan_id key d e x (ground (arith, q, h))
      looked (err z) q h = absurd (cc h)

  -- Asking again with the same key and the same plan returns the same execution, creates none and
  -- writes nothing, whoever asks and whatever the other workers do meanwhile; asking with the key
  -- for any other plan is refused, and writes nothing.
  pub create_execution_once :
      (others others' : Db → Db) (new new' : NewExecution) (by by' : String)
      (enqueue enqueue' : Bool) (d e : Db) (x : ℕ × Execution) (b : Bool) (other_plan : ℕ)
      → create_execution others new plan_id key by enqueue d ≡ (ok (x, b), e)
      → other_plan ≢ plan_id
      → (create_execution others' new' plan_id key by' enqueue' e ≡ (ok (x, false), e))
        × (create_execution others' new' other_plan key by' enqueue' e
            ≡ (err (Error.validation_error "Idempotency-Key belongs to another plan"), e))
  unfolding create_execution existing_execution
  create_execution_once others others' new new' by by' enqueue enqueue' d e x b other_plan h ne =
      let (n, (found, p)) = call-Known others new by enqueue d e x b h in
      (ground (arith, n, found, p), ground (arith, n, found, p, ne))
