-- ===== src/Outbox/Fate.antt =====
-- Which rows a round of the dispatcher handles.
use k8s_ops_agent.Base.{
  ℕ, zero, suc, ◌≤◌, ◌<◌, ◌≡◌, ◌⊎◌, refl, true, some, [], ◌∷◌, arith, Bool-cases, inl, inr, Table,
  find, ◌==◌, if◌then◌else◌,
}
use k8s_ops_agent.Models.{OutboxEvent}
use k8s_ops_agent.Outbox.Queue.{Jobs}
use k8s_ops_agent.Outbox.Dispatch.{
  Dispatcher, is_due, deliver, settle, dispatch_rows, dispatch_pending_once,
}
use k8s_ops_agent.Outbox.Handling.{IsDue, is_due-IsDue, IsDue-is_due, Handled, settle-Handled}

-- How many due rows stand in front of the row `k`.
abbrev pub due_before : Dispatcher → ℕ → Table OutboxEvent → ℕ
due_before c k [] = 0
due_before c k ((j, event) ∷ rows) =
    let rest = due_before c k rows in
    if k == j then 0 else if is_due c j event then suc rest else rest

-- What becomes of the row `k` in a round with room for `room` rows.
abbrev pub Treatment : Dispatcher → ℕ → ℕ → Table OutboxEvent → OutboxEvent → OutboxEvent → Type 0
Treatment c room k rows event new =
    (IsDue c k event × (due_before c k rows < room) × Handled c k event new)
    ⊎ (((IsDue c k event → ⊥) ⊎ (room ≤ due_before c k rows)) × (new ≡ event))

record HasTreatment (c : Dispatcher) (room k : ℕ) (rows after : Table OutboxEvent)
    (event : OutboxEvent) : Type 0 where
  pub new : OutboxEvent
  pub has_new : find k after ≡ some new
  pub how : Treatment c room k rows event new

-- A due row in front takes a place of the batch.
behind-Treatment :
    (c : Dispatcher) (room k : ℕ) (rows : Table OutboxEvent) (event new : OutboxEvent)
    → Treatment c room k rows event new
    → (IsDue c k event × (suc (due_before c k rows) < suc room) × Handled c k event new)
      ⊎ (((IsDue c k event → ⊥) ⊎ (suc room ≤ suc (due_before c k rows))) × (new ≡ event))
behind-Treatment c room k rows event new (inl (due, few, handled)) =
    inl (due, omega (arith, few), handled)
behind-Treatment c room k rows event new (inr (inl not_due, same)) = inr (inl not_due, same)
behind-Treatment c room k rows event new (inr (inr full, same)) =
    inr (inr (omega (arith, full)), same)

eq_self : (k : ℕ) → (k == k) ≡ true
eq_self k = ground arith

row-HasTreatment :
    (c : Dispatcher) (room k : ℕ) (jobs : Jobs) (rows : Table OutboxEvent) (event : OutboxEvent)
    → find k rows ≡ some event
    → HasTreatment c room k rows (dispatch_rows c room jobs rows).rows event
unfolding dispatch_rows find
row-HasTreatment c room k jobs [] event h = absurd (cc h)
row-HasTreatment c zero k jobs ((j, e) ∷ rows) event h = elim (Bool-cases (k == j)) [
  | inl y ↦ record {
    new = event;
    has_new = ground (arith, h, y);
    how = inr (inr (omega arith), refl);
  }
  | inr n ↦
      let later = row-HasTreatment c zero k jobs rows event (ground (arith, h, n)) in
      record {
        new = later.new;
        has_new = rw n later.has_new;
        how = elim later.how [
          | inl (due, few, handled) ↦ absurd (omega (arith, few))
          | inr (why, same) ↦ inr (inr (omega arith), same)
        ];
      }
]
row-HasTreatment c (suc room) k jobs ((j, e) ∷ rows) event h = elim (Bool-cases (is_due c j e)) [
  | inl due ↦ elim (Bool-cases (k == j)) [
    | inl y ↦
        let same : event ≡ e = ground (arith, h, y) in
        let key : k ≡ j = ground (arith, y) in
        let is_now = is_due-IsDue c j e due in
        record {
          new = settle c e (deliver (c.outage j) j e jobs).0;
          has_new = rw (due, y) refl;
          how =
              rw (same, key)
                (inl (
                  is_now,
                  rw (eq_self j) (omega arith),
                  settle-Handled c j e jobs (deliver (c.outage j) j e jobs).0 is_now.0 refl,
                ));
        }
    | inr n ↦
        let later =
          row-HasTreatment c room k (deliver (c.outage j) j e jobs).1 rows event
            (ground (arith, h, n)) in
        record {
          new = later.new;
          has_new = rw (due, n) later.has_new;
          how = rw (due, n) (behind-Treatment c room k rows event later.new later.how);
        }
  ]
  | inr not_due ↦ elim (Bool-cases (k == j)) [
    | inl y ↦
        let same : event ≡ e = ground (arith, h, y) in
        let key : k ≡ j = ground (arith, y) in
        record {
          new = e;
          has_new = rw not_due (ground (arith, h, y));
          how =
              rw (same, key) (inr (inl (λ is_now. cc (IsDue-is_due c j e is_now, not_due)), refl));
        }
    | inr n ↦
        let later = row-HasTreatment c (suc room) k jobs rows event (ground (arith, h, n)) in
        record {
          new = later.new;
          has_new = rw (not_due, n) later.has_new;
          how = rw (not_due, n) later.how;
        }
  ]
]

-- After a round of the dispatcher every row is still there. A row that is pending, due and not locked,
-- with fewer such rows in front of it than the batch holds, has been handled: it is published, its
-- topic having a queue; or Redis has failed or its topic has no queue, and it is given up after eight
-- attempts or tried again within 300 seconds. Every other row is as it was.
pub dispatch_fate :
    (c : Dispatcher) (jobs : Jobs) (rows : Table OutboxEvent) (k : ℕ) (event : OutboxEvent)
    → find k rows ≡ some event
    → (new : OutboxEvent) × (find k (dispatch_pending_once c jobs rows).rows ≡ some new)
      × Treatment c c.batch_size k rows event new
unfolding dispatch_pending_once
dispatch_fate c jobs rows k event h =
    let f = row-HasTreatment c c.batch_size k jobs rows event h in (f.new, f.has_new, f.how)
