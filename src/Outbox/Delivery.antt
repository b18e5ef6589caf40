-- ===== src/Outbox/Delivery.antt =====
-- What a round of the dispatcher does to the rows.
use native.Mathlib.Nat.{pow-suc}
use k8s_ops_agent.Base.{
  ℕ, zero, suc, ◌≤◌, ◌<◌, ◌≡◌, ◌≢◌, ◌^◌, [], ◌∷◌, arith, Bool-cases, inl, inr, Table,
}
use k8s_ops_agent.Domain.{OutboxStatus}
use k8s_ops_agent.Models.{OutboxEvent}
use k8s_ops_agent.Adapters.{Call, returned, raised}
use k8s_ops_agent.Outbox.Queue.{Jobs}
use k8s_ops_agent.Outbox.Dispatch.{
  Dispatcher, is_due, backoff, deliver, settle, dispatch_rows, dispatch_pending_once,
}

-- How often a row has been tried fits its status.
abbrev pub IsValid : OutboxEvent → Type 0
IsValid event =
    (event.status ≡ OutboxStatus.failed → event.attempts ≡ 8)
    × (event.status ≢ OutboxStatus.failed → event.attempts < 8)

abbrev pub AllValid : Table OutboxEvent → Type 0
AllValid [] = Unit
AllValid ((k, event) ∷ rows) = IsValid event × AllValid rows

settle-IsValid :
    (c : Dispatcher) (event : OutboxEvent) (r : Call (Unit {0}))
    → event.status ≡ OutboxStatus.pending
    → IsValid event
    → IsValid (settle c event r)
unfolding settle
settle-IsValid c event (returned _) p v = ground (arith, v.0, v.1)
settle-IsValid c event (raised kind message) p v = ground (arith, v.0, v.1)

dispatch_rows-AllValid :
    (c : Dispatcher) (room : ℕ) (jobs : Jobs) (rows : Table OutboxEvent)
    → AllValid rows
    → AllValid (dispatch_rows c room jobs rows).rows
unfolding dispatch_rows
dispatch_rows-AllValid c room jobs [] v = tt
dispatch_rows-AllValid c zero jobs ((k, event) ∷ rows) v =
    (v.0, dispatch_rows-AllValid c zero jobs rows v.1)
dispatch_rows-AllValid c (suc room) jobs ((k, event) ∷ rows) v =
    elim (Bool-cases (is_due c k event)) [
      | inl y ↦ rw y (
        settle-IsValid c event (deliver (c.outage k) k event jobs).0 (ground arith) v.0,
        dispatch_rows-AllValid c room (deliver (c.outage k) k event jobs).1 rows v.1,
      )
      | inr n ↦ rw n (v.0, dispatch_rows-AllValid c (suc room) jobs rows v.1)
    ]

-- An event that is pending or published has been tried less than 8 times without success, and one
-- that has failed exactly 8 times: every round keeps this true of all rows.
pub dispatch-AllValid :
    (c : Dispatcher) (jobs : Jobs) (rows : Table OutboxEvent)
    → AllValid rows
    → AllValid (dispatch_pending_once c jobs rows).rows
unfolding dispatch_pending_once
dispatch-AllValid c jobs rows v = dispatch_rows-AllValid c c.batch_size jobs rows v

two_pow_pos : (n : ℕ) → 0 < 2 ^ n
two_pow_pos zero = omega arith
two_pow_pos (suc n) = omega (arith, pow-suc 2 n, two_pow_pos n)

pub backoff_bounds : (n : ℕ) → (0 < backoff n) × (backoff n ≤ 300)
backoff_bounds n = omega (arith, two_pow_pos n)
