-- ===== src/Tests/Outbox.antt =====
-- Rounds of the dispatcher over one row.
use k8s_ops_agent.Base.{◌≡◌, refl, false, Table, List, some, none, [], ◌∷◌, find, arith}
use k8s_ops_agent.Domain.{OutboxStatus}
use k8s_ops_agent.Models.{OutboxEvent}
use k8s_ops_agent.Outbox.Queue.{Outage}
use k8s_ops_agent.Outbox.Dispatch.{Dispatcher, dispatch_pending_once}
use k8s_ops_agent.Outbox.Delivery.{AllValid, dispatch-AllValid}
use k8s_ops_agent.Outbox.Fate.{Treatment, dispatch_fate}
use k8s_ops_agent.Outbox.Storing.{AllDistinct}
use k8s_ops_agent.Outbox.Handover.{AllHandedOver, dispatch_hands_over}
use k8s_ops_agent.Outbox.Retries.{rounds, gives_up}
use k8s_ops_agent.Tests.Data.{event, dispatcher}

abbrev down : Outage
down = some (record { kind = "ConnectionError"; message = "redis is down"; stored = false })

dispatch-AllValid_example :
    AllValid (dispatch_pending_once (dispatcher 100 down) [] ((7, event) ∷ [])).rows
dispatch-AllValid_example =
    dispatch-AllValid (dispatcher 100 down) [] ((7, event) ∷ [])
      ((λ h. absurd (cc h), λ h. omega arith), tt)

abbrev two_rows : Table OutboxEvent
two_rows = (6, record event { status = OutboxStatus.published }) ∷ (7, event) ∷ []

dispatch_fate_example :
    (new : OutboxEvent) × (find 7 (dispatch_pending_once (dispatcher 100 none) [] two_rows).rows
      ≡ some new)
    × Treatment (dispatcher 100 none) (dispatcher 100 none).batch_size 7 two_rows event new
unfolding find
dispatch_fate_example = dispatch_fate (dispatcher 100 none) [] two_rows 7 event refl

dispatch_hands_over_example :
    let after = dispatch_pending_once (dispatcher 100 none) [] ((7, event) ∷ []) in
    AllHandedOver after.jobs after.rows × AllDistinct after.jobs
dispatch_hands_over_example =
    dispatch_hands_over (dispatcher 100 none) [] ((7, event) ∷ []) (λ h. absurd (cc h), tt) tt

abbrev tried_six_times : OutboxEvent
tried_six_times = record event { attempts = 6 }

abbrev two_rounds : List Dispatcher
two_rounds = dispatcher 100 down ∷ dispatcher 400 down ∷ []

gives_up_example :
    (last : OutboxEvent) × (rounds two_rounds [] ((7, tried_six_times) ∷ []) ≡ ([], (7, last) ∷ []))
    × (last.status ≡ OutboxStatus.failed)
    × (last.attempts ≡ 8)
gives_up_example =
    gives_up two_rounds 7 100 tried_six_times [] refl (omega arith) refl (omega arith)
      ((refl, refl, omega arith), omega arith, ((refl, refl, omega arith), omega arith, tt))
