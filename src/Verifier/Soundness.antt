-- ===== src/Verifier/Soundness.antt =====
-- What a healthy verdict of app/ops_agent/verification.py rests on.
use mathlib.Core.List.{Memᴰ}
use k8s_ops_agent.Base.{
  ◌≡◌, ◌≢◌, refl, ◌⊎◌, inl, inr, arith, Bool, true, false, ◌&&◌, Option, none, some, List, [], ◌∷◌,
  ◌is◌, Bool-cases, length,
}
use k8s_ops_agent.Models.{Incident, PodReport, Inspection, not_inspected, absent, present}
use k8s_ops_agent.Adapters.{Call, returned, raised}
use k8s_ops_agent.Verifier.{
  Query, Readings, pod_healthy, check_inspection, check_pod, values_of, any, all, is_decisive,
  decide_by, decisions, metrics_verdict, evaluate_metrics, metrics_check, check_metrics,
  determinate, non_empty, verify_by_adapters,
}

module _ (readings : Readings) where
  -- The readings of a query that decides, if there are any, show it up.
  abbrev pub Up : Query → Type 0
  Up q =
      is_decisive q ≡ true
      → (values_of readings q.samples ≡ []) ⊎ (any (values_of readings q.samples) ≡ true)

  decide_by-all :
      (d : Bool) (values rest : List Bool)
      → all (decide_by d values rest) ≡ true
      → (d ≡ true → (values ≡ []) ⊎ (any values ≡ true)) × (all rest ≡ true)
  decide_by-all false values rest h = (λ y. absurd (cc y), h)
  decide_by-all true [] rest h = (λ y. inl refl, h)
  decide_by-all true (v ∷ vs) rest h = (λ y. inr (ground (arith, h)), ground (arith, h))

  decisions-Up :
      (queries : List Query)
      → all (decisions readings queries) ≡ true
      → (q : Query) → Memᴰ q queries
      → Up q
  unfolding decisions
  decisions-Up [] h q m = elim m [ ]
  decisions-Up (p ∷ ps) h q (Memᴰ.head e) =
      rw e
        (decide_by-all (is_decisive p) (values_of readings p.samples) (decisions readings ps) h).0
  decisions-Up (p ∷ ps) h q (Memᴰ.tail m) =
      decisions-Up ps
        (decide_by-all (is_decisive p) (values_of readings p.samples) (decisions readings ps) h).1 q
        m

  verdict_all : (bs : List Bool) → metrics_verdict bs ≢ some false → all bs ≡ true
  verdict_all [] h = refl
  verdict_all (b ∷ bs) h = elim (Bool-cases (all (b ∷ bs))) [
    | inl y ↦ y
    | inr n ↦ absurd (h (rw n refl))
  ]

  known_healthy :
      (a b : Option Bool)
      → non_empty (determinate a b) && all (determinate a b) ≡ true
      → (a ≢ some false) × (b ≢ some false) × ((a ≡ some true) ⊎ (b ≡ some true))
  known_healthy none none h = absurd (cc h)
  known_healthy none (some false) h = absurd (cc h)
  known_healthy none (some true) h = (λ e. cc e, λ e. cc e, inr refl)
  known_healthy (some false) none h = absurd (cc h)
  known_healthy (some false) (some b) h = absurd (cc h)
  known_healthy (some true) none h = (λ e. cc e, λ e. cc e, inl refl)
  known_healthy (some true) (some false) h = absurd (cc h)
  known_healthy (some true) (some true) h = (λ e. cc e, λ e. cc e, inl refl)

  -- The Pod was seen, ready and not abnormal.
  abbrev pub SeenHealthy : Call Inspection → Type 0
  SeenHealthy call =
      (report : PodReport) × (call ≡ returned (present report))
      × (report.ready ≡ true)
      × (report.is_abnormal ≡ false)

  inspection_healthy :
      (call : Call Inspection) → (check_inspection call).0 ≢ some false → SeenHealthy call
  unfolding check_inspection
  inspection_healthy (raised kind message) h = absurd (h refl)
  inspection_healthy (returned absent) h = absurd (h refl)
  inspection_healthy (returned not_inspected) h = absurd (h refl)
  inspection_healthy (returned (present report)) h =
      elim (Bool-cases (pod_healthy (present report))) [
        | inl y ↦ (report, refl, ground (arith, y), ground (arith, y))
        | inr n ↦ absurd (h (rw n refl))
      ]

  -- If the verifier finds an incident healthy, then it has asked at least one source that could tell;
  -- a Pod that it has asked for was there, ready and not abnormal, so the call had not raised; and
  -- Prometheus, if it was asked, has answered, and each query for pod_ready or redis_up that has a
  -- reading has one of at least 1.
  pub verify_healthy :
      (incident : Incident) (pod : Option (Call Inspection)) (metrics : Option (Call (List Query)))
      → (verify_by_adapters readings incident pod metrics).healthy ≡ true
      → (((check_pod readings incident pod).0 ≡ some true)
          ⊎ ((check_metrics readings metrics).0 ≡ some true))
        × ((call : Call Inspection)
            → pod ≡ some call
            → (readings.lower incident.resource_kind is "pod") ≡ true
            → SeenHealthy call)
        × ((call : Call (List Query))
            → metrics ≡ some call
            → (queries : List Query) × (call ≡ returned queries)
              × ((q : Query) → Memᴰ q queries → Up q))
  unfolding verify_by_adapters check_pod check_metrics evaluate_metrics
  verify_healthy incident pod metrics h =
      let (p, m, known) =
        known_healthy (check_pod readings incident pod).0 (check_metrics readings metrics).0 h in
      (
        known,
        λ call e k. inspection_healthy call (λ f. p (rw (e, k) f)),
        λ call e. answered call (λ f. m (rw e f)),
      )
    where
      answered :
          (call : Call (List Query))
          → (check_metrics readings (some call)).0 ≢ some false
          → (queries : List Query) × (call ≡ returned queries)
            × ((q : Query) → Memᴰ q queries → Up q)
      answered (raised kind message) f = absurd (f refl)
      answered (returned queries) f = (
        queries,
        refl,
        decisions-Up queries (
            verdict_all (decisions readings queries)
              (λ g. f (judged (decisions readings queries) g))),
      )
        where
          judged :
              (bs : List Bool)
              → metrics_verdict bs ≡ some false
              → (metrics_check (metrics_verdict bs) (length queries)).0 ≡ some false
          judged bs g = rw g refl
