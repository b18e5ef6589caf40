-- ===== src/AgentCore/Advance.antt =====
-- A round of app/ops_agent/agent_core.py that does not end the run has brought it one step further.
use k8s_ops_agent.Base.{
  ℕ, ◌≡◌, ◌≢◌, refl, ◌∙◌, Bool, true, false, Option, none, some, find, if◌then◌else◌,
}
use k8s_ops_agent.Models.{AgentRun, Budget, Db}
use k8s_ops_agent.Session.{Result, ok, err, Tx, Action, begin, commit, proceed, then_do}
use k8s_ops_agent.Session.Leaves.{SameAfter, Leaves}
use k8s_ops_agent.AgentCore.Progress.{limits}

-- The run is at this step, with these limits.
pub record Advanced (k : ℕ) (b : Budget) (sequence : ℕ) (e : Db) : Type 0 where
  pub run : AgentRun
  pub stored : find k e.agent_runs ≡ some run
  pub step : run.current_step ≡ sequence
  pub same_limits : run.budget ≡ b

module _ (k : ℕ) where
  -- A call that leaves the limits of the run, also where it raises.
  pub record Steady {A : Type 0} (m : Action A) : Type 0 where
    pub at : (d : Db) → limits k (m d).1 ≡ limits k d

  module _ {A : Type 0} where
    commit_steady :
        (d : Db) (r : Result (A × Db))
        → SameAfter (limits k) d r
        → limits k (commit d r).1 ≡ limits k d
    commit_steady d (ok (a, e)) h = h
    commit_steady d (err x) h = refl

    pub Steady-begin : (m : Tx A) → Leaves (limits k) m → Steady (begin m)
    Steady-begin m l = record { at = λ d. commit_steady d (m d) (l.at d) }

    pub Steady-if : (b : Bool) (m n : Action A) → Steady m → Steady n → Steady (if b then m else n)
    Steady-if true m n sm sn = sm
    Steady-if false m n sm sn = sn

  module _ {A B : Type 0} where
    proceed-Steady :
        (r : Result A) (f : A → Action B) (d e : Db)
        → limits k e ≡ limits k d
        → ((a : A) → Steady (f a))
        → limits k (proceed r f e).1 ≡ limits k d
    proceed-Steady (ok a) f d e h s = (s a).at e ∙ h
    proceed-Steady (err x) f d e h s = h

    pub Steady-then_do :
        (m : Action A) (f : A → Action B)
        → Steady m
        → ((a : A) → Steady (f a))
        → Steady (then_do m f)
    Steady-then_do m f sm sf = record { at = λ d. proceed-Steady (m d).0 f d (m d).1 (sm.at d) sf }

  module _ (b : Budget) (sequence : ℕ) where
    -- Where the call gives nothing, the run is at the step `sequence`.
    pub record Advances {X : Type 0} (m : Action (Option X)) : Type 0 where
      pub at : (d : Db) → limits k d ≡ some b → (m d).0 ≡ ok none → Advanced k b sequence (m d).1

    module _ {X : Type 0} where
      pub Advances-if :
          (c : Bool) (m n : Action (Option X))
          → Advances m
          → Advances n
          → Advances (if c then m else n)
      Advances-if true m n am an = am
      Advances-if false m n am an = an

      -- A call that gives something, or raises.
      pub Advances-never : (m : Action (Option X)) → ((d : Db) → (m d).0 ≢ ok none) → Advances m
      Advances-never m never = record { at = λ d l h. absurd (never d h) }

    module _ {A X : Type 0} where
      proceed-Advances :
          (r : Result A) (f : A → Action (Option X)) (e : Db)
          → limits k e ≡ some b
          → ((a : A) → Advances (f a))
          → (proceed r f e).0 ≡ ok none
          → Advanced k b sequence (proceed r f e).1
      proceed-Advances (ok a) f e l s h = (s a).at e l h
      proceed-Advances (err x) f e l s h = absurd (cc h)

      pub Advances-then_do :
          (m : Action A) (f : A → Action (Option X))
          → Steady m
          → ((a : A) → Advances (f a))
          → Advances (then_do m f)
      Advances-then_do m f sm sf = record {
        at = λ d l h. proceed-Advances (m d).0 f (m d).1 (sm.at d ∙ l) sf h;
      }

      pub returned_something :
          (r : Result A) (g : A → X) (e : Db)
          → (proceed r (λ a d. (ok (some (g a)), d)) e).0 ≢ ok none
      returned_something (ok a) g e h = cc h
      returned_something (err x) g e h = cc h

      -- A call whose value is returned.
      pub Advances-returns :
          (m : Action A) (g : A → X) → Advances (then_do m (λ a d. (ok (some (g a)), d)))
      Advances-returns m g = Advances-never _ (λ d h. returned_something (m d).0 g (m d).1 h)

      -- A call that says whether to go on, and an end of the run where it says not.
      pub Advances-unless :
          (m : Action (Option A)) (f : Option A → Action (Option X))
          → Advances m
          → ((d : Db) → f none d ≡ (ok none, d))
          → ((a : A) (d : Db) → (f (some a) d).0 ≢ ok none)
          → Advances (then_do m f)
      Advances-unless m f am goes_on ends = record {
        at = λ d l h. go (m d).0 (m d).1 (am.at d l) h;
      }
        where
          go :
              (r : Result (Option A)) (e : Db)
              → (r ≡ ok none → Advanced k b sequence e)
              → (proceed r f e).0 ≡ ok none
              → Advanced k b sequence (proceed r f e).1
          go (ok none) e advanced h = rw goes_on (advanced refl)
          go (ok (some a)) e advanced h = absurd (ends a e h)
          go (err x) e advanced h = absurd (cc h)
