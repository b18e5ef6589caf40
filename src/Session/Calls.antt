-- ===== src/Session/Calls.antt =====
-- Calls that commit several transactions change the database only as `Evolves` allows, if each of
-- their parts does.
use k8s_ops_agent.Base.{◌≡◌, refl, arith}
use k8s_ops_agent.Models.{Db}
use k8s_ops_agent.Session.{Result, ok, err, Tx, Action, begin, commit, proceed, then_do}
use k8s_ops_agent.Session.Evolution.{Evolves, Evolves-refl, Evolves-trans}
use k8s_ops_agent.Session.Keeps.{Commits, Keeps}

-- `m` may be called in any database.
pub record Runs {A : Type 0} (m : Action A) : Type 0 where
  pub at : (d : Db) → Evolves d (m d).1

module _ {A : Type 0} where
  commit-Evolves : (d : Db) (r : Result (A × Db)) → Commits d r → Evolves d (commit d r).1
  commit-Evolves d (ok (a, d')) h = h
  commit-Evolves d (err e) h = Evolves-refl d

  pub Runs-begin : (m : Tx A) → Keeps m → Runs (begin m)
  Runs-begin m km = record { at = λ d. commit-Evolves d (m d) (km.at d) }

module _ {A B : Type 0} where
  proceed-Evolves :
      (d d' : Db) (r : Result A) (f : A → Action B)
      → Evolves d d'
      → ((a : A) → Runs (f a))
      → Evolves d (proceed r f d').1
  proceed-Evolves d d' (ok a) f h rf = Evolves-trans h ((rf a).at d')
  proceed-Evolves d d' (err e) f h rf = h

  pub Runs-then_do :
      (m : Action A) (f : A → Action B) → Runs m → ((a : A) → Runs (f a)) → Runs (then_do m f)
  Runs-then_do m f rm rf = record { at = λ d. proceed-Evolves d (m d).1 (m d).0 f (rm.at d) rf }

-- The second call was made after the first had returned.
pub proceeded :
    {A B : Type 0} (r : Result A) (f : A → Action B) (d : Db) (b : B)
    → (proceed r f d).0 ≡ ok b
    → (a : A) × (r ≡ ok a) × ((f a d).0 ≡ ok b)
proceeded (ok a) f d b h = (a, refl, h)
proceeded (err e) f d b h = absurd (cc h)

pub committed :
    {A : Type 0} (r : Result (A × Db)) (d : Db) (a : A)
    → (commit d r).0 ≡ ok a
    → r ≡ ok (a, (commit d r).1)
committed (ok (a, e)) d b h = ground (arith, h)
committed (err e) d b h = absurd (cc h)
