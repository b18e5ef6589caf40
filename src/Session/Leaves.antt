-- ===== src/Session/Leaves.antt =====
-- Transactions that leave a part of the database as it is.
use k8s_ops_agent.Base.{◌≡◌, refl, ◌∙◌, arith, Bool, true, false, Option, none, some, if◌then◌else◌}
use k8s_ops_agent.Models.{Db}
use k8s_ops_agent.Session.{Error, Result, ok, err, Tx, pure, ◌>>=◌, bound, found}

module _ {B : Type 0} (part : Db → B) where
  -- After a commit the part is what it was.
  abbrev pub SameAfter : {A : Type 0} → Db → Result (A × Db) → Type 0
  SameAfter d (ok (_, e)) = part e ≡ part d
  SameAfter d (err _) = Unit

  pub record Leaves {A : Type 0} (m : Tx A) : Type 0 where
    pub at : (d : Db) → SameAfter d (m d)

  module _ {A : Type 0} where
    pub Leaves-pure : (a : A) → Leaves (pure a)
    Leaves-pure a = record { at = λ d. refl }

    pub Leaves-found : (o : Option A) (e : Error) → Leaves (found o e)
    Leaves-found none e = record { at = λ d. tt }
    Leaves-found (some a) e = Leaves-pure a

    pub Leaves-if : (b : Bool) (m n : Tx A) → Leaves m → Leaves n → Leaves (if b then m else n)
    Leaves-if true m n lm ln = lm
    Leaves-if false m n lm ln = ln

  module _ {A C : Type 0} where
    bound_same :
        (d : Db) (r : Result (A × Db)) (f : A → Tx C)
        → SameAfter d r
        → ((a : A) → Leaves (f a))
        → SameAfter d (bound r f)
    bound_same d (ok (a, d')) f h lf = then_same (f a d') ((lf a).at d')
      where
        then_same : (r : Result (C × Db)) → SameAfter d' r → SameAfter d r
        then_same (ok (c, d'')) k = k ∙ h
        then_same (err e) k = tt
    bound_same d (err e) f h lf = tt

    pub Leaves-bind :
        (m : Tx A) (f : A → Tx C) → Leaves m → ((a : A) → Leaves (f a)) → Leaves (m >>= f)
    Leaves-bind m f lm lf = record { at = λ d. bound_same d (m d) f (lm.at d) lf }

  -- The part after a transaction that returned.
  pub left :
      {A : Type 0} (m : Tx A) (d e : Db) (a : A) → Leaves m → m d ≡ ok (a, e) → part e ≡ part d
  left {A = A} m d e a l h = go (m d) h (l.at d)
    where
      go : (r : Result (A × Db)) → r ≡ ok (a, e) → SameAfter d r → part e ≡ part d
      go (ok (x, y)) q k = ground (arith, q, k)
      go (err x) q k = absurd (cc q)

-- Transactions that leave a part as it is and return a known value, if they return.
module _ {B C : Type 0} (part : Db → B) (c : C) where
  abbrev pub GivesAfter : Db → Result (C × Db) → Type 0
  GivesAfter d (ok (b, e)) = (b ≡ c) × (part e ≡ part d)
  GivesAfter d (err _) = Unit

  pub record Gives (m : Tx C) : Type 0 where
    pub at : (d : Db) → GivesAfter d (m d)

  pub Gives-pure : Gives (pure c)
  Gives-pure = record { at = λ d. (refl, refl) }

  module _ {A : Type 0} where
    bound-Gives :
        (d : Db) (r : Result (A × Db)) (f : A → Tx C)
        → SameAfter part d r
        → ((a : A) → Gives (f a))
        → GivesAfter d (bound r f)
    bound-Gives d (ok (a, d')) f h g = then_gives (f a d') ((g a).at d')
      where
        then_gives : (r : Result (C × Db)) → GivesAfter d' r → GivesAfter d r
        then_gives (ok (b, e)) (given, k) = (given, k ∙ h)
        then_gives (err e) k = tt
    bound-Gives d (err e) f h g = tt

    pub Gives-bind :
        (m : Tx A) (f : A → Tx C) → Leaves part m → ((a : A) → Gives (f a)) → Gives (m >>= f)
    Gives-bind m f l g = record { at = λ d. bound-Gives d (m d) f (l.at d) g }

  pub given :
      (m : Tx C) (d e : Db) (b : C) → Gives m → m d ≡ ok (b, e) → (b ≡ c) × (part e ≡ part d)
  given m d e b g h = go (m d) h (g.at d)
    where
      go : (r : Result (C × Db)) → r ≡ ok (b, e) → GivesAfter d r → (b ≡ c) × (part e ≡ part d)
      go (ok (x, y)) q (k, l) = (ground (arith, q, k), ground (arith, q, l))
      go (err x) q k = absurd (cc q)
