-- ===== src/Base/Rows.antt =====
-- A table of the database: its rows under their primary keys, in the order of insertion.
use Prim.Native.Nat.{ℕ}
use mathlib.Core.Path.{◌≡◌}
use mathlib.Core.Bool.{Bool, true}
use mathlib.Core.Logic.{◌≢◌}
use mathlib.Core.Option
use mathlib.Core.Option.{Option, none, some}
use mathlib.Core.List.{List, [], ◌∷◌, ◌++◌}
use native.Mathlib.Omega.{arith}
use k8s_ops_agent.Base.Tests.{◌==◌, if◌then◌else◌}

abbrev pub Table {ℓ} : Type ℓ → Type ℓ
Table A = List (ℕ × A)

module _ {ℓ} {A : Type ℓ} where
  -- `session.get(Model, id)`
  unfoldable pub find : ℕ → Table A → Option A
  find k [] = none
  find k ((j, v) ∷ t) = if k == j then some v else find k t

  -- `UPDATE … WHERE id = k`: a row that is not there is not made.
  unfoldable pub update : ℕ → A → Table A → Table A
  update k v [] = []
  update k v ((j, w) ∷ t) = if k == j then (k, v) ∷ t else (j, w) ∷ update k v t

  -- `session.add(…)`: a new row comes last.
  unfoldable pub insert : ℕ → A → Table A → Table A
  insert k v t = t ++ (k, v) ∷ []

  -- `session.scalar(select(…).where(p))`: the first row that fits.
  unfoldable pub select : (ℕ → A → Bool) → Table A → Option (ℕ × A)
  select p [] = none
  select p ((j, v) ∷ t) = if p j v then some (j, v) else select p t

  pub find-update :
      (k j : ℕ) (v : A) (t : Table A)
      → find j (update k v t) ≡ (if j == k then Option.map (λ (_ : A). v) (find k t) else find j t)
  unfolding find update
  find-update k j v [] = ground arith
  find-update k j v ((i, w) ∷ t) = ground (arith, find-update k j v t)

  -- The row that was there is replaced.
  pub find-update_self :
      (k : ℕ) (v old : A) (t : Table A) → find k t ≡ some old → find k (update k v t) ≡ some v
  find-update_self k v old t e = rw (find-update, e) (ground arith)

  -- No other row is touched.
  pub find-update_ne : (k j : ℕ) (v : A) (t : Table A) → j ≢ k → find j (update k v t) ≡ find j t
  find-update_ne k j v t h = rw find-update (ground arith)

  -- A new row that fits is found, if no older one fits.
  pub select-insert :
      (p : ℕ → A → Bool) (k : ℕ) (v : A) (t : Table A)
      → select p t ≡ none
      → p k v ≡ true
      → select p (insert k v t) ≡ some (k, v)
  unfolding select insert
  select-insert p k v [] h e = rw e
  select-insert p k v ((j, w) ∷ t) h e = ground (arith, select-insert p k v t)
