-- ===== src/Recovery/Loop.antt =====
-- The loops of recovery, for any table: what they leave of the rows that they were to end.
use mathlib.Core.List.{Memᴰ}
use k8s_ops_agent.Base.{
  ℕ, ◌≡◌, refl, inl, inr, ◌⊎◌, Bool, true, false, some, List, [], ◌∷◌, arith, ◌==◌, Bool-cases,
  Option-cases, is_some, length, Table, find, update, find-update, if◌then◌else◌,
}
use k8s_ops_agent.Models.{Db}
use k8s_ops_agent.Session.{Result, ok, Tx}
use k8s_ops_agent.Recovery.Work.{keys_where, for_each}

module _ {R : Type 0} (stuck : ℕ → R → Bool) where
  -- Whatever row is under the key, it is not stuck.
  abbrev pub Cleared : Table R → ℕ → Type 0
  Cleared t k = (row : R) → find k t ≡ some row → stuck k row ≡ false

  keys_where_finds :
      (k : ℕ) (row : R) (t : Table R)
      → find k t ≡ some row
      → stuck k row ≡ true
      → Memᴰ k (keys_where stuck t)
  unfolding find keys_where
  keys_where_finds k row [] h s = absurd (cc h)
  keys_where_finds k row ((j, v) ∷ t) h s = elim (Bool-cases (k == j)) [
    | inl y ↦
        let same_key : k ≡ j = ground arith in
        let taken : stuck j v ≡ true = ground (arith, h, y, s) in rw taken (Memᴰ.head same_key)
    | inr n ↦
        let later = keys_where_finds k row t (ground (arith, h, n)) s in
        elim (Bool-cases (stuck j v)) [ inl y ↦ rw y (Memᴰ.tail later) | inr x ↦ rw x later ]
  ]

  pub keys_where_there :
      (k : ℕ) (t : Table R) → Memᴰ k (keys_where stuck t) → is_some (find k t) ≡ true
  unfolding find keys_where
  keys_where_there k [] m = elim m [ ]
  keys_where_there k ((j, v) ∷ t) m = elim (Bool-cases (k == j)) [
    | inl y ↦ ground (arith, y)
    | inr n ↦ rw n (keys_where_there k t (later n (stuck j v) refl m))
  ]
    where
      later :
          (k == j) ≡ false
          → (b : Bool) → stuck j v ≡ b
          → Memᴰ k (if b then j ∷ keys_where stuck t else keys_where stuck t)
          → Memᴰ k (keys_where stuck t)
      later n true e (Memᴰ.head h) = absurd (ground arith)
      later n true e (Memᴰ.tail h) = h
      later n false e h = h

  -- A key is cleared before the loop, or the loop comes to it.
  pub Cleared-or_listed : (t : Table R) (k : ℕ) → Cleared t k ⊎ Memᴰ k (keys_where stuck t)
  Cleared-or_listed t k = elim (Option-cases (find k t)) [
    | inl e ↦ inl (λ row h. absurd (cc (e, h)))
    | inr (row, e) ↦ elim (Bool-cases (stuck k row)) [
      | inl y ↦ inr (keys_where_finds k row t e y)
      | inr n ↦ inl (λ row' h. ground (arith, e, h, n))
    ]
  ]

  -- One round has replaced the row under the key by one that is not stuck.
  pub record Ended (rows : Db → Table R) (I : Db → Type 0) (k : ℕ) (d : Db)
      (r : Result (Unit {0} × Db)) : Type 0 where
    pub after : Db
    pub row : R
    pub returns : r ≡ ok (tt, after)
    pub keeps : I after
    pub replaced : rows after ≡ update k row (rows d)
    pub not_stuck : stuck k row ≡ false

  -- The loop has returned, and has cleared the keys in the list.
  pub record Swept (rows : Db → Table R) (I : Db → Type 0) (ks : List ℕ) (d : Db)
      (r : Result (ℕ × Db)) : Type 0 where
    pub after : Db
    pub returns : r ≡ ok (length ks, after)
    pub keeps : I after
    pub cleared : (k : ℕ) → Cleared (rows d) k ⊎ Memᴰ k ks → Cleared (rows after) k

  -- If each round ends the row that it comes to, the loop clears all that it was given.
  module _ (rows : Db → Table R) (I : Db → Type 0) (step : ℕ → Tx (Unit {0}))
      (round : (k : ℕ) (d : Db)
        → I d
        → is_some (find k (rows d)) ≡ true
        → Ended rows I k d (step k d)) where
    replaced_there :
        (k j : ℕ) (row : R) (t : Table R)
        → is_some (find j t) ≡ true
        → is_some (find j (update k row t)) ≡ true
    replaced_there k j row t h = rw find-update (ground (arith, h))

    replaced-Cleared :
        (k j : ℕ) (row : R) (t : Table R)
        → stuck k row ≡ false
        → Cleared t j ⊎ (j ≡ k)
        → Cleared (update k row t) j
    replaced-Cleared k j row t n (inl c) row' h = elim (Bool-cases (j == k)) [
      | inl y ↦ ground (arith, find-update k j row t, h, y, n)
      | inr x ↦ c row' (ground (arith, find-update k j row t, h, x))
    ]
    replaced-Cleared k j row t n (inr e) row' h = ground (arith, find-update k j row t, h, e, n)

    pub for_each-Swept :
        (ks : List ℕ) (d : Db)
        → I d
        → ((k : ℕ) → Memᴰ k ks → is_some (find k (rows d)) ≡ true)
        → Swept rows I ks d (for_each step ks d)
    unfolding for_each
    for_each-Swept [] d i there = record {
      after = d;
      returns = refl;
      keeps = i;
      cleared = λ k h. elim h [ inl c ↦ c | inr m ↦ elim m [ ] ];
    }
    for_each-Swept (k ∷ ks) d i there =
        let e = round k d i (there k (Memᴰ.head refl)) in
        let rest =
          for_each-Swept ks e.after e.keeps
            (λ j m. rw e.replaced (replaced_there k j e.row (rows d) (there j (Memᴰ.tail m)))) in
        record {
          after = rest.after;
          returns = rw (e.returns, rest.returns) (ground arith);
          keeps = rest.keeps;
          cleared = λ j h. rest.cleared j (next e j h);
        }
      where
        next :
            (e : Ended rows I k d (step k d)) (j : ℕ)
            → Cleared (rows d) j ⊎ Memᴰ j (k ∷ ks)
            → Cleared (rows e.after) j ⊎ Memᴰ j ks
        next e j (inl c) =
            inl (rw e.replaced (replaced-Cleared k j e.row (rows d) e.not_stuck (inl c)))
        next e j (inr (Memᴰ.head h)) =
            inl (rw e.replaced (replaced-Cleared k j e.row (rows d) e.not_stuck (inr h)))
        next e j (inr (Memᴰ.tail m)) = inr m
