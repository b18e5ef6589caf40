-- ===== src/Context/Packing.antt =====
-- What `select_context` leaves in the context.
use mathlib.Core.List.{Memᴰ}
use k8s_ops_agent.Base.{
  suc, ◌+◌, ◌≤◌, ◌≡◌, ◌⊎◌, refl, String, Bool, true, false, not, ◌&&◌, List, [], ◌∷◌, ◌++◌, arith,
  Bool-cases, inl, inr, is_in, length, map,
}
use k8s_ops_agent.Evidence.Redaction.{Python}
use k8s_ops_agent.Context.Memory.{EvidenceItem, PastStep}
use k8s_ops_agent.Context.Selection.{
  ModelContext, item_fingerprint, observe_items, refresh, empty_context, is_unusable, turn, pack,
  select_context,
}

-- The fingerprints that were seen after some items.
abbrev pub prints : Python → List String → List EvidenceItem → List String
prints python seen [] = seen
prints python seen (i ∷ more) = prints python (item_fingerprint python i ∷ seen) more

-- No item has the fingerprint of an earlier one.
abbrev pub is_distinct : Python → List String → List EvidenceItem → Bool
is_distinct python seen [] = true
is_distinct python seen (i ∷ more) =
    let rest = is_distinct python (item_fingerprint python i ∷ seen) more in
    not (is_in (item_fingerprint python i) seen) && rest

prints-append :
    (python : Python) (seen : List String) (items : List EvidenceItem) (i : EvidenceItem)
    → prints python seen (items ++ i ∷ []) ≡ item_fingerprint python i ∷ prints python seen items
prints-append python seen [] i = refl
prints-append python seen (j ∷ items) i =
    prints-append python (item_fingerprint python j ∷ seen) items i

is_distinct-append :
    (python : Python) (seen : List String) (items : List EvidenceItem) (i : EvidenceItem)
    → is_distinct python seen items ≡ true
    → is_in (item_fingerprint python i) (prints python seen items) ≡ false
    → is_distinct python seen (items ++ i ∷ []) ≡ true
is_distinct-append python seen [] i h n = ground (arith, n)
is_distinct-append python seen (j ∷ items) i h n = ground (
  arith,
  h,
  is_distinct-append python (item_fingerprint python j ∷ seen) items i (ground (arith, h)) n,
)

length-append :
    (items : List EvidenceItem) (i : EvidenceItem) → length (items ++ i ∷ []) ≡ suc (length items)
length-append [] i = refl
length-append (j ∷ items) i = ground (arith, length-append items i)

Memᴰ-append :
    (items : List EvidenceItem) (i x : EvidenceItem)
    → Memᴰ x (items ++ i ∷ [])
    → Memᴰ x items ⊎ (x ≡ i)
Memᴰ-append [] i x (Memᴰ.head e) = inr e
Memᴰ-append [] i x (Memᴰ.tail m) = elim m [ ]
Memᴰ-append (j ∷ items) i x (Memᴰ.head e) = inl (Memᴰ.head e)
Memᴰ-append (j ∷ items) i x (Memᴰ.tail m) = elim (Memᴰ-append items i x m) [
  | inl n ↦ inl (Memᴰ.tail n)
  | inr e ↦ inr e
]

module _ (python : Python) (fits : ModelContext → Bool) (candidates : List EvidenceItem) where
  -- What holds of a context, whatever is retained.
  pub record Packed (c : ModelContext) : Type 0 where
    pub fitting : (c.evidence ≡ []) ⊎ (fits c ≡ true)
    pub shown : c.visible_evidence_ids ≡ map (λ i. i.id) c.evidence
    pub counted : c.selection.retained ≡ length c.evidence
    pub complete : c.selection.omitted + c.selection.retained ≡ length candidates
    pub distinct : is_distinct python [] c.evidence ≡ true
    pub drawn :
        (i : EvidenceItem) → Memᴰ i c.evidence → Memᴰ i candidates × (is_unusable i.content ≡ false)

  module _ (steps : List PastStep) (conflict : Bool) where
    record Packing (more : List EvidenceItem) (seen : List String) (c : ModelContext) : Type 0 where
      pub packed : Packed c
      pub known : seen ≡ prints python [] c.evidence
      pub room : length c.evidence + length more ≤ length candidates
      pub left : (i : EvidenceItem) → Memᴰ i more → Memᴰ i candidates
      pub again : (c.evidence ≡ []) ⊎ (fits (refresh candidates steps conflict c.evidence) ≡ true)

    refresh-Packed :
        (items : List EvidenceItem)
        → (items ≡ []) ⊎ (fits (refresh candidates steps conflict items) ≡ true)
        → length items ≤ length candidates
        → is_distinct python [] items ≡ true
        → ((i : EvidenceItem) → Memᴰ i items → Memᴰ i candidates × (is_unusable i.content ≡ false))
        → Packed (refresh candidates steps conflict items)
    unfolding refresh
    refresh-Packed items fitting room distinct drawn = record {
      fitting = fitting;
      shown = refl;
      counted = refl;
      complete = omega (arith, room);
      distinct = distinct;
      drawn = drawn;
    }

    skip-Packing :
        (i : EvidenceItem) (more : List EvidenceItem) (seen : List String) (c : ModelContext)
        → Packing (i ∷ more) seen c
        → Packing more seen c
    skip-Packing i more seen c p = record {
      packed = p.packed;
      known = p.known;
      room = omega (arith, p.room);
      left = λ j m. p.left j (Memᴰ.tail m);
      again = p.again;
    }

    restore-Packing :
        (more : List EvidenceItem) (seen : List String) (c : ModelContext)
        → Packing more seen c
        → Packing more seen (refresh candidates steps conflict c.evidence)
    unfolding refresh
    restore-Packing more seen c p = record {
      packed =
          refresh-Packed c.evidence p.again (omega (arith, p.room)) p.packed.distinct
            p.packed.drawn;
      known = p.known;
      room = p.room;
      left = p.left;
      again = p.again;
    }

    retain-Packing :
        (i : EvidenceItem) (more : List EvidenceItem) (seen : List String) (c : ModelContext)
        → Packing (i ∷ more) seen c
        → is_unusable i.content ≡ false
        → is_in (item_fingerprint python i) seen ≡ false
        → fits (refresh candidates steps conflict (c.evidence ++ i ∷ [])) ≡ true
        → Packing more
            (item_fingerprint python i ∷ seen)
            (refresh candidates steps conflict (c.evidence ++ i ∷ []))
    unfolding refresh
    retain-Packing i more seen c p usable new fit =
        let longer = length-append c.evidence i in
        record {
          packed =
              refresh-Packed (c.evidence ++ i ∷ []) (inr fit) (omega (arith, p.room, longer))
                (is_distinct-append python [] c.evidence i p.packed.distinct (rw p.known at new))
                (λ j m. elim (Memᴰ-append c.evidence i j m) [
                  | inl n ↦ p.packed.drawn j n
                  | inr e ↦ rw e (p.left i (Memᴰ.head refl), usable)
                ]);
          known = rw (prints-append python [] c.evidence i, p.known) refl;
          room = omega (arith, p.room, longer);
          left = λ j m. p.left j (Memᴰ.tail m);
          again = inr fit;
        }

    turn-Packing :
        (i : EvidenceItem) (more : List EvidenceItem) (seen : List String) (c : ModelContext)
        → Packing (i ∷ more) seen c
        → Packing more
            (turn python fits candidates steps conflict i (seen, c)).0
            (turn python fits candidates steps conflict i (seen, c)).1
    unfolding turn
    turn-Packing i more seen c p = elim (Bool-cases (is_unusable i.content)) [
      | inl y ↦ rw y (skip-Packing i more seen c p)
      | inr usable ↦ elim (Bool-cases (is_in (item_fingerprint python i) seen)) [
        | inl y ↦ rw (usable, y) (skip-Packing i more seen c p)
        | inr new ↦
            elim (Bool-cases (fits (refresh candidates steps conflict (c.evidence ++ i ∷ [])))) [
              | inl fit ↦ rw (usable, new, fit) (retain-Packing i more seen c p usable new fit)
              | inr n ↦
                  rw (usable, new, n) (restore-Packing more seen c (skip-Packing i more seen c p))
            ]
      ]
    ]

    pack-Packed :
        (more : List EvidenceItem) (seen : List String) (c : ModelContext)
        → Packing more seen c
        → Packed (pack python fits candidates steps conflict more (seen, c)).1
    unfolding pack
    pack-Packed [] seen c p = p.packed
    pack-Packed (i ∷ more) seen c p =
        pack-Packed more (turn python fits candidates steps conflict i (seen, c)).0
          (turn python fits candidates steps conflict i (seen, c)).1 (turn-Packing i more seen c p)

    start-Packing : Packing candidates [] (empty_context candidates steps conflict)
    unfolding empty_context
    start-Packing = record {
      packed = record {
        fitting = inl refl;
        shown = refl;
        counted = refl;
        complete = omega arith;
        distinct = refl;
        drawn = λ i m. elim m [ ];
      };
      known = refl;
      room = omega arith;
      left = λ i m. m;
      again = inl refl;
    }

-- If the context fits without any evidence, select_context says so, and retains items of the
-- candidates whose content is there and not cut, no two of them with the same fingerprint. Their ids,
-- in order, are the visible ones; the retained and the omitted items are as many as the candidates; and
-- a context that retains an item fits. Otherwise it says that it does not fit, and shows no evidence.
pub select_context_packs :
    (python : Python) (fits : ModelContext → Bool) (candidates : List EvidenceItem)
    (steps : List PastStep)
    → let (chosen, c) = select_context python fits candidates steps in
      let fixed = empty_context candidates steps (observe_items python candidates ([], false)).1 in
      (chosen ≡ fits fixed) × Packed python fits candidates c × ((chosen ≡ false) → c.evidence ≡ [])
unfolding select_context empty_context
select_context_packs python fits candidates steps =
    let conflict = (observe_items python candidates ([], false)).1 in
    let fixed = empty_context candidates steps conflict in
    elim (Bool-cases (fits fixed)) [
      | inl y ↦ rw y (
        refl,
        pack-Packed python fits candidates steps conflict candidates [] fixed
            (start-Packing python fits candidates steps conflict),
        λ h. absurd (cc h),
      )
      | inr n ↦ rw n (refl, (start-Packing python fits candidates steps conflict).packed, λ h. refl)
    ]
