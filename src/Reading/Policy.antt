-- ===== src/Reading/Policy.antt =====
-- When `evaluatePolicy` allows a reading.
use mathlib.Core.Path.{subst}
use ledgerdesk.Prelude.{
  ℕ, ◌≡◌, refl, ap, ◌∙◌, ◌↔◌, ◌<◌, Bool, true, false, if◌then◌else◌, ◌==◌, Option, none, some, List,
  [], ◌∷◌, select, arith, ℤ, Number, finite, ltb_ℤ, Bool-cases, inl, inr,
}
use ledgerdesk.Reading.{
  level, ReadingContext, ReadingAction, Grant, Evaluation, grants, denies, indeterminate, PolicyRow,
  PolicyHierarchy, PolicyDecision, allowed, denied, undetermined, refused, expired, not_yet_valid,
  matches, bad_end, is_over, within_window, evaluate_grant, evaluate_row, by_evaluation,
  evaluate_tier, evaluate_tiers, tiers_of, evaluate_policy,
}

-- The grant is bound to this reading, in force at the instant, and discloses something.
pub record InForce (g : Grant) (context : ReadingContext) (action : ReadingAction) (now : ℤ)
    : Type 0 where
  pub bound : matches g.binding context action ≡ true
  pub start : ℤ
  pub starts : g.valid_from ≡ finite start
  pub proper : bad_end start g.valid_until ≡ false
  pub begun : ltb_ℤ now start ≡ false
  pub not_over : is_over now g.valid_until ≡ false
  pub discloses : 0 < level g.maximum

abbrev pub permits : Grant → PolicyDecision
permits g = record { cause = allowed; grant = some g }

-- The tests of the window in their order.
passes :
    (g h : Grant) (a b c d : Bool)
    → (if a
        then refused undetermined
        else if b
        then refused not_yet_valid
        else if c
        then refused expired
        else if d
        then refused denied
        else permits g)
      ≡ permits h
    → (a ≡ false) × (b ≡ false) × (c ≡ false) × (d ≡ false) × (g ≡ h)
passes g h true b c d e = cc
passes g h false true c d e = cc
passes g h false false true d e = cc
passes g h false false false true e = cc
passes g h false false false false e = (refl, refl, refl, refl, ground arith)

positive : (n : ℕ) → (n == 0) ≡ false → 0 < n
positive n h = ground arith

not_zero : (n : ℕ) → 0 < n → (n == 0) ≡ false
not_zero n h = ground arith

granted :
    (e : Evaluation) (d : PolicyDecision) (g : Grant)
    → by_evaluation e d ≡ permits g
    → (e ≡ grants) × (d ≡ permits g)
granted grants d g h = (refl, h)
granted denies d g h = cc
granted indeterminate d g h = cc

no_permit : {g : Grant} → refused undetermined ≡ permits g → ⊥
no_permit h = cc

module _ (context : ReadingContext) (action : ReadingAction) (now : ℤ) where
  -- The rows of the first tier that has any on this reading.
  pub data Applies : List (List PolicyRow) → List PolicyRow → Type 0 where
    here :
        {tier : List PolicyRow} {tiers : List (List PolicyRow)} {r : PolicyRow}
        {rs : List PolicyRow}
        → select (λ (row : PolicyRow). matches row.binding context action) tier ≡ r ∷ rs
        → Applies (tier ∷ tiers) (r ∷ rs)
    inherits :
        {tier : List PolicyRow} {tiers : List (List PolicyRow)} {rs : List PolicyRow}
        → select (λ (row : PolicyRow). matches row.binding context action) tier ≡ []
        → Applies tiers rs
        → Applies (tier ∷ tiers) rs

  within_window-InForce :
      (g h : Grant) (from : Number)
      → g.valid_from ≡ from
      → matches g.binding context action ≡ true
      → within_window g now from ≡ permits h
      → (g ≡ h) × InForce g context action now
  unfolding within_window
  within_window-InForce g h (finite start) e m a =
      let (proper, begun, open_window, some_level, same) =
        passes g h (bad_end start g.valid_until) (ltb_ℤ now start) (is_over now g.valid_until)
          (level g.maximum == 0) a in
      (
        same,
        record {
          bound = m;
          start = start;
          starts = e;
          proper = proper;
          begun = begun;
          not_over = open_window;
          discloses = positive (level g.maximum) some_level;
        },
      )
  within_window-InForce g h _ e m a = cc

  InForce-within_window :
      (g : Grant) → InForce g context action now → within_window g now g.valid_from ≡ permits g
  unfolding within_window
  InForce-within_window g f =
      rw (f.starts, f.proper, f.begun, f.not_over, not_zero (level g.maximum) f.discloses) refl

  -- A row that grants, with a grant that is in force.
  pub record Grants (row : PolicyRow) (g : Grant) : Type 0 where
    pub evaluation : row.evaluation ≡ grants
    pub grant : row.grant ≡ some g
    pub in_force : InForce g context action now

  evaluate_grant-InForce :
      (o : Option Grant) (g : Grant)
      → evaluate_grant o context action now ≡ permits g
      → (o ≡ some g) × InForce g context action now
  unfolding evaluate_grant
  evaluate_grant-InForce none g h = cc
  evaluate_grant-InForce (some f) g h = elim (Bool-cases (matches f.binding context action)) [
    | inl on ↦
        let (same, live) = within_window-InForce f g f.valid_from refl on (rw on at h) in
        (ap some same, subst (λ (x : Grant). InForce x context action now) same live)
    | inr off ↦ absurd (no_permit (rw off at h))
  ]

  evaluate_row_iff :
      (row : PolicyRow) (g : Grant)
      → (evaluate_row row context action now ≡ permits g) ↔ Grants row g
  unfolding evaluate_row evaluate_grant
  evaluate_row_iff row g = (
    λ h.
        let (evaluated, decided) = granted row.evaluation _ g h in
        let (has_grant, live) = evaluate_grant-InForce row.grant g decided in
        record { evaluation = evaluated; grant = has_grant; in_force = live },
    λ r. rw (r.evaluation, r.grant, r.in_force.bound) (InForce-within_window g r.in_force),
  )

  evaluate_tiers-Applies :
      (tiers : List (List PolicyRow)) (g : Grant)
      → evaluate_tiers tiers context action now ≡ permits g
      → (row : PolicyRow) × Applies tiers (row ∷ []) × Grants row g
  unfolding evaluate_tiers evaluate_tier
  evaluate_tiers-Applies [] g h = absurd (no_permit h)
  evaluate_tiers-Applies (tier ∷ tiers) g h =
      decide (select (λ (row : PolicyRow). matches row.binding context action) tier) refl h
        (evaluate_tiers-Applies tiers g)
    where
      decide :
          (rows : List PolicyRow)
          → select (λ (row : PolicyRow). matches row.binding context action) tier ≡ rows
          → evaluate_tier rows context action now (evaluate_tiers tiers context action now)
            ≡ permits g
          → (evaluate_tiers tiers context action now ≡ permits g
              → (row : PolicyRow) × Applies tiers (row ∷ []) × Grants row g)
          → (row : PolicyRow) × Applies (tier ∷ tiers) (row ∷ []) × Grants row g
      decide [] e d rest = let (row, a, r) = rest d in (row, inherits e a, r)
      decide (row ∷ []) e d rest = (row, here e, (evaluate_row_iff row g).0 d)
      decide (row ∷ next ∷ rows) e d rest = absurd (no_permit d)

  Applies-evaluate_tiers :
      (tiers : List (List PolicyRow)) (row : PolicyRow) (g : Grant) {rows : List PolicyRow}
      → Applies tiers rows
      → rows ≡ row ∷ []
      → Grants row g
      → evaluate_tiers tiers context action now ≡ permits g
  unfolding evaluate_tiers evaluate_tier
  Applies-evaluate_tiers [] row g a one r = elim a [ ]
  Applies-evaluate_tiers (tier ∷ tiers) row g (here e) one r =
      rw (e ∙ one) ((evaluate_row_iff row g).1 r)
  Applies-evaluate_tiers (tier ∷ tiers) row g (inherits e rest) one r =
      rw e (Applies-evaluate_tiers tiers row g rest one r)

-- A reading is allowed under a grant exactly when the first tier that has rows on it, of the unit,
-- the inherited and the general one, has a single such row, and this row gives the grant, which is
-- bound to the reading, in force at the instant, and discloses something.
pub evaluate_policy_iff :
    (hierarchy : PolicyHierarchy) (context : ReadingContext) (action : ReadingAction) (now : ℤ)
    (g : Grant)
    → (evaluate_policy hierarchy context action (finite now) ≡ permits g) ↔ (
        (row : PolicyRow) × Applies context action now (tiers_of hierarchy) (row ∷ [])
        × Grants context action now row g)
unfolding evaluate_policy
evaluate_policy_iff hierarchy context action now g = (
  evaluate_tiers-Applies context action now (tiers_of hierarchy) g,
  λ (row, a, r). Applies-evaluate_tiers context action now (tiers_of hierarchy) row g a refl r,
)
