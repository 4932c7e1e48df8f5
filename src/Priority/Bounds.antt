-- ===== src/Priority/Bounds.antt =====
-- The range of the terms of `computePriority`, and of its score.
use ledgerdesk.Prelude.{
  ℕ, ◌+◌, ◌*◌, ◌/◌, ◌≤◌, ◌<◌, ◌≡◌, refl, arith, Option, none, some, ℤ, finite, Number,
}
use native.Mathlib.Nat.{mul-le-mul_right, mul-pos, div-lt_iff_lt-mul}
use ledgerdesk.Priority.{
  Fraction, plus, nano, micro, QueueFeatures, PriorityWeights, PriorityBreakdown, ok, >>=-ok,
  is_breached, ValidWeights, compute_priority, compute_components, total_score,
  assert_valid_weights, quantise_priority, component, normalised_severity, normalised_negativity,
  normalised_urgency, normalised_tier, Severity, AccountTier, ValueBand, severity_1,
}

-- A fraction of at most 1, with a denominator.
pub record IsUnit (q : Fraction) : Type 0 where
  pub below : q.num ≤ q.den
  pub positive : 0 < q.den

normalised_severity-IsUnit : (s : Severity) → IsUnit (normalised_severity s)
unfolding normalised_severity
normalised_severity-IsUnit severity_1 = omega arith
normalised_severity-IsUnit _ = omega arith

normalised_negativity-IsUnit : (s : Option Number) → IsUnit (normalised_negativity s)
unfolding normalised_negativity
normalised_negativity-IsUnit none = omega arith
normalised_negativity-IsUnit (some (finite s)) = ground arith
normalised_negativity-IsUnit (some _) = omega arith

normalised_urgency-IsUnit : (f : QueueFeatures) (now : ℤ) → IsUnit (normalised_urgency f now).0
unfolding normalised_urgency
normalised_urgency-IsUnit f now = ground arith

normalised_tier-IsUnit : (t : AccountTier) (b : ValueBand) → IsUnit (normalised_tier t b)
unfolding normalised_tier
normalised_tier-IsUnit t b = ground arith

-- A fraction of at most `w` units of 10⁻⁹, with a denominator.
record AtMost (w : ℕ) (q : Fraction) : Type 0 where
  bounded : q.num * nano ≤ w * q.den
  positive : 0 < q.den

component-AtMost : (q : Fraction) (w : ℕ) → IsUnit q → AtMost w (component q w).contribution
unfolding component
component-AtMost q w u = grind arith

plus-AtMost : (q r : Fraction) (v w : ℕ) → AtMost v q → AtMost w r → AtMost (v + w) (plus q r)
unfolding plus
plus-AtMost q r v w h k = record {
  bounded = omega (arith, mul-le-mul_right r.den h.bounded, mul-le-mul_right q.den k.bounded);
  positive = mul-pos h.positive k.positive;
}

-- A score of at most 1 + 10⁻⁹ is stored as 1 at most.
quantise-le : (q : Fraction) (w : ℕ) → AtMost w q → w ≤ nano + 1 → quantise_priority q ≤ micro
unfolding quantise_priority
quantise-le q w h small =
    let wide = mul-le-mul_right q.den small in
    let positive : 0 < 2 * q.den = omega (arith, h.positive) in
    let below : (2 * (q.num * micro) + q.den) / (2 * q.den) < micro + 1 =
      (div-lt_iff_lt-mul positive).1 (omega (arith, wide, h.bounded, h.positive)) in
    omega arith

total_score-AtMost :
    (f : QueueFeatures) (now : ℤ) (w : ValidWeights)
    → AtMost
        (w.severity + w.negativity + w.urgency + w.tier)
        (total_score (compute_components f now w))
unfolding total_score compute_components
total_score-AtMost f now w =
    let s = component-AtMost _ w.severity (normalised_severity-IsUnit f.severity) in
    let n = component-AtMost _ w.negativity (normalised_negativity-IsUnit f.sentiment) in
    let u = component-AtMost _ w.urgency (normalised_urgency-IsUnit f now) in
    let t = component-AtMost _ w.tier (normalised_tier-IsUnit f.tier f.value_band) in
    plus-AtMost _ _ _ _ (plus-AtMost _ _ _ _ (plus-AtMost _ _ _ _ s n) u) t

assert_valid_weights-sum :
    (w : PriorityWeights) {v : ValidWeights}
    → assert_valid_weights w ≡ ok v
    → v.severity + v.negativity + v.urgency + v.tier ≤ nano + 1
unfolding assert_valid_weights
assert_valid_weights-sum w {v} e = ground arith

-- What a computation that does not throw has passed and returned.
pub record Computed (f : QueueFeatures) (now : Number) (w : PriorityWeights) (b : PriorityBreakdown)
    : Type 0 where
  pub instant : ℤ
  pub weights : ValidWeights
  pub timed : now ≡ finite instant
  pub weighed : assert_valid_weights w ≡ ok weights
  pub stored :
      b.stored_score ≡ quantise_priority (total_score (compute_components f instant weights))
  pub overdue : b.breached ≡ is_breached f instant

pub compute_priority-ok :
    (f : QueueFeatures) (now : Number) (w : PriorityWeights) {b : PriorityBreakdown}
    → compute_priority f now w ≡ ok b
    → Computed f now w b
unfolding compute_priority
compute_priority-ok f (finite t) w {b} e =
    let (v, checked, returned) = >>=-ok (assert_valid_weights w) _ e in
    record {
      instant = t;
      weights = v;
      timed = refl;
      weighed = checked;
      stored = ground arith;
      overdue = ground arith;
    }
compute_priority-ok f _ w e = cc

-- A score that is computed lies in [0, 1] at the stored precision.
pub compute_priority-stored_le :
    (f : QueueFeatures) (now : Number) (w : PriorityWeights) {b : PriorityBreakdown}
    → compute_priority f now w ≡ ok b
    → b.stored_score ≤ micro
unfolding compute_priority
compute_priority-stored_le f now w e =
    let r = compute_priority-ok f now w e in
    let sum = assert_valid_weights-sum w r.weighed in
    let bound = quantise-le _ _ (total_score-AtMost f r.instant r.weights) sum in
    omega (arith, r.stored, bound)
