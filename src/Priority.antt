-- ===== src/Priority.antt =====
-- The priority of a ticket (src/alg/priority.ts, lines 31 to 352). A number is exact here: a weight
-- counts units of 10⁻⁹, a sentiment and a stored score units of 10⁻⁶, an instant milliseconds, and
-- what is divided is a fraction. Binary rounding is left out.
mod Features
pub mod Bounds
mod Examples
pub use Features.*
unfoldable pub use Features.{plus, times}
pub use ledgerdesk.Prelude.Checked.{
  Thrown, type_error, range_error, Checked, throws, ok, ◌>>=◌, ◌>>◌, >>=-ok,
}
use ledgerdesk.Prelude.{
  ◌≡◌, refl, ℕ, ◌+◌, ◌-◌, ◌*◌, ◌/◌, Bool, true, false, ◌||◌, not, Option, none, some, List, [], ◌∷◌,
  ◌++◌, ltb, leb, if◌then◌else◌, ℤ, pos, negsuc, pos_part, ◌+ℤ◌, ◌-ℤ◌, ltb_ℤ, leb_ℤ, Number, finite,
  nan, infinity, minus_infinity, Text,
}

pub data PriorityAnomaly : Type 0 where
  future_created_at non_positive_sla_window sentiment_absent sentiment_out_of_range unknown_tier
        unknown_value_band :
      PriorityAnomaly

pub record PriorityComponent : Type 0 where
  pub normalised : Fraction
  pub weight : ℕ
  pub contribution : Fraction

pub record Components : Type 0 where
  pub severity : PriorityComponent
  pub negativity : PriorityComponent
  pub urgency : PriorityComponent
  pub tier : PriorityComponent

-- The source's `score` field is the unrounded sum; `stored_score` counts millionths.
pub record PriorityBreakdown : Type 0 where
  pub score : Fraction
  pub stored_score : ℕ
  pub breached : Bool
  pub components : Components
  pub anomalies : List PriorityAnomaly

unfoldable pub clamp : ℤ → ℤ → ℤ → ℤ
clamp value low high = if ltb_ℤ value low then low else if ltb_ℤ high value then high else value

unfoldable pub assert_instant : Number → Checked ℤ
assert_instant (finite now) = ok now
assert_instant _ = throws type_error

-- `Math.round(score * 10^6)`, half up.
unfoldable pub quantise_priority : Fraction → ℕ
quantise_priority q = (2 * (q.num * micro) + q.den) / (2 * q.den)

-- A weight in [0, 1].
unfoldable pub weight_in_range : Number → Checked ℕ
weight_in_range (finite (pos w)) = if leb w nano then ok w else throws range_error
weight_in_range (finite (negsuc _)) = throws range_error
weight_in_range _ = throws range_error

pub record ValidWeights : Type 0 where
  pub severity : ℕ
  pub negativity : ℕ
  pub urgency : ℕ
  pub tier : ℕ

-- Each weight is in range, and their sum differs from 1 by 10⁻⁹ at most.
unfoldable pub assert_valid_weights : PriorityWeights → Checked ValidWeights
unfolding weight_in_range
assert_valid_weights w = do
  s ← weight_in_range w.severity
  n ← weight_in_range w.negativity
  u ← weight_in_range w.urgency
  t ← weight_in_range w.tier
  let sum = s + n + u + t
  if ltb (nano + 1) sum || ltb (sum + 1) nano
      then throws range_error
      else ok (record { severity = s; negativity = n; urgency = u; tier = t })

unfoldable pub normalised_severity : Severity → Fraction
normalised_severity s = severity_map s

-- The midpoint where the model declined to score; else `(1 - clamp(sentiment, -1, 1)) / 2`.
unfoldable pub normalised_negativity : Option Number → Fraction
unfolding clamp ◌-ℤ◌
normalised_negativity none = 1 ÷ 2
normalised_negativity (some (finite s)) =
    pos_part (pos micro -ℤ clamp s (negsuc (micro - 1)) (pos micro)) ÷ (2 * micro)
normalised_negativity (some _) = 1 ÷ 2

-- `clamp(elapsed / window, 0, 1)` for an elapsed time that is not negative.
abbrev clamp_unit : Fraction → Fraction
clamp_unit q = if leb q.den q.num then 1 ÷ 1 else q

unfoldable pub normalised_urgency : QueueFeatures → ℤ → Fraction × List PriorityAnomaly
unfolding ◌-ℤ◌
normalised_urgency f now =
    let elapsed = now -ℤ f.created_at in
    let window = f.sla_due_at -ℤ f.created_at in
    if ltb_ℤ elapsed (pos 0)
    then (0 ÷ 1, future_created_at ∷ [])
    else if leb_ℤ window (pos 0)
    then (1 ÷ 1, non_positive_sla_window ∷ [])
    else (clamp_unit (pos_part elapsed ÷ pos_part window), [])

unfoldable pub normalised_tier : AccountTier → ValueBand → Fraction
unfolding times
normalised_tier t b = times (tier_map t) (value_band_map b)

-- Strict: a ticket is not breached at its due instant.
unfoldable pub is_breached : QueueFeatures → ℤ → Bool
is_breached f now = ltb_ℤ f.sla_due_at now

unfoldable pub component : Fraction → ℕ → PriorityComponent
unfolding times
component n w = record { normalised = n; weight = w; contribution = times n (w ÷ nano) }

-- The sentiment's anomaly, the first that `computePriority` files.
unfoldable pub sentiment_anomalies : Option Number → List PriorityAnomaly
sentiment_anomalies none = sentiment_absent ∷ []
sentiment_anomalies (some (finite s)) =
    if ltb_ℤ (pos micro) s || ltb_ℤ s (negsuc (micro - 1)) then sentiment_out_of_range ∷ [] else []
sentiment_anomalies (some _) = sentiment_out_of_range ∷ []

unfoldable pub compute_components : QueueFeatures → ℤ → ValidWeights → Components
unfolding component normalised_severity normalised_negativity normalised_urgency normalised_tier
compute_components f now w = record {
  severity = component (normalised_severity f.severity) w.severity;
  negativity = component (normalised_negativity f.sentiment) w.negativity;
  urgency = component (normalised_urgency f now).0 w.urgency;
  tier = component (normalised_tier f.tier f.value_band) w.tier;
}

unfoldable pub total_score : Components → Fraction
unfolding plus
total_score c =
    plus (plus (plus c.severity.contribution c.negativity.contribution) c.urgency.contribution)
      c.tier.contribution

unfoldable pub compute_priority :
    QueueFeatures → Number → PriorityWeights → Checked PriorityBreakdown
unfolding assert_instant assert_valid_weights compute_components total_score quantise_priority
    is_breached sentiment_anomalies normalised_urgency
compute_priority f now weights = do
  t ← assert_instant now
  w ← assert_valid_weights weights
  let components = compute_components f t w
  let score = total_score components
  ok (record {
    score = score;
    stored_score = quantise_priority score;
    breached = is_breached f t;
    components = components;
    anomalies = sentiment_anomalies f.sentiment ++ (normalised_urgency f t).1;
  })
