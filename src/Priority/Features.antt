-- ===== src/Priority/Features.antt =====
-- What the priority reads (src/alg/priority.ts, lines 31 to 95): a ticket's features, the three maps
-- and the weights.
use ledgerdesk.Prelude.{ℕ, ◌+◌, ◌*◌, Option, ℤ, pos, Number, finite, Text}

-- 1 is the mildest severity and 4 the most severe.
pub data Severity : Type 0 where
  severity_1 severity_2 severity_3 severity_4 : Severity

pub data AccountTier : Type 0 where
  standard premium : AccountTier

pub data ValueBand : Type 0 where
  band_1 band_2 band_3 band_4 band_5 : ValueBand

-- A non-negative number as a fraction.
pub record Fraction : Type 0 where
  pub num : ℕ
  pub den : ℕ

infix 71 ◌÷◌
abbrev pub ◌÷◌ : ℕ → ℕ → Fraction
n ÷ d = record { num = n; den = d }

unfoldable pub plus : Fraction → Fraction → Fraction
plus q r = (q.num * r.den + r.num * q.den) ÷ (q.den * r.den)

unfoldable pub times : Fraction → Fraction → Fraction
times q r = (q.num * r.num) ÷ (q.den * r.den)

-- `SEVERITY_MAP`
abbrev pub severity_map : Severity → Fraction
severity_map severity_1 = 1 ÷ 4
severity_map severity_2 = 2 ÷ 4
severity_map severity_3 = 3 ÷ 4
severity_map severity_4 = 4 ÷ 4

-- `TIER_MAP`
abbrev pub tier_map : AccountTier → Fraction
tier_map standard = 1 ÷ 2
tier_map premium = 2 ÷ 2

-- `VALUE_BAND_MAP`
abbrev pub value_band_map : ValueBand → Fraction
value_band_map band_1 = 1 ÷ 5
value_band_map band_2 = 2 ÷ 5
value_band_map band_3 = 3 ÷ 5
value_band_map band_4 = 4 ÷ 5
value_band_map band_5 = 5 ÷ 5

pub record QueueFeatures : Type 0 where
  pub id : Text
  pub severity : Severity
  pub sentiment : Option Number
  pub tier : AccountTier
  pub value_band : ValueBand
  pub created_at : ℤ
  pub sla_due_at : ℤ

pub record PriorityWeights : Type 0 where
  pub severity : Number
  pub negativity : Number
  pub urgency : Number
  pub tier : Number

-- 1 as a weight, and 1 as a score.
abbrev pub nano : ℕ
nano = 1_000_000_000

abbrev pub micro : ℕ
micro = 1_000_000

abbrev pub default_priority_weights : PriorityWeights
default_priority_weights = record {
  severity = finite (pos 350_000_000);
  negativity = finite (pos 250_000_000);
  urgency = finite (pos 300_000_000);
  tier = finite (pos 100_000_000);
}
