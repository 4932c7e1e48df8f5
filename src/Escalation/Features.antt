-- ===== src/Escalation/Features.antt =====
-- What the escalation rule reads (src/alg/escalation.ts, lines 27 to 171). A confidence and a
-- sentiment count units of 10⁻⁶, exactly; lower case is that of the ASCII letters.
use ledgerdesk.Prelude.{
  ℕ, ◌+◌, ◌*◌, Bool, true, false, ◌&&◌, leb, ◌==◌, if◌then◌else◌, Option, none, some, List, [], ◌∷◌,
  map, any, length, ℤ, pos, negsuc, ◌-ℤ◌, ltb_ℤ, Number, finite, nan, infinity, minus_infinity,
  Text, text, text_eq, trim,
}
use ledgerdesk.Priority.{
  Severity, AccountTier, standard, premium, QueueFeatures, Fraction, ◌÷◌, normalised_severity,
}

pub data EscalationReason : Type 0 where
  conf sent tier retry sla grounding policy lang : EscalationReason

pub data PolicyFlag : Type 0 where
  refund complaint legal safety injection : PolicyFlag

-- `queue` holds what the source's intersection type takes from `QueueFeatures`.
pub record EscalationFeatures : Type 0 where
  pub queue : QueueFeatures
  pub confidence : Option Number
  pub retries : Number
  pub language : Text
  pub redacted_body_length : Option ℕ
  pub kb_result_count : Option ℕ
  pub grounded : Option Bool
  pub policy_flags : List PolicyFlag

pub record EscalationThresholds : Type 0 where
  pub confidence : ℤ
  pub sentiment : ℤ
  pub max_retries : ℤ
  pub premium_severity : Fraction
  pub supported_languages : List Text
  pub null_sentiment_confidence_penalty : ℤ

abbrev pub default_escalation_thresholds : EscalationThresholds
default_escalation_thresholds = record {
  confidence = pos 750_000;
  sentiment = negsuc 599_999;
  max_retries = pos 3;
  premium_severity = 3 ÷ 4;
  supported_languages = text "en" ∷ [];
  null_sentiment_confidence_penalty = pos 200_000;
}

-- `Math.max(0, confidence - penalty)`
unfoldable pub less_penalty : Number → ℤ → Number
unfolding ◌-ℤ◌
less_penalty (finite c) penalty =
    finite (if ltb_ℤ (c -ℤ penalty) (pos 0) then pos 0 else c -ℤ penalty)
less_penalty minus_infinity penalty = finite (pos 0)
less_penalty nan penalty = nan
less_penalty infinity penalty = infinity

abbrev is_zero : Option ℕ → Bool
is_zero none = false
is_zero (some n) = n == 0

abbrev charged : Option Number → Option Number → ℤ → Option Number
charged none sentiment penalty = none
charged (some c) none penalty = some (less_penalty c penalty)
charged (some c) (some s) penalty = some c

unfoldable pub effective_confidence : EscalationFeatures → EscalationThresholds → Option Number
unfolding less_penalty
effective_confidence f t =
    if is_zero f.redacted_body_length
    then some (finite (pos 0))
    else charged f.confidence f.queue.sentiment t.null_sentiment_confidence_penalty

unfoldable pub effective_grounded : EscalationFeatures → Option Bool
effective_grounded f = if is_zero f.kb_result_count then some false else f.grounded

abbrev lower : ℕ → ℕ
lower c = if leb 65 c && leb c 90 then c + 32 else c

-- `split('-')[0]`
abbrev first_part : Text → Text
first_part [] = []
first_part (c ∷ s) = if c == 45 then [] else c ∷ first_part s

unfoldable pub primary_language_subtag : Text → Text
primary_language_subtag language = first_part (map lower (trim language))

unfoldable pub is_supported_language : Text → List Text → Bool
unfolding primary_language_subtag
is_supported_language language supported =
    let subtag = primary_language_subtag language in
    if length subtag == 0
    then false
    else any (λ entry. text_eq (primary_language_subtag entry) subtag) supported

abbrev is_premium : AccountTier → Bool
is_premium standard = false
is_premium premium = true

-- `normalisedSeverity(severity) >= floor`
abbrev at_least : Fraction → Fraction → Bool
at_least q floor = leb (floor.num * q.den) (q.num * floor.den)

unfoldable pub is_premium_high_severity : AccountTier → Severity → Fraction → Bool
unfolding normalised_severity
is_premium_high_severity t severity floor =
    is_premium t && at_least (normalised_severity severity) floor
