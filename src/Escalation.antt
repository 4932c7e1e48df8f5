-- ===== src/Escalation.antt =====
-- The escalation rule's clauses and verdict (src/alg/escalation.ts, from line 173 on).
mod Features
pub mod Rule
pub mod Precedence
mod Examples
pub use Features.*
unfoldable pub use Features.{
  less_penalty, effective_confidence, effective_grounded, primary_language_subtag,
  is_supported_language, is_premium_high_severity,
}
use mathlib.Core.Option
use ledgerdesk.Prelude.{
  ℕ, Bool, true, false, not, ◌==◌, if◌then◌else◌, Option, none, some, List, [], ◌∷◌, map, find, any,
  length, ℤ, ltb_ℤ, Number, finite, nan, infinity, minus_infinity, at_most, below, Text, text,
  text_eq, Map, get,
}
use ledgerdesk.Priority.{Checked, ok, throws, ◌>>=◌, assert_instant, is_breached}

pub record EscalationClause : Type 0 where
  pub name : Text
  pub reason : EscalationReason
  pub statement : Text
  pub fires : EscalationFeatures → ℤ → EscalationThresholds → Bool

-- `value !== null && test(value)`
abbrev pub present : (Number → Bool) → Option Number → Bool
present test none = false
present test (some n) = test n

abbrev pub above : Number → ℤ → Bool
above (finite a) n = ltb_ℤ n a
above infinity n = true
above _ n = false

abbrev pub is_false : Option Bool → Bool
is_false (some false) = true
is_false _ = false

unfoldable pub policy_flag_raised : EscalationClause
policy_flag_raised = record {
  name = text "policy_flag_raised";
  reason = policy;
  statement = text "the deterministic policy matcher raised at least one flag on this ticket";
  fires = λ f now t. not (length f.policy_flags == 0);
}

unfoldable pub retry_budget_exhausted : EscalationClause
retry_budget_exhausted = record {
  name = text "retry_budget_exhausted";
  reason = retry;
  statement = text "the provider retry budget is spent";
  fires = λ f now t. above f.retries t.max_retries;
}

unfoldable pub language_out_of_scope : EscalationClause
unfolding is_supported_language
language_out_of_scope = record {
  name = text "language_out_of_scope";
  reason = lang;
  statement = text "the ticket is not in a supported language, so no answer is attempted";
  fires = λ f now t. not (is_supported_language f.language t.supported_languages);
}

unfoldable pub sla_breached : EscalationClause
unfolding is_breached
sla_breached = record {
  name = text "sla_breached";
  reason = sla;
  statement = text "the SLA instant has passed";
  fires = λ f now t. is_breached f.queue now;
}

unfoldable pub confidence_below_threshold : EscalationClause
unfolding effective_confidence
confidence_below_threshold = record {
  name = text "confidence_below_threshold";
  reason = conf;
  statement = text "triage confidence is below the escalation threshold";
  fires = λ f now t. present (λ c. below c t.confidence) (effective_confidence f t);
}

unfoldable pub sentiment_at_or_below_threshold : EscalationClause
sentiment_at_or_below_threshold = record {
  name = text "sentiment_at_or_below_threshold";
  reason = sent;
  statement = text "the customer sentiment is at or below the escalation threshold";
  fires = λ f now t. present (λ s. at_most s t.sentiment) f.queue.sentiment;
}

unfoldable pub premium_high_severity : EscalationClause
unfolding is_premium_high_severity
premium_high_severity = record {
  name = text "premium_high_severity";
  reason = tier;
  statement = text "a premium account raised a high-severity ticket";
  fires = λ f now t. is_premium_high_severity f.queue.tier f.queue.severity t.premium_severity;
}

unfoldable pub draft_not_grounded : EscalationClause
unfolding effective_grounded
draft_not_grounded = record {
  name = text "draft_not_grounded";
  reason = grounding;
  statement = text "the draft is not grounded in a retrieved source";
  fires = λ f now t. is_false (effective_grounded f);
}

unfoldable pub escalation_clauses : List EscalationClause
escalation_clauses =
    policy_flag_raised ∷ retry_budget_exhausted ∷ language_out_of_scope ∷ sla_breached
    ∷ confidence_below_threshold ∷ sentiment_at_or_below_threshold ∷ premium_high_severity
    ∷ draft_not_grounded ∷ []

pub data Stage : Type 0 where
  record_stage triage_stage draft_stage : Stage

-- `CLAUSE_STAGE`
unfoldable pub clause_stage : Map Stage
clause_stage =
    (text "policy_flag_raised", record_stage)
    ∷ (text "retry_budget_exhausted", record_stage)
    ∷ (text "language_out_of_scope", record_stage)
    ∷ (text "sla_breached", record_stage)
    ∷ (text "confidence_below_threshold", triage_stage)
    ∷ (text "sentiment_at_or_below_threshold", triage_stage)
    ∷ (text "premium_high_severity", triage_stage)
    ∷ (text "draft_not_grounded", draft_stage)
    ∷ []

pub record EscalationVerdict : Type 0 where
  pub escalate : Bool
  pub reason : Option EscalationReason
  pub clause : Option Text

-- The loop over the clauses: it stops at the first that fires.
unfoldable pub first_that_fires :
    EscalationFeatures → ℤ → EscalationThresholds → List EscalationClause → EscalationVerdict
first_that_fires f now t [] = record { escalate = false; reason = none; clause = none }
first_that_fires f now t (c ∷ cs) =
    if c.fires f now t
    then record { escalate = true; reason = some c.reason; clause = some c.name }
    else first_that_fires f now t cs

unfoldable pub evaluate_escalation :
    EscalationFeatures → Number → EscalationThresholds → Checked EscalationVerdict
unfolding assert_instant first_that_fires
evaluate_escalation f now t = do
  instant ← assert_instant now
  ok (first_that_fires f instant t escalation_clauses)

pub record ClauseOutcome : Type 0 where
  pub clause : Text
  pub reason : EscalationReason
  pub fired : Bool

abbrev pub outcome_of :
    EscalationFeatures → ℤ → EscalationThresholds → EscalationClause → ClauseOutcome
outcome_of f now t c = record { clause = c.name; reason = c.reason; fired = c.fires f now t }

unfoldable pub evaluate_escalation_clauses :
    EscalationFeatures → Number → EscalationThresholds → Checked (List ClauseOutcome)
unfolding assert_instant
evaluate_escalation_clauses f now t = do
  instant ← assert_instant now
  ok (map (outcome_of f instant t) escalation_clauses)

unfoldable pub clause_by_name : Text → Option EscalationClause
clause_by_name name = find (λ c. text_eq c.name name) escalation_clauses
