-- ===== src/Escalation/Examples.antt =====
-- A legal threat in Spanish.
use mathlib.Core.List.{Memᴰ}
use ledgerdesk.Prelude.{◌≡◌, refl, ◌↔◌, some, none, [], ◌∷◌, map, true, pos, finite, text}
use ledgerdesk.Priority.{severity_1, standard, band_1, ok, ◌>>=◌, assert_instant}
use ledgerdesk.Escalation.{
  EscalationFeatures, EscalationVerdict, ClauseOutcome, default_escalation_thresholds, legal,
  policy, evaluate_escalation, evaluate_escalation_clauses, first_that_fires, escalation_clauses,
  policy_flag_raised, confidence_below_threshold, effective_confidence, outcome_of,
}
use ledgerdesk.Escalation.Rule.{
  Escalates, evaluate_escalation_iff, first_fired, evaluate_escalation-clauses,
}

abbrev threat : EscalationFeatures
threat = record {
  queue = record {
    id = text "t";
    severity = severity_1;
    sentiment = none;
    tier = standard;
    value_band = band_1;
    created_at = pos 0;
    sla_due_at = pos 100;
  };
  confidence = none;
  retries = finite (pos 0);
  language = text "es-CO";
  redacted_body_length = some 0;
  kb_result_count = none;
  grounded = none;
  policy_flags = legal ∷ [];
}

abbrev verdict : EscalationVerdict
verdict = record {
  escalate = true;
  reason = some policy;
  clause = some (text "policy_flag_raised");
}

threat_escalates :
    evaluate_escalation threat (finite (pos 50)) default_escalation_thresholds ≡ ok verdict
unfolding evaluate_escalation assert_instant first_that_fires escalation_clauses policy_flag_raised
threat_escalates = refl

evaluate_escalation_iff_example :
    (v : EscalationVerdict) × (evaluate_escalation threat
        (finite (pos 50))
        default_escalation_thresholds
      ≡ ok v)
    × ((v.escalate ≡ true) ↔ Escalates threat (pos 50) default_escalation_thresholds)
evaluate_escalation_iff_example =
    evaluate_escalation_iff threat (pos 50) default_escalation_thresholds

evaluate_escalation-clauses_example :
    evaluate_escalation threat (finite (pos 50)) default_escalation_thresholds ≡ (
      evaluate_escalation_clauses threat (finite (pos 50)) default_escalation_thresholds
      >>= λ outcomes. ok (first_fired outcomes))
evaluate_escalation-clauses_example =
    evaluate_escalation-clauses threat (finite (pos 50)) default_escalation_thresholds

abbrev low_confidence : ClauseOutcome
low_confidence = outcome_of threat (pos 50) default_escalation_thresholds confidence_below_threshold

low_confidence_fired : low_confidence.fired ≡ true
unfolding confidence_below_threshold effective_confidence
low_confidence_fired = refl

low_confidence_listed :
    Memᴰ low_confidence
      (map (outcome_of threat (pos 50) default_escalation_thresholds) escalation_clauses)
unfolding escalation_clauses
low_confidence_listed = Memᴰ.tail (Memᴰ.tail (Memᴰ.tail (Memᴰ.tail (Memᴰ.head refl))))

all_outcomes :
    evaluate_escalation_clauses threat (finite (pos 50)) default_escalation_thresholds
    ≡ ok (map (outcome_of threat (pos 50) default_escalation_thresholds) escalation_clauses)
unfolding evaluate_escalation_clauses assert_instant
all_outcomes = refl
