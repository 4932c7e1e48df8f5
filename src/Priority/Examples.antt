-- ===== src/Priority/Examples.antt =====
-- The priority of one ticket, worked out.
use ledgerdesk.Prelude.{◌≡◌, refl, ◌≤◌, some, [], false, pos, negsuc, finite, nan, text}
use ledgerdesk.Priority.{
  severity_3, premium, band_5, QueueFeatures, default_priority_weights, micro, PriorityBreakdown,
  ok, throws, type_error, compute_priority, assert_instant, assert_valid_weights, weight_in_range,
  compute_components, total_score, quantise_priority, is_breached, sentiment_anomalies,
  normalised_urgency, normalised_severity, normalised_negativity, normalised_tier, component, plus,
  times, clamp,
}
use ledgerdesk.Priority.Bounds.{compute_priority-stored_le}

-- Half of the way to its deadline, with a sentiment of -1/2.
abbrev ticket : QueueFeatures
ticket = record {
  id = text "t-1";
  severity = severity_3;
  sentiment = some (finite (negsuc 499_999));
  tier = premium;
  value_band = band_5;
  created_at = pos 1_000;
  sla_due_at = pos 3_000;
}

abbrev computed : PriorityBreakdown
computed = record {
  score = total_score (
      compute_components ticket (pos 2_000) (record {
        severity = 350_000_000;
        negativity = 250_000_000;
        urgency = 300_000_000;
        tier = 100_000_000;
      }));
  stored_score = 700_000;
  breached = false;
  components = compute_components ticket (pos 2_000) (record {
    severity = 350_000_000;
    negativity = 250_000_000;
    urgency = 300_000_000;
    tier = 100_000_000;
  });
  anomalies = [];
}

compute_priority_ticket :
    compute_priority ticket (finite (pos 2_000)) default_priority_weights ≡ ok computed
unfolding compute_priority assert_instant assert_valid_weights weight_in_range compute_components
    total_score quantise_priority is_breached sentiment_anomalies normalised_urgency
    normalised_severity normalised_negativity normalised_tier component plus times clamp
compute_priority_ticket = refl

compute_priority_nan : compute_priority ticket nan default_priority_weights ≡ throws type_error
unfolding compute_priority assert_instant
compute_priority_nan = refl

compute_priority-stored_le_example : 700_000 ≤ micro
compute_priority-stored_le_example =
    compute_priority-stored_le ticket (finite (pos 2_000)) default_priority_weights
      compute_priority_ticket
