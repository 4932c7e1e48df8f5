-- ===== src/Queue/Examples.antt =====
-- Two tickets in the queue, one of them past its deadline.
use mathlib.Core.List.Perm
use ledgerdesk.Prelude.{
  ◌≡◌, refl, ◌↔◌, ◌<◌, ◌^◌, some, none, [], ◌∷◌, map, true, false, pos, negsuc, finite, ltb_ℤ, text,
  text_eq, text_lt, arith, ◌+ℤ◌, decimal, pad_start,
}
use ledgerdesk.Priority.{
  severity_1, severity_3, standard, premium, band_1, band_5, QueueFeatures,
  default_priority_weights, ok, compute_priority, assert_instant, assert_valid_weights,
  weight_in_range, compute_components, total_score, quantise_priority, is_breached,
  sentiment_anomalies, normalised_urgency, normalised_severity, normalised_negativity,
  normalised_tier, component, plus, times, clamp,
}
use ledgerdesk.Queue.{
  QueueKey, queue_key, order_queue, keyed, sort_entries, insert_entry, compare_queue_keys,
  stored_collation_key, compare_stored_rows, apply_reopen,
}
use ledgerdesk.Queue.Sorting.{Ordered, order_queue-Ordered}
use ledgerdesk.Queue.Arrival.{order_queue-arrival}
use ledgerdesk.Queue.Collation.{compare_stored_rows-agrees}

abbrev urgent : QueueFeatures
urgent = record {
  id = text "a";
  severity = severity_3;
  sentiment = some (finite (negsuc 499_999));
  tier = premium;
  value_band = band_5;
  created_at = pos 1_000;
  sla_due_at = pos 3_000;
}

abbrev overdue : QueueFeatures
overdue = record {
  id = text "b";
  severity = severity_1;
  sentiment = none;
  tier = standard;
  value_band = band_1;
  created_at = pos 500;
  sla_due_at = pos 1_500;
}

ordered :
    order_queue (urgent ∷ overdue ∷ []) (finite (pos 2_000)) default_priority_weights
    ≡ ok (overdue ∷ urgent ∷ [])
unfolding order_queue keyed queue_key sort_entries insert_entry compare_queue_keys compute_priority
    assert_instant assert_valid_weights weight_in_range compute_components total_score
    quantise_priority is_breached sentiment_anomalies normalised_urgency normalised_severity
    normalised_negativity normalised_tier component plus times clamp text_eq text_lt
ordered = refl

ordered_again :
    order_queue (overdue ∷ urgent ∷ []) (finite (pos 2_000)) default_priority_weights
    ≡ ok (overdue ∷ urgent ∷ [])
unfolding order_queue keyed queue_key sort_entries insert_entry compare_queue_keys compute_priority
    assert_instant assert_valid_weights weight_in_range compute_components total_score
    quantise_priority is_breached sentiment_anomalies normalised_urgency normalised_severity
    normalised_negativity normalised_tier component plus times clamp text_eq text_lt
ordered_again = refl

order_queue-Ordered_example :
    Ordered
      (finite (pos 2_000))
      default_priority_weights
      (urgent ∷ overdue ∷ [])
      (overdue ∷ urgent ∷ [])
order_queue-Ordered_example =
    order_queue-Ordered (urgent ∷ overdue ∷ []) (finite (pos 2_000)) default_priority_weights
      ordered

order_queue-arrival_example :
    map (λ (t : QueueFeatures). t.id) (overdue ∷ urgent ∷ [])
    ≡ map (λ (t : QueueFeatures). t.id) (overdue ∷ urgent ∷ [])
order_queue-arrival_example =
    order_queue-arrival (urgent ∷ overdue ∷ []) (overdue ∷ urgent ∷ []) (finite (pos 2_000))
      default_priority_weights (Perm.swap _ _ _) ordered ordered_again

abbrev late : QueueKey
late = record { breached = true; priority = 300_000; created_at = pos 500; id = text "b" }

abbrev early : QueueKey
early = record { breached = false; priority = 700_000; created_at = pos 1_000; id = text "a" }

stored_late : compare_stored_rows late early ≡ ok (negsuc 0)
unfolding compare_stored_rows stored_collation_key text_eq text_lt decimal pad_start
stored_late = refl

compare_stored_rows-agrees_example :
    ((negsuc 0 ≡ pos 0) ↔ (compare_queue_keys late early ≡ pos 0))
    × ((ltb_ℤ (negsuc 0) (pos 0) ≡ true) ↔ (ltb_ℤ (compare_queue_keys late early) (pos 0) ≡ true))
compare_stored_rows-agrees_example = compare_stored_rows-agrees late early stored_late

abbrev urgent_key : QueueKey
urgent_key = record { breached = false; priority = 700_000; created_at = pos 1_000; id = text "a" }

keyed_urgent : queue_key urgent (finite (pos 2_000)) default_priority_weights ≡ ok urgent_key
unfolding queue_key compute_priority assert_instant assert_valid_weights weight_in_range
    compute_components total_score quantise_priority is_breached sentiment_anomalies
    normalised_urgency normalised_severity normalised_negativity normalised_tier component plus
    times clamp
keyed_urgent = refl

small_instant : 1_000 < 10 ^ 15
small_instant = omega arith

abbrev restarted : QueueFeatures
restarted = record overdue { created_at = pos 5_000; sla_due_at = pos 6_000 }

reopened : apply_reopen overdue (pos 5_000) (pos 1_000) ≡ ok restarted
unfolding apply_reopen ◌+ℤ◌
reopened = refl
