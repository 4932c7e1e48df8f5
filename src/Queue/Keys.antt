-- ===== src/Queue/Keys.antt =====
-- What a queue key that is computed holds.
use ledgerdesk.Prelude.{◌≡◌, ◌≤◌, arith, Number}
use ledgerdesk.Priority.{
  QueueFeatures, PriorityWeights, PriorityBreakdown, ok, >>=-ok, compute_priority, micro,
}
use ledgerdesk.Priority.Bounds.{compute_priority-stored_le}
use ledgerdesk.Queue.{QueueKey, key_from, queue_key}

pub queue_key-ok :
    (f : QueueFeatures) (now : Number) (w : PriorityWeights) {k : QueueKey}
    → queue_key f now w ≡ ok k
    → (b : PriorityBreakdown) × (compute_priority f now w ≡ ok b) × (key_from f b ≡ k)
unfolding queue_key
queue_key-ok f now w {k} h =
    let (b, hb, last) = >>=-ok (compute_priority f now w) _ h in
    let e : key_from f b ≡ k = ground arith in (b, hb, e)

pub queue_key-le :
    (f : QueueFeatures) (now : Number) (w : PriorityWeights) {k : QueueKey}
    → queue_key f now w ≡ ok k
    → k.priority ≤ micro
queue_key-le f now w {k} h =
    let (b, hb, e) = queue_key-ok f now w h in
    let p : b.stored_score ≡ k.priority = ground arith in
    omega (arith, compute_priority-stored_le f now w hb)
